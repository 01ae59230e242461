-- ===== src/Mm/Pmm/Cache.antt =====
-- boron/source/mm/pmm.c: a page of the page cache, from its allocation to its last reference.
use boron.Prelude.{
  ℕ, ◌%◌, ◌^◌, ◌≡◌, ◌≢◌, refl, arith, true, not, none, some, List, inl, inr, ◌==◌, if-both, subst,
}
use boron.Mm.Pmm.{
  Pfdb, PageList, standby_list, modified_list, pfn_invalid, pf_type_used, set_frame,
  set_prototype_pte, set_cache_details, set_modified_pfn, free_physical_page,
}
use boron.Mm.Pmm.Lists.{IsPfdb}
use boron.Mm.Pmm.Free.{
  put, destination, Freed, update-IsPfdb, referenced-Outside, free_physical_page-Freed,
}

-- The database with a page that was given to the page cache.
abbrev pub cached : Pfdb → ℕ → ℕ → ℕ → Pfdb
cached s p pte offset = set_cache_details (set_prototype_pte s p pte) p offset

cached-IsPfdb :
    (s : Pfdb) (v : PageList → List ℕ) (n p pte offset : ℕ)
    → IsPfdb s v n
    → (s.frame p).ref_count ≢ 0
    → IsPfdb (cached s p pte offset) v n
cached-IsPfdb s v n p pte offset i h =
    let out = referenced-Outside s v n p i h in
    update-IsPfdb (set_prototype_pte s p pte) v n p _ (update-IsPfdb s v n p _ i out) out

-- The same page after it was written to.
abbrev written : Pfdb → ℕ → ℕ → ℕ → Pfdb
written s p pte offset =
    let c = cached s p pte offset in set_frame c p (record (c.frame p) { modified = true })

-- A page with its last reference goes where its frame says.
freed_to :
    (s : Pfdb) (v : PageList → List ℕ) (n p : ℕ) (k : PageList)
    → IsPfdb s v n
    → p ≢ pfn_invalid
    → (s.frame p).page_type ≡ pf_type_used
    → (s.frame p).ref_count ≡ 1
    → destination (s.frame p) ≡ k
    → (s' : Pfdb) × (free_physical_page s p ≡ some s') × IsPfdb s' (put v k p) n
freed_to s v n p k i real u one to =
    go (free_physical_page-Freed s v n p i real (omega (arith, one)) (inl u))
  where
    go :
        ((s' : Pfdb) × (free_physical_page s p ≡ some s') × Freed s v n p s')
        → (s' : Pfdb) × (free_physical_page s p ≡ some s') × IsPfdb s' (put v k p) n
    go (s', run, inl (h, _, _, _)) = absurd (h one)
    go (s', run, inr (_, j)) = (s', run, subst (λ l. IsPfdb s' (put v l p) n) to j)

-- In a database that describes four lists, a used page with one reference, which
-- MmSetPrototypePtePfn and MmSetCacheDetailsPfn gave to the page cache with an entry whose low 48 bits
-- are not all 0, goes to the end of the standby list when it is freed, and to the end of the modified list where
-- MmSetModifiedPfn marked it before.
pub free_cached-Kept :
    (s : Pfdb) (v : PageList → List ℕ) (n p pte offset : ℕ)
    → IsPfdb s v n
    → p ≢ pfn_invalid
    → (s.frame p).page_type ≡ pf_type_used
    → (s.frame p).ref_count ≡ 1
    → pte % 2 ^ 48 ≢ 0
    → ((s' : Pfdb) × (free_physical_page (cached s p pte offset) p ≡ some s')
        × IsPfdb s' (put v standby_list p) n)
      × ((s1 : Pfdb) × (s2 : Pfdb) × (set_modified_pfn (cached s p pte offset) p ≡ some s1)
          × (free_physical_page s1 p ≡ some s2)
          × IsPfdb s2 (put v modified_list p) n)
unfolding set_modified_pfn
free_cached-Kept s v n p pte offset i real u one some' =
    let c = cached-IsPfdb s v n p pte offset i (omega (arith, one)) in
    let out = referenced-Outside s v n p i (omega (arith, one)) in
    let dirty =
      freed_to (written s p pte offset) v n p modified_list
        (update-IsPfdb (cached s p pte offset) v n p _ c out) real (ground (arith, u))
        (ground (arith, one)) (ground (arith, some')) in
    (
      freed_to (cached s p pte offset) v n p standby_list c real (ground (arith, u))
          (ground (arith, one)) (ground (arith, some')),
      (
        written s p pte offset,
        dirty.0,
        if-both (λ r. r ≡ some (written s p pte offset))
            (not (((cached s p pte offset).frame p).page_type == pf_type_used)) none _
            (λ b. absurd (ground (arith, b, u))) (λ b. refl),
        dirty.1,
        dirty.2,
      ),
    )
