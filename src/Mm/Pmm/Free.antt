-- ===== src/Mm/Pmm/Free.antt =====
-- boron/source/mm/pmm.c: MmFreePhysicalPage puts a page on a list when its last reference is given up.
use boron.Prelude.{
  if-both_two, ℕ, ◌+◌, ◌-◌, ◌≡◌, ◌≢◌, refl, ◌∙◌, arith, Bool, true, false, not, ◌||◌, List, [], ◌∷◌,
  ◌++◌, ◌⊎◌, inl, inr, ◌==◌, if◌then◌else◌, if-both, subst, Option, none, some, length-append,
}
use boron.Mm.Pmm.{
  PageFrame, Pfdb, PageList, free_list, standby_list, modified_list, pfn_invalid, pf_type_used,
  pf_type_reclaim, pf_type_mmio, pf_type_transition, pf_type_free, list_type, same_list, set_frame,
  link_pfn, add_pfn_to_list, release_page, free_physical_page, transform_page_to_standby,
}
use boron.Mm.Pmm.Insert.{insert-IsLists}
use boron.Mm.Pmm.Lists.{
  IsPfdb, set_list, Outside, link_pfn-SameBody, update-IsLists, available-set_list,
}

-- The list for a page without references.
abbrev pub destination : PageFrame → PageList
destination p =
    if not (p.prototype_pte == 0)
    then if p.modified then modified_list else standby_list
    else free_list

-- The lists with the page at the end of one.
abbrev pub put : (PageList → List ℕ) → PageList → ℕ → PageList → List ℕ
put v k p = set_list v k (v k ++ (p ∷ []))

-- A page with references is on no list.
pub referenced-Outside :
    (s : Pfdb) (v : PageList → List ℕ) (n p : ℕ)
    → IsPfdb s v n
    → (s.frame p).ref_count ≢ 0
    → Outside v p
referenced-Outside s v n p i h k = ground (arith, h, i.lists.idle k p)

module _ (s : Pfdb) (v : PageList → List ℕ) (n p : ℕ) (i : IsPfdb s v n) (out : Outside v p)
    (real : p ≢ pfn_invalid) (idle : (s.frame p).ref_count ≡ 0) where
  abbrev linked : PageList → PageFrame
  linked k = link_pfn s.frame (s.ends k) p p

  idle_linked : (k : PageList) → (linked k).ref_count ≡ 0
  idle_linked k = (link_pfn-SameBody s.frame (s.ends k) p p).1 ∙ idle

  -- The page is put on a list of pages that can be had.
  pub put_available :
      (k : PageList) (t : ℕ) (m : Bool)
      → same_list k modified_list ≡ false
      → t ≡ list_type k
      → IsPfdb
          (record (set_frame
            (add_pfn_to_list s k p)
            p
            (record (linked k) { page_type = t; modified = m })) {
              total_free_pages = s.total_free_pages + 1;
            })
          (put v k p)
          n
  put_available k t m h e = record {
    lists =
        insert-IsLists s.frame s.ends v k p (record (linked k) { page_type = t; modified = m })
          i.lists out real
          (record {
            links = (refl, refl);
            typed = e;
            idle = idle_linked k;
            flagged = λ b. absurd (ground (arith, b, h));
          });
    counted = omega (
      arith,
      i.counted,
      available-set_list v k (v k ++ (p ∷ [])) h,
      length-append (v k) (p ∷ []),
    );
  }

  -- The page is put on the list of modified pages.
  pub put_modified :
      (m : Bool)
      → (s.frame p).page_type ≡ pf_type_used
      → IsPfdb
          (set_frame
            (add_pfn_to_list s modified_list p)
            p
            (record (linked modified_list) { is_in_modified_page_list = true; modified = m }))
          (put v modified_list p)
          n
  put_modified m u = record {
    lists =
        insert-IsLists s.frame s.ends v modified_list p
          (record (linked modified_list) { is_in_modified_page_list = true; modified = m }) i.lists
          out real
          (record {
            links = (refl, refl);
            typed = (link_pfn-SameBody s.frame (s.ends modified_list) p p).0 ∙ u;
            idle = idle_linked modified_list;
            flagged = λ b. refl;
          });
    counted = i.counted;
  }

  pub release_page-IsPfdb :
      ((s.frame p).page_type ≡ pf_type_used) ⊎ ((s.frame p).prototype_pte ≡ 0)
      → IsPfdb (release_page s p) (put v (destination (s.frame p)) p) n
  release_page-IsPfdb u =
      if-both_two P (not ((s.frame p).prototype_pte == 0)) _ _ _ _
        (λ b.
          if-both_two P (s.frame p).modified _ _ _ _
            (λ m. put_modified (linked modified_list).modified (ground (arith, b, u)))
            (λ m.
              put_available standby_list pf_type_transition (linked standby_list).modified refl
                refl))
        (λ b. put_available free_list pf_type_free (linked free_list).modified refl refl)
    where
      P : Pfdb → PageList → Type 0
      P d k = IsPfdb d (put v k p) n

  pub transform_page_to_standby-IsPfdb :
      (s.frame p).is_in_modified_page_list ≡ false
      → (s.frame p).page_type ≡ pf_type_used
      → IsPfdb (transform_page_to_standby s p) (put v standby_list p) n
  unfolding transform_page_to_standby
  transform_page_to_standby-IsPfdb clean u =
      if-both P (not ((s.frame p).ref_count == 0) || not ((s.frame p).page_type == pf_type_used)) _
        _ (λ b. absurd (ground (arith, b, idle, u)))
        (λ b.
          if-both P (s.frame p).is_in_modified_page_list _ _
            (λ c. absurd (ground (arith, c, clean)))
            (λ c. put_available standby_list pf_type_transition false refl refl))
    where
      P : Pfdb → Type 0
      P d = IsPfdb d (put v standby_list p) n

-- What the release of a reference does: one of several is counted off, and the last one puts the page
-- at the end of the list that it is for.
abbrev pub Freed : Pfdb → (PageList → List ℕ) → ℕ → ℕ → Pfdb → Type 0
Freed s v n p s' =
    (((s.frame p).ref_count ≢ 1)
      × ((s'.frame p).ref_count ≡ (s.frame p).ref_count - 1)
      × ((s'.frame p).page_type ≡ (s.frame p).page_type)
      × IsPfdb s' v n)
    ⊎ (((s.frame p).ref_count ≡ 1) × IsPfdb s' (put v (destination (s.frame p)) p) n)

counted_off : Pfdb → ℕ → Pfdb
counted_off s p = set_frame s p (record (s.frame p) { ref_count = (s.frame p).ref_count - 1 })

pub update-IsPfdb :
    (s : Pfdb) (v : PageList → List ℕ) (n p : ℕ) (x : PageFrame)
    → IsPfdb s v n
    → Outside v p
    → IsPfdb (set_frame s p x) v n
update-IsPfdb s v n p x i out = record {
  lists = update-IsLists s.frame s.ends v p x i.lists out;
  counted = i.counted;
}

-- In a database that describes four lists, MmFreePhysicalPage of a page that has a reference, and that is
-- used or is reclaimed without a prototype page table entry, does not crash. One reference of several
-- is counted off. The last one puts the page at the end of the free list, or with a prototype page table
-- entry at the end of the modified or the standby list; the lists are otherwise the same, and the
-- count of free pages stays in step with them.
pub free_physical_page-Freed :
    (s : Pfdb) (v : PageList → List ℕ) (n p : ℕ)
    → IsPfdb s v n
    → p ≢ pfn_invalid
    → (s.frame p).ref_count ≢ 0
    → ((s.frame p).page_type ≡ pf_type_used)
      ⊎ (((s.frame p).page_type ≡ pf_type_reclaim) × ((s.frame p).prototype_pte ≡ 0))
    → (s' : Pfdb) × (free_physical_page s p ≡ some s') × Freed s v n p s'
unfolding free_physical_page counted_off
free_physical_page-Freed s v n p i real some' u =
    if-both P
      (not (
          (s.frame p).page_type == pf_type_used
          || (s.frame p).page_type == pf_type_reclaim
          || (s.frame p).page_type == pf_type_mmio)
        || (s.frame p).ref_count == 0)
      none _ (λ b. absurd (ground (arith, b, u, some')))
      (λ b.
        if-both P (not ((s.frame p).ref_count - 1 == 0)) (some (counted_off s p)) _
          (λ c. (
            counted_off s p,
            refl,
            inl (ground (arith, c), ground arith, ground arith, update-IsPfdb s v n p _ i out),
          ))
          (λ c.
            if-both P ((s.frame p).page_type == pf_type_mmio) none _
              (λ d. absurd (ground (arith, d, u)))
              (λ d. (
                release_page unlisted p,
                refl,
                inr (
                  ground (arith, c, some'),
                  subst (λ k. IsPfdb (release_page unlisted p) (put v k p) n) same
                      (release_page-IsPfdb unlisted v n p
                        (update-IsPfdb (counted_off s p) v n p _ (update-IsPfdb s v n p _ i out)
                          out)
                        out real (ground (arith, c)) (ground (arith, u))),
                ),
              ))))
  where
    P : Option Pfdb → Type 0
    P r = (s' : Pfdb) × (r ≡ some s') × Freed s v n p s'

    out : Outside v p
    out = referenced-Outside s v n p i some'

    unlisted : Pfdb
    unlisted =
        set_frame (counted_off s p) p
          (record ((counted_off s p).frame p) { is_in_modified_page_list = false })

    same : destination (unlisted.frame p) ≡ destination (s.frame p)
    same = ground arith
