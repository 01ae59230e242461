-- ===== src/Mm/Pmm/Writer.antt =====
-- boron/source/mm/pmm.c: what the modified page writer does with the lists.
use boron.Prelude.{
  Option, none, some, count, ℕ, ◌<◌, ◌≡◌, ◌≢◌, refl, sym, ap, ◌∙◌, arith, true, false, not, ◌||◌,
  List, [], ◌∷◌, ◌==◌, if◌then◌else◌, if-both, subst,
}
use boron.Mm.Pmm.{
  Pfdb, PageList, standby_list, modified_list, pfn_invalid, pf_type_used, set_frame, unlink_pfn,
  remove_pfn_from_list, initialize_pfn, allocate_from_free_list, remove_one_modified_pfn,
  transform_page_to_standby, reinsert_into_modified_list,
}
use boron.Mm.Pmm.Delete.{removed-Place, delete-Outside, delete-IsLists}
use boron.Mm.Pmm.Allocate.{first_of_list}
use boron.Mm.Pmm.Lists.{IsPfdb, set_list, Outside, update-IsLists, unlink_pfn-SameBody}
use boron.Mm.Pmm.Free.{put, put_modified, transform_page_to_standby-IsPfdb}

-- A page on no list, whose contents are being written.
pub record BeingWritten (s : Pfdb) (v : PageList → List ℕ) (x : ℕ) : Type 0 where
  pub real : x ≢ pfn_invalid
  pub outside : Outside v x
  pub idle : (s.frame x).ref_count ≡ 0
  pub is_used : (s.frame x).page_type ≡ pf_type_used
  pub clean : (s.frame x).is_in_modified_page_list ≡ false

-- The database without the first modified page.
abbrev taken : Pfdb → ℕ → Pfdb
taken s x =
    let s1 = remove_pfn_from_list s modified_list x in
    set_frame s1 x (record (s1.frame x) { is_in_modified_page_list = false })

allocate_modified :
    (s : Pfdb) (x : ℕ)
    → (s.ends modified_list).first ≡ x
    → x ≢ pfn_invalid
    → (unlink_pfn s.frame x x).page_type ≡ pf_type_used
    → allocate_from_free_list s modified_list ≡ some (x, remove_pfn_from_list s modified_list x)
unfolding allocate_from_free_list
allocate_modified s x at real u =
    if-both (λ r. r ≡ some (x, s1)) ((s.ends modified_list).first == pfn_invalid) _ _
      (λ b. absurd (ground (arith, b, at, real)))
      (λ b.
        ap
          (λ y. elim (initialize_pfn (remove_pfn_from_list s modified_list y) y) [
            | none ↦ none
            | some d ↦ some (y, d)
          ])
          at
        ∙ ap (λ o. elim o [ none ↦ none | some d ↦ some (x, d) ]) initialized)
  where
    s1 : Pfdb
    s1 = remove_pfn_from_list s modified_list x

    initialized : initialize_pfn s1 x ≡ some s1
    initialized =
        if-both (λ d. d ≡ some s1) ((s1.frame x).page_type == pf_type_used) _ _ (λ b. refl)
          (λ b. absurd (ground (arith, b, u)))

taken_if_real :
    (s : Pfdb) (r q : Option (ℕ × Pfdb)) (x : ℕ)
    → x ≢ pfn_invalid
    → (if x == pfn_invalid then r else q) ≡ q
taken_if_real s r q x h =
    if-both (λ y. y ≡ q) (x == pfn_invalid) r q (λ b. absurd (ground (arith, b, h))) (λ b. refl)

-- MiRemoveOneModifiedPfn takes the first modified page off its list, with no reference and still
-- marked used, and leaves the others.
pub remove_one_modified_pfn-BeingWritten :
    (s : Pfdb) (v : PageList → List ℕ) (n x : ℕ) (xs : List ℕ)
    → IsPfdb s v n
    → v modified_list ≡ x ∷ xs
    → (s' : Pfdb) × (remove_one_modified_pfn s ≡ some (x, s'))
      × IsPfdb s' (set_list v modified_list xs) n
      × BeingWritten s' (set_list v modified_list xs) x
unfolding remove_one_modified_pfn
remove_one_modified_pfn-BeingWritten s v n x xs i e = (
  taken s x,
  ap
        (λ o. elim o [
          | none ↦ none
          | some r ↦
              if r.0 == pfn_invalid
              then some r
              else some (
                r.0,
                set_frame r.1 r.0 (record (r.1.frame r.0) { is_in_modified_page_list = false }),
              )
        ])
        (allocate_modified s x (first_of_list s v modified_list x xs i.lists e) real kind)
      ∙ (taken_if_real s _ (some (x, taken s x)) x real),
  record {
    lists =
        update-IsLists (unlink_pfn s.frame x) _ (set_list v modified_list xs) x _
          (delete-IsLists s.frame s.ends v modified_list [] x xs i.lists e) out;
    counted = i.counted;
  },
  record {
    real = real;
    outside = out;
    idle = ground (arith, (unlink_pfn-SameBody s.frame x x).1, i.lists.idle modified_list x here);
    is_used = ground (arith, kind);
    clean = ground arith;
  },
)
  where
    real : x ≢ pfn_invalid
    real = (removed-Place s.frame s.ends v modified_list [] x xs i.lists e).real

    out : Outside (set_list v modified_list xs) x
    out = delete-Outside s.frame s.ends v modified_list [] x xs i.lists e

    here : 0 < count x (v modified_list)
    here = subst (λ l. 0 < count x l) (sym e) (ground arith)

    kind : (unlink_pfn s.frame x x).page_type ≡ pf_type_used
    kind = (unlink_pfn-SameBody s.frame x x).0 ∙ i.lists.typed modified_list x here

-- A page that was written becomes the last one of the standby list.
pub transform_page_to_standby-Written :
    (s : Pfdb) (v : PageList → List ℕ) (n x : ℕ)
    → IsPfdb s v n
    → BeingWritten s v x
    → IsPfdb (transform_page_to_standby s x) (put v standby_list x) n
transform_page_to_standby-Written s v n x i w =
    transform_page_to_standby-IsPfdb s v n x i w.outside w.real w.idle w.clean w.is_used

-- A page that could not be written becomes the last one of the modified list again.
pub reinsert_into_modified_list-Modified :
    (s : Pfdb) (v : PageList → List ℕ) (n x : ℕ)
    → IsPfdb s v n
    → BeingWritten s v x
    → IsPfdb (reinsert_into_modified_list s x) (put v modified_list x) n
unfolding reinsert_into_modified_list
reinsert_into_modified_list-Modified s v n x i w =
    if-both P (not ((s.frame x).ref_count == 0) || not ((s.frame x).page_type == pf_type_used)) s _
      (λ b. absurd (ground (arith, b, w.idle, w.is_used)))
      (λ b.
        if-both P (s.frame x).is_in_modified_page_list s _
          (λ c. absurd (ground (arith, c, w.clean)))
          (λ c. put_modified s v n x i w.outside w.real w.idle true w.is_used))
  where
    P : Pfdb → Type 0
    P d = IsPfdb d (put v modified_list x) n
