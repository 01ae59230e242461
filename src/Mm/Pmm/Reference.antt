-- ===== src/Mm/Pmm/Reference.antt =====
-- boron/source/mm/pmm.c: MiPageAddReferenceWithPfdbLocked, on a page with references and on one of the
-- standby or the modified list.
use boron.Prelude.{
  count, count-append, ℕ, ◌+◌, ◌<◌, ◌≡◌, ◌≢◌, refl, ap, arith, List, ◌∷◌, ◌++◌, ◌==◌, if◌then◌else◌,
  if-both, Option, some, length, length-append,
}
use boron.Mm.Pmm.{
  Pfdb, PageList, standby_list, modified_list, same_list, page_add_reference, get_reference_count,
}
use boron.Mm.Pmm.Recover.{
  recovered, counted_up, recovered_standby, recovered_modified, recovered-IsLists,
  page_add_reference-recovered,
}
use boron.Mm.Pmm.Lists.{IsPfdb, set_list, available-set_list}
use boron.Mm.Pmm.Free.{referenced-Outside, update-IsPfdb}

-- The two lists that a page is recovered from.
pub data Recoverable : PageList → Type 0 where
  from_standby : Recoverable standby_list
  from_modified : Recoverable modified_list

abbrev pub lost : PageList → ℕ
lost k = if same_list k standby_list then 1 else 0

recovered-IsPfdb :
    (s : Pfdb) (v : PageList → List ℕ) (n : ℕ) (k : PageList) (xs : List ℕ) (p : ℕ) (ys : List ℕ)
    → IsPfdb s v n
    → Recoverable k
    → v k ≡ xs ++ (p ∷ ys)
    → IsPfdb (recovered s p) (set_list v k (xs ++ ys)) (n + lost k)
recovered-IsPfdb s v n _ xs p ys i from_standby e = record {
  lists =
      recovered-IsLists s.frame s.ends v standby_list xs p ys _ i.lists e
        (recovered_standby s.frame s.ends v xs p ys i.lists e);
  counted = omega (
    arith,
    i.counted,
    available-set_list v standby_list (xs ++ ys) refl,
    ap length e,
    length-append xs (p ∷ ys),
    length-append xs ys,
  );
}
recovered-IsPfdb s v n _ xs p ys i from_modified e = record {
  lists =
      recovered-IsLists s.frame s.ends v modified_list xs p ys _ i.lists e
        (recovered_modified s.frame s.ends v xs p ys i.lists e);
  counted = omega (arith, i.counted);
}

-- In a database that describes four lists, MiPageAddReferenceWithPfdbLocked of a page anywhere in the
-- standby or the modified list, with a prototype page table entry, takes it off that list and gives it
-- one reference. MmTotalFreePages stays, so after a page of the standby list it counts one page too
-- many.
pub page_add_reference-Recovers :
    (s : Pfdb) (v : PageList → List ℕ) (n : ℕ) (k : PageList) (xs : List ℕ) (p : ℕ) (ys : List ℕ)
    → IsPfdb s v n
    → Recoverable k
    → v k ≡ xs ++ (p ∷ ys)
    → (s.frame p).prototype_pte ≢ 0
    → (s' : Pfdb) × (page_add_reference s p ≡ some s')
      × (get_reference_count s' p ≡ 1)
      × (s'.total_free_pages ≡ s.total_free_pages)
      × IsPfdb s' (set_list v k (xs ++ ys)) (n + lost k)
unfolding get_reference_count
page_add_reference-Recovers s v n k xs p ys i r e pte = (
  recovered s p,
  page_add_reference-recovered s p (i.lists.idle k p here) pte,
  ground arith,
  refl,
  recovered-IsPfdb s v n k xs p ys i r e,
)
  where
    here : 0 < count p (v k)
    here = ground (arith, ap (count p) e, count-append p xs (p ∷ ys))

-- A page with references gets one more.
pub page_add_reference-counts :
    (s : Pfdb) (v : PageList → List ℕ) (n p : ℕ)
    → IsPfdb s v n
    → (s.frame p).ref_count ≢ 0
    → (s' : Pfdb) × (page_add_reference s p ≡ some s')
      × ((s'.frame p).ref_count ≡ (s.frame p).ref_count + 1)
      × IsPfdb s' v n
unfolding page_add_reference
page_add_reference-counts s v n p i some' =
    if-both P ((s.frame p).ref_count == 0) _ (some up) (λ b. absurd (ground (arith, b, some')))
      (λ b.
        (up, refl, ground arith, update-IsPfdb s v n p _ i (referenced-Outside s v n p i some')))
  where
    up : Pfdb
    up = record s { frame = counted_up s.frame p }

    P : Option Pfdb → Type 0
    P r =
        (s' : Pfdb) × (r ≡ some s')
        × ((s'.frame p).ref_count ≡ (s.frame p).ref_count + 1)
        × IsPfdb s' v n
