-- ===== src/Mm/Pmm/Allocate.antt =====
-- boron/source/mm/pmm.c: MiAllocatePhysicalPageWithPfdbLocked takes the first page of the first of the
-- zero, free and standby lists that has one.
use boron.Prelude.{
  ℕ, ◌-◌, ◌≡◌, ◌≢◌, refl, ap, ◌∙◌, arith, Bool, true, false, not, List, [], ◌∷◌, ◌==◌,
  if◌then◌else◌, if-both, Option, none, some,
}
use boron.Mm.Pmm.{
  Pfdb, PageList, zero_list, free_list, standby_list, pfn_invalid, pf_type_used, same_list,
  allocate_from_free_list, allocate_unzeroed_page,
}
use boron.Mm.Pmm.Chain.{first_or}
use boron.Mm.Pmm.Lists.{IsLists, IsPfdb, set_list, Outside, SameBody}

-- What MmpInitializePfn makes of a page that was taken from a list of free pages.
pub record Got (s : Pfdb) (v : PageList → List ℕ) (k : PageList) (x : ℕ) (xs : List ℕ) (s' : Pfdb)
    : Type 0 where
  pub real : x ≢ pfn_invalid
  pub lists : IsLists s'.frame s'.ends (set_list v k xs)
  pub outside : Outside (set_list v k xs) x
  pub is_used : (s'.frame x).page_type ≡ pf_type_used
  pub referenced : (s'.frame x).ref_count ≡ 1
  pub no_prototype : (s'.frame x).prototype_pte ≡ 0
  pub others : (z : ℕ) → z ≢ x → SameBody (s'.frame z) (s.frame z)
  pub total : s'.total_free_pages ≡ s.total_free_pages - 1
  pub reclaimed :
      s'.reclaimed
      ≡ (if same_list k standby_list then (s.frame x).prototype_pte ∷ s.reclaimed else s.reclaimed)

-- MmpInitializePfn of the first page of a list of free pages: a crash for a standby page without a
-- prototype page table entry, and the page otherwise.
abbrev Initializes : Pfdb → (PageList → List ℕ) → PageList → ℕ → List ℕ → Option Pfdb → Type 0
Initializes s v k x xs none = (k ≡ standby_list) × ((s.frame x).prototype_pte ≡ 0)
Initializes s v k x xs (some s') =
    (k ≡ standby_list → (s.frame x).prototype_pte ≢ 0) × Got s v k x xs s'

pub first_of_list :
    (s : Pfdb) (v : PageList → List ℕ) (k : PageList) (x : ℕ) (xs : List ℕ)
    → IsLists s.frame s.ends v
    → v k ≡ x ∷ xs
    → (s.ends k).first ≡ x
first_of_list s v k x xs i e = (i.chain k).first ∙ ap (λ l. first_or l pfn_invalid) e

-- A list that is empty gives no page, and another one its first page.
pub allocate_from-empty :
    (s : Pfdb) (v : PageList → List ℕ) (k : PageList)
    → IsLists s.frame s.ends v
    → v k ≡ []
    → allocate_from_free_list s k ≡ some (pfn_invalid, s)
unfolding allocate_from_free_list
allocate_from-empty s v k i e =
    if-both (λ r. r ≡ some (pfn_invalid, s)) ((s.ends k).first == pfn_invalid) _ _ (λ b. refl)
      (λ b. absurd (ground (arith, b, (i.chain k).first ∙ ap (λ l. first_or l pfn_invalid) e)))

-- The page, if its initialization does not crash.
abbrev with_page : ℕ → Option Pfdb → Option (ℕ × Pfdb)
with_page x o = elim o [ none ↦ none | some s1 ↦ some (x, s1) ]

-- The list that a page is taken from, if there is one.
abbrev pub first_available : (PageList → List ℕ) → Option PageList
first_available v = elim (v zero_list) [
  | _ ∷ _ ↦ some zero_list
  | [] ↦ elim (v free_list) [
    | _ ∷ _ ↦ some free_list
    | [] ↦ elim (v standby_list) [ _ ∷ _ ↦ some standby_list | [] ↦ none ]
  ]
]

-- What an allocation from a list does.
pub record Allocated (s : Pfdb) (v : PageList → List ℕ) (n : ℕ) (k : PageList) (r : ℕ × Bool × Pfdb)
    : Type 0 where
  pub rest : List ℕ
  pub first : v k ≡ r.0 ∷ rest
  pub zeroed : r.1 ≡ same_list k zero_list
  pub backed : k ≡ standby_list → (s.frame r.0).prototype_pte ≢ 0
  pub got : Got s v k r.0 rest r.2
  pub counts : IsPfdb r.2 (set_list v k rest) n

-- It crashes at a standby page that has no prototype page table entry.
abbrev pub AllocatedOrCrash :
    Pfdb → (PageList → List ℕ) → ℕ → PageList → Option (ℕ × Bool × Pfdb) → Type 0
AllocatedOrCrash s v n k none =
    (k ≡ standby_list) × ((s.frame (s.ends standby_list).first).prototype_pte ≡ 0)
AllocatedOrCrash s v n k (some r) = Allocated s v n k r

abbrev pub AllocatesOrNot :
    Pfdb → (PageList → List ℕ) → ℕ → Option (ℕ × Bool × Pfdb) → Option PageList → Type 0
AllocatesOrNot s v n r none = r ≡ some (pfn_invalid, false, s)
AllocatesOrNot s v n r (some k) = AllocatedOrCrash s v n k r

-- The result of an allocation whose page came from a list.
abbrev with_zeroed : ℕ → Bool → Option Pfdb → Option (ℕ × Bool × Pfdb)
with_zeroed x b o = elim o [ none ↦ none | some s1 ↦ some (x, b, s1) ]

-- How an attempt goes on.
abbrev after_free : Option (ℕ × Pfdb) → Option (ℕ × Bool × Pfdb)
after_free o = elim o [
  | none ↦ none
  | some r ↦
      if not (r.0 == pfn_invalid)
      then some (r.0, false, r.1)
      else elim (allocate_from_free_list r.1 standby_list) [
        | none ↦ none
        | some q ↦ some (q.0, false, q.1)
      ]
]

abbrev after_zero : Option (ℕ × Pfdb) → Option (ℕ × Bool × Pfdb)
after_zero o = elim o [
  | none ↦ none
  | some r ↦ if not (r.0 == pfn_invalid) then some (r.0, true, r.1) else allocate_unzeroed_page r.1
]
