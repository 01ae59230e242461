-- ===== src/Mm/Pmm/Lists.antt =====
-- boron/source/mm/pmm.c: the page frame database as four lists of pages, to which a page is added, from
-- which one is taken, and which a page outside them does not matter to.
use boron.Prelude.{
  count, ℕ, ◌+◌, ◌<◌, ◌≤◌, ◌≡◌, ◌≢◌, refl, sym, ap, ◌∙◌, arith, true, false, length, List, ◌==◌,
  if◌then◌else◌, if-both,
}
use boron.Ke.Dispatcher.{update}
use boron.Mm.Pmm.{
  PageFrame, Ends, PageList, zero_list, free_list, standby_list, modified_list, pfn_invalid,
  list_type, same_list, Pfdb, link_pfn, unlink_pfn,
}
use boron.Mm.Pmm.Chain.{Linked-same}
use boron.Mm.Pmm.Link.{Chain, SameLinks, count_ne}

-- The frames and the ends of the lists describe four lists, of different pages with no reference.
pub record IsLists (f : ℕ → PageFrame) (ends : PageList → Ends) (v : PageList → List ℕ)
    : Type 0 where
  pub chain : (k : PageList) → Chain f (ends k) (v k)
  pub once : (k : PageList) (z : ℕ) → count z (v k) ≤ 1
  pub typed : (k : PageList) (z : ℕ) → 0 < count z (v k) → (f z).page_type ≡ list_type k
  pub idle : (k : PageList) (z : ℕ) → 0 < count z (v k) → (f z).ref_count ≡ 0
  pub flagged : (z : ℕ) → 0 < count z (v modified_list) → (f z).is_in_modified_page_list ≡ true

abbrev pub set_list : (PageList → List ℕ) → PageList → List ℕ → PageList → List ℕ
set_list v k xs j = if same_list j k then xs else v j

list_of : ℕ → PageList
list_of n =
    if n == 1
    then zero_list
    else if n == 0
    then free_list
    else if n == 4
    then standby_list
    else modified_list

list_of-list_type : (k : PageList) → list_of (list_type k) ≡ k
unfolding list_of
list_of-list_type zero_list = refl
list_of-list_type free_list = refl
list_of-list_type standby_list = refl
list_of-list_type modified_list = refl

pub same_list-eq : (j k : PageList) → same_list j k ≡ true → j ≡ k
same_list-eq j k h =
    sym (list_of-list_type j) ∙ ap list_of (ground (arith, h)) ∙ list_of-list_type k

-- A page that no list has.
abbrev pub Outside : (PageList → List ℕ) → ℕ → Type 0
Outside v x = (k : PageList) → count x (v k) ≡ 0

pub IsLists-disjoint :
    (f : ℕ → PageFrame) (ends : PageList → Ends) (v : PageList → List ℕ) (j k : PageList) (z : ℕ)
    → IsLists f ends v
    → same_list j k ≡ false
    → 0 < count z (v k)
    → count z (v j) ≡ 0
IsLists-disjoint f ends v j k z i b h = ground (arith, b, h, i.typed j z, i.typed k z)

pub Chain-same :
    (f g : ℕ → PageFrame) (e : Ends) (xs : List ℕ)
    → ((z : ℕ) → 0 < count z xs → SameLinks (g z) (f z))
    → Chain f e xs
    → Chain g e xs
Chain-same f g e xs h c = record {
  linked = Linked-same f g pfn_invalid pfn_invalid xs h c.linked;
  first = c.first;
  last = c.last;
}

-- What a frame has besides its links is the same.
abbrev pub SameBody : PageFrame → PageFrame → Type 0
SameBody p q =
    (p.page_type ≡ q.page_type)
    × (p.ref_count ≡ q.ref_count)
    × (p.is_in_modified_page_list ≡ q.is_in_modified_page_list)
    × (p.prototype_pte ≡ q.prototype_pte)
    × (p.modified ≡ q.modified)
    × (p.is_file_cache ≡ q.is_file_cache)
    × (p.offset_lower ≡ q.offset_lower)
    × (p.offset_upper ≡ q.offset_upper)

pub link_pfn-SameBody : (f : ℕ → PageFrame) (e : Ends) (x z : ℕ) → SameBody (link_pfn f e x z) (f z)
link_pfn-SameBody f e x z = (
  ground arith,
  ground arith,
  ground arith,
  ground arith,
  ground arith,
  ground arith,
  ground arith,
  ground arith,
)

pub unlink_pfn-SameBody : (f : ℕ → PageFrame) (x z : ℕ) → SameBody (unlink_pfn f x z) (f z)
unlink_pfn-SameBody f x z = (
  ground arith,
  ground arith,
  ground arith,
  ground arith,
  ground arith,
  ground arith,
  ground arith,
  ground arith,
)

-- A change of one page leaves the others.
pub update_other :
    (f : ℕ → PageFrame) (x z : ℕ) (p q : PageFrame)
    → z ≢ x
    → SameBody (f z) q
    → SameBody (update f x p z) q
update_other f x z p q ne h =
    if-both (λ y. SameBody y q) (z == x) _ _ (λ e. absurd (ground (arith, e, ne))) (λ e. h)

-- Whatever becomes of a page that no list has, the lists are the same.
pub update-IsLists :
    (f : ℕ → PageFrame) (ends : PageList → Ends) (v : PageList → List ℕ) (x : ℕ) (p : PageFrame)
    → IsLists f ends v
    → Outside v x
    → IsLists (update f x p) ends v
update-IsLists f ends v x p i out = record {
  chain = λ k.
      Chain-same f (update f x p) (ends k) (v k)
        (λ z h. let ne = count_ne z x (v k) h (out k) in (ground (arith, ne), ground (arith, ne)))
        (i.chain k);
  once = i.once;
  typed = λ k z h. ground (arith, i.typed k z h, count_ne z x (v k) h (out k));
  idle = λ k z h. ground (arith, i.idle k z h, count_ne z x (v k) h (out k));
  flagged =
      λ z h. ground (arith, i.flagged z h, count_ne z x (v modified_list) h (out modified_list));
}

-- The pages that can be had.
abbrev pub available : (PageList → List ℕ) → ℕ
available v = length (v zero_list) + length (v free_list) + length (v standby_list)

-- The database has the lists, and counts the pages that can be had and some more.
pub record IsPfdb (s : Pfdb) (v : PageList → List ℕ) (excess : ℕ) : Type 0 where
  pub lists : IsLists s.frame s.ends v
  pub counted : s.total_free_pages ≡ available v + excess

pub available-set_list :
    (v : PageList → List ℕ) (k : PageList) (xs : List ℕ)
    → same_list k modified_list ≡ false
    → available (set_list v k xs) + length (v k) ≡ available v + length xs
available-set_list v zero_list xs h = omega arith
available-set_list v free_list xs h = omega arith
available-set_list v standby_list xs h = omega arith
available-set_list v modified_list xs h = ground (arith, h)
