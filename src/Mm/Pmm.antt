-- ===== src/Mm/Pmm.antt =====
-- boron/source/mm/pmm.c: the page frame database. Each function is what runs under MmPfnLock, and `none`
-- is a crash of the debug build.
pub mod Chain
pub mod Link
pub mod Unlink
pub mod Lists
pub mod Insert
pub mod Delete
pub mod Allocate
pub mod Free
pub mod Recover
pub mod Reference
pub mod Writer
pub mod ZeroOut
pub mod Cache
mod Tests
use boron.Prelude.{
  ℕ, zero, suc, ◌+◌, ◌-◌, ◌*◌, ◌/◌, ◌%◌, ◌^◌, Bool, true, false, ◌&&◌, ◌||◌, not, Option, some,
  none, List, [], ◌∷◌, ◌++◌, ltb, ◌==◌, if◌then◌else◌,
}
use boron.Ke.Dispatcher.{update}
pub use boron.Mm.Pfn.{
  pfn_invalid, pf_type_free, pf_type_zeroed, pf_type_used, pf_type_reclaim, pf_type_transition,
  pf_type_mmio, PageFrame, PageList, list_type, same_list, Ends, Pfdb, set_ends, unlink_pfn,
  ensure_not_first, ensure_not_last, ensure_pfn_isnt_ends_of_list, remove_pfn_from_list, link_pfn,
  add_pfn_to_list, set_frame, zero_list, free_list, standby_list, modified_list,
}

-- `MmpInitializePfn`, with the count of the free pages. A page of a transition that has no prototype
-- page table entry fails its assertion.
abbrev pub initialize_pfn : Pfdb → ℕ → Option Pfdb
initialize_pfn s p =
    if (s.frame p).page_type == pf_type_used
    then some s
    else if (s.frame p).page_type == pf_type_transition && (s.frame p).prototype_pte == 0
    then none
    else some (record s {
      frame = update s.frame p (record (s.frame p) {
        page_type = pf_type_used;
        ref_count = 1;
        next_frame = 0;
        prev_frame = 0;
        prototype_pte = 0;
      });
      total_free_pages = s.total_free_pages - 1;
      reclaimed =
          if (s.frame p).page_type == pf_type_transition
          then (s.frame p).prototype_pte ∷ s.reclaimed
          else s.reclaimed;
    })

-- `MmpAllocateFromFreeList`
pub allocate_from_free_list : Pfdb → PageList → Option (ℕ × Pfdb)
allocate_from_free_list s k =
    if (s.ends k).first == pfn_invalid
    then some (pfn_invalid, s)
    else elim (initialize_pfn (remove_pfn_from_list s k (s.ends k).first) (s.ends k).first) [
      | none ↦ none
      | some s1 ↦ some ((s.ends k).first, s1)
    ]

-- The part of `MiAllocatePhysicalPageWithPfdbLocked` for when there is no zeroed page.
pub allocate_unzeroed_page : Pfdb → Option (ℕ × Bool × Pfdb)
allocate_unzeroed_page s = elim (allocate_from_free_list s free_list) [
  | none ↦ none
  | some r ↦
      if not (r.0 == pfn_invalid)
      then some (r.0, false, r.1)
      else elim (allocate_from_free_list r.1 standby_list) [
        | none ↦ none
        | some q ↦ some (q.0, false, q.1)
      ]
]

-- `MiAllocatePhysicalPageWithPfdbLocked`: the page, whether it is zeroed, and the database.
pub allocate_physical_page : Pfdb → Option (ℕ × Bool × Pfdb)
allocate_physical_page s = elim (allocate_from_free_list s zero_list) [
  | none ↦ none
  | some r ↦ if not (r.0 == pfn_invalid) then some (r.0, true, r.1) else allocate_unzeroed_page r.1
]

-- `MiRemoveOneModifiedPfn`
pub remove_one_modified_pfn : Pfdb → Option (ℕ × Pfdb)
remove_one_modified_pfn s = elim (allocate_from_free_list s modified_list) [
  | none ↦ none
  | some r ↦
      if r.0 == pfn_invalid
      then some r
      else some
          (r.0, set_frame r.1 r.0 (record (r.1.frame r.0) { is_in_modified_page_list = false }))
]

-- `MiDetransitionPfn`
pub detransition_pfn : Pfdb → ℕ → Option Pfdb
detransition_pfn s p =
    if (s.frame p).prototype_pte == 0
    then none
    else let f = unlink_pfn s.frame p in
      some (record s {
        frame = update f p (record (f p) {
          ref_count = 1;
          next_frame = 0;
          prev_frame = 0;
          page_type = pf_type_used;
        });
        ends =
            set_ends
              (set_ends s.ends standby_list
                (ensure_pfn_isnt_ends_of_list (s.ends standby_list) (f p) p))
              modified_list (ensure_pfn_isnt_ends_of_list (s.ends modified_list) (f p) p);
      })

-- `MmFreePhysicalPage`, of the last reference.
abbrev pub release_page : Pfdb → ℕ → Pfdb
release_page s p =
    let dirty = add_pfn_to_list s modified_list p in
    let clean = add_pfn_to_list s standby_list p in
    let free = add_pfn_to_list s free_list p in
    if not ((s.frame p).prototype_pte == 0)
    then if (s.frame p).modified
      then set_frame dirty p (record (dirty.frame p) { is_in_modified_page_list = true })
      else record (set_frame clean p (record (clean.frame p) { page_type = pf_type_transition })) {
        total_free_pages = s.total_free_pages + 1;
      }
    else record (set_frame free p (record (free.frame p) { page_type = pf_type_free })) {
      total_free_pages = s.total_free_pages + 1;
    }

-- `MmFreePhysicalPage`
pub free_physical_page : Pfdb → ℕ → Option Pfdb
free_physical_page s p =
    let x = s.frame p in
    if not (
        x.page_type == pf_type_used
        || x.page_type == pf_type_reclaim
        || x.page_type == pf_type_mmio)
      || x.ref_count == 0
    then none
    else let s1 = set_frame s p (record x { ref_count = x.ref_count - 1 }) in
      if not (x.ref_count - 1 == 0)
      then some s1
      else if x.page_type == pf_type_mmio
      then none
      else some (
          release_page (set_frame s1 p (record (s1.frame p) { is_in_modified_page_list = false }))
            p)

-- `MiTransformPageToStandbyPfn`
pub transform_page_to_standby : Pfdb → ℕ → Pfdb
transform_page_to_standby s p =
    if not ((s.frame p).ref_count == 0) || not ((s.frame p).page_type == pf_type_used)
    then s
    else if (s.frame p).is_in_modified_page_list
    then s
    else let s1 = add_pfn_to_list s standby_list p in
      record (set_frame s1 p
        (record (s1.frame p) { page_type = pf_type_transition; modified = false })) {
          total_free_pages = s.total_free_pages + 1;
        }

-- `MiReinsertIntoModifiedList`
pub reinsert_into_modified_list : Pfdb → ℕ → Pfdb
reinsert_into_modified_list s p =
    if not ((s.frame p).ref_count == 0) || not ((s.frame p).page_type == pf_type_used)
    then s
    else if (s.frame p).is_in_modified_page_list
    then s
    else let s1 = add_pfn_to_list s modified_list p in
      set_frame s1 p (record (s1.frame p) { is_in_modified_page_list = true; modified = true })

-- The first guarded section of `MmZeroOutFirstPFN`: the page that is to be zeroed, if there is one.
pub take_first_free_pfn : Pfdb → Option (Pfdb × Option ℕ)
take_first_free_pfn s =
    let p = (s.ends free_list).first in
    if p == pfn_invalid
    then some (s, none)
    else if (s.frame p).page_type == pf_type_zeroed
    then some (s, none)
    else if not ((s.frame p).page_type == pf_type_free)
    then none
    else some (
      remove_pfn_from_list (set_frame s p (record (s.frame p) { page_type = pf_type_zeroed }))
          free_list p,
      some p,
    )

-- `MiPageAddReferenceWithPfdbLocked`
pub page_add_reference : Pfdb → ℕ → Option Pfdb
page_add_reference s p =
    let s1 = set_frame s p (record (s.frame p) { ref_count = (s.frame p).ref_count + 1 }) in
    if (s.frame p).ref_count == 0 then detransition_pfn s1 p else some s1

-- `MiGetReferenceCountPfn`
pub get_reference_count : Pfdb → ℕ → ℕ
get_reference_count s p =
    if not ((s.frame p).page_type == pf_type_used) then 0 else (s.frame p).ref_count

-- `MmSetPrototypePtePfn`, which stores into a field of 48 bits.
abbrev pub set_prototype_pte : Pfdb → ℕ → ℕ → Pfdb
set_prototype_pte s p pte = set_frame s p (record (s.frame p) { prototype_pte = pte % 2 ^ 48 })

-- `MmSetCacheDetailsPfn`
abbrev pub set_cache_details : Pfdb → ℕ → ℕ → Pfdb
set_cache_details s p offset = set_frame s p (record (s.frame p) {
  offset_lower = offset / 4096 % 2 ^ 32;
  offset_upper = offset / 4096 / 2 ^ 32 % 2 ^ 16;
  is_file_cache = true;
  modified = false;
})

-- `MmSetModifiedPfn`
pub set_modified_pfn : Pfdb → ℕ → Option Pfdb
set_modified_pfn s p =
    if not ((s.frame p).page_type == pf_type_used)
    then none
    else some (set_frame s p (record (s.frame p) { modified = true }))
