-- ===== src/Mm/Pfn.antt =====
-- boron/include/mm/pfn.h and boron/source/mm/pmm.c: the page frames, and how pages are linked into lists.
-- A page frame number is a 32-bit number.
use boron.Prelude.{ℕ, Bool, List, ◌==◌, if◌then◌else◌}
use boron.Ke.Dispatcher.{update}

-- `PFN_INVALID`
abbrev pub pfn_invalid : ℕ
pfn_invalid = 4294967295

-- The numbers of the page frame types.
abbrev pub pf_type_free : ℕ
pf_type_free = 0

abbrev pub pf_type_zeroed : ℕ
pf_type_zeroed = 1

abbrev pub pf_type_used : ℕ
pf_type_used = 2

abbrev pub pf_type_reclaim : ℕ
pf_type_reclaim = 3

abbrev pub pf_type_transition : ℕ
pf_type_transition = 4

abbrev pub pf_type_mmio : ℕ
pf_type_mmio = 5

-- `MMPFDBE`, of a 64-bit machine; the pointer to the FCB is left out.
pub record PageFrame : Type 0 where
  pub page_type : ℕ
  pub modified : Bool
  pub is_in_modified_page_list : Bool
  pub is_file_cache : Bool
  pub next_frame : ℕ
  pub prev_frame : ℕ
  pub ref_count : ℕ
  pub prototype_pte : ℕ
  pub offset_lower : ℕ
  pub offset_upper : ℕ

-- The lists of pages, each with its first and last page in two variables.
pub data PageList : Type 0 where
  zero_list free_list standby_list modified_list : PageList

-- The type of the pages of a list, which tells the lists apart.
abbrev pub list_type : PageList → ℕ
list_type zero_list = pf_type_zeroed
list_type free_list = pf_type_free
list_type standby_list = pf_type_transition
list_type modified_list = pf_type_used

abbrev pub same_list : PageList → PageList → Bool
same_list j k = list_type j == list_type k

pub record Ends : Type 0 where
  pub first : ℕ
  pub last : ℕ

-- The database, the ends of the lists, MmTotalFreePages, and the prototype page table entries that
-- MM_SLA_NO_DATA was stored into.
pub record Pfdb : Type 0 where
  pub frame : ℕ → PageFrame
  pub ends : PageList → Ends
  pub total_free_pages : ℕ
  pub reclaimed : List ℕ

abbrev pub set_ends : (PageList → Ends) → PageList → Ends → PageList → Ends
set_ends ends k e j = if same_list j k then e else ends j

-- `MmpUnlinkPfn`
abbrev pub unlink_pfn : (ℕ → PageFrame) → ℕ → ℕ → PageFrame
unlink_pfn f p =
    let g : ℕ → PageFrame =
      if (f p).next_frame == pfn_invalid
      then f
      else update f (f p).next_frame
          (record (f (f p).next_frame) { prev_frame = (f p).prev_frame }) in
    if (g p).prev_frame == pfn_invalid
    then g
    else update g (g p).prev_frame (record (g (g p).prev_frame) { next_frame = (g p).next_frame })

-- `MmpEnsurePfnIsntEndsOfList`, in its two halves.
abbrev pub ensure_not_first : Ends → PageFrame → ℕ → Ends
ensure_not_first e p current =
    if e.first == current
    then record {
      first = p.next_frame;
      last = if p.next_frame == pfn_invalid then pfn_invalid else e.last;
    }
    else e

abbrev pub ensure_not_last : Ends → PageFrame → ℕ → Ends
ensure_not_last e p current =
    if e.last == current
    then record {
      first = if p.prev_frame == pfn_invalid then pfn_invalid else e.first;
      last = p.prev_frame;
    }
    else e

abbrev pub ensure_pfn_isnt_ends_of_list : Ends → PageFrame → ℕ → Ends
ensure_pfn_isnt_ends_of_list e p current = ensure_not_last (ensure_not_first e p current) p current

-- `MmpRemovePfnFromList`
abbrev pub remove_pfn_from_list : Pfdb → PageList → ℕ → Pfdb
remove_pfn_from_list s k current = record s {
  frame = unlink_pfn s.frame current;
  ends =
      set_ends s.ends k
        (ensure_pfn_isnt_ends_of_list (s.ends k) (unlink_pfn s.frame current current) current);
}

-- The frames after `MmpAddPfnToList`.
abbrev pub link_pfn : (ℕ → PageFrame) → Ends → ℕ → ℕ → PageFrame
link_pfn f e current =
    if e.first == pfn_invalid
    then update f current
        (record (f current) { next_frame = pfn_invalid; prev_frame = pfn_invalid })
    else let g = update f e.last (record (f e.last) { next_frame = current }) in
      update g current (record (g current) { prev_frame = e.last; next_frame = pfn_invalid })

-- `MmpAddPfnToList`
abbrev pub add_pfn_to_list : Pfdb → PageList → ℕ → Pfdb
add_pfn_to_list s k current = record s {
  frame = link_pfn s.frame (s.ends k) current;
  ends = set_ends s.ends k (record {
    first = if (s.ends k).first == pfn_invalid then current else (s.ends k).first;
    last = current;
  });
}

abbrev pub set_frame : Pfdb → ℕ → PageFrame → Pfdb
set_frame s p x = record s { frame = update s.frame p x }
