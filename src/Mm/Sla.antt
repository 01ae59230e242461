-- ===== src/Mm/Sla.antt =====
-- boron/include/mm/sla.h and boron/source/mm/sla.c: the sparse linear array, on a 64-bit machine.
-- The allocator of pages is the number of those it still has, and none of them is a standby page whose
-- prototype pointer lies in the array.
pub mod Lookup
pub mod Assign
pub mod Map
mod Tests
use boron.Prelude.{
  ℕ, zero, suc, ◌+◌, ◌-◌, ◌*◌, ◌/◌, ◌%◌, ◌^◌, Bool, true, false, Option, some, none, ltb, ◌==◌,
  if◌then◌else◌,
}

-- `MM_SLA_DIRECT_ENTRY_COUNT` and `MM_SLA_INDIRECT_LEVELS`
abbrev pub direct_entry_count : ℕ
direct_entry_count = 64

abbrev pub indirect_levels : ℕ
indirect_levels = 4

-- `SLA_ENTRIES_PER_PAGE` and `PFN_ENTRIES_PER_PAGE`
abbrev pub sla_entries_per_page : ℕ
sla_entries_per_page = 512

abbrev pub pfn_entries_per_page : ℕ
pfn_entries_per_page = 1024

-- `MM_SLA_NO_DATA` and `MM_SLA_OUT_OF_MEMORY`
abbrev pub no_data : ℕ
no_data = 2 ^ 64 - 1

abbrev pub out_of_memory : ℕ
out_of_memory = 2 ^ 64 - 2

-- What a PFN in the array leads to: nothing for PFN_INVALID, a page of entries, or a page of PFNs.
-- Each page is new from the allocator and stored in one place, so it stands where its PFN does.
pub data Slot : Type 0 where
  invalid : Slot
  data_page : (ℕ → ℕ) → Slot
  pfn_page : (ℕ → Slot) → Slot

-- `MMSLA`
pub record Sla : Type 0 where
  pub direct : ℕ → ℕ
  pub indirect : ℕ → Slot

abbrev pub put {ℓ} : {A : Type ℓ} → (ℕ → A) → ℕ → A → ℕ → A
put f k v x = if x == k then v else f x

-- `MmInitializeSla`
pub initialize_sla : Sla
initialize_sla = record { direct = λ i. no_data; indirect = λ l. invalid }

-- The loop over the levels: the level of an index behind the direct entries, with the index in it.
abbrev pub find_level : ℕ → ℕ → ℕ → ℕ → Option (ℕ × ℕ)
find_level zero level i max = none
find_level (suc n) level i max =
    let rest = find_level n (suc level) (i - max) (max * pfn_entries_per_page) in
    if ltb i max then some (level, i) else rest

abbrev pub locate : ℕ → Option (ℕ × ℕ)
locate index = find_level indirect_levels 0 (index - direct_entry_count) sla_entries_per_page

-- The walk down from level `l` without `Modify`. A page of the other kind is never met.
abbrev pub walk : ℕ → Slot → ℕ → ℕ
walk zero (data_page p) i = p i
walk (suc l) (pfn_page p) i = walk l (p (i % pfn_entries_per_page)) (i / pfn_entries_per_page)
walk _ _ i = no_data

-- `MmLookUpEntrySlaEx`
pub look_up : Sla → ℕ → ℕ
look_up s index =
    if ltb index direct_entry_count
    then s.direct index
    else elim (locate index) [ none ↦ no_data | some at ↦ walk at.0 (s.indirect at.0) at.1 ]

-- What the walk with `Modify` leaves: whether there was memory, the pages, and how many are free.
pub record Written : Type 0 where
  pub ok : Bool
  pub slot : Slot
  pub free : ℕ

abbrev pub put_child : (ℕ → Slot) → ℕ → Written → Written
put_child p i w = record {
  ok = w.ok;
  slot = pfn_page (put p (i % pfn_entries_per_page) w.slot);
  free = w.free;
}

-- The walk with `Modify`. A new page is all ones, which is no data in every entry or no page in
-- every PFN; those that it has put in stay when the memory runs out.
abbrev pub walk_modify : ℕ → Slot → ℕ → ℕ → ℕ → Written
walk_modify zero invalid i v zero = record { ok = false; slot = invalid; free = 0 }
walk_modify zero invalid i v (suc free) = record {
  ok = true;
  slot = data_page (put (λ x. no_data) i v);
  free = free;
}
walk_modify zero (data_page p) i v free = record {
  ok = true;
  slot = data_page (put p i v);
  free = free;
}
walk_modify zero (pfn_page p) i v free = record { ok = false; slot = pfn_page p; free = free }
walk_modify (suc l) invalid i v zero = record { ok = false; slot = invalid; free = 0 }
walk_modify (suc l) invalid i v (suc free) =
    put_child (λ x. invalid) i (walk_modify l invalid (i / pfn_entries_per_page) v free)
walk_modify (suc l) (pfn_page p) i v free =
    put_child p i (walk_modify l (p (i % pfn_entries_per_page)) (i / pfn_entries_per_page) v free)
walk_modify (suc l) (data_page p) i v free = record { ok = false; slot = data_page p; free = free }

-- The entry that is returned, the array, and how many pages are free.
pub record Assigned : Type 0 where
  pub entry : ℕ
  pub sla : Sla
  pub free : ℕ

-- `MmAssignEntrySlaEx`, with `free` pages in the allocator.
pub assign : Sla → ℕ → ℕ → ℕ → Assigned
assign s index v free =
    if ltb index direct_entry_count
    then record { entry = v; sla = record s { direct = put s.direct index v }; free = free }
    else elim (locate index) [
      | none ↦ record { entry = no_data; sla = s; free = free }
      | some at ↦
          let w = walk_modify at.0 (s.indirect at.0) at.1 v free in
          record {
            entry = if w.ok then v else out_of_memory;
            sla = record s { indirect = put s.indirect at.0 w.slot };
            free = w.free;
          }
    ]
