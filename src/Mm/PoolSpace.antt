-- ===== src/Mm/PoolSpace.antt =====
-- boron/source/mm/poolsup.c: the first-fit allocator of ranges of kernel address space. The list of
-- entries is a list in the order of its links, and an entry is known by the address of its header,
-- which is its handle. `header` is what MiCreatePoolEntry returns, 0 for NULL. Addresses do not wrap.
pub mod Owner
pub mod Reserve
pub mod Free
pub mod Runs
mod Tests
use boron.Prelude.{
  ℕ, ◌+◌, ◌-◌, ◌*◌, ◌/◌, ◌%◌, ◌^◌, Bool, true, false, ◌&&◌, not, Option, none, some, List, [], ◌∷◌,
  ltb, leb, ◌==◌, if◌then◌else◌,
}

abbrev pub page_size : ℕ
page_size = 4096

-- `MI_EMPTY_TAG`, four spaces.
abbrev pub empty_tag : ℕ
empty_tag = 0x20202020

-- `MIPOOL_ENTRY`; `allocated` is the flag MI_POOL_ENTRY_ALLOCATED.
pub record PoolEntry : Type 0 where
  pub handle : ℕ
  pub allocated : Bool
  pub tag : ℕ
  pub user_data : ℕ
  pub address : ℕ
  pub size : ℕ

abbrev pub limit_of : PoolEntry → ℕ
limit_of e = e.address + e.size * page_size

-- `MmpSplitEntry`: the entry, now allocated, and behind it a new one for the rest of a larger area.
-- `none` is a NULL header; the list is then as it was.
pub split_entry : PoolEntry → ℕ → ℕ → ℕ → ℕ → List PoolEntry → Option (List PoolEntry)
split_entry e size tag user_data header es =
    if e.size == size
    then some (record e { allocated = true; tag = tag; user_data = user_data } ∷ es)
    else if header == 0
    then none
    else let new_entry : PoolEntry = record {
      handle = header;
      allocated = false;
      tag = empty_tag;
      user_data = 0;
      address = e.address + size * page_size;
      size = e.size - size;
    } in
      some (
        record e { size = size; tag = tag; allocated = true; user_data = user_data }
        ∷ (new_entry ∷ es))

-- `MiReservePoolSpaceTaggedSub`: the handle and the output address, and the list.
pub reserve_sub : ℕ → ℕ → ℕ → ℕ → List PoolEntry → Option (ℕ × ℕ) × List PoolEntry
reserve_sub size tag user_data header [] = (none, [])
reserve_sub size tag user_data header (e ∷ es) =
    let (found, rest) = reserve_sub size tag user_data header es in
    if e.allocated
    then (found, e ∷ rest)
    else if leb size e.size
    then elim (split_entry e size tag user_data header es) [
      | none ↦ (none, e ∷ es)
      | some changed ↦ (some (e.handle, e.address), changed)
    ]
    else (found, e ∷ rest)

-- How `MiFreePoolSpaceSub` ends: with the new list, in KeCrash for an entry that is free, for a
-- handle that is none, or with the head of the list taken for an entry and removed.
pub data FreeResult : Type 0 where
  freed : List PoolEntry → FreeResult
  crash bad_handle list_lost : FreeResult

-- `MmpTryConnectEntryWithItsFlink`, on the first entry of the list. Behind the last entry it reads the
-- head of the list, `MmpPoolList`, as an entry: `head` has what lies there.
pub try_connect : PoolEntry → List PoolEntry → FreeResult
try_connect head [] = freed []
try_connect head (e ∷ []) =
    if not head.allocated && (not e.allocated && head.address == limit_of e)
    then list_lost
    else freed (e ∷ [])
try_connect head (e ∷ f ∷ es) =
    if not f.allocated && (not e.allocated && f.address == limit_of e)
    then freed (record e { size = e.size + f.size } ∷ es)
    else freed (e ∷ f ∷ es)

abbrev pub is_first : ℕ → List PoolEntry → Bool
is_first handle [] = false
is_first handle (e ∷ es) = e.handle == handle

-- The entry in front of a list that the free has changed: it is connected if it was linked to the
-- entry that was freed.
pub connect_front : PoolEntry → Bool → PoolEntry → FreeResult → FreeResult
connect_front head linked e (freed es) =
    if linked then try_connect head (e ∷ es) else freed (e ∷ es)
connect_front head linked e crash = crash
connect_front head linked e bad_handle = bad_handle
connect_front head linked e list_lost = list_lost

-- `MiFreePoolSpaceSub` behind its assertions.
pub free_entry : PoolEntry → ℕ → List PoolEntry → FreeResult
unfolding connect_front try_connect
free_entry head handle [] = bad_handle
free_entry head handle (e ∷ es) =
    let rest = free_entry head handle es in
    if e.handle == handle
    then if not e.allocated
      then crash
      else try_connect head (record e { allocated = false; tag = empty_tag } ∷ es)
    else connect_front head (is_first handle es) e rest

-- `MM_KERNEL_SPACE_BASE` on AMD64
abbrev pub kernel_space_base : ℕ
kernel_space_base = 0xFFFF800000000000

-- `MmBuildPoolHeaderPte` on AMD64, which sets the bit 58.
abbrev pub build_pool_header_pte : ℕ → ℕ
build_pool_header_pte address =
    let offset = (address + (2 ^ 64 - kernel_space_base)) % 2 ^ 64 in
    offset + (1 - offset / 2 ^ 58 % 2) * 2 ^ 58

-- `MmIsPoolHeaderPte` on AMD64
abbrev pub is_pool_header_pte : ℕ → Bool
is_pool_header_pte pte = pte % 2 == 0 && pte / 2 ^ 58 % 2 == 1

-- `MmGetPoolHeaderAddressPte` on AMD64
abbrev pub get_pool_header_address_pte : ℕ → ℕ
get_pool_header_address_pte pte =
    if not (is_pool_header_pte pte)
    then 0
    else (pte - pte / 2 ^ 58 % 2 * 2 ^ 58 + kernel_space_base) % 2 ^ 64

-- What `MiFreePoolSpaceSub` asserts of a handle.
pub is_header : ℕ → Bool
is_header handle =
    handle % 8 == 0
    && (leb kernel_space_base handle
        && get_pool_header_address_pte (build_pool_header_pte handle) == handle)

-- `MiFreePoolSpaceSub`
pub free_sub : PoolEntry → ℕ → List PoolEntry → FreeResult
free_sub head handle es = if not (is_header handle) then crash else free_entry head handle es
