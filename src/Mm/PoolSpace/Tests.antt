-- ===== src/Mm/PoolSpace/Tests.antt =====
-- The pool of addresses on concrete lists.
use boron.Mm.PoolSpace.Runs.{init_pool_two}
use boron.Prelude.{ℕ, ◌≡◌, inl, inr, refl, Bool, true, false, arith, List, [], ◌∷◌}
use boron.Mm.PoolSpace.{PoolEntry, freed, free_sub, empty_tag}
use boron.Mm.PoolSpace.Owner.{IsPool}
use boron.Mm.PoolSpace.Free.{Freed, free_sub-Freed}

-- A page that is free, one that is allocated, and four that are free.
abbrev entry : ℕ → Bool → ℕ → ℕ → PoolEntry
entry handle allocated address size = record {
  handle = handle;
  allocated = allocated;
  tag = empty_tag;
  user_data = 0;
  address = address;
  size = size;
}

abbrev entries : List PoolEntry
entries =
    entry 0xFFFF800000000064 false 4096 1
    ∷ (entry 0xFFFF8000000000C8 true 8192 1 ∷ (entry 0xFFFF800000000130 false 12288 4 ∷ []))

entries-IsPool : IsPool 4096 entries
entries-IsPool = record {
  sorted = (omega arith, omega arith, (omega arith, omega arith, (omega arith, omega arith, tt)));
  distinct = (
    omega arith,
    (omega arith, (omega arith, tt)),
    (omega arith, (omega arith, tt), (omega arith, tt, tt)),
  );
  coalesced = (inr (inl refl), (inl refl, (tt, tt)));
}

-- What lies at the head of the list: nothing.
abbrev head : PoolEntry
head = entry 0 false 0 0

free_sub-Freed_example :
    (es : List PoolEntry) × (free_sub head 0xFFFF8000000000C8 entries ≡ freed es)
    × Freed 4096 0xFFFF8000000000C8 entries es
free_sub-Freed_example =
    free_sub-Freed head 4096 0xFFFF8000000000C8 entries (inr refl) refl (omega arith) (omega arith)
      entries-IsPool (inr (omega arith, inl (refl, refl)))

-- The two areas of i386, with headers at 4096 and 8192, and a reservation of three pages.
abbrev areas : List PoolEntry
areas = init_pool_two 4096 0x80000000 8192 0xE0000000
