-- ===== src/Mm/PoolSpace/Runs.antt =====
-- `MiInitPool`, and the pools that reservations and releases lead to from there.
use boron.Prelude.{ℕ, ◌+◌, ◌-◌, ◌^◌, ◌<◌, ◌≡◌, ◌≢◌, ◌⊎◌, false, List, [], ◌∷◌}
use boron.Mm.PoolSpace.{PoolEntry, empty_tag, reserve_sub, freed, free_sub}
use boron.Mm.PoolSpace.Owner.{NotIn}
use boron.Mm.PoolSpace.Free.{Allocated}

-- The free entry for an area of 2^log2_size bytes.
abbrev pub area : ℕ → ℕ → ℕ → PoolEntry
area header top log2_size = record {
  handle = header;
  allocated = false;
  tag = empty_tag;
  user_data = 0;
  address = top;
  size = 2 ^ (log2_size - 12);
}

-- `MiInitPool` on AMD64, with the header that MiCreatePoolEntry returns and the start of the area.
abbrev pub init_pool_amd64 : ℕ → ℕ → List PoolEntry
init_pool_amd64 header top = area header top 39 ∷ []

-- `MiInitPool` with MI_USE_TWO_POOLS.
abbrev pub init_pool_two : ℕ → ℕ → ℕ → ℕ → List PoolEntry
init_pool_two header top header2 top2 = area header top 30 ∷ area header2 top2 28 ∷ []

-- A new pool. The headers are real, and the second area lies above the first and is not next to it.
pub data Initial : List PoolEntry → Type 0 where
  one : (header top : ℕ) → header ≢ 0 → Initial (init_pool_amd64 header top)
  two :
      (header top header2 top2 : ℕ)
      → header ≢ 0
      → header2 ≢ 0
      → header2 ≢ header
      → top + 2 ^ 30 < top2
      → Initial (init_pool_two header top header2 top2)

-- A reservation, with a header that is not in use or NULL, and a release of what is allocated.
pub data PoolStep (head : PoolEntry) : List PoolEntry → List PoolEntry → Type 0 where
  reserve :
      (es : List PoolEntry)
      → (size tag user_data header : ℕ) → 0 < size
      → (header ≡ 0) ⊎ NotIn header es
      → PoolStep head es (reserve_sub size tag user_data header es).1
  release :
      (es : List PoolEntry)
      → (h : ℕ) → (es' : List PoolEntry) → Allocated h es
      → free_sub head h es ≡ freed es'
      → PoolStep head es es'

pub data Run (head : PoolEntry) (from : List PoolEntry) : List PoolEntry → Type 0 where
  begin : Run head from from
  step : (es es' : List PoolEntry) → Run head from es → PoolStep head es es' → Run head from es'
