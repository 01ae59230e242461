-- ===== src/Mm/PoolSpace/Owner.antt =====
-- Which allocation an address belongs to, and the invariant of the list of entries.
use boron.Prelude.{
  ℕ, ◌+◌, ◌≤◌, ◌<◌, ◌≡◌, ◌≢◌, ◌⊎◌, refl, sym, Bool, true, ◌&&◌, List, [], ◌∷◌, ltb, leb,
  if◌then◌else◌, arith,
}
use boron.Mm.PoolSpace.{PoolEntry, limit_of}

-- The handle of the allocation that holds the address `x`, and 0 where it is free.
abbrev pub holds : PoolEntry → ℕ → Bool
holds e x = e.allocated && (leb e.address x && ltb x (limit_of e))

unfoldable pub owner : List PoolEntry → ℕ → ℕ
owner [] x = 0
owner (e ∷ es) x = if holds e x then e.handle else owner es x

-- The entries lie one behind the other from `lo` on, and none is empty.
abbrev pub Sorted : ℕ → List PoolEntry → Type 0
Sorted lo [] = Unit {0}
Sorted lo (e ∷ es) = (lo ≤ e.address) × (0 < e.size) × Sorted (limit_of e) es

abbrev pub NotIn : ℕ → List PoolEntry → Type 0
NotIn h [] = Unit {0}
NotIn h (e ∷ es) = (e.handle ≢ h) × NotIn h es

-- Every entry has a header of its own.
abbrev pub Distinct : List PoolEntry → Type 0
Distinct [] = Unit {0}
Distinct (e ∷ es) = (e.handle ≢ 0) × NotIn e.handle es × Distinct es

-- The first entry cannot be connected to `e`, which is in front of it.
abbrev pub Apart : PoolEntry → List PoolEntry → Type 0
Apart e [] = Unit {0}
Apart e (f ∷ es) = (e.allocated ≡ true) ⊎ (f.allocated ≡ true) ⊎ (f.address ≢ limit_of e)

-- No two free entries are neighbours.
abbrev pub Coalesced : List PoolEntry → Type 0
Coalesced [] = Unit {0}
Coalesced (e ∷ es) = Apart e es × Coalesced es

pub record IsPool (lo : ℕ) (es : List PoolEntry) : Type 0 where
  pub sorted : Sorted lo es
  pub distinct : Distinct es
  pub coalesced : Coalesced es

-- Pages in all entries, free or not.
unfoldable pub total_pages : List PoolEntry → ℕ
total_pages [] = 0
total_pages (e ∷ es) = e.size + total_pages es

pub owner_below : (lo : ℕ) (es : List PoolEntry) (x : ℕ) → Sorted lo es → x < lo → owner es x ≡ 0
unfolding owner
owner_below lo [] x s h = refl
owner_below lo (e ∷ es) x s h = ground (arith, owner_below (limit_of e) es x s.2)

pub owner_none : (h : ℕ) (es : List PoolEntry) (x : ℕ) → h ≢ 0 → NotIn h es → owner es x ≢ h
unfolding owner
owner_none h [] x nz n = λ e. nz (sym e)
owner_none h (e ∷ es) x nz n = ground (arith, owner_none h es x nz n.1)
