-- ===== src/Mm/PoolSpace/Reserve.antt =====
-- `MiReservePoolSpaceTaggedSub`.
use boron.Prelude.{
  ℕ, ◌+◌, ◌-◌, ◌*◌, ◌≤◌, ◌<◌, ◌≡◌, ◌≢◌, ◌⊎◌, inl, inr, refl, sym, true, false, ◌&&◌, List, [], ◌∷◌,
  ltb, leb, ◌==◌, if◌then◌else◌, arith, Option, some, none, Bool-cases,
}
use boron.Mm.PoolSpace.{PoolEntry, page_size, limit_of, split_entry, reserve_sub, empty_tag}
use boron.Mm.PoolSpace.Owner.{
  owner, Sorted, NotIn, Distinct, Apart, Coalesced, IsPool, total_pages, owner_below, owner_none,
}

-- The address in the entry with the handle.
pub address_of : ℕ → List PoolEntry → Option ℕ
address_of handle [] = none
address_of handle (e ∷ es) =
    let rest = address_of handle es in if e.handle == handle then some e.address else rest

-- No free entry has `size` pages.
abbrev pub NoRoom : ℕ → List PoolEntry → Type 0
NoRoom size [] = Unit {0}
NoRoom size (e ∷ es) = ((e.allocated ≡ true) ⊎ (e.size < size)) × NoRoom size es

-- `size` pages from `a` on, which were free in `es`, belong to `h` in `es'`, and nothing else has
-- changed hands. `header` is the handle that a new entry may have.
pub record Reserved (lo size header : ℕ) (es es' : List PoolEntry) (h a : ℕ) : Type 0 where
  pub real : h ≢ 0
  pub within : lo ≤ a
  pub was_free : (x : ℕ) → a ≤ x → x < a + size * page_size → owner es x ≡ 0
  pub now :
      (x : ℕ) → owner es' x ≡ (if leb a x && ltb x (a + size * page_size) then h else owner es x)
  pub others : (x : ℕ) → owner es x ≢ h
  pub known : (k : ℕ) → NotIn k es → k ≢ h
  pub at : address_of h es' ≡ some a
  pub pages : total_pages es' ≡ total_pages es
  pub sorted : Sorted lo es'
  pub names : (k : ℕ) → k ≢ header → NotIn k es → NotIn k es'
  pub distinct : Distinct es'
  pub front : (e : PoolEntry) → Apart e es → Apart e es'
  pub coalesced : Coalesced es'

module _ (size tag user_data header : ℕ) (some_size : 0 < size) where
  abbrev pub Outcome : ℕ → List PoolEntry → Option (ℕ × ℕ) × List PoolEntry → Type 0
  Outcome lo es (some (h, a), es') = Reserved lo size header es es' h a
  Outcome lo es (none, es') = (es' ≡ es) × (NoRoom size es ⊎ (header ≡ 0))

  Outcome-cons :
      (lo : ℕ) (e : PoolEntry) (es : List PoolEntry) (r : Option (ℕ × ℕ) × List PoolEntry)
      → IsPool lo (e ∷ es)
      → (header ≡ 0) ⊎ NotIn header (e ∷ es)
      → (e.allocated ≡ true) ⊎ (e.size < size)
      → Outcome (limit_of e) es r
      → Outcome lo (e ∷ es) (r.0, e ∷ r.1)
  unfolding owner total_pages address_of
  Outcome-cons lo e es (none, es') p fresh skip (same, inl full) = (rw same, inl (skip, full))
  Outcome-cons lo e es (none, es') p fresh skip (same, inr no_header) = (rw same, inr no_header)
  Outcome-cons lo e es (some (h, a), es') p fresh skip r = record {
    real = r.real;
    within = omega (arith, p.sorted.0, r.within);
    was_free = λ x lo hi. ground (arith, r.within, r.was_free x);
    now = λ x. ground (arith, r.within, r.now x);
    others = λ x. ground (arith, r.others x, r.known e.handle p.distinct.1);
    known = λ k n. r.known k n.1;
    at = ground (arith, r.at, r.known e.handle p.distinct.1);
    pages = omega (arith, r.pages);
    sorted = (p.sorted.0, p.sorted.1, r.sorted);
    names = λ k ne n. (n.0, r.names k ne n.1);
    distinct = (p.distinct.0, r.names e.handle (other fresh) p.distinct.1, r.distinct);
    front = λ f n. n;
    coalesced = (r.front e p.coalesced.0, r.coalesced);
  }
    where
      other : (header ≡ 0) ⊎ NotIn header (e ∷ es) → e.handle ≢ header
      other (inl z) = ground (arith, p.distinct.0)
      other (inr n) = n.0

  split-Outcome :
      (lo : ℕ) (e : PoolEntry) (es : List PoolEntry)
      → IsPool lo (e ∷ es)
      → (header ≡ 0) ⊎ NotIn header (e ∷ es)
      → e.allocated ≡ false
      → size < e.size
      → header ≢ 0
      → Reserved lo size header
          (e ∷ es)
          (record e { size = size; tag = tag; allocated = true; user_data = user_data }
            ∷ (record {
              handle = header;
              allocated = false;
              tag = empty_tag;
              user_data = 0;
              address = e.address + size * page_size;
              size = e.size - size;
            }
                ∷ es))
          e.handle
          e.address
  unfolding owner total_pages address_of
  split-Outcome lo e es p fresh free less there = record {
    real = p.distinct.0;
    within = p.sorted.0;
    was_free = λ x a b. ground (arith, owner_below (limit_of e) es x p.sorted.2);
    now = λ x. ground (arith, owner_below (limit_of e) es x p.sorted.2);
    others = λ x. ground (arith, owner_none e.handle es x p.distinct.0 p.distinct.1);
    known = λ k n. λ q. n.0 (sym q);
    at = ground arith;
    pages = omega arith;
    sorted = (
      p.sorted.0,
      some_size,
      (
        omega arith,
        omega arith,
        Sorted-at (limit_of e) (e.address + size * page_size + (e.size - size) * page_size) es
            (omega arith) p.sorted.2,
      ),
    );
    names = λ k ne n. (n.0, ((λ q. ne (sym q)), n.1));
    distinct = (p.distinct.0, (own fresh, p.distinct.1), (there, fresh_tail fresh, p.distinct.2));
    front = λ f n. inr (inl refl);
    coalesced = (inl refl, (Apart_at es p.coalesced.0, p.coalesced.1));
  }
    where
      own : (header ≡ 0) ⊎ NotIn header (e ∷ es) → header ≢ e.handle
      own (inl z) = absurd (there z)
      own (inr n) = λ q. n.0 (sym q)

      fresh_tail : (header ≡ 0) ⊎ NotIn header (e ∷ es) → NotIn header es
      fresh_tail (inl z) = absurd (there z)
      fresh_tail (inr n) = n.1

      Sorted-at : (a b : ℕ) (es : List PoolEntry) → a ≡ b → Sorted a es → Sorted b es
      Sorted-at a b [] q s = tt
      Sorted-at a b (f ∷ fs) q s = (omega (arith, s.0), s.1, s.2)

      Apart_at :
          (fs : List PoolEntry)
          → Apart e fs
          → Apart
              (record {
                handle = header;
                allocated = false;
                tag = empty_tag;
                user_data = 0;
                address = e.address + size * page_size;
                size = e.size - size;
              })
              fs
      Apart_at [] n = tt
      Apart_at (f ∷ fs) (inl used) = absurd (ground arith)
      Apart_at (f ∷ fs) (inr (inl used)) = inr (inl used)
      Apart_at (f ∷ fs) (inr (inr ne)) = inr (inr (λ q. ne (omega arith)))

  whole-Outcome :
      (lo : ℕ) (e : PoolEntry) (es : List PoolEntry)
      → IsPool lo (e ∷ es)
      → e.allocated ≡ false
      → e.size ≡ size
      → Reserved lo size header
          (e ∷ es)
          (record e { allocated = true; tag = tag; user_data = user_data } ∷ es)
          e.handle
          e.address
  unfolding owner total_pages address_of
  whole-Outcome lo e es p free same = record {
    real = p.distinct.0;
    within = p.sorted.0;
    was_free = λ x a b. ground (arith, owner_below (limit_of e) es x p.sorted.2);
    now = λ x. ground (arith, owner_below (limit_of e) es x p.sorted.2);
    others = λ x. ground (arith, owner_none e.handle es x p.distinct.0 p.distinct.1);
    known = λ k n. λ q. n.0 (sym q);
    at = ground arith;
    pages = omega arith;
    sorted = p.sorted;
    names = λ k ne n. n;
    distinct = p.distinct;
    front = λ f n. inr (inl refl);
    coalesced = (inl_tail es, p.coalesced.1);
  }
    where
      inl_tail :
          (fs : List PoolEntry)
          → Apart (record e { allocated = true; tag = tag; user_data = user_data }) fs
      inl_tail [] = tt
      inl_tail (f ∷ fs) = inl refl

  tail :
      (lo : ℕ) (e : PoolEntry) (es : List PoolEntry) → IsPool lo (e ∷ es) → IsPool (limit_of e) es
  tail lo e es p = record {
    sorted = p.sorted.2;
    distinct = p.distinct.2;
    coalesced = p.coalesced.1;
  }

  fresh_of :
      (e : PoolEntry) (es : List PoolEntry)
      → (header ≡ 0) ⊎ NotIn header (e ∷ es)
      → (header ≡ 0) ⊎ NotIn header es
  fresh_of e es (inl z) = inl z
  fresh_of e es (inr n) = inr n.1

  -- A reservation of `size` pages, in a pool whose entries lie in order, are not empty, have headers
  -- of their own and are coalesced, either gives the handle of no other allocation and the address of
  -- `size` pages that were all free: from then on these belong to the handle, every other address to
  -- what it belonged to, and the pool is as well formed and as large as it was. Or it changes nothing,
  -- because no free entry is large enough or because a header for the rest of one could not be made.
  pub reserve_sub-Outcome :
      (lo : ℕ) (es : List PoolEntry)
      → IsPool lo es
      → (header ≡ 0) ⊎ NotIn header es
      → Outcome lo es (reserve_sub size tag user_data header es)
  unfolding reserve_sub split_entry
  reserve_sub-Outcome lo [] p fresh = (refl, inl tt)
  reserve_sub-Outcome lo (e ∷ es) p fresh =
      let ih = reserve_sub-Outcome (limit_of e) es (tail lo e es p) (fresh_of e es fresh) in
      let found = reserve_sub size tag user_data header es in
      elim (Bool-cases e.allocated) [
        | inl used ↦ simp used (Outcome-cons lo e es found p fresh (inl used) ih)
        | inr free ↦ elim (Bool-cases (leb size e.size)) [
          | inr small ↦
              simp (free, small) (Outcome-cons lo e es found p fresh (inr (ground arith)) ih)
          | inl fits ↦ elim (Bool-cases (e.size == size)) [
            | inl same ↦ simp (free, fits, same) (whole-Outcome lo e es p free (ground arith))
            | inr more ↦ elim (Bool-cases (header == 0)) [
              | inl no_header ↦ simp (free, fits, more, no_header) (refl, inr (ground arith))
              | inr made ↦
                  simp (free, fits, more, made)
                    (split-Outcome lo e es p fresh free (ground arith) (ground arith))
            ]
          ]
        ]
      ]
