-- ===== src/Mm/PoolSpace/Free.antt =====
-- `MiFreePoolSpaceSub`, and the merging of neighbours.
use boron.Prelude.{
  ap, if-both, if-both_two, ◌/◌, ◌-◌, ◌%◌, ◌^◌, ◌≤◌, ℕ, ◌+◌, ◌*◌, ◌<◌, ◌≡◌, ◌≢◌, ◌⊎◌, inl, inr,
  refl, subst, true, false, ◌&&◌, not, List, [], ◌∷◌, ltb, leb, ◌==◌, if◌then◌else◌, arith,
  Bool-cases, ◌∙◌,
}
use boron.Mm.PoolSpace.{
  PoolEntry, page_size, limit_of, try_connect, free_entry, free_sub, is_header, kernel_space_base,
  build_pool_header_pte, get_pool_header_address_pte, freed, is_first, empty_tag,
}
use boron.Mm.PoolSpace.Owner.{
  owner, holds, Sorted, NotIn, Distinct, Apart, Coalesced, IsPool, total_pages, owner_below,
  owner_none,
}

-- What lies at the head of the list does not look like a free entry behind another one.
abbrev pub Safe : PoolEntry → Type 0
Safe head = (head.allocated ≡ true) ⊎ (head.address ≡ 0)

head_apart :
    (head e : PoolEntry)
    → Safe head
    → 0 < e.size
    → ¬ ((not head.allocated && (not e.allocated && head.address == limit_of e)) ≡ true)
head_apart head e (inl used) some' b = ground (arith, used, b)
head_apart head e (inr nowhere) some' b =
    let meets : head.address ≡ limit_of e = ground (arith, b) in
    omega (arith, nowhere, some', meets)

-- The first entry of a list with the one behind it, where they are free and adjacent.
connected : List PoolEntry → List PoolEntry
connected [] = []
connected (e ∷ []) = e ∷ []
connected (e ∷ f ∷ es) =
    if not f.allocated && (not e.allocated && f.address == limit_of e)
    then record e { size = e.size + f.size } ∷ es
    else e ∷ f ∷ es

-- The same allocations in a list that is as large and whose entries are in order.
record Merged (lo : ℕ) (es es' : List PoolEntry) : Type 0 where
  same : (x : ℕ) → owner es' x ≡ owner es x
  pages : total_pages es' ≡ total_pages es
  valid : IsPool lo es'
  names : (k : ℕ) → NotIn k es → NotIn k es'

-- What is behind a free entry is not free where that ends.
Apart-wider :
    (e f : PoolEntry) (es : List PoolEntry)
    → f.allocated ≡ false
    → f.address ≡ limit_of e
    → Apart f es
    → Apart (record e { size = e.size + f.size }) es
Apart-wider e f [] free next n = tt
Apart-wider e f (g ∷ gs) free next (inl used) = absurd (ground arith)
Apart-wider e f (g ∷ gs) free next (inr (inl used)) = inr (inl used)
Apart-wider e f (g ∷ gs) free next (inr (inr ne)) = inr (inr (λ q. ne (omega arith)))

Sorted-at : (a b : ℕ) (es : List PoolEntry) → a ≡ b → Sorted a es → Sorted b es
Sorted-at a b [] q s = tt
Sorted-at a b (f ∷ fs) q s = (omega (arith, s.0), s.1, s.2)

-- An entry in front of a well-formed list, from which it may not be apart yet.
connected-Merged :
    (lo : ℕ) (e : PoolEntry) (es : List PoolEntry)
    → Sorted lo (e ∷ es)
    → Distinct (e ∷ es)
    → Coalesced es
    → Merged lo (e ∷ es) (connected (e ∷ es))
unfolding connected owner total_pages
connected-Merged lo e [] s d c = record {
  same = λ x. refl;
  pages = refl;
  valid = record { sorted = s; distinct = d; coalesced = (tt, tt) };
  names = λ k n. n;
}
connected-Merged lo e (f ∷ es) s d c =
    elim (Bool-cases (not f.allocated && (not e.allocated && f.address == limit_of e))) [
      | inl joins ↦
          let free : f.allocated ≡ false = ground arith in
          let next : f.address ≡ limit_of e = ground arith in
          simp joins (record {
            same = λ x. ground arith;
            pages = omega arith;
            valid = record {
              sorted = (
                s.0,
                omega arith,
                Sorted-at (limit_of f) (e.address + (e.size + f.size) * page_size) es (omega arith)
                    s.2.2,
              );
              distinct = (d.0, d.1.1, d.2.2);
              coalesced = (Apart-wider e f es free next c.0, c.1);
            };
            names = λ k n. (n.0, n.1.1);
          })
      | inr stays ↦ simp stays (record {
        same = λ x. refl;
        pages = refl;
        valid = record { sorted = s; distinct = d; coalesced = (ground arith, c) };
        names = λ k n. n;
      })
    ]

-- The pages of `h` are free in `es'`, and nothing else has changed hands.
pub record Freed (lo h : ℕ) (es es' : List PoolEntry) : Type 0 where
  pub now : (x : ℕ) → owner es' x ≡ (if owner es x == h then 0 else owner es x)
  pub pages : total_pages es' ≡ total_pages es
  pub valid : IsPool lo es'
  pub names : (k : ℕ) → NotIn k es → NotIn k es'
  pub front : (e : PoolEntry) → is_first h es ≡ false → Apart e es → Apart e es'

-- The entry with the handle `h` is allocated.
abbrev pub Allocated : ℕ → List PoolEntry → Type 0
Allocated h [] = ⊥
Allocated h (e ∷ es) = ((e.handle ≡ h) × (e.allocated ≡ true)) ⊎ ((e.handle ≢ h) × Allocated h es)

abbrev cleared : PoolEntry → PoolEntry
cleared e = record e { allocated = false; tag = empty_tag }

owner-cleared :
    (e : PoolEntry) (es : List PoolEntry) (x : ℕ)
    → e.allocated ≡ true
    → owner es x ≢ e.handle
    → (x < limit_of e → owner es x ≡ 0)
    → owner (cleared e ∷ es) x ≡ (if owner (e ∷ es) x == e.handle then 0 else owner (e ∷ es) x)
unfolding owner
owner-cleared e es x used ne below = elim (Bool-cases (leb e.address x && ltb x (limit_of e))) [
  | inl inside ↦ simp (used, inside) (ground (arith, below))
  | inr outside ↦ simp (used, outside) (ground arith)
]

owner-behind :
    (e : PoolEntry) (es es' : List PoolEntry) (x h : ℕ)
    → e.handle ≢ h
    → owner es' x ≡ (if owner es x == h then 0 else owner es x)
    → owner (e ∷ es') x ≡ (if owner (e ∷ es) x == h then 0 else owner (e ∷ es) x)
unfolding owner
owner-behind e es es' x h ne now = elim (Bool-cases (holds e x)) [
  | inl inside ↦ simp inside (ground arith)
  | inr outside ↦ simp outside now
]

-- An entry keeps its address and its flag when it is connected.
Apart-connect :
    (f e : PoolEntry) (es es' : List PoolEntry) → Apart f (e ∷ es) → Apart f (connected (e ∷ es'))
unfolding connected
Apart-connect f e es [] n = n
Apart-connect f e es (g ∷ gs) n =
    elim (Bool-cases (not g.allocated && (not e.allocated && g.address == limit_of e))) [
      | inl joins ↦ simp joins n
      | inr stays ↦ simp stays n
    ]

free_here :
    (lo : ℕ) (e : PoolEntry) (es : List PoolEntry)
    → IsPool lo (e ∷ es)
    → e.allocated ≡ true
    → Freed lo e.handle (e ∷ es) (connected (cleared e ∷ es))
unfolding owner total_pages
free_here lo e es p used =
    let m = connected-Merged lo (cleared e) es p.sorted p.distinct p.coalesced.1 in
    record {
      now = λ x.
          m.same x
          ∙ owner-cleared e es x used (owner_none e.handle es x p.distinct.0 p.distinct.1)
              (owner_below (limit_of e) es x p.sorted.2);
      pages = m.pages;
      valid = m.valid;
      names = m.names;
      front = λ f first n. absurd (ground arith);
    }

-- The list behind `e` changes by a free; `e` is connected if it was linked to the freed entry.
free_behind :
    (lo h : ℕ) (e : PoolEntry) (es es' : List PoolEntry)
    → IsPool lo (e ∷ es)
    → e.handle ≢ h
    → Freed (limit_of e) h es es'
    → Freed lo h (e ∷ es) (if is_first h es then connected (e ∷ es') else e ∷ es')
unfolding owner total_pages
free_behind lo h e es es' p ne r =
    let sorted : Sorted lo (e ∷ es') = (p.sorted.0, p.sorted.1, r.valid.sorted) in
    let distinct : Distinct (e ∷ es') =
      (p.distinct.0, r.names e.handle p.distinct.1, r.valid.distinct) in
    elim (Bool-cases (is_first h es)) [
      | inl linked ↦
          let m = connected-Merged lo e es' sorted distinct r.valid.coalesced in
          rw linked (record {
            now = λ x. m.same x ∙ owner-behind e es es' x h ne (r.now x);
            pages = omega (arith, m.pages, r.pages);
            valid = m.valid;
            names = λ k n. m.names k (n.0, r.names k n.1);
            front = λ f first n. Apart-connect f e es es' n;
          })
      | inr other ↦ rw other (record {
        now = λ x. owner-behind e es es' x h ne (r.now x);
        pages = omega (arith, r.pages);
        valid = record {
          sorted = sorted;
          distinct = distinct;
          coalesced = (r.front e other p.coalesced.0, r.valid.coalesced);
        };
        names = λ k n. (n.0, r.names k n.1);
        front = λ f first n. n;
      })
    ]

-- The list that it leaves, where the head of the list is not joined to the last entry.
try_connect-connected :
    (head e : PoolEntry) (es : List PoolEntry)
    → Safe head
    → 0 < e.size
    → try_connect head (e ∷ es) ≡ freed (connected (e ∷ es))
unfolding try_connect connected
try_connect-connected head e [] safe some' =
    if-both (λ r. r ≡ freed (e ∷ []))
      (not head.allocated && (not e.allocated && head.address == limit_of e)) _ _
      (λ b. absurd (head_apart head e safe some' b)) (λ b. refl)
try_connect-connected head e (f ∷ es) safe some' =
    if-both_two (λ r l. r ≡ freed l)
      (not f.allocated && (not e.allocated && f.address == limit_of e)) _ _ _ _ (λ b. refl)
      (λ b. refl)

-- To free the handle of an allocation, behind the assertions.
pub free_entry-Freed :
    (head : PoolEntry) (lo h : ℕ) (es : List PoolEntry)
    → Safe head
    → IsPool lo es
    → Allocated h es
    → (es' : List PoolEntry) × (free_entry head h es ≡ freed es') × Freed lo h es es'
unfolding free_entry
free_entry-Freed head lo h [] safe p a = absurd a
free_entry-Freed head lo h (e ∷ es) safe p (inl (here, used)) =
    let same : (e.handle == h) ≡ true = ground arith in
    (
      connected (cleared e ∷ es),
      simp (same, used) (try_connect-connected head (cleared e) es safe p.sorted.1),
      subst (λ k. Freed lo k (e ∷ es) (connected (cleared e ∷ es))) here (free_here lo e es p used),
    )
free_entry-Freed head lo h (e ∷ es) safe p (inr (ne, later)) =
    let (es', run, r) =
      free_entry-Freed head (limit_of e) h es safe
        (record { sorted = p.sorted.2; distinct = p.distinct.2; coalesced = p.coalesced.1 })
        later in
    let other : (e.handle == h) ≡ false = ground arith in
    (
      if is_first h es then connected (e ∷ es') else e ∷ es',
      simp (other, run)
          (if-both_two (λ x l. x ≡ freed l) (is_first h es) _ _ _ _
            (λ b. try_connect-connected head e es' safe p.sorted.1) (λ b. refl)),
      free_behind lo h e es es' p ne r,
    )

-- The page table entry for a header in the kernel space.
build_pool_header_pte_lem :
    (h : ℕ)
    → kernel_space_base ≤ h
    → h < 2 ^ 64
    → build_pool_header_pte h ≡ h - kernel_space_base + 2 ^ 58
build_pool_header_pte_lem h above below =
    let k = h - kernel_space_base in
    let from : (h + (2 ^ 64 - kernel_space_base)) % 2 ^ 64 ≡ h - kernel_space_base =
      omega (arith, above, below) in
    let high : (h - kernel_space_base) / 2 ^ 58 % 2 ≡ 0 = omega (arith, above, below) in
    rw (from, high) refl

get_pool_header_address_pte_lem :
    (h : ℕ)
    → h % 8 ≡ 0
    → kernel_space_base ≤ h
    → h < 2 ^ 64
    → get_pool_header_address_pte (h - kernel_space_base + 2 ^ 58) ≡ h
get_pool_header_address_pte_lem h aligned above below =
    let free : (h - kernel_space_base + 2 ^ 58) % 2 ≡ 0 = omega (arith, aligned, above) in
    let marked : (h - kernel_space_base + 2 ^ 58) / 2 ^ 58 % 2 ≡ 1 = omega (arith, above, below) in
    rw (free, marked) (omega (arith, above, below))

-- A header in the kernel space, at a multiple of 8, passes the assertions.
is_header_lem : (h : ℕ) → h % 8 ≡ 0 → kernel_space_base ≤ h → h < 2 ^ 64 → is_header h ≡ true
unfolding is_header
is_header_lem h aligned above below =
    let back : get_pool_header_address_pte (build_pool_header_pte h) ≡ h =
      ap get_pool_header_address_pte (build_pool_header_pte_lem h above below)
      ∙ get_pool_header_address_pte_lem h aligned above below in
    ground (arith, aligned, above, back)

-- On AMD64, where what lies at the head of the list is marked allocated or has the address 0, to free
-- the handle of an allocation whose header is in the kernel space, at a multiple of 8, succeeds: the
-- pages that belonged to it are free, every other address belongs to what it belonged to, and the pool
-- is as large and as well formed as it was, so no two free entries are left as neighbours.
pub free_sub-Freed :
    (head : PoolEntry) (lo h : ℕ) (es : List PoolEntry)
    → Safe head
    → h % 8 ≡ 0
    → kernel_space_base ≤ h
    → h < 2 ^ 64
    → IsPool lo es
    → Allocated h es
    → (es' : List PoolEntry) × (free_sub head h es ≡ freed es') × Freed lo h es es'
unfolding free_sub
free_sub-Freed head lo h es safe aligned above below p a =
    let (es', run, r) = free_entry-Freed head lo h es safe p a in
    (es', rw (is_header_lem h aligned above below) run, r)
