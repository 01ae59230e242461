-- ===== src/Ex/HandleTable/Resize.antt =====
-- `ExpResizeHandleTable`.
use boron.Prelude.{
  ℕ, ◌-◌, ◌*◌, ◌%◌, ◌^◌, ◌≤◌, ◌<◌, ◌≡◌, ◌≢◌, ◌⊎◌, inl, inr, refl, sym, Bool, true, false, arith,
  ltb, leb, ◌==◌, if◌then◌else◌, List, [], ◌∷◌, get_or, length, take, replicate, length-append,
  length-replicate, length-take, get_or-take, ◌&&◌, get_or-append, get_or-append_past,
  get_or-replicate, get_or_out, Bool-cases, ◌∙◌, dec_lt,
}
use boron.Prelude.Status.{Bstatus, success, insufficient_memory, too_many_handles}
use boron.Ex.HandleTable.{EhandleTable, pointer_at, grown_map, resized_map, resize_handle_table}
use boron.Ex.HandleTable.Lookup.{IsValid, pointer_at_out}

-- MmAllocatePool never hands out half of the address space.
abbrev pub IsBounded : (ℕ → Bool) → Type 0
IsBounded alloc = (n : ℕ) → alloc n ≡ true → n < 2 ^ 62

length-grown_map : (xs : List ℕ) (n : ℕ) → length xs ≤ n → length (grown_map xs (length xs) n) ≡ n
unfolding grown_map
length-grown_map [] n h = length-replicate n 0
length-grown_map (x ∷ xs) n h =
    let k = length (x ∷ xs) in
    omega (
      arith,
      length-append (take k (x ∷ xs)) (replicate (n - k) 0),
      length-take k (x ∷ xs) (omega arith),
      length-replicate {A = ℕ} (n - k) 0,
    )

get_or-grown_map : (xs : List ℕ) (n i : ℕ) → get_or (grown_map xs (length xs) n) i 0 ≡ get_or xs i 0
unfolding grown_map
get_or-grown_map [] n i = get_or-replicate n i 0
get_or-grown_map (x ∷ xs) n i =
    let k = length (x ∷ xs) in
    let old = take k (x ∷ xs) in
    let size : length old ≡ k = length-take k (x ∷ xs) (omega arith) in
    elim (dec_lt i k) [
      | yes h ↦
          get_or-append old (replicate (n - k) 0) i 0 (omega arith) ∙ get_or-take k (x ∷ xs) i 0 h
      | no h ↦
          get_or-append_past old (replicate (n - k) 0) i 0 (omega arith)
          ∙ get_or-replicate (n - k) (i - length old) 0
          ∙ sym (get_or_out (x ∷ xs) i 0 (omega arith))
    ]

-- Above the new size, nothing is in use.
abbrev pub FreeFrom : EhandleTable → ℕ → Type 0
FreeFrom t n = (i : ℕ) → n ≤ i → pointer_at t i ≡ 0

get_or-take_free :
    (xs : List ℕ) (n i : ℕ)
    → ((j : ℕ) → n ≤ j → get_or xs j 0 ≡ 0)
    → n ≤ length xs
    → get_or (take n xs) i 0 ≡ get_or xs i 0
get_or-take_free xs n i free h = elim (dec_lt i n) [
  | yes lt ↦ get_or-take n xs i 0 lt
  | no ge ↦
      get_or_out (take n xs) i 0 (omega (arith, length-take n xs h)) ∙ sym (free i (omega arith))
]

resized_map_lem :
    (t : EhandleTable) (n : ℕ)
    → IsValid t
    → FreeFrom t n
    → (length (resized_map t n) ≡ n) × ((i : ℕ) → get_or (resized_map t n) i 0 ≡ pointer_at t i)
unfolding resized_map
resized_map_lem t n v free = rw (← v.sized) (elim (Bool-cases (ltb (length t.handle_map) n)) [
  | inl more ↦
      rw more (length-grown_map t.handle_map n (ground arith), get_or-grown_map t.handle_map n)
  | inr less ↦ rw less (
    length-take n t.handle_map (ground arith),
    λ i. get_or-take_free t.handle_map n i free (ground arith),
  )
])

-- What a resize to `n` may do: nothing, with an error, or the same pointers in a map that has
-- another size, up to the limit.
pub record Resized (t u : EhandleTable) (n : ℕ) : Type 0 where
  pub same : (i : ℕ) → pointer_at u i ≡ pointer_at t i
  pub valid : IsValid u
  pub kept :
      (u.locks ≡ t.locks)
      × (u.grow_by ≡ t.grow_by)
      × (u.limit ≡ t.limit)
      × (u.max_index ≡ t.max_index)
  pub size : u.capacity ≤ n

resize_to_lem :
    (alloc : ℕ → Bool) (t : EhandleTable) (n : ℕ)
    → IsBounded alloc
    → IsValid t
    → FreeFrom t n
    → n < 2 ^ 61
    → t.initial_size ≤ n
    → t.max_index ≤ n
    → alloc (8 * n % 2 ^ 64) ≡ true
    → Resized t (record t { handle_map = resized_map t n; capacity = n }) n
resize_to_lem alloc t n bounded v free small start top got =
    let (size, same) = resized_map_lem t n v free in
    record {
      same = same;
      valid = record {
        sized = size;
        bound = λ i h. ground (arith, same i, v.bound i);
        top = top;
        small = omega (arith, bounded (8 * n % 2 ^ 64) got);
        small_grow = v.small_grow;
        start = start;
      };
      kept = (refl, refl, refl, refl);
      size = omega arith;
    }

-- The size that a resize to `n` goes for: the limit, where there is one that is smaller.
abbrev pub target : EhandleTable → ℕ → ℕ
target t n = if n == t.capacity then n else if ltb t.limit n && ltb 0 t.limit then t.limit else n

-- How a resize to `n` ends, by its status and the table that it leaves.
abbrev pub ResizeOutcome : (ℕ → Bool) → EhandleTable → ℕ → Bstatus × EhandleTable → Type 0
ResizeOutcome alloc t n (status, u) =
    ((status ≡ success)
      × Resized t u n
      × (u.capacity ≡ target t n)
      × ((n ≤ t.capacity) ⊎ (t.capacity < u.capacity)))
    ⊎ ((status ≡ too_many_handles)
        × (u ≡ t)
        × (n ≢ t.capacity)
        × (0 < t.limit)
        × (t.limit < n)
        × (t.limit ≤ t.capacity))
    ⊎ ((status ≡ insufficient_memory) × (u ≡ t) × (alloc (8 * target t n % 2 ^ 64) ≡ false))

-- Where nothing at or above `n` is in use, and `n` is no smaller than the initial size and `MaxIndex`,
-- a resize to `n` succeeds, with every pointer where it was, the invariant kept, a capacity of `n` or
-- of the limit where that is smaller, and a larger one if `n` is larger; or it fails and changes nothing, with
-- STATUS_TOO_MANY_HANDLES where the table has reached its limit and would have to grow past it, or
-- else because that many items could not be allocated.
pub resize_handle_table-outcome :
    (alloc : ℕ → Bool) (t : EhandleTable) (n : ℕ)
    → IsBounded alloc
    → IsValid t
    → FreeFrom t n
    → n < 2 ^ 61
    → t.initial_size ≤ n
    → t.max_index ≤ n
    → ResizeOutcome alloc t n (resize_handle_table alloc t n)
unfolding resize_handle_table
resize_handle_table-outcome alloc t n bounded v free small start top =
    let grows : (n ≤ t.capacity) ⊎ (t.capacity < n) = ground arith in
    elim (Bool-cases (n == t.capacity)) [
      | inl eq ↦ rw eq (
          inl (
            refl,
            record {
              same = λ i. refl;
              valid = v;
              kept = (refl, refl, refl, refl);
              size = ground arith;
            },
            ground arith,
            inl (ground arith),
          ))
      | inr ne ↦ elim (Bool-cases (ltb t.limit n && ltb 0 t.limit)) [
        | inl over ↦ elim (Bool-cases (leb t.limit t.capacity)) [
          | inl full ↦
              rw (ne, over, full)
                (inr (inl (refl, refl, ground arith, ground arith, ground arith, ground arith)))
          | inr room ↦ elim (Bool-cases (alloc (8 * t.limit % 2 ^ 64))) [
            | inl got ↦
                let done =
                  resize_to_lem alloc t t.limit bounded v
                    (λ i h. pointer_at_out t i v (ground arith)) (ground arith)
                    (ground (arith, v.start)) (ground (arith, v.top)) got in
                rw (ne, over, room, got)
                  (inl (
                    refl,
                    record {
                      same = done.same;
                      valid = done.valid;
                      kept = done.kept;
                      size = ground arith;
                    },
                    refl,
                    inr (ground arith),
                  ))
            | inr lost ↦ rw (ne, over, room, lost) (inr (inr (refl, refl, refl)))
          ]
        ]
        | inr under ↦ elim (Bool-cases (alloc (8 * n % 2 ^ 64))) [
          | inl got ↦
              rw (ne, under, got)
                (inl
                  (refl, resize_to_lem alloc t n bounded v free small start top got, refl, grows))
          | inr lost ↦ rw (ne, under, lost) (inr (inr (refl, refl, refl)))
        ]
      ]
    ]
