-- ===== src/Ex/HandleTable/Delete.antt =====
-- `ExDeleteHandle` and `ExDeleteHandleTable`.
use boron.Prelude.{
  ℕ, zero, suc, ◌+◌, ◌-◌, ◌^◌, ◌≤◌, ◌<◌, ◌≡◌, ◌≢◌, ◌⊎◌, inl, inr, refl, Bool, true, false, ◌&&◌,
  arith, ltb, leb, ◌==◌, if◌then◌else◌, List, get_or, set, length, length-set, get_or-set_self,
  get_or-set_ne, Bool-cases, Option, some, none, ◌∙◌, ℕ_discrete, dec_lt,
}
use boron.Prelude.Status.{Bstatus, success, invalid_handle, table_not_empty, delete_canceled}
use boron.Ex.HandleTable.{
  EhandleTable, handle_to_index, pointer_at, set_pointer, lower_max, shrink_loop, exp_delete_handle,
  delete_handle, resize_handle_table, add_size, lock_handle_table, unlock_handle_table,
  is_empty_loop, is_empty_handle_table, delete_handle_table,
}
use boron.Ex.HandleTable.Lookup.{
  IsValid, lookup, lookup-place, handle_to_index_lem, pointer_at_out, IsValid-locks, lookup-locks,
  lookup-found, lookup_missing,
}
use boron.Ex.HandleTable.Resize.{IsBounded, FreeFrom, ResizeOutcome, resize_handle_table-outcome}

-- The new `MaxIndex` is 0 or in use, and all above it up to the old one is free.
lower_max_lem :
    (t : EhandleTable) (n : ℕ)
    → (lower_max t n ≤ n) × ((i : ℕ) → lower_max t n < i → i ≤ n → pointer_at t i ≡ 0)
unfolding lower_max
lower_max_lem t zero = (omega arith, λ i a b. absurd (omega arith))
lower_max_lem t (suc n) = elim (Bool-cases (pointer_at t (suc n) == 0)) [
  | inl free ↦
      let (le, above) = lower_max_lem t n in
      rw free (
        omega arith,
        λ i a b. elim (ℕ_discrete i (suc n)) [
          | yes e ↦ rw e (ground arith)
          | no ne ↦ above i a (omega arith)
        ],
      )
  | inr used ↦ rw used (omega arith, λ i a b. absurd (omega arith))
]

-- With the capacity for a bound on the rounds, and a table that can grow, the loop ends. It leaves
-- room for the highest index and for the initial size.
shrink_loop_total :
    (f n : ℕ) (t : EhandleTable)
    → 0 < t.grow_by
    → t.max_index < 2 ^ 61
    → t.initial_size < 2 ^ 61
    → t.grow_by < 2 ^ 32
    → n < f
    → t.initial_size ≤ n
    → (m : ℕ) × (shrink_loop f t n ≡ some m)
      × (m ≤ n)
      × (t.initial_size ≤ m)
      × ((m ≡ n) ⊎ (t.max_index < m))
unfolding shrink_loop
shrink_loop_total zero n t grows a b c lt start = absurd (omega arith)
shrink_loop_total (suc f) n t grows a b c lt start =
    elim (Bool-cases (
      leb (add_size (add_size t.max_index 1) t.grow_by) n
      && (leb (add_size t.initial_size t.grow_by) n && ltb t.grow_by n))) [
        | inl more ↦
            let (m, run, le, low, room) =
              shrink_loop_total f (n - t.grow_by) t grows a b c (ground arith) (ground arith) in
            (m, rw more run, ground arith, low, inr (ground arith))
        | inr done ↦ (n, rw done, omega arith, start, inl refl)
      ]

-- A table that cannot grow stays in the loop for ever, as soon as `MaxIndex` lies in the map.
shrink_loop-none :
    (f n : ℕ) (t : EhandleTable)
    → t.grow_by ≡ 0
    → n < 2 ^ 61
    → t.max_index < n
    → t.initial_size ≤ n
    → shrink_loop f t n ≡ none
unfolding shrink_loop
shrink_loop-none zero n t fixed small lt start = refl
shrink_loop-none (suc f) n t fixed small lt start =
    ground (arith, shrink_loop-none f (n - t.grow_by) t)

-- The table `u` is `t` without the pointer at `index`.
record Dropped (t u : EhandleTable) (index : ℕ) : Type 0 where
  same : (i : ℕ) → pointer_at u i ≡ (if i == index then 0 else pointer_at t i)
  valid : IsValid u
  locks : u.locks ≡ t.locks

get_or-clear :
    (xs : List ℕ) (index i : ℕ)
    → index < length xs
    → get_or (set xs index 0) i 0 ≡ (if i == index then 0 else get_or xs i 0)
get_or-clear xs index i h = elim (ℕ_discrete index i) [
  | yes e ↦ ground (arith, get_or-set_self xs index 0 0 h)
  | no e ↦ ground (arith, get_or-set_ne xs index i 0 0 e)
]

-- The pointer is cleared, and `MaxIndex` becomes `top`, above which nothing else is in use.
cleared-Dropped :
    (t : EhandleTable) (index top : ℕ)
    → IsValid t
    → index < t.capacity
    → top ≤ t.max_index
    → ((i : ℕ) → top < i → i ≤ t.max_index → pointer_at (set_pointer t index 0) i ≡ 0)
    → Dropped t (record (set_pointer t index 0) { max_index = top }) index
cleared-Dropped t index top v lt le above = record {
  same = same;
  valid = record {
    sized = omega (arith, length-set t.handle_map index 0, v.sized);
    bound = λ i used. ground (arith, same i, v.bound i, above i);
    top = omega (arith, v.top);
    small = v.small;
    small_grow = v.small_grow;
    start = v.start;
  };
  locks = refl;
}
  where
    same :
        (i : ℕ) → get_or (set t.handle_map index 0) i 0 ≡ (if i == index then 0 else pointer_at t i)
    same i = get_or-clear t.handle_map index i (omega (arith, v.sized))

-- A resize, successful or not, of a table that has dropped a pointer.
shrunk-Dropped :
    (alloc : ℕ → Bool) (t u : EhandleTable) (index n : ℕ) (r : Bstatus × EhandleTable)
    → Dropped t u index
    → ResizeOutcome alloc u n r
    → Dropped t r.1 index
shrunk-Dropped alloc t u index n (status, w) d (inl (ok, done, size, more)) = record {
  same = λ i. ground (arith, done.same i, d.same i);
  valid = done.valid;
  locks = done.kept.0 ∙ d.locks;
}
shrunk-Dropped alloc t u index n (status, w) d (inr (inl (bad, same, a, b, c, e))) = rw same d
shrunk-Dropped alloc t u index n (status, w) d (inr (inr (bad, same, rest))) = rw same d

exp_delete_handle-Dropped :
    (f : ℕ) (alloc : ℕ → Bool) (t : EhandleTable) (index : ℕ)
    → IsBounded alloc
    → IsValid t
    → index < t.capacity
    → (0 < t.grow_by) ⊎ (t.max_index ≢ index)
    → t.capacity < f
    → (u : EhandleTable) × (exp_delete_handle f alloc t index ≡ some u) × Dropped t u index
unfolding exp_delete_handle
exp_delete_handle-Dropped f alloc t index bounded v lt ends fuel =
    elim (Bool-cases (t.max_index == index)) [
      | inr other ↦ (
        set_pointer t index 0,
        rw other,
        cleared-Dropped t index t.max_index v lt (omega arith) (λ i a b. absurd (omega arith)),
      )
      | inl top ↦
          let cleared = set_pointer t index 0 in
          let m = lower_max cleared t.max_index in
          let (le, above) = lower_max_lem cleared t.max_index in
          let lowered = record cleared { max_index = m } in
          let d = cleared-Dropped t index m v lt le above in
          let (n, run, small, start, room) =
            shrink_loop_total f t.capacity lowered (ground arith) (omega (arith, v.top, v.small))
              (omega (arith, v.start, v.small)) v.small_grow fuel v.start in
          elim (Bool-cases (n == t.capacity)) [
            | inl same ↦ (lowered, rw (top, exp_delete_handle) (rw run (rw same)), d)
            | inr less ↦
                let free : FreeFrom lowered n = λ i ge. ground (arith, d.valid.bound i) in
                (
                  (resize_handle_table alloc lowered n).1,
                  rw (top, exp_delete_handle) (rw run (rw less)),
                  shrunk-Dropped alloc t lowered index n _ d (
                      resize_handle_table-outcome alloc lowered n bounded d.valid free
                        (omega (arith, v.small)) start (ground arith)),
                )
          ]
    ]

is_empty_loop_lem :
    (left i : ℕ) (t : EhandleTable)
    → ((is_empty_loop left i t ≡ true) × ((j : ℕ) → i ≤ j → j < i + left → pointer_at t j ≡ 0))
      ⊎ ((is_empty_loop left i t ≡ false) × ((j : ℕ) × (pointer_at t j ≢ 0)))
unfolding is_empty_loop
is_empty_loop_lem zero i t = inl (refl, λ j a b. absurd (omega arith))
is_empty_loop_lem (suc left) i t = elim (Bool-cases (pointer_at t i == 0)) [
  | inr used ↦ inr (rw used, (i, ground arith))
  | inl free ↦ elim (is_empty_loop_lem left (i + 1) t) [
    | inl (e, h) ↦ inl (
      rw free e,
      λ j a b. elim (ℕ_discrete i j) [
        | yes same ↦ rw (← same) (ground arith)
        | no ne ↦ h j (omega arith) (omega arith)
      ],
    )
    | inr (e, h) ↦ inr (rw free e, h)
  ]
]

-- `ExIsEmptyHandleTable` says whether no item of the table is in use.
is_empty_handle_table-cases :
    (t : EhandleTable)
    → IsValid t
    → ((is_empty_handle_table t ≡ true) × ((j : ℕ) → pointer_at t j ≡ 0))
      ⊎ ((is_empty_handle_table t ≡ false) × ((j : ℕ) × (pointer_at t j ≢ 0)))
unfolding is_empty_handle_table
is_empty_handle_table-cases t v = elim (is_empty_loop_lem t.capacity 0 t) [
  | inl (e, h) ↦ inl (
    e,
    λ j. elim (dec_lt j t.capacity) [
      | yes lt ↦ h j (omega arith) (omega arith)
      | no ge ↦ pointer_at_out t j v (omega arith)
    ],
  )
  | inr (e, h) ↦ inr (e, h)
]

-- `ExDeleteHandleTable` has its test the wrong way round: it refuses every table with no pointer in
-- use, with STATUS_TABLE_NOT_EMPTY and the table as it was, and frees every table that has one.
pub delete_handle_table_inverted :
    (t : EhandleTable)
    → IsValid t
    → (((i : ℕ) → pointer_at t i ≡ 0) × (delete_handle_table t ≡ (table_not_empty, some t)))
      ⊎ (((i : ℕ) × (pointer_at t i ≢ 0)) × (delete_handle_table t ≡ (success, none)))
unfolding delete_handle_table
delete_handle_table_inverted t v =
    elim (is_empty_handle_table-cases (lock_handle_table t) (IsValid-locks t (t.locks + 1) v)) [
      | inl (e, free) ↦ inl (free, rw e (ground arith))
      | inr (e, used) ↦ inr (used, rw e)
    ]

module _ {W : Type 0} (kill : ℕ → W → Bool × W) where
  -- What a deletion does to the table and to the state of the callback.
  abbrev pub Deleted : EhandleTable → ℕ → W → Option (Bstatus × EhandleTable × W) → Type 0
  Deleted t handle w r =
      ((lookup t handle ≡ 0) × (r ≡ some (invalid_handle, t, w)))
      ⊎ ((lookup t handle ≢ 0)
          × ((kill (lookup t handle) w).0 ≡ false)
          × (r ≡ some (delete_canceled, t, (kill (lookup t handle) w).1)))
      ⊎ ((lookup t handle ≢ 0)
          × ((kill (lookup t handle) w).0 ≡ true)
          × ((u : EhandleTable) × (r ≡ some (success, u, (kill (lookup t handle) w).1))
              × IsValid u
              × (u.locks ≡ t.locks)
              × ((h : ℕ) → h < 2 ^ 64 → lookup u h ≡ (if h == handle then 0 else lookup t h))))

  -- With one round more than the table has items, in a table that can grow or where the handle is not
  -- the one of `MaxIndex`, `ExDeleteHandle` returns. A handle that the table does not have is refused
  -- and nothing is called; where the callback refuses the pointer nothing changes but its own state;
  -- otherwise exactly that handle is gone, the shrunk map has all the others, and the invariant and
  -- the lock count are kept.
  pub delete_handle-Deleted :
      (f : ℕ) (alloc : ℕ → Bool) (t : EhandleTable) (handle : ℕ) (w : W)
      → IsBounded alloc
      → IsValid t
      → handle < 2 ^ 64
      → (0 < t.grow_by) ⊎ (t.max_index ≢ handle_to_index handle)
      → t.capacity < f
      → Deleted t handle w (delete_handle kill f alloc t handle w)
  unfolding delete_handle
  delete_handle-Deleted f alloc t handle w bounded v fits ends fuel =
      elim (Bool-cases (lookup t handle == 0)) [
        | inl missing ↦ inl (ground arith, ground (arith, lookup_missing t handle (ground arith)))
        | inr there ↦
            let (ok, lt, e) = lookup-found t handle v (ground arith) in
            let index = handle_to_index handle in
            let inside : leb t.capacity index ≡ false = ground arith in
            let used : (pointer_at t index == 0) ≡ false = ground arith in
            elim (Bool-cases (kill (pointer_at t index) w).0) [
              | inr refused ↦ inr (
                  inl
                    (ground arith, rw e refused, rw (e, ok, inside, used, refused) (ground arith)))
              | inl killed ↦
                  let locked = lock_handle_table t in
                  let (u, run, d) =
                    exp_delete_handle-Dropped f alloc locked index bounded
                      (IsValid-locks t (t.locks + 1) v) lt ends fuel in
                  inr (
                    inr (
                      ground arith,
                      rw e killed,
                      (
                        unlock_handle_table u,
                        rw (e, ok, inside, used, killed, delete_handle) (rw run),
                        IsValid-locks u (u.locks - 1) d.valid,
                        omega (arith, d.locks),
                        λ h small. ground (
                          arith,
                          lookup-locks u (u.locks - 1) h,
                          lookup-locks t (t.locks + 1) h,
                          lookup-place locked u index 0 (omega (arith, v.small)) d.same h small,
                          handle_to_index_lem handle fits ok,
                        ),
                      ),
                    ))
            ]
      ]

  -- In a table that cannot grow, to delete the handle of `MaxIndex` never ends: whatever the bound on
  -- the rounds, once the callback lets the pointer go the loop that shrinks the map uses it up.
  pub delete_handle_hangs :
      (f : ℕ) (alloc : ℕ → Bool) (t : EhandleTable) (handle : ℕ) (w : W)
      → IsValid t
      → lookup t handle ≢ 0
      → t.grow_by ≡ 0
      → t.max_index ≡ handle_to_index handle
      → (kill (lookup t handle) w).0 ≡ true
      → delete_handle kill f alloc t handle w ≡ none
  unfolding delete_handle exp_delete_handle
  delete_handle_hangs f alloc t handle w v there fixed top killed =
      let (ok, lt, e) = lookup-found t handle v there in
      let index = handle_to_index handle in
      let cleared = set_pointer (lock_handle_table t) index 0 in
      let lowered = record cleared { max_index = lower_max cleared t.max_index } in
      let le = (lower_max_lem cleared t.max_index).0 in
      let stuck : shrink_loop f lowered t.capacity ≡ none =
        shrink_loop-none f t.capacity lowered fixed (omega (arith, v.small)) (omega arith)
          v.start in
      let inside : leb t.capacity index ≡ false = ground arith in
      let used : (pointer_at t index == 0) ≡ false = ground arith in
      let same : (t.max_index == index) ≡ true = ground arith in
      let gone : (kill (pointer_at t index) w).0 ≡ true = rw (← e) killed in
      rw (ok, inside, used, gone, delete_handle) (rw (same, exp_delete_handle) (rw stuck))
