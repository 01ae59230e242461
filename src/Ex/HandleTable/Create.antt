-- ===== src/Ex/HandleTable/Create.antt =====
-- `ExCreateHandleTable` and `ExCreateHandle`.
use boron.Prelude.{
  ℕ, zero, suc, ◌+◌, ◌-◌, ◌*◌, ◌%◌, ◌^◌, ◌≤◌, ◌<◌, ◌≡◌, ◌≢◌, ◌⊎◌, inl, inr, refl, sym, Bool, true,
  false, arith, ◌==◌, if◌then◌else◌, List, [], get_or, set, length, length-set, get_or-set_self,
  get_or-set_ne, replicate, length-replicate, get_or-replicate, Bool-cases, Option-cases, Option,
  some, none, ap, ◌∙◌, ℕ_discrete,
}
use boron.Prelude.Status.{Bstatus, success, insufficient_memory, too_many_handles}
use boron.Ex.HandleTable.{
  EhandleTable, index_to_handle, pointer_at, create_handle_table, find_free, place, create_grown,
  exp_create_handle, create_handle, resize_handle_table, add_size, lock_handle_table,
  unlock_handle_table,
}
use boron.Ex.HandleTable.Lookup.{
  IsValid, lookup, lookup-place, index_to_handle_lem, pointer_at_out, IsValid-locks, lookup-locks,
  lookup-eq-zero, lookup-index_to_handle,
}
use boron.Ex.HandleTable.Resize.{IsBounded, ResizeOutcome, resize_handle_table-outcome}

-- The first free index of `left` from `i` on.
abbrev pub FirstFree : EhandleTable → ℕ → ℕ → Option ℕ → Type 0
FirstFree t i left none = (j : ℕ) → i ≤ j → j < i + left → pointer_at t j ≢ 0
FirstFree t i left (some k) =
    (i ≤ k) × (k < i + left) × (pointer_at t k ≡ 0) × ((j : ℕ) → i ≤ j → j < k → pointer_at t j ≢ 0)

find_free-FirstFree : (left i : ℕ) (t : EhandleTable) → FirstFree t i left (find_free left i t)
unfolding find_free
find_free-FirstFree zero i t = λ j a b. absurd (omega arith)
find_free-FirstFree (suc left) i t = elim (Bool-cases (pointer_at t i == 0)) [
  | inl free ↦ rw free (omega arith, omega arith, ground arith, λ j a b. absurd (omega arith))
  | inr used ↦ rw used (
      FirstFree-cons t i left (find_free left (i + 1) t) (ground arith)
        (find_free-FirstFree left (i + 1) t))
]
  where
    FirstFree-cons :
        (t : EhandleTable) (i left : ℕ) (r : Option ℕ)
        → pointer_at t i ≢ 0
        → FirstFree t (i + 1) left r
        → FirstFree t i (suc left) r
    FirstFree-cons t i left none used h = λ j a b. elim (ℕ_discrete i j) [
      | yes e ↦ rw (← e) used
      | no ne ↦ h j (omega arith) (omega arith)
    ]
    FirstFree-cons t i left (some k) used (a, b, c, d) = (
      omega arith,
      omega arith,
      c,
      λ j x y. elim (ℕ_discrete i j) [ yes e ↦ rw (← e) used | no ne ↦ d j (omega arith) y ],
    )

-- A pointer put at an index below the capacity.
pub record Placed (t u : EhandleTable) (index p : ℕ) : Type 0 where
  pub same : (i : ℕ) → pointer_at u i ≡ (if i == index then p else pointer_at t i)
  pub valid : IsValid u

pub place-Placed :
    (t : EhandleTable) (index p : ℕ)
    → IsValid t
    → index < t.capacity
    → p ≢ 0
    → Placed t (place t index p) index p
place-Placed t index p v h ne = record {
  same = same;
  valid = record {
    sized = omega (arith, length-set t.handle_map index p, v.sized);
    bound = λ i used. ground (arith, same i, v.bound i);
    top = ground (arith, v.top);
    small = v.small;
    small_grow = v.small_grow;
    start = v.start;
  };
}
  where
    same :
        (i : ℕ) → get_or (set t.handle_map index p) i 0 ≡ (if i == index then p else pointer_at t i)
    same i = elim (ℕ_discrete index i) [
      | yes e ↦ ground (arith, get_or-set_self t.handle_map index p 0 (omega (arith, v.sized)))
      | no e ↦ ground (arith, get_or-set_ne t.handle_map index i p 0 e)
    ]

-- How the creation of a handle for `p` ends, by its status, the handle and the table that it leaves.
abbrev pub Created : EhandleTable → ℕ → Bstatus × Option ℕ × EhandleTable → Type 0
Created t p (status, none, u) =
    (status ≢ success) × (u ≡ t) × ((i : ℕ) → i < t.capacity → pointer_at t i ≢ 0)
Created t p (status, some handle, u) =
    (status ≡ success)
    × IsValid u
    × (u.locks ≡ t.locks)
    × (handle < 2 ^ 64)
    × (lookup t handle ≡ 0)
    × ((h : ℕ) → h < 2 ^ 64 → lookup u h ≡ (if h == handle then p else lookup t h))

Created-place :
    (t u : EhandleTable) (index p : ℕ)
    → index < 2 ^ 61
    → IsValid u
    → u.locks ≡ t.locks
    → pointer_at t index ≡ 0
    → ((i : ℕ) → pointer_at u i ≡ (if i == index then p else pointer_at t i))
    → Created t p (success, some (index_to_handle index), u)
Created-place t u index p small v locks free same =
    let (ok, back, fits) = index_to_handle_lem index small in
    (
      refl,
      v,
      locks,
      fits,
      lookup-index_to_handle t index small ∙ free,
      lookup-place t u index p small same,
    )

create_grown-Created :
    (alloc : ℕ → Bool) (t : EhandleTable) (p n : ℕ) (r : Bstatus × EhandleTable)
    → IsValid t
    → p ≢ 0
    → ((i : ℕ) → i < t.capacity → pointer_at t i ≢ 0)
    → t.capacity < n
    → ResizeOutcome alloc t n r
    → Created t p (create_grown t.capacity p r)
unfolding create_grown
create_grown-Created alloc t p n (status, u) v ne full more (inl (ok, done, size, grown)) =
    let put = place-Placed u t.capacity p done.valid (omega arith) ne in
    let same : (i : ℕ)
        → pointer_at (place u t.capacity p) i ≡ (if i == t.capacity then p else pointer_at t i) =
      λ i. ground (arith, put.same i, done.same i) in
    rw ok (
      Created-place t (place u t.capacity p) t.capacity p (omega (arith, v.small)) put.valid
        done.kept.0 (pointer_at_out t t.capacity v (omega arith)) same)
create_grown-Created alloc t p n (status, u) v ne full more (inr (inl (bad, same, a, b, c, d))) =
    rw bad ((λ e. ground arith), same, full)
create_grown-Created alloc t p n (status, u) v ne full more (inr (inr (bad, same, rest))) =
    rw bad ((λ e. ground arith), same, full)

exp_create_handle-Created :
    (alloc : ℕ → Bool) (t : EhandleTable) (p : ℕ)
    → IsBounded alloc
    → IsValid t
    → p ≢ 0
    → Created t p (exp_create_handle alloc t p)
unfolding exp_create_handle
exp_create_handle-Created alloc t p bounded v ne =
    let found = find_free-FirstFree t.capacity 0 t in
    elim (Option-cases (find_free t.capacity 0 t)) [
      | inl full ↦ rw (full, exp_create_handle) (no_room (rw full at found))
      | inr (k, here) ↦ rw (here, exp_create_handle) (room k (rw here at found))
    ]
  where
    room :
        (k : ℕ)
        → FirstFree t 0 t.capacity (some k)
        → Created t p (success, some (index_to_handle k), place t k p)
    room k (a, b, c, d) =
        let put = place-Placed t k p v (omega arith) ne in
        Created-place t (place t k p) k p (omega (arith, v.small)) put.valid refl c put.same

    no_room :
        FirstFree t 0 t.capacity none
        → Created t p (
            if t.grow_by == 0
            then (too_many_handles, none, t)
            else create_grown t.capacity p
                (resize_handle_table alloc t (add_size t.capacity t.grow_by)))
    no_room full = elim (Bool-cases (t.grow_by == 0)) [
      | inl fixed ↦ rw fixed ((λ e. ground arith), refl, λ i h. full i (omega arith) (omega arith))
      | inr grows ↦ rw grows (
          create_grown-Created alloc t p (add_size t.capacity t.grow_by)
            (resize_handle_table alloc t (add_size t.capacity t.grow_by)) v ne
            (λ i h. full i (omega arith) (omega arith)) (ground (arith, v.small, v.small_grow))
            (resize_handle_table-outcome alloc t (add_size t.capacity t.grow_by) bounded v
              (λ i h. pointer_at_out t i v (omega (arith, v.small, v.small_grow)))
              (omega (arith, v.small, v.small_grow)) (omega (arith, v.start, v.small, v.small_grow))
              (omega (arith, v.top, v.small, v.small_grow))))
    ]

Created-unlock :
    (t : EhandleTable) (p : ℕ) (r : Bstatus × Option ℕ × EhandleTable)
    → Created (lock_handle_table t) p r
    → Created t p (r.0, r.1, unlock_handle_table r.2)
Created-unlock t p (status, none, u) (bad, same, full) = (bad, rw same (ground arith), full)
Created-unlock t p (status, some handle, u) (ok, v, locks, fits, free, here) = (
  ok,
  IsValid-locks u (u.locks - 1) v,
  omega arith,
  fits,
  sym (lookup-locks t (t.locks + 1) handle) ∙ free,
  λ h lt.
      lookup-locks u (u.locks - 1) h
      ∙ here h lt
      ∙ ap (λ (q : ℕ). if h == handle then p else q) (lookup-locks t (t.locks + 1) h),
)

-- `ExCreateHandle` of a pointer that is not NULL either gives a handle that was not in use, and then
-- the table has that pointer behind that handle, behind every other handle what it had, its invariant
-- and its lock count; or it fails, changes nothing, and every item of the map is in use.
pub create_handle-Created :
    (alloc : ℕ → Bool) (t : EhandleTable) (p : ℕ)
    → IsBounded alloc
    → IsValid t
    → p ≢ 0
    → Created t p (create_handle alloc t p)
unfolding create_handle
create_handle-Created alloc t p bounded v ne =
    let made =
      exp_create_handle-Created alloc (lock_handle_table t) p bounded
        (IsValid-locks t (t.locks + 1) v) ne in
    let given : (p == 0) ≡ false = ground arith in
    rw given (Created-unlock t p (exp_create_handle alloc (lock_handle_table t) p) made)

abbrev pub Opened : (ℕ → Bool) → Bool → ℕ → Bstatus × Option EhandleTable → Type 0
Opened alloc got_table initial_size (status, some t) =
    (status ≡ success)
    × IsValid t
    × (t.locks ≡ 0)
    × (t.capacity ≡ initial_size)
    × ((h : ℕ) → lookup t h ≡ 0)
Opened alloc got_table initial_size (status, none) =
    (status ≡ insufficient_memory)
    × ((got_table ≡ false) ⊎ (alloc (8 * initial_size % 2 ^ 64) ≡ false))

Opened-empty :
    (got_table : Bool) (alloc : ℕ → Bool) (n grow limit : ℕ) (xs : List ℕ)
    → n < 2 ^ 60
    → grow < 2 ^ 32
    → length xs ≡ n
    → ((i : ℕ) → get_or xs i 0 ≡ 0)
    → Opened alloc got_table n (
      success,
      some (record {
        locks = 0;
        capacity = n;
        grow_by = grow;
        initial_size = n;
        max_index = 0;
        limit = limit;
        handle_map = xs;
      }),
    )
Opened-empty got_table alloc n grow limit xs small small_grow sized free = (
  refl,
  record {
    sized = sized;
    bound = λ i h. absurd (h (free i));
    top = omega arith;
    small = small;
    small_grow = small_grow;
    start = omega arith;
  },
  refl,
  refl,
  lookup-eq-zero _ free,
)

-- A table made by `ExCreateHandleTable` keeps the invariant, is not locked and has no handle, however
-- the limit compares to the initial size; where it cannot be made there was no memory for the table
-- or for its items.
pub create_handle_table_lem :
    (alloc : ℕ → Bool) (got_table : Bool) (initial_size grow_by_size limit : ℕ)
    → initial_size < 2 ^ 60
    → grow_by_size < 2 ^ 32
    → Opened alloc got_table initial_size
        (create_handle_table alloc got_table initial_size grow_by_size limit)
unfolding create_handle_table
create_handle_table_lem alloc got_table initial_size grow_by_size limit small small_grow =
    elim (Bool-cases got_table) [
      | inr lost ↦ rw lost (refl, inl refl)
      | inl got ↦ elim (Bool-cases (initial_size == 0)) [
        | inl empty ↦
            rw (got, empty)
              (Opened-empty true alloc initial_size _ _ [] small (ground arith) (ground arith)
                (λ i. refl))
        | inr some_items ↦ elim (Bool-cases (alloc (8 * initial_size % 2 ^ 64))) [
          | inl there ↦
              rw (got, some_items, there)
                (Opened-empty true alloc initial_size _ _ (replicate initial_size 0) small
                  (ground arith) (length-replicate initial_size 0)
                  (λ i. get_or-replicate initial_size i 0))
          | inr gone ↦ rw (got, some_items, gone) (refl, inr gone)
        ]
      ]
    ]
