-- ===== src/Ex/HandleTable/Lookup.antt =====
-- Handles and indices, the invariant of a table, and its view as a map from handles to pointers.
use boron.Prelude.{
  ℕ, ◌^◌, ◌≤◌, ◌<◌, ◌≡◌, ◌≢◌, ◌⊎◌, inl, inr, refl, true, false, arith, ◌==◌, if◌then◌else◌, length,
  get_or_out, some, Bool-cases,
}
use boron.Prelude.Status.{success, invalid_handle}
use boron.Ex.HandleTable.{
  EhandleTable, index_to_handle, handle_to_index, pointer_at, check_handle_correctness,
  get_pointer_from_handle, check_handle, lock_handle_table,
}

-- The map has `capacity` items, none of them in use above `max_index`, and the sizes leave room for
-- the sums that the code computes in `size_t`.
pub record IsValid (t : EhandleTable) : Type 0 where
  pub sized : length t.handle_map ≡ t.capacity
  pub bound : (i : ℕ) → pointer_at t i ≢ 0 → i ≤ t.max_index
  pub top : t.max_index ≤ t.capacity
  pub small : t.capacity < 2 ^ 60
  pub small_grow : t.grow_by < 2 ^ 32
  pub start : t.initial_size ≤ t.capacity

-- The pointer behind a handle, and 0 where there is none.
pub lookup : EhandleTable → ℕ → ℕ
unfolding check_handle_correctness
lookup t handle =
    if check_handle_correctness handle then pointer_at t (handle_to_index handle) else 0

-- The handle of an index is a correct handle, and its index is the one it was made from.
pub index_to_handle_lem :
    (i : ℕ)
    → i < 2 ^ 61
    → (check_handle_correctness (index_to_handle i) ≡ true)
      × (handle_to_index (index_to_handle i) ≡ i)
      × (index_to_handle i < 2 ^ 64)
unfolding check_handle_correctness
index_to_handle_lem i h = (ground arith, omega arith, omega arith)

pub handle_to_index_lem :
    (handle : ℕ)
    → handle < 2 ^ 64
    → check_handle_correctness handle ≡ true
    → index_to_handle (handle_to_index handle) ≡ handle
unfolding check_handle_correctness
handle_to_index_lem handle h c = ground arith

pub pointer_at_out : (t : EhandleTable) (i : ℕ) → IsValid t → t.capacity ≤ i → pointer_at t i ≡ 0
pointer_at_out t i v h = get_or_out t.handle_map i 0 (omega (arith, v.sized))

-- Two tables with the same pointers have the same handles.
pub lookup_ext :
    (t u : EhandleTable)
    → ((i : ℕ) → pointer_at t i ≡ pointer_at u i)
    → (h : ℕ) → lookup t h ≡ lookup u h
unfolding lookup
lookup_ext t u same h = ground (arith, same (handle_to_index h))

-- The pointers of `u` are those of `t`, but for `p` at one index: so are the handles.
pub lookup-place :
    (t u : EhandleTable) (index p : ℕ)
    → index < 2 ^ 61
    → ((i : ℕ) → pointer_at u i ≡ (if i == index then p else pointer_at t i))
    → (h : ℕ) → h < 2 ^ 64
    → lookup u h ≡ (if h == index_to_handle index then p else lookup t h)
unfolding lookup
lookup-place t u index p small same h fits =
    ground
      (arith, same (handle_to_index h), index_to_handle_lem index small, handle_to_index_lem h fits)

-- `ExGetPointerFromHandle` succeeds exactly for the handles that the table has: it returns the
-- pointer and leaves the table locked once more. For any other it returns STATUS_INVALID_HANDLE and
-- the table as it was.
pub get_pointer-lookup :
    (t : EhandleTable) (handle : ℕ)
    → IsValid t
    → ((lookup t handle ≢ 0)
        × (get_pointer_from_handle t handle
            ≡ (success, some (lookup t handle), lock_handle_table t)))
      ⊎ ((lookup t handle ≡ 0)
          × ((get_pointer_from_handle t handle).0 ≡ invalid_handle)
          × ((get_pointer_from_handle t handle).2 ≡ t))
unfolding get_pointer_from_handle lookup
get_pointer-lookup t handle v =
    let out = pointer_at_out t (handle_to_index handle) v in
    elim (Bool-cases (lookup t handle == 0)) [
      | inl no_pointer ↦ inr (ground arith, ground (arith, out), ground (arith, out))
      | inr pointer ↦ inl (ground arith, ground (arith, out))
    ]

-- `ExCheckHandle` says success exactly for the handles that the table has, and leaves it as it was.
pub check_handle-lookup :
    (t : EhandleTable) (handle : ℕ)
    → IsValid t
    → check_handle t handle ≡ (if lookup t handle == 0 then invalid_handle else success, t)
unfolding check_handle lookup
check_handle-lookup t handle v = ground (arith, pointer_at_out t (handle_to_index handle) v)

pub lookup-index_to_handle :
    (t : EhandleTable) (i : ℕ) → i < 2 ^ 61 → lookup t (index_to_handle i) ≡ pointer_at t i
unfolding lookup
lookup-index_to_handle t i h = ground (arith, index_to_handle_lem i h)

-- The lock count does not matter to the invariant or to the handles.
pub IsValid-locks : (t : EhandleTable) (n : ℕ) → IsValid t → IsValid (record t { locks = n })
IsValid-locks t n v = record {
  sized = v.sized;
  bound = v.bound;
  top = v.top;
  small = v.small;
  small_grow = v.small_grow;
  start = v.start;
}

pub lookup-locks : (t : EhandleTable) (n h : ℕ) → lookup (record t { locks = n }) h ≡ lookup t h
unfolding lookup
lookup-locks t n h = refl

pub lookup-eq-zero : (t : EhandleTable) → ((i : ℕ) → pointer_at t i ≡ 0) → (h : ℕ) → lookup t h ≡ 0
unfolding lookup
lookup-eq-zero t free h = ground (arith, free (handle_to_index h))

-- A handle that the table has passes every test that the code makes on it.
pub lookup-found :
    (t : EhandleTable) (handle : ℕ)
    → IsValid t
    → lookup t handle ≢ 0
    → (check_handle_correctness handle ≡ true)
      × (handle_to_index handle < t.capacity)
      × (lookup t handle ≡ pointer_at t (handle_to_index handle))
unfolding lookup
lookup-found t handle v h =
    let out = pointer_at_out t (handle_to_index handle) v in
    (ground arith, ground (arith, out), ground arith)

-- One that it does not have fails one of them.
pub lookup_missing :
    (t : EhandleTable) (handle : ℕ)
    → lookup t handle ≡ 0
    → (check_handle_correctness handle ≡ false) ⊎ (pointer_at t (handle_to_index handle) ≡ 0)
unfolding lookup
lookup_missing t handle h = ground arith

pub lookup-at :
    (t : EhandleTable) (handle : ℕ)
    → check_handle_correctness handle ≡ true
    → lookup t handle ≡ pointer_at t (handle_to_index handle)
unfolding lookup
lookup-at t handle h = ground arith

pub lookup-map :
    (t u : EhandleTable) (f : ℕ → ℕ)
    → ((i : ℕ) → pointer_at u i ≡ (if pointer_at t i == 0 then 0 else f (pointer_at t i)))
    → (h : ℕ) → lookup u h ≡ (if lookup t h == 0 then 0 else f (lookup t h))
unfolding lookup
lookup-map t u f same h = ground (arith, same (handle_to_index h))
