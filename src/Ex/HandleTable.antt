-- ===== src/Ex/HandleTable.antt =====
-- boron/source/ex/handtab.c: the handle table. A pointer is a number and 0 is NULL; the map is the
-- list of its items, empty where the code has NULL. `alloc` says whether MmAllocatePool finds the
-- given number of bytes, and a callback takes the state it acts on and returns it. The mutex, which
-- the calling thread may take again, is the number of times that thread holds it.
pub mod Lookup
pub mod Resize
pub mod Create
pub mod Delete
pub mod Kill
pub mod Duplicate
mod Tests
use boron.Prelude.{
  ℕ, zero, suc, ◌+◌, ◌-◌, ◌*◌, ◌/◌, ◌%◌, ◌^◌, Bool, true, false, ◌&&◌, ◌||◌, not, Option, none,
  some, List, [], ◌∷◌, ◌++◌, ltb, leb, ◌==◌, if◌then◌else◌, get_or, set, take, replicate, length,
}
use boron.Prelude.Status.{
  Bstatus, success, invalid_parameter, insufficient_memory, unsupported_function, invalid_handle,
  table_not_empty, delete_canceled, too_many_handles, failed,
}

-- `EHANDLE_TABLE`; an `EHANDLE_ITEM` is its pointer.
pub record EhandleTable : Type 0 where
  pub locks : ℕ
  pub capacity : ℕ
  pub grow_by : ℕ
  pub initial_size : ℕ
  pub max_index : ℕ
  pub limit : ℕ
  pub handle_map : List ℕ

-- `size_t` addition.
abbrev pub add_size : ℕ → ℕ → ℕ
add_size a b = (a + b) % 2 ^ 64

-- `INDEX_TO_HANDLE`
abbrev pub index_to_handle : ℕ → ℕ
index_to_handle index = (index + 1) * 4 % 2 ^ 64

-- `HANDLE_TO_INDEX`
abbrev pub handle_to_index : ℕ → ℕ
handle_to_index handle = (handle / 4 + 2 ^ 64 - 1) % 2 ^ 64

-- `Table->HandleMap[Index].Pointer`
abbrev pub pointer_at : EhandleTable → ℕ → ℕ
pointer_at t index = get_or t.handle_map index 0

abbrev pub set_pointer : EhandleTable → ℕ → ℕ → EhandleTable
set_pointer t index p = record t { handle_map = set t.handle_map index p }

-- `ExLockHandleTable` and `ExUnlockHandleTable`
abbrev pub lock_handle_table : EhandleTable → EhandleTable
lock_handle_table t = record t { locks = t.locks + 1 }

abbrev pub unlock_handle_table : EhandleTable → EhandleTable
unlock_handle_table t = record t { locks = t.locks - 1 }

-- `ExCreateHandleTable`: `got_table` says whether the table itself could be allocated. Memory of the
-- pool is handed out zeroed, so `MaxIndex`, which the function does not set, starts at 0.
pub create_handle_table : (ℕ → Bool) → Bool → ℕ → ℕ → ℕ → Bstatus × Option EhandleTable
create_handle_table alloc got_table initial_size grow_by_size limit =
    if not got_table
    then (insufficient_memory, none)
    else let small = ltb limit initial_size in
      let table : EhandleTable = record {
        locks = 0;
        capacity = initial_size;
        grow_by = if small then 0 else grow_by_size;
        initial_size = initial_size;
        max_index = 0;
        limit = if small then initial_size else limit;
        handle_map = [];
      } in
      if initial_size == 0
      then (success, some table)
      else if not (alloc (8 * initial_size % 2 ^ 64))
      then (insufficient_memory, none)
      else (success, some (record table { handle_map = replicate initial_size 0 }))

-- `ExpCheckHandleCorrectness`
pub check_handle_correctness : ℕ → Bool
check_handle_correctness handle = not (handle == 0) && handle % 4 == 0

-- The loop of `ExIsEmptyHandleTable` from index `i`, with `left` rounds to go.
pub is_empty_loop : ℕ → ℕ → EhandleTable → Bool
is_empty_loop zero i t = true
is_empty_loop (suc left) i t =
    let rest = is_empty_loop left (i + 1) t in if not (pointer_at t i == 0) then false else rest

pub is_empty_handle_table : EhandleTable → Bool
unfolding is_empty_loop
is_empty_handle_table t = is_empty_loop t.capacity 0 t

-- `ExDeleteHandleTable`: `none` is a table that has been freed.
pub delete_handle_table : EhandleTable → Bstatus × Option EhandleTable
delete_handle_table t =
    let locked = lock_handle_table t in
    if is_empty_handle_table locked
    then (table_not_empty, some (unlock_handle_table locked))
    else (success, none)

-- The new map of `ExpResizeHandleTable` where it grows from `capacity` to `new_size` items.
pub grown_map : List ℕ → ℕ → ℕ → List ℕ
grown_map [] capacity new_size = replicate new_size 0
grown_map (x ∷ xs) capacity new_size = take capacity (x ∷ xs) ++ replicate (new_size - capacity) 0

-- `ExpResizeHandleTable`, from the allocation on.
pub resized_map : EhandleTable → ℕ → List ℕ
resized_map t new_size =
    if ltb t.capacity new_size
    then grown_map t.handle_map t.capacity new_size
    else take new_size t.handle_map

pub resize_to : (ℕ → Bool) → EhandleTable → ℕ → Bstatus × EhandleTable
resize_to alloc t new_size =
    if not (alloc (8 * new_size % 2 ^ 64))
    then (insufficient_memory, t)
    else (success, record t { handle_map = resized_map t new_size; capacity = new_size })

-- `ExpResizeHandleTable`
pub resize_handle_table : (ℕ → Bool) → EhandleTable → ℕ → Bstatus × EhandleTable
unfolding resize_to
resize_handle_table alloc t new_size =
    if new_size == t.capacity
    then (success, t)
    else if ltb t.limit new_size && ltb 0 t.limit
    then if leb t.limit t.capacity then (too_many_handles, t) else resize_to alloc t t.limit
    else resize_to alloc t new_size

-- The search of `ExpCreateHandle` for a free item, from index `i`, with `left` rounds to go.
pub find_free : ℕ → ℕ → EhandleTable → Option ℕ
find_free zero i t = none
find_free (suc left) i t =
    let rest = find_free left (i + 1) t in if pointer_at t i == 0 then some i else rest

-- Store the pointer and raise `MaxIndex`.
abbrev pub place : EhandleTable → ℕ → ℕ → EhandleTable
place t index p = record t {
  handle_map = set t.handle_map index p;
  max_index = if ltb t.max_index index then index else t.max_index;
}

-- The end of `ExpCreateHandle`, after the map was full and has been resized.
pub create_grown : ℕ → ℕ → Bstatus × EhandleTable → Bstatus × Option ℕ × EhandleTable
create_grown new_index p (status, t) =
    if failed status
    then (status, none, t)
    else (success, some (index_to_handle new_index), place t new_index p)

-- `ExpCreateHandle`: the status, the handle written on success, and the table.
pub exp_create_handle : (ℕ → Bool) → EhandleTable → ℕ → Bstatus × Option ℕ × EhandleTable
unfolding create_grown
exp_create_handle alloc t p = elim (find_free t.capacity 0 t) [
  | some i ↦ (success, some (index_to_handle i), place t i p)
  | none ↦
      if t.grow_by == 0
      then (too_many_handles, none, t)
      else create_grown t.capacity p (resize_handle_table alloc t (add_size t.capacity t.grow_by))
]

pub create_handle : (ℕ → Bool) → EhandleTable → ℕ → Bstatus × Option ℕ × EhandleTable
create_handle alloc t p =
    if p == 0
    then (invalid_parameter, none, t)
    else let (status, handle, t') = exp_create_handle alloc (lock_handle_table t) p in
      (status, handle, unlock_handle_table t')

-- `ExGetPointerFromHandle`: the status, what it writes to `*OutObject`, and the table.
pub get_pointer_from_handle : EhandleTable → ℕ → Bstatus × Option ℕ × EhandleTable
get_pointer_from_handle t handle =
    if not (check_handle_correctness handle)
    then (invalid_handle, none, t)
    else let locked = lock_handle_table t in
      let index = handle_to_index handle in
      if leb t.capacity index
      then (invalid_handle, none, unlock_handle_table locked)
      else if pointer_at t index == 0
      then (invalid_handle, some 0, unlock_handle_table locked)
      else (success, some (pointer_at t index), locked)

-- for (; MaxIndex > 0 && HandleMap[MaxIndex].Pointer == NULL; MaxIndex--);
pub lower_max : EhandleTable → ℕ → ℕ
lower_max t zero = 0
lower_max t (suc i) = let rest = lower_max t i in if pointer_at t (suc i) == 0 then rest else suc i

-- The loop of `ExpDeleteHandle` that takes `GrowBy` off the capacity; `none` is out of fuel.
pub shrink_loop : ℕ → EhandleTable → ℕ → Option ℕ
shrink_loop zero t new_capacity = none
shrink_loop (suc f) t new_capacity =
    let rest = shrink_loop f t (new_capacity - t.grow_by) in
    if leb (add_size (add_size t.max_index 1) t.grow_by) new_capacity
      && (leb (add_size t.initial_size t.grow_by) new_capacity && ltb t.grow_by new_capacity)
    then rest
    else some new_capacity

-- `ExpDeleteHandle`; `none` is a loop that the fuel did not bring to an end.
pub exp_delete_handle : ℕ → (ℕ → Bool) → EhandleTable → ℕ → Option EhandleTable
exp_delete_handle f alloc t index =
    let cleared = set_pointer t index 0 in
    if not (t.max_index == index)
    then some cleared
    else let lowered = record cleared { max_index = lower_max cleared t.max_index } in
      elim (shrink_loop f lowered t.capacity) [
        | none ↦ none
        | some new_capacity ↦
            if new_capacity == t.capacity
            then some lowered
            else some (resize_handle_table alloc lowered new_capacity).1
      ]

-- `ExCheckHandle`
pub check_handle : EhandleTable → ℕ → Bstatus × EhandleTable
check_handle t handle =
    if not (check_handle_correctness handle)
    then (invalid_handle, t)
    else let index = handle_to_index handle in
      let unlocked = unlock_handle_table (lock_handle_table t) in
      if leb t.capacity index
      then (invalid_handle, unlocked)
      else if pointer_at t index == 0
      then (invalid_handle, unlocked)
      else (success, unlocked)

module _ {W : Type 0} (kill : ℕ → W → Bool × W) where
  -- The loop of `ExKillHandleTable` from index `i`, with `left` rounds to go, on a locked table.
  pub kill_loop : ℕ → ℕ → EhandleTable → W → Bstatus × Option EhandleTable × W
  kill_loop zero i t w = (success, none, w)
  kill_loop (suc left) i t w =
      let skip = kill_loop left (i + 1) t w in
      let (killed, w') = kill (pointer_at t i) w in
      let rest = kill_loop left (i + 1) (set_pointer t i 0) w' in
      if pointer_at t i == 0
      then skip
      else if not killed
      then (delete_canceled, some t, w')
      else rest

  -- `ExKillHandleTable`: `none` is a table that has been freed.
  pub kill_handle_table : EhandleTable → W → Bstatus × Option EhandleTable × W
  unfolding kill_loop
  kill_handle_table t w = kill_loop t.capacity 0 (lock_handle_table t) w

  -- `ExDeleteHandle`; `none` is the loop of `ExpDeleteHandle` out of fuel.
  pub delete_handle : ℕ → (ℕ → Bool) → EhandleTable → ℕ → W → Option (Bstatus × EhandleTable × W)
  delete_handle f alloc t handle w =
      let index = handle_to_index handle in
      let locked = lock_handle_table t in
      let (killed, w') = kill (pointer_at t index) w in
      if not (check_handle_correctness handle)
      then some (invalid_handle, t, w)
      else if leb t.capacity index
      then some (invalid_handle, unlock_handle_table locked, w)
      else if pointer_at t index == 0
      then some (invalid_handle, unlock_handle_table locked, w)
      else if not killed
      then some (delete_canceled, unlock_handle_table locked, w')
      else elim (exp_delete_handle f alloc locked index) [
        | none ↦ none
        | some t' ↦ some (success, unlock_handle_table t', w')
      ]
