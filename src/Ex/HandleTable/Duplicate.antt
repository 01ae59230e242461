-- ===== src/Ex/HandleTable/Duplicate.antt =====
-- boron/source/ex/handtab.c: the functions that duplicate handles and tables, and the filter.
pub mod Laws
use boron.Prelude.{
  ℕ, zero, suc, ◌+◌, ◌-◌, ◌*◌, ◌/◌, ◌%◌, ◌^◌, Bool, true, false, ◌&&◌, ◌||◌, not, Option, none,
  some, ltb, leb, ◌==◌, if◌then◌else◌, get_or, set,
}
use boron.Prelude.Status.{
  Bstatus, success, unsupported_function, invalid_handle, delete_canceled, failed,
}
use boron.Ex.HandleTable.{
  EhandleTable, index_to_handle, handle_to_index, pointer_at, set_pointer, place, lock_handle_table,
  unlock_handle_table, create_handle_table, check_handle_correctness, resize_handle_table,
  exp_create_handle, exp_delete_handle, delete_handle_table, delete_handle,
}

-- `ExCreateHandleTableInherit`
pub create_handle_table_inherit : (ℕ → Bool) → Bool → EhandleTable → Bstatus × Option EhandleTable
create_handle_table_inherit alloc got_table t =
    create_handle_table alloc got_table t.initial_size t.grow_by t.limit

-- NewTable->HandleMap[i].Pointer = Object; if (Object) NewTable->MaxIndex = i;
abbrev pub clone_item : EhandleTable → ℕ → ℕ → EhandleTable
clone_item new i p = record new {
  handle_map = set new.handle_map i p;
  max_index = if p == 0 then new.max_index else i;
}

module _ {W : Type 0} (duplicate : ℕ → W → ℕ × W) where
  -- The end of `ExDuplicateHandleToHandle`, on a locked table, after the old pointer has been killed.
  pub duplicate_to : EhandleTable → ℕ → ℕ → W → Bstatus × EhandleTable × W
  duplicate_to t index new_index w =
      let (p, w') = duplicate (pointer_at t index) w in
      if p == 0
      then (unsupported_function, unlock_handle_table t, w')
      else (success, unlock_handle_table (place t new_index p), w')

  -- `ExDuplicateHandleToHandle`
  pub duplicate_handle_to_handle :
      (ℕ → W → Bool × W) → EhandleTable → ℕ → ℕ → W → Bstatus × EhandleTable × W
  unfolding duplicate_to
  duplicate_handle_to_handle kill t handle new_handle w =
      let index = handle_to_index handle in
      let new_index = handle_to_index new_handle in
      let locked = lock_handle_table t in
      let (killed, w') = kill (pointer_at t new_index) w in
      if not (check_handle_correctness handle) || not (check_handle_correctness new_handle)
      then (invalid_handle, t, w)
      else if leb t.capacity index || leb t.capacity new_index
      then (invalid_handle, unlock_handle_table locked, w)
      else if pointer_at t new_index == 0
      then duplicate_to locked index new_index w
      else if not killed
      then (delete_canceled, unlock_handle_table locked, w')
      else duplicate_to locked index new_index w'

  -- `ExDuplicateHandle` once a handle has been made for the placeholder 1: the result has the status,
  -- the handle written on success, the table and the callback's state, and `none` is out of fuel.
  pub duplicate_reserved :
      ℕ
      → (ℕ → Bool)
      → ℕ
      → W
      → Bstatus × Option ℕ × EhandleTable
      → Option (Bstatus × Option ℕ × EhandleTable × W)
  duplicate_reserved f alloc index w (status, none, t) =
      some (status, none, unlock_handle_table t, w)
  duplicate_reserved f alloc index w (status, some reserved, t) =
      let (p, w') = duplicate (pointer_at t index) w in
      let released = exp_delete_handle f alloc t (handle_to_index reserved) in
      if p == 0
      then elim released [
        | none ↦ none
        | some u ↦ some (unsupported_function, none, unlock_handle_table u, w')
      ]
      else some (
        success,
        some reserved,
        unlock_handle_table (set_pointer t (handle_to_index reserved) p),
        w',
      )

  -- `ExDuplicateHandle`
  pub duplicate_handle :
      ℕ → (ℕ → Bool) → EhandleTable → ℕ → W → Option (Bstatus × Option ℕ × EhandleTable × W)
  unfolding duplicate_reserved
  duplicate_handle f alloc t handle w =
      let index = handle_to_index handle in
      let locked = lock_handle_table t in
      if not (check_handle_correctness handle)
      then some (invalid_handle, none, t, w)
      else if leb t.capacity index
      then some (invalid_handle, none, unlock_handle_table locked, w)
      else duplicate_reserved f alloc index w (exp_create_handle alloc locked 1)

  -- The loop of `ExDuplicateHandleTable` over the indices from `i`, with `left` rounds to go.
  pub clone_loop : ℕ → ℕ → EhandleTable → EhandleTable → W → EhandleTable × W
  clone_loop zero i t new w = (new, w)
  clone_loop (suc left) i t new w =
      let (p, w') = duplicate (pointer_at t i) w in
      let skip = clone_loop left (i + 1) t new w in
      let rest = clone_loop left (i + 1) t (clone_item new i p) w' in
      if pointer_at t i == 0 then skip else rest

  -- The rest of `ExDuplicateHandleTable`: the status, what `*NewHandleTable` points to (`none` where nothing was
  -- written or the table was freed) and the callback's state. The old table is as it was.
  pub clone_resized : EhandleTable → Bstatus × EhandleTable → W → Bstatus × Option EhandleTable × W
  unfolding clone_loop
  clone_resized t (status, new) w =
      if failed status
      then (status, (delete_handle_table new).1, w)
      else let (cloned, w') = clone_loop (t.max_index + 1) 0 t new w in (success, some cloned, w')

  -- `ExDuplicateHandleTable`
  pub duplicate_handle_table :
      (ℕ → Bool) → Bool → EhandleTable → W → Bstatus × Option EhandleTable × W
  unfolding clone_resized
  duplicate_handle_table alloc got_table t w =
      let (status, made) = create_handle_table_inherit alloc got_table t in
      elim made [
        | none ↦ (status, none, w)
        | some new ↦ clone_resized t (resize_handle_table alloc new t.capacity) w
      ]

module _ {W : Type 0} (filter : ℕ → W → Bool × W) (kill : ℕ → W → Bool × W) where
  -- The loop of `ExFilterHandleTable` from index `i`; `none` is out of fuel, here or in a deletion.
  pub filter_loop : ℕ → (ℕ → Bool) → ℕ → EhandleTable → W → Option (EhandleTable × W)
  filter_loop zero alloc i t w = none
  filter_loop (suc f) alloc i t w =
      let (hit, w') = filter (pointer_at t i) w in
      let skip = filter_loop f alloc (i + 1) t w in
      let keep = filter_loop f alloc (i + 1) t w' in
      let go = λ (u : EhandleTable) (v : W). filter_loop f alloc (i + 1) u v in
      let deleted = delete_handle kill (suc f) alloc t (index_to_handle i) w' in
      if ltb t.max_index i
      then some (t, w)
      else if pointer_at t i == 0
      then skip
      else if hit
      then elim deleted [ none ↦ none | some (status, u, v) ↦ go u v ]
      else keep

  -- `ExFilterHandleTable`
  pub filter_handle_table : ℕ → (ℕ → Bool) → EhandleTable → W → Option (EhandleTable × W)
  unfolding filter_loop
  filter_handle_table f alloc t w = elim (filter_loop f alloc 0 (lock_handle_table t) w) [
    | none ↦ none
    | some (u, v) ↦ some (unlock_handle_table u, v)
  ]
