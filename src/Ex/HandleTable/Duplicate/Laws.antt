-- ===== src/Ex/HandleTable/Duplicate/Laws.antt =====
-- What the duplications leave in a table.
use boron.Prelude.{
  ℕ, zero, suc, ◌+◌, ◌-◌, ◌^◌, ◌<◌, ◌≡◌, ◌≢◌, inl, inr, refl, Bool, ◌&&◌, not, true, false, arith,
  ◌==◌, if◌then◌else◌, length, length-set, get_or-set_self, get_or-set_ne, Bool-cases, some,
  ℕ_discrete, ltb, leb, dec_lt, get_or_out, ◌∙◌,
}
use boron.Prelude.Status.{Bstatus, success, unsupported_function, delete_canceled}
use boron.Ex.HandleTable.{
  EhandleTable, pointer_at, handle_to_index, lock_handle_table, check_handle_correctness,
  unlock_handle_table, place,
}
use boron.Ex.HandleTable.Lookup.{
  IsValid, lookup, lookup-found, lookup-place, handle_to_index_lem, lookup-locks, lookup-at,
  lookup-map, pointer_at_out, IsValid-locks,
}
use boron.Ex.HandleTable.Create.{place-Placed}
use boron.Ex.HandleTable.Duplicate.{
  duplicate_to, duplicate_handle_to_handle, clone_item, clone_loop, clone_resized,
}

module _ {W : Type 0} (duplicate : ℕ → W → ℕ × W) (kill : ℕ → W → Bool × W) where
  -- The answer of the callback that closes what stood behind the new handle, if something did.
  abbrev pub closed : ℕ → W → Bool × W
  closed p w = if p == 0 then (true, w) else kill p w

  -- How a duplication onto `new_handle` ends, by the answers of the callbacks.
  abbrev pub DuplicatedTo :
      EhandleTable → ℕ → Bool × W → ℕ × W → Bstatus × EhandleTable × W → Type 0
  DuplicatedTo t new_handle (false, w) answer r = r ≡ (delete_canceled, t, w)
  DuplicatedTo t new_handle (true, w) (zero, w') r = r ≡ (unsupported_function, t, w')
  DuplicatedTo t new_handle (true, w) (suc q, w') (status, u, w'') =
      (status ≡ success)
      × (w'' ≡ w')
      × IsValid u
      × (u.locks ≡ t.locks)
      × ((h : ℕ) → h < 2 ^ 64 → lookup u h ≡ (if h == new_handle then suc q else lookup t h))

  duplicate_to-DuplicatedTo :
      (t : EhandleTable) (index new_handle : ℕ) (w : W) (answer : ℕ × W)
      → IsValid t
      → new_handle < 2 ^ 64
      → check_handle_correctness new_handle ≡ true
      → handle_to_index new_handle < t.capacity
      → duplicate (pointer_at t index) w ≡ answer
      → DuplicatedTo t new_handle
          (true, w)
          answer
          (duplicate_to duplicate (lock_handle_table t) index (handle_to_index new_handle) w)
  unfolding duplicate_to
  duplicate_to-DuplicatedTo t index new_handle w (zero, w') v fits ok lt e = rw e (ground arith)
  duplicate_to-DuplicatedTo t index new_handle w (suc q, w') v fits ok lt e =
      let new_index = handle_to_index new_handle in
      let put =
        place-Placed (lock_handle_table t) new_index (suc q) (IsValid-locks t (t.locks + 1) v) lt
          (ground arith) in
      let u = place (lock_handle_table t) new_index (suc q) in
      let real : (suc q == 0) ≡ false = ground arith in
      rw (e, real)
        (
          refl,
          refl,
          IsValid-locks u (u.locks - 1) put.valid,
          omega arith,
          λ h small. ground (
            arith,
            lookup-locks u (u.locks - 1) h,
            lookup-locks t (t.locks + 1) h,
            lookup-place (lock_handle_table t) u new_index (suc q) (omega (arith, v.small)) put.same
                h small,
            handle_to_index_lem new_handle fits ok,
          ),
        )

  after_close :
      (t : EhandleTable) (index new_handle : ℕ) (answer : Bool × W)
      → IsValid t
      → new_handle < 2 ^ 64
      → check_handle_correctness new_handle ≡ true
      → handle_to_index new_handle < t.capacity
      → DuplicatedTo t new_handle answer (duplicate (pointer_at t index) answer.1) (
          if not answer.0
          then (delete_canceled, unlock_handle_table (lock_handle_table t), answer.1)
          else duplicate_to duplicate
              (lock_handle_table t)
              index
              (handle_to_index new_handle)
              answer.1)
  after_close t index new_handle (false, w) v fits ok lt = ground arith
  after_close t index new_handle (true, w) v fits ok lt =
      duplicate_to-DuplicatedTo t index new_handle w (duplicate (pointer_at t index) w) v fits ok lt
        refl

  -- `ExDuplicateHandleToHandle` from a handle that the table has onto a handle that lies in the map: a
  -- pointer that is in use there is first handed to the closing callback, and if that refuses nothing
  -- changes. Then the duplicate, if there is one, stands behind the new handle, and every other handle,
  -- the invariant and the lock count are kept. If there is none the table does not change at all: a
  -- pointer that has just been closed stays behind the new handle.
  pub duplicate_handle_to_handle-DuplicatedTo :
      (t : EhandleTable) (handle new_handle : ℕ) (w : W)
      → IsValid t
      → new_handle < 2 ^ 64
      → lookup t handle ≢ 0
      → check_handle_correctness new_handle ≡ true
      → handle_to_index new_handle < t.capacity
      → DuplicatedTo t new_handle
          (closed (lookup t new_handle) w)
          (duplicate (lookup t handle) (closed (lookup t new_handle) w).1)
          (duplicate_handle_to_handle duplicate kill t handle new_handle w)
  unfolding duplicate_handle_to_handle
  duplicate_handle_to_handle-DuplicatedTo t handle new_handle w v fits there ok lt =
      let (ok', lt', e) = lookup-found t handle v there in
      let e' : lookup t new_handle ≡ pointer_at t (handle_to_index new_handle) =
        lookup-at t new_handle ok in
      let inside : leb t.capacity (handle_to_index handle) ≡ false = ground arith in
      let inside' : leb t.capacity (handle_to_index new_handle) ≡ false = ground arith in
      let old = pointer_at t (handle_to_index new_handle) in
      rw (e, e', ok, ok', inside, inside')
        (elim (Bool-cases (old == 0)) [
          | inl free ↦ rw free (
              duplicate_to-DuplicatedTo t (handle_to_index handle) new_handle w _ v fits ok lt refl)
          | inr used ↦
              rw used (after_close t (handle_to_index handle) new_handle (kill old w) v fits ok lt)
        ])

module _ {W : Type 0} (duplicate : ℕ → W → ℕ × W) (copy_of : ℕ → ℕ) where
  clone_loop-pointer_at :
      ((p : ℕ) (w : W) → (duplicate p w).0 ≡ copy_of p)
      → (left i : ℕ) (t new : EhandleTable) (w : W) (j : ℕ) → j < length new.handle_map
      → pointer_at (clone_loop duplicate left i t new w).0 j ≡ (
          if leb i j && ltb j (i + left) && not (pointer_at t j == 0)
          then copy_of (pointer_at t j)
          else pointer_at new j)
  unfolding clone_loop
  clone_loop-pointer_at pure zero i t new w j lt = ground arith
  clone_loop-pointer_at pure (suc left) i t new w j lt = elim (Bool-cases (pointer_at t i == 0)) [
    | inl free ↦ rw free (ground (arith, clone_loop-pointer_at pure left (i + 1) t new w j lt))
    | inr used ↦
        let p = (duplicate (pointer_at t i) w).0 in
        let next = clone_item new i p in
        let rest =
          clone_loop-pointer_at pure left (i + 1) t next (duplicate (pointer_at t i) w).1 j
            (omega (arith, length-set new.handle_map i p)) in
        rw used (elim (ℕ_discrete i j) [
          | yes e ↦ ground (
            arith,
            rest,
            pure (pointer_at t i) w,
            get_or-set_self new.handle_map i p 0 (omega arith),
          )
          | no ne ↦ ground (arith, rest, get_or-set_ne new.handle_map i j p 0 ne)
        ])
  ]

  length-clone_loop :
      (left i : ℕ) (t new : EhandleTable) (w : W)
      → length (clone_loop duplicate left i t new w).0.handle_map ≡ length new.handle_map
  unfolding clone_loop
  length-clone_loop zero i t new w = refl
  length-clone_loop (suc left) i t new w = elim (Bool-cases (pointer_at t i == 0)) [
    | inl free ↦ rw free (length-clone_loop left (i + 1) t new w)
    | inr used ↦
        let (p, w') = duplicate (pointer_at t i) w in
        rw used
          (length-clone_loop left (i + 1) t (clone_item new i p) w' ∙ length-set new.handle_map i p)
  ]

  -- Where the callback answers by `copy_of`, a new table that has as many items as the old one and no
  -- pointer gets exactly the duplicates of the pointers of the old one, behind the same handles.
  pub clone_resized-lookup :
      (t new : EhandleTable) (w : W)
      → ((p : ℕ) (w : W) → (duplicate p w).0 ≡ copy_of p)
      → IsValid t
      → length new.handle_map ≡ t.capacity
      → ((i : ℕ) → pointer_at new i ≡ 0)
      → (u : EhandleTable) × ((clone_resized duplicate t (success, new) w).1 ≡ some u)
        × ((h : ℕ) → lookup u h ≡ (if lookup t h == 0 then 0 else copy_of (lookup t h)))
  unfolding clone_resized
  clone_resized-lookup t new w pure v size free =
      let u = (clone_loop duplicate (t.max_index + 1) 0 t new w).0 in
      (
        u,
        refl,
        lookup-map t u copy_of λ i. elim (dec_lt i t.capacity) [
          | yes lt ↦ ground (
            arith,
            clone_loop-pointer_at pure (t.max_index + 1) 0 t new w i (omega arith),
            v.bound i,
            free i,
          )
          | no ge ↦
              let out : pointer_at u i ≡ 0 =
                get_or_out u.handle_map i 0
                  (omega (arith, length-clone_loop (t.max_index + 1) 0 t new w)) in
              ground (arith, out, pointer_at_out t i v)
        ],
      )
