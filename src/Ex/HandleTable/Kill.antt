-- ===== src/Ex/HandleTable/Kill.antt =====
-- `ExKillHandleTable`.
use boron.Prelude.{
  ℕ, zero, suc, ◌+◌, ◌≡◌, inl, inr, refl, Bool, true, false, arith, ◌==◌, if◌then◌else◌, List, [],
  ◌∷◌, get_or, length, get_or-set_ne, Bool-cases, Option, some, none,
}
use boron.Prelude.Status.{Bstatus, success, delete_canceled}
use boron.Ex.HandleTable.{
  EhandleTable, pointer_at, set_pointer, kill_loop, kill_handle_table, lock_handle_table,
}
use boron.Ex.HandleTable.Lookup.{IsValid}

module _ {W : Type 0} (kill : ℕ → W → Bool × W) where
  -- The callback is called on each pointer in turn, until it refuses one.
  pub kill_all : List ℕ → W → Bool × W
  kill_all [] w = (true, w)
  kill_all (p ∷ ps) w =
      let skip = kill_all ps w in
      let rest = kill_all ps (kill p w).1 in
      if p == 0 then skip else if (kill p w).0 then rest else (false, (kill p w).1)

  -- How `ExKillHandleTable` ends, by what the calls on all items come to.
  abbrev pub Killed : ℕ → Bool × W → Bstatus × Option EhandleTable × W → Type 0
  Killed locks (true, w) r = r ≡ (success, none, w)
  Killed locks (false, w) (status, table, w') =
      (status ≡ delete_canceled)
      × (w' ≡ w)
      × ((u : EhandleTable) × (table ≡ some u) × (u.locks ≡ locks))

  kill_loop-Killed :
      (left i : ℕ) (xs : List ℕ) (t : EhandleTable) (w : W)
      → length xs ≡ left
      → ((j : ℕ) → pointer_at t (i + j) ≡ get_or xs j 0)
      → Killed t.locks (kill_all xs w) (kill_loop kill left i t w)
  unfolding kill_loop kill_all
  kill_loop-Killed zero i [] t w size at = refl
  kill_loop-Killed zero i (x ∷ xs) t w size at = absurd (omega arith)
  kill_loop-Killed (suc left) i [] t w size at = absurd (omega arith)
  kill_loop-Killed (suc left) i (x ∷ xs) t w size at =
      let here : pointer_at t i ≡ x = ground (arith, at 0) in
      rw here (elim (Bool-cases (x == 0)) [
        | inl free ↦
            rw free
              (kill_loop-Killed left (i + 1) xs t w (omega arith) (λ j. ground (arith, at (suc j))))
        | inr used ↦ elim (Bool-cases (kill x w).0) [
          | inl done ↦
              rw (used, done)
                (kill_loop-Killed left (i + 1) xs (set_pointer t i 0) (kill x w).1 (omega arith)
                  (λ j. ground (
                    arith,
                    at (suc j),
                    get_or-set_ne t.handle_map i (i + 1 + j) 0 0 (omega arith),
                  )))
          | inr refused ↦ rw (used, refused) (refl, refl, (t, refl, refl))
        ]
      ])

  -- `ExKillHandleTable` calls the callback on every pointer in use, in the order of the handles. If it
  -- lets go of all of them the table is freed; at the first that it refuses the function stops with
  -- STATUS_DELETE_CANCELED, and the table stays and is left locked once more than before.
  pub kill_handle_table-Killed :
      (t : EhandleTable) (w : W)
      → IsValid t
      → Killed (t.locks + 1) (kill_all t.handle_map w) (kill_handle_table kill t w)
  unfolding kill_handle_table
  kill_handle_table-Killed t w v =
      kill_loop-Killed t.capacity 0 t.handle_map (lock_handle_table t) w v.sized (λ j. ground arith)
