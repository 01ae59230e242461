-- ===== src/Ex/HandleTable/Tests.antt =====
-- The handle table on concrete tables.
use boron.Prelude.{
  ℕ, zero, suc, ◌+◌, ◌^◌, ◌≤◌, ◌<◌, ◌≡◌, ◌≢◌, ◌⊎◌, inl, refl, Bool, true, arith, [], ◌∷◌, ltb, some,
  none,
}
use boron.Prelude.Status.{success, table_not_empty}
use boron.Ex.HandleTable.{
  EhandleTable, pointer_at, create_handle, delete_handle_table, delete_handle, kill_handle_table,
  resize_handle_table, check_handle_correctness,
}
use boron.Ex.HandleTable.Lookup.{IsValid, lookup, lookup-at}
use boron.Ex.HandleTable.Resize.{IsBounded, FreeFrom, ResizeOutcome, resize_handle_table-outcome}
use boron.Ex.HandleTable.Create.{Created, create_handle-Created}
use boron.Ex.HandleTable.Delete.{
  Deleted, delete_handle-Deleted, delete_handle_hangs, delete_handle_table_inverted,
}
use boron.Ex.HandleTable.Kill.{Killed, kill_all, kill_handle_table-Killed}
use boron.Ex.HandleTable.Duplicate.{duplicate_handle_to_handle}
use boron.Ex.HandleTable.Duplicate.Laws.{
  DuplicatedTo, closed, duplicate_handle_to_handle-DuplicatedTo,
}

-- Two items, of which the first is in use, and a table with a growth of `grow_by`.
abbrev table_of : ℕ → EhandleTable
table_of grow_by = record {
  locks = 0;
  capacity = 2;
  grow_by = grow_by;
  initial_size = 2;
  max_index = 0;
  limit = 8;
  handle_map = 5 ∷ 0 ∷ [];
}

abbrev table : EhandleTable
table = table_of 2

table_bound : (g i : ℕ) → pointer_at (table_of g) i ≢ 0 → i ≤ 0
table_bound g zero ne = omega arith
table_bound g (suc zero) ne = absurd (ne refl)
table_bound g (suc (suc i)) ne = absurd (ne refl)

table-IsValid : (g : ℕ) → g < 2 ^ 32 → IsValid (table_of g)
table-IsValid g h = record {
  sized = refl;
  bound = table_bound g;
  top = omega arith;
  small = omega arith;
  small_grow = h;
  start = omega arith;
}

abbrev alloc : ℕ → Bool
alloc n = ltb n 4096

alloc-IsBounded : IsBounded alloc
alloc-IsBounded n h = ground arith

table_free : FreeFrom table 4
table_free zero h = absurd (omega arith)
table_free (suc zero) h = refl
table_free (suc (suc i)) h = refl

-- A callback that lets go of every pointer and counts them, and one that gives the next pointer.
abbrev kill : ℕ → ℕ → Bool × ℕ
kill p w = (true, w + 1)

abbrev next : ℕ → ℕ → ℕ × ℕ
next p w = (p + 1, w)

first_is_correct : check_handle_correctness 4 ≡ true
unfolding check_handle_correctness
first_is_correct = refl

second_is_correct : check_handle_correctness 8 ≡ true
unfolding check_handle_correctness
second_is_correct = refl

first_handle : (g : ℕ) → lookup (table_of g) 4 ≢ 0
first_handle g = λ e. absurd (omega (arith, e, lookup-at (table_of g) 4 first_is_correct))

resize_handle_table-outcome_example :
    ResizeOutcome alloc table 4 (resize_handle_table alloc table 4)
resize_handle_table-outcome_example =
    resize_handle_table-outcome alloc table 4 alloc-IsBounded (table-IsValid 2 (omega arith))
      table_free (omega arith) (omega arith) (omega arith)

create_handle-Created_example : Created table 7 (create_handle alloc table 7)
create_handle-Created_example =
    create_handle-Created alloc table 7 alloc-IsBounded (table-IsValid 2 (omega arith))
      (omega arith)

delete_handle_table_inverted_example :
    (((i : ℕ) → pointer_at table i ≡ 0)
      × (delete_handle_table table ≡ (table_not_empty, some table)))
    ⊎ (((i : ℕ) × (pointer_at table i ≢ 0)) × (delete_handle_table table ≡ (success, none)))
delete_handle_table_inverted_example =
    delete_handle_table_inverted table (table-IsValid 2 (omega arith))

delete_handle-Deleted_example : Deleted kill table 4 0 (delete_handle kill 3 alloc table 4 0)
delete_handle-Deleted_example =
    delete_handle-Deleted kill 3 alloc table 4 0 alloc-IsBounded (table-IsValid 2 (omega arith))
      (omega arith) (inl (omega arith)) (omega arith)

delete_handle_hangs_example : delete_handle kill 100 alloc (table_of 0) 4 0 ≡ none
delete_handle_hangs_example =
    delete_handle_hangs kill 100 alloc (table_of 0) 4 0 (table-IsValid 0 (omega arith))
      (first_handle 0) refl refl refl

kill_handle_table-Killed_example :
    Killed kill 1 (kill_all kill (5 ∷ 0 ∷ []) 0) (kill_handle_table kill table 0)
kill_handle_table-Killed_example =
    kill_handle_table-Killed kill table 0 (table-IsValid 2 (omega arith))

duplicate_handle_to_handle-DuplicatedTo_example :
    DuplicatedTo next kill table 8
      (closed next kill (lookup table 8) 0)
      (next (lookup table 4) (closed next kill (lookup table 8) 0).1)
      (duplicate_handle_to_handle next kill table 4 8 0)
duplicate_handle_to_handle-DuplicatedTo_example =
    duplicate_handle_to_handle-DuplicatedTo next kill table 4 8 0 (table-IsValid 2 (omega arith))
      (omega arith) (first_handle 2) second_is_correct (omega arith)

abbrev empty_table : EhandleTable
empty_table = record table { handle_map = 0 ∷ 0 ∷ [] }

empty_table_free : (i : ℕ) → pointer_at empty_table i ≡ 0
empty_table_free zero = refl
empty_table_free (suc zero) = refl
empty_table_free (suc (suc i)) = refl
