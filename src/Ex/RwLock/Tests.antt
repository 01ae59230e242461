-- ===== src/Ex/RwLock/Tests.antt =====
-- Thread 1 takes a lock exclusively, thread 2 waits for it as a reader, and thread 1 gives it up.
use boron.Prelude.{◌≡◌, ◌≢◌, refl, arith, true, false, inl, [], length}
use boron.Ex.RwLock.{
  RwLock, retries, released, initialize_rw_lock, acquire_exclusive, acquire_shared,
  grow_owner_table, release,
}
use boron.Ex.RwLock.Hold.{World, initial, here}
use boron.Ex.RwLock.Steps.{
  Reachable, start, next, exclusive, shared, release_exclusive, after_exclusive, after_shared,
  after_release,
}
use boron.Ex.RwLock.Safety.{Reachable-Excludes, Reachable-Serves}
use boron.Ex.RwLock.Holder.{Holds, acquire_shared-Recursed}
use boron.Ex.RwLock.Growth.{acquire_shared-Settles}

abbrev taken : World
taken = after_exclusive initial 1 (acquire_exclusive initialize_rw_lock 1 false)

taken-Reachable : Reachable taken
taken-Reachable = next initial taken start (exclusive initial 1 false (omega arith, refl, refl))

abbrev waited : World
waited = after_shared taken 2 (acquire_shared taken.lock 2 false false)

waited-Reachable : Reachable waited
unfolding acquire_exclusive
waited-Reachable =
    next taken waited taken-Reachable (shared taken 2 false false (omega arith, refl, refl))

Reachable-Excludes_example :
    (length waited.writers ≡ 1)
    × (length waited.readers ≡ 0)
    × (waited.permits ≡ 0)
    × (waited.signals ≡ 0)
unfolding acquire_exclusive acquire_shared
Reachable-Excludes_example = Reachable-Excludes waited waited-Reachable (omega arith)

acquire_shared-Recursed_example : Holds waited 1
unfolding acquire_exclusive acquire_shared
acquire_shared-Recursed_example =
    acquire_shared-Recursed waited 1 true false waited-Reachable (omega arith, refl, refl) refl

abbrev full : RwLock
full = record initialize_rw_lock {
  shared_owner = record { locked = 1; owner_thread = 7 };
  held_count = 1;
}

acquire_shared-Settles_example :
    (acquire_shared (grow_owner_table full (length full.owner_table)) 8 true false).1 ≢ retries
acquire_shared-Settles_example = acquire_shared-Settles full 8 true false

-- The state after thread 1 released the lock, of which it was the only thread.
abbrev given_back : World
given_back = after_release taken [] [] (initialize_rw_lock, released 0 0)

given_back-Reachable : Reachable given_back
unfolding acquire_exclusive release
given_back-Reachable = next taken given_back taken-Reachable (
    release_exclusive taken 1 0 [] (initialize_rw_lock, released 0 0) (omega arith, refl, refl)
      (here 1 []) (inl refl) refl)

Reachable-Serves_example :
    (length given_back.shared_waiters ≡ 0) × (length given_back.exclusive_waiters ≡ 0)
unfolding acquire_exclusive
Reachable-Serves_example = Reachable-Serves given_back given_back-Reachable refl refl refl refl
