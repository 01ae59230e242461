-- ===== src/Ex/RwLock.antt =====
-- boron/include/ex/rwlock.h and boron/source/ex/rwlock.c: the reader-writer lock. A thread is a
-- number, and 0 is NULL. Each function is what one thread does while it holds the guard lock; the
-- counts are numbers, and `none` is a crash of the debug build.
pub mod Table
pub mod Find
pub mod Hold
pub mod Steps
pub mod Keeps
pub mod Entry
pub mod Acquire
pub mod Release
pub mod Handover
pub mod Safety
pub mod Holder
pub mod Growth
mod Tests
use boron.Prelude.{
  ℕ, zero, suc, ◌+◌, ◌-◌, Bool, true, false, ◌&&◌, ◌||◌, not, Option, some, none, List, [], ◌∷◌,
  ◌++◌, length, get_or, set, replicate, ◌==◌, if◌then◌else◌,
}

-- `EX_RW_LOCK_OWNER`, of which the list entry is not used.
pub record Owner : Type 0 where
  pub locked : ℕ
  pub owner_thread : ℕ

-- `EX_RW_LOCK`, less its guard lock, its event and its semaphore.
pub record RwLock : Type 0 where
  pub exclusive_owner : Owner
  pub shared_owner : Owner
  pub owner_table : List Owner
  pub shared_waiter_count : ℕ
  pub exclusive_waiter_count : ℕ
  pub held_count : ℕ

abbrev pub no_owner : Owner
no_owner = record { locked = 0; owner_thread = 0 }

-- `ExInitializeRwLock`
abbrev pub initialize_rw_lock : RwLock
initialize_rw_lock = record {
  exclusive_owner = no_owner;
  shared_owner = no_owner;
  owner_table = [];
  shared_waiter_count = 0;
  exclusive_waiter_count = 0;
  held_count = 0;
}

-- A pointer to one of the owners of a lock.
pub data OwnerPointer : Type 0 where
  exclusive : OwnerPointer
  shared : OwnerPointer
  table : ℕ → OwnerPointer

abbrev pub is_exclusive : OwnerPointer → Bool
is_exclusive exclusive = true
is_exclusive _ = false

abbrev pub owner_of : RwLock → OwnerPointer → Owner
owner_of l exclusive = l.exclusive_owner
owner_of l shared = l.shared_owner
owner_of l (table i) = get_or l.owner_table i no_owner

abbrev pub set_owner : RwLock → OwnerPointer → Owner → RwLock
set_owner l exclusive o = record l { exclusive_owner = o }
set_owner l shared o = record l { shared_owner = o }
set_owner l (table i) o = record l { owner_table = set l.owner_table i o }

-- The loop of `ExFindOwnerRwLock`, from index `i`, with the free entry found so far.
pub find_in_table : ℕ → ℕ → Option OwnerPointer → List Owner → Option OwnerPointer
find_in_table t i free [] = free
find_in_table t i free (o ∷ os) =
    if o.owner_thread == t
    then some (table i)
    else find_in_table t (suc i)
        (elim free [
          | some s ↦ some s
          | none ↦ if o.owner_thread == 0 then some (table i) else none
        ])
        os

-- `ExFindOwnerRwLock` up to where it needs a larger table, which is `none`.
pub find_owner : RwLock → ℕ → Option OwnerPointer
unfolding find_in_table
find_owner l t =
    if not (t == 0) && (l.exclusive_owner.owner_thread == t)
    then some exclusive
    else find_in_table t 0 (if l.shared_owner.owner_thread == 0 then some shared else none)
        l.owner_table

-- The rest of it: the table that the caller saw with `old_size` entries, and allocated a larger one
-- for with the guard lock released, grows by four unless another thread was faster.
abbrev pub grow_owner_table : RwLock → ℕ → RwLock
grow_owner_table l old_size =
    if length l.owner_table == old_size
    then record l { owner_table = l.owner_table ++ replicate 4 no_owner }
    else l

-- How the guarded part of an acquisition is left: with STATUS_SUCCESS, as a new owner or once more;
-- with STATUS_TIMEOUT; on to `ExWaitOnRwLock`; or, the table having been full, for another pass.
pub data Exit : Type 0 where
  acquired recursed would_block waits retries : Exit

-- The end of a pass that has to wait, of an exclusive acquisition.
abbrev pub wait_exclusive : RwLock → RwLock × Exit
wait_exclusive l = (record l { exclusive_waiter_count = l.exclusive_waiter_count + 1 }, waits)

-- `ExAcquireExclusiveRwLock`, to the wait.
pub acquire_exclusive : RwLock → ℕ → Bool → RwLock × Exit
acquire_exclusive l t dont_block =
    if l.held_count == 0
    then (
      record l { held_count = 1; exclusive_owner = record { locked = 1; owner_thread = t } },
      acquired,
    )
    else if not (l.exclusive_owner.locked == 0)
    then if l.exclusive_owner.owner_thread == t
      then (
        record l {
          exclusive_owner = record l.exclusive_owner { locked = l.exclusive_owner.locked + 1 };
        },
        recursed,
      )
      else wait_exclusive l
    else if dont_block
    then (l, would_block)
    else wait_exclusive l

-- What `ExAcquireExclusiveRwLock` does after the wait.
abbrev pub resume_exclusive : RwLock → ℕ → RwLock
resume_exclusive l t = record l { exclusive_owner = record l.exclusive_owner { owner_thread = t } }

-- The end of a pass that has to wait, of a shared acquisition.
abbrev pub wait_shared : RwLock → ℕ → OwnerPointer → RwLock × Exit
wait_shared l t s = (
  record (set_owner l s (record { locked = 1; owner_thread = t })) {
    shared_waiter_count = l.shared_waiter_count + 1;
  },
  waits,
)

-- A pass with an entry, of a lock that is not held exclusively.
abbrev pub acquire_entry : RwLock → ℕ → Bool → Bool → OwnerPointer → RwLock × Exit
acquire_entry l t dont_block can_starve s =
    if t == (owner_of l s).owner_thread
    then (set_owner l s (record (owner_of l s) { locked = (owner_of l s).locked + 1 }), recursed)
    else if can_starve || l.exclusive_waiter_count == 0
    then (
      record (set_owner l s (record { locked = 1; owner_thread = t })) {
        held_count = l.held_count + 1;
      },
      acquired,
    )
    else if dont_block
    then (l, would_block)
    else wait_shared l t s

-- One pass of the loop of `ExAcquireSharedRwLock`, to the wait.
pub acquire_shared : RwLock → ℕ → Bool → Bool → RwLock × Exit
unfolding find_owner
acquire_shared l t dont_block can_starve =
    if l.held_count == 0
    then (
      record l { held_count = 1; shared_owner = record { locked = 1; owner_thread = t } },
      acquired,
    )
    else if not (l.exclusive_owner.locked == 0)
    then if l.exclusive_owner.owner_thread == t
      then (
        record l {
          exclusive_owner = record l.exclusive_owner { locked = l.exclusive_owner.locked + 1 };
        },
        recursed,
      )
      else elim (find_owner l 0) [ none ↦ (l, retries) | some s ↦ wait_shared l t s ]
    else elim (find_owner l t) [
      | none ↦ (l, retries)
      | some s ↦ acquire_entry l t dont_block can_starve s
    ]

-- One pass of the loop of `ExDemoteToSharedRwLock`: `none` inside for another pass, or the count that
-- the semaphore is released by.
pub demote_to_shared : RwLock → ℕ → Option (RwLock × Option ℕ)
unfolding find_owner
demote_to_shared l t =
    if not (l.exclusive_owner.owner_thread == t) then none else elim (find_owner l 0) [
      | none ↦ some (l, none)
      | some s ↦ some (
        record (set_owner l s (record { locked = l.exclusive_owner.locked; owner_thread = t })) {
          exclusive_owner = no_owner;
          held_count = l.held_count + l.shared_waiter_count;
          shared_waiter_count = 0;
        },
        some l.shared_waiter_count,
      )
    ]

-- The loop of `ExReleaseRwLock` over the table.
pub find_thread : ℕ → ℕ → List Owner → Option OwnerPointer
find_thread t i [] = none
find_thread t i (o ∷ os) = if o.owner_thread == t then some (table i) else find_thread t (suc i) os

-- The entry that `ExReleaseRwLock` releases.
pub find_held : RwLock → ℕ → Option OwnerPointer
unfolding find_thread
find_held l t =
    if l.exclusive_owner.owner_thread == t
    then some exclusive
    else if l.shared_owner.owner_thread == t
    then some shared
    else find_thread t 0 l.owner_table

-- How `ExReleaseRwLock` is left: with the entry still locked, or released, with the number of times
-- that it set the event and the count that it released the semaphore by.
pub data Wake : Type 0 where
  kept : Wake
  released : ℕ → ℕ → Wake

-- `ExReleaseRwLock` after the hold is given up; `waiter` is what `KeSetEventAndGetWaiter` returns.
abbrev pub pass_on : RwLock → Bool → ℕ → RwLock × Wake
pass_on l was_exclusive waiter =
    if not (l.held_count == 0)
    then (l, released 0 0)
    else if (not was_exclusive || l.shared_waiter_count == 0) && not (l.exclusive_waiter_count == 0)
    then (
      record l {
        held_count = 1;
        exclusive_waiter_count = l.exclusive_waiter_count - 1;
        exclusive_owner = record { locked = 1; owner_thread = waiter };
      },
      released 1 0,
    )
    else (
      record l { held_count = l.shared_waiter_count; shared_waiter_count = 0 },
      released 0 l.shared_waiter_count,
    )

-- `ExReleaseRwLock` of the entry that it found.
abbrev pub release_entry : RwLock → OwnerPointer → ℕ → Option (RwLock × Wake)
release_entry l s waiter =
    if (owner_of l s).locked == 0
    then none
    else if not ((owner_of l s).locked - 1 == 0)
    then some (set_owner l s (record (owner_of l s) { locked = (owner_of l s).locked - 1 }), kept)
    else if l.held_count == 0
    then none
    else some (
        pass_on (record (set_owner l s no_owner) { held_count = l.held_count - 1 }) (is_exclusive s)
          waiter)

-- `ExReleaseRwLock`
pub release : RwLock → ℕ → ℕ → Option (RwLock × Wake)
unfolding find_held
release l t waiter = elim (find_held l t) [ none ↦ none | some s ↦ release_entry l s waiter ]
