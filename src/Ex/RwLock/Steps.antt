-- ===== src/Ex/RwLock/Steps.antt =====
-- boron/source/ex/rwlock.c: what can happen to a lock, one guarded section at a time.
use boron.Prelude.{count, ℕ, ◌+◌, ◌-◌, ◌<◌, ◌≡◌, ◌≢◌, Bool, ◌⊎◌, Option, none, some, List, ◌∷◌}
use boron.Ex.RwLock.{
  RwLock, Exit, acquired, recursed, would_block, waits, retries, Wake, kept, released,
  acquire_exclusive, acquire_shared, resume_exclusive, demote_to_shared, release, grow_owner_table,
}
use boron.Ex.RwLock.Hold.{World, initial, Removes}

-- The thread runs: it is in none of the waits.
abbrev pub Runs : World → ℕ → Type 0
Runs w t = (t ≢ 0) × (count t w.shared_waiters ≡ 0) × (count t w.exclusive_waiters ≡ 0)

-- Where the exit of an acquisition leaves the thread.
abbrev pub after_exclusive : World → ℕ → RwLock × Exit → World
after_exclusive w t (l, acquired) = record w { lock = l; writers = t ∷ w.writers }
after_exclusive w t (l, waits) = record w { lock = l; exclusive_waiters = t ∷ w.exclusive_waiters }
after_exclusive w t (l, recursed) = record w { lock = l }
after_exclusive w t (l, would_block) = record w { lock = l }
after_exclusive w t (l, retries) = record w { lock = l }

abbrev pub after_shared : World → ℕ → RwLock × Exit → World
after_shared w t (l, acquired) = record w { lock = l; readers = t ∷ w.readers }
after_shared w t (l, waits) = record w { lock = l; shared_waiters = t ∷ w.shared_waiters }
after_shared w t (l, recursed) = record w { lock = l }
after_shared w t (l, would_block) = record w { lock = l }
after_shared w t (l, retries) = record w { lock = l }

abbrev pub after_demote : World → ℕ → List ℕ → RwLock × Option ℕ → World
after_demote w t ws (l, none) = record w { lock = l }
after_demote w t ws (l, some n) = record w {
  lock = l;
  permits = w.permits + n;
  readers = t ∷ w.readers;
  writers = ws;
}

-- The readers and writers that are left are given.
abbrev pub after_release : World → List ℕ → List ℕ → RwLock × Wake → World
after_release w rs ws (l, kept) = record w { lock = l }
after_release w rs ws (l, released n m) = record w {
  lock = l;
  permits = w.permits + m;
  signals = w.signals + n;
  readers = rs;
  writers = ws;
}

-- What KeSetEventAndGetWaiter returns: nobody, or a thread that waits for the event.
abbrev pub IsWaiter : World → ℕ → Type 0
IsWaiter w waiter = (waiter ≡ 0) ⊎ (0 < count waiter w.exclusive_waiters)

pub data Step : World → World → Type 0 where
  exclusive :
      (w : World) (t : ℕ) (dont_block : Bool)
      → Runs w t
      → Step w (after_exclusive w t (acquire_exclusive w.lock t dont_block))
  shared :
      (w : World) (t : ℕ) (dont_block can_starve : Bool)
      → Runs w t
      → Step w (after_shared w t (acquire_shared w.lock t dont_block can_starve))
  grow : (w : World) (old_size : ℕ) → Step w (record w { lock = grow_owner_table w.lock old_size })
  demote :
      (w : World) (t : ℕ) (ws : List ℕ) (r : RwLock × Option ℕ)
      → Runs w t
      → Removes t w.writers ws
      → demote_to_shared w.lock t ≡ some r
      → Step w (after_demote w t ws r)
  release_shared :
      (w : World) (t waiter : ℕ) (rs : List ℕ) (r : RwLock × Wake)
      → Runs w t
      → Removes t w.readers rs
      → IsWaiter w waiter
      → release w.lock t waiter ≡ some r
      → Step w (after_release w rs w.writers r)
  release_exclusive :
      (w : World) (t waiter : ℕ) (ws : List ℕ) (r : RwLock × Wake)
      → Runs w t
      → Removes t w.writers ws
      → IsWaiter w waiter
      → release w.lock t waiter ≡ some r
      → Step w (after_release w w.readers ws r)
  woken_shared :
      (w : World) (t : ℕ) (ss : List ℕ)
      → 0 < w.permits
      → Removes t w.shared_waiters ss
      → Step w (record w { permits = w.permits - 1; readers = t ∷ w.readers; shared_waiters = ss })
  woken_exclusive :
      (w : World) (t : ℕ) (es : List ℕ)
      → 0 < w.signals
      → Removes t w.exclusive_waiters es
      → (w.lock.exclusive_owner.owner_thread ≡ 0) ⊎ (w.lock.exclusive_owner.owner_thread ≡ t)
      → t ≢ 0
      → Step w (record w {
        lock = resume_exclusive w.lock t;
        signals = w.signals - 1;
        writers = t ∷ w.writers;
        exclusive_waiters = es;
      })
  -- A waiter that got the event before the section that set it stored the owner, where that section
  -- then stores NULL over it.
  woken_overwritten :
      (w : World) (t : ℕ) (es : List ℕ)
      → 0 < w.signals
      → Removes t w.exclusive_waiters es
      → w.lock.exclusive_owner.owner_thread ≡ 0
      → t ≢ 0
      → Step w
          (record w { signals = w.signals - 1; writers = t ∷ w.writers; exclusive_waiters = es })

-- The states of a lock that was initialized.
pub data Reachable : World → Type 0 where
  start : Reachable initial
  next : (w w' : World) → Reachable w → Step w w' → Reachable w'
