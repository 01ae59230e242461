-- ===== src/Ex/RwLock/Holder.antt =====
-- boron/source/ex/rwlock.c: whether a thread that holds the lock can release it, and that only such a
-- thread gets it once more.
use boron.Prelude.{
  count, Bool, ℕ, not, if-both, ◌<◌, ◌≡◌, ◌≢◌, arith, Option, none, some, ◌⊎◌, inl, inr, ◌==◌,
}
use boron.Ex.RwLock.{
  find_owner, retries, wait_shared, acquire_entry, RwLock, recursed, release, OwnerPointer, Wake,
  no_owner, acquire_shared, acquire_exclusive, Exit,
}
use boron.Ex.RwLock.Table.{owned, total-set_owner}
use boron.Ex.RwLock.Find.{Usable, find_owner-Usable, OfFound}
use boron.Ex.RwLock.Hold.{World, IsWorld}
use boron.Ex.RwLock.Steps.{Reachable, Runs}
use boron.Ex.RwLock.Safety.{Reachable-IsWorld}

-- The thread is a reader or a writer.
abbrev pub Holds : World → ℕ → Type 0
Holds w t = (0 < count t w.readers) ⊎ (0 < count t w.writers)

-- The release returns, or the thread holds the lock exclusively, its name was overwritten, and the
-- release crashes.
abbrev pub ReturnsOrLost : World → ℕ → ℕ → Type 0
ReturnsOrLost w t waiter =
    ((r : RwLock × Wake) × (release w.lock t waiter ≡ some r))
    ⊎ ((0 < count t w.writers)
        × (w.lock.exclusive_owner.owner_thread ≡ 0)
        × (release w.lock t waiter ≡ none))

recursed_entry_holds :
    (w : World) (t : ℕ) (dont_block can_starve : Bool) (s : OwnerPointer)
    → IsWorld w
    → t ≢ 0
    → count t w.shared_waiters ≡ 0
    → Usable w.lock t s
    → (acquire_entry w.lock t dont_block can_starve s).1 ≡ recursed
    → 0 < count t w.readers
recursed_entry_holds w t d c s v real idle (i, own) h =
    ground (arith, h, real, idle, v.owners t real, total-set_owner (owned t) w.lock s no_owner i)

-- In every state that a lock reaches from its initialization by the steps of `Step`, a running thread
-- that ExAcquireSharedRwLock takes for an owner, to lock an entry once more, holds the lock.
pub acquire_shared-Recursed :
    (w : World) (t : ℕ) (dont_block can_starve : Bool)
    → Reachable w
    → Runs w t
    → (acquire_shared w.lock t dont_block can_starve).1 ≡ recursed
    → Holds w t
unfolding acquire_shared
acquire_shared-Recursed w t d c r (real, idle, awake) =
    if-both P (w.lock.held_count == 0) _ _ (λ z h. ground (arith, h))
      (λ z.
        if-both P (not (w.lock.exclusive_owner.locked == 0)) _ _
          (λ x.
            if-both P (w.lock.exclusive_owner.owner_thread == t) _ _
              (λ y h. inr (ground (arith, x, y, real, awake, v.writer t, v.chosen t, v.written)))
              (λ y. of_none (find_owner w.lock 0)))
          (λ x.
            of_found (find_owner w.lock t)
              (find_owner-Usable w.lock t (ground (arith, real, x, v.unowned)))))
  where
    v : IsWorld w
    v = Reachable-IsWorld w r

    P : RwLock × Exit → Type 0
    P p = p.1 ≡ recursed → Holds w t

    of_none :
        (o : Option OwnerPointer)
        → P (elim o [ none ↦ (w.lock, retries) | some s ↦ wait_shared w.lock t s ])
    of_none none h = ground (arith, h)
    of_none (some s) h = ground (arith, h)

    of_found :
        (o : Option OwnerPointer)
        → OfFound (Usable w.lock t) o
        → P (elim o [ none ↦ (w.lock, retries) | some s ↦ acquire_entry w.lock t d c s ])
    of_found none k h = ground (arith, h)
    of_found (some s) k h = inl (recursed_entry_holds w t d c s v real idle k h)

pub acquire_exclusive-Recursed :
    (w : World) (t : ℕ) (dont_block : Bool)
    → Reachable w
    → Runs w t
    → (acquire_exclusive w.lock t dont_block).1 ≡ recursed
    → 0 < count t w.writers
unfolding acquire_exclusive
acquire_exclusive-Recursed w t d r (real, idle, awake) h =
    let v = Reachable-IsWorld w r in
    ground (arith, h, real, awake, v.writer t, v.chosen t, v.written)
