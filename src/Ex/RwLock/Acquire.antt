-- ===== src/Ex/RwLock/Acquire.antt =====
-- boron/source/ex/rwlock.c: a pass of ExAcquireSharedRwLock keeps what is invariant of the threads.
use boron.Prelude.{
  ℕ, ◌+◌, ◌≡◌, ◌≢◌, refl, Bool, not, ◌||◌, arith, Option, none, some, ◌==◌, if-both,
}
use boron.Ex.RwLock.{
  OwnerPointer, shared, retries, owner_of, set_owner, find_owner, acquire_shared, acquire_entry,
  wait_shared,
}
use boron.Ex.RwLock.Find.{OfFound, Usable, find_owner-Usable}
use boron.Ex.RwLock.Entry.{set_owner-Taken, acquired_entry, waits_entry, recursed_entry}
use boron.Ex.RwLock.Keeps.{kept_exclusively}
use boron.Ex.RwLock.Hold.{World, IsWorld}
use boron.Ex.RwLock.Steps.{after_shared}

acquire_entry-IsWorld :
    (w : World) (t : ℕ) (dont_block can_starve : Bool) (s : OwnerPointer)
    → IsWorld w
    → t ≢ 0
    → w.lock.exclusive_owner.locked ≡ 0
    → w.lock.held_count ≢ 0
    → Usable w.lock t s
    → IsWorld (after_shared w t (acquire_entry w.lock t dont_block can_starve s))
acquire_entry-IsWorld w t d c s v real x held (i, usable) =
    if-both (λ r. IsWorld (after_shared w t r)) (t == (owner_of w.lock s).owner_thread) _ _
      (λ e.
        recursed_entry w s v i (ground (arith, e, real)) ((owner_of w.lock s).locked + 1)
          (λ h. ground (arith, h)))
      (λ e.
        let taken = set_owner-Taken w t s v i (ground (arith, e, usable)) real in
        if-both (λ r. IsWorld (after_shared w t r)) (c || w.lock.exclusive_waiter_count == 0) _ _
          (λ y. acquired_entry w t _ (w.lock.held_count + 1) v taken x refl)
          (λ y.
            if-both (λ r. IsWorld (after_shared w t r)) d _ _ (λ z. v)
              (λ z. waits_entry w t _ v taken held)))

pub acquire_shared-IsWorld :
    (w : World) (t : ℕ) (dont_block can_starve : Bool)
    → IsWorld w
    → t ≢ 0
    → IsWorld (after_shared w t (acquire_shared w.lock t dont_block can_starve))
unfolding acquire_shared
acquire_shared-IsWorld w t d c v real =
    if-both (λ r. IsWorld (after_shared w t r)) (w.lock.held_count == 0) _ _
      (λ z.
        acquired_entry w t (set_owner w.lock shared (record { locked = 1; owner_thread = t })) 1 v
          (set_owner-Taken w t shared v tt (ground (arith, z, v.holds, v.free)) real)
          (ground (arith, z, v.alone)) (ground (arith, z)))
      (λ z.
        if-both (λ r. IsWorld (after_shared w t r)) (not (w.lock.exclusive_owner.locked == 0)) _ _
          (λ x.
            if-both (λ r. IsWorld (after_shared w t r)) (w.lock.exclusive_owner.owner_thread == t) _
              _
              (λ y.
                kept_exclusively w (w.lock.exclusive_owner.locked + 1) v (ground (arith, x))
                  (omega arith))
              (λ y.
                new_waiter (find_owner w.lock 0) (find_owner-Usable w.lock 0 refl)
                  (ground (arith, z))))
          (λ x.
            entry (find_owner w.lock t)
              (find_owner-Usable w.lock t (ground (arith, real, x, v.unowned))) (ground (arith, x))
              (ground (arith, z))))
  where
    new_waiter :
        (r : Option OwnerPointer)
        → OfFound (Usable w.lock 0) r
        → w.lock.held_count ≢ 0
        → IsWorld (
            after_shared w t
              (elim r [ none ↦ (w.lock, retries) | some s ↦ wait_shared w.lock t s ]))
    new_waiter none h z = v
    new_waiter (some s) (i, h) z =
        waits_entry w t _ v (set_owner-Taken w t s v i (ground (arith, h)) real) z

    entry :
        (r : Option OwnerPointer)
        → OfFound (Usable w.lock t) r
        → w.lock.exclusive_owner.locked ≡ 0
        → w.lock.held_count ≢ 0
        → IsWorld (
            after_shared w t
              (elim r [ none ↦ (w.lock, retries) | some s ↦ acquire_entry w.lock t d c s ]))
    entry none h x z = v
    entry (some s) h x z = acquire_entry-IsWorld w t d c s v real x z h
