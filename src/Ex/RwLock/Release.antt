-- ===== src/Ex/RwLock/Release.antt =====
-- boron/source/ex/rwlock.c: a lock that is given up and passed on keeps what
-- is invariant of the threads.
use boron.Prelude.{
  count, count-le, ℕ, ◌+◌, ◌-◌, ◌<◌, ◌≡◌, ◌≢◌, refl, subst, Bool, not, ◌&&◌, ◌||◌, arith, inl, inr,
  List, length, ◌==◌, if-both,
}
use boron.Ex.RwLock.{RwLock, Owner, OwnerPointer, no_owner, set_owner, pass_on, Wake}
use boron.Ex.RwLock.Table.{total, entries, used, owned, broken, total-set_owner, set_owner-Rest}
use boron.Ex.RwLock.Find.{Held}
use boron.Ex.RwLock.Hold.{World, IsWorld, Removes, Removes-length, Removes-count}
use boron.Ex.RwLock.Steps.{IsWaiter, after_release}

-- A hold was given up, and the lock is not held exclusively.
pub record GivenUp (w : World) : Type 0 where
  unlocked : w.lock.exclusive_owner.locked ≡ 0
  unowned : w.lock.exclusive_owner.owner_thread ≡ 0
  holds : total used (entries w.lock) ≡ w.lock.held_count + w.lock.shared_waiter_count
  sound : total broken (entries w.lock) ≡ 0
  granted : total used (entries w.lock) ≡ length w.readers + length w.shared_waiters
  owners :
      (t : ℕ)
      → t ≢ 0
      → total (owned t) (entries w.lock) ≡ count t w.readers + count t w.shared_waiters
  sleeping : length w.shared_waiters ≡ w.lock.shared_waiter_count + w.permits
  queued : length w.exclusive_waiters ≡ w.lock.exclusive_waiter_count + w.signals
  written : length w.writers + w.signals ≡ 0

-- Some of the shared waiters are let in.
passed_shared :
    (w : World) (held waiters n : ℕ)
    → GivenUp w
    → w.lock.shared_waiter_count ≡ waiters + n
    → held ≡ w.lock.held_count + n
    → (held ≡ 0 → (waiters ≡ 0) × (w.lock.exclusive_waiter_count ≡ 0))
    → IsWorld (record w {
      lock = record w.lock { held_count = held; shared_waiter_count = waiters };
      permits = w.permits + n;
      signals = w.signals + 0;
    })
passed_shared w held waiters n g e h idle = record {
  holds = ground (arith, g.unlocked, g.holds, e, h);
  alone = λ k. ground (arith, g.unlocked, k);
  free = idle;
  sound = g.sound;
  unowned = λ k. g.unowned;
  granted = g.granted;
  owners = g.owners;
  sleeping = omega (arith, g.sleeping, e);
  queued = omega (arith, g.queued);
  written = ground (arith, g.written, g.unlocked);
  writer = λ t k z s. absurd (z (omega (arith, k, g.unowned)));
  author = λ t k q. ground (arith, k, g.written, count-le t w.writers);
  chosen = λ t k z s. absurd (z (omega (arith, k, g.unowned)));
}

-- An exclusive waiter is let in.
passed_exclusive :
    (w : World) (waiter : ℕ)
    → GivenUp w
    → IsWaiter w waiter
    → w.lock.held_count ≡ 0
    → w.lock.exclusive_waiter_count ≢ 0
    → IsWorld (record w {
      lock = record w.lock {
        held_count = 1;
        exclusive_waiter_count = w.lock.exclusive_waiter_count - 1;
        exclusive_owner = record { locked = 1; owner_thread = waiter };
      };
      permits = w.permits + 0;
      signals = w.signals + 1;
    })
passed_exclusive w waiter g i h e = record {
  holds = omega (arith, h, g.holds);
  alone = λ k. refl;
  free = λ k. ground (arith, k);
  sound = g.sound;
  unowned = λ k. ground (arith, k);
  granted = g.granted;
  owners = g.owners;
  sleeping = omega (arith, g.sleeping);
  queued = omega (arith, e, g.queued);
  written = omega (arith, g.written);
  writer = λ t k z s. absurd (omega (arith, s));
  author = λ t k q. ground (arith, k, g.written, count-le t w.writers);
  chosen = λ t k z s. elim i [
    | inl n ↦ absurd (z (omega (arith, n, k)))
    | inr p ↦ subst (λ u. 0 < count u w.exclusive_waiters) k p
  ];
}

-- Passing it on serves whoever waits.
pub pass_on-IsWorld :
    (w : World) (l : RwLock) (rs ws : List ℕ) (was_exclusive : Bool) (waiter : ℕ)
    → GivenUp (record w { lock = l; readers = rs; writers = ws })
    → IsWaiter w waiter
    → IsWorld (after_release w rs ws (pass_on l was_exclusive waiter))
pass_on-IsWorld w l rs ws was waiter g i =
    if-both P (not (l.held_count == 0)) _ _
      (λ h.
        passed_shared left l.held_count l.shared_waiter_count 0 g (omega arith) (omega arith)
          (λ k. ground (arith, h, k)))
      (λ h.
        if-both P ((not was || l.shared_waiter_count == 0) && not (l.exclusive_waiter_count == 0)) _
          _ (λ e. passed_exclusive left waiter g i (ground (arith, h)) (ground (arith, e)))
          (λ e.
            passed_shared left l.shared_waiter_count 0 l.shared_waiter_count g (omega arith)
              (ground (arith, h)) (λ k. (refl, ground (arith, k, e)))))
  where
    left : World
    left = record w { lock = l; readers = rs; writers = ws }

    P : RwLock × Wake → Type 0
    P r = IsWorld (after_release w rs ws r)

-- The last release of an entry gives it up.
pub last_shared-GivenUp :
    (w : World) (t : ℕ) (rs : List ℕ) (s : OwnerPointer)
    → IsWorld w
    → t ≢ 0
    → Removes t w.readers rs
    → w.lock.exclusive_owner.locked ≡ 0
    → Held w.lock t s
    → w.lock.held_count ≢ 0
    → GivenUp (record w {
      lock = record (set_owner w.lock s no_owner) { held_count = w.lock.held_count - 1 };
      readers = rs;
    })
last_shared-GivenUp w t rs s v real r x (i, own) held =
    let rest = set_owner-Rest w.lock s no_owner i in
    let sum = λ (f : Owner → ℕ). total-set_owner f w.lock s no_owner i in
    record {
      unlocked = omega (arith, x, rest.exclusive_locked);
      unowned = omega (arith, v.unowned x, rest.exclusive_thread);
      holds = ground (arith, real, own, x, held, v.holds, sum used, rest.shared_waits);
      sound = ground (arith, v.sound, sum broken);
      granted = ground (arith, real, own, v.granted, sum used, Removes-length t w.readers rs r);
      owners = λ u z.
          ground (arith, z, own, v.owners u z, sum (owned u), Removes-count t w.readers rs u r);
      sleeping = omega (arith, v.sleeping, rest.shared_waits);
      queued = omega (arith, v.queued, rest.exclusive_waits);
      written = ground (arith, x, v.written);
    }

pub last_exclusive-GivenUp :
    (w : World) (t : ℕ) (ws : List ℕ)
    → IsWorld w
    → Removes t w.writers ws
    → GivenUp (record w {
      lock = record w.lock { exclusive_owner = no_owner; held_count = w.lock.held_count - 1 };
      writers = ws;
    })
last_exclusive-GivenUp w t ws v r = record {
  unlocked = refl;
  unowned = refl;
  holds = ground (arith, v.holds, v.alone, v.written, Removes-length t w.writers ws r);
  sound = v.sound;
  granted = v.granted;
  owners = v.owners;
  sleeping = v.sleeping;
  queued = v.queued;
  written = ground (arith, v.written, Removes-length t w.writers ws r);
}
