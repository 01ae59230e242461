-- ===== src/Ex/RwLock/Entry.antt =====
-- boron/source/ex/rwlock.c: an entry that is taken, or locked once more, in a lock whose threads are accounted for.
use boron.Prelude.{ℕ, ◌+◌, ◌≡◌, ◌≢◌, arith, ◌∷◌, ◌==◌, if◌then◌else◌}
use boron.Ex.RwLock.{RwLock, Owner, OwnerPointer, owner_of, set_owner}
use boron.Ex.RwLock.Table.{
  total, entries, used, owned, broken, IsShared, total-set_owner, Rest, set_owner-Rest,
}
use boron.Ex.RwLock.Hold.{World, IsWorld}

-- A usable entry that nobody has is given to a thread.
pub record Taken (w : World) (t : ℕ) (l : RwLock) : Type 0 where
  pub rest : Rest w.lock l
  pub used_one : total used (entries l) ≡ total used (entries w.lock) + 1
  pub sound : total broken (entries l) ≡ 0
  pub owner :
      (u : ℕ)
      → u ≢ 0
      → total (owned u) (entries l) ≡ (if t == u then 1 else 0) + total (owned u) (entries w.lock)

pub set_owner-Taken :
    (w : World) (t : ℕ) (s : OwnerPointer)
    → IsWorld w
    → IsShared w.lock s
    → (owner_of w.lock s).owner_thread ≡ 0
    → t ≢ 0
    → Taken w t (set_owner w.lock s (record { locked = 1; owner_thread = t }))
set_owner-Taken w t s v i z real = record {
  rest = set_owner-Rest w.lock s (record { locked = 1; owner_thread = t }) i;
  used_one =
      ground
        (arith, z, real, total-set_owner used w.lock s (record { locked = 1; owner_thread = t }) i);
  sound = ground (
    arith,
    z,
    real,
    v.sound,
    total-set_owner broken w.lock s (record { locked = 1; owner_thread = t }) i,
  );
  owner = λ u k.
      ground (
        arith,
        z,
        k,
        total-set_owner (owned u) w.lock s (record { locked = 1; owner_thread = t }) i,
      );
}

-- Such an entry makes a reader of a lock that is not held exclusively, or a waiter of one that is held.
pub acquired_entry :
    (w : World) (t : ℕ) (l : RwLock) (n : ℕ)
    → IsWorld w
    → Taken w t l
    → w.lock.exclusive_owner.locked ≡ 0
    → n ≡ w.lock.held_count + 1
    → IsWorld (record w { lock = record l { held_count = n }; readers = t ∷ w.readers })
acquired_entry w t l n v k x e = record {
  holds = ground (arith, x, e, v.holds, k.used_one, k.rest.exclusive_locked, k.rest.shared_waits);
  alone = λ h. absurd (ground (arith, x, h, k.rest.exclusive_locked));
  free = λ h. absurd (omega (arith, h, e));
  sound = k.sound;
  unowned = λ h. omega (arith, v.unowned x, k.rest.exclusive_thread);
  granted = omega (arith, k.used_one, v.granted);
  owners = λ u z. omega (arith, k.owner u z, v.owners u z);
  sleeping = omega (arith, v.sleeping, k.rest.shared_waits);
  queued = omega (arith, v.queued, k.rest.exclusive_waits);
  written = ground (arith, v.written, k.rest.exclusive_locked);
  writer = λ u h z s. v.writer u (omega (arith, h, k.rest.exclusive_thread)) z s;
  author = λ u h q. ground (arith, v.author u h, q, k.rest.exclusive_thread);
  chosen = λ u h z s. v.chosen u (omega (arith, h, k.rest.exclusive_thread)) z s;
}

pub waits_entry :
    (w : World) (t : ℕ) (l : RwLock)
    → IsWorld w
    → Taken w t l
    → w.lock.held_count ≢ 0
    → IsWorld (record w {
      lock = record l { shared_waiter_count = w.lock.shared_waiter_count + 1 };
      shared_waiters = t ∷ w.shared_waiters;
    })
waits_entry w t l v k x = record {
  holds = ground (arith, v.holds, k.used_one, k.rest.exclusive_locked, k.rest.held);
  alone = λ h. ground (arith, h, v.alone, k.rest.exclusive_locked, k.rest.held);
  free = λ h. absurd (x (omega (arith, h, k.rest.held)));
  sound = k.sound;
  unowned = λ h.
      omega (arith, v.unowned (omega (arith, h, k.rest.exclusive_locked)), k.rest.exclusive_thread);
  granted = omega (arith, k.used_one, v.granted);
  owners = λ u z. omega (arith, k.owner u z, v.owners u z);
  sleeping = omega (arith, v.sleeping);
  queued = omega (arith, v.queued, k.rest.exclusive_waits);
  written = ground (arith, v.written, k.rest.exclusive_locked);
  writer = λ u h z s. v.writer u (omega (arith, h, k.rest.exclusive_thread)) z s;
  author = λ u h q. ground (arith, v.author u h, q, k.rest.exclusive_thread);
  chosen = λ u h z s. v.chosen u (omega (arith, h, k.rest.exclusive_thread)) z s;
}

-- The thread locks an entry of its own once more.
pub recursed_entry :
    (w : World) (s : OwnerPointer)
    → IsWorld w
    → IsShared w.lock s
    → (owner_of w.lock s).owner_thread ≢ 0
    → (n : ℕ) → n ≢ 0
    → IsWorld (record w { lock = set_owner w.lock s (record (owner_of w.lock s) { locked = n }) })
recursed_entry w s v i real n some' =
    let rest = set_owner-Rest w.lock s (record (owner_of w.lock s) { locked = n }) i in
    let sum =
      λ (f : Owner → ℕ). total-set_owner f w.lock s (record (owner_of w.lock s) { locked = n }) i in
    record {
      holds =
          ground (arith, v.holds, sum used, rest.exclusive_locked, rest.held, rest.shared_waits);
      alone = λ h. ground (arith, h, v.alone, rest.exclusive_locked, rest.held);
      free = λ h.
          let (a, b) = v.free (omega (arith, h, rest.held)) in
          (omega (arith, a, rest.shared_waits), omega (arith, b, rest.exclusive_waits));
      sound = ground (arith, real, some', v.sound, sum broken);
      unowned = λ h.
          omega (arith, v.unowned (omega (arith, h, rest.exclusive_locked)), rest.exclusive_thread);
      granted = omega (arith, sum used, v.granted);
      owners = λ u z. omega (arith, sum (owned u), v.owners u z);
      sleeping = omega (arith, v.sleeping, rest.shared_waits);
      queued = omega (arith, v.queued, rest.exclusive_waits);
      written = ground (arith, v.written, rest.exclusive_locked);
      writer = λ u h z s. v.writer u (omega (arith, h, rest.exclusive_thread)) z s;
      author = λ u h q. ground (arith, v.author u h, q, rest.exclusive_thread);
      chosen = λ u h z s. v.chosen u (omega (arith, h, rest.exclusive_thread)) z s;
    }
