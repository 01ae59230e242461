-- ===== src/Ex/RwLock/Handover.antt =====
-- boron/source/ex/rwlock.c: ExReleaseRwLock, ExDemoteToSharedRwLock and the ends of the waits keep what
-- is invariant of the threads.
use boron.Prelude.{
  count-le, ℕ, ◌+◌, ◌-◌, ◌<◌, ◌≡◌, ◌≢◌, refl, sym, ap, subst, true, false, not, arith, Option, none,
  some, List, ◌∷◌, ◌==◌, if◌then◌else◌, if-both,
}
use boron.Ex.RwLock.{
  RwLock, Owner, OwnerPointer, exclusive, shared, table, is_exclusive, no_owner, owner_of,
  set_owner, find_owner, find_held, find_thread, release, release_entry, pass_on, demote_to_shared,
  resume_exclusive, Wake,
}
use boron.Ex.RwLock.Table.{used, owned, broken, IsShared, total-set_owner, set_owner-Rest}
use boron.Ex.RwLock.Find.{OfFound, Held, find_held-Held, Usable, find_owner-Usable}
use boron.Ex.RwLock.Hold.{World, IsWorld, IsWorld-alone, Removes, Removes-length, Removes-count}
use boron.Ex.RwLock.Entry.{recursed_entry}
use boron.Ex.RwLock.Keeps.{kept_exclusively}
use boron.Ex.RwLock.Release.{pass_on-IsWorld, last_shared-GivenUp, last_exclusive-GivenUp}
use boron.Ex.RwLock.Steps.{Runs, IsWaiter, after_release, after_demote}

IsShared-is_exclusive : (l : RwLock) (s : OwnerPointer) → IsShared l s → is_exclusive s ≡ false
IsShared-is_exclusive l exclusive h = elim h [ ]
IsShared-is_exclusive l shared h = refl
IsShared-is_exclusive l (table i) h = refl

-- Where a reader runs, nobody holds the lock exclusively.
pub reader_unlocked :
    (w : World) (t : ℕ) (rs : List ℕ)
    → IsWorld w
    → Removes t w.readers rs
    → w.lock.exclusive_owner.locked ≡ 0
reader_unlocked w t rs v r =
    ground (arith, v.holds, v.alone, v.granted, v.sleeping, Removes-length t w.readers rs r)

-- A writer is the exclusive owner, where the lock names one.
pub writer_owns :
    (w : World) (t : ℕ) (ws : List ℕ)
    → IsWorld w
    → Removes t w.writers ws
    → w.lock.exclusive_owner.owner_thread ≢ 0
    → (w.lock.exclusive_owner.owner_thread == t) ≡ true
writer_owns w t ws v r q =
    ground (arith, v.author t (ground (arith, Removes-count t w.writers ws t r)) q)

pub writer_found :
    (w : World) (t : ℕ) (ws : List ℕ)
    → IsWorld w
    → Removes t w.writers ws
    → w.lock.exclusive_owner.owner_thread ≢ 0
    → find_held w.lock t ≡ some exclusive
unfolding find_held
writer_found w t ws v r q =
    ap
      (λ b.
        if b
        then some exclusive
        else if w.lock.shared_owner.owner_thread == t
        then some shared
        else find_thread t 0 w.lock.owner_table)
      (writer_owns w t ws v r q)

-- A writer has the lock held exclusively.
pub writer_locked :
    (w : World) (t : ℕ) (ws : List ℕ)
    → IsWorld w
    → Removes t w.writers ws
    → w.lock.exclusive_owner.locked ≢ 0
writer_locked w t ws v r = ground (arith, v.written, Removes-length t w.writers ws r)

-- A writer that the lock does not name has no entry.
pub writer_lost :
    (w : World) (t : ℕ)
    → IsWorld w
    → Runs w t
    → w.lock.exclusive_owner.locked ≢ 0
    → w.lock.exclusive_owner.owner_thread ≡ 0
    → find_held w.lock t ≡ none
writer_lost w t v (real, idle, awake) x q =
    found (find_held w.lock t) (find_held-Held w.lock t (ground (arith, real, q)))
  where
    found : (o : Option OwnerPointer) → OfFound (Held w.lock t) o → o ≡ none
    found none h = refl
    found (some s) (j, own) = absurd (
        ground (
          arith,
          real,
          idle,
          own,
          v.owners t real,
          IsWorld-alone w v x,
          count-le t w.readers,
          total-set_owner (owned t) w.lock s no_owner j,
        ))

-- The crash checks of the release of an entry that a thread has are passed.
pub release_shared-IsWorld :
    (w : World) (t waiter : ℕ) (rs : List ℕ)
    → IsWorld w
    → t ≢ 0
    → Removes t w.readers rs
    → IsWaiter w waiter
    → OfFound (λ r. IsWorld (after_release w rs w.writers r)) (release w.lock t waiter)
unfolding release
release_shared-IsWorld w t waiter rs v real r i =
    of_held (find_held w.lock t) (find_held-Held w.lock t (ground (arith, real, x, v.unowned)))
  where
    x : w.lock.exclusive_owner.locked ≡ 0
    x = reader_unlocked w t rs v r

    P : RwLock × Wake → Type 0
    P p = IsWorld (after_release w rs w.writers p)

    given :
        (s : OwnerPointer)
        → Held w.lock t s
        → w.lock.held_count ≢ 0
        → P (
            pass_on
              (record (set_owner w.lock s no_owner) { held_count = w.lock.held_count - 1 })
              (is_exclusive s)
              waiter)
    given s h held =
        pass_on-IsWorld w _ rs w.writers (is_exclusive s) waiter
          (last_shared-GivenUp w t rs s v real r x h held) i

    of_held :
        (o : Option OwnerPointer)
        → OfFound (Held w.lock t) o
        → OfFound P (elim o [ none ↦ none | some s ↦ release_entry w.lock s waiter ])
    of_held none h = tt
    of_held (some s) (j, own) =
        if-both (OfFound P) ((owner_of w.lock s).locked == 0) _ _ (λ z. tt)
          (λ z.
            if-both (OfFound P) (not ((owner_of w.lock s).locked - 1 == 0)) _ _
              (λ n.
                recursed_entry w s v j (λ e. real (omega (arith, e, own))) _ (ground (arith, n)))
              (λ n.
                if-both (OfFound P) (w.lock.held_count == 0) _ _ (λ k. tt)
                  (λ k. given s (j, own) (ground (arith, k)))))

pub release_exclusive-IsWorld :
    (w : World) (t waiter : ℕ) (ws : List ℕ)
    → IsWorld w
    → Runs w t
    → Removes t w.writers ws
    → IsWaiter w waiter
    → OfFound (λ r. IsWorld (after_release w w.readers ws r)) (release w.lock t waiter)
unfolding release
release_exclusive-IsWorld w t waiter ws v runs r i =
    if-both (λ b. Q (find_held w.lock t)) (w.lock.exclusive_owner.owner_thread == 0) true false
      (λ e.
        subst Q (sym (writer_lost w t v runs (writer_locked w t ws v r) (ground (arith, e)))) tt)
      (λ e. subst Q (sym (writer_found w t ws v r (ground (arith, e)))) (
        if-both (OfFound P) (w.lock.exclusive_owner.locked == 0) _ _ (λ z. tt)
          (λ z.
            if-both (OfFound P) (not (w.lock.exclusive_owner.locked - 1 == 0)) _ _
              (λ n.
                kept_exclusively w (w.lock.exclusive_owner.locked - 1) v (ground (arith, z))
                  (ground (arith, n)))
              (λ n.
                if-both (OfFound P) (w.lock.held_count == 0) _ _ (λ k. tt)
                  (λ k.
                    pass_on-IsWorld w _ w.readers ws true waiter (last_exclusive-GivenUp w t ws v r)
                      i)))))
  where
    P : RwLock × Wake → Type 0
    P p = IsWorld (after_release w w.readers ws p)

    Q : Option OwnerPointer → Type 0
    Q o = OfFound P (elim o [ none ↦ none | some s ↦ release_entry w.lock s waiter ])

-- A lock that is demoted keeps its owner, as a reader.
pub demote_to_shared-IsWorld :
    (w : World) (t : ℕ) (ws : List ℕ)
    → IsWorld w
    → t ≢ 0
    → Removes t w.writers ws
    → OfFound (λ r. IsWorld (after_demote w t ws r)) (demote_to_shared w.lock t)
unfolding demote_to_shared
demote_to_shared-IsWorld w t ws v real r =
    if-both (OfFound P) (not (w.lock.exclusive_owner.owner_thread == t)) _ _ (λ e. tt)
      (λ e. of_found (find_owner w.lock 0) (find_owner-Usable w.lock 0 refl))
  where
    P : RwLock × Option ℕ → Type 0
    P p = IsWorld (after_demote w t ws p)

    of_found :
        (o : Option OwnerPointer)
        → OfFound (Usable w.lock 0) o
        → OfFound P (elim o [
          | none ↦ some (w.lock, none)
          | some s ↦ some (
            record (set_owner w.lock s
                (record { locked = w.lock.exclusive_owner.locked; owner_thread = t })) {
                  exclusive_owner = no_owner;
                  held_count = w.lock.held_count + w.lock.shared_waiter_count;
                  shared_waiter_count = 0;
                },
            some w.lock.shared_waiter_count,
          )
        ])
    of_found none h = v
    of_found (some s) (i, free) =
        let o : Owner = record { locked = w.lock.exclusive_owner.locked; owner_thread = t } in
        let rest = set_owner-Rest w.lock s o i in
        let sum = λ (f : Owner → ℕ). total-set_owner f w.lock s o i in
        let gone = Removes-length t w.writers ws r in
        record {
          holds = ground (arith, free, real, gone, v.holds, v.written, sum used);
          alone = λ h. absurd (ground (arith, h));
          free = λ h. absurd (ground (arith, h, gone, v.written, v.alone));
          sound = ground (arith, free, real, gone, v.written, v.sound, sum broken);
          unowned = λ h. refl;
          granted = ground (arith, free, real, v.granted, sum used);
          owners = λ u z. ground (arith, free, z, v.owners u z, sum (owned u));
          sleeping = omega (arith, v.sleeping);
          queued = omega (arith, v.queued, rest.exclusive_waits);
          written = ground (arith, gone, v.written);
          writer = λ u h z s'. absurd (z (sym h));
          author = λ u h q. ground (arith, h, gone, v.written, count-le u ws);
          chosen = λ u h z s'. absurd (z (sym h));
        }

-- A shared waiter that got a permit is a reader.
pub woken_shared-IsWorld :
    (w : World) (t : ℕ) (ss : List ℕ)
    → IsWorld w
    → 0 < w.permits
    → Removes t w.shared_waiters ss
    → IsWorld (record w { permits = w.permits - 1; readers = t ∷ w.readers; shared_waiters = ss })
woken_shared-IsWorld w t ss v p r = record {
  holds = v.holds;
  alone = v.alone;
  free = v.free;
  sound = v.sound;
  unowned = v.unowned;
  granted = omega (arith, v.granted, Removes-length t w.shared_waiters ss r);
  owners = λ u z. omega (arith, v.owners u z, Removes-count t w.shared_waiters ss u r);
  sleeping = omega (arith, p, v.sleeping, Removes-length t w.shared_waiters ss r);
  queued = v.queued;
  written = v.written;
  writer = v.writer;
  author = v.author;
  chosen = v.chosen;
}

-- The exclusive waiter that the event was set for is the writer.
pub woken_exclusive-IsWorld :
    (w : World) (t : ℕ) (es : List ℕ)
    → IsWorld w
    → 0 < w.signals
    → Removes t w.exclusive_waiters es
    → IsWorld (record w {
      lock = resume_exclusive w.lock t;
      signals = w.signals - 1;
      writers = t ∷ w.writers;
      exclusive_waiters = es;
    })
woken_exclusive-IsWorld w t es v p r = record {
  holds = v.holds;
  alone = v.alone;
  free = v.free;
  sound = v.sound;
  unowned = λ h. ground (arith, h, p, v.written);
  granted = v.granted;
  owners = v.owners;
  sleeping = v.sleeping;
  queued = omega (arith, p, v.queued, Removes-length t w.exclusive_waiters es r);
  written = omega (arith, p, v.written);
  writer = λ u h z s. ground (arith, h);
  author = λ u h q. ground (arith, h, p, v.written, count-le u w.writers);
  chosen = λ u h z s. absurd (ground (arith, s, p, v.written));
}

-- So is a writer whose name the lock has lost.
pub woken_overwritten-IsWorld :
    (w : World) (t : ℕ) (es : List ℕ)
    → IsWorld w
    → 0 < w.signals
    → Removes t w.exclusive_waiters es
    → w.lock.exclusive_owner.owner_thread ≡ 0
    → IsWorld
        (record w { signals = w.signals - 1; writers = t ∷ w.writers; exclusive_waiters = es })
woken_overwritten-IsWorld w t es v p r lost = record {
  holds = v.holds;
  alone = v.alone;
  free = v.free;
  sound = v.sound;
  unowned = v.unowned;
  granted = v.granted;
  owners = v.owners;
  sleeping = v.sleeping;
  queued = omega (arith, p, v.queued, Removes-length t w.exclusive_waiters es r);
  written = omega (arith, p, v.written);
  writer = λ u h z s. absurd (z (omega (arith, h, lost)));
  author = λ u h q. absurd (q lost);
  chosen = λ u h z s. absurd (z (omega (arith, h, lost)));
}
