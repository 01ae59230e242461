-- ===== src/Ex/RwLock/Keeps.antt =====
-- boron/source/ex/rwlock.c: each guarded section keeps what is invariant of the threads.
use boron.Prelude.{
  count-le, ℕ, ◌+◌, ◌≡◌, ◌≢◌, refl, Bool, true, false, not, arith, ◌∷◌, ◌++◌, length, replicate,
  ◌==◌, if-both,
}
use boron.Ex.RwLock.{Owner, no_owner, acquire_exclusive, grow_owner_table}
use boron.Ex.RwLock.Table.{total, used, owned, broken, total-grow}
use boron.Ex.RwLock.Hold.{World, IsWorld}
use boron.Ex.RwLock.Steps.{after_exclusive}

-- A free lock is taken exclusively.
acquired_free :
    (w : World) (t : ℕ)
    → IsWorld w
    → (w.lock.held_count == 0) ≡ true
    → IsWorld (record w {
      lock = record w.lock {
        held_count = 1;
        exclusive_owner = record { locked = 1; owner_thread = t };
      };
      writers = t ∷ w.writers;
    })
acquired_free w t v z = record {
  holds = ground (arith, z, v.holds, v.alone, v.free);
  alone = λ h. refl;
  free = λ h. ground (arith, h);
  sound = v.sound;
  unowned = λ h. ground (arith, h);
  granted = v.granted;
  owners = v.owners;
  sleeping = v.sleeping;
  queued = v.queued;
  written = ground (arith, z, v.holds, v.alone, v.written);
  writer = λ u h k s. ground (arith, h);
  author = λ u h q. ground (arith, z, h, v.holds, v.alone, v.written, count-le u w.writers);
  chosen = λ u h k s. ground (arith, z, s, v.holds, v.alone, v.written);
}

-- The owner has it locked another number of times.
pub kept_exclusively :
    (w : World) (n : ℕ)
    → IsWorld w
    → w.lock.exclusive_owner.locked ≢ 0
    → n ≢ 0
    → IsWorld (record w {
      lock = record w.lock { exclusive_owner = record w.lock.exclusive_owner { locked = n } };
    })
kept_exclusively w n v x k = record {
  holds = ground (arith, x, k, v.holds);
  alone = λ h. ground (arith, x, k, v.alone);
  free = v.free;
  sound = v.sound;
  unowned = λ h. absurd (k h);
  granted = v.granted;
  owners = v.owners;
  sleeping = v.sleeping;
  queued = v.queued;
  written = ground (arith, x, k, v.written);
  writer = v.writer;
  author = v.author;
  chosen = v.chosen;
}

waits_exclusively :
    (w : World) (t : ℕ)
    → IsWorld w
    → (w.lock.held_count == 0) ≡ false
    → IsWorld (record w {
      lock = record w.lock { exclusive_waiter_count = w.lock.exclusive_waiter_count + 1 };
      exclusive_waiters = t ∷ w.exclusive_waiters;
    })
waits_exclusively w t v z = record {
  holds = v.holds;
  alone = v.alone;
  free = λ h. ground (arith, z, h);
  sound = v.sound;
  unowned = v.unowned;
  granted = v.granted;
  owners = v.owners;
  sleeping = v.sleeping;
  queued = omega (arith, v.queued);
  written = v.written;
  writer = v.writer;
  author = v.author;
  chosen = λ u h k s. ground (arith, v.chosen u h k s);
}

pub acquire_exclusive-IsWorld :
    (w : World) (t : ℕ) (dont_block : Bool)
    → IsWorld w
    → IsWorld (after_exclusive w t (acquire_exclusive w.lock t dont_block))
unfolding acquire_exclusive
acquire_exclusive-IsWorld w t d v =
    if-both (λ r. IsWorld (after_exclusive w t r)) (w.lock.held_count == 0) _ _
      (λ z. acquired_free w t v z)
      (λ z.
        if-both (λ r. IsWorld (after_exclusive w t r)) (not (w.lock.exclusive_owner.locked == 0)) _
          _
          (λ x.
            if-both (λ r. IsWorld (after_exclusive w t r))
              (w.lock.exclusive_owner.owner_thread == t) _ _
              (λ y.
                kept_exclusively w (w.lock.exclusive_owner.locked + 1) v (ground (arith, x))
                  (omega arith))
              (λ y. waits_exclusively w t v z))
          (λ x.
            if-both (λ r. IsWorld (after_exclusive w t r)) d _ _ (λ y. v)
              (λ y. waits_exclusively w t v z)))

pub grow-IsWorld :
    (w : World) (old_size : ℕ)
    → IsWorld w
    → IsWorld (record w { lock = grow_owner_table w.lock old_size })
grow-IsWorld w old_size v =
    if-both (λ l. IsWorld (record w { lock = l })) (length w.lock.owner_table == old_size) _ _
      (λ e. record {
        holds = rw (same used refl) v.holds;
        alone = v.alone;
        free = v.free;
        sound = rw (same broken refl) v.sound;
        unowned = v.unowned;
        granted = rw (same used refl) v.granted;
        owners = λ t z. rw (same (owned t) (ground (arith, z))) (v.owners t z);
        sleeping = v.sleeping;
        queued = v.queued;
        written = v.written;
        writer = v.writer;
        author = v.author;
        chosen = v.chosen;
      })
      (λ e. v)
  where
    same :
        (f : Owner → ℕ)
        → f no_owner ≡ 0
        → total f (w.lock.owner_table ++ replicate 4 no_owner) ≡ total f w.lock.owner_table
    same f = total-grow f w.lock.owner_table
