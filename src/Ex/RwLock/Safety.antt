-- ===== src/Ex/RwLock/Safety.antt =====
-- boron/source/ex/rwlock.c: in every state that a lock reaches, a writer is alone, and nobody waits
-- for a free lock.
use boron.Prelude.{◌<◌, ◌≡◌, subst, arith, Option, some, length}
use boron.Ex.RwLock.Find.{OfFound}
use boron.Ex.RwLock.Hold.{World, IsWorld, initial-IsWorld}
use boron.Ex.RwLock.Keeps.{acquire_exclusive-IsWorld, grow-IsWorld}
use boron.Ex.RwLock.Acquire.{acquire_shared-IsWorld}
use boron.Ex.RwLock.Handover.{
  release_shared-IsWorld, release_exclusive-IsWorld, demote_to_shared-IsWorld, woken_shared-IsWorld,
  woken_exclusive-IsWorld, woken_overwritten-IsWorld,
}
use boron.Ex.RwLock.Steps.{
  Step, Reachable, start, next, grow, demote, release_shared, release_exclusive, woken_shared,
  woken_exclusive, woken_overwritten,
}

of_result {ℓ} :
    {A : Type ℓ} (P : A → Type 0) (o : Option A) (a : A) → o ≡ some a → OfFound P o → P a
of_result P o a e h = subst (OfFound P) e h

Step-IsWorld : (w w' : World) → Step w w' → IsWorld w → IsWorld w'
Step-IsWorld _ _ (Step.exclusive w t d runs) v = acquire_exclusive-IsWorld w t d v
Step-IsWorld _ _ (Step.shared w t d c (real, _, _)) v = acquire_shared-IsWorld w t d c v real
Step-IsWorld _ _ (grow w n) v = grow-IsWorld w n v
Step-IsWorld _ _ (demote w t ws r (real, _, _) m e) v =
    of_result _ _ r e (demote_to_shared-IsWorld w t ws v real m)
Step-IsWorld _ _ (release_shared w t x rs r (real, _, _) m i e) v =
    of_result _ _ r e (release_shared-IsWorld w t x rs v real m i)
Step-IsWorld _ _ (release_exclusive w t x ws r runs m i e) v =
    of_result _ _ r e (release_exclusive-IsWorld w t x ws v runs m i)
Step-IsWorld _ _ (woken_shared w t ss p m) v = woken_shared-IsWorld w t ss v p m
Step-IsWorld _ _ (woken_exclusive w t es p m o real) v = woken_exclusive-IsWorld w t es v p m
Step-IsWorld _ _ (woken_overwritten w t es p m lost real) v =
    woken_overwritten-IsWorld w t es v p m lost

-- What is invariant of the threads holds in every state that a lock reaches.
pub Reachable-IsWorld : (w : World) → Reachable w → IsWorld w
Reachable-IsWorld _ start = initial-IsWorld
Reachable-IsWorld _ (next w w' r s) = Step-IsWorld w w' s (Reachable-IsWorld w r)

-- In every state that a lock reaches from its initialization by the steps of `Step`, where a thread
-- holds it exclusively no other thread holds it, shared or exclusively, and none has been let in.
pub Reachable-Excludes :
    (w : World)
    → Reachable w
    → 0 < length w.writers
    → (length w.writers ≡ 1) × (length w.readers ≡ 0) × (w.permits ≡ 0) × (w.signals ≡ 0)
Reachable-Excludes w r h =
    let v = Reachable-IsWorld w r in
    ground (arith, h, v.holds, v.alone, v.granted, v.sleeping, v.written)

-- In every state that a lock reaches from its initialization by the steps of `Step`, where no thread
-- holds it and none has been let in, no thread waits for it.
pub Reachable-Serves :
    (w : World)
    → Reachable w
    → length w.readers ≡ 0
    → length w.writers ≡ 0
    → w.permits ≡ 0
    → w.signals ≡ 0
    → (length w.shared_waiters ≡ 0) × (length w.exclusive_waiters ≡ 0)
Reachable-Serves w r a b c d =
    let v = Reachable-IsWorld w r in
    ground (arith, a, b, c, d, v.holds, v.free, v.granted, v.sleeping, v.queued, v.written)
