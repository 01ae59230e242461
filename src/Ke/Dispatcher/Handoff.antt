-- ===== src/Ke/Dispatcher/Handoff.antt =====
-- `KiReleaseMutex` with a waiter: the mutex is handed to the thread that has waited longest.
use boron.Prelude.{ℕ, ◌≡◌, ◌≢◌, ◌∙◌, refl, subst, ap, true, false, arith, List, [], ◌∷◌, some}
use boron.Prelude.Status.{Bstatus, range_wait}
use boron.Ke.Dispatcher.{
  WaitBlock, Object, Dispatcher, is_mutex, take_object, unwait_thread, satisfied_enough,
  satisfy_wait_block, wait_test, wait_test_loop, release_mutex,
}
use boron.Ke.Dispatcher.Invariant.{IsDispatcher, AllFor}
use boron.Ke.Dispatcher.Acquire.{acquire_object_lem}
use boron.Ke.Dispatcher.Wake.{unwait_thread-Woken}
use boron.Ke.Dispatcher.Satisfy.{satisfy_any}
use boron.Ke.Dispatcher.Operations.{freed, release_mutex_last}

wait_test_first :
    (d : Dispatcher) (o increment : ℕ) (b : WaitBlock) (bs : List WaitBlock) (d' : Dispatcher)
    → (d.object o).wait_blocks ≡ b ∷ bs
    → satisfy_wait_block d b increment ≡ some (true, d')
    → satisfied_enough (d'.object o) 1 ≡ true
    → wait_test d o increment ≡ some (b.thread, d')
unfolding wait_test wait_test_loop
wait_test_first d o increment b bs d' list run enough =
    rw (wait_test, list, wait_test_loop, run, enough) refl

-- `t` has got the mutex `o` and runs, no other thread has been woken, and the wait has the index.
pub record HandedTo (d : Dispatcher) (o t index : ℕ) (d' : Dispatcher) : Type 0 where
  pub owner : (d'.object o).owner ≡ t
  pub once : (d'.object o).signaled ≡ 1
  pub awake : (d'.thread t).is_waiting ≡ false
  pub status : (d'.thread t).wait_status ≡ range_wait index
  pub others : (u : ℕ) → u ≢ t → d'.thread u ≡ d.thread u

unwait_thread_status :
    (d : Dispatcher) (t : ℕ) (status : Bstatus) (increment : ℕ)
    → ((unwait_thread d t status increment).thread t).wait_status ≡ status
unfolding unwait_thread
unwait_thread_status d t status increment = ground arith

-- In a build without DEBUG, which checks no mutex levels: in a well-formed state, the last
-- release by its owner of a mutex that other threads wait for, where the first of them does not
-- wait for all of several objects, makes that thread the owner, once, ends its wait with the
-- index of the mutex, and wakes no other thread.
pub release_mutex-HandedTo :
    (d : Dispatcher) (o : ℕ) (b : WaitBlock) (bs : List WaitBlock)
    → IsDispatcher d
    → is_mutex (d.object o).kind ≡ true
    → (d.object o).owner ≡ d.current
    → (d.object o).signaled ≡ 1
    → (d.object o).wait_blocks ≡ b ∷ bs
    → (d.thread b.thread).wait_all ≡ false
    → (d' : Dispatcher) × (release_mutex d o ≡ some d') × HandedTo d o b.thread b.index d'
unfolding satisfied_enough
release_mutex-HandedTo d o b bs v m mine one list any =
    let t = b.thread in
    let d0 = freed d o 0 in
    let place : b.object ≡ o = (subst (AllFor o) list (v.placed o)).0 in
    let first = acquire_object_lem d0 b.object t (ground (arith, place)) in
    let d1 = take_object d0 b.object t in
    let d2 = unwait_thread d1 t (range_wait b.index) 1 in
    let w = unwait_thread-Woken d0 d1 t (b.object ∷ []) (range_wait b.index) 1 refl first.1 in
    let owner : (d2.object o).owner ≡ t =
      ap (λ (x : Object). x.owner) (w.object o) ∙ ground (arith, place, m) in
    let once : (d2.object o).signaled ≡ 1 =
      ap (λ (x : Object). x.signaled) (w.object o) ∙ ground (arith, place, m) in
    let kind : is_mutex (d2.object o).kind ≡ true =
      ap (λ (x : Object). is_mutex x.kind) (w.object o) ∙ ground (arith, place, m) in
    let run =
      wait_test_first d0 o 1 b bs d2 (ground (arith, list)) (satisfy_any d0 b 1 d1 any first.0)
        (ground (arith, kind, once)) in
    (
      d2,
      release_mutex_last d o t d2 mine one run,
      record {
        owner = owner;
        once = once;
        awake = w.awake;
        status = unwait_thread_status d1 t (range_wait b.index) 1;
        others = w.others;
      },
    )
