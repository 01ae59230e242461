-- ===== src/Ke/Dispatcher.antt =====
-- boron/source/ke/dispatch.c, event.c, mutex.c, semaphor.c and the wake-up of sched.c: dispatcher
-- objects and the threads that wait for them. An object and a thread are numbers, and 0 is NULL. Every
-- function runs with the dispatcher locked, and `none` is a KeCrash, in a build without DEBUG: the levels
-- of mutexes, which KiAcquireObject of a debug build compares, are left out.
pub mod Objects
pub mod Invariant
pub mod Acquire
pub mod Wake
pub mod Ready
pub mod Boost
pub mod Satisfy
pub mod Signal
pub mod Change
pub mod Operations
pub mod Handoff
pub mod Wait
pub mod Enqueue
pub mod Blocking
pub mod Passes
pub mod Steps
mod Tests
use boron.Prelude.{
  ℕ, ◌+◌, ◌-◌, ◌%◌, ◌^◌, Bool, true, false, ◌&&◌, ◌||◌, not, Option, none, some, List, [], ◌∷◌,
  ◌++◌, ltb, leb, ◌==◌, if◌then◌else◌,
}
use boron.Prelude.Status.{
  Bstatus, success, timeout, killed, alerted, kernel_apc, waiting, range_wait,
}

-- The `DISPATCH_` types; an event's says which of the two it is, and `other` is a timer, a thread or
-- a process.
pub data Kind : Type 0 where
  synchronization_event notification_event mutex semaphore other : Kind

-- `KWAIT_BLOCK`, with its place in the wait block array of its thread.
pub record WaitBlock : Type 0 where
  pub thread : ℕ
  pub object : ℕ
  pub index : ℕ

-- `KDISPATCH_HEADER` with the owner of a `KMUTEX`. `signaled` is a `short`, as a number below 2^16.
pub record Object : Type 0 where
  pub kind : Kind
  pub signaled : ℕ
  pub owner : ℕ
  pub wait_blocks : List WaitBlock

-- The part of `KTHREAD` that a wait uses. `wait_objects` are the objects of the `WaitCount` blocks of
-- the wait block array.
pub record Thread : Type 0 where
  pub is_waiting : Bool
  pub wait_all : Bool
  pub wait_objects : List ℕ
  pub wait_status : Bstatus
  pub wait_timer : Bool
  pub sleep_timer : Bool
  pub dont_steal : Bool
  pub last_processor : ℕ
  pub priority : ℕ
  pub base_priority : ℕ
  pub priority_boost : ℕ

-- All objects and threads, the list of mutexes of each thread, the queue of each processor and
-- priority with its bit of the mask, the current thread, and whether a quantum end is pending.
pub record Dispatcher : Type 0 where
  pub object : ℕ → Object
  pub thread : ℕ → Thread
  pub mutex_list : ℕ → List ℕ
  pub exec_queue : ℕ → ℕ → List ℕ
  pub exec_queue_mask : ℕ → ℕ → Bool
  pub current : ℕ
  pub quantum_end : Bool

abbrev pub update {ℓ} : {A : Type ℓ} → (ℕ → A) → ℕ → A → ℕ → A
update f k v x = if x == k then v else f x

abbrev pub member : ℕ → List ℕ → Bool
member x [] = false
member x (y ∷ ys) = x == y || member x ys

-- `KiIsObjectSignaled`
abbrev pub is_object_signaled : Object → ℕ → Bool
is_object_signaled o thread = elim o.kind [
  | mutex ↦ o.signaled == 0 || o.owner == thread
  | _ ↦ not (o.signaled == 0)
]

-- What `KiAcquireObject` makes of an object, and when it crashes, without the part that is for DEBUG.
abbrev pub acquired : Object → ℕ → Object
acquired o thread = elim o.kind [
  | semaphore ↦ record o { signaled = (o.signaled + 2 ^ 16 - 1) % 2 ^ 16 }
  | mutex ↦ record o { signaled = (o.signaled + 1) % 2 ^ 16; owner = thread }
  | synchronization_event ↦ record o { signaled = 0 }
  | _ ↦ o
]

abbrev pub owned_by_other : Object → ℕ → Bool
owned_by_other o thread = elim o.kind [
  | mutex ↦ not (o.owner == 0) && not (o.owner == thread)
  | _ ↦ false
]

abbrev pub is_mutex : Kind → Bool
is_mutex mutex = true
is_mutex _ = false

-- `KiAcquireObject`
abbrev pub take_object : Dispatcher → ℕ → ℕ → Dispatcher
take_object d o thread =
    let old = d.object o in
    record d {
      object = update d.object o (acquired old thread);
      mutex_list =
          if is_mutex old.kind && old.signaled == 0
          then update d.mutex_list thread (o ∷ d.mutex_list thread)
          else d.mutex_list;
    }

pub acquire_object : Dispatcher → ℕ → ℕ → Option Dispatcher
acquire_object d o thread =
    if owned_by_other (d.object o) thread then none else some (take_object d o thread)

-- `KepSatisfiedEnough`
pub satisfied_enough : Object → ℕ → Bool
satisfied_enough o count = elim o.kind [
  | mutex ↦ not (o.signaled == 0)
  | semaphore ↦ o.signaled == 0
  | synchronization_event ↦ count == 1
  | _ ↦ false
]

-- `KiAdjustPriorityBoost`
pub adjust_priority_boost : ℕ → ℕ → ℕ
adjust_priority_boost base boost =
    let new = base + boost in
    let adjusted =
      if base == 0
      then 0
      else if ltb 31 new && (leb base 31 && leb 27 base)
      then 31
      else if ltb 26 new && (leb base 26 && leb 20 base)
      then 26
      else if ltb 19 new && (leb base 19 && leb 8 base)
      then 19
      else if ltb 7 new && (leb base 7 && leb 1 base)
      then 7
      else new in
    adjusted - base

abbrev pub remove_thread : ℕ → List WaitBlock → List WaitBlock
remove_thread t [] = []
remove_thread t (b ∷ bs) = let rest = remove_thread t bs in if b.thread == t then rest else b ∷ rest

-- The objects once every block in the array of `t` has been taken off the list it is in.
abbrev pub leave_queues : ℕ → List ℕ → (ℕ → Object) → ℕ → Object
leave_queues t objects object o =
    if member o objects
    then record (object o) { wait_blocks = remove_thread t (object o).wait_blocks }
    else object o

-- `KiUnwaitThread`
pub unwait_thread : Dispatcher → ℕ → Bstatus → ℕ → Dispatcher
unwait_thread d t status increment =
    let old = d.thread t in
    let boost = adjust_priority_boost old.priority increment in
    let priority = old.base_priority + boost in
    let processor = old.last_processor in
    let thread = update d.thread t (record old {
      is_waiting = false;
      wait_objects = [];
      wait_status = status;
      wait_timer = false;
      sleep_timer = false;
      dont_steal = true;
      priority = priority;
      priority_boost = boost;
    }) in
    record d {
      object = leave_queues t old.wait_objects d.object;
      thread = thread;
      exec_queue =
          update d.exec_queue processor (
            update (d.exec_queue processor) priority (d.exec_queue processor priority ++ (t ∷ [])));
      exec_queue_mask =
          update d.exec_queue_mask processor (update (d.exec_queue_mask processor) priority true);
      quantum_end = d.quantum_end || ltb (thread d.current).priority priority;
    }

-- The loops of `KiSatisfyWaitBlock` over the objects that a thread waits for.
abbrev pub all_signaled : (ℕ → Object) → ℕ → List ℕ → Bool
all_signaled object t [] = true
all_signaled object t (o ∷ os) = is_object_signaled (object o) t && all_signaled object t os

pub acquire_all : Dispatcher → List ℕ → ℕ → Option Dispatcher
unfolding acquire_object
acquire_all d [] t = some d
acquire_all d (o ∷ os) t = elim (acquire_object d o t) [
  | none ↦ none
  | some d' ↦ acquire_all d' os t
]

-- `KiSatisfyWaitBlock`
pub satisfy_wait_block : Dispatcher → WaitBlock → ℕ → Option (Bool × Dispatcher)
unfolding acquire_all unwait_thread
satisfy_wait_block d b increment =
    let t = b.thread in
    let objects = (d.thread t).wait_objects in
    if not (d.thread t).wait_all
    then elim (acquire_object d b.object t) [
      | none ↦ none
      | some d' ↦ some (true, unwait_thread d' t (range_wait b.index) increment)
    ]
    else if not (all_signaled d.object t objects)
    then some (false, d)
    else elim (acquire_all d objects t) [
      | none ↦ none
      | some d' ↦ some (true, unwait_thread d' t success increment)
    ]

-- The loop of `KiWaitTestAndGetWaiter` over the blocks that are left, with the thread that was woken
-- last; 0 is NULL.
pub wait_test_loop : List WaitBlock → Dispatcher → ℕ → ℕ → ℕ → ℕ → Option (ℕ × Dispatcher)
unfolding satisfy_wait_block satisfied_enough
wait_test_loop [] d o increment count result = some (result, d)
wait_test_loop (b ∷ bs) d o increment count result = elim (satisfy_wait_block d b increment) [
  | none ↦ none
  | some (false, d') ↦ wait_test_loop bs d' o increment count result
  | some (true, d') ↦
      if satisfied_enough (d'.object o) (count + 1)
      then some (b.thread, d')
      else wait_test_loop bs d' o increment (count + 1) b.thread
]

-- `KiWaitTestAndGetWaiter`
pub wait_test : Dispatcher → ℕ → ℕ → Option (ℕ × Dispatcher)
unfolding wait_test_loop
wait_test d o increment = wait_test_loop (d.object o).wait_blocks d o increment 0 0

abbrev pub set_signaled : Dispatcher → ℕ → ℕ → Dispatcher
set_signaled d o s = record d { object = update d.object o (record (d.object o) { signaled = s }) }

-- `KiSetEventAndGetWaiter`, and `KiSetEvent` without the result; a timer that expires, a thread that
-- ends and a process without threads are signaled in the same way.
pub set_event : Dispatcher → ℕ → ℕ → Option (ℕ × Dispatcher)
set_event d o increment = wait_test (set_signaled d o 1) o increment

-- `KiResetEvent`
pub reset_event : Dispatcher → ℕ → Dispatcher
reset_event d o = set_signaled d o 0

-- `KePulseEvent`
pub pulse_event : Dispatcher → ℕ → ℕ → Option Dispatcher
unfolding set_event reset_event
pulse_event d o increment = elim (set_event d o increment) [
  | none ↦ none
  | some (_, d') ↦ some (reset_event d' o)
]

-- `KiReleaseSemaphore`; the sum is an `int` and goes back into a `short`.
pub release_semaphore : Dispatcher → ℕ → ℕ → ℕ → Option (ℕ × Dispatcher)
release_semaphore d o adjustment increment =
    let s = ((d.object o).signaled + adjustment) % 2 ^ 16 in
    if leb (2 ^ 15) s then none else wait_test (set_signaled d o s) o increment

abbrev pub remove : ℕ → List ℕ → List ℕ
remove x [] = []
remove x (y ∷ ys) = let rest = remove x ys in if y == x then rest else y ∷ rest

-- `KiReleaseMutex`
pub release_mutex : Dispatcher → ℕ → Option Dispatcher
release_mutex d o =
    let t = d.current in
    let s = ((d.object o).signaled + 2 ^ 16 - 1) % 2 ^ 16 in
    let freed : Object = record (d.object o) { signaled = s; owner = 0 } in
    if not ((d.object o).owner == t)
    then none
    else if leb (2 ^ 15) s
    then none
    else if not (s == 0)
    then some (set_signaled d o s)
    else elim (wait_test
        (record d {
          object = update d.object o freed;
          mutex_list = update d.mutex_list t (remove o (d.mutex_list t));
        })
        o 1) [ none ↦ none | some (_, d') ↦ some d' ]
