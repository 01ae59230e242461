-- ===== src/Ke/Dispatcher/Wait.antt =====
-- boron/source/ke/dispatch.c: the wait functions and the expiry of a wait's timer.
use boron.Prelude.{
  ℕ, suc, Bool, true, false, ◌&&◌, ◌||◌, not, ◌==◌, ltb, List, [], ◌∷◌, ◌++◌, length, if◌then◌else◌,
  Option, some, none,
}
use boron.Prelude.Status.{
  Bstatus, success, timeout, killed, alerted, kernel_apc, waiting, range_wait,
}
use boron.Ke.Dispatcher.{
  Object, Dispatcher, update, is_object_signaled, acquire_object, acquire_all, all_signaled,
  unwait_thread,
}

-- `THREAD_WAIT_BLOCKS` and `MAXIMUM_WAIT_BLOCKS`
abbrev pub thread_wait_blocks : ℕ
thread_wait_blocks = 4

abbrev pub maximum_wait_blocks : ℕ
maximum_wait_blocks = 64

-- The arguments of a wait. `timeout_ms` is `none` for TIMEOUT_INFINITE, and `own_blocks` says that
-- the caller gives a wait block array.
pub record Request : Type 0 where
  pub objects : List ℕ
  pub wait_all : Bool
  pub alertable : Bool
  pub timeout_ms : Option ℕ
  pub own_blocks : Bool
  pub user_mode : Bool

-- A pass of the wait returns with a status, or the thread is switched away from.
pub data Outcome : Type 0 where
  returned : Bstatus → Dispatcher → Outcome
  blocked : Dispatcher → Outcome

-- The first object that `t` can have, with its index.
abbrev pub first_signaled : (ℕ → Object) → ℕ → List ℕ → ℕ → Option (ℕ × ℕ)
first_signaled object t [] i = none
first_signaled object t (o ∷ os) i =
    let rest = first_signaled object t os (suc i) in
    if is_object_signaled (object o) t then some (i, o) else rest

-- The loop that puts the wait blocks at the tails of the lists.
abbrev pub enqueue_blocks : ℕ → List ℕ → ℕ → (ℕ → Object) → ℕ → Object
enqueue_blocks t [] i object = object
enqueue_blocks t (o ∷ os) i object = enqueue_blocks t os (suc i) (
    update object o (record (object o) {
      wait_blocks = (object o).wait_blocks ++ ((record { thread = t; object = o; index = i }) ∷ []);
    }))

-- The thread once it has been set up to wait, up to the switch.
abbrev pub start_wait : Dispatcher → Request → Dispatcher
start_wait d r =
    let t = d.current in
    record d {
      object = enqueue_blocks t r.objects 0 d.object;
      thread = update d.thread t (record (d.thread t) {
        is_waiting = true;
        wait_all = r.wait_all;
        wait_objects = r.objects;
        wait_status = waiting;
        wait_timer = elim r.timeout_ms [ none ↦ (d.thread t).wait_timer | some _ ↦ true ];
      });
    }

abbrev pub is_poll : Option ℕ → Bool
is_poll none = false
is_poll (some ms) = ms == 0

abbrev pub poll_or_wait : Dispatcher → Request → Option Outcome
poll_or_wait d r =
    if is_poll r.timeout_ms then some (returned timeout d) else some (blocked (start_wait d r))

abbrev pub wait_any : Dispatcher → Request → Option Outcome
wait_any d r = elim (first_signaled d.object d.current r.objects 0) [
  | none ↦ if length r.objects == 0 then some (returned (range_wait 0) d) else poll_or_wait d r
  | some found ↦ elim (acquire_object d found.1 d.current) [
    | none ↦ none
    | some d' ↦ some (returned (range_wait found.0) d')
  ]
]

abbrev pub wait_for_all : Dispatcher → Request → Option Outcome
wait_for_all d r =
    if all_signaled d.object d.current r.objects
    then elim (acquire_all d r.objects d.current) [
      | none ↦ none
      | some d' ↦ some (returned success d')
    ]
    else poll_or_wait d r

-- `KeWaitForMultipleObjects` up to the switch, and each pass of its loop after a kernel APC.
unfoldable pub wait_pass : Dispatcher → Request → Bool → Option Outcome
unfolding acquire_object acquire_all
wait_pass d r pending_termination =
    let maximum = if r.own_blocks then maximum_wait_blocks else thread_wait_blocks in
    if ltb maximum (length r.objects)
    then none
    else if r.user_mode && pending_termination
    then some (returned killed d)
    else if r.wait_all
    then wait_for_all d r
    else wait_any d r

abbrev pub is_killed : Bstatus → Bool
is_killed killed = true
is_killed _ = false

abbrev pub is_alerted : Bstatus → Bool
is_alerted alerted = true
is_alerted _ = false

abbrev pub is_kernel_apc : Bstatus → Bool
is_kernel_apc kernel_apc = true
is_kernel_apc _ = false

-- What `KeWaitForMultipleObjects` does once the thread runs again: `some` is what it returns, and
-- `none` is another pass.
pub after_wait : Request → Bstatus → Option Bstatus
after_wait r status =
    if is_killed status && (r.alertable || r.user_mode)
    then some status
    else if is_alerted status && (r.alertable && r.user_mode)
    then some status
    else if not (is_kernel_apc status)
    then some status
    else none

-- The status of `KeWaitForSingleObject` from that of the wait.
pub single_status : Bstatus → Bstatus
single_status status = elim status [
  | range_wait n ↦ if n == 0 then success else range_wait n
  | s ↦ s
]

-- `KepWaitTimerExpiry`
unfoldable pub wait_timer_expiry : Dispatcher → ℕ → Dispatcher
unfolding unwait_thread
wait_timer_expiry d t = if (d.thread t).is_waiting then unwait_thread d t timeout 0 else d
