-- ===== src/Ke/Dispatcher/Tests.antt =====
-- Runs of the dispatcher: thread 1 waits for event 1, and thread 2 sets it.
use boron.Prelude.{ℕ, ◌≡◌, refl, true, false, ◌==◌, arith, [], ◌∷◌, if◌then◌else◌, some, none}
use boron.Prelude.Status.{success, range_wait}
use boron.Ke.Dispatcher.{
  synchronization_event, Object, Thread, Dispatcher, set_event, release_mutex, unwait_thread,
  take_object, set_signaled, wait_test,
}
use boron.Ke.Dispatcher.Objects.{HasRoom}
use boron.Ke.Dispatcher.Change.{Serves}
use boron.Ke.Dispatcher.Operations.{set_event-Serves}
use boron.Ke.Dispatcher.Wait.{Request, returned, blocked, start_wait, wait_pass}
use boron.Ke.Dispatcher.Passes.{IsRequest, Passes, wait_pass-Passes}
use boron.Ke.Dispatcher.Handoff.{HandedTo, release_mutex-HandedTo}
use boron.Ke.Dispatcher.Invariant.{IsDispatcher}
use boron.Ke.Dispatcher.Steps.{
  Initialized, event, a_mutex, initialize_event, initialize_mutex, IsInitial, set, wait, schedule,
  Reachable, start, next, Good, IsInitial-Good, Reachable-Good,
}

abbrev running : Thread
running = record {
  is_waiting = false;
  wait_all = false;
  wait_objects = [];
  wait_status = success;
  wait_timer = false;
  sleep_timer = false;
  dont_steal = false;
  last_processor = 0;
  priority = 8;
  base_priority = 8;
  priority_boost = 0;
}

-- Object 1 is an event, and the others are mutexes.
abbrev objects : ℕ → Object
objects o = if o == 1 then initialize_event synchronization_event false else initialize_mutex

abbrev fresh : Dispatcher
fresh = record {
  object = objects;
  thread = λ t. running;
  mutex_list = λ t. [];
  exec_queue = λ c p. [];
  exec_queue_mask = λ c p. false;
  current = 1;
  quantum_end = false;
}

objects-Initialized : (o : ℕ) → Initialized (objects o)
objects-Initialized o =
    elim (o == 1)
      as (λ b.
        Initialized
          (if b then initialize_event synchronization_event false else initialize_mutex)) [
            | true ↦ event synchronization_event false refl
            | false ↦ a_mutex
          ]

fresh-IsInitial : IsInitial fresh
fresh-IsInitial = record { initialized = objects-Initialized; awake = λ t. refl; idle = λ t. refl }

fresh-Reachable : Reachable fresh
fresh-Reachable = start fresh fresh-IsInitial

abbrev for_one : ℕ → Request
for_one o = record {
  objects = o ∷ [];
  wait_all = false;
  alertable = false;
  timeout_ms = none;
  own_blocks = false;
  user_mode = false;
}

fresh-HasRoom : (o : ℕ) → HasRoom (objects o)
fresh-HasRoom o =
    elim (o == 1)
      as (λ b.
        HasRoom (if b then initialize_event synchronization_event false else initialize_mutex)) [
          | true ↦ omega arith
          | false ↦ omega arith
        ]

for_one-IsRequest : (o : ℕ) → IsRequest fresh (for_one o)
for_one-IsRequest o = record {
  awake = refl;
  idle = refl;
  distinct = (refl, tt);
  real = λ e. absurd (ground (arith, e));
  room = λ y m e. fresh-HasRoom y;
  fits = refl;
}

-- Thread 1 waits for the event.
abbrev blocked_state : Dispatcher
blocked_state = start_wait fresh (for_one 1)

-- Thread 2 runs.
abbrev waiting_state : Dispatcher
waiting_state = record blocked_state { current = 2 }

blocks : wait_pass fresh (for_one 1) false ≡ some (blocked blocked_state)
unfolding wait_pass
blocks = refl

waiting_state-Reachable : Reachable waiting_state
waiting_state-Reachable =
    next blocked_state waiting_state
      (next fresh blocked_state fresh-Reachable
        (wait fresh (for_one 1) false (blocked blocked_state) (for_one-IsRequest 1) blocks))
      (schedule blocked_state 2 (λ c p. []) (λ c p. false) false)

waiting_state-Good : Good waiting_state
waiting_state-Good = Reachable-Good waiting_state waiting_state-Reachable

-- Thread 2 has set the event, and thread 1 has been woken with it.
abbrev set_state : Dispatcher
set_state = unwait_thread (take_object (set_signaled waiting_state 1 1) 1 1) 1 (range_wait 0) 2

sets : set_event waiting_state 1 2 ≡ some (1, set_state)
unfolding set_event wait_test
sets = refl

Reachable-Good_example : Good set_state
Reachable-Good_example = Reachable-Good set_state (
    next waiting_state set_state waiting_state-Reachable
      (set waiting_state 1 2 1 set_state refl sets))

wait_pass-Passes_example : Passes (wait_pass fresh (for_one 1) false)
wait_pass-Passes_example =
    wait_pass-Passes fresh (for_one 1) false (IsInitial-Good fresh fresh-IsInitial).0
      (IsInitial-Good fresh fresh-IsInitial).1 (for_one-IsRequest 1)

set_event-Serves_example : Serves waiting_state (set_event waiting_state 1 2)
set_event-Serves_example =
    set_event-Serves waiting_state 1 2 waiting_state-Good.0 waiting_state-Good.1 refl

-- Thread 1 has acquired mutex 2.
abbrev holding : Dispatcher
holding = take_object fresh 2 1

acquires : wait_pass fresh (for_one 2) false ≡ some (returned (range_wait 0) holding)
unfolding wait_pass
acquires = refl

holding-Good : Good holding
holding-Good = Reachable-Good holding (
    next fresh holding fresh-Reachable (
      wait fresh (for_one 2) false (returned (range_wait 0) holding) (for_one-IsRequest 2)
        acquires))

-- Thread 2 runs, and waits for the mutex.
abbrev second : Dispatcher
second = record holding { current = 2 }

abbrev second_blocked : Dispatcher
second_blocked = start_wait second (for_one 2)

-- Thread 1 runs again.
abbrev contended : Dispatcher
contended = record second_blocked { current = 1 }

holding-HasRoom : (o : ℕ) → HasRoom (holding.object o)
holding-HasRoom o = elim (o == 2) as (λ b. HasRoom (if b then holding.object 2 else objects o)) [
  | true ↦ omega arith
  | false ↦ fresh-HasRoom o
]

second-IsRequest : IsRequest second (for_one 2)
second-IsRequest = record {
  awake = refl;
  idle = refl;
  distinct = (refl, tt);
  real = λ e. absurd (ground (arith, e));
  room = λ y m e. holding-HasRoom y;
  fits = refl;
}

second_blocks : wait_pass second (for_one 2) false ≡ some (blocked second_blocked)
unfolding wait_pass
second_blocks = refl

contended-IsDispatcher : IsDispatcher contended
contended-IsDispatcher =
    (Reachable-Good contended (
      next second_blocked contended
        (next second second_blocked
          (next holding second
            (next fresh holding fresh-Reachable (
              wait fresh (for_one 2) false (returned (range_wait 0) holding) (for_one-IsRequest 2)
                acquires))
            (schedule holding 2 (λ c p. []) (λ c p. false) false))
          (wait second (for_one 2) false (blocked second_blocked) second-IsRequest second_blocks))
        (schedule second_blocked 1 (λ c p. []) (λ c p. false) false))).0

release_mutex-HandedTo_example :
    (d' : Dispatcher) × (release_mutex contended 2 ≡ some d') × HandedTo contended 2 2 0 d'
release_mutex-HandedTo_example =
    release_mutex-HandedTo contended 2 (record { thread = 2; object = 2; index = 0 }) []
      contended-IsDispatcher refl refl refl refl refl
