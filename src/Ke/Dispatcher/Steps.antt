-- ===== src/Ke/Dispatcher/Steps.antt =====
-- boron/source/ke: what can happen to the dispatcher, step by step, from the initial objects on.
use boron.Prelude.{
  ℕ, ◌+◌, ◌%◌, ◌^◌, ◌<◌, ◌≡◌, ◌≢◌, refl, sym, subst, ap, Bool, true, false, arith, List, [],
  if◌then◌else◌, Option, some, none, ◌∙◌,
}
use boron.Prelude.Status.{killed}
use boron.Ke.Dispatcher.{
  Kind, mutex, semaphore, Object, Dispatcher, is_mutex, member, unwait_thread, set_event,
  reset_event, pulse_event, release_semaphore, release_mutex,
}
use boron.Ke.Dispatcher.Objects.{IsObject}
use boron.Ke.Dispatcher.Invariant.{IsDispatcher, waits_in, Once, AllFor, Distinct}
use boron.Ke.Dispatcher.Ready.{NoLostWakeup}
use boron.Ke.Dispatcher.Operations.{
  is_flag, is_semaphore, set_event-Serves, reset_event-NoLostWakeup, pulse_event-Keeps,
  release_semaphore-Serves, release_mutex-Keeps, release_mutex_owner,
}
use boron.Ke.Dispatcher.Wait.{Request, Outcome, wait_pass, wait_timer_expiry}
use boron.Ke.Dispatcher.Passes.{
  IsRequest, state, wait_pass-Passes, unwait_thread-Keeps, wait_timer_expiry-Keeps,
}

-- `KeInitializeDispatchHeader`
abbrev pub initialize_dispatch_header : Kind → Object
initialize_dispatch_header kind = record { kind = kind; signaled = 0; owner = 0; wait_blocks = [] }

-- `KeInitializeEvent`
abbrev pub initialize_event : Kind → Bool → Object
initialize_event kind state' = record (initialize_dispatch_header kind) {
  signaled = if state' then 1 else 0;
}

-- `KeInitializeMutex`
abbrev pub initialize_mutex : Object
initialize_mutex = record (initialize_dispatch_header mutex) { signaled = 0; owner = 0 }

-- `KeInitializeSemaphore`; the limit is stored and never read.
abbrev pub initialize_semaphore : ℕ → Object
initialize_semaphore count = record (initialize_dispatch_header semaphore) {
  signaled = count % 2 ^ 16;
}

-- What an initializer makes, of a count that fits a `short`.
pub data Initialized : Object → Type 0 where
  event :
      (kind : Kind)
      → (state' : Bool) → is_flag kind ≡ true
      → Initialized (initialize_event kind state')
  a_mutex : Initialized initialize_mutex
  a_semaphore : (count : ℕ) → count < 2 ^ 15 → Initialized (initialize_semaphore count)

-- Nobody waits.
pub record IsInitial (d : Dispatcher) : Type 0 where
  pub initialized : (o : ℕ) → Initialized (d.object o)
  pub awake : (t : ℕ) → (d.thread t).is_waiting ≡ false
  pub idle : (t : ℕ) → (d.thread t).wait_objects ≡ []

-- What one processor does while it holds the dispatcher lock. The scheduler picks the current thread
-- and changes the queues; it touches neither the objects nor who waits.
pub data Step : Dispatcher → Dispatcher → Type 0 where
  set :
      (d : Dispatcher)
      → (o increment t : ℕ) → (d' : Dispatcher) → is_flag (d.object o).kind ≡ true
      → set_event d o increment ≡ some (t, d')
      → Step d d'
  reset : (d : Dispatcher) → (o : ℕ) → is_flag (d.object o).kind ≡ true → Step d (reset_event d o)
  pulse :
      (d : Dispatcher)
      → (o increment : ℕ) → (d' : Dispatcher) → is_flag (d.object o).kind ≡ true
      → pulse_event d o increment ≡ some d'
      → Step d d'
  semaphore_release :
      (d : Dispatcher)
      → (o adjustment increment t : ℕ) → (d' : Dispatcher) → is_semaphore (d.object o).kind ≡ true
      → adjustment ≢ 0
      → (d.object o).signaled + adjustment < 2 ^ 15
      → release_semaphore d o adjustment increment ≡ some (t, d')
      → Step d d'
  mutex_release :
      (d : Dispatcher)
      → (o : ℕ) → (d' : Dispatcher) → is_mutex (d.object o).kind ≡ true
      → d.current ≢ 0
      → release_mutex d o ≡ some d'
      → Step d d'
  wait :
      (d : Dispatcher)
      → (r : Request) → (pending_termination : Bool) → (out : Outcome) → IsRequest d r
      → wait_pass d r pending_termination ≡ some out
      → Step d (state out)
  expire : (d : Dispatcher) → (t : ℕ) → Step d (wait_timer_expiry d t)
  terminate :
      (d : Dispatcher)
      → (t increment : ℕ) → (d.thread t).is_waiting ≡ true
      → Step d (unwait_thread d t killed increment)
  schedule :
      (d : Dispatcher)
      → (t : ℕ) → (queue : ℕ → ℕ → List ℕ) → (mask : ℕ → ℕ → Bool) → (quantum_end : Bool)
      → Step d (record d {
        current = t;
        exec_queue = queue;
        exec_queue_mask = mask;
        quantum_end = quantum_end;
      })

pub data Reachable : Dispatcher → Type 0 where
  start : (d : Dispatcher) → IsInitial d → Reachable d
  next : (d d' : Dispatcher) → Reachable d → Step d d' → Reachable d'

Initialized-IsObject : (x : Object) → Initialized x → IsObject x
Initialized-IsObject _ (event kind true h) = record {
  limit = omega arith;
  held = λ m. absurd (ground (arith, h, m));
  unowned = λ m. refl;
}
Initialized-IsObject _ (event kind false h) = record {
  limit = omega arith;
  held = λ m. refl;
  unowned = λ m. refl;
}
Initialized-IsObject _ a_mutex = record {
  limit = omega arith;
  held = λ m. refl;
  unowned = λ m. refl;
}
Initialized-IsObject _ (a_semaphore count h) = record {
  limit = omega (arith, h);
  held = λ m. absurd (ground (arith, m));
  unowned = λ m. refl;
}

Initialized-wait_blocks : (x : Object) → Initialized x → x.wait_blocks ≡ []
Initialized-wait_blocks _ (event kind b h) = refl
Initialized-wait_blocks _ a_mutex = refl
Initialized-wait_blocks _ (a_semaphore count h) = refl

-- The invariant, with no wake-up lost.
abbrev pub Good : Dispatcher → Type 0
Good d = IsDispatcher d × NoLostWakeup d

pub IsInitial-Good : (d : Dispatcher) → IsInitial d → Good d
IsInitial-Good d i = (
  record {
    objects = λ o. Initialized-IsObject (d.object o) (i.initialized o);
    queued = λ o t.
        ap (waits_in t) (Initialized-wait_blocks (d.object o) (i.initialized o))
        ∙ ap (member o) (sym (i.idle t));
    once = λ o. subst Once (sym (Initialized-wait_blocks (d.object o) (i.initialized o))) tt;
    placed =
        λ o. subst (AllFor o) (sym (Initialized-wait_blocks (d.object o) (i.initialized o))) tt;
    distinct = λ t. subst Distinct (sym (i.idle t)) tt;
    real = λ t o m. absurd (ground (arith, ap (member o) (i.idle t), m));
    room = λ t o m. absurd (ground (arith, ap (member o) (i.idle t), m));
  },
  λ t h. absurd (ground (arith, i.awake t, h)),
)

-- An operation that ends in a good state ends in no other.
same_end {ℓ} :
    {A : Type ℓ} (P : A → Type 0) (r : Option A) (a b : A) → r ≡ some a → P a → r ≡ some b → P b
same_end P r a b e p e' = subst P (ap (λ o. elim o [ none ↦ a | some x ↦ x ]) (sym e ∙ e')) p

Step-Good : (d d' : Dispatcher) → Step d d' → Good d → Good d'
Step-Good _ _ (set d o increment t d' flag run) (v, lost) =
    let (t1, d1, run1, valid, woken, kinds) = set_event-Serves d o increment v lost flag in
    same_end (λ p. Good p.1) (set_event d o increment) (t1, d1) (t, d') run1 (valid, woken) run
Step-Good _ _ (reset d o flag) (v, lost) = reset_event-NoLostWakeup d o v lost flag
Step-Good _ _ (pulse d o increment d' flag run) (v, lost) =
    let (d1, run1, valid, woken) = pulse_event-Keeps d o increment v lost flag in
    same_end Good (pulse_event d o increment) d1 d' run1 (valid, woken) run
Step-Good _ _ (semaphore_release d o adjustment increment t d' sem some' fits run) (v, lost) =
    let (t1, d1, run1, valid, woken, kinds) =
      release_semaphore-Serves d o adjustment increment v lost sem (λ z. some' (omega (arith, z)))
        fits in
    same_end (λ p. Good p.1) (release_semaphore d o adjustment increment) (t1, d1) (t, d') run1
      (valid, woken) run
Step-Good _ _ (mutex_release d o d' m real run) (v, lost) =
    let (d1, run1, valid, woken) =
      release_mutex-Keeps d o v lost m (release_mutex_owner d o d' run) real in
    same_end Good (release_mutex d o) d1 d' run1 (valid, woken) run
Step-Good _ _ (wait d r pending out q run) (v, lost) =
    let (out1, run1, valid, woken) = wait_pass-Passes d r pending v lost q in
    same_end (λ p. Good (state p)) (wait_pass d r pending) out1 out run1 (valid, woken) run
Step-Good _ _ (expire d t) (v, lost) = wait_timer_expiry-Keeps d t v lost
Step-Good _ _ (terminate d t increment h) (v, lost) =
    unwait_thread-Keeps d t killed increment v lost
Step-Good _ _ (schedule d t queue mask quantum_end) (v, lost) = (
  record {
    objects = v.objects;
    queued = v.queued;
    once = v.once;
    placed = v.placed;
    distinct = v.distinct;
    real = v.real;
    room = v.room;
  },
  lost,
)

-- In every state that the dispatcher reaches from fresh objects the invariant holds, and no thread
-- waits for what it could have. The steps are those of `Step`, with their conditions.
pub Reachable-Good : (d : Dispatcher) → Reachable d → Good d
Reachable-Good _ (start d i) = IsInitial-Good d i
Reachable-Good _ (next d d' r s) = Step-Good d d' s (Reachable-Good d r)
