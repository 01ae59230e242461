-- ===== src/Ke/Dispatcher/Operations.antt =====
-- Events, semaphores and mutexes: each operation keeps the invariant and leaves no thread waiting for
-- what it could have.
use boron.Prelude.{
  ℕ, zero, suc, ◌+◌, ◌-◌, ◌%◌, ◌^◌, ◌<◌, ◌≡◌, ◌≢◌, ◌⊎◌, ◌∙◌, refl, sym, subst, ap, Bool, true,
  false, ◌==◌, leb, arith, Option, some, none, ℕ_discrete, inl, inr,
}
use boron.Ke.Dispatcher.{
  Kind, synchronization_event, notification_event, other, semaphore, Object, Dispatcher, update,
  is_mutex, set_signaled, wait_test, set_event, reset_event, pulse_event, release_semaphore,
  release_mutex, remove,
}
use boron.Ke.Dispatcher.Objects.{IsObject, HasRoom}
use boron.Ke.Dispatcher.Invariant.{IsDispatcher}
use boron.Ke.Dispatcher.Ready.{NoLostWakeup}
use boron.Ke.Dispatcher.Change.{
  Serves, set_object-IsDispatcher, wait_test-Serves, lower-NoLostWakeup,
}

-- The same of an operation without a result.
abbrev pub Keeps : Option Dispatcher → Type 0
Keeps r = (d' : Dispatcher) × (r ≡ some d') × IsDispatcher d' × NoLostWakeup d'

-- Set and reset as a whole; a mutex and a semaphore count.
abbrev pub is_flag : Kind → Bool
is_flag synchronization_event = true
is_flag notification_event = true
is_flag other = true
is_flag _ = false

-- In a build without DEBUG, which checks no mutex levels: to set an event, a timer, a thread or a
-- process, in a well-formed state where no thread waits for what it could have, ends without a
-- crash, keeps the invariant and the kind of every object, and leaves no thread waiting for what
-- it could have.
pub set_event-Serves :
    (d : Dispatcher) (o increment : ℕ)
    → IsDispatcher d
    → NoLostWakeup d
    → is_flag (d.object o).kind ≡ true
    → Serves d (set_event d o increment)
unfolding set_event
set_event-Serves d o increment v lost event =
    wait_test-Serves d (set_signaled d o 1) o (record (d.object o) { signaled = 1 }) v refl
      (λ y. refl) refl refl
      (record {
        limit = omega arith;
        held = λ m. absurd (ground (arith, event, m));
        unowned = (v.objects o).unowned;
      })
      (λ t nz e. omega arith) increment lost (ground (arith, event))

-- `KiResetEvent` of an event, in such a state, keeps both.
pub reset_event-NoLostWakeup :
    (d : Dispatcher) (o : ℕ)
    → IsDispatcher d
    → NoLostWakeup d
    → is_flag (d.object o).kind ≡ true
    → IsDispatcher (reset_event d o) × NoLostWakeup (reset_event d o)
unfolding reset_event
reset_event-NoLostWakeup d o v lost event =
    let x : Object = record (d.object o) { signaled = 0 } in
    let fine : IsObject x = record {
      limit = omega arith;
      held = λ m. absurd (ground (arith, event, m));
      unowned = (v.objects o).unowned;
    } in
    (
      set_object-IsDispatcher d (reset_event d o) o x v refl (λ y. refl) refl refl fine
          (λ t nz e. omega arith),
      lower-NoLostWakeup d (reset_event d o) o x v refl (λ y. refl) refl refl fine
          (λ t nz e. omega arith) lost (λ t h. absurd (ground (arith, event, h))),
    )

-- `KePulseEvent` of an event, in such a state, ends and keeps both.
pub pulse_event-Keeps :
    (d : Dispatcher) (o increment : ℕ)
    → IsDispatcher d
    → NoLostWakeup d
    → is_flag (d.object o).kind ≡ true
    → Keeps (pulse_event d o increment)
unfolding pulse_event
pulse_event-Keeps d o increment v lost event =
    let (r, d', run, valid, woken, kinds) = set_event-Serves d o increment v lost event in
    let after = reset_event-NoLostWakeup d' o valid woken (ap is_flag (kinds o) ∙ event) in
    (reset_event d' o, rw (pulse_event, run) refl, after.0, after.1)

abbrev pub is_semaphore : Kind → Bool
is_semaphore semaphore = true
is_semaphore _ = false

-- `KiReleaseSemaphore`, in such a state, to a count of at least one that fits a `short`, ends and
-- keeps both and the kind of every object.
pub release_semaphore-Serves :
    (d : Dispatcher) (o adjustment increment : ℕ)
    → IsDispatcher d
    → NoLostWakeup d
    → is_semaphore (d.object o).kind ≡ true
    → (d.object o).signaled + adjustment ≢ 0
    → (d.object o).signaled + adjustment < 2 ^ 15
    → Serves d (release_semaphore d o adjustment increment)
unfolding release_semaphore
release_semaphore-Serves d o adjustment increment v lost sem some' fits =
    let s = ((d.object o).signaled + adjustment) % 2 ^ 16 in
    let small : leb (2 ^ 15) s ≡ false = ground (arith, fits) in
    let positive : (s == 0) ≡ false = ground (arith, fits, some') in
    let none' : (d.object o).owner ≡ 0 = (v.objects o).unowned (ground (arith, sem)) in
    let (r, d', run, valid, woken, kinds) =
      wait_test-Serves d (set_signaled d o s) o (record (d.object o) { signaled = s }) v refl
        (λ y. refl) refl refl
        (record {
          limit = ground (arith, small);
          held = λ m. absurd (ground (arith, sem, m));
          unowned = (v.objects o).unowned;
        })
        (λ t nz e. absurd (nz (sym e ∙ none'))) increment lost (ground (arith, sem, positive)) in
    (r, d', rw (release_semaphore, small) run, valid, woken, kinds)

-- The state in which `KiReleaseMutex` tests the waiters.
abbrev pub freed : Dispatcher → ℕ → ℕ → Dispatcher
freed d o s = record d {
  object = update d.object o (record (d.object o) { signaled = s; owner = 0 });
  mutex_list = update d.mutex_list d.current (remove o (d.mutex_list d.current));
}

pub release_mutex_last :
    (d : Dispatcher) (o t : ℕ) (d' : Dispatcher)
    → (d.object o).owner ≡ d.current
    → (d.object o).signaled ≡ 1
    → wait_test (freed d o 0) o 1 ≡ some (t, d')
    → release_mutex d o ≡ some d'
unfolding release_mutex
release_mutex_last d o t d' mine one run =
    let same : ((d.object o).owner == d.current) ≡ true = ground (arith, mine) in
    rw (release_mutex, same, one, run) refl

-- Another thread than the owner cannot release a mutex: the kernel crashes.
pub release_mutex_owner :
    (d : Dispatcher) (o : ℕ) (d' : Dispatcher)
    → release_mutex d o ≡ some d'
    → (d.object o).owner ≡ d.current
unfolding release_mutex
release_mutex_owner d o d' run = elim (ℕ_discrete (d.object o).owner d.current) [
  | yes mine ↦ mine
  | no ne ↦
      let other' : ((d.object o).owner == d.current) ≡ false = ground (arith, ne) in
      absurd (nothing d' (sym (rw (release_mutex, other') refl) ∙ run))
]
  where
    nothing : (x : Dispatcher) → none ≡ some x → ⊥
    nothing x e = absurd (ground (arith, e))

release_mutex_more :
    (d : Dispatcher) (o s : ℕ)
    → (d.object o).owner ≡ d.current
    → (d.object o).signaled ≡ suc (suc s)
    → suc (suc s) < 2 ^ 15
    → release_mutex d o ≡ some (set_signaled d o (suc s))
unfolding release_mutex
release_mutex_more d o s mine more limit =
    let same : ((d.object o).owner == d.current) ≡ true = ground (arith, mine) in
    let less : (suc (suc s) + 2 ^ 16 - 1) % 2 ^ 16 ≡ suc s = omega (arith, limit) in
    let small : leb (2 ^ 15) (suc s) ≡ false = ground (arith, limit) in
    let held : (suc s == 0) ≡ false = ground arith in
    rw (release_mutex, same, more, less, small, held) refl

-- In a well-formed state where no thread waits for what it could have, `KiReleaseMutex` of a mutex
-- by the thread that owns it ends without a crash, keeps the invariant, and leaves no thread
-- waiting for what it could have.
pub release_mutex-Keeps :
    (d : Dispatcher) (o : ℕ)
    → IsDispatcher d
    → NoLostWakeup d
    → is_mutex (d.object o).kind ≡ true
    → (d.object o).owner ≡ d.current
    → d.current ≢ 0
    → Keeps (release_mutex d o)
unfolding release_mutex
release_mutex-Keeps d o v lost m mine nz =
    let same = ap (λ k. k == 0) mine in
    let held = (v.objects o).held m in
    let bound = (v.objects o).limit in
    elim (leading (d.object o).signaled) [
      | inl none' ↦ absurd (nz (ground (arith, held, same, none')))
      | inr (inl one) ↦
          let (r, d', run, valid, woken, kinds) =
            wait_test-Serves d (freed d o 0) o (record (d.object o) { signaled = 0; owner = 0 }) v
              refl (λ y. refl) refl refl
              (record { limit = omega arith; held = λ k. refl; unowned = λ k. refl })
              (λ t real e. absurd (real (sym e))) 1 lost (ground (arith, m)) in
          (d', release_mutex_last d o r d' mine one run, valid, woken)
      | inr (inr (s, more)) ↦
          let x : Object = record (d.object o) { signaled = suc s } in
          let fine : IsObject x = record {
            limit = omega (arith, more, bound);
            held = λ k. ground (arith, same, nz);
            unowned = λ k. absurd (ground (arith, m, k));
          } in
          let has : (t : ℕ) → t ≢ 0 → x.owner ≡ t → HasRoom x =
            λ t real e. omega (arith, more, bound) in
          (
            set_signaled d o (suc s),
            release_mutex_more d o s mine more (subst (λ k. k < 2 ^ 15) more bound),
            set_object-IsDispatcher d (set_signaled d o (suc s)) o x v refl (λ y. refl) refl refl
                fine has,
            lower-NoLostWakeup d (set_signaled d o (suc s)) o x v refl (λ y. refl) refl refl fine
                has lost (λ t h. ground (arith, m, h)),
          )
    ]
  where
    leading : (n : ℕ) → (n ≡ 0) ⊎ ((n ≡ 1) ⊎ ((s : ℕ) × (n ≡ suc (suc s))))
    leading zero = inl refl
    leading (suc zero) = inr (inl refl)
    leading (suc (suc s)) = inr (inr (s, refl))
