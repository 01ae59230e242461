-- ===== src/Ke/Dispatcher/Passes.antt =====
-- `KeWaitForMultipleObjects`: a pass of its loop, and what ends a wait from outside.
use boron.Prelude.{
  ℕ, ◌≡◌, ◌≢◌, ◌∙◌, refl, ap, Bool, true, false, ◌&&◌, ◌==◌, arith, List, [], ◌∷◌, length, ltb,
  if◌then◌else◌, Option, some, Bool-cases, inl, inr,
}
use boron.Prelude.Status.{Bstatus, success, range_wait, timeout, killed}
use boron.Ke.Dispatcher.{
  Thread, Dispatcher, member, is_object_signaled, all_signaled, take_object, unwait_thread,
}
use boron.Ke.Dispatcher.Objects.{HasRoom, signaled-owned_by_other}
use boron.Ke.Dispatcher.Invariant.{IsDispatcher, Distinct}
use boron.Ke.Dispatcher.Wake.{Woken, Woken-IsDispatcher, unwait_thread-Woken}
use boron.Ke.Dispatcher.Acquire.{acquire_object_lem, acquire_all_lem, grab}
use boron.Ke.Dispatcher.Ready.{any_by, NoLostWakeup, all_signaled-member}
use boron.Ke.Dispatcher.Wait.{
  Request, Outcome, returned, blocked, start_wait, is_poll, poll_or_wait, wait_any, wait_for_all,
  wait_pass, thread_wait_blocks, maximum_wait_blocks, wait_timer_expiry,
}
use boron.Ke.Dispatcher.Blocking.{start_wait-IsDispatcher, start_wait-NoLostWakeup}
use boron.Ke.Dispatcher.Enqueue.{Woken-NoLostWakeup, first_signaled_lem}

-- The current thread may make the request: it runs, the objects differ and fit, and it can still
-- acquire a mutex that it has.
pub record IsRequest (d : Dispatcher) (r : Request) : Type 0 where
  pub awake : (d.thread d.current).is_waiting ≡ false
  pub idle : (d.thread d.current).wait_objects ≡ []
  pub distinct : Distinct r.objects
  pub real : d.current ≢ 0
  pub room :
      (o : ℕ) → member o r.objects ≡ true → (d.object o).owner ≡ d.current → HasRoom (d.object o)
  pub fits :
      ltb (if r.own_blocks then maximum_wait_blocks else thread_wait_blocks) (length r.objects)
      ≡ false

abbrev pub state : Outcome → Dispatcher
state (returned _ d) = d
state (blocked d) = d

-- The pass ends, with the invariant kept and no wake-up lost.
abbrev pub Passes : Option Outcome → Type 0
Passes p = (out : Outcome) × (p ≡ some out) × IsDispatcher (state out) × NoLostWakeup (state out)

module _ (d : Dispatcher) (r : Request) (v : IsDispatcher d) (lost : NoLostWakeup d)
    (q : IsRequest d r) where
  -- The current thread has acquired `os`, which it has asked for.
  acquires :
      (os : List ℕ) (d' : Dispatcher) (status : Bstatus)
      → ((o : ℕ) → member o os ≡ true → member o r.objects ≡ true)
      → ((o : ℕ) → member o os ≡ true → is_object_signaled (d.object o) d.current ≡ true)
      → d'.thread ≡ d.thread
      → ((y : ℕ) → d'.object y ≡ grab d.current os d.object y)
      → IsDispatcher d' × NoLostWakeup d'
  acquires os d' status within free threads objects =
      let w : Woken d d.current os d' = record {
        others = λ u ne. ap (λ (f : ℕ → Thread). f u) threads;
        awake = ap (λ (f : ℕ → Thread). (f d.current).is_waiting) threads ∙ q.awake;
        gone = ap (λ (f : ℕ → Thread). (f d.current).wait_objects) threads ∙ q.idle;
        object = λ y. objects y ∙ ground (arith, ap (member y) q.idle);
      } in
      let room : (o : ℕ)
          → member o os ≡ true
          → (d.object o).owner ≡ d.current
          → HasRoom (d.object o) =
        λ o m. q.room o (within o m) in
      (
        Woken-IsDispatcher d d.current os d' v (λ o m. q.real) room free w,
        Woken-NoLostWakeup d d.current os d' v (λ o m. q.real) room free w lost,
      )

  polls :
      (if r.wait_all
          then all_signaled d.object d.current r.objects
          else any_by (λ o. is_object_signaled (d.object o) d.current) r.objects)
        ≡ false
      → Passes (poll_or_wait d r)
  polls stuck = elim (Bool-cases (is_poll r.timeout_ms)) [
    | inl poll ↦ (returned timeout d, rw poll refl, v, lost)
    | inr wait ↦ (
      blocked (start_wait d r),
      rw wait refl,
      start_wait-IsDispatcher d r v q.idle q.distinct q.real q.room,
      start_wait-NoLostWakeup d r v q.idle q.distinct q.real q.room lost stuck,
    )
  ]

  wait_any-Passes : r.wait_all ≡ false → Passes (wait_any d r)
  wait_any-Passes any = elim (first_signaled_lem d.object d.current r.objects 0) [
    | inl (k, o, found, m, free) ↦
        let first =
          acquire_object_lem d o d.current
            (signaled-owned_by_other (d.object o) d.current (v.objects o) free) in
        let d' = take_object d o d.current in
        let only : (y : ℕ) → member y (o ∷ []) ≡ true → y ≡ o = λ y h. ground (arith, h) in
        let kept =
          acquires (o ∷ []) d' (range_wait k) (λ y h. ap (λ z. member z r.objects) (only y h) ∙ m)
            (λ y h. ap (λ z. is_object_signaled (d.object z) d.current) (only y h) ∙ free) refl
            first.1 in
        (returned (range_wait k) d', rw (wait_any, found, first.0) refl, kept.0, kept.1)
    | inr (found, stuck) ↦ elim (Bool-cases (length r.objects == 0)) [
      | inl empty ↦ (returned (range_wait 0) d, rw (wait_any, found, empty) refl, v, lost)
      | inr more ↦
          let (out, run, valid, woken) = polls (rw any stuck) in
          (out, rw (wait_any, found, more) run, valid, woken)
    ]
  ]

  wait_for_all-Passes : r.wait_all ≡ true → Passes (wait_for_all d r)
  wait_for_all-Passes all = elim (Bool-cases (all_signaled d.object d.current r.objects)) [
    | inl got ↦
        let free : (y : ℕ)
            → member y r.objects ≡ true
            → is_object_signaled (d.object y) d.current ≡ true =
          λ y h. all_signaled-member d.object d.current r.objects y got h in
        let (d', run, threads, objects) =
          acquire_all_lem d r.objects d.current q.distinct
            (λ y h. signaled-owned_by_other (d.object y) d.current (v.objects y) (free y h)) in
        let kept = acquires r.objects d' success (λ y h. h) free threads objects in
        (returned success d', rw (got, run) refl, kept.0, kept.1)
    | inr missing ↦
        let (out, run, valid, woken) = polls (rw all missing) in (out, rw missing run, valid, woken)
  ]

-- In a build without DEBUG, which checks no mutex levels: in a well-formed state where no thread
-- waits for what it could have, `KeWaitForMultipleObjects`, asked by a running thread for
-- different objects that fit its wait blocks, where a mutex that it owns can be acquired once
-- more, returns or switches away, with the invariant kept and no thread left to wait for what it
-- could have.
pub wait_pass-Passes :
    (d : Dispatcher) (r : Request) (pending_termination : Bool)
    → IsDispatcher d
    → NoLostWakeup d
    → IsRequest d r
    → Passes (wait_pass d r pending_termination)
unfolding wait_pass
wait_pass-Passes d r pending v lost q = elim (Bool-cases (r.user_mode && pending)) [
  | inl dead ↦ (returned killed d, rw (wait_pass, q.fits, dead) refl, v, lost)
  | inr alive ↦ elim (Bool-cases r.wait_all) [
    | inl all ↦
        let (out, run, valid, woken) = wait_for_all-Passes d r v lost q all in
        (
          out,
          rw (wait_pass, q.fits, alive)
              (ap (λ b. if b then wait_for_all d r else wait_any d r) all ∙ run),
          valid,
          woken,
        )
    | inr any ↦
        let (out, run, valid, woken) = wait_any-Passes d r v lost q any in
        (
          out,
          rw (wait_pass, q.fits, alive)
              (ap (λ b. if b then wait_for_all d r else wait_any d r) any ∙ run),
          valid,
          woken,
        )
  ]
]

-- To take a thread out of its wait, with any status, keeps both.
pub unwait_thread-Keeps :
    (d : Dispatcher) (t : ℕ) (status : Bstatus) (increment : ℕ)
    → IsDispatcher d
    → NoLostWakeup d
    → IsDispatcher (unwait_thread d t status increment)
      × NoLostWakeup (unwait_thread d t status increment)
unwait_thread-Keeps d t status increment v lost =
    let w = unwait_thread-Woken d d t [] status increment refl (λ y. refl) in
    let d' = unwait_thread d t status increment in
    (
      Woken-IsDispatcher d t [] d' v (λ o m. absurd (ground (arith, m)))
          (λ o m. absurd (ground (arith, m))) (λ o m. absurd (ground (arith, m))) w,
      Woken-NoLostWakeup d t [] d' v (λ o m. absurd (ground (arith, m)))
          (λ o m. absurd (ground (arith, m))) (λ o m. absurd (ground (arith, m))) w lost,
    )

pub wait_timer_expiry-Keeps :
    (d : Dispatcher) (t : ℕ)
    → IsDispatcher d
    → NoLostWakeup d
    → IsDispatcher (wait_timer_expiry d t) × NoLostWakeup (wait_timer_expiry d t)
unfolding wait_timer_expiry
wait_timer_expiry-Keeps d t v lost = elim (Bool-cases (d.thread t).is_waiting) [
  | inl waits ↦ rw (wait_timer_expiry, waits) (unwait_thread-Keeps d t timeout 0 v lost)
  | inr runs ↦ rw (wait_timer_expiry, runs) (v, lost)
]
