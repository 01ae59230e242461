-- ===== src/Ke/Dispatcher/Blocking.antt =====
-- `KeWaitForMultipleObjects`: how a thread starts to wait.
use boron.Prelude.{
  ℕ, ◌≡◌, ◌≢◌, ◌∙◌, ◌⊎◌, refl, sym, subst, ap, true, false, arith, List, [], ◌∷◌, ◌++◌,
  if◌then◌else◌, Bool-cases, ℕ_discrete, inl, inr,
}
use boron.Ke.Dispatcher.{
  WaitBlock, Object, Thread, Dispatcher, member, is_object_signaled, all_signaled,
}
use boron.Ke.Dispatcher.Objects.{HasRoom}
use boron.Ke.Dispatcher.Invariant.{IsDispatcher, waits_in, Once, AllFor, Distinct}
use boron.Ke.Dispatcher.Ready.{any_by, ready_by, NoLostWakeup, ready_by_mono, all_signaled_lem}
use boron.Ke.Dispatcher.Wait.{Request, start_wait}
use boron.Ke.Dispatcher.Enqueue.{queue, enqueue_blocks_lem, waits_in-queue, Once-tail, AllFor-tail}

module _ (d : Dispatcher) (r : Request) (v : IsDispatcher d)
    (idle : (d.thread d.current).wait_objects ≡ []) (dis : Distinct r.objects)
    (real : d.current ≢ 0)
    (room : (o : ℕ)
      → member o r.objects ≡ true
      → (d.object o).owner ≡ d.current
      → HasRoom (d.object o)) where
  abbrev place : ℕ → ℕ
  place y = (enqueue_blocks_lem d.current r.objects 0 d.object y dis).0

  queued_object :
      (y : ℕ)
      → (start_wait d r).object y
        ≡ (if member y r.objects then queue (d.object y) d.current y (place y) else d.object y)
  queued_object y = (enqueue_blocks_lem d.current r.objects 0 d.object y dis).1

  not_yet : (y : ℕ) → waits_in d.current (d.object y).wait_blocks ≡ false
  not_yet y = v.queued y d.current ∙ ap (member y) idle

  same_header :
      (y : ℕ)
      → (λ (a b : Object). (a.kind ≡ b.kind) × (a.signaled ≡ b.signaled) × (a.owner ≡ b.owner))
          ((start_wait d r).object y)
          (d.object y)
  same_header y =
      let e = queued_object y in
      (
        ap (λ (x : Object). x.kind) e ∙ ground arith,
        ap (λ (x : Object). x.signaled) e ∙ ground arith,
        ap (λ (x : Object). x.owner) e ∙ ground arith,
      )

  pub start_wait-is_object_signaled :
      (y u : ℕ)
      → is_object_signaled ((start_wait d r).object y) u ≡ is_object_signaled (d.object y) u
  start_wait-is_object_signaled y u = ground (arith, same_header y)

  other_thread : (u : ℕ) → u ≢ d.current → (start_wait d r).thread u ≡ d.thread u
  other_thread u ne = ground (arith, ne)

  this_thread : ((start_wait d r).thread d.current).wait_objects ≡ r.objects
  this_thread = ground arith

  by_list :
      (P : List WaitBlock → Type 0) (y : ℕ)
      → ((b : WaitBlock)
          → b.thread ≡ d.current
          → b.object ≡ y
          → P ((d.object y).wait_blocks ++ (b ∷ [])))
      → P (d.object y).wait_blocks
      → P ((start_wait d r).object y).wait_blocks
  by_list P y long short = elim (Bool-cases (member y r.objects)) [
    | inl m ↦
        subst (λ (x : Object). P x.wait_blocks)
          (sym (
            queued_object y
            ∙ ap (λ b. if b then queue (d.object y) d.current y (place y) else d.object y) m))
          (long (record { thread = d.current; object = y; index = place y }) refl refl)
    | inr m ↦
        subst (λ (x : Object). P x.wait_blocks)
          (sym (
            queued_object y
            ∙ ap (λ b. if b then queue (d.object y) d.current y (place y) else d.object y) m))
          short
  ]

  queued_after :
      (y u : ℕ)
      → waits_in u ((start_wait d r).object y).wait_blocks
        ≡ member y ((start_wait d r).thread u).wait_objects
  queued_after y u = elim (ℕ_discrete u d.current) [
    | yes e ↦ rw e (
        ap (λ (x : Object). waits_in d.current x.wait_blocks) (queued_object y)
        ∙ waits_in-queue (member y r.objects) (d.object y) d.current d.current y (place y)
        ∙ ground (arith, not_yet y)
        ∙ ap (member y) (sym this_thread))
    | no ne ↦
        ap (λ (x : Object). waits_in u x.wait_blocks) (queued_object y)
        ∙ waits_in-queue (member y r.objects) (d.object y) u d.current y (place y)
        ∙ ground (arith, ne)
        ∙ v.queued y u
        ∙ ap (λ (x : Thread). member y x.wait_objects) (sym (other_thread u ne))
  ]

  -- What is waited for is what was, or what the current thread has asked for.
  waited :
      (u y : ℕ)
      → member y ((start_wait d r).thread u).wait_objects ≡ true
      → ((u ≡ d.current) × (member y r.objects ≡ true))
        ⊎ (member y (d.thread u).wait_objects ≡ true)
  waited u y m = elim (ℕ_discrete u d.current) [
    | yes e ↦ inl (
      e,
      ap (member y) (sym this_thread)
          ∙ ap (λ k. member y ((start_wait d r).thread k).wait_objects) (sym e)
          ∙ m,
    )
    | no ne ↦ inr (ap (λ (x : Thread). member y x.wait_objects) (sym (other_thread u ne)) ∙ m)
  ]

  pub start_wait-IsDispatcher : IsDispatcher (start_wait d r)
  start_wait-IsDispatcher = record {
    objects = λ y. record {
      limit = ground (arith, same_header y, (v.objects y).limit);
      held = ground (arith, same_header y, (v.objects y).held);
      unowned = ground (arith, same_header y, (v.objects y).unowned);
    };
    queued = queued_after;
    once = λ y.
        by_list Once y
          (λ b e e'.
            Once-tail (d.object y).wait_blocks b (v.once y)
              (ap (λ k. waits_in k (d.object y).wait_blocks) e ∙ not_yet y))
          (v.once y);
    placed = λ y.
        by_list (AllFor y) y (λ b e e'. AllFor-tail y (d.object y).wait_blocks b (v.placed y) e')
          (v.placed y);
    distinct = λ u. elim (ℕ_discrete u d.current) [
      | yes e ↦ rw e (subst Distinct (sym this_thread) dis)
      | no ne ↦
          subst Distinct (sym (ap (λ (x : Thread). x.wait_objects) (other_thread u ne)))
            (v.distinct u)
    ];
    real = λ u y m. elim (waited u y m) [
      | inl (e, m') ↦ (λ z. real (sym e ∙ z))
      | inr m' ↦ v.real u y m'
    ];
    room = λ u y m o. elim (waited u y m) [
      | inl (e, m') ↦ ground (arith, same_header y, room y m', e, o)
      | inr m' ↦ ground (arith, same_header y, v.room u y m', o)
    ];
  }

  -- The thread may start to wait when it cannot have what it asks for.
  pub start_wait-NoLostWakeup :
      NoLostWakeup d
      → (if r.wait_all
          then all_signaled d.object d.current r.objects
          else any_by (λ o. is_object_signaled (d.object o) d.current) r.objects)
        ≡ false
      → NoLostWakeup (start_wait d r)
  start_wait-NoLostWakeup lost stuck u h = elim (ℕ_discrete u d.current) [
    | yes e ↦ rw e (
        ready_by_mono (λ y. is_object_signaled ((start_wait d r).object y) d.current)
          (λ y. is_object_signaled (d.object y) d.current) ((start_wait d r).thread d.current)
          (λ y k. sym (start_wait-is_object_signaled y d.current) ∙ k)
          (ground (arith, stuck, all_signaled_lem d.object d.current r.objects)))
    | no ne ↦
        subst (λ th. ready_by (λ y. is_object_signaled ((start_wait d r).object y) u) th ≡ false)
          (sym (other_thread u ne))
          (ready_by_mono (λ y. is_object_signaled ((start_wait d r).object y) u)
            (λ y. is_object_signaled (d.object y) u) (d.thread u)
            (λ y k. sym (start_wait-is_object_signaled y u) ∙ k)
            (lost u (ap (λ (x : Thread). x.is_waiting) (sym (other_thread u ne)) ∙ h)))
  ]
