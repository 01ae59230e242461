-- ===== src/Ke/Dispatcher/Change.antt =====
-- One object gets another state: when the invariant is kept, and what a wait test then does.
use boron.Prelude.{
  ℕ, ◌≡◌, ◌≢◌, ◌∙◌, refl, sym, subst, ap, true, false, ◌&&◌, not, ◌==◌, arith, Option, some,
  ℕ_discrete,
}
use boron.Ke.Dispatcher.{Object, Thread, Dispatcher, update, member, is_object_signaled, wait_test}
use boron.Ke.Dispatcher.Objects.{IsObject, HasRoom}
use boron.Ke.Dispatcher.Invariant.{IsDispatcher, Once, AllFor, Distinct, waits_in}
use boron.Ke.Dispatcher.Ready.{ready_by, NoLostWakeup, ready_by_mono, ready_by_without, is_open}
use boron.Ke.Dispatcher.Signal.{wait_test_loop-NoLostWakeup}

-- The operation ends, with the invariant kept, no wake-up lost, and every object of its kind.
abbrev pub Serves : Dispatcher → Option (ℕ × Dispatcher) → Type 0
Serves d r =
    (t : ℕ) × (d' : Dispatcher) × (r ≡ some (t, d'))
    × IsDispatcher d'
    × NoLostWakeup d'
    × ((y : ℕ) → (d'.object y).kind ≡ (d.object y).kind)

-- `o` has become `x`, with the same list.
module _ (d d0 : Dispatcher) (o : ℕ) (x : Object) (v : IsDispatcher d)
    (threads : d0.thread ≡ d.thread) (objects : (y : ℕ) → d0.object y ≡ update d.object o x y)
    (same : x.wait_blocks ≡ (d.object o).wait_blocks) (same_kind : x.kind ≡ (d.object o).kind)
    (fine : IsObject x) (room : (t : ℕ) → t ≢ 0 → x.owner ≡ t → HasRoom x) where
  changed : d0.object o ≡ x
  changed = objects o ∙ ground arith

  kept : (y : ℕ) → y ≢ o → d0.object y ≡ d.object y
  kept y ne = objects y ∙ ground (arith, ne)

  blocks : (y : ℕ) → (d0.object y).wait_blocks ≡ (d.object y).wait_blocks
  blocks y = elim (ℕ_discrete y o) [
    | yes e ↦ rw e (ap (λ (z : Object). z.wait_blocks) changed ∙ same)
    | no ne ↦ ap (λ (z : Object). z.wait_blocks) (kept y ne)
  ]

  kinds : (y : ℕ) → (d0.object y).kind ≡ (d.object y).kind
  kinds y = elim (ℕ_discrete y o) [
    | yes e ↦ rw e (ap (λ (z : Object). z.kind) changed ∙ same_kind)
    | no ne ↦ ap (λ (z : Object). z.kind) (kept y ne)
  ]

  waits : (t : ℕ) → (d0.thread t).wait_objects ≡ (d.thread t).wait_objects
  waits t = ap (λ (f : ℕ → Thread). (f t).wait_objects) threads

  before :
      (t y : ℕ)
      → member y (d0.thread t).wait_objects ≡ true
      → member y (d.thread t).wait_objects ≡ true
  before t y m = ap (member y) (sym (waits t)) ∙ m

  pub set_object-IsDispatcher : IsDispatcher d0
  set_object-IsDispatcher = record {
    objects = λ y. elim (ℕ_discrete y o) [
      | yes e ↦ rw e (subst IsObject (sym changed) fine)
      | no ne ↦ subst IsObject (sym (kept y ne)) (v.objects y)
    ];
    queued = λ y t. ap (waits_in t) (blocks y) ∙ v.queued y t ∙ ap (member y) (sym (waits t));
    once = λ y. subst Once (sym (blocks y)) (v.once y);
    placed = λ y. subst (AllFor y) (sym (blocks y)) (v.placed y);
    distinct = λ t. subst Distinct (sym (waits t)) (v.distinct t);
    real = λ t y m. v.real t y (before t y m);
    room = λ t y m e. elim (ℕ_discrete y o) [
      | yes q ↦ rw q (
          subst HasRoom (sym changed) (
            room t (v.real t y (before t y m)) (
              ap (λ (z : Object). z.owner) (sym changed)
              ∙ ap (λ z. (d0.object z).owner) (sym q)
              ∙ e)))
      | no ne ↦
          subst HasRoom (sym (kept y ne))
            (v.room t y (before t y m) (ap (λ (z : Object). z.owner) (sym (kept y ne)) ∙ e))
    ];
  }

  waiting_before : (t : ℕ) → (d0.thread t).is_waiting ≡ true → (d.thread t).is_waiting ≡ true
  waiting_before t h = ap (λ (f : ℕ → Thread). (f t).is_waiting) (sym threads) ∙ h

  -- Nobody could have what it waits for without `o`.
  without_changed :
      NoLostWakeup d
      → (t : ℕ) → (d0.thread t).is_waiting ≡ true
      → ready_by (λ y. not (y == o) && is_object_signaled (d0.object y) t) (d0.thread t) ≡ false
  without_changed lost t h =
      subst (λ f. ready_by (λ y. not (y == o) && is_object_signaled (d0.object y) t) (f t) ≡ false)
        (sym threads)
        (ready_by_mono (λ y. not (y == o) && is_object_signaled (d0.object y) t)
          (λ y. is_object_signaled (d.object y) t) (d.thread t)
          (λ y k. elim (ℕ_discrete y o) [
            | yes e ↦ absurd (ground (arith, k, e))
            | no ne ↦ ap (λ z. is_object_signaled z t) (sym (kept y ne)) ∙ ground (arith, k, ne)
          ])
          (lost t (waiting_before t h)))

  pub wait_test-Serves :
      (increment : ℕ) → NoLostWakeup d → is_open x ≡ true → Serves d (wait_test d0 o increment)
  unfolding wait_test
  wait_test-Serves increment lost free =
      let v0 = set_object-IsDispatcher in
      let (r, d', run, valid, woken, kept_kinds) =
        wait_test_loop-NoLostWakeup (d0.object o).wait_blocks d0 o increment 0 0 (record {
          valid = v0;
          placed = v0.placed o;
          once = v0.once o;
          waiting = λ t m. sym (v0.queued o t) ∙ m;
          without = without_changed lost;
          tested = λ t h out.
              sym (
                ready_by_without o (λ y. is_object_signaled (d0.object y) t) (d0.thread t)
                  (sym (v0.queued o t) ∙ out))
              ∙ without_changed lost t h;
          free = ap is_open changed ∙ free;
          first = λ k. refl;
        }) in
      (r, d', run, valid, woken, λ y. kept_kinds y ∙ kinds y)

  -- An object that is not free for more threads than before.
  pub lower-NoLostWakeup :
      NoLostWakeup d
      → ((t : ℕ) → is_object_signaled x t ≡ true → is_object_signaled (d.object o) t ≡ true)
      → NoLostWakeup d0
  lower-NoLostWakeup lost less t h =
      subst (λ f. ready_by (λ y. is_object_signaled (d0.object y) t) (f t) ≡ false) (sym threads)
        (ready_by_mono (λ y. is_object_signaled (d0.object y) t)
          (λ y. is_object_signaled (d.object y) t) (d.thread t)
          (λ y k. elim (ℕ_discrete y o) [
            | yes e ↦
                ap (λ z. is_object_signaled (d.object z) t) e
                ∙ less t (
                    ap (λ z. is_object_signaled z t) (sym changed)
                    ∙ ap (λ z. is_object_signaled (d0.object z) t) (sym e)
                    ∙ k)
            | no ne ↦ ap (λ z. is_object_signaled z t) (sym (kept y ne)) ∙ k
          ])
          (lost t (waiting_before t h)))
