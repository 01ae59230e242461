-- ===== src/Ke/Dispatcher/Signal.antt =====
-- `KiWaitTestAndGetWaiter`: who is woken when an object is signaled.
use boron.Prelude.{
  ℕ, ◌+◌, ◌≡◌, ◌≢◌, ◌∙◌, refl, sym, subst, ap, true, false, ◌&&◌, not, ◌==◌, arith, List, [], ◌∷◌,
  some, Bool-cases, ℕ_discrete, inl, inr,
}
use boron.Ke.Dispatcher.{
  WaitBlock, Object, Thread, Dispatcher, member, is_object_signaled, acquired, satisfied_enough,
  wait_test_loop,
}
use boron.Ke.Dispatcher.Objects.{HasRoom}
use boron.Ke.Dispatcher.Invariant.{IsDispatcher, waits_in, Once, AllFor}
use boron.Ke.Dispatcher.Wake.{Woken, Woken-IsDispatcher, Woken-is_object_signaled}
use boron.Ke.Dispatcher.Ready.{
  ready_by, can_run, NoLostWakeup, ready_by_mono, is_open, is_synchronization, enough-closed,
  not_enough-is_open, sync_once,
}
use boron.Ke.Dispatcher.Satisfy.{satisfy_wait_block-Satisfied}

-- The state in the middle of a wait test of `o`, with the blocks `bs` left.
pub record Testing (bs : List WaitBlock) (d : Dispatcher) (o count : ℕ) : Type 0 where
  pub valid : IsDispatcher d
  pub placed : AllFor o bs
  pub once : Once bs
  pub waiting : (t : ℕ) → waits_in t bs ≡ true → member o (d.thread t).wait_objects ≡ true
  pub without :
      (t : ℕ)
      → (d.thread t).is_waiting ≡ true
      → ready_by (λ y. not (y == o) && is_object_signaled (d.object y) t) (d.thread t) ≡ false
  pub tested :
      (t : ℕ) → (d.thread t).is_waiting ≡ true → waits_in t bs ≡ false → can_run d t ≡ false
  pub free : is_open (d.object o) ≡ true
  pub first : is_synchronization (d.object o).kind ≡ true → count ≡ 0

module _ (b : WaitBlock) (bs : List WaitBlock) (d : Dispatcher) (o count : ℕ)
    (s : Testing (b ∷ bs) d o count) (d' : Dispatcher) (os : List ℕ) (mine : member o os ≡ true)
    (within : (y : ℕ) → member y os ≡ true → member y (d.thread b.thread).wait_objects ≡ true)
    (signaled : (y : ℕ) → member y os ≡ true → is_object_signaled (d.object y) b.thread ≡ true)
    (w : Woken d b.thread os d') where
  real : (y : ℕ) → member y os ≡ true → b.thread ≢ 0
  real y m = s.valid.real b.thread y (within y m)

  acquirable : (y : ℕ) → member y os ≡ true → (d.object y).owner ≡ b.thread → HasRoom (d.object y)
  acquirable y m = s.valid.room b.thread y (within y m)

  valid_after : IsDispatcher d'
  valid_after = Woken-IsDispatcher d b.thread os d' s.valid real acquirable signaled w

  other : (t : ℕ) → (d'.thread t).is_waiting ≡ true → t ≢ b.thread
  other t h e = absurd (ground (arith, ap (λ k. (d'.thread k).is_waiting) e, h, w.awake))

  before : (t : ℕ) → (d'.thread t).is_waiting ≡ true → (d.thread t).is_waiting ≡ true
  before t h = ap (λ (x : Thread). x.is_waiting) (sym (w.others t (other t h))) ∙ h

  less :
      (t y : ℕ)
      → t ≢ b.thread
      → is_object_signaled (d'.object y) t ≡ true
      → is_object_signaled (d.object y) t ≡ true
  less t y ne h =
      Woken-is_object_signaled d b.thread os d' s.valid real acquirable signaled w t y ne h

  without_after :
      (t : ℕ)
      → (d'.thread t).is_waiting ≡ true
      → ready_by (λ y. not (y == o) && is_object_signaled (d'.object y) t) (d'.thread t) ≡ false
  without_after t h =
      subst (λ th. ready_by (λ y. not (y == o) && is_object_signaled (d'.object y) t) th ≡ false)
        (sym (w.others t (other t h)))
        (ready_by_mono (λ y. not (y == o) && is_object_signaled (d'.object y) t)
          (λ y. not (y == o) && is_object_signaled (d.object y) t) (d.thread t)
          (λ y k. ground (arith, k, less t y (other t h))) (s.without t (before t h)))

  tested_after :
      (t : ℕ) → (d'.thread t).is_waiting ≡ true → waits_in t bs ≡ false → can_run d' t ≡ false
  tested_after t h out =
      subst (λ th. ready_by (λ y. is_object_signaled (d'.object y) t) th ≡ false)
        (sym (w.others t (other t h)))
        (ready_by_mono (λ y. is_object_signaled (d'.object y) t)
          (λ y. is_object_signaled (d.object y) t) (d.thread t) (λ y k. less t y (other t h) k)
          (s.tested t (before t h) (ground (arith, out, other t h))))

  -- The object itself, but for its list.
  here :
      (λ (x y : Object). (x.kind ≡ y.kind) × (x.signaled ≡ y.signaled) × (x.owner ≡ y.owner))
        (d'.object o)
        (acquired (d.object o) b.thread)
  here = ground (arith, w.object o, mine)

  enough_here :
      satisfied_enough (d'.object o) (count + 1)
      ≡ satisfied_enough (acquired (d.object o) b.thread) (count + 1)
  unfolding satisfied_enough
  enough_here = ground (arith, here)

  stop_after : satisfied_enough (d'.object o) (count + 1) ≡ true → NoLostWakeup d'
  stop_after e t h =
      let closed : is_object_signaled (d'.object o) t ≡ false = ground (
        arith,
        here,
        enough-closed (d.object o) b.thread t (count + 1) (s.valid.objects o) (real o mine)
            (other t h) s.free (sym enough_here ∙ e),
      ) in
      ready_by_mono (λ y. is_object_signaled (d'.object y) t)
        (λ y. not (y == o) && is_object_signaled (d'.object y) t) (d'.thread t)
        (λ y k. elim (ℕ_discrete y o) [
          | yes same ↦
              absurd (ground (arith, ap (λ z. is_object_signaled (d'.object z) t) same, closed, k))
          | no ne ↦ ground (arith, ne, k)
        ])
        (without_after t h)

  go_on : satisfied_enough (d'.object o) (count + 1) ≡ false → Testing bs d' o (count + 1)
  go_on e =
      let few = sym enough_here ∙ e in
      record {
        valid = valid_after;
        placed = s.placed.1;
        once = s.once.1;
        waiting = λ t m.
            ap (λ (x : Thread). member o x.wait_objects) (w.others t (not_again t m))
            ∙ s.waiting t (ground (arith, m));
        without = without_after;
        tested = tested_after;
        free = ground (
          arith,
          here,
          not_enough-is_open (d.object o) b.thread (count + 1) (s.valid.objects o)
              (λ k. omega (arith, s.first k)) s.free few,
        );
        first = λ k.
            absurd
              (sync_once (d.object o) b.thread count (same_kind k) few (s.first (same_kind k)));
      }
    where
      same_kind :
          is_synchronization (d'.object o).kind ≡ true → is_synchronization (d.object o).kind ≡ true
      same_kind k = ground (arith, here, k)

      not_again : (t : ℕ) → waits_in t bs ≡ true → t ≢ b.thread
      not_again t m same = absurd (ground (arith, ap (λ k. waits_in k bs) same, m, s.once.0))

Woken-kind :
    (d : Dispatcher) (t : ℕ) (os : List ℕ) (d' : Dispatcher)
    → Woken d t os d'
    → (y : ℕ) → (d'.object y).kind ≡ (d.object y).kind
Woken-kind d t os d' w y = ap (λ (x : Object). x.kind) (w.object y) ∙ ground arith

skip :
    (b : WaitBlock) (bs : List WaitBlock) (d : Dispatcher) (o count : ℕ)
    → Testing (b ∷ bs) d o count
    → can_run d b.thread ≡ false
    → Testing bs d o count
skip b bs d o count s stuck = record {
  valid = s.valid;
  placed = s.placed.1;
  once = s.once.1;
  waiting = λ t m. s.waiting t (ground (arith, m));
  without = s.without;
  tested = λ t h out. elim (ℕ_discrete t b.thread) [
    | yes e ↦ ap (can_run d) e ∙ stuck
    | no ne ↦ s.tested t h (ground (arith, out, ne))
  ];
  free = s.free;
  first = s.first;
}

pub wait_test_loop-NoLostWakeup :
    (bs : List WaitBlock) (d : Dispatcher) (o increment count result : ℕ)
    → Testing bs d o count
    → (r : ℕ) × (d' : Dispatcher) × (wait_test_loop bs d o increment count result ≡ some (r, d'))
      × IsDispatcher d'
      × NoLostWakeup d'
      × ((y : ℕ) → (d'.object y).kind ≡ (d.object y).kind)
unfolding wait_test_loop
wait_test_loop-NoLostWakeup [] d o increment count result s =
    (result, d, refl, s.valid, (λ t h. s.tested t h refl), λ y. refl)
wait_test_loop-NoLostWakeup (b ∷ bs) d o increment count result s =
    elim (satisfy_wait_block-Satisfied d b o increment s.valid s.placed.0
      (s.waiting b.thread (ground arith)) s.free) [
        | inl (d', os, run, mine, within, signaled, w) ↦
            elim (Bool-cases (satisfied_enough (d'.object o) (count + 1))) [
              | inl enough ↦ (
                b.thread,
                d',
                rw (wait_test_loop, run, enough) refl,
                valid_after b bs d o count s d' os mine within signaled w,
                stop_after b bs d o count s d' os mine within signaled w enough,
                λ y. Woken-kind d b.thread os d' w y,
              )
              | inr few ↦
                  let (r, d2, run2, valid, woken, kinds) =
                    wait_test_loop-NoLostWakeup bs d' o increment (count + 1) b.thread
                      (go_on b bs d o count s d' os mine within signaled w few) in
                  (
                    r,
                    d2,
                    rw (wait_test_loop, run, few) run2,
                    valid,
                    woken,
                    λ y. kinds y ∙ Woken-kind d b.thread os d' w y,
                  )
            ]
        | inr (run, stuck) ↦
            let (r, d2, run2, valid, woken, kinds) =
              wait_test_loop-NoLostWakeup bs d o increment count result
                (skip b bs d o count s stuck) in
            (r, d2, rw (wait_test_loop, run) run2, valid, woken, kinds)
      ]
