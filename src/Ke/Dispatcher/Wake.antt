-- ===== src/Ke/Dispatcher/Wake.antt =====
-- `KiUnwaitThread`: what it means to wake one thread, and that the invariant is kept.
use boron.Prelude.{
  ℕ, ◌≡◌, ◌≢◌, ◌∙◌, refl, sym, subst, ap, true, false, ◌==◌, arith, List, [], ◌∷◌, if◌then◌else◌,
  Bool-cases, ℕ_discrete, inl, inr,
}
use boron.Ke.Dispatcher.{
  WaitBlock, Object, Thread, Dispatcher, member, is_object_signaled, remove_thread, leave_queues,
  unwait_thread,
}
use boron.Prelude.Status.{Bstatus}
use boron.Ke.Dispatcher.Objects.{IsObject, HasRoom, acquired-IsObject, acquired-others}
use boron.Ke.Dispatcher.Invariant.{waits_in, Once, AllFor, Distinct, IsDispatcher}
use boron.Ke.Dispatcher.Acquire.{grab}

remove_thread-other :
    (t u : ℕ) (bs : List WaitBlock) → u ≢ t → waits_in u (remove_thread t bs) ≡ waits_in u bs
remove_thread-other t u [] ne = refl
remove_thread-other t u (b ∷ bs) ne = ground (arith, remove_thread-other t u bs ne)

remove_thread_self : (t : ℕ) (bs : List WaitBlock) → waits_in t (remove_thread t bs) ≡ false
remove_thread_self t [] = refl
remove_thread_self t (b ∷ bs) = ground (arith, remove_thread_self t bs)

remove_thread-waits_in :
    (t u : ℕ) (bs : List WaitBlock)
    → waits_in u bs ≡ false
    → waits_in u (remove_thread t bs) ≡ false
remove_thread-waits_in t u [] h = refl
remove_thread-waits_in t u (b ∷ bs) h = ground (arith, h, remove_thread-waits_in t u bs)

remove_thread-Once : (t : ℕ) (bs : List WaitBlock) → Once bs → Once (remove_thread t bs)
remove_thread-Once t [] h = tt
remove_thread-Once t (b ∷ bs) h = elim (Bool-cases (b.thread == t)) [
  | inl e ↦ rw e (remove_thread-Once t bs h.1)
  | inr ne ↦ rw ne (remove_thread-waits_in t b.thread bs h.0, remove_thread-Once t bs h.1)
]

remove_thread-AllFor : (t o : ℕ) (bs : List WaitBlock) → AllFor o bs → AllFor o (remove_thread t bs)
remove_thread-AllFor t o [] h = tt
remove_thread-AllFor t o (b ∷ bs) h = elim (Bool-cases (b.thread == t)) [
  | inl e ↦ rw e (remove_thread-AllFor t o bs h.1)
  | inr ne ↦ rw ne (h.0, remove_thread-AllFor t o bs h.1)
]

-- `t` has acquired the objects of `os` and waits for nothing; no other thread has changed.
pub record Woken (d : Dispatcher) (t : ℕ) (os : List ℕ) (d' : Dispatcher) : Type 0 where
  pub others : (u : ℕ) → u ≢ t → d'.thread u ≡ d.thread u
  pub awake : (d'.thread t).is_waiting ≡ false
  pub gone : (d'.thread t).wait_objects ≡ []
  pub object :
      (o : ℕ) → d'.object o ≡ leave_queues t (d.thread t).wait_objects (grab t os d.object) o

leave_queues_ext :
    (t : ℕ) (os os' : List ℕ) (f g : ℕ → Object) (o : ℕ)
    → os ≡ os'
    → f o ≡ g o
    → leave_queues t os f o ≡ leave_queues t os' g o
leave_queues_ext t os os' f g o e h = ground (arith, ap (member o) e, h)

leave_queues-IsObject :
    (t : ℕ) (os : List ℕ) (f : ℕ → Object) (o : ℕ)
    → IsObject (f o)
    → IsObject (leave_queues t os f o)
leave_queues-IsObject t os f o v = record {
  limit = ground (arith, v.limit);
  held = ground (arith, v.held);
  unowned = ground (arith, v.unowned);
}

pub unwait_thread-Woken :
    (d d1 : Dispatcher) (t : ℕ) (os : List ℕ) (status : Bstatus) (increment : ℕ)
    → d1.thread ≡ d.thread
    → ((y : ℕ) → d1.object y ≡ grab t os d.object y)
    → Woken d t os (unwait_thread d1 t status increment)
unfolding unwait_thread
unwait_thread-Woken d d1 t os status increment threads objects = record {
  others = λ u ne. ground (arith, ne, ap (λ (f : ℕ → Thread). f u) threads);
  awake = ground arith;
  gone = ground arith;
  object = λ o.
      leave_queues_ext t (d1.thread t).wait_objects (d.thread t).wait_objects d1.object
        (grab t os d.object) o (ap (λ (f : ℕ → Thread). (f t).wait_objects) threads) (objects o);
}

module _ (d : Dispatcher) (t : ℕ) (os : List ℕ) (d' : Dispatcher) (v : IsDispatcher d)
    (real : (o : ℕ) → member o os ≡ true → t ≢ 0)
    (acquirable : (o : ℕ) → member o os ≡ true → (d.object o).owner ≡ t → HasRoom (d.object o))
    (free : (o : ℕ) → member o os ≡ true → is_object_signaled (d.object o) t ≡ true)
    (w : Woken d t os d') where
  -- No object becomes free for another thread.
  pub Woken-is_object_signaled :
      (u o : ℕ)
      → u ≢ t
      → is_object_signaled (d'.object o) u ≡ true
      → is_object_signaled (d.object o) u ≡ true
  Woken-is_object_signaled u o ne h =
      let h' : is_object_signaled (leave_queues t (d.thread t).wait_objects (grab t os d.object) o)
            u
          ≡ true =
        subst (λ x. is_object_signaled x u ≡ true) (w.object o) h in
      elim (Bool-cases (member o os)) [
        | inl m ↦
            acquired-others (d.object o) t u (v.objects o) ne (free o m) (acquirable o m)
              (ground (arith, h', m))
        | inr m ↦ ground (arith, h', m)
      ]

  grab-IsObject : (o : ℕ) → IsObject (grab t os d.object o)
  grab-IsObject o = elim (Bool-cases (member o os)) [
    | inl m ↦
        rw m (acquired-IsObject (d.object o) t (v.objects o) (real o m) (free o m) (acquirable o m))
    | inr m ↦ rw m (v.objects o)
  ]

  blocks :
      (o : ℕ)
      → (d'.object o).wait_blocks ≡ (
          if member o (d.thread t).wait_objects
          then remove_thread t (d.object o).wait_blocks
          else (d.object o).wait_blocks)
  blocks o = ap (λ (x : Object). x.wait_blocks) (w.object o) ∙ ground arith

  Woken-queued :
      (o u : ℕ) → waits_in u (d'.object o).wait_blocks ≡ member o (d'.thread u).wait_objects
  Woken-queued o u = elim (ℕ_discrete u t) [
    | yes e ↦ rw e (
        ground
          (arith, blocks o, w.gone, v.queued o t, remove_thread_self t (d.object o).wait_blocks))
    | no ne ↦ ground (
      arith,
      blocks o,
      w.others u ne,
      v.queued o u,
      remove_thread-other t u (d.object o).wait_blocks ne,
    )
  ]

  -- What still waits is another thread, and it has waited before.
  still :
      (u o : ℕ)
      → member o (d'.thread u).wait_objects ≡ true
      → (u ≢ t) × (member o (d.thread u).wait_objects ≡ true)
  still u o m = elim (ℕ_discrete u t) [
    | yes e ↦
        absurd
          (ground (arith, ap (λ k. member o (d'.thread k).wait_objects) e, ap (member o) w.gone, m))
    | no ne ↦ (ne, ap (λ (x : Thread). member o x.wait_objects) (sym (w.others u ne)) ∙ m)
  ]

  Woken-HasRoom :
      (u o : ℕ)
      → u ≢ t
      → member o (d.thread u).wait_objects ≡ true
      → (d'.object o).owner ≡ u
      → HasRoom (d'.object o)
  Woken-HasRoom u o ne m e =
      let signaled = ap (λ (x : Object). x.signaled) (w.object o) in
      let owner = ap (λ (x : Object). x.owner) (w.object o) in
      elim (Bool-cases (member o os)) [
        | inl mine ↦ ground (
          arith,
          signaled,
          owner,
          mine,
          e,
          ne,
          v.room u o m,
          free o mine,
          (v.objects o).limit,
          (v.objects o).held,
        )
        | inr not_mine ↦ ground (arith, signaled, owner, not_mine, e, v.room u o m)
      ]

  pub Woken-IsDispatcher : IsDispatcher d'
  Woken-IsDispatcher = record {
    objects = λ o. subst IsObject (sym (w.object o)) (
        leave_queues-IsObject t (d.thread t).wait_objects (grab t os d.object) o (grab-IsObject o));
    queued = Woken-queued;
    once = λ o. elim (Bool-cases (member o (d.thread t).wait_objects)) [
      | inl m ↦
          subst Once (sym (ground (arith, blocks o, m)))
            (remove_thread-Once t (d.object o).wait_blocks (v.once o))
      | inr m ↦ subst Once (sym (ground (arith, blocks o, m))) (v.once o)
    ];
    placed = λ o. elim (Bool-cases (member o (d.thread t).wait_objects)) [
      | inl m ↦
          subst (AllFor o) (sym (ground (arith, blocks o, m)))
            (remove_thread-AllFor t o (d.object o).wait_blocks (v.placed o))
      | inr m ↦ subst (AllFor o) (sym (ground (arith, blocks o, m))) (v.placed o)
    ];
    distinct = λ u. elim (ℕ_discrete u t) [
      | yes e ↦ rw e (subst Distinct (sym w.gone) tt)
      | no ne ↦
          subst Distinct (sym (ap (λ (x : Thread). x.wait_objects) (w.others u ne))) (v.distinct u)
    ];
    real = λ u o m. v.real u o (still u o m).1;
    room = λ u o m e. Woken-HasRoom u o (still u o m).0 (still u o m).1 e;
  }
