-- ===== src/Ke/Dispatcher/Satisfy.antt =====
-- `KiSatisfyWaitBlock`: what a wait block comes to.
use boron.Prelude.{
  ℕ, ◌≡◌, ◌⊎◌, ◌∙◌, refl, ap, Bool, true, false, arith, List, [], ◌∷◌, Option, some, Bool-cases,
  inl, inr,
}
use boron.Prelude.Status.{success, range_wait}
use boron.Ke.Dispatcher.{
  WaitBlock, Dispatcher, member, is_object_signaled, acquire_object, all_signaled, unwait_thread,
  take_object, satisfy_wait_block,
}
use boron.Ke.Dispatcher.Objects.{signaled-owned_by_other}
use boron.Ke.Dispatcher.Invariant.{IsDispatcher}
use boron.Ke.Dispatcher.Wake.{Woken, unwait_thread-Woken}
use boron.Ke.Dispatcher.Acquire.{acquire_object_lem, acquire_all_lem}
use boron.Ke.Dispatcher.Ready.{
  can_run, all_signaled_lem, all_signaled-member, is_open, is_open-is_object_signaled,
}

-- What a wait block comes to: its thread is woken with the object, or waits for all and cannot have all.
abbrev pub Satisfied : Dispatcher → WaitBlock → ℕ → Option (Bool × Dispatcher) → Type 0
Satisfied d b o r =
    ((d' : Dispatcher) × (os : List ℕ) × (r ≡ some (true, d'))
      × (member o os ≡ true)
      × ((y : ℕ) → member y os ≡ true → member y (d.thread b.thread).wait_objects ≡ true)
      × ((y : ℕ) → member y os ≡ true → is_object_signaled (d.object y) b.thread ≡ true)
      × Woken d b.thread os d')
    ⊎ ((r ≡ some (false, d)) × (can_run d b.thread ≡ false))

pub satisfy_any :
    (d : Dispatcher) (b : WaitBlock) (increment : ℕ) (d1 : Dispatcher)
    → (d.thread b.thread).wait_all ≡ false
    → acquire_object d b.object b.thread ≡ some d1
    → satisfy_wait_block d b increment
      ≡ some (true, unwait_thread d1 b.thread (range_wait b.index) increment)
unfolding satisfy_wait_block
satisfy_any d b increment d1 any run = rw (satisfy_wait_block, any, run) refl

pub satisfy_wait_block-Satisfied :
    (d : Dispatcher) (b : WaitBlock) (o increment : ℕ)
    → IsDispatcher d
    → b.object ≡ o
    → member o (d.thread b.thread).wait_objects ≡ true
    → is_open (d.object o) ≡ true
    → Satisfied d b o (satisfy_wait_block d b increment)
unfolding satisfy_wait_block
satisfy_wait_block-Satisfied d b o increment v place m free =
    let t = b.thread in
    let os = (d.thread t).wait_objects in
    elim (Bool-cases (d.thread t).wait_all) [
      | inl all ↦ elim (Bool-cases (all_signaled d.object t os)) [
        | inl got ↦
            let mine : (y : ℕ) → member y os ≡ true → is_object_signaled (d.object y) t ≡ true =
              λ y h. all_signaled-member d.object t os y got h in
            let (d1, run, threads, objects) =
              acquire_all_lem d os t (v.distinct t)
                (λ y h. signaled-owned_by_other (d.object y) t (v.objects y) (mine y h)) in
            inl (
              unwait_thread d1 t success increment,
              os,
              rw (satisfy_wait_block, all, got, run) refl,
              m,
              (λ y h. h),
              mine,
              unwait_thread-Woken d d1 t os success increment threads objects,
            )
        | inr missing ↦ inr (
          rw (satisfy_wait_block, all, missing) refl,
          ground (arith, all, all_signaled_lem d.object t os, missing),
        )
      ]
      | inr any ↦
          let d1 = take_object d b.object t in
          let mine : is_object_signaled (d.object b.object) t ≡ true =
            is_open-is_object_signaled (d.object b.object) t
              (ap (λ y. is_open (d.object y)) place ∙ free) in
          let first =
            acquire_object_lem d b.object t
              (signaled-owned_by_other (d.object b.object) t (v.objects b.object) mine) in
          inl (
            unwait_thread d1 t (range_wait b.index) increment,
            b.object ∷ [],
            satisfy_any d b increment d1 any first.0,
            ground (arith, place),
            (λ y h. ap (λ z. member z os) (only y b.object h ∙ place) ∙ m),
            (λ y h. ap (λ z. is_object_signaled (d.object z) t) (only y b.object h) ∙ mine),
            unwait_thread-Woken d d1 t (b.object ∷ []) (range_wait b.index) increment refl first.1,
          )
    ]
  where
    only : (y z : ℕ) → member y (z ∷ []) ≡ true → y ≡ z
    only y z h = ground (arith, h)
