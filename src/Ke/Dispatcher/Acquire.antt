-- ===== src/Ke/Dispatcher/Acquire.antt =====
-- `KiAcquireObject` on one object and on several.
use boron.Prelude.{
  ℕ, ◌≡◌, ◌≢◌, ◌∙◌, refl, ap, true, false, arith, List, [], ◌∷◌, if◌then◌else◌, some, ℕ_discrete,
}
use boron.Ke.Dispatcher.{
  Object, Dispatcher, member, acquired, owned_by_other, acquire_object, acquire_all, take_object,
}
use boron.Ke.Dispatcher.Invariant.{Distinct}

-- The objects after `t` has acquired those of `os`.
abbrev pub grab : ℕ → List ℕ → (ℕ → Object) → ℕ → Object
grab t os object o = if member o os then acquired (object o) t else object o

member-ne : (x y : ℕ) (ys : List ℕ) → member x ys ≡ false → member y ys ≡ true → y ≢ x
member-ne x y ys out is e = absurd (ground (arith, ap (λ z. member z ys) e, out, is))

pub acquire_object_lem :
    (d : Dispatcher) (o t : ℕ)
    → owned_by_other (d.object o) t ≡ false
    → (acquire_object d o t ≡ some (take_object d o t))
      × ((y : ℕ) → (take_object d o t).object y ≡ grab t (o ∷ []) d.object y)
unfolding acquire_object
acquire_object_lem d o t h = (
  rw h refl,
  λ y. elim (ℕ_discrete y o) [ yes e ↦ rw e (ground arith) | no ne ↦ ground (arith, ne) ],
)

grab_other : (t o : ℕ) (object : ℕ → Object) (y : ℕ) → y ≢ o → grab t (o ∷ []) object y ≡ object y
grab_other t o object y ne = ground (arith, ne)

grab-grab :
    (t o : ℕ) (os : List ℕ) (object object' object'' : ℕ → Object) (y : ℕ)
    → member o os ≡ false
    → object' y ≡ grab t (o ∷ []) object y
    → object'' y ≡ grab t os object' y
    → object'' y ≡ grab t (o ∷ os) object y
grab-grab t o os object object' object'' y new e e' = elim (ℕ_discrete y o) [
  | yes same ↦
      let out : member y os ≡ false = ap (λ z. member z os) same ∙ new in
      ground (arith, e, e', out, same)
  | no ne ↦ ground (arith, e, e', ne)
]

acquire_all_cons :
    (d : Dispatcher) (o : ℕ) (os : List ℕ) (t : ℕ) (d1 : Dispatcher)
    → acquire_object d o t ≡ some d1
    → acquire_all d (o ∷ os) t ≡ acquire_all d1 os t
unfolding acquire_all
acquire_all_cons d o os t d1 e = rw (acquire_all, e) refl

pub acquire_all_lem :
    (d : Dispatcher) (os : List ℕ) (t : ℕ)
    → Distinct os
    → ((o : ℕ) → member o os ≡ true → owned_by_other (d.object o) t ≡ false)
    → (d' : Dispatcher) × (acquire_all d os t ≡ some d')
      × (d'.thread ≡ d.thread)
      × ((y : ℕ) → d'.object y ≡ grab t os d.object y)
unfolding acquire_all
acquire_all_lem d [] t dis h = (d, refl, refl, λ y. refl)
acquire_all_lem d (o ∷ os) t dis h =
    let d1 = take_object d o t in
    let first = acquire_object_lem d o t (h o (ground arith)) in
    let kept : (y : ℕ) → member y os ≡ true → owned_by_other (d1.object y) t ≡ false = λ y m.
      ap (λ x. owned_by_other x t)
        (first.1 y ∙ grab_other t o d.object y (member-ne o y os dis.0 m))
      ∙ h y (ground (arith, m)) in
    let (d2, run, threads, objects) = acquire_all_lem d1 os t dis.1 kept in
    (
      d2,
      acquire_all_cons d o os t d1 first.0 ∙ run,
      threads,
      λ y. grab-grab t o os d.object d1.object d2.object y dis.0 (first.1 y) (objects y),
    )
