-- ===== src/Ke/Dispatcher/Enqueue.antt =====
-- What `KeWaitForMultipleObjects` looks for and where it puts the wait blocks.
use boron.Prelude.{
  ℕ, suc, ◌≡◌, ◌≢◌, ◌∙◌, ◌⊎◌, refl, sym, subst, ap, Bool, true, false, ◌&&◌, ◌||◌, ◌==◌, arith,
  List, [], ◌∷◌, ◌++◌, if◌then◌else◌, some, none, Bool-cases, ℕ_discrete, inl, inr,
}
use boron.Ke.Dispatcher.{WaitBlock, Object, Thread, Dispatcher, update, member, is_object_signaled}
use boron.Ke.Dispatcher.Objects.{HasRoom}
use boron.Ke.Dispatcher.Invariant.{IsDispatcher, waits_in, Once, AllFor, Distinct}
use boron.Ke.Dispatcher.Wake.{Woken, Woken-is_object_signaled}
use boron.Ke.Dispatcher.Ready.{any_by, ready_by, NoLostWakeup, ready_by_mono}
use boron.Ke.Dispatcher.Wait.{first_signaled, enqueue_blocks}

-- A thread that is taken out of its wait takes nothing that another could have.
pub Woken-NoLostWakeup :
    (d : Dispatcher) (t : ℕ) (os : List ℕ) (d' : Dispatcher)
    → IsDispatcher d
    → ((o : ℕ) → member o os ≡ true → t ≢ 0)
    → ((o : ℕ) → member o os ≡ true → (d.object o).owner ≡ t → HasRoom (d.object o))
    → ((o : ℕ) → member o os ≡ true → is_object_signaled (d.object o) t ≡ true)
    → Woken d t os d'
    → NoLostWakeup d
    → NoLostWakeup d'
Woken-NoLostWakeup d t os d' v real acquirable free w lost u h = elim (ℕ_discrete u t) [
  | yes e ↦ absurd (ground (arith, ap (λ k. (d'.thread k).is_waiting) e, h, w.awake))
  | no ne ↦
      subst (λ th. ready_by (λ y. is_object_signaled (d'.object y) u) th ≡ false)
        (sym (w.others u ne))
        (ready_by_mono (λ y. is_object_signaled (d'.object y) u)
          (λ y. is_object_signaled (d.object y) u) (d.thread u)
          (λ y k. Woken-is_object_signaled d t os d' v real acquirable free w u y ne k)
          (lost u (ap (λ (x : Thread). x.is_waiting) (sym (w.others u ne)) ∙ h)))
]

-- The first object that is free, or that none is.
pub first_signaled_lem :
    (object : ℕ → Object) (t : ℕ) (os : List ℕ) (i : ℕ)
    → ((k : ℕ) × (o : ℕ) × (first_signaled object t os i ≡ some (k, o))
        × (member o os ≡ true)
        × (is_object_signaled (object o) t ≡ true))
      ⊎ ((first_signaled object t os i ≡ none)
          × (any_by (λ o. is_object_signaled (object o) t) os ≡ false))
first_signaled_lem object t [] i = inr (refl, refl)
first_signaled_lem object t (o ∷ os) i = elim (Bool-cases (is_object_signaled (object o) t)) [
  | inl yes' ↦ inl (i, o, rw yes' refl, ground arith, yes')
  | inr no' ↦ elim (first_signaled_lem object t os (suc i)) [
    | inl (k, o', e, m, s) ↦ inl (k, o', rw (no', e) refl, ground (arith, m), s)
    | inr (e, f) ↦ inr (rw (no', e) refl, rw (no', f) refl)
  ]
]

-- An object with a block of `t` at the tail of its list.
abbrev pub queue : Object → ℕ → ℕ → ℕ → Object
queue x t o i = record x {
  wait_blocks = x.wait_blocks ++ ((record { thread = t; object = o; index = i }) ∷ []);
}

pub enqueue_blocks_lem :
    (t : ℕ) (os : List ℕ) (i : ℕ) (object : ℕ → Object) (y : ℕ)
    → Distinct os
    → (k : ℕ) × (enqueue_blocks t os i object y
        ≡ (if member y os then queue (object y) t y k else object y))
enqueue_blocks_lem t [] i object y dis = (0, refl)
enqueue_blocks_lem t (o ∷ os) i object y dis =
    let object' = update object o (queue (object o) t o i) in
    let (k, e) = enqueue_blocks_lem t os (suc i) object' y dis.1 in
    elim (ℕ_discrete y o) [
      | yes same ↦ (
        i,
        e
            ∙ subst
                (λ z.
                  (if member z os then queue (object' z) t z k else object' z)
                  ≡ (if member z (o ∷ os) then queue (object z) t z i else object z))
                (sym same) (ground (arith, dis.0)),
      )
      | no ne ↦ (k, e ∙ ground (arith, ne))
    ]

waits_in_tail :
    (u : ℕ) (bs : List WaitBlock) (b : WaitBlock)
    → waits_in u (bs ++ (b ∷ [])) ≡ (waits_in u bs || b.thread == u)
waits_in_tail u [] b = ground arith
waits_in_tail u (c ∷ bs) b = ground (arith, waits_in_tail u bs b)

pub waits_in-queue :
    (m : Bool) (x : Object) (u t o k : ℕ)
    → waits_in u (if m then queue x t o k else x).wait_blocks
      ≡ (waits_in u x.wait_blocks || (m && t == u))
waits_in-queue true x u t o k =
    waits_in_tail u x.wait_blocks (record { thread = t; object = o; index = k })
waits_in-queue false x u t o k = ground (arith)

pub Once-tail :
    (bs : List WaitBlock) (b : WaitBlock)
    → Once bs
    → waits_in b.thread bs ≡ false
    → Once (bs ++ (b ∷ []))
Once-tail [] b h out = (refl, tt)
Once-tail (c ∷ bs) b h out = (
  ground (arith, waits_in_tail c.thread bs b, h.0, out),
  Once-tail bs b h.1 (ground (arith, out)),
)

pub AllFor-tail :
    (o : ℕ) (bs : List WaitBlock) (b : WaitBlock)
    → AllFor o bs
    → b.object ≡ o
    → AllFor o (bs ++ (b ∷ []))
AllFor-tail o [] b h e = (e, tt)
AllFor-tail o (c ∷ bs) b h e = (h.0, AllFor-tail o bs b h.1 e)
