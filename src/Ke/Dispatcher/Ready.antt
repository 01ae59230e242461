-- ===== src/Ke/Dispatcher/Ready.antt =====
-- When a thread could have what it waits for, and when an object is free for all.
use boron.Prelude.{
  ℕ, ◌+◌, ◌≡◌, ◌≢◌, ◌∙◌, refl, ap, Bool, true, false, ◌&&◌, ◌||◌, not, ◌==◌, arith, List, [], ◌∷◌,
  if◌then◌else◌, ℕ_discrete,
}
use boron.Ke.Dispatcher.{
  Kind, synchronization_event, mutex, Object, Thread, Dispatcher, member, is_object_signaled,
  acquired, all_signaled, satisfied_enough,
}
use boron.Ke.Dispatcher.Objects.{IsObject}

abbrev pub all_by : (ℕ → Bool) → List ℕ → Bool
all_by s [] = true
all_by s (x ∷ xs) = s x && all_by s xs

abbrev pub any_by : (ℕ → Bool) → List ℕ → Bool
any_by s [] = false
any_by s (x ∷ xs) = s x || any_by s xs

-- Whether a thread could have what it waits for, by what is free.
abbrev pub ready_by : (ℕ → Bool) → Thread → Bool
ready_by s th = if th.wait_all then all_by s th.wait_objects else any_by s th.wait_objects

abbrev pub can_run : Dispatcher → ℕ → Bool
can_run d t = ready_by (λ o. is_object_signaled (d.object o) t) (d.thread t)

-- No thread waits for what it could have.
abbrev pub NoLostWakeup : Dispatcher → Type 0
NoLostWakeup d = (t : ℕ) → (d.thread t).is_waiting ≡ true → can_run d t ≡ false

pub all_by_mono :
    (s s' : ℕ → Bool) (xs : List ℕ)
    → ((x : ℕ) → s x ≡ true → s' x ≡ true)
    → all_by s xs ≡ true
    → all_by s' xs ≡ true
all_by_mono s s' [] h a = refl
all_by_mono s s' (x ∷ xs) h a = ground (arith, h x, all_by_mono s s' xs h, a)

pub any_by_mono :
    (s s' : ℕ → Bool) (xs : List ℕ)
    → ((x : ℕ) → s x ≡ true → s' x ≡ true)
    → any_by s xs ≡ true
    → any_by s' xs ≡ true
any_by_mono s s' [] h a = absurd (ground (arith, a))
any_by_mono s s' (x ∷ xs) h a = ground (arith, h x, any_by_mono s s' xs h, a)

pub ready_by_mono :
    (s s' : ℕ → Bool) (th : Thread)
    → ((x : ℕ) → s x ≡ true → s' x ≡ true)
    → ready_by s' th ≡ false
    → ready_by s th ≡ false
ready_by_mono s s' th h a =
    ground (arith, all_by_mono s s' th.wait_objects h, any_by_mono s s' th.wait_objects h, a)

-- An object that is not among the ones that are waited for does not matter.
all_by_without :
    (o : ℕ) (s : ℕ → Bool) (xs : List ℕ)
    → member o xs ≡ false
    → all_by (λ y. not (y == o) && s y) xs ≡ all_by s xs
all_by_without o s [] h = refl
all_by_without o s (x ∷ xs) h = ground (arith, h, all_by_without o s xs)

any_by_without :
    (o : ℕ) (s : ℕ → Bool) (xs : List ℕ)
    → member o xs ≡ false
    → any_by (λ y. not (y == o) && s y) xs ≡ any_by s xs
any_by_without o s [] h = refl
any_by_without o s (x ∷ xs) h = ground (arith, h, any_by_without o s xs)

pub ready_by_without :
    (o : ℕ) (s : ℕ → Bool) (th : Thread)
    → member o th.wait_objects ≡ false
    → ready_by (λ y. not (y == o) && s y) th ≡ ready_by s th
ready_by_without o s th h =
    ground (arith, all_by_without o s th.wait_objects h, any_by_without o s th.wait_objects h)

pub all_signaled_lem :
    (object : ℕ → Object) (t : ℕ) (os : List ℕ)
    → all_signaled object t os ≡ all_by (λ o. is_object_signaled (object o) t) os
all_signaled_lem object t [] = refl
all_signaled_lem object t (o ∷ os) =
    ap (λ b. is_object_signaled (object o) t && b) (all_signaled_lem object t os)

pub all_signaled-member :
    (object : ℕ → Object) (t : ℕ) (os : List ℕ) (o : ℕ)
    → all_signaled object t os ≡ true
    → member o os ≡ true
    → is_object_signaled (object o) t ≡ true
all_signaled-member object t [] o a m = absurd (ground (arith, m))
all_signaled-member object t (x ∷ os) o a m = elim (ℕ_discrete o x) [
  | yes e ↦ ap (λ y. is_object_signaled (object y) t) e ∙ ground (arith, a)
  | no ne ↦ all_signaled-member object t os o (ground (arith, a)) (ground (arith, m, ne))
]

-- Free for every thread.
abbrev pub is_open : Object → Bool
is_open o = elim o.kind [ mutex ↦ o.signaled == 0 | _ ↦ not (o.signaled == 0) ]

pub is_open-is_object_signaled :
    (o : Object) (t : ℕ) → is_open o ≡ true → is_object_signaled o t ≡ true
is_open-is_object_signaled o t h = ground (arith, h)

abbrev pub is_synchronization : Kind → Bool
is_synchronization synchronization_event = true
is_synchronization _ = false

pub enough-closed :
    (o : Object) (t u count : ℕ)
    → IsObject o
    → t ≢ 0
    → u ≢ t
    → is_open o ≡ true
    → satisfied_enough (acquired o t) count ≡ true
    → is_object_signaled (acquired o t) u ≡ false
unfolding satisfied_enough
enough-closed o t u count v nz ne open' e = ground (arith, v.limit, v.held, open', e)

pub not_enough-is_open :
    (o : Object) (t count : ℕ)
    → IsObject o
    → (is_synchronization o.kind ≡ true → count ≡ 1)
    → is_open o ≡ true
    → satisfied_enough (acquired o t) count ≡ false
    → is_open (acquired o t) ≡ true
unfolding satisfied_enough
not_enough-is_open o t count v first open' e = ground (arith, v.limit, v.held, first, open', e)

pub sync_once :
    (o : Object) (t count : ℕ)
    → is_synchronization o.kind ≡ true
    → satisfied_enough (acquired o t) (count + 1) ≡ false
    → count ≢ 0
unfolding satisfied_enough
sync_once o t count k e z = absurd (ground (arith, k, e, z))
