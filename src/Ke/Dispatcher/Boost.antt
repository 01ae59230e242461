-- ===== src/Ke/Dispatcher/Boost.antt =====
-- `KiAdjustPriorityBoost` and its use in `KiUnwaitThread`: the class that a boosted priority is in.
use boron.Prelude.{
  ℕ, ◌+◌, ◌≤◌, ◌<◌, ◌≡◌, refl, sym, subst, true, false, [], arith, ltb, ◌==◌, if◌then◌else◌,
}
use boron.Prelude.Status.{Bstatus}
use boron.Ke.Dispatcher.{Thread, Dispatcher, update, adjust_priority_boost, unwait_thread}

-- The first priority after the class of a priority: idle, low, normal, high and real time.
abbrev pub class_end : ℕ → ℕ
class_end p =
    if p == 0
    then 1
    else if ltb p 8
    then 8
    else if ltb p 20
    then 20
    else if ltb p 27
    then 27
    else 32

-- The boost of a thread adds up, and leaves its priority in the class of its base priority.
pub record IsBoosted (t : Thread) : Type 0 where
  pub sum : t.priority ≡ t.base_priority + t.priority_boost
  pub inside : t.priority < class_end t.base_priority
  pub base : t.base_priority < 32

adjust_priority_boost_lem :
    (base boost : ℕ)
    → base < 32
    → (adjust_priority_boost base boost ≤ boost)
      × (base + adjust_priority_boost base boost < class_end base)
unfolding adjust_priority_boost
adjust_priority_boost_lem base boost h = (ground (arith, h), ground (arith, h))

class_end_same : (a b : ℕ) → a ≤ b → b < class_end a → class_end b ≡ class_end a
class_end_same a b le lt = ground (arith, le, lt)

class_end_limit : (x y : ℕ) → y < class_end x → y < 32
class_end_limit x y h = ground (arith, h)

update_same : (f : ℕ → Thread) (t : ℕ) (x : Thread) → update f t x t ≡ x
update_same f t x = ground arith

-- Where the priority of a thread is its base priority and boost and in the class of the base
-- priority, `KiUnwaitThread` of the thread keeps that so, whatever boost it had, and the new boost
-- is at most the increment.
pub unwait_thread-IsBoosted :
    (d : Dispatcher) (t : ℕ) (status : Bstatus) (increment : ℕ)
    → IsBoosted (d.thread t)
    → IsBoosted ((unwait_thread d t status increment).thread t)
      × (((unwait_thread d t status increment).thread t).priority_boost ≤ increment)
unfolding unwait_thread
unwait_thread-IsBoosted d t status increment b =
    let old = d.thread t in
    let boost = adjust_priority_boost old.priority increment in
    let new : Thread = record old {
      is_waiting = false;
      wait_objects = [];
      wait_status = status;
      wait_timer = false;
      sleep_timer = false;
      dont_steal = true;
      priority = old.base_priority + boost;
      priority_boost = boost;
    } in
    let low : old.base_priority ≤ old.priority = omega (arith, b.sum) in
    let same = class_end_same old.base_priority old.priority low b.inside in
    let (less, inside) =
      adjust_priority_boost_lem old.priority increment
        (class_end_limit old.base_priority old.priority b.inside) in
    let inside' : old.base_priority + boost < class_end old.base_priority =
      omega (arith, low, subst (λ z. old.priority + boost < z) same inside) in
    let this : update d.thread t new t ≡ new = update_same d.thread t new in
    (
      subst IsBoosted (sym this) (record { sum = refl; inside = inside'; base = b.base }),
      subst (λ (x : Thread). x.priority_boost ≤ increment) (sym this) less,
    )
