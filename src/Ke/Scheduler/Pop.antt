-- ===== src/Ke/Scheduler/Pop.antt =====
-- `KepPopNextThreadIfNeeded`: which thread is picked, and that the mask may be trusted.
use boron.Prelude.{
  ℕ, zero, suc, ◌+◌, ◌-◌, ◌^◌, ◌%◌, ◌≤◌, ◌<◌, ◌≡◌, ◌≢◌, ◌⊎◌, ◌∙◌, refl, sym, ap, true, false, ◌&&◌,
  ◌||◌, not, arith, some, none, List, [], ◌∷◌, ◌++◌, ◌==◌, if◌then◌else◌, Bool-cases, ℕ_discrete,
  inl, inr,
}
use boron.Ke.Dispatcher.{Thread}
use boron.Ke.Scheduler.{
  Scheduler, is_empty, tail, emplace, take_head, Demand, has_bit_from, scan, Popped, pop_found,
  pop_next_thread_if_needed, priority_count,
}

-- The bit of each queue says whether it has a thread.
abbrev pub IsScheduler : Scheduler → Type 0
IsScheduler s = (p : ℕ) → s.exec_queue_mask p ≡ not (is_empty (s.exec_queue p))

pub emplace-IsScheduler :
    (s : Scheduler) (priority t : ℕ) → IsScheduler s → IsScheduler (emplace s priority t)
unfolding emplace
emplace-IsScheduler s priority t v p = elim (ℕ_discrete p priority) [
  | yes e ↦ ground (arith, e, filled (s.exec_queue priority))
  | no ne ↦ ground (arith, ne, v p)
]
  where
    filled : (ts : List ℕ) → is_empty (ts ++ (t ∷ [])) ≡ false
    filled [] = refl
    filled (x ∷ ts) = refl

pub take_head-IsScheduler :
    (s : Scheduler) (priority : ℕ)
    → is_empty (s.exec_queue priority) ≡ false
    → IsScheduler s
    → IsScheduler (take_head s priority)
take_head-IsScheduler s priority full v p = elim (ℕ_discrete p priority) [
  | yes e ↦ ground (arith, e, full, v priority, v p)
  | no ne ↦ ground (arith, ne, v p)
]

-- Without a bit at the least priority or above there is nothing to find.
has_bit_from-scan :
    (s : Scheduler) (thread : ℕ → Thread) (d : Demand) (n : ℕ)
    → IsScheduler s
    → has_bit_from s.exec_queue_mask d.min_priority n ≡ false
    → scan s thread d n ≡ none
has_bit_from-scan s thread d zero v h = refl
has_bit_from-scan s thread d (suc p) v h = ground (arith, h, v p, has_bit_from-scan s thread d p v)

-- A search without the mask.
abbrev pub pop_by_search : Scheduler → (ℕ → Thread) → Demand → Popped
pop_by_search s thread d = pop_found s thread (scan s thread d priority_count)

-- With the mask right, the optimisation by it changes nothing: to look at every queue gives the same, unless an
-- idle thread of another processor is asked for, which is never given.
pub pop-pop_by_search :
    (s : Scheduler) (thread : ℕ → Thread) (d : Demand)
    → IsScheduler s
    → d.other_processor && d.min_priority == 0 ≡ false
    → pop_next_thread_if_needed s thread d ≡ pop_by_search s thread d
unfolding pop_next_thread_if_needed
pop-pop_by_search s thread d v h = elim (Bool-cases d.other_processor) [
  | inl other ↦ elim (Bool-cases (has_bit_from s.exec_queue_mask d.min_priority priority_count)) [
    | inl bit ↦
        let go : (d.other_processor
              && (not (has_bit_from s.exec_queue_mask d.min_priority 32) || d.min_priority == 0))
            ≡ false =
          ground (arith, other, bit, h) in
        ap
          (λ b.
            if b
            then (record { result = none; scheduler = s; thread = thread })
            else pop_by_search s thread d)
          go
    | inr no_bit ↦
        let stop : (d.other_processor
              && (not (has_bit_from s.exec_queue_mask d.min_priority 32) || d.min_priority == 0))
            ≡ true =
          ground (arith, other, no_bit) in
        ap
          (λ b.
            if b
            then (record { result = none; scheduler = s; thread = thread })
            else pop_by_search s thread d)
          stop
        ∙ ap (pop_found s thread) (sym (has_bit_from-scan s thread d 32 v no_bit))
  ]
  | inr own ↦
      let go : (d.other_processor
            && (not (has_bit_from s.exec_queue_mask d.min_priority 32) || d.min_priority == 0))
          ≡ false =
        ground (arith, own) in
      ap
        (λ b.
          if b
          then (record { result = none; scheduler = s; thread = thread })
          else pop_by_search s thread d)
        go
]

-- What is picked: the head of the highest queue that has a thread, with the priority of the queue.
pub record Picks (s : Scheduler) (thread : ℕ → Thread) (d : Demand) (n p t : ℕ) : Type 0 where
  pub enough : d.min_priority ≤ p
  pub below : p < n
  pub head : s.exec_queue p ≡ t ∷ tail (s.exec_queue p)
  pub highest : (q : ℕ) → p < q → q < n → s.exec_queue q ≡ []
  pub may_run : d.affinity t ≡ true
  pub may_steal : (thread t).dont_steal && d.other_processor ≡ false

-- Why no thread is picked: the idle thread of another processor is asked for, every queue from the
-- least priority on is empty, or the first thread of the highest queue that has one may not run here.
pub record Refused (s : Scheduler) (thread : ℕ → Thread) (d : Demand) (n p t : ℕ) : Type 0 where
  pub enough : d.min_priority ≤ p
  pub below : p < n
  pub head : s.exec_queue p ≡ t ∷ tail (s.exec_queue p)
  pub highest : (q : ℕ) → p < q → q < n → s.exec_queue q ≡ []
  pub may_not : (d.affinity t ≡ false) ⊎ ((thread t).dont_steal && d.other_processor ≡ true)

abbrev pub Nothing : Scheduler → (ℕ → Thread) → Demand → ℕ → Type 0
Nothing s thread d n =
    ((q : ℕ) → d.min_priority ≤ q → q < n → s.exec_queue q ≡ [])
    ⊎ ((p : ℕ) × (t : ℕ) × Refused s thread d n p t)

-- What is left when a thread was taken from a queue.
pub record Taken (s : Scheduler) (thread : ℕ → Thread) (p t : ℕ) (r : Popped) : Type 0 where
  pub result : r.result ≡ some t
  pub queue : s.exec_queue p ≡ t ∷ r.scheduler.exec_queue p
  pub other_queues : (q : ℕ) → q ≢ p → r.scheduler.exec_queue q ≡ s.exec_queue q
  pub count : r.scheduler.threads_on_queue_count ≡ (s.threads_on_queue_count + 2 ^ 32 - 1) % 2 ^ 32
  pub priority : (r.thread t).priority ≡ (thread t).base_priority
  pub base_priority : (r.thread t).base_priority ≡ (thread t).base_priority
  pub boost : (r.thread t).priority_boost ≡ 0
  pub other_threads : (u : ℕ) → u ≢ t → r.thread u ≡ thread u

-- The mask is right, and a thread was picked and taken, or nothing has changed, for one of the reasons.
abbrev pub PopsOrNot : Scheduler → (ℕ → Thread) → Demand → Popped → Type 0
PopsOrNot s thread d r =
    IsScheduler r.scheduler
    × (((r ≡ record { result = none; scheduler = s; thread = thread })
          × ((d.other_processor && d.min_priority == 0 ≡ true) ⊎ Nothing s thread d priority_count))
        ⊎ ((p : ℕ) × (t : ℕ) × Taken s thread p t r × Picks s thread d priority_count p t))
