-- ===== src/Ke/Scheduler.antt =====
-- boron/include/ke/sched.h and boron/source/ke/sched.c: the execution queues of a processor. A thread
-- is a number, and its priority, boost and DontSteal flag are those of the dispatcher's threads.
pub mod Pop
pub mod Steal
mod Tests
use boron.Prelude.{
  ℕ, zero, suc, ◌+◌, ◌-◌, ◌/◌, ◌%◌, ◌^◌, Bool, true, false, ◌&&◌, ◌||◌, not, Option, some, none,
  List, [], ◌∷◌, ◌++◌, ltb, leb, ◌==◌, if◌then◌else◌,
}
use boron.Ke.Dispatcher.{Thread, update}

-- `PRIORITY_COUNT`
abbrev pub priority_count : ℕ
priority_count = 32

-- The queues of `KSCHEDULER`, the bits of its mask, and its count, an `int` as a number below 2^32.
pub record Scheduler : Type 0 where
  pub exec_queue : ℕ → List ℕ
  pub exec_queue_mask : ℕ → Bool
  pub threads_on_queue_count : ℕ

abbrev pub is_empty : List ℕ → Bool
is_empty [] = true
is_empty (_ ∷ _) = false

abbrev pub tail : List ℕ → List ℕ
tail [] = []
tail (_ ∷ ts) = ts

-- The queueing of `KiReadyThread` and `KiEndThreadQuantum`.
pub emplace : Scheduler → ℕ → ℕ → Scheduler
emplace s priority t = record s {
  exec_queue = update s.exec_queue priority (s.exec_queue priority ++ (t ∷ []));
  exec_queue_mask = update s.exec_queue_mask priority true;
  threads_on_queue_count = (s.threads_on_queue_count + 1) % 2 ^ 32;
}

-- The head of a queue is taken off, and the bit goes with the last thread.
abbrev pub take_head : Scheduler → ℕ → Scheduler
take_head s priority =
    let rest = tail (s.exec_queue priority) in
    record s {
      exec_queue = update s.exec_queue priority rest;
      exec_queue_mask =
          if is_empty rest then update s.exec_queue_mask priority false else s.exec_queue_mask;
      threads_on_queue_count = (s.threads_on_queue_count + 2 ^ 32 - 1) % 2 ^ 32;
    }

-- What `KepPopNextThreadIfNeeded` is told: its arguments, and the affinities for this processor.
pub record Demand : Type 0 where
  pub min_priority : ℕ
  pub other_processor : Bool
  pub affinity : ℕ → Bool

-- `!(ExecQueueMask < QUEUE_BIT(min))`: some bit at `min` or above, of those below `n`, is set.
abbrev pub has_bit_from : (ℕ → Bool) → ℕ → ℕ → Bool
has_bit_from mask min zero = false
has_bit_from mask min (suc p) = (leb min p && mask p) || has_bit_from mask min p

-- The loop over the priorities below `n`, down to the least: the queue to pop, with its thread.
abbrev pub scan : Scheduler → (ℕ → Thread) → Demand → ℕ → Option (ℕ × ℕ)
scan s thread d zero = none
scan s thread d (suc p) =
    let rest = scan s thread d p in
    if ltb p d.min_priority then none else elim (s.exec_queue p) [
      | [] ↦ rest
      | t ∷ ts ↦
          if not (d.affinity t) || ((thread t).dont_steal && d.other_processor)
          then none
          else some (p, t)
    ]

pub record Popped : Type 0 where
  pub result : Option ℕ
  pub scheduler : Scheduler
  pub thread : ℕ → Thread

abbrev pub pop_found : Scheduler → (ℕ → Thread) → Option (ℕ × ℕ) → Popped
pop_found s thread none = record { result = none; scheduler = s; thread = thread }
pop_found s thread (some (p, t)) = record {
  result = some t;
  scheduler = take_head s p;
  thread =
      update thread t
        (record (thread t) { priority = (thread t).base_priority; priority_boost = 0 });
}

-- `KepPopNextThreadIfNeeded`
pub pop_next_thread_if_needed : Scheduler → (ℕ → Thread) → Demand → Popped
pop_next_thread_if_needed s thread d =
    if d.other_processor
      && (not (has_bit_from s.exec_queue_mask d.min_priority priority_count) || d.min_priority == 0)
    then record { result = none; scheduler = s; thread = thread }
    else pop_found s thread (scan s thread d priority_count)

-- The state of `KepStealManyThreads`, between two processors.
pub record Stealing : Type 0 where
  pub theirs : Scheduler
  pub ours : Scheduler
  pub left_to_steal : ℕ

-- One thread is moved from the queue of a priority.
abbrev pub move_thread : ℕ → ℕ → Stealing → Stealing
move_thread p t s = record {
  theirs = take_head s.theirs p;
  ours = emplace s.ours p t;
  left_to_steal = s.left_to_steal - 1;
}

-- The inner loop, over what is left of their queue.
pub steal_queue : List ℕ → ℕ → Stealing → Stealing
unfolding emplace
steal_queue [] p s = s
steal_queue (t ∷ ts) p s =
    let rest = steal_queue ts p (move_thread p t s) in if s.left_to_steal == 0 then s else rest

-- The outer loop, over the priorities from `p` down to 1.
pub steal_queues : ℕ → Stealing → Stealing
unfolding steal_queue
steal_queues zero s = s
steal_queues (suc p) s = steal_queues p (steal_queue (s.theirs.exec_queue (suc p)) (suc p) s)

-- `KepStealManyThreads`, once the other processor has been picked; half of a negative count is none.
pub steal_many_threads : Scheduler → Scheduler → Stealing
unfolding steal_queues
steal_many_threads theirs ours = steal_queues 31 (record {
  theirs = theirs;
  ours = ours;
  left_to_steal =
      if leb (2 ^ 31) theirs.threads_on_queue_count then 0 else theirs.threads_on_queue_count / 2;
})
