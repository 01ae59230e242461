-- ===== src/Ke/Scheduler/Tests.antt =====
-- Two processors: thread 1 is queued at priority 8 and threads 2 and 3 at 3.
use boron.Prelude.{ℕ, ◌≡◌, refl, true, false, ◌||◌, arith, [], ◌∷◌, ◌++◌, ◌==◌, if◌then◌else◌}
use boron.Prelude.Status.{success}
use boron.Ke.Dispatcher.{Thread}
use boron.Ke.Scheduler.{Scheduler, Demand, pop_next_thread_if_needed, steal_many_threads}
use boron.Ke.Scheduler.Pop.{IsScheduler, pop_by_search, pop-pop_by_search}
use boron.Ke.Scheduler.Steal.{steal_many_threads-Moved}

abbrev busy : Scheduler
busy = record {
  exec_queue = λ p. if p == 8 then 1 ∷ [] else if p == 3 then 2 ∷ 3 ∷ [] else [];
  exec_queue_mask = λ p. p == 8 || p == 3;
  threads_on_queue_count = 3;
}

abbrev quiet : Scheduler
quiet = record { exec_queue = λ p. []; exec_queue_mask = λ p. false; threads_on_queue_count = 0 }

busy-IsScheduler : IsScheduler busy
busy-IsScheduler p = ground arith

quiet-IsScheduler : IsScheduler quiet
quiet-IsScheduler p = refl

abbrev threads : ℕ → Thread
threads t = record {
  is_waiting = false;
  wait_all = false;
  wait_objects = [];
  wait_status = success;
  wait_timer = false;
  sleep_timer = false;
  dont_steal = t == 3;
  last_processor = 0;
  priority = 8;
  base_priority = 3;
  priority_boost = 5;
}

abbrev from_other : Demand
from_other = record { min_priority = 4; other_processor = true; affinity = λ t. true }

pop-pop_by_search_example :
    pop_next_thread_if_needed busy threads from_other ≡ pop_by_search busy threads from_other
pop-pop_by_search_example = pop-pop_by_search busy threads from_other busy-IsScheduler refl

steal_many_threads-Moved_example :
    IsScheduler (steal_many_threads busy quiet).theirs
    × IsScheduler (steal_many_threads busy quiet).ours
    × ((q : ℕ)
        → (steal_many_threads busy quiet).ours.exec_queue q
            ++ (steal_many_threads busy quiet).theirs.exec_queue q
          ≡ quiet.exec_queue q ++ busy.exec_queue q)
    × ((steal_many_threads busy quiet).theirs.exec_queue 0 ≡ busy.exec_queue 0)
steal_many_threads-Moved_example =
    steal_many_threads-Moved busy quiet busy-IsScheduler quiet-IsScheduler
