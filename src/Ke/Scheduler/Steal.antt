-- ===== src/Ke/Scheduler/Steal.antt =====
-- `KepStealManyThreads`: what moves from the queues of another processor.
use boron.Prelude.{
  ℕ, zero, suc, ◌≡◌, ◌∙◌, refl, sym, subst, ap, Bool-cases, ℕ_discrete, inl, inr, arith, List, [],
  ◌∷◌, ◌++◌, ◌==◌, leb, ◌^◌, ◌/◌, ◌≢◌, if◌then◌else◌,
}
use boron.Ke.Scheduler.{
  Scheduler, is_empty, emplace, Stealing, move_thread, steal_queue, steal_queues,
  steal_many_threads,
}
use boron.Ke.Scheduler.Pop.{IsScheduler, emplace-IsScheduler, take_head-IsScheduler}

-- Both masks are right, and each pair of queues holds the same threads in the same order.
pub record Moved (before after : Stealing) : Type 0 where
  pub theirs_valid : IsScheduler after.theirs
  pub ours_valid : IsScheduler after.ours
  pub kept :
      (q : ℕ)
      → after.ours.exec_queue q ++ after.theirs.exec_queue q
        ≡ before.ours.exec_queue q ++ before.theirs.exec_queue q
  pub idle : after.theirs.exec_queue 0 ≡ before.theirs.exec_queue 0

append_one : (xs ts : List ℕ) (t : ℕ) → (xs ++ (t ∷ [])) ++ ts ≡ xs ++ (t ∷ ts)
append_one [] ts t = refl
append_one (x ∷ xs) ts t = ap (λ z. x ∷ z) (append_one xs ts t)

move_thread-Moved :
    (p t : ℕ) (ts : List ℕ) (s : Stealing)
    → p ≢ 0
    → IsScheduler s.theirs
    → IsScheduler s.ours
    → s.theirs.exec_queue p ≡ t ∷ ts
    → Moved s (move_thread p t s)
unfolding emplace
move_thread-Moved p t ts s nz v w full = record {
  theirs_valid = take_head-IsScheduler s.theirs p (ap is_empty full) v;
  ours_valid = emplace-IsScheduler s.ours p t w;
  kept = λ q. elim (ℕ_discrete q p) [
    | yes e ↦
        ap (λ z. (move_thread p t s).ours.exec_queue z ++ (move_thread p t s).theirs.exec_queue z) e
        ∙ ground (arith, full, append_one (s.ours.exec_queue p) ts t)
        ∙ ap (λ z. s.ours.exec_queue z ++ s.theirs.exec_queue z) (sym e)
    | no ne ↦ ground (arith, ne)
  ];
  idle = ground (arith, nz);
}

Moved-trans : (a b c : Stealing) → Moved a b → Moved b c → Moved a c
Moved-trans a b c x y = record {
  theirs_valid = y.theirs_valid;
  ours_valid = y.ours_valid;
  kept = λ q. y.kept q ∙ x.kept q;
  idle = y.idle ∙ x.idle;
}

steal_queue_step :
    (t : ℕ) (ts : List ℕ) (p : ℕ) (s : Stealing)
    → steal_queue (t ∷ ts) p s
      ≡ (if s.left_to_steal == 0 then s else steal_queue ts p (move_thread p t s))
unfolding steal_queue
steal_queue_step t ts p s = refl

steal_queue-Moved :
    (ts : List ℕ) (p : ℕ) (s : Stealing)
    → p ≢ 0
    → IsScheduler s.theirs
    → IsScheduler s.ours
    → s.theirs.exec_queue p ≡ ts
    → Moved s (steal_queue ts p s)
unfolding steal_queue
steal_queue-Moved [] p s nz v w full = record {
  theirs_valid = v;
  ours_valid = w;
  kept = λ q. refl;
  idle = refl;
}
steal_queue-Moved (t ∷ ts) p s nz v w full = elim (Bool-cases (s.left_to_steal == 0)) [
  | inl done ↦
      subst (Moved s)
        (sym (
          steal_queue_step t ts p s
          ∙ ap (λ b. if b then s else steal_queue ts p (move_thread p t s)) done))
        (record { theirs_valid = v; ours_valid = w; kept = λ q. refl; idle = refl })
  | inr more ↦
      let one = move_thread-Moved p t ts s nz v w full in
      let rest =
        steal_queue-Moved ts p (move_thread p t s) nz one.theirs_valid one.ours_valid
          (ground (arith, full)) in
      subst (Moved s)
        (sym (
          steal_queue_step t ts p s
          ∙ ap (λ b. if b then s else steal_queue ts p (move_thread p t s)) more))
        (Moved-trans s (move_thread p t s) (steal_queue ts p (move_thread p t s)) one rest)
]

steal_queues-Moved :
    (p : ℕ) (s : Stealing) → IsScheduler s.theirs → IsScheduler s.ours → Moved s (steal_queues p s)
unfolding steal_queues
steal_queues-Moved zero s v w = record {
  theirs_valid = v;
  ours_valid = w;
  kept = λ q. refl;
  idle = refl;
}
steal_queues-Moved (suc p) s v w =
    let one =
      steal_queue-Moved (s.theirs.exec_queue (suc p)) (suc p) s (λ e. absurd (ground (arith, e))) v
        w refl in
    let s' = steal_queue (s.theirs.exec_queue (suc p)) (suc p) s in
    Moved-trans s s' (steal_queues p s') one
      (steal_queues-Moved p s' one.theirs_valid one.ours_valid)

-- `KepStealManyThreads` between two processors whose masks are right loses no thread and doubles
-- none: for each priority, our queue followed by theirs is the same before and after. It takes no
-- idle thread, and both masks stay right.
pub steal_many_threads-Moved :
    (theirs ours : Scheduler)
    → IsScheduler theirs
    → IsScheduler ours
    → IsScheduler (steal_many_threads theirs ours).theirs
      × IsScheduler (steal_many_threads theirs ours).ours
      × ((q : ℕ)
          → (steal_many_threads theirs ours).ours.exec_queue q
              ++ (steal_many_threads theirs ours).theirs.exec_queue q
            ≡ ours.exec_queue q ++ theirs.exec_queue q)
      × ((steal_many_threads theirs ours).theirs.exec_queue 0 ≡ theirs.exec_queue 0)
unfolding steal_many_threads
steal_many_threads-Moved theirs ours v w =
    let moved =
      steal_queues-Moved 31
        (record {
          theirs = theirs;
          ours = ours;
          left_to_steal =
              if leb (2 ^ 31) theirs.threads_on_queue_count
              then 0
              else theirs.threads_on_queue_count / 2;
        })
        v w in
    (moved.theirs_valid, moved.ours_valid, moved.kept, moved.idle)
