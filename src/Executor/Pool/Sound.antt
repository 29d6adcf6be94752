-- ===== src/Executor/Pool/Sound.antt =====
-- a_sync/executor.py: the count of the pool's threads, and whether queued work can go on.
use ez_a_sync.Prelude.{ℕ, ◌+◌, ◌≤◌, ◌<◌, ◌≡◌, refl, sym, subst, ◌∙◌, ◌⊎◌, inr, List, [], ◌∷◌, arith}
use ez_a_sync.Executor.Pool.{
  Pool, Step, submit, get, finish, time_out, init, step, run, adjust_thread_count, get_item,
  end_item, prune,
}

pub record IsSound (p : Pool) : Type 0 where
  pub bounded : p.threads ≤ p.max_workers
  pub working : p.busy ≤ p.threads
  pub alive : (0 < p.threads) ⊎ (p.work_queue + p.idle ≡ 0)
  pub counted : p.threads ≤ p.idle + p.busy + p.work_queue

-- A pool that may start a thread.
abbrev pub CanRun : Pool → Type 0
CanRun p = 0 < p.max_workers

step_max : (a : Step) (p : Pool) → (step a p).max_workers ≡ p.max_workers
unfolding step adjust_thread_count get_item end_item prune
step_max submit p = ground arith
step_max get p = ground arith
step_max finish p = ground arith
step_max time_out p = ground arith

pub step-IsSound : (a : Step) (p : Pool) → CanRun p → IsSound p → IsSound (step a p)
unfolding step adjust_thread_count get_item end_item prune
step-IsSound submit p m h = record {
  bounded = ground (arith, h.bounded);
  working = ground (arith, h.working);
  alive = ground (arith, h.alive);
  counted = ground (arith, h.counted);
}
step-IsSound get p m h = record {
  bounded = ground (arith, h.bounded);
  working = ground (arith, h.working);
  alive = ground (arith, h.alive);
  counted = ground (arith, h.counted);
}
step-IsSound finish p m h = record {
  bounded = ground (arith, h.bounded);
  working = ground (arith, h.working);
  alive = ground (arith, h.alive, h.working);
  counted = ground (arith, h.counted);
}
step-IsSound time_out p m h = record {
  bounded = ground (arith, h.bounded);
  working = ground (arith, h.working);
  alive = ground (arith, h.alive);
  counted = ground (arith, h.counted, h.working);
}

pub run-IsSound : (as' : List Step) (p : Pool) → CanRun p → IsSound p → IsSound (run as' p)
unfolding run
run-IsSound [] p m h = h
run-IsSound (a ∷ as') p m h =
    run-IsSound as' (step a p) (subst (λ n. 0 < n) (sym (step_max a p)) m) (step-IsSound a p m h)

pub run_max : (as' : List Step) (p : Pool) → (run as' p).max_workers ≡ p.max_workers
unfolding run
run_max [] p = refl
run_max (a ∷ as') p = run_max as' (step a p) ∙ step_max a p

init-IsSound : (n : ℕ) → IsSound (init n)
init-IsSound n = record {
  bounded = omega arith;
  working = omega arith;
  alive = inr refl;
  counted = omega arith;
}

module _ (as' : List Step) (n : ℕ) where
  abbrev pub reached : Pool
  reached = run as' (init n)

  -- After any schedule of a pool that may have a thread, the busy threads are at most the
  -- threads, and those at most `max_workers`.
  pub threads_bounded : 0 < n → (reached.busy ≤ reached.threads) × (reached.threads ≤ n)
  threads_bounded m =
      let sound = run-IsSound as' (init n) m (init-IsSound n) in
      (sound.working, subst (λ k. reached.threads ≤ k) (run_max as' (init n)) sound.bounded)

  -- After any schedule of a pool that may have a thread, when work is queued, either a waiting
  -- thread takes a work item or a busy one can end its own: pruning never leaves queued work
  -- without a thread.
  pub never_stuck :
      0 < n
      → 0 < reached.work_queue
      → ((step get reached).work_queue + 1 ≡ reached.work_queue)
        ⊎ ((step finish reached).busy + 1 ≡ reached.busy)
  unfolding step get_item end_item
  never_stuck m q =
      let sound = run-IsSound as' (init n) m (init-IsSound n) in
      ground (arith, sound.alive, sound.working)
