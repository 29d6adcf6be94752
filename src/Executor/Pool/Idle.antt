-- ===== src/Executor/Pool/Idle.antt =====
-- a_sync/executor.py: `_idle_semaphore` against the threads that really wait.
use ez_a_sync.Prelude.{
  ℕ, zero, suc, ◌+◌, ◌-◌, ◌≤◌, ◌<◌, ◌≡◌, refl, ◌∙◌, List, [], ◌∷◌, replicate, arith,
}
use ez_a_sync.Executor.Pool.{
  Pool, Step, submit, get, finish, time_out, init, step, run, adjust_thread_count, get_item,
  end_item, prune,
}

-- The counts of a pool, in the order of its fields.
pub record At (p : Pool) (max threads busy queued idle : ℕ) : Type 0 where
  pub of_max : p.max_workers ≡ max
  pub of_threads : p.threads ≡ threads
  pub of_busy : p.busy ≡ busy
  pub of_queue : p.work_queue ≡ queued
  pub of_idle : p.idle ≡ idle

abbrev pub serve : ℕ → List Step
serve zero = []
serve (suc k) = get ∷ finish ∷ serve k

moved :
    (p : Pool) (m t b q i : ℕ) {t' q' i' : ℕ}
    → At p m t b q i
    → t ≡ t'
    → q ≡ q'
    → i ≡ i'
    → At p m t' b q' i'
moved p m t b q i a e f g = record {
  of_max = a.of_max;
  of_threads = a.of_threads ∙ e;
  of_busy = a.of_busy;
  of_queue = a.of_queue ∙ f;
  of_idle = a.of_idle ∙ g;
}

module _ (p : Pool) (m t q i : ℕ) where
  submit_new : t < m → At p m t 0 q 0 → At (step submit p) m (t + 1) 0 (q + 1) 0
  unfolding step adjust_thread_count
  submit_new h a = record {
    of_max = ground (arith, a.of_max);
    of_threads = ground (arith, a.of_threads, a.of_max, a.of_idle);
    of_busy = ground (arith, a.of_busy);
    of_queue = ground (arith, a.of_queue);
    of_idle = ground (arith, a.of_idle);
  }

  submit_full : At p m m 0 q 0 → At (step submit p) m m 0 (q + 1) 0
  unfolding step adjust_thread_count
  submit_full a = record {
    of_max = ground (arith, a.of_max);
    of_threads = ground (arith, a.of_threads, a.of_max, a.of_idle);
    of_busy = ground (arith, a.of_busy);
    of_queue = ground (arith, a.of_queue);
    of_idle = ground (arith, a.of_idle);
  }

  submit_idle : At p m t 0 q (suc i) → At (step submit p) m t 0 (q + 1) i
  unfolding step adjust_thread_count
  submit_idle a = record {
    of_max = ground (arith, a.of_max);
    of_threads = ground (arith, a.of_threads, a.of_max, a.of_idle);
    of_busy = ground (arith, a.of_busy);
    of_queue = ground (arith, a.of_queue);
    of_idle = ground (arith, a.of_idle);
  }

  serve_one : 0 < t → At p m t 0 (suc q) i → At (step finish (step get p)) m t 0 q (i + 1)
  unfolding step get_item end_item
  serve_one h a = record {
    of_max = ground (arith, a.of_max);
    of_threads = ground (arith, a.of_threads);
    of_busy = ground (arith, a.of_busy, a.of_threads, a.of_queue);
    of_queue = ground (arith, a.of_busy, a.of_threads, a.of_queue);
    of_idle = ground (arith, a.of_busy, a.of_threads, a.of_queue, a.of_idle);
  }

  prune_one : At p m (suc (suc t)) 0 0 (suc i) → At (step time_out p) m (suc t) 0 0 i
  unfolding step prune
  prune_one a = record {
    of_max = ground (arith, a.of_max);
    of_threads = ground (arith, a.of_threads, a.of_busy);
    of_busy = ground (arith, a.of_busy);
    of_queue = ground (arith, a.of_queue);
    of_idle = ground (arith, a.of_threads, a.of_busy, a.of_idle);
  }

-- Below the bound, each submission starts a thread; at the bound, none does.
submits_start :
    (k : ℕ) (p : Pool) (m t q : ℕ)
    → t + k ≡ m
    → At p m t 0 q 0
    → At (run (replicate k submit) p) m m 0 (q + k) 0
unfolding run
submits_start zero p m t q e a = moved p m t 0 q 0 a (omega arith) (omega arith) refl
submits_start (suc k) p m t q e a =
    let ih =
      submits_start k (step submit p) m (t + 1) (q + 1) (omega arith)
        (submit_new p m t q 0 (omega arith) a) in
    moved _ m m 0 _ 0 ih refl (omega arith) refl

submits_over :
    (k : ℕ) (p : Pool) (m q : ℕ) → At p m m 0 q 0 → At (run (replicate k submit) p) m m 0 (q + k) 0
unfolding run
submits_over zero p m q a = moved p m m 0 q 0 a refl (omega arith) refl
submits_over (suc k) p m q a =
    let ih = submits_over k (step submit p) m (q + 1) (submit_full p m m q 0 a) in
    moved _ m m 0 _ 0 ih refl (omega arith) refl

serve_all :
    (k : ℕ) (p : Pool) (m t i : ℕ) → 0 < t → At p m t 0 k i → At (run (serve k) p) m t 0 0 (i + k)
unfolding run
serve_all zero p m t i h a = moved p m t 0 0 i a refl refl (omega arith)
serve_all (suc k) p m t i h a =
    let ih = serve_all k (step finish (step get p)) m t (i + 1) h (serve_one p m t k i h a) in
    moved _ m t 0 0 _ ih refl refl (omega arith)

prune_all :
    (w : ℕ) (p : Pool) (m i : ℕ)
    → At p m (suc w) 0 0 (w + i)
    → At (run (replicate w time_out) p) m 1 0 0 i
unfolding run
prune_all zero p m i a = moved p m 1 0 0 _ a refl refl (omega arith)
prune_all (suc w) p m i a =
    prune_all w (step time_out p) m i
      (prune_one p m w 0 (w + i) (moved p m _ 0 0 _ a refl refl (omega arith)))

submits_idle :
    (n : ℕ) (p : Pool) (m t q i : ℕ)
    → At p m t 0 q (n + i)
    → At (run (replicate n submit) p) m t 0 (q + n) i
unfolding run
submits_idle zero p m t q i a = moved p m t 0 q _ a refl (omega arith) (omega arith)
submits_idle (suc n) p m t q i a =
    let ih =
      submits_idle n (step submit p) m t (q + 1) i
        (submit_idle p m t q (n + i) (moved p m t 0 q _ a refl refl (omega arith))) in
    moved _ m t 0 _ i ih refl (omega arith) refl

-- A pool of `w + 1` threads that has served `w + 1 + d` work items at once and has been pruned.
abbrev pub after_burst : ℕ → ℕ → Pool
after_burst w d = run (replicate w time_out) (
    run (serve (suc w + d))
      (run (replicate d submit) (run (replicate (suc w) submit) (init (suc w)))))

init-At : (m : ℕ) → At (init m) m 0 0 0 0
init-At m = record {
  of_max = refl;
  of_threads = refl;
  of_busy = refl;
  of_queue = refl;
  of_idle = refl;
}

after_burst-At : (w d : ℕ) → At (after_burst w d) (suc w) 1 0 0 (suc d)
after_burst-At w d =
    let m = suc w in
    let first = submits_start m (init m) m 0 0 (omega arith) (init-At m) in
    let full = submits_over d _ m _ first in
    let queued = moved _ m m 0 _ 0 full refl (omega arith) refl in
    let served = serve_all (suc w + d) _ m m 0 (omega arith) queued in
    prune_all w _ m (suc d) (moved _ m m 0 0 _ served refl refl (omega arith))

-- A pool of `w + 1` threads that has served `w + 1 + d` work items submitted at once and has
-- then been pruned to one thread starts no thread for the next `d + 1` submissions: all of them
-- are queued for the one thread.
pub overcounted :
    (w d n : ℕ)
    → n ≤ suc d
    → ((run (replicate n submit) (after_burst w d)).threads ≡ 1)
      × ((run (replicate n submit) (after_burst w d)).work_queue ≡ n)
overcounted w d n h =
    let a = moved _ (suc w) 1 0 0 _ (after_burst-At w d) refl refl (omega arith) in
    let last = submits_idle n (after_burst w d) (suc w) 1 0 (suc d - n) a in
    (last.of_threads, omega (arith, last.of_queue))
