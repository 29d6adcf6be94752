-- ===== src/Processing/Tasks.antt =====
-- The count of unfinished tasks of a `ProcessingQueue`, on which `join` waits.
use ez_a_sync.Prelude.{
  ℕ, ◌+◌, ◌≡◌, refl, Bool, true, List, [], ◌∷◌, some, length, get_elem?, set, total, total-set,
  total-replicate, ◌==◌, arith, Option-cases, length-append, ap, ◌⊎◌, inl, inr, cancelled_error,
  reference_error,
}
use ez_a_sync.Asyncio
use ez_a_sync.Asyncio.{AsyncQueue, task_done, full, wake_getter, wake_putter}
use ez_a_sync.Processing.{
  Processing, Worker, idle, busy, broken, Job, Event, submits, takes, finishes, cancels, drops,
  closes, Outcome, returns, raises, is_cancelled, start_workers, enqueue, put_nowait, cancelled,
  complete, exception, done_with, receive, take_job, settle, finish, cancel, drop_fut, close, step,
  run, init, Fut, update, result,
}
use ez_a_sync.Processing.Cases.{
  taken, take_job_cases, received_cases, settled_cases, work_cases, put_nowait_cases, with_fresh,
}

-- A worker that broke keeps the job that it never finished.
abbrev pub holding {ℓ} : {A : Type ℓ} → Worker A → ℕ
holding idle = 0
holding (busy j) = 1
holding (broken e j) = 1

module _ {ℓ} {A V : Type ℓ} where
  -- `owed` is 1 between `get` and what the worker then does with the job.
  pub record Counts (owed : ℕ) (s : Processing A V) : Type ℓ where
    pub unbounded : s.jobs.maxsize ≡ 0
    pub counted : s.jobs.unfinished_tasks ≡ length s.jobs.queue + total holding s.workers + owed
    pub joinable : s.jobs.all_done ≡ (s.jobs.unfinished_tasks == 0)
    pub unstarted : (s.started ≡ true) ⊎ (s.workers ≡ [])

  -- Every task that is not done is queued or held by a worker, and `join` may return exactly when
  -- there is none.
  abbrev pub IsCounted : Processing A V → Type ℓ
  IsCounted s = Counts 0 s

  pub init-IsCounted : (n : ℕ) (return_data : Bool) → IsCounted (init n return_data)
  unfolding init
  init-IsCounted n return_data = record {
    unbounded = refl;
    counted = omega arith;
    joinable = refl;
    unstarted = inr refl;
  }

  pub start_workers-IsCounted : (s : Processing A V) → IsCounted s → IsCounted (start_workers s)
  unfolding start_workers
  start_workers-IsCounted s v =
      let none_held = total-replicate {ℓ} (holding {A = A}) s.num_workers idle refl in
      record {
        unbounded = ground arith;
        counted = ground (arith, none_held);
        joinable = ground arith;
        unstarted = ground arith;
      }

  enqueue-IsCounted : (j : Job A) (s : Processing A V) → IsCounted s → IsCounted (enqueue j s).1
  unfolding enqueue Asyncio.put_nowait full wake_getter
  enqueue-IsCounted j s v = record {
    unbounded = ground arith;
    counted = ground (arith, length-append s.jobs.queue (j ∷ []));
    joinable = ground arith;
    unstarted = ground arith;
  }

  -- A worker that held a job, and the queue's books, after `task_done`.
  done_with-IsCounted :
      (owed w : ℕ) (s : Processing A V) {x : Worker A}
      → get_elem? s.workers w ≡ some x
      → holding x + owed ≡ 1
      → Counts owed s
      → IsCounted (done_with w s)
  unfolding done_with task_done
  done_with-IsCounted owed w s e one v =
      let moved = total-set {ℓ} holding s.workers w idle e in
      record {
        unbounded = ground arith;
        counted = ground (arith, moved);
        joinable = ground (arith, moved);
        unstarted = ground arith;
      }

  -- A worker changes what it is about, and goes on holding as much.
  set-IsCounted :
      (owed w : ℕ) (s : Processing A V) {x : Worker A} (y : Worker A)
      → get_elem? s.workers w ≡ some x
      → holding x + owed ≡ holding y
      → Counts owed s
      → IsCounted (record s { workers = set s.workers w y })
  set-IsCounted owed w s y e same v =
      let moved = total-set {ℓ} holding s.workers w y e in
      record {
        unbounded = v.unbounded;
        counted = omega (arith, v.counted);
        joinable = v.joinable;
        unstarted = ground arith;
      }

  receive-IsCounted :
      (w : ℕ) (j : Job A) (s : Processing A V)
      → get_elem? s.workers w ≡ some idle
      → Counts 1 s
      → IsCounted (receive w j s)
  unfolding receive
  receive-IsCounted w j s e v =
      received_cases IsCounted s w j _ (set-IsCounted 1 w s (busy j) e refl v)
        (set-IsCounted 1 w s (broken reference_error j) e refl v)
        (λ _. done_with-IsCounted 1 w s e refl v)

  taken-Counts :
      (s : Processing A V) (j : Job A) (js : List (Job A))
      → s.jobs.queue ≡ j ∷ js
      → IsCounted s
      → Counts 1 (record s { jobs = taken s.jobs js })
  unfolding wake_putter
  taken-Counts s j js e v = record {
    unbounded = v.unbounded;
    counted = omega (arith, ap length e, v.counted);
    joinable = v.joinable;
    unstarted = v.unstarted;
  }

  pub take_job-IsCounted : (w : ℕ) (s : Processing A V) → IsCounted s → IsCounted (take_job w s)
  take_job-IsCounted w s v = take_job_cases IsCounted s w v λ j js e c.
      receive-IsCounted w j (record s { jobs = taken s.jobs js }) e (taken-Counts s j js c v)

  -- The books read nothing of the futures.
  futs-IsCounted :
      (s : Processing A V) (futs : ℕ → Fut V) (next : ℕ)
      → IsCounted s
      → IsCounted (record s { futs = futs; next_fut = next })
  futs-IsCounted s futs next v = record {
    unbounded = v.unbounded;
    counted = v.counted;
    joinable = v.joinable;
    unstarted = v.unstarted;
  }

  settle-IsCounted :
      (w : ℕ) (j : Job A) (f : ℕ) (value : Fut V) (s : Processing A V)
      → get_elem? s.workers w ≡ some (busy j)
      → IsCounted s
      → IsCounted (settle w j f value s)
  unfolding settle
  settle-IsCounted w j f value s e v =
      settled_cases IsCounted s w j f value (s.futs f)
        (λ _.
          done_with-IsCounted 0 w (record s { futs = update s.futs f value }) e refl
            (futs-IsCounted s (update s.futs f value) s.next_fut v))
        (set-IsCounted 0 w s (broken reference_error j) e refl v)
        (λ _. done_with-IsCounted 0 w s e refl v)

  complete-IsCounted :
      (w : ℕ) (j : Job A) (value : Fut V) (s : Processing A V)
      → get_elem? s.workers w ≡ some (busy j)
      → IsCounted s
      → IsCounted (complete w j value s)
  unfolding complete
  complete-IsCounted w j value s e v = elim (Option-cases j.fut) [
    | inl n ↦ rw (n, complete) (done_with-IsCounted 0 w s e refl v)
    | inr (f, n) ↦ rw (n, complete) (settle-IsCounted w j f value s e v)
  ]

  finish-IsCounted :
      (w : ℕ) (j : Job A) (o : Outcome V) (s : Processing A V)
      → get_elem? s.workers w ≡ some (busy j)
      → IsCounted s
      → IsCounted (finish w j o s)
  unfolding finish
  finish-IsCounted w j is_cancelled s e v = set-IsCounted 0 w s (broken cancelled_error j) e refl v
  finish-IsCounted w j (returns x) s e v = complete-IsCounted w j (result x) s e v
  finish-IsCounted w j (raises x) s e v = complete-IsCounted w j (exception x) s e v

  put_nowait-IsCounted :
      (args : A) (s : Processing A V) → IsCounted s → IsCounted (put_nowait args s).1
  put_nowait-IsCounted args s v =
      let started = start_workers-IsCounted s v in
      put_nowait_cases IsCounted s args v started (enqueue-IsCounted _ (start_workers s) started) (
        enqueue-IsCounted _ (with_fresh (start_workers s))
          (futs-IsCounted (start_workers s) _ _ started))

  cancel-IsCounted : (f : ℕ) (s : Processing A V) → IsCounted s → IsCounted (cancel f s)
  unfolding cancel
  cancel-IsCounted f s v =
      let told = futs-IsCounted s (update s.futs f cancelled) s.next_fut v in ground (arith, told)

module _ {ℓ} {A V : Type ℓ} (func : A → Outcome V) where
  pub step-IsCounted : (e : Event A) (s : Processing A V) → IsCounted s → IsCounted (step func e s)
  unfolding step drop_fut close
  step-IsCounted (submits args) s v = put_nowait-IsCounted args s v
  step-IsCounted (takes w) s v = take_job-IsCounted w s v
  step-IsCounted (finishes w) s v =
      work_cases IsCounted s func w v (λ j e. finish-IsCounted w j (func j.args) s e v)
  step-IsCounted (cancels f) s v = cancel-IsCounted f s v
  step-IsCounted (drops f) s v = futs-IsCounted s _ _ v
  step-IsCounted closes s v = record {
    unbounded = v.unbounded;
    counted = v.counted;
    joinable = v.joinable;
    unstarted = v.unstarted;
  }

  -- Any schedule keeps the books: the count of unfinished tasks is that of the queued jobs and
  -- of those that workers hold, a broken worker included, and the flag on which `join` waits is
  -- set exactly when the count is 0.
  pub run-IsCounted :
      (es : List (Event A)) (s : Processing A V) → IsCounted s → IsCounted (run func es s)
  unfolding run
  run-IsCounted [] s v = v
  run-IsCounted (e ∷ es) s v = run-IsCounted es (step func e s) (step-IsCounted e s v)
