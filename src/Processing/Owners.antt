-- ===== src/Processing/Owners.antt =====
-- Who will settle a future of a `ProcessingQueue`: the jobs and workers that carry it.
use ez_a_sync.Prelude.{
  ℕ, ◌+◌, ◌≤◌, ◌<◌, ◌≡◌, refl, Bool, false, List, [], ◌∷◌, Option, none, some, get_elem?, set,
  total, total-set, total-append, total-replicate, ◌==◌, arith, Option-cases, ◌⊎◌, ap, subst, sym,
  inl, inr, cancelled_error, reference_error, if◌then◌else◌,
}
use mathlib.Core.Option
use ez_a_sync.Asyncio
use ez_a_sync.Asyncio.{AsyncQueue, task_done, full, wake_getter, wake_putter}
use ez_a_sync.Processing.{
  Processing, Worker, idle, busy, broken, Job, Event, submits, takes, finishes, cancels, drops,
  closes, Outcome, returns, raises, is_cancelled, start_workers, enqueue, put_nowait, done_with,
  receive, take_job, settle, complete, finish, cancel, drop_fut, close, step, run, init, Fut,
  update, result, exception, cancelled,
}
use ez_a_sync.Processing.Cases.{
  is_pending, received_cases, settled_cases, taken, take_job_cases, work_cases, put_nowait_cases,
  with_fresh,
}
use ez_a_sync.Processing.Tasks.{start_workers-IsCounted, IsCounted, init-IsCounted, step-IsCounted}

abbrev pub carries : ℕ → Option ℕ → ℕ
carries f none = 0
carries f (some g) = if g == f then 1 else 0

abbrev pub job_carries {ℓ} : {A : Type ℓ} → ℕ → Job A → ℕ
job_carries f j = carries f j.fut

abbrev pub worker_carries {ℓ} : {A : Type ℓ} → ℕ → Worker A → ℕ
worker_carries f idle = 0
worker_carries f (busy j) = carries f j.fut
worker_carries f (broken e j) = carries f j.fut

not_pending {ℓ} :
    {V : Type ℓ} (f : ℕ) (o : Option ℕ) (futs : ℕ → Fut V)
    → Option.map futs o ≡ some cancelled
    → (carries f o ≡ 0) ⊎ (is_pending (futs f) ≡ false)
not_pending f none futs e = inl refl
not_pending f (some g) futs e = ground arith

module _ {ℓ} {A V : Type ℓ} where
  abbrev pub owners : ℕ → Processing A V → ℕ
  owners f s = total (job_carries f) s.jobs.queue + total (worker_carries f) s.workers

  -- `held` counts the job in hand, between `get` and what the worker does with it.
  abbrev OwnedWith : ℕ → ℕ → Processing A V → Type 0
  OwnedWith held f s =
      ((owners f s + held ≡ 0) × ((s.next_fut ≤ f) ⊎ (is_pending (s.futs f) ≡ false)))
      ⊎ ((owners f s + held ≡ 1) × (f < s.next_fut))

  -- A future that was given out is carried once, or it is settled; one that was not is carried
  -- nowhere.
  abbrev pub IsOwned : ℕ → Processing A V → Type 0
  IsOwned f s =
      ((owners f s ≡ 0) × ((s.next_fut ≤ f) ⊎ (is_pending (s.futs f) ≡ false)))
      ⊎ ((owners f s ≡ 1) × (f < s.next_fut))

  start_workers-IsOwned :
      (f : ℕ) (s : Processing A V) → IsCounted s → IsOwned f s → IsOwned f (start_workers s)
  unfolding start_workers
  start_workers-IsOwned f s c v =
      ground
        (arith, c.unstarted, total-replicate {ℓ} (worker_carries {A = A} f) s.num_workers idle refl)

  plain-IsOwned :
      (f : ℕ) (args : A) (s : Processing A V)
      → IsCounted s
      → IsOwned f s
      → IsOwned f (enqueue (record { args = args; fut = none }) s).1
  unfolding enqueue Asyncio.put_nowait full wake_getter
  plain-IsOwned f args s c v =
      let j : Job A = record { args = args; fut = none } in
      ground (arith, c.unbounded, total-append {ℓ} (job_carries f) s.jobs.queue (j ∷ []))

  fresh-IsOwned :
      (f : ℕ) (args : A) (s : Processing A V)
      → IsCounted s
      → IsOwned f s
      → IsOwned f (enqueue (record { args = args; fut = some s.next_fut }) (with_fresh s)).1
  unfolding enqueue Asyncio.put_nowait full wake_getter
  fresh-IsOwned f args s c v =
      let j : Job A = record { args = args; fut = some s.next_fut } in
      ground (arith, c.unbounded, total-append {ℓ} (job_carries f) s.jobs.queue (j ∷ []))

  busy-carries :
      (w f : ℕ) (j : Job A) (g : ℕ) (s : Processing A V)
      → j.fut ≡ some g
      → worker_carries f (busy j) + 0 ≡ carries f (some g)
  busy-carries w f j g s n = ground arith

  complete-none :
      (w : ℕ) (j : Job A) (value : Fut V) (s : Processing A V)
      → j.fut ≡ none
      → complete w j value s ≡ done_with w s
  unfolding complete
  complete-none w j value s n = ground arith

  complete-some :
      (w : ℕ) (j : Job A) (value : Fut V) (s : Processing A V) (g : ℕ)
      → j.fut ≡ some g
      → complete w j value s ≡ settle w j g value s
  unfolding complete
  complete-some w j value s g n = ground arith

  -- The job in hand stays with the worker.
  keep-IsOwned :
      (held w f : ℕ) (s : Processing A V) {x : Worker A} (y : Worker A)
      → get_elem? s.workers w ≡ some x
      → worker_carries f x + held ≡ worker_carries f y
      → OwnedWith held f s
      → IsOwned f (record s { workers = set s.workers w y })
  keep-IsOwned held w f s y e same v =
      ground (arith, total-set {ℓ} (worker_carries f) s.workers w y e)

  -- The worker lets go of a job that has no pending future.
  done_with-IsOwned :
      (held w f : ℕ) (s : Processing A V) {x : Worker A} (g : Option ℕ)
      → get_elem? s.workers w ≡ some x
      → worker_carries f x + held ≡ carries f g
      → (carries f g ≡ 0) ⊎ (is_pending (s.futs f) ≡ false)
      → OwnedWith held f s
      → IsOwned f (done_with w s)
  unfolding done_with task_done
  done_with-IsOwned held w f s g e same settled v =
      ground (arith, total-set {ℓ} (worker_carries f) s.workers w idle e)

  taken-OwnedWith :
      (f : ℕ) (s : Processing A V) (j : Job A) (js : List (Job A))
      → s.jobs.queue ≡ j ∷ js
      → IsOwned f s
      → OwnedWith (carries f j.fut) f (record s { jobs = taken s.jobs js })
  unfolding wake_putter
  taken-OwnedWith f s j js e v = ground (arith, ap (total (job_carries f)) e)

  receive-IsOwned :
      (w f : ℕ) (j : Job A) (s : Processing A V)
      → get_elem? s.workers w ≡ some idle
      → OwnedWith (carries f j.fut) f s
      → IsOwned f (receive w j s)
  unfolding receive
  receive-IsOwned w f j s e v =
      received_cases (IsOwned f) s w j (Option.map s.futs j.fut)
        (keep-IsOwned _ w f s (busy j) e (omega arith) v)
        (keep-IsOwned _ w f s (broken reference_error j) e (omega arith) v)
        (λ c. done_with-IsOwned _ w f s j.fut e (omega arith) (not_pending f j.fut s.futs c) v)

  settle-IsOwned :
      (w f : ℕ) (j : Job A) (g : ℕ) (value : Fut V) (s : Processing A V)
      → get_elem? s.workers w ≡ some (busy j)
      → j.fut ≡ some g
      → is_pending value ≡ false
      → IsOwned f s
      → IsOwned f (settle w j g value s)
  unfolding settle
  settle-IsOwned w f j g value s e n done v =
      let held = busy-carries w f j g s n in
      settled_cases (IsOwned f) s w j g value (s.futs g)
        (λ p.
          done_with-IsOwned 0 w f (record s { futs = update s.futs g value }) (some g) e held
            (ground arith) (ground arith))
        (keep-IsOwned 0 w f s (broken reference_error j) e (omega arith) (ground arith))
        (λ p. done_with-IsOwned 0 w f s (some g) e held (ground arith) (ground arith))

  complete-IsOwned :
      (w f : ℕ) (j : Job A) (value : Fut V) (s : Processing A V)
      → get_elem? s.workers w ≡ some (busy j)
      → is_pending value ≡ false
      → IsOwned f s
      → IsOwned f (complete w j value s)
  unfolding complete
  complete-IsOwned w f j value s e done v = elim (Option-cases j.fut) [
    | inl n ↦
        subst (IsOwned f) (sym (complete-none w j value s n))
          (done_with-IsOwned 0 w f s none e (ground arith) (inl refl) (ground arith))
    | inr (g, n) ↦
        subst (IsOwned f) (sym (complete-some w j value s g n))
          (settle-IsOwned w f j g value s e n done v)
  ]

  finish-IsOwned :
      (w f : ℕ) (j : Job A) (o : Outcome V) (s : Processing A V)
      → get_elem? s.workers w ≡ some (busy j)
      → IsOwned f s
      → IsOwned f (finish w j o s)
  unfolding finish
  finish-IsOwned w f j is_cancelled s e v =
      keep-IsOwned 0 w f s (broken cancelled_error j) e (omega arith) (ground arith)
  finish-IsOwned w f j (returns x) s e v = complete-IsOwned w f j (result x) s e refl v
  finish-IsOwned w f j (raises x) s e v = complete-IsOwned w f j (exception x) s e refl v

  put_nowait-IsOwned :
      (f : ℕ) (args : A) (s : Processing A V)
      → IsCounted s
      → IsOwned f s
      → IsOwned f (put_nowait args s).1
  put_nowait-IsOwned f args s c v =
      let started = start_workers-IsOwned f s c v in
      let counted = start_workers-IsCounted s c in
      put_nowait_cases (IsOwned f) s args v started (plain-IsOwned f args _ counted started)
        (fresh-IsOwned f args _ counted started)

  take_job-IsOwned : (w f : ℕ) (s : Processing A V) → IsOwned f s → IsOwned f (take_job w s)
  take_job-IsOwned w f s v = take_job_cases (IsOwned f) s w v λ j js e c.
      receive-IsOwned w f j (record s { jobs = taken s.jobs js }) e (taken-OwnedWith f s j js c v)

  cancel-IsOwned : (g f : ℕ) (s : Processing A V) → IsOwned f s → IsOwned f (cancel g s)
  unfolding cancel
  cancel-IsOwned g f s v = ground arith

  drop_fut-IsOwned : (g f : ℕ) (s : Processing A V) → IsOwned f s → IsOwned f (drop_fut g s)
  unfolding drop_fut
  drop_fut-IsOwned g f s v = ground arith

module _ {ℓ} {A V : Type ℓ} (func : A → Outcome V) where
  step-IsOwned :
      (f : ℕ) (e : Event A) (s : Processing A V)
      → IsCounted s
      → IsOwned f s
      → IsOwned f (step func e s)
  unfolding step close
  step-IsOwned f (submits args) s c v = put_nowait-IsOwned f args s c v
  step-IsOwned f (takes w) s c v = take_job-IsOwned w f s v
  step-IsOwned f (finishes w) s c v =
      work_cases (IsOwned f) s func w v (λ j e. finish-IsOwned w f j (func j.args) s e v)
  step-IsOwned f (cancels g) s c v = cancel-IsOwned g f s v
  step-IsOwned f (drops g) s c v = drop_fut-IsOwned g f s v
  step-IsOwned f closes s c v = v

  run-IsOwned :
      (f : ℕ) (es : List (Event A)) (s : Processing A V)
      → IsCounted s
      → IsOwned f s
      → IsOwned f (run func es s)
  unfolding run
  run-IsOwned f [] s c v = v
  run-IsOwned f (e ∷ es) s c v =
      run-IsOwned f es (step func e s) (step-IsCounted func e s c) (step-IsOwned f e s c v)

  -- After any schedule of a new queue, each future is either carried by exactly one queued job
  -- or worker, and was given out; or it is carried by none, and it was not given out or is not
  -- pending.
  pub run-init-IsOwned :
      (n : ℕ) (return_data : Bool) (es : List (Event A)) (f : ℕ)
      → IsOwned f (run func es (init n return_data))
  unfolding init
  run-init-IsOwned n return_data es f =
      run-IsOwned f es _ (init-IsCounted n return_data) (inl (omega arith, inl (omega arith)))
