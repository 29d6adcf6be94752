-- ===== src/Processing/Broken.antt =====
-- a_sync/primitives/queue.py: what a broken worker does to a `ProcessingQueue`.
use ez_a_sync.Prelude.{
  ℕ, zero, suc, ◌≤◌, ◌≡◌, ◌≢◌, refl, false, List, [], ◌∷◌, Option, some, Result, err, get_elem?,
  set, get_elem?-set_self, get_elem?-set_ne, total, arith, Option-cases, inl, inr, Bool-cases, Exn,
  runtime_error, cancelled_error, reference_error, subst, sym, ap, ◌∙◌,
}
use ez_a_sync.Processing.{
  Processing, Worker, idle, busy, broken, Job, Event, submits, takes, finishes, cancels, drops,
  closes, Outcome, returns, raises, is_cancelled, start_workers, ensure_workers, put_nowait,
  done_with, receive, received, take_job, settle, complete, finish, cancel, drop_fut, close, step,
  run, first_broken, Fut, update, result, exception, collected,
}
use ez_a_sync.Processing.Cases.{
  taken, take_job-idle, received_cases, settled_cases, take_job_cases, work_cases,
}
use ez_a_sync.Processing.Tasks.{
  take_job-IsCounted, step-IsCounted, IsCounted, holding, run-IsCounted,
}

holding-at {ℓ} :
    {A : Type ℓ} (ws : List (Worker A)) (w : ℕ) {x : Exn} {j : Job A}
    → get_elem? ws w ≡ some (broken x j)
    → 1 ≤ total holding ws
holding-at [] w e = cc
holding-at (y ∷ ws) zero e = ground arith
holding-at (y ∷ ws) (suc w) e = omega (arith, holding-at ws w e)

first_broken-some {ℓ} :
    {A : Type ℓ} {x : Exn} {j : Job A} (ws : List (Worker A)) (v : ℕ)
    → get_elem? ws v ≡ some (broken x j)
    → (y : Exn) × (first_broken ws ≡ some y)
first_broken-some [] v e = cc
first_broken-some (broken y k ∷ ws) v e = (y, refl)
first_broken-some (idle ∷ ws) zero e = cc
first_broken-some (busy k ∷ ws) zero e = cc
first_broken-some (idle ∷ ws) (suc v) e = first_broken-some ws v e
first_broken-some (busy k ∷ ws) (suc v) e = first_broken-some ws v e

module _ {ℓ} {A V : Type ℓ} (w : ℕ) (x : Exn) (j : Job A) where
  -- A worker that has broken, with the job that it held.
  abbrev pub BrokenAt : Processing A V → Type ℓ
  BrokenAt s = get_elem? s.workers w ≡ some (broken x j)

  other-BrokenAt :
      (s : Processing A V) (v : ℕ) {old : Worker A} (y : Worker A)
      → get_elem? s.workers v ≡ some old
      → old ≢ broken x j
      → BrokenAt s
      → BrokenAt (record s { workers = set s.workers v y })
  other-BrokenAt s v y e ne b = get_elem?-set_ne s.workers v w y (λ same. ne (ground arith)) ∙ b

  done_with-BrokenAt :
      (s : Processing A V) (v : ℕ) {old : Worker A}
      → get_elem? s.workers v ≡ some old
      → old ≢ broken x j
      → BrokenAt s
      → BrokenAt (done_with v s)
  unfolding done_with
  done_with-BrokenAt s v e ne b = other-BrokenAt s v idle e ne b

  start_workers-BrokenAt : (s : Processing A V) → IsCounted s → BrokenAt s → start_workers s ≡ s
  unfolding start_workers
  start_workers-BrokenAt s c b = ground (arith, c.unstarted)

  -- In a state whose books are right and in which some worker has broken, `put_nowait` raises
  -- and changes nothing.
  pub put_nowait-BrokenAt :
      (args : A) (s : Processing A V)
      → IsCounted s
      → BrokenAt s
      → (y : Exn) × (put_nowait args s ≡ (err y, s))
  unfolding put_nowait ensure_workers
  put_nowait-BrokenAt args s c b =
      let (y, e) = first_broken-some s.workers w b in
      let same = start_workers-BrokenAt s c b in
      elim (Bool-cases s.closed) [
        | inl shut ↦ (runtime_error, ground (arith, shut))
        | inr live ↦ (y, ground (arith, live, same, e))
      ]

  take_job-BrokenAt : (v : ℕ) (s : Processing A V) → BrokenAt s → BrokenAt (take_job v s)
  unfolding receive
  take_job-BrokenAt v s b = take_job_cases BrokenAt s v b λ k js e c.
      let t = record s { jobs = taken s.jobs js } in
      received_cases BrokenAt t v k _ (other-BrokenAt t v (busy k) e (λ q. cc) b)
        (other-BrokenAt t v (broken reference_error k) e (λ q. cc) b)
        (λ _. done_with-BrokenAt t v e (λ q. cc) b)

  complete-BrokenAt :
      (v : ℕ) (k : Job A) (value : Fut V) (s : Processing A V)
      → get_elem? s.workers v ≡ some (busy k)
      → BrokenAt s
      → BrokenAt (complete v k value s)
  unfolding complete settle
  complete-BrokenAt v k value s e b = elim (Option-cases k.fut) [
    | inl n ↦ rw (n, complete) (done_with-BrokenAt s v e (λ q. cc) b)
    | inr (f, n) ↦
        rw (n, complete)
          (settled_cases BrokenAt s v k f value (s.futs f)
            (λ _. done_with-BrokenAt (record s { futs = update s.futs f value }) v e (λ q. cc) b)
            (other-BrokenAt s v (broken reference_error k) e (λ q. cc) b)
            (λ _. done_with-BrokenAt s v e (λ q. cc) b))
  ]

  finish-BrokenAt :
      (v : ℕ) (k : Job A) (o : Outcome V) (s : Processing A V)
      → get_elem? s.workers v ≡ some (busy k)
      → BrokenAt s
      → BrokenAt (finish v k o s)
  unfolding finish
  finish-BrokenAt v k is_cancelled s e b =
      other-BrokenAt s v (broken cancelled_error k) e (λ q. cc) b
  finish-BrokenAt v k (returns r) s e b = complete-BrokenAt v k (result r) s e b
  finish-BrokenAt v k (raises r) s e b = complete-BrokenAt v k (exception r) s e b

  module _ (func : A → Outcome V) where
    step-BrokenAt :
        (e : Event A) (s : Processing A V) → IsCounted s → BrokenAt s → BrokenAt (step func e s)
    unfolding step cancel drop_fut close
    step-BrokenAt (submits args) s c b =
        let (y, e) = put_nowait-BrokenAt args s c b in
        subst BrokenAt (sym (ap (λ (r : Result (Option ℕ) × Processing A V). r.1) e)) b
    step-BrokenAt (takes v) s c b = take_job-BrokenAt v s b
    step-BrokenAt (finishes v) s c b =
        work_cases BrokenAt s func v b (λ k e. finish-BrokenAt v k (func k.args) s e b)
    step-BrokenAt (cancels f) s c b = ground arith
    step-BrokenAt (drops f) s c b = b
    step-BrokenAt closes s c b = b

    -- From a state whose books are right and in which a worker has broken, every schedule leaves
    -- that worker broken and the flag on which `join` waits unset.
    pub run-BrokenAt :
        (es : List (Event A)) (s : Processing A V)
        → IsCounted s
        → BrokenAt s
        → BrokenAt (run func es s) × ((run func es s).jobs.all_done ≡ false)
    unfolding run
    run-BrokenAt [] s c b = (b, ground (arith, c.counted, c.joinable, holding-at s.workers w b))
    run-BrokenAt (e ∷ es) s c b =
        run-BrokenAt es (step func e s) (step-IsCounted func e s c) (step-BrokenAt e s c b)

module _ {ℓ} {A V : Type ℓ} (func : A → Outcome V) (w : ℕ) (args : A) (f : ℕ)
    (s : Processing A V) where
  collected_breaks :
      (js : List (Job A))
      → get_elem? s.workers w ≡ some idle
      → s.jobs.queue ≡ record { args = args; fut = some f } ∷ js
      → s.futs f ≡ collected
      → get_elem? (take_job w s).workers w
        ≡ some (broken reference_error (record { args = args; fut = some f }))
  unfolding receive received
  collected_breaks js e q c = ground (
    arith,
    take_job-idle s w (record { args = args; fut = some f }) js e q,
    get_elem?-set_self s.workers w (broken reference_error (record { args = args; fut = some f }))
        e,
  )

  -- When an idle worker takes a job whose caller has dropped the future, then after every
  -- further schedule the flag on which `join` waits is unset and `put_nowait` raises with
  -- nothing changed.
  pub collected_ends :
      (js : List (Job A)) (es : List (Event A)) (next : A)
      → IsCounted s
      → get_elem? s.workers w ≡ some idle
      → s.jobs.queue ≡ record { args = args; fut = some f } ∷ js
      → s.futs f ≡ collected
      → ((run func es (take_job w s)).jobs.all_done ≡ false)
        × ((y : Exn) × (put_nowait next (run func es (take_job w s))
              ≡ (err y, run func es (take_job w s))))
  collected_ends js es next v e q c =
      let j : Job A = record { args = args; fut = some f } in
      let counted = take_job-IsCounted w s v in
      let b = collected_breaks js e q c in
      let (b', blocked) = run-BrokenAt w reference_error j func es (take_job w s) counted b in
      (
        blocked,
        put_nowait-BrokenAt w reference_error j next (run func es (take_job w s))
            (run-IsCounted func es (take_job w s) counted) b',
      )
