-- ===== src/Processing.antt =====
-- a_sync/primitives/queue.py: `ProcessingQueue`. The queue is the inherited `asyncio.Queue`,
-- unbounded as `__init__` makes it; futures live in a store that the caller and the workers share;
-- a worker acts when its `await` returns, so each step below is the code between two awaits.
pub mod Cases
pub mod Tasks
pub mod Owners
pub mod Outcomes
pub mod Broken
pub mod Examples
use ez_a_sync.Prelude.{
  ℕ, zero, suc, ◌+◌, ◌-◌, Bool, true, false, not, ◌&&◌, List, [], ◌∷◌, ◌++◌, Option, none, some,
  Result, ok, err, Exn, runtime_error, reference_error, cancelled_error, Exec, and_then, length,
  get_elem?, set, replicate, ◌==◌, if◌then◌else◌,
}
use mathlib.Core.Option
use ez_a_sync.Asyncio
use ez_a_sync.Asyncio.{AsyncQueue, empty, task_done}

-- A future of the caller: `collected` once the caller has dropped it, since the queue holds a
-- weak proxy only.
pub data Fut {ℓ} (V : Type ℓ) : Type ℓ where
  pending cancelled collected : Fut V
  result : V → Fut V
  exception : Exn → Fut V

-- How an awaited call of the worker's function ends. `CancelledError` is no `Exception`.
pub data Outcome {ℓ} (V : Type ℓ) : Type ℓ where
  returns : V → Outcome V
  raises : Exn → Outcome V
  is_cancelled : Outcome V

-- `(args, kwargs)`, with the future where the queue returns data.
pub record Job {ℓ} (A : Type ℓ) : Type ℓ where
  pub args : A
  pub fut : Option ℕ

pub data Worker {ℓ} (A : Type ℓ) : Type ℓ where
  idle : Worker A
  busy : Job A → Worker A
  broken : Exn → Job A → Worker A

pub record Processing {ℓ} (A V : Type ℓ) : Type ℓ where
  pub num_workers : ℕ
  pub no_futs : Bool
  pub closed : Bool
  -- whether `_workers`, a cached property, has been computed
  pub started : Bool
  pub workers : List (Worker A)
  pub jobs : AsyncQueue (Job A)
  pub futs : ℕ → Fut V
  pub next_fut : ℕ

-- A store with one entry changed.
abbrev pub update {ℓ} : {A : Type ℓ} → (ℕ → A) → ℕ → A → ℕ → A
update f i v j = if j == i then v else f j

abbrev pub first_broken {ℓ} : {A : Type ℓ} → List (Worker A) → Option Exn
first_broken [] = none
first_broken (broken e j ∷ ws) = some e
first_broken (idle ∷ ws) = first_broken ws
first_broken (busy j ∷ ws) = first_broken ws

module _ {ℓ} {A V : Type ℓ} where
  unfoldable pub init : ℕ → Bool → Processing A V
  init num_workers return_data = record {
    num_workers = num_workers;
    no_futs = not return_data;
    closed = false;
    started = false;
    workers = [];
    jobs = empty;
    futs = λ _. pending;
    next_fut = 0;
  }

  unfoldable pub close : Processing A V → Processing A V
  close s = record s { closed = true }

  unfoldable pub start_workers : Processing A V → Processing A V
  start_workers s =
      if s.started then s else record s { started = true; workers = replicate s.num_workers idle }

  -- The main task of the workers is taken to be done as soon as a worker is broken.
  unfoldable pub ensure_workers : Exec (Processing A V) (Unit {0})
  ensure_workers s =
      if s.closed
      then (err runtime_error, s)
      else let s' = start_workers s in
        elim (first_broken s'.workers) [ none ↦ (ok tt, s') | some e ↦ (err e, s') ]

  -- `_put_nowait`, the method of `asyncio.Queue`
  unfoldable pub enqueue : Job A → Exec (Processing A V) (Unit {0})
  enqueue j s = let (r, q) = Asyncio.put_nowait j s.jobs in (r, record s { jobs = q })

  -- The rest of `put_nowait`, when the workers are there.
  unfoldable pub submit : A → Exec (Processing A V) (Option ℕ)
  submit args s =
      if s.no_futs
      then and_then (enqueue (record { args = args; fut = none }) s) (λ _ t. (ok none, t))
      else and_then
          (enqueue (record { args = args; fut = some s.next_fut })
            (record s { futs = update s.futs s.next_fut pending; next_fut = suc s.next_fut }))
          (λ _ t. (ok (some s.next_fut), t))

  unfoldable pub put_nowait : A → Exec (Processing A V) (Option ℕ)
  put_nowait args s = and_then (ensure_workers s) (λ _ t. submit args t)

  -- A worker that has dealt with its job: `task_done()`, and back to `get_next_job`.
  unfoldable pub done_with : ℕ → Processing A V → Processing A V
  done_with w s = record s { jobs = (task_done s.jobs).1; workers = set s.workers w idle }

  -- What the worker does with a job, by the state of its future, if it has one.
  unfoldable pub received : ℕ → Job A → Option (Fut V) → Processing A V → Processing A V
  received w j none s = record s { workers = set s.workers w (busy j) }
  received w j (some cancelled) s = done_with w s
  received w j (some collected) s = record s {
    workers = set s.workers w (broken reference_error j);
  }
  received w j (some _) s = record s { workers = set s.workers w (busy j) }

  -- `get_next_job` has returned `j`: what the worker does up to its next `await`.
  unfoldable pub receive : ℕ → Job A → Processing A V → Processing A V
  receive w j s = received w j (Option.map s.futs j.fut) s

  -- An idle worker takes the oldest job.
  unfoldable pub take_job : ℕ → Processing A V → Processing A V
  take_job w s = elim (get_elem? s.workers w) [
    | some idle ↦
        let (r, q) = Asyncio.get_nowait s.jobs in
        elim r [ ok j ↦ receive w j (record s { jobs = q }) | err e ↦ s ]
    | _ ↦ s
  ]

  -- `fut.set_result` or `fut.set_exception` with what the function gave. A future that is done
  -- already raises `InvalidStateError`, which is logged; a collected one breaks the worker.
  unfoldable pub settled : ℕ → Job A → ℕ → Fut V → Fut V → Processing A V → Processing A V
  settled w j f value pending s = done_with w (record s { futs = update s.futs f value })
  settled w j f value collected s = record s {
    workers = set s.workers w (broken reference_error j);
  }
  settled w j f value _ s = done_with w s

  unfoldable pub settle : ℕ → Job A → ℕ → Fut V → Processing A V → Processing A V
  settle w j f value s = settled w j f value (s.futs f) s

  -- The worker's `else` and `except` branches: pass the value on where there is a future.
  unfoldable pub complete : ℕ → Job A → Fut V → Processing A V → Processing A V
  complete w j value s = elim j.fut [ none ↦ done_with w s | some f ↦ settle w j f value s ]

  -- `await func(*args, **kwargs)` has ended.
  unfoldable pub finish : ℕ → Job A → Outcome V → Processing A V → Processing A V
  finish w j is_cancelled s = record s { workers = set s.workers w (broken cancelled_error j) }
  finish w j (returns v) s = complete w j (result v) s
  finish w j (raises e) s = complete w j (exception e) s

  -- A caller cancels a future: nothing happens to one that is done.
  unfoldable pub cancel : ℕ → Processing A V → Processing A V
  cancel f s = elim (s.futs f) [ pending ↦ record s { futs = update s.futs f cancelled } | _ ↦ s ]

  -- A caller drops its last reference to a future.
  unfoldable pub drop_fut : ℕ → Processing A V → Processing A V
  drop_fut f s = record s { futs = update s.futs f collected }

-- The steps that callers, workers and the event loop may take, in any order.
pub data Event {ℓ} (A : Type ℓ) : Type ℓ where
  submits : A → Event A
  takes finishes cancels drops : ℕ → Event A
  closes : Event A

module _ {ℓ} {A V : Type ℓ} (func : A → Outcome V) where
  unfoldable pub work : ℕ → Processing A V → Processing A V
  work w s = elim (get_elem? s.workers w) [ some (busy j) ↦ finish w j (func j.args) s | _ ↦ s ]

  unfoldable pub step : Event A → Processing A V → Processing A V
  step (submits args) s = (put_nowait args s).1
  step (takes w) s = take_job w s
  step (finishes w) s = work w s
  step (cancels f) s = cancel f s
  step (drops f) s = drop_fut f s
  step closes s = close s

  unfoldable pub run : List (Event A) → Processing A V → Processing A V
  run [] s = s
  run (e ∷ es) s = run es (step e s)
