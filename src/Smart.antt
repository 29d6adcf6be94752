-- ===== src/Smart.antt =====
-- a_sync/primitives/queue.py: `SmartProcessingQueue`, and `shield` of a_sync/_smart.pyx, by which its
-- callers share one future for each key. Futures are numbers in two stores: the inner futures of the
-- jobs, and the outer ones that `shield` gives. Which job the heap gives out, the garbage collector
-- and the order of the callbacks are up to the events of a run.
pub mod Keys
pub mod Steps
pub mod Changes
pub mod Shields
pub mod Puts
pub mod Runs
pub mod Broken
pub mod Shared
pub mod Examples
use ez_a_sync.Prelude.{
  ℕ, zero, suc, ◌+◌, ◌-◌, Bool, true, false, not, ◌&&◌, ◌||◌, List, [], ◌∷◌, ◌++◌, Option, none,
  some, Result, ok, err, Exn, runtime_error, is_empty, ◌==◌, if◌then◌else◌,
}
use ez_a_sync.Executor.{is_exception}
use ez_a_sync.Gather.{Outcome, finished, failed, cancelled}

-- Where the job of a future is: on the heap, with a worker, ended, or with a worker that broke.
pub data Job : Type 0 where
  queued processing over abandoned : Job

-- A `SmartFuture` of a job; `none` is pending. `collected`: the weak references to it are dead.
pub record Inner (V : Type 0) : Type 0 where
  pub key : ℕ
  pub state : Option (Outcome V)
  pub waiters : List ℕ
  pub collected : Bool
  pub job : Job

-- What `shield` gives. A future that nobody holds any more counts as cancelled.
pub record Shield (V : Type 0) : Type 0 where
  pub inner : ℕ
  pub state : Option (Outcome V)

-- `futs` is `_futs`, the latest entry first; `inners` and `outers` count the futures made so far.
-- `worker_error` is what broke the first worker that broke, and `broken` the same once the main task
-- of the workers is done with it.
pub record SmartQueue (V : Type 0) : Type 0 where
  pub inners : ℕ
  pub inner : ℕ → Inner V
  pub outers : ℕ
  pub outer : ℕ → Shield V
  pub futs : List (ℕ × ℕ)
  pub unfinished : ℕ
  pub closed : Bool
  pub worker_error : Option Exn
  pub broken : Option Exn

-- What `put_nowait` returns: a shield, or the future of the job itself.
pub data Given : Type 0 where
  shielded itself : ℕ → Given

abbrev pub is_processing : Job → Bool
is_processing processing = true
is_processing _ = false

abbrev pub update : {A : Type 0} → (ℕ → A) → ℕ → A → ℕ → A
update f i v j = if j == i then v else f j

-- `_futs.get(key, None)`
unfoldable pub get_fut : ℕ → List (ℕ × ℕ) → Option ℕ
get_fut k [] = none
get_fut k ((j, i) ∷ futs) = if k == j then some i else get_fut k futs

-- `_futs.pop(key, None)`
unfoldable pub pop_fut : ℕ → List (ℕ × ℕ) → List (ℕ × ℕ)
pop_fut k [] = []
pop_fut k ((j, i) ∷ futs) = let rest = pop_fut k futs in if k == j then rest else (j, i) ∷ rest

-- A value of the `WeakValueDictionary` has been collected.
unfoldable pub forget_fut : ℕ → List (ℕ × ℕ) → List (ℕ × ℕ)
forget_fut i [] = []
forget_fut i ((k, j) ∷ futs) =
    let rest = forget_fut i futs in if i == j then rest else (k, j) ∷ rest

-- What `_ensure_workers` raises.
abbrev pub raised_first : Bool → Option Exn → Option Exn
raised_first true broken = some runtime_error
raised_first false broken = broken

abbrev pub first_error : Exn → Option Exn → Option Exn
first_error e none = some e
first_error e (some x) = some x

module _ {V : Type 0} where
  abbrev pub is_done : Option (Outcome V) → Bool
  is_done none = false
  is_done (some s) = true

  abbrev pub has_been_cancelled : Option (Outcome V) → Bool
  has_been_cancelled (some cancelled) = true
  has_been_cancelled _ = false

  -- `shield` of a future that is not done: `_waiters.add(outer)`
  unfoldable pub shield : ℕ → SmartQueue V → Given × SmartQueue V
  shield i self = (
    shielded self.outers,
    record self {
      outers = suc self.outers;
      outer = update self.outer self.outers (record { inner = i; state = none });
      inner =
          update self.inner i
            (record (self.inner i) { waiters = self.outers ∷ (self.inner i).waiters });
    },
  )

  -- A new `SmartFuture`, in `_futs` and on the heap.
  unfoldable pub new_job : ℕ → SmartQueue V → SmartQueue V
  unfolding pop_fut
  new_job key self = record self {
    inners = suc self.inners;
    inner =
        update self.inner self.inners
          (record { key = key; state = none; waiters = []; collected = false; job = queued });
    futs = (key, self.inners) ∷ pop_fut key self.futs;
    unfinished = self.unfinished + 1;
  }

  abbrev pub put_found : ℕ → Option ℕ → SmartQueue V → Given × SmartQueue V
  put_found key none self = shield self.inners (new_job key self)
  put_found key (some i) self =
      if is_done (self.inner i).state then (itself i, self) else shield i self

  abbrev pub ensure_workers : SmartQueue V → Option Exn
  ensure_workers self = raised_first self.closed self.broken

  abbrev pub put_unless : Option Exn → ℕ → SmartQueue V → Result Given × SmartQueue V
  put_unless (some e) key self = (err e, self)
  put_unless none key self =
      let (g, next) = put_found key (get_fut key self.futs) self in (ok g, next)

  unfoldable pub put_nowait : ℕ → SmartQueue V → Result Given × SmartQueue V
  unfolding get_fut shield new_job
  put_nowait key self = put_unless (ensure_workers self) key self

  -- `fut is None or fut.cancelled() or not fut._waiters`
  abbrev pub is_skipped : Inner V → Bool
  is_skipped fut = fut.collected || has_been_cancelled fut.state || is_empty fut.waiters

  abbrev pub begin_job : ℕ → Job → SmartQueue V → SmartQueue V
  begin_job i queued self =
      if is_skipped (self.inner i)
      then record self {
        inner = update self.inner i (record (self.inner i) { job = over });
        unfinished = self.unfinished - 1;
      }
      else record self { inner = update self.inner i (record (self.inner i) { job = processing }) }
  begin_job i _ self = self

  -- `set_result` and `set_exception`; an InvalidStateError is logged.
  abbrev pub set_outcome : Outcome V → Inner V → Inner V
  set_outcome s fut = if is_done fut.state then fut else record fut { state = some s }

  -- A worker behind `await func(*args, **kwargs)`. What is no `Exception` breaks the worker.
  abbrev pub end_job : ℕ → Result V → Job → SmartQueue V → SmartQueue V
  end_job i (ok v) processing self = record self {
    inner = update self.inner i (record (set_outcome (finished v) (self.inner i)) { job = over });
    unfinished = self.unfinished - 1;
  }
  end_job i (err e) processing self =
      if is_exception e
      then record self {
        inner = update self.inner i (record (set_outcome (failed e) (self.inner i)) { job = over });
        futs = pop_fut (self.inner i).key self.futs;
        unfinished = self.unfinished - 1;
      }
      else record self {
        inner = update self.inner i (record (self.inner i) { job = abandoned });
        worker_error = first_error e self.worker_error;
      }
  end_job i r _ self = self

  abbrev pub copy : Option (Outcome V) → Shield V → Shield V
  copy none outer = outer
  copy (some s) outer = if is_done outer.state then outer else record outer { state = some s }

  -- The shields of future `i`, among the first `n`, that are pending.
  unfoldable pub is_held : ℕ → SmartQueue V → ℕ → Bool
  is_held i self zero = false
  is_held i self (suc n) =
      ((self.outer n).inner == i) && not (is_done (self.outer n).state) || is_held i self n

pub data Event (V : Type 0) : Type 0 where
  put : ℕ → Event V
  -- a worker takes the job of a future, and ends it
  take : ℕ → Event V
  end : ℕ → Result V → Event V
  -- `_inner_done_callback` of a shield, and its cancellation
  callback : ℕ → Event V
  cancel : ℕ → Event V
  -- a future that nothing but weak references refers to
  collect : ℕ → Event V
  -- the main task of the workers ends with what broke one, and the queue is closed
  notice close : Event V

module _ {V : Type 0} where
  -- One event; what cannot happen changes nothing.
  unfoldable pub step : Event V → SmartQueue V → SmartQueue V
  unfolding put_nowait is_held
  step (put key) self = (put_nowait key self).1
  step (take i) self = begin_job i (self.inner i).job self
  step (end i r) self = end_job i r (self.inner i).job self
  step (callback o) self = record self {
    outer = update self.outer o (copy (self.inner (self.outer o).inner).state (self.outer o));
  }
  step (cancel o) self = record self {
    outer = update self.outer o (copy (some cancelled) (self.outer o));
  }
  step (collect i) self =
      if is_held i self self.outers || is_processing (self.inner i).job then self else record self {
        inner = update self.inner i (record (self.inner i) { collected = true });
        futs = forget_fut i self.futs;
      }
  step notice self = record self {
    broken = elim self.broken as (λ _. Option Exn) [ none ↦ self.worker_error | some e ↦ some e ];
  }
  step close self = record self { closed = true }

  unfoldable pub run : List (Event V) → SmartQueue V → SmartQueue V
  unfolding step
  run [] self = self
  run (e ∷ es) self = run es (step e self)

  -- A new queue; the stores hold what nothing refers to.
  abbrev pub init : SmartQueue V
  init = record {
    inners = 0;
    inner = λ i. record { key = 0; state = none; waiters = []; collected = true; job = over };
    outers = 0;
    outer = λ o. record { inner = 0; state = some cancelled };
    futs = [];
    unfinished = 0;
    closed = false;
    worker_error = none;
    broken = none;
  }
