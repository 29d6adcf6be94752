-- ===== src/Persisted.antt =====
-- a_sync/asyncio/create_task.pyx: the tasks of create_task, those that `skip_gc_until_done` persists,
-- and the exceptions that a later call raises. `is_exception` is `isinstance(e, Exception)`; an
-- exception is not false. Nobody cancels the wrapper of a persisted task. The coroutines, the names
-- and the factory of the tasks are not kept. Tasks are numbers.
pub mod Held
pub mod Raising
pub mod Poisoned
pub mod Examples
use ez_a_sync.Prelude.{
  ℕ, suc, Bool, true, false, List, [], ◌∷◌, Option, none, some, Exn, Result, ok, err, ltb,
  if◌then◌else◌,
}
use ez_a_sync.Gather.{Outcome, finished, failed, cancelled}
use ez_a_sync.Smart.{update}

-- How the coroutine of `__persisted_task_exc_wrap` ends: it returns, it raises
-- PersistedTaskException or another exception, or it is cancelled.
pub data End : Type 0 where
  returned stopped : End
  persisted_exception bare : Exn → End

-- The task of the wrapper, until its callback has run.
pub data Wrapper : Type 0 where
  missing running handled : Wrapper
  ended : End → Wrapper

-- `persisted` is `_persisted_tasks`; `exceptions` is `_exceptions`, in any order; `reported` are the
-- exceptions that the handler of the loop got.
pub record Tasks (V : Type 0) : Type 0 where
  pub created : ℕ
  pub outcome : ℕ → Option (Outcome V)
  pub wrapper : ℕ → Wrapper
  pub persisted : ℕ → Bool
  pub exceptions : List (ℕ × Exn)
  pub reported : List Exn

pub data Event (V : Type 0) : Type 0 where
  create : Bool → Event V
  -- the task ends, its wrapper goes on, and the callback of the wrapper runs
  finish : ℕ → Outcome V → Event V
  wake callback : ℕ → Event V

-- `for task, exc in _exceptions`
abbrev pub raise_first : List (ℕ × Exn) → ℕ → Result ℕ
raise_first [] task = ok task
raise_first ((i, exc) ∷ _) task = err exc

module _ {V : Type 0} where
  abbrev pub persist : Bool → Tasks V → Tasks V
  persist skip_gc_until_done self =
      if skip_gc_until_done
      then record self {
        wrapper = update self.wrapper self.created running;
        persisted = update self.persisted self.created true;
      }
      else self

  unfoldable pub ccreate_task : Bool → Tasks V → Result ℕ × Tasks V
  ccreate_task skip_gc_until_done self = (
    raise_first self.exceptions self.created,
    record (persist skip_gc_until_done self) { created = suc self.created },
  )

  abbrev pub finish_task : ℕ → Outcome V → Option (Outcome V) → Tasks V → Tasks V
  finish_task i o none self =
      if ltb i self.created then record self { outcome = update self.outcome i (some o) } else self
  finish_task i o (some _) self = self

  -- What the callback does with the end of the wrapper.
  abbrev pub handle : ℕ → End → Tasks V → Tasks V
  handle i (persisted_exception exc) self = record self { reported = exc ∷ self.reported }
  handle i (bare exc) self = record self { exceptions = (i, exc) ∷ self.exceptions }
  handle i returned self = self
  handle i stopped self = self

  abbrev pub persisted_task_callback : ℕ → Wrapper → Tasks V → Tasks V
  persisted_task_callback i (ended end) self = record (handle i end self) {
    wrapper = update self.wrapper i handled;
    persisted = update self.persisted i false;
  }
  persisted_task_callback i _ self = self

  module _ (is_exception : Exn → Bool) where
    abbrev pub persisted_task_exc_wrap : Outcome V → End
    persisted_task_exc_wrap (finished v) = returned
    persisted_task_exc_wrap cancelled = stopped
    persisted_task_exc_wrap (failed e) = if is_exception e then persisted_exception e else bare e

    abbrev pub go_on : ℕ → Wrapper → Option (Outcome V) → Tasks V → Tasks V
    go_on i running (some o) self = record self {
      wrapper = update self.wrapper i (ended (persisted_task_exc_wrap o));
    }
    go_on i _ _ self = self

    unfoldable pub step : Event V → Tasks V → Tasks V
    unfolding ccreate_task
    step (create skip) self = (ccreate_task skip self).1
    step (finish i o) self = finish_task i o (self.outcome i) self
    step (wake i) self = go_on i (self.wrapper i) (self.outcome i) self
    step (callback i) self = persisted_task_callback i (self.wrapper i) self

    unfoldable pub run : List (Event V) → Tasks V → Tasks V
    unfolding step
    run [] self = self
    run (e ∷ es) self = run es (step e self)

  abbrev pub init : Tasks V
  init = record {
    created = 0;
    outcome = λ i. none;
    wrapper = λ i. missing;
    persisted = λ i. false;
    exceptions = [];
    reported = [];
  }
