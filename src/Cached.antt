-- ===== src/Cached.antt =====
-- a_sync/a_sync/property.pyx: the loader of a cached property, for one instance, without a setter
-- and without deletion. `asyncio.Lock` is taken to give itself to one of those that wait for it, in
-- any order. A run is a list of what callers, the lock and the task of the getter do.
pub mod Agreed
pub mod Once
pub mod Examples
use ez_a_sync.Prelude.{
  ℕ, suc, Bool, true, false, List, [], ◌∷◌, Option, none, some, Exn, cancelled_error, ltb,
  if◌then◌else◌, ltb, if◌then◌else◌,
}
use ez_a_sync.Gather.{Outcome, finished, failed, cancelled}
use ez_a_sync.Smart.{update}

-- A call of the property: before it, in `async with locks[field_name]`, in `await
-- shield(inner_task)`, or ended.
pub data Caller (V : Type 0) : Type 0 where
  absent waiting : Caller V
  awaiting : ℕ → Caller V
  got : V → Caller V
  raised : Exn → Caller V

-- `cache` and `task` are the entries of the field in `cache_state`; `outcome` is how the tasks of
-- the getter have ended, and `created` counts them.
pub record CacheState (V : Type 0) : Type 0 where
  pub cache : Option V
  pub task : Option ℕ
  pub owner : Option ℕ
  pub caller : ℕ → Caller V
  pub outcome : ℕ → Option (Outcome V)
  pub created : ℕ

pub data Event (V : Type 0) : Type 0 where
  call grant resume : ℕ → Event V
  -- the task of the getter ends, and a caller is cancelled
  done : ℕ → Outcome V → Event V
  cancel : ℕ → Event V

module _ {V : Type 0} where
  abbrev pub with_caller : ℕ → Caller V → CacheState V → CacheState V
  with_caller c state self = record self { caller = update self.caller c state }

  -- `if field_name in cache`, before the lock
  abbrev pub look_up : ℕ → Option V → CacheState V → CacheState V
  look_up c (some v) self = with_caller c (got v) self
  look_up c none self = with_caller c waiting self

  abbrev pub arrive : ℕ → Caller V → CacheState V → CacheState V
  arrive c absent self = look_up c self.cache self
  arrive c _ self = self

  -- The body of `async with`, up to `await shield(inner_task)`.
  abbrev pub enter : ℕ → Option V → Option ℕ → CacheState V → CacheState V
  enter c (some v) task self = with_caller c (got v) self
  enter c none (some i) self = record (with_caller c (awaiting i) self) { owner = some c }
  enter c none none self = record (with_caller c (awaiting self.created) self) {
    owner = some c;
    task = some self.created;
    created = suc self.created;
  }

  abbrev pub acquire : ℕ → Caller V → Option ℕ → CacheState V → CacheState V
  acquire c waiting none self = enter c self.cache self.task self
  acquire c _ _ self = self

  -- What `await shield(inner_task)` gives, and what the loader does with it.
  abbrev pub loaded : ℕ → Option (Outcome V) → CacheState V → CacheState V
  loaded c none self = self
  loaded c (some (finished v)) self = record (with_caller c (got v) self) {
    cache = some v;
    task = none;
    owner = none;
  }
  loaded c (some (failed e)) self = record (with_caller c (raised e) self) {
    task = none;
    owner = none;
  }
  loaded c (some cancelled) self = record (with_caller c (raised cancelled_error) self) {
    task = none;
    owner = none;
  }

  abbrev pub go_on : ℕ → Caller V → CacheState V → CacheState V
  go_on c (awaiting i) self = loaded c (self.outcome i) self
  go_on c _ self = self

  -- `except CancelledError`: the entry in `tasks` goes if the task is done.
  abbrev pub task_after : Option (Outcome V) → Option ℕ → Option ℕ
  task_after none task = task
  task_after (some o) task = none

  abbrev pub interrupt : ℕ → Caller V → CacheState V → CacheState V
  interrupt c waiting self = with_caller c (raised cancelled_error) self
  interrupt c (awaiting i) self = record (with_caller c (raised cancelled_error) self) {
    task = task_after (self.outcome i) self.task;
    owner = none;
  }
  interrupt c _ self = self

  -- A task that has been created ends once.
  abbrev pub end_task : ℕ → Outcome V → Option (Outcome V) → CacheState V → CacheState V
  end_task i o none self =
      if ltb i self.created then record self { outcome = update self.outcome i (some o) } else self
  end_task i o (some _) self = self

  unfoldable pub step : Event V → CacheState V → CacheState V
  step (call c) self = arrive c (self.caller c) self
  step (grant c) self = acquire c (self.caller c) self.owner self
  step (resume c) self = go_on c (self.caller c) self
  step (done i o) self = end_task i o (self.outcome i) self
  step (cancel c) self = interrupt c (self.caller c) self

  unfoldable pub run : List (Event V) → CacheState V → CacheState V
  unfolding step
  run [] self = self
  run (e ∷ es) self = run es (step e self)

  abbrev pub init : CacheState V
  init = record {
    cache = none;
    task = none;
    owner = none;
    caller = λ c. absent;
    outcome = λ i. none;
    created = 0;
  }
