-- ===== src/TaskMapping.antt =====
-- a_sync/task.py: `TaskMapping`, a dictionary that starts a task for each key. Keys are numbers, one
-- for each class of equal keys; the mapping has no `concurrency`, so that each task is created at
-- once. A task that is asked to cancel counts as cancelled.
pub mod Loops
pub mod Dict
pub mod Consumed
pub mod Results
pub mod Examples
use ez_a_sync.Prelude.{
  ℕ, zero, suc, ◌+◌, Bool, true, false, not, List, [], ◌∷◌, ◌++◌, map, Option, none, some, Result,
  ok, err, Exn, key_error, runtime_error, mapping_is_empty, mapping_not_empty, value_error, Exec,
  and_then, is_empty, if◌then◌else◌, ◌==◌,
}
use ez_a_sync.Asyncio.Futures.{Future, pending, cancelled, result, exception}

-- `dict`, in the order of insertion, from a key to its task; `started` lists the keys for which the
-- function has been called.
pub record TaskMapping (V : Type 0) : Type 0 where
  pub dict : List (ℕ × ℕ)
  pub tasks : ℕ → Future V
  pub created : ℕ
  pub started : List ℕ
  pub destroyed : Bool

-- `dict.get`, `dict.__setitem__` and the removal of a key.
abbrev pub lookup : ℕ → List (ℕ × ℕ) → Option ℕ
lookup k [] = none
lookup k ((k', t) ∷ d) = if k == k' then some t else lookup k d

abbrev pub dict_set : ℕ → ℕ → List (ℕ × ℕ) → List (ℕ × ℕ)
dict_set k t [] = (k, t) ∷ []
dict_set k t ((k', t') ∷ d) = if k == k' then (k', t) ∷ d else (k', t') ∷ dict_set k t d

abbrev pub remove : ℕ → List (ℕ × ℕ) → List (ℕ × ℕ)
remove k [] = []
remove k ((k', t) ∷ d) = if k == k' then d else (k', t) ∷ remove k d

abbrev pub keys : List (ℕ × ℕ) → List ℕ
keys [] = []
keys ((k, t) ∷ d) = k ∷ keys d

-- `task.done()`, and a task after `task.cancel()`.
abbrev pub is_done : {V : Type 0} → Future V → Bool
is_done pending = false
is_done _ = true

abbrev pub cancel_fut : {V : Type 0} → Future V → Future V
cancel_fut pending = cancelled
cancel_fut fut = fut

module _ {V : Type 0} where
  abbrev pub init : TaskMapping V
  init = record { dict = []; tasks = λ _. pending; created = 0; started = []; destroyed = false }

  unfoldable pub start_task : ℕ → TaskMapping V → ℕ × TaskMapping V
  start_task k s = (
    s.created,
    record s {
      dict = dict_set k s.created s.dict;
      created = s.created + 1;
      started = s.started ++ k ∷ [];
    },
  )

  -- The loader of the keys, `_start_tasks_for_iterables`.
  unfoldable pub start_tasks : List ℕ → TaskMapping V → TaskMapping V
  start_tasks [] s = s
  start_tasks (k ∷ ks) s = start_tasks ks (start_task k s).1

  -- `__getitem__`
  unfoldable pub getitem : ℕ → TaskMapping V → ℕ × TaskMapping V
  getitem k s = elim (lookup k s.dict) [ some t ↦ (t, s) | none ↦ start_task k s ]

  unfoldable pub cancel : ℕ → TaskMapping V → TaskMapping V
  cancel t s = record s { tasks = λ i. if t == i then cancel_fut (s.tasks i) else s.tasks i }

  -- `pop(k, cancel=...)` of one key.
  unfoldable pub pop : ℕ → Bool → Exec (TaskMapping V) ℕ
  pop k c s = elim (lookup k s.dict) [
    | none ↦ (err key_error, s)
    | some t ↦ let s' = record s { dict = remove k s.dict } in (ok t, if c then cancel t s' else s')
  ]

  -- `__delitem__`
  unfoldable pub delitem : ℕ → Exec (TaskMapping V) (Unit {0})
  delitem k s = elim (lookup k s.dict) [
    | none ↦ (err key_error, s)
    | some t ↦
        let s' = if is_done (s.tasks t) then s else cancel t s in
        (ok tt, record s' { dict = remove k s'.dict })
  ]

  -- The keys were read from the dictionary, so that `pop` finds each.
  unfoldable pub pop_keys : List ℕ → Bool → TaskMapping V → TaskMapping V
  pop_keys [] c s = s
  pop_keys (k ∷ ks) c s = pop_keys ks c (pop k c s).1

  unfoldable pub clear : Bool → TaskMapping V → TaskMapping V
  clear c s = pop_keys (keys s.dict) c s

  unfoldable pub if_pop_check_destroyed : Bool → Exec (TaskMapping V) (Unit {0})
  if_pop_check_destroyed false s = (ok tt, s)
  if_pop_check_destroyed true s =
      if s.destroyed then (err runtime_error, s) else (ok tt, record s { destroyed = true })

  unfoldable pub if_pop_clear : Bool → TaskMapping V → TaskMapping V
  if_pop_clear false s = s
  if_pop_clear true s = clear true (record s { destroyed = true })
