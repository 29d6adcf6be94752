-- ===== src/TaskMapping/Loops.antt =====
-- a_sync/task.py: `TaskMapping.__aiter__` and the aggregates that loop over it.
-- What the event loop does is an input: the keys in the order in which their tasks are done, with
-- the outcomes, and how the loader of the keys ends, where there is one.
use ez_a_sync.Prelude.{
  ℕ, Bool, true, false, List, [], ◌∷◌, Option, none, some, Result, ok, err, no_elements,
  cancelled_error, invalid_state_error, mapping_is_empty, empty_sequence_error, Exec, and_then,
  is_empty, if◌then◌else◌,
}
use ez_a_sync.Asyncio.Futures.{Future, pending, cancelled, result, exception}
use ez_a_sync.TaskMapping.{TaskMapping, is_done, pop, if_pop_check_destroyed, if_pop_clear}

-- The tasks of the keys as they are done.
abbrev pub Events : Type 0 → Type 0
Events V = List (ℕ × Result V)

-- `loader`: what is done while the loader runs, and how it ends; `rest`: what is done after it.
pub record Input (V : Type 0) : Type 0 where
  pub loader : Option (Events V × Result (Unit {0}))
  pub rest : Events V

-- The body of a loop goes on, or returns from the loop.
pub data Loop (B : Type 0) : Type 0 where
  go_on leave : B → Loop B

module _ {V B : Type 0} (body : B → V → Loop B) (pops : Bool) where
  abbrev pub popped : ℕ → TaskMapping V → TaskMapping V
  popped k s = if pops then (pop k false s).1 else s

  -- `async for key, result in self.__aiter__(pop=pop): ...`, once the tasks are running. A task
  -- that has failed is left for `finally` to remove.
  unfoldable pub for_each : Events V → B → Exec (TaskMapping V) (Loop B)
  for_each [] b s = (ok (go_on b), s)
  for_each ((k, err e) ∷ es) b s = (err e, s)
  for_each ((k, ok v) ∷ es) b s = elim (body b v) [
    | leave b' ↦ (ok (leave b'), popped k s)
    | go_on b' ↦ for_each es b' (popped k s)
  ]

  -- `await self._init_loader` raises what the loader has raised.
  abbrev pub after_loader : Result (Unit {0}) → Events V → Loop B → Exec (TaskMapping V) (Loop B)
  after_loader r es (leave b) s = (ok (leave b), s)
  after_loader (err e) es (go_on b) s = (err e, s)
  after_loader (ok u) es (go_on b) s = for_each es b s

  abbrev pub yields : Input V → B → Exec (TaskMapping V) (Loop B)
  yields i b s = elim i.loader [
    | none ↦ if is_empty s.dict then (err mapping_is_empty, s) else for_each i.rest b s
    | some (es, r) ↦ and_then (for_each es b s) (after_loader r i.rest)
  ]

  abbrev pub finally_clear : Result (Loop B) × TaskMapping V → Result (Loop B) × TaskMapping V
  finally_clear (r, s) = (r, if_pop_clear pops s)

  unfoldable pub aiter : Input V → B → Exec (TaskMapping V) (Loop B)
  aiter i b s = and_then (if_pop_check_destroyed pops s) (λ _ s'. finally_clear (yields i b s'))

abbrev pub value_of : {B : Type 0} → Loop B → B
value_of (go_on b) = b
value_of (leave b) = b

module _ {V : Type 0} (truthy : V → Bool) where
  abbrev pub all_body : Bool → V → Loop Bool
  all_body b v = if truthy v then go_on b else leave false

  abbrev pub any_body : Bool → V → Loop Bool
  any_body b v = if truthy v then leave true else go_on b

  -- `except _EmptySequenceError: return default`
  abbrev pub or_default : Bool → Result (Loop Bool) → Result Bool
  or_default b (ok l) = ok (value_of l)
  or_default b (err no_elements) = ok b
  or_default b (err e) = err e

  unfoldable pub all : Bool → Input V → Exec (TaskMapping V) Bool
  all pops i s =
      let (r, s') = aiter all_body pops i true s in (or_default true r, if_pop_clear pops s')

  unfoldable pub any : Bool → Input V → Exec (TaskMapping V) Bool
  any pops i s =
      let (r, s') = aiter any_body pops i false s in (or_default false r, if_pop_clear pops s')

-- `better` is `>` for `max` and `<` for `min`; no result is `None`.
module _ {V : Type 0} (better : V → V → Bool) where
  abbrev pub best_body : Option V → V → Loop (Option V)
  best_body none v = go_on (some v)
  best_body (some m) v = go_on (some (if better v m then v else m))

  abbrev pub or_empty : Result (Loop (Option V)) → Result V
  or_empty (ok l) = elim (value_of l) [ none ↦ err empty_sequence_error | some m ↦ ok m ]
  or_empty (err no_elements) = err empty_sequence_error
  or_empty (err e) = err e

  unfoldable pub best : Bool → Input V → Exec (TaskMapping V) V
  best pops i s = let (r, s') = aiter best_body pops i none s in (or_empty r, s')

module _ {V : Type 0} (add : V → V → V) (nought : V) where
  abbrev pub sum_body : V → V → Loop V
  sum_body acc v = go_on (add acc v)

  abbrev pub or_nought : Result (Loop V) → Result V
  or_nought (ok l) = ok (value_of l)
  or_nought (err no_elements) = ok nought
  or_nought (err e) = err e

  unfoldable pub sum : Bool → Input V → Exec (TaskMapping V) V
  sum pops i s = let (r, s') = aiter sum_body pops i nought s in (or_nought r, s')

module _ {V : Type 0} where
  -- `task.result()` of a task that is done; the result is yielded.
  abbrev pub taken : ℕ → Future V → Result (List (ℕ × V)) → Result (List (ℕ × V))
  taken k (result v) (ok vs) = ok ((k, v) ∷ vs)
  taken k (result v) (err e) = err e
  taken k (exception e) rest = err e
  taken k cancelled rest = err cancelled_error
  taken k pending rest = err invalid_state_error

  abbrev pub is_result : Future V → Bool
  is_result (result v) = true
  is_result _ = false

  -- `tuple(k for k, task in dict.items(self) if task.done())`
  abbrev pub completed : (ℕ → Future V) → List (ℕ × ℕ) → List (ℕ × ℕ)
  completed tasks [] = []
  completed tasks ((k, t) ∷ d) =
      if is_done (tasks t) then (k, t) ∷ completed tasks d else completed tasks d

  -- Items that were yielded before one raises count as lost with the loop over them.
  unfoldable pub yield_completed_from : Bool → List (ℕ × ℕ) → Exec (TaskMapping V) (List (ℕ × V))
  yield_completed_from pops [] s = (ok [], s)
  yield_completed_from pops ((k, t) ∷ d) s =
      let s1 = if pops then (pop k false s).1 else s in
      let (rest, s2) = yield_completed_from pops d s1 in
      (taken k (s.tasks t) rest, if is_result (s.tasks t) then s2 else s1)

  unfoldable pub yield_completed : Bool → Exec (TaskMapping V) (List (ℕ × V))
  yield_completed pops s = yield_completed_from pops (completed s.tasks s.dict) s
