-- ===== src/AsyncFuture.antt =====
-- a_sync/future.py: `ASyncFuture`, a future whose operators build futures that depend on it.
-- Futures live in a store and are named by their place in it. What the operators do on results is a
-- parameter, and so is which operand of a future ends first, since that one's exception counts when
-- both fail. The store that `await_future` leaves is the one when both operands have ended.
pub mod Laws
pub mod Operate
pub mod Examples
use ez_a_sync.Prelude.{
  ℕ, zero, suc, ◌+◌, ◌<◌, ◌≡◌, Bool, true, false, List, [], ◌∷◌, ◌++◌, Option, none, some, Result,
  ok, err, Exn, value_error, runtime_error, if◌then◌else◌, ◌==◌,
}
use ez_a_sync.Executor.{is_exception}

pub data Arithmetic : Type 0 where
  add sub mul truediv floordiv pow : Arithmetic

pub data Comparison : Type 0 where
  eq gt ge lt le : Comparison

pub data Operator : Type 0 where
  arithmetic : Arithmetic → Operator
  comparison : Comparison → Operator

-- What an operator is applied to: a future, or a value that is not awaitable.
pub data Operand (V : Type 0) : Type 0 where
  fut : ℕ → Operand V
  value : V → Operand V

-- `__awaitable__`: one that was given, or the coroutine of an operator.
pub data Awaitable (V : Type 0) : Type 0 where
  given : Result V → Awaitable V
  compute : Operator → Operand V → Operand V → Awaitable V

-- `task` is the outcome of `__task`, once it has ended; `runs` counts the tasks that have been made of
-- each awaitable.
pub record Store (V : Type 0) : Type 0 where
  pub size : ℕ
  pub awaitable : ℕ → Awaitable V
  pub dependencies : ℕ → List ℕ
  pub dependants : ℕ → List ℕ
  pub done : ℕ → Option (Result V)
  pub task : ℕ → Option (Result V)
  pub runs : ℕ → ℕ

-- A map that differs at one place.
abbrev pub put : {A : Type 0} → ℕ → A → (ℕ → A) → ℕ → A
put i a f j = if i == j then a else f j

-- `for dependency in dependencies: dependency.__dependants.append(self)`
unfoldable pub append_dependant : ℕ → List ℕ → (ℕ → List ℕ) → ℕ → List ℕ
append_dependant i [] f = f
append_dependant i (d ∷ ds) f = append_dependant i ds (put d (f d ++ i ∷ []) f)

module _ {V : Type 0} where
  abbrev pub nothing_yet : Store V
  nothing_yet = record {
    size = 0;
    awaitable = λ _. given (err value_error);
    dependencies = λ _. [];
    dependants = λ _. [];
    done = λ _. none;
    task = λ _. none;
    runs = λ _. 0;
  }

  -- `ASyncFuture(awaitable, dependencies)`
  unfoldable pub new_future : Awaitable V → List ℕ → Store V → ℕ × Store V
  new_future a ds s = (
    s.size,
    record s {
      size = s.size + 1;
      awaitable = put s.size a s.awaitable;
      dependencies = put s.size ds s.dependencies;
      dependants = put s.size [] (append_dependant s.size ds s.dependants);
    },
  )

  -- `__list_dependencies`
  abbrev pub list_dependencies : ℕ → Operand V → List ℕ
  list_dependencies i (fut j) = i ∷ j ∷ []
  list_dependencies i (value v) = i ∷ []

  -- `self + other`, and `other + self` when only `self` is a future.
  unfoldable pub operate : Arithmetic → ℕ → Operand V → Store V → ℕ × Store V
  operate op i other s =
      new_future (compute (arithmetic op) (fut i) other) (list_dependencies i other) s

  unfoldable pub operate_right : Arithmetic → ℕ → Operand V → Store V → ℕ × Store V
  operate_right op i other s =
      new_future (compute (arithmetic op) other (fut i)) (list_dependencies i other) s

  -- The outcome is kept, unless there is one; `except Exception` leaves a cancellation.
  abbrev pub kept : Result V → Option (Result V) → Option (Result V)
  kept r (some r') = some r'
  kept (ok v) none = some (ok v)
  kept (err e) none = if is_exception e then some (err e) else none

  unfoldable pub set_done : ℕ → Result V → Store V → Store V
  set_done i r s = record s { done = put i (kept r (s.done i)) s.done }

  unfoldable pub start : ℕ → Store V → Store V
  start i s = record s { runs = put i (s.runs i + 1) s.runs }

  abbrev pub end_task : ℕ → Result V → Store V → Store V
  end_task i r s = record s { task = put i (some r) s.task }

  -- `_check_and_materialize`
  abbrev pub check_and_materialize :
      (ℕ → Store V → Option (Result V × Store V))
      → Operand V
      → Store V
      → Option (Result V × Store V)
  check_and_materialize wait (fut i) s = wait i s
  check_and_materialize wait (value v) s = some (ok v, s)

  module _ (apply : Operator → V → V → Result V) (left_first : ℕ → Bool) where
    -- What `_gather_check_and_materialize` gives or raises, and the operator on it.
    unfoldable pub combine : Bool → Operator → Result V → Result V → Result V
    combine left op (ok a) (ok b) = apply op a b
    combine left op (err e) (ok b) = err e
    combine left op (ok a) (err e) = err e
    combine true op (err e) (err f) = err e
    combine false op (err e) (err f) = err f

    -- The task of an awaitable, which awaits both operands.
    abbrev pub task_result :
        (ℕ → Store V → Option (Result V × Store V))
        → Bool
        → Awaitable V
        → Store V
        → Option (Result V × Store V)
    task_result wait left (given r) s = some (r, s)
    task_result wait left (compute op a b) s = elim (check_and_materialize wait a s) [
      | none ↦ none
      | some (ra, s1) ↦ elim (check_and_materialize wait b s1) [
        | none ↦ none
        | some (rb, s2) ↦ some (combine left op ra rb, s2)
      ]
    ]

    -- `_await`, on fuel.
    unfoldable pub await_future : ℕ → ℕ → Store V → Option (Result V × Store V)
    await_future zero i s = none
    await_future (suc n) i s = elim (s.done i) [
      | some r ↦ some (r, s)
      | none ↦ elim (s.task i) [
        | some r ↦ some (r, set_done i r s)
        | none ↦ elim (task_result (await_future n) (left_first i) (s.awaitable i) (start i s)) [
          | none ↦ none
          | some (r, s') ↦ some (r, set_done i r (end_task i r s'))
        ]
      ]
    ]

    -- `_materialize`: `run_until_complete` raises RuntimeError if an event loop is running.
    unfoldable pub materialize : Bool → ℕ → ℕ → Store V → Option (Result V × Store V)
    materialize true n i s = some (err runtime_error, s)
    materialize false n i s = await_future n i s

    -- `self == other` and the like, which give a value and no future.
    unfoldable pub compare :
        Bool → ℕ → Comparison → ℕ → Operand V → Store V → Option (Result V × Store V)
    compare running n op i other s =
        let (j, s') =
          new_future (compute (comparison op) (fut i) other) (list_dependencies i other) s in
        materialize running n j s'
