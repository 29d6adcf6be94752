-- ===== src/Executor.antt =====
-- a_sync/executor.py: `_AsyncExecutorMixin.submit` and `run` in both modes, `_copy_future_state` and
-- the initialisers; the pool of threads that is pruned is in Pool.
-- `_convert_future_exc` of asyncio, which replaces exceptions of concurrent.futures, is a parameter.
-- A function that is submitted is a value, and its outcome a parameter. The pool that the executor
-- extends (concurrent.futures) runs the work items in any order.
pub mod Pool
pub mod Modes
pub mod Examples
use ez_a_sync.Prelude.{
  ℕ, zero, suc, ◌+◌, ◌≡◌, Bool, true, false, List, [], ◌∷◌, ◌++◌, Option, none, some, Result, ok,
  err, Exn, cancelled_error, Exec, if◌then◌else◌, ◌==◌,
}
use ez_a_sync.Asyncio.Futures.{Future, pending, cancelled, result, exception}

-- `except Exception` lets a `CancelledError` pass.
abbrev pub is_exception : Exn → Bool
is_exception cancelled_error = false
is_exception _ = true

-- `_copy_future_state`: a future that was cancelled in the meantime stays cancelled.
abbrev pub copied : {V : Type 0} → (Exn → Exn) → Future V → Result V → Future V
copied convert_future_exc cancelled r = cancelled
copied convert_future_exc fut (ok v) = result v
copied convert_future_exc fut (err e) = exception (convert_future_exc e)

-- `items` are the work items that the pool holds, each with the future that its callback serves;
-- `calls` are the calls that wait in the event loop.
pub record Executor (A V : Type 0) : Type 0 where
  pub max_workers : ℕ
  pub sync_mode : Bool
  pub created : ℕ
  pub futs : ℕ → Future V
  pub items : List (A × Option ℕ)
  pub calls : List (ℕ × Result V)

module _ {A V : Type 0} where
  -- `__init__` and `__init_mixin__`: 0 workers mean that functions run in the caller's thread.
  abbrev pub init : ℕ → Executor A V
  init n = record {
    max_workers = n;
    sync_mode = n == 0;
    created = 0;
    futs = λ _. pending;
    items = [];
    calls = [];
  }

  unfoldable pub set_future : ℕ → Future V → Executor A V → Executor A V
  set_future i f s = record s { futs = λ j. if i == j then f else s.futs j }

  -- `loop.create_future()`
  unfoldable pub create_future : Executor A V → Executor A V
  create_future s = record s { created = s.created + 1 }

  unfoldable pub super_submit : A → Option ℕ → Executor A V → Executor A V
  super_submit fn fut s = record s { items = s.items ++ (fn, fut) ∷ [] }

  unfoldable pub copy_future_state : (Exn → Exn) → ℕ → Result V → Executor A V → Executor A V
  copy_future_state convert i r s = set_future i (copied convert (s.futs i) r) s

  -- `_call_copy_future_state`: what the pool's future calls when the work item is done.
  abbrev pub copy_later : Future V → ℕ → Result V → Executor A V → Executor A V
  copy_later cancelled i r s = s
  copy_later fut i r s = record s { calls = s.calls ++ (i, r) ∷ [] }

  unfoldable pub call_copy_future_state : ℕ → Result V → Executor A V → Executor A V
  call_copy_future_state i r s = copy_later (s.futs i) i r s

  -- The event loop runs the calls that wait, oldest first.
  unfoldable pub run_calls : (Exn → Exn) → List (ℕ × Result V) → Executor A V → Executor A V
  run_calls convert [] s = s
  run_calls convert ((i, r) ∷ calls) s = run_calls convert calls (copy_future_state convert i r s)

  unfoldable pub loop_once : (Exn → Exn) → Executor A V → Executor A V
  loop_once convert s = run_calls convert s.calls (record s { calls = [] })

  module _ (call : A → Result V) where
    -- In the caller's thread.
    abbrev pub call_now : Result V → Exec (Executor A V) (Option ℕ)
    call_now (ok v) s = (ok (some s.created), set_future s.created (result v) (create_future s))
    call_now (err e) s =
        if is_exception e
        then (ok (some s.created), set_future s.created (exception e) (create_future s))
        else (err e, create_future s)

    abbrev pub call_and_forget : Result V → Exec (Executor A V) (Option ℕ)
    call_and_forget (ok v) s = (ok none, s)
    call_and_forget (err e) s = (err e, s)

    unfoldable pub submit : A → Bool → Exec (Executor A V) (Option ℕ)
    submit fn true s =
        if s.sync_mode then call_and_forget (call fn) s else (ok none, super_submit fn none s)
    submit fn false s =
        if s.sync_mode
        then call_now (call fn) s
        else (ok (some s.created), super_submit fn (some s.created) (create_future s))

    -- A worker has run the oldest work item.
    abbrev pub served : A → Option ℕ → Executor A V → Executor A V
    served fn none s = s
    served fn (some i) s = call_copy_future_state i (call fn) s

    unfoldable pub run_item : Executor A V → Executor A V
    run_item s = elim s.items [
      | [] ↦ s
      | (fn, fut) ∷ rest ↦ served fn fut (record s { items = rest })
    ]

    unfoldable pub run_items : ℕ → Executor A V → Executor A V
    run_items zero s = s
    run_items (suc n) s = run_items n (run_item s)
