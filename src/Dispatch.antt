-- ===== src/Dispatch.antt =====
-- a_sync/a_sync/function.pyx, with _flags.pyx, _kwargs.pyx and _helpers.pyx: how a call of an
-- `_ASyncFunction` chooses between the two modes, and what it returns in each.
-- `V` are Python's objects, `truthy` is how C code reads one as a flag, `Rest` are the keyword
-- arguments that are no flags. The function itself is its outcome for its arguments.
pub mod Calls
pub mod Methods
pub mod Modified
pub mod Classes
pub mod Instances
pub mod Examples
use ez_a_sync.Prelude.{
  ℕ, Bool, true, false, not, List, [], ◌∷◌, Option, none, some, Result, ok, err, Exn,
  too_many_flags, invalid_flag, runtime_error, sync_mode_in_async_context, if◌then◌else◌,
}
use ez_a_sync.Decorator.{
  DefaultMode, sync_default, async_default, no_default, DecoClass, sync_default_class,
  async_default_class,
}

-- `AFFIRMATIVE_FLAGS` is the first, `NEGATIVE_FLAGS` the second.
pub data Flag : Type 0 where
  sync asynchronous : Flag

pub record Kwargs (V Rest : Type 0) : Type 0 where
  pub sync_value : Option V
  pub asynchronous_value : Option V
  pub rest : Rest

-- What a call returns: a value, or a coroutine, which runs in the event loop, or runs the function
-- in the executor.
pub data Ret (V : Type 0) : Type 0 where
  value : V → Ret V
  coroutine pooled : Result V → Ret V

-- An `_ASyncFunction`: `body` is the modified function.
pub record AFunction (V Rest Args : Type 0) : Type 0 where
  pub async_def : Bool
  pub default : DefaultMode
  pub body : Args → Rest → Result V

abbrev pub negate_if_necessary : Flag → Bool → Bool
negate_if_necessary sync b = b
negate_if_necessary asynchronous b = not b

module _ {V Rest : Type 0} where
  -- `get_flag_name`; `none` is the empty name.
  unfoldable pub get_flag_name : Kwargs V Rest → Result (Option Flag)
  get_flag_name kw = elim kw.sync_value [
    | none ↦ elim kw.asynchronous_value [ none ↦ ok none | some v ↦ ok (some asynchronous) ]
    | some v ↦ elim kw.asynchronous_value [ none ↦ ok (some sync) | some w ↦ err too_many_flags ]
  ]

  -- `kwargs[flag]`, for a flag that is there.
  abbrev pub flag_value : Flag → Kwargs V Rest → Option V
  flag_value sync kw = kw.sync_value
  flag_value asynchronous kw = kw.asynchronous_value

  -- `kwargs.pop(flag)`
  abbrev pub pop_flag : Flag → Kwargs V Rest → Kwargs V Rest
  pop_flag sync kw = record kw { sync_value = none }
  pop_flag asynchronous kw = record kw { asynchronous_value = none }

  -- `is_sync(flag, kwargs, ...)`
  unfoldable pub is_sync : (V → Bool) → Flag → Kwargs V Rest → Result Bool
  is_sync truthy flag kw = elim (flag_value flag kw) [
    | none ↦ err invalid_flag
    | some v ↦ ok (negate_if_necessary flag (truthy v))
  ]

-- `_await` outside a running loop runs the coroutine to its end.
unfoldable pub await_now : {V : Type 0} → Bool → Ret V → Result (Ret V)
await_now true r = err sync_mode_in_async_context
await_now false (value v) = ok (value v)
await_now false (coroutine (ok v)) = ok (value v)
await_now false (coroutine (err e)) = err e
await_now false (pooled (ok v)) = ok (value v)
await_now false (pooled (err e)) = err e

-- A call of the function itself, in the caller's thread.
abbrev pub call_here : {V : Type 0} → Result V → Result (Ret V)
call_here (ok v) = ok (value v)
call_here (err e) = err e

module _ {V Rest Args : Type 0} where
  unfoldable pub is_sync_default : AFunction V Rest Args → Bool
  is_sync_default f = elim f.default [
    | sync_default ↦ true
    | async_default ↦ false
    | no_default ↦ not f.async_def
  ]

module _ {V Rest Args : Type 0} (truthy : V → Bool) where
  -- `_run_sync`, with the keyword arguments that are left.
  unfoldable pub run_sync : AFunction V Rest Args → Kwargs V Rest → Result (Bool × Kwargs V Rest)
  run_sync f kw = elim (get_flag_name kw) [
    | err e ↦ err e
    | ok none ↦ ok (is_sync_default f, kw)
    | ok (some flag) ↦ elim (is_sync truthy flag kw) [
      | err e ↦ err e
      | ok b ↦ ok (b, pop_flag flag kw)
    ]
  ]

  -- `loop` is whether an event loop is running.
  unfoldable pub async_wrap : Bool → AFunction V Rest Args → Args → Kwargs V Rest → Result (Ret V)
  async_wrap loop f args kw = elim (run_sync f kw) [
    | err e ↦ err e
    | ok (should_await, kw') ↦
        let coro = coroutine (f.body args kw'.rest) in
        if should_await then await_now loop coro else ok coro
  ]

  unfoldable pub sync_wrap : AFunction V Rest Args → Args → Kwargs V Rest → Result (Ret V)
  sync_wrap f args kw = elim (run_sync f kw) [
    | err e ↦ err e
    | ok (b, kw') ↦
        if b then call_here (f.body args kw'.rest) else ok (pooled (f.body args kw'.rest))
  ]

  -- `get_fn` and `__call__`
  unfoldable pub call_function :
      Bool → AFunction V Rest Args → Args → Kwargs V Rest → Result (Ret V)
  call_function loop f args kw =
      if f.async_def then async_wrap loop f args kw else sync_wrap f args kw

-- `_validate_argspec` on the names of the arguments, `none` for a name that is no flag.
unfoldable pub validate_argspec : List (Option Flag) → Result (Unit {0})
validate_argspec [] = ok tt
validate_argspec (none ∷ names) = validate_argspec names
validate_argspec (some flag ∷ names) = err runtime_error

-- `ASyncDecorator.__call__`: the class of the function that is made.
unfoldable pub function_class : DefaultMode → Bool → DecoClass
function_class async_default async_def = async_default_class
function_class sync_default async_def = sync_default_class
function_class no_default async_def = if async_def then async_default_class else sync_default_class
