-- ===== src/Dispatch/Methods.antt =====
-- a_sync/a_sync/method.pyx: the bound methods that a descriptor makes, and calls of them.
use ez_a_sync.Prelude.{
  ◌≡◌, refl, ap, ◌∙◌, Bool, true, false, none, some, Result, ok, err, Exn, attribute_error,
  if◌then◌else◌,
}
use ez_a_sync.Decorator.{DefaultMode, sync_default, async_default, no_default}
use ez_a_sync.Dispatch.{
  Kwargs, Ret, value, coroutine, AFunction, get_flag_name, is_sync, await_now, call_here,
  is_sync_default, call_function,
}
use ez_a_sync.Dispatch.Calls.{in_mode, plain_call, with_sync, call_function-IsCall}

-- The object that a method is bound to. An ASync instance has a mode, or an exception where the
-- mode cannot be read.
pub data Owner : Type 0 where
  plain_object : Owner
  async_object : Result Bool → Owner

-- An `_ASyncBoundMethod`. `is_async` is `_is_async_def`, what the descriptor found the method to be.
pub record BoundMethod (V Rest Args : Type 0) : Type 0 where
  pub fn : AFunction V Rest Args
  pub is_async : Bool
  pub owner : Owner

pub data BoundClass : Type 0 where
  bound_sync_default bound_async_default bound_no_default : BoundClass

-- The class of the bound method that `ASyncMethodDescriptor.__get__` makes.
unfoldable pub bound_class : DefaultMode → Owner → Result BoundClass
bound_class sync_default owner = ok bound_sync_default
bound_class async_default owner = ok bound_async_default
bound_class no_default plain_object = ok bound_no_default
bound_class no_default (async_object (ok true)) = ok bound_sync_default
bound_class no_default (async_object (ok false)) = ok bound_async_default
bound_class no_default (async_object (err attribute_error)) = ok bound_no_default
bound_class no_default (async_object (err e)) = err e

-- What a method does with what its function gives: an awaitable is awaited where `b` holds.
unfoldable pub await_if : {V : Type 0} → Bool → Result Bool → Result (Ret V) → Result (Ret V)
await_if loop b (err e) = err e
await_if loop b (ok (value v)) = ok (value v)
await_if loop (err e) (ok r) = err e
await_if loop (ok true) (ok r) = await_now loop r
await_if loop (ok false) (ok r) = ok r

module _ {V Rest Args : Type 0} where
  -- `_should_await`, for keyword arguments without a flag.
  unfoldable pub default_should_await : BoundMethod V Rest Args → Result Bool
  default_should_await m = elim m.fn.default [
    | sync_default ↦ ok true
    | async_default ↦ ok false
    | no_default ↦ elim m.owner [ plain_object ↦ ok m.is_async | async_object mode ↦ mode ]
  ]

module _ {V Rest Args : Type 0} (truthy : V → Bool) where
  unfoldable pub should_await : BoundMethod V Rest Args → Kwargs V Rest → Result Bool
  should_await m kw = elim (get_flag_name kw) [
    | err e ↦ err e
    | ok (some flag) ↦ is_sync truthy flag kw
    | ok none ↦ default_should_await m
  ]

  -- The call pops the flag from its own copy of `kwargs`.
  unfoldable pub call_method :
      Bool → BoundMethod V Rest Args → Args → Kwargs V Rest → Result (Ret V)
  call_method loop m args kw =
      await_if loop (should_await m kw) (call_function truthy loop m.fn args kw)

await_if_same :
    {V : Type 0} (loop d b : Bool) (r : Result V)
    → await_if loop (ok b) (in_mode loop d b r) ≡ in_mode loop d b r
unfolding await_if await_now
await_if_same true true true r = refl
await_if_same false true true (ok v) = refl
await_if_same false true true (err e) = refl
await_if_same loop true false r = refl
await_if_same loop false true (ok v) = refl
await_if_same loop false true (err e) = refl
await_if_same loop false false r = refl

await_if_coroutine :
    {V : Type 0} (loop b : Bool) (r : Result V)
    → await_if loop (ok b) (ok (coroutine r)) ≡ in_mode loop true b r
unfolding await_if await_now
await_if_coroutine loop true r = refl
await_if_coroutine loop false r = refl

await_if_here :
    {V : Type 0} (loop : Bool) (b : Result Bool) (r : Result V)
    → await_if loop b (call_here r) ≡ call_here r
unfolding await_if
await_if_here loop b (ok v) = refl
await_if_here loop b (err e) = refl

module _ {V Rest Args : Type 0} (truthy : V → Bool) where
  -- A flag in the call decides, for the method as for its function.
  pub flag_decides_sync :
      (loop : Bool) (m : BoundMethod V Rest Args) (args : Args) (v : V) (rest : Rest)
      → call_method truthy loop m args
          (record { sync_value = some v; asynchronous_value = none; rest = rest })
        ≡ in_mode loop m.fn.async_def (truthy v) (m.fn.body args rest)
  unfolding call_method should_await get_flag_name is_sync
  flag_decides_sync loop m args v rest =
      ap (await_if loop (ok (truthy v)))
        (call_function-IsCall truthy m.fn loop args _ (truthy v) (with_sync v rest))
      ∙ await_if_same loop m.fn.async_def (truthy v) (m.fn.body args rest)

-- The mode of a call without a flag.
abbrev pub method_mode : {V Rest Args : Type 0} → BoundMethod V Rest Args → Result Bool
method_mode m = if m.fn.async_def then default_should_await m else ok (is_sync_default m.fn)

abbrev pub no_flag : {V Rest : Type 0} → Rest → Kwargs V Rest
no_flag rest = record { sync_value = none; asynchronous_value = none; rest = rest }

ok_bool : (b c : Bool) → ◌≡◌ {A = Result Bool} (ok b) (ok c) → b ≡ c
ok_bool b c e = cc

module _ {V Rest Args : Type 0} (truthy : V → Bool) where
  abbrev method :
      Bool → DefaultMode → (Args → Rest → Result V) → Bool → Owner → BoundMethod V Rest Args
  method d def f i o = record {
    fn = record { async_def = d; default = def; body = f };
    is_async = i;
    owner = o;
  }

  with_default :
      (loop d s : Bool) (def : DefaultMode) (f : Args → Rest → Result V) (i : Bool) (o : Owner)
      (args : Args) (rest : Rest) (b : Bool)
      → ◌≡◌ {A = Result Bool} (ok s) (ok b)
      → is_sync_default (method d def f i o).fn ≡ s
      → default_should_await (method d def f i o) ≡ ok s
      → call_method truthy loop (method d def f i o) args (no_flag rest)
        ≡ in_mode loop d b (f args rest)
  unfolding call_method should_await get_flag_name
  with_default loop d s def f i o args rest b h e w =
      ap (await_if loop (default_should_await (method d def f i o)))
        (call_function-IsCall truthy _ loop args _ _ (plain_call rest))
      ∙ ap
          (λ x.
            await_if loop x
              (in_mode loop d (is_sync_default (method d def f i o).fn) (f args rest)))
          w
      ∙ ap (λ x. await_if loop (ok s) (in_mode loop d x (f args rest))) e
      ∙ await_if_same loop d s (f args rest)
      ∙ ap (λ x. in_mode loop d x (f args rest)) (ok_bool s b h)

  by_parts :
      (loop d : Bool) (def : DefaultMode) (f : Args → Rest → Result V) (i : Bool) (o : Owner)
      (args : Args) (rest : Rest) (b : Bool)
      → method_mode (method d def f i o) ≡ ok b
      → call_method truthy loop (method d def f i o) args (no_flag rest)
        ≡ in_mode loop d b (f args rest)
  unfolding call_method should_await default_should_await get_flag_name is_sync_default
  by_parts loop true no_default f i o args rest b h =
      ap (await_if loop (default_should_await (method true no_default f i o)))
        (call_function-IsCall truthy _ loop args _ false (plain_call rest))
      ∙ ap (λ w. await_if loop w (ok (coroutine (f args rest)))) h
      ∙ await_if_coroutine loop b (f args rest)
  by_parts loop true sync_default f i o args rest b h =
      with_default loop true true sync_default f i o args rest b h refl refl
  by_parts loop true async_default f i o args rest b h =
      with_default loop true false async_default f i o args rest b h refl refl
  by_parts loop false no_default f i o args rest b h =
      ap (await_if loop (default_should_await (method false no_default f i o)))
        (call_function-IsCall truthy _ loop args _ true (plain_call rest))
      ∙ await_if_here loop (default_should_await (method false no_default f i o)) (f args rest)
      ∙ ap (λ w. in_mode loop false w (f args rest)) (ok_bool true b h)
  by_parts loop false sync_default f i o args rest b h =
      with_default loop false true sync_default f i o args rest b h refl refl
  by_parts loop false async_default f i o args rest b h =
      with_default loop false false async_default f i o args rest b h refl refl

  -- A call of a bound method without a flag acts by the mode that `method_mode` gives, if there
  -- is one: in synchronous mode an `async def` runs to its end or raises in a running loop, and
  -- another function runs in the caller's thread; in asynchronous mode the call returns a
  -- coroutine or work for the executor.
  pub method_by_mode :
      (loop : Bool) (m : BoundMethod V Rest Args) (args : Args) (rest : Rest) (b : Bool)
      → method_mode m ≡ ok b
      → call_method truthy loop m args (no_flag rest)
        ≡ in_mode loop m.fn.async_def b (m.fn.body args rest)
  method_by_mode loop m args rest b h =
      by_parts loop m.fn.async_def m.fn.default m.fn.body m.is_async m.owner args rest b h

  -- A call without a flag of a method that is no `async def` and has no default runs it in the
  -- caller's thread and returns its value or raises, whatever object it is bound to, an
  -- asynchronous instance included.
  pub plain_method_is_sync :
      (loop : Bool) (f : Args → Rest → Result V) (i : Bool) (o : Owner) (args : Args) (rest : Rest)
      → call_method truthy loop
          (record {
            fn = record { async_def = false; default = no_default; body = f };
            is_async = i;
            owner = o;
          })
          args
          (no_flag rest)
        ≡ call_here (f args rest)
  unfolding is_sync_default
  plain_method_is_sync loop f i o args rest =
      method_by_mode loop (method false no_default f i o) args rest true refl

  -- An `async def` method, with no default, of an instance of which the mode cannot be read.
  pub no_mode :
      (loop : Bool) (f : Args → Rest → Result V) (i : Bool) (e : Exn) (args : Args) (rest : Rest)
      → call_method truthy loop
          (record {
            fn = record { async_def = true; default = no_default; body = f };
            is_async = i;
            owner = async_object (err e);
          })
          args
          (no_flag rest)
        ≡ err e
  unfolding call_method should_await default_should_await get_flag_name await_if is_sync_default
  no_mode loop f i e args rest =
      ap (await_if loop (err e)) (call_function-IsCall truthy _ loop args _ false (plain_call rest))
