-- ===== src/Dispatch/Calls.antt =====
-- a_sync/a_sync/function.pyx: what a call returns and raises, in each mode.
use ez_a_sync.Prelude.{
  ◌≡◌, refl, sym, subst, ap, ◌∙◌, Bool, true, false, not, none, some, Result, ok, err,
  too_many_flags, sync_mode_in_async_context, if◌then◌else◌, Bool-cases, inl, inr, arith,
}
use ez_a_sync.Decorator.{sync_default_class, async_default_class}
use ez_a_sync.Dispatch.{
  Kwargs, Ret, value, coroutine, pooled, AFunction, get_flag_name, is_sync, await_now,
  is_sync_default, run_sync, async_wrap, sync_wrap, call_here, call_function, function_class,
}

-- What awaiting the returned object gives, or the object itself.
abbrev pub finish : {V : Type 0} → Result (Ret V) → Result V
finish (err e) = err e
finish (ok (value v)) = ok v
finish (ok (coroutine r)) = r
finish (ok (pooled r)) = r

abbrev pub is_awaitable : {V : Type 0} → Ret V → Bool
is_awaitable (value v) = false
is_awaitable _ = true

finish-await : {V : Type 0} (r : Result V) → finish (await_now false (coroutine r)) ≡ r
unfolding await_now
finish-await (ok v) = refl
finish-await (err e) = refl

finish-here : {V : Type 0} (r : Result V) → finish (call_here r) ≡ r
finish-here (ok v) = refl
finish-here (err e) = refl

-- What a call comes down to, by its mode `b` and by the kind of the function.
abbrev pub in_mode : {V : Type 0} → Bool → Bool → Bool → Result V → Result (Ret V)
in_mode loop true true r = await_now loop (coroutine r)
in_mode loop true false r = ok (coroutine r)
in_mode loop false true r = call_here r
in_mode loop false false r = ok (pooled r)

finish-in_mode :
    {V : Type 0} (async_def b : Bool) (r : Result V) → finish (in_mode false async_def b r) ≡ r
finish-in_mode true true r = finish-await r
finish-in_mode true false r = refl
finish-in_mode false true r = finish-here r
finish-in_mode false false r = refl

ok_inj : {V : Type 0} (x y : Ret V) → ◌≡◌ {A = Result (Ret V)} (ok x) (ok y) → x ≡ y
ok_inj x y e = cc

in_mode-awaitable :
    {V : Type 0} (loop async_def b : Bool) (r : Result V) (o : Ret V)
    → in_mode loop async_def b r ≡ ok o
    → is_awaitable o ≡ not b
unfolding await_now
in_mode-awaitable true true true r o e = cc
in_mode-awaitable false true true (ok v) o e =
    subst (λ x. is_awaitable x ≡ false) (ok_inj (value v) o e) refl
in_mode-awaitable false true true (err x) o e = cc
in_mode-awaitable loop true false r o e =
    subst (λ x. is_awaitable x ≡ true) (ok_inj (coroutine r) o e) refl
in_mode-awaitable loop false true (ok v) o e =
    subst (λ x. is_awaitable x ≡ false) (ok_inj (value v) o e) refl
in_mode-awaitable loop false true (err x) o e = cc
in_mode-awaitable loop false false r o e =
    subst (λ x. is_awaitable x ≡ true) (ok_inj (pooled r) o e) refl

if_true : {A : Type 0} (b : Bool) (x y : A) → b ≡ true → (if b then x else y) ≡ x
if_true b x y e = rw e refl

if_false : {A : Type 0} (b : Bool) (x y : A) → b ≡ false → (if b then x else y) ≡ y
if_false b x y e = rw e refl

module _ {V Rest Args : Type 0} (truthy : V → Bool) (f : AFunction V Rest Args) where
  -- At most one flag: the keyword arguments of a call that is allowed.
  pub data IsCall : Kwargs V Rest → Bool → Type 0 where
    plain_call :
        (rest : Rest)
        → IsCall
            (record { sync_value = none; asynchronous_value = none; rest = rest })
            (is_sync_default f)
    with_sync :
        (v : V) (rest : Rest)
        → IsCall (record { sync_value = some v; asynchronous_value = none; rest = rest }) (truthy v)
    with_asynchronous :
        (v : V) (rest : Rest)
        → IsCall
            (record { sync_value = none; asynchronous_value = some v; rest = rest })
            (not (truthy v))

  run_sync-IsCall :
      (kw : Kwargs V Rest) (b : Bool)
      → IsCall kw b
      → run_sync truthy f kw ≡ ok (b, record kw { sync_value = none; asynchronous_value = none })
  unfolding run_sync get_flag_name is_sync
  run_sync-IsCall _ _ (plain_call rest) = refl
  run_sync-IsCall _ _ (with_sync v rest) = refl
  run_sync-IsCall _ _ (with_asynchronous v rest) = refl

  async_wrap-IsCall :
      (loop : Bool) (args : Args) (kw : Kwargs V Rest) (b : Bool)
      → IsCall kw b
      → async_wrap truthy loop f args kw ≡ in_mode loop true b (f.body args kw.rest)
  unfolding async_wrap
  async_wrap-IsCall loop args kw true c = rw (run_sync-IsCall kw true c, async_wrap) refl
  async_wrap-IsCall loop args kw false c = rw (run_sync-IsCall kw false c, async_wrap) refl

  sync_wrap-IsCall :
      (loop : Bool) (args : Args) (kw : Kwargs V Rest) (b : Bool)
      → IsCall kw b
      → sync_wrap truthy f args kw ≡ in_mode loop false b (f.body args kw.rest)
  unfolding sync_wrap
  sync_wrap-IsCall loop args kw true c = rw (run_sync-IsCall kw true c, sync_wrap) refl
  sync_wrap-IsCall loop args kw false c = rw (run_sync-IsCall kw false c, sync_wrap) refl

  pub call_function-IsCall :
      (loop : Bool) (args : Args) (kw : Kwargs V Rest) (b : Bool)
      → IsCall kw b
      → call_function truthy loop f args kw ≡ in_mode loop f.async_def b (f.body args kw.rest)
  unfolding call_function
  call_function-IsCall loop args kw b c = elim (Bool-cases f.async_def) [
    | inl e ↦
        if_true f.async_def _ _ e
        ∙ async_wrap-IsCall loop args kw b c
        ∙ ap (λ d. in_mode loop d b (f.body args kw.rest)) (sym e)
    | inr e ↦
        if_false f.async_def _ _ e
        ∙ sync_wrap-IsCall loop args kw b c
        ∙ ap (λ d. in_mode loop d b (f.body args kw.rest)) (sym e)
  ]

  -- Outside a running event loop, for a call with at most one flag, the value that a call
  -- returns, or what awaiting the returned object gives, is the outcome of the modified
  -- function, in both modes and for both kinds of function; an exception included.
  pub same_outcome :
      (args : Args) (kw : Kwargs V Rest) (b : Bool)
      → IsCall kw b
      → finish (call_function truthy false f args kw) ≡ f.body args kw.rest
  same_outcome args kw b c =
      rw (call_function-IsCall false args kw b c)
        (finish-in_mode f.async_def b (f.body args kw.rest))

  -- For a call with at most one flag that returns, what it returns is an awaitable exactly when
  -- the mode of the call, by its flag or else by the default, is asynchronous.
  pub awaitable_by_mode :
      (loop : Bool) (args : Args) (kw : Kwargs V Rest) (b : Bool) (o : Ret V)
      → IsCall kw b
      → call_function truthy loop f args kw ≡ ok o
      → is_awaitable o ≡ not b
  awaitable_by_mode loop args kw b o c e =
      in_mode-awaitable loop f.async_def b (f.body args kw.rest) o
        (sym (call_function-IsCall loop args kw b c) ∙ e)

  pub sync_in_loop :
      (args : Args) (kw : Kwargs V Rest)
      → f.async_def ≡ true
      → IsCall kw true
      → call_function truthy true f args kw ≡ err sync_mode_in_async_context
  unfolding await_now
  sync_in_loop args kw e c =
      call_function-IsCall true args kw true c
      ∙ ap (λ d. in_mode true d true (f.body args kw.rest)) e

  pub two_flags :
      (loop : Bool) (args : Args) (v w : V) (rest : Rest)
      → call_function truthy loop f args
          (record { sync_value = some v; asynchronous_value = some w; rest = rest })
        ≡ err too_many_flags
  unfolding call_function async_wrap sync_wrap run_sync get_flag_name
  two_flags loop args v w rest = elim (Bool-cases f.async_def) [
    | inl e ↦ if_true f.async_def _ _ e
    | inr e ↦ if_false f.async_def _ _ e
  ]

module _ {V Rest Args : Type 0} where
  pub function_class-default :
      (f : AFunction V Rest Args)
      → function_class f.default f.async_def
        ≡ (if is_sync_default f then sync_default_class else async_default_class)
  unfolding function_class is_sync_default
  function_class-default f = ground arith
