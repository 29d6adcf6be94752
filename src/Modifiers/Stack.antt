-- ===== src/Modifiers/Stack.antt =====
-- a_sync/a_sync/modifiers/manager.pyx: how the guards of a modified function stand around its call.
use ez_a_sync.Prelude.{
  Exn, ◌≢◌, sym, ap, ◌∙◌, err, Result-cases, inl, inr, ℕ, zero, suc, ◌≡◌, refl, subst, Bool, true,
  false, [], ◌∷◌, Result, ok, pos, negsuc, if◌then◌else◌, Bool-cases,
}
use ez_a_sync.Modifiers.{
  Sem, Guard, by_sem, call, Fn, Arg, nothing, number, coro, plain, semaphore, limiter, wrapped,
  memory, threadsafe_semaphore, within, parse_semaphore, make_semaphore, apply_semaphore,
  parse_limiter, parse_maxsize, is_cache_size, unbounded, limiter_for, apply_rate_limit,
  apply_async_memory_cache, apply_async_cache,
}
use ez_a_sync.Modifiers.Manager.{
  Modifiers, is_nothing, uses_cache, or_memory, as_arg, after, apply_async_modifiers,
}

-- A function that makes one call, with the guards around it nested.
pub data IsNested {L : Type 0} : Fn L → Type 0 where
  just_call : (n : ℕ) → IsNested (call n ∷ [])
  guarded : (g : Guard L) (fn : Fn L) → IsNested fn → IsNested (within g fn)

module _ {L : Type 0} (async_limiter : Arg L → L) where
  -- Whatever `apply_rate_limit` makes of a coroutine function runs it within a limiter.
  pub limited :
      (fn : Fn L) (rate : Arg L)
      → apply_rate_limit async_limiter (coro fn) rate
        ≡ ok (wrapped (within (limiter_for async_limiter rate) fn))
  unfolding apply_rate_limit parse_limiter
  limited fn rate = refl

module _ {L : Type 0} where
  pub ok_coro : (fn f : Fn L) → ◌≡◌ {A = Result (Arg L)} (ok (coro fn)) (ok (coro f)) → fn ≡ f
  ok_coro fn f e = cc

  after_ok : (r : Result (Arg L)) {c : Arg L} → after r ok ≡ ok c → r ≡ ok c
  after_ok (ok a) e = e
  after_ok (err x) e = cc

  pub guarded_by :
      (fn : Fn L) (spec : Arg L) (s : Sem)
      → make_semaphore spec ≡ ok s
      → apply_semaphore (coro fn) spec ≡ ok (wrapped (within (by_sem s) fn))
  unfolding apply_semaphore parse_semaphore
  guarded_by fn spec s e = cc

  pub refused_by :
      (fn : Fn L) (spec : Arg L) (x : Exn)
      → make_semaphore spec ≡ err x
      → apply_semaphore (coro fn) spec ≡ err x
  unfolding apply_semaphore parse_semaphore
  refused_by fn spec x e = cc

  pub err_ok : (x : Exn) (a : Arg L) → ◌≢◌ {A = Result (Arg L)} (err x) (ok a)
  err_ok x a n = cc

  pub semaphore_step :
      (fn f : Fn L) (spec : Arg L)
      → IsNested fn
      → as_arg (apply_semaphore (coro fn) spec) ≡ ok (coro f)
      → IsNested f
  unfolding apply_semaphore parse_semaphore make_semaphore
  semaphore_step fn f (number z) h e = elim (Result-cases (threadsafe_semaphore z)) [
    | inl (s, t) ↦
        subst IsNested (ok_coro _ f (sym (ap as_arg (guarded_by fn (number z) s t)) ∙ e))
          (guarded (by_sem s) fn h)
    | inr (x, t) ↦ absurd (err_ok x (coro f) (sym (ap as_arg (refused_by fn (number z) x t)) ∙ e))
  ]
  semaphore_step fn f (semaphore s) h e = subst IsNested (ok_coro _ f e) (guarded (by_sem s) fn h)
  semaphore_step fn f nothing h e = cc
  semaphore_step fn f (coro g) h e = cc
  semaphore_step fn f (plain n) h e = cc
  semaphore_step fn f (limiter l) h e = cc

  pub second_step :
      (b : Bool) (fn f : Fn L) (spec : Arg L)
      → IsNested fn
      → after (if b then ok (coro fn) else as_arg (apply_semaphore (coro fn) spec)) ok ≡ ok (coro f)
      → IsNested f
  second_step true fn f spec h e = subst IsNested (ok_coro fn f e) h
  second_step false fn f spec h e = semaphore_step fn f spec h (after_ok _ e)

module _ {L : Type 0} (alru_cache : Arg L → Arg L → Bool → Fn L → Fn L) where
  pub stored :
      (fn : Fn L) (size ttl : Arg L) (typed : Bool)
      → is_cache_size size ≡ true
      → apply_async_cache alru_cache (coro fn) memory typed size ttl
        ≡ ok (wrapped (alru_cache (unbounded size) ttl typed fn))
  unfolding apply_async_cache apply_async_memory_cache parse_maxsize unbounded
  stored fn nothing ttl typed e = refl
  stored fn (number (pos zero)) ttl typed e = cc
  stored fn (number (pos (suc n))) ttl typed e = refl
  stored fn (number (negsuc zero)) ttl typed e = refl
  stored fn (number (negsuc (suc n))) ttl typed e = cc
  stored fn (coro f) ttl typed e = cc
  stored fn (plain n) ttl typed e = cc
  stored fn (semaphore s) ttl typed e = cc
  stored fn (limiter l) ttl typed e = cc

module _ {L : Type 0} (async_limiter : Arg L → L)
    (alru_cache : Arg L → Arg L → Bool → Fn L → Fn L) where
  -- When a rate limit, a semaphore and a memory cache are all set, with a valid size, the
  -- modified function is the cache around the semaphore around the limiter around the function,
  -- and the cache is made with -1 replaced by `None`.
  pub stack_order :
      (m : Modifiers L) (fn : Fn L) (s : Sem)
      → is_nothing m.runs_per_minute ≡ false
      → is_nothing m.semaphore_spec ≡ false
      → make_semaphore m.semaphore_spec ≡ ok s
      → uses_cache m ≡ true
      → or_memory m.cache_type ≡ memory
      → is_cache_size m.ram_cache_maxsize ≡ true
      → apply_async_modifiers async_limiter alru_cache m (coro fn)
        ≡ ok (
            coro (
              alru_cache
                (unbounded m.ram_cache_maxsize)
                m.ram_cache_ttl
                m.cache_typed
                (within (by_sem s) (within (limiter_for async_limiter m.runs_per_minute) fn))))
  unfolding apply_async_modifiers
  stack_order m fn s rate sem made cached mem positive =
      rw (rate, sem, cached, mem)
        (rw (limited async_limiter fn m.runs_per_minute) (
          rw (guarded_by (within (limiter_for async_limiter m.runs_per_minute) fn) _ s made) (
            rw (stored alru_cache _ m.ram_cache_maxsize m.ram_cache_ttl m.cache_typed positive)
              refl)))

  -- When no cache is used and the modifiers can be applied to a function whose guards are nested
  -- around one call, the same holds of the modified function.
  pub apply_async_modifiers-IsNested :
      (m : Modifiers L) (fn f : Fn L)
      → uses_cache m ≡ false
      → IsNested fn
      → apply_async_modifiers async_limiter alru_cache m (coro fn) ≡ ok (coro f)
      → IsNested f
  unfolding apply_async_modifiers
  apply_async_modifiers-IsNested m fn f no_cache nested e =
      elim (Bool-cases (is_nothing m.runs_per_minute)) [
        | inl absent ↦
            second_step (is_nothing m.semaphore_spec) fn f m.semaphore_spec nested
              (rw (absent, no_cache) at e)
        | inr given ↦
            second_step (is_nothing m.semaphore_spec) _ f m.semaphore_spec
              (guarded (limiter_for async_limiter m.runs_per_minute) fn nested)
              (rw (limited async_limiter fn m.runs_per_minute) at (rw (given, no_cache) at e))
      ]
