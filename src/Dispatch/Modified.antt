-- ===== src/Dispatch/Modified.antt =====
-- a_sync/a_sync/_descriptor.pyx and function.pyx: the function that a bound method runs, once the
-- modifiers of its class have been applied.
use ez_a_sync.Prelude.{◌≡◌, refl, ap, ◌∙◌, Bool, true, false, Result, ok}
use ez_a_sync.Modifiers.{Sem, by_sem, Fn, Arg, coro, within, make_semaphore, limiter_for}
use ez_a_sync.Modifiers.Manager.{Modifiers, is_nothing, uses_cache, after, apply_async_modifiers}
use ez_a_sync.Modifiers.Stack.{limited, guarded_by}

-- The function that a bound method runs. The descriptor of a coroutine function applies its
-- modifiers, and the bound method has the modifiers of the descriptor, and applies them too.
module _ {L : Type 0} (async_limiter : Arg L → L)
    (alru_cache : Arg L → Arg L → Bool → Fn L → Fn L) where
  -- What `_ASyncDescriptor.__init__` keeps in `__wrapped__`.
  unfoldable pub descriptor_wrapped : Modifiers L → Fn L → Result (Arg L)
  descriptor_wrapped m fn = apply_async_modifiers async_limiter alru_cache m (coro fn)

  -- `_modified_fn` of the bound method.
  unfoldable pub bound_modified_fn : Modifiers L → Fn L → Result (Arg L)
  bound_modified_fn m fn =
      after (descriptor_wrapped m fn) (apply_async_modifiers async_limiter alru_cache m)

module _ {L : Type 0} (async_limiter : Arg L → L)
    (alru_cache : Arg L → Arg L → Bool → Fn L → Fn L) where
  abbrev in_guards : Modifiers L → Sem → Fn L → Fn L
  in_guards m s fn = within (by_sem s) (within (limiter_for async_limiter m.runs_per_minute) fn)

  guards :
      (m : Modifiers L) (fn : Fn L) (s : Sem)
      → is_nothing m.runs_per_minute ≡ false
      → is_nothing m.semaphore_spec ≡ false
      → make_semaphore m.semaphore_spec ≡ ok s
      → uses_cache m ≡ false
      → apply_async_modifiers async_limiter alru_cache m (coro fn) ≡ ok (coro (in_guards m s fn))
  unfolding apply_async_modifiers
  guards m fn s rate sem made cached =
      rw (rate, sem, cached)
        (rw (limited async_limiter fn m.runs_per_minute)
          (rw (guarded_by (within (limiter_for async_limiter m.runs_per_minute) fn) _ s made) refl))

  semaphore_guard :
      (m : Modifiers L) (fn : Fn L) (s : Sem)
      → is_nothing m.runs_per_minute ≡ true
      → is_nothing m.semaphore_spec ≡ false
      → make_semaphore m.semaphore_spec ≡ ok s
      → uses_cache m ≡ false
      → apply_async_modifiers async_limiter alru_cache m (coro fn)
        ≡ ok (coro (within (by_sem s) fn))
  unfolding apply_async_modifiers
  semaphore_guard m fn s rate sem made cached =
      rw (rate, sem, cached) (rw (guarded_by fn _ s made) refl)

  pub guarded_twice :
      (m : Modifiers L) (fn : Fn L) (s : Sem)
      → is_nothing m.runs_per_minute ≡ false
      → is_nothing m.semaphore_spec ≡ false
      → make_semaphore m.semaphore_spec ≡ ok s
      → uses_cache m ≡ false
      → bound_modified_fn async_limiter alru_cache m fn
        ≡ ok (coro (in_guards m s (in_guards m s fn)))
  unfolding bound_modified_fn descriptor_wrapped
  guarded_twice m fn s rate sem made cached =
      ap (λ r. after r (apply_async_modifiers async_limiter alru_cache m))
        (guards m fn s rate sem made cached)
      ∙ guards m (in_guards m s fn) s rate sem made cached

  -- For a coroutine function as a method, with a semaphore that can be made, no rate limit and
  -- no cache among its modifiers, the function that the bound method runs enters that semaphore
  -- twice before the one call, and leaves it twice after.
  pub semaphore_twice :
      (m : Modifiers L) (fn : Fn L) (s : Sem)
      → is_nothing m.runs_per_minute ≡ true
      → is_nothing m.semaphore_spec ≡ false
      → make_semaphore m.semaphore_spec ≡ ok s
      → uses_cache m ≡ false
      → bound_modified_fn async_limiter alru_cache m fn
        ≡ ok (coro (within (by_sem s) (within (by_sem s) fn)))
  unfolding bound_modified_fn descriptor_wrapped
  semaphore_twice m fn s rate sem made cached =
      ap (λ r. after r (apply_async_modifiers async_limiter alru_cache m))
        (semaphore_guard m fn s rate sem made cached)
      ∙ semaphore_guard m (within (by_sem s) fn) s rate sem made cached
