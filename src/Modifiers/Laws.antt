-- ===== src/Modifiers/Laws.antt =====
-- What each decorator function of a_sync/a_sync/modifiers accepts, and what it then does.
use ez_a_sync.Prelude.{
  none, Result, err, Result-cases, inl, inr, ℕ, zero, suc, ◌≡◌, refl, Bool, some, ok, err,
  type_error, ℤ, pos, negsuc,
}
use ez_a_sync.Modifiers.{
  Sem, Applied, apply, within, by_sem, Sem, Fn, Arg, nothing, number, coro, semaphore, limiter,
  decorator, wrapped, memory, threadsafe_semaphore, parse_semaphore, make_semaphore,
  apply_semaphore, parse_limiter, parse_maxsize, unbounded, apply_rate_limit,
  apply_async_memory_cache, use_cache, apply_async_cache,
}

-- What may stand in place of the function: `@apply_semaphore(2)`.
pub data IsSemSpec {L : Type 0} : Arg L → Type 0 where
  by_number : (n : ℤ) → IsSemSpec (number n)
  by_semaphore : (s : Sem) → IsSemSpec (semaphore s)

pub data IsRateSpec {L : Type 0} : Arg L → Type 0 where
  by_rate : (n : ℤ) → IsRateSpec (number n)
  by_limit : (l : L) → IsRateSpec (limiter l)

module _ {L : Type 0} (async_limiter : Arg L → L) where
  -- For a number or a limiter, decorating a coroutine function by `apply_rate_limit(rate)` gives
  -- what `apply_rate_limit(fn, rate)` gives.
  pub rate_stages :
      (fn : Fn L) (spec : Arg L)
      → IsRateSpec spec
      → use_cache (some fn) (apply_rate_limit async_limiter spec nothing)
        ≡ apply_rate_limit async_limiter (coro fn) spec
  unfolding apply_rate_limit parse_limiter
  rate_stages fn _ (by_rate n) = refl
  rate_stages fn _ (by_limit l) = refl

module _ {L : Type 0} where
  staged :
      (fn : Fn L) (r : Result Sem)
      → use_cache (some fn) (elim r as (λ _. Result (Applied L)) [
        | err e ↦ err e
        | ok s ↦ ok (apply none (within (by_sem s)))
      ])
        ≡ (elim r as (λ _. Result (Applied L)) [
          | err e ↦ err e
          | ok s ↦ ok (wrapped (within (by_sem s) fn))
        ])
  staged fn (ok s) = refl
  staged fn (err e) = refl

  -- For a number or a semaphore, decorating a coroutine function by `apply_semaphore(spec)`
  -- gives what `apply_semaphore(fn, spec)` gives, errors included.
  pub semaphore_stages :
      (fn : Fn L) (spec : Arg L)
      → IsSemSpec spec
      → use_cache (some fn) (apply_semaphore spec nothing) ≡ apply_semaphore (coro fn) spec
  unfolding apply_semaphore parse_semaphore make_semaphore
  semaphore_stages fn _ (by_number z) = staged fn (threadsafe_semaphore z)
  semaphore_stages fn _ (by_semaphore s) = refl

  -- When `apply_semaphore` returns a decorator, its first argument was a number or a semaphore
  -- and the keyword `semaphore` was not given.
  pub apply_semaphore_decorator :
      (fn spec : Arg L) {deco : Fn L → Fn L}
      → apply_semaphore fn spec ≡ ok (decorator deco)
      → (spec ≡ nothing) × IsSemSpec fn
  unfolding apply_semaphore parse_semaphore make_semaphore
  apply_semaphore_decorator (number n) nothing e = (refl, by_number n)
  apply_semaphore_decorator (semaphore s) nothing e = (refl, by_semaphore s)
  apply_semaphore_decorator (coro f) (number z) e = elim (Result-cases (threadsafe_semaphore z)) [
    | inl (s, t) ↦ cc
    | inr (x, t) ↦ cc
  ]
  apply_semaphore_decorator (coro f) (semaphore s) e = cc
  apply_semaphore_decorator _ _ e = cc

module _ {L : Type 0} (alru_cache : Arg L → Arg L → Bool → Fn L → Fn L) where
  pub memory_stages :
      (fn : Fn L) (n : ℤ) (ttl : Arg L) (typed : Bool)
      → use_cache (some fn) (apply_async_memory_cache alru_cache (number n) nothing ttl typed)
        ≡ apply_async_memory_cache alru_cache (coro fn) (number n) ttl typed
  unfolding apply_async_memory_cache parse_maxsize
  memory_stages fn n ttl typed = refl

  -- For any number, decorating a coroutine function by `apply_async_cache(n)` gives what
  -- `apply_async_cache(fn, ram_cache_maxsize=n)` gives, errors included.
  pub cache_stages :
      (fn : Fn L) (n : ℤ) (ttl : Arg L) (typed : Bool)
      → use_cache (some fn) (apply_async_cache alru_cache (number n) memory typed nothing ttl)
        ≡ apply_async_cache alru_cache (coro fn) memory typed (number n) ttl
  unfolding apply_async_memory_cache parse_maxsize apply_async_cache unbounded
  cache_stages fn (pos zero) ttl typed = refl
  cache_stages fn (pos (suc n)) ttl typed = refl
  cache_stages fn (negsuc zero) ttl typed = refl
  cache_stages fn (negsuc (suc n)) ttl typed = refl

  -- For a coroutine function and a size below -1, `apply_async_cache` raises `TypeError`, while
  -- `apply_async_memory_cache` wraps the function in a cache made with that size.
  pub sizes_apart :
      (fn : Fn L) (n : ℕ) (ttl : Arg L) (typed : Bool)
      → (apply_async_cache alru_cache (coro fn) memory typed (number (negsuc (suc n))) ttl
          ≡ err type_error)
        × (apply_async_memory_cache alru_cache (coro fn) (number (negsuc (suc n))) ttl typed
            ≡ ok (wrapped (alru_cache (number (negsuc (suc n))) ttl typed fn)))
  unfolding apply_async_memory_cache parse_maxsize apply_async_cache unbounded
  sizes_apart fn n ttl typed = (refl, refl)
