-- ===== src/Modifiers.antt =====
-- a_sync/a_sync/modifiers: the decorators for semaphores, rate limits and caches, the defaults that
-- a class defines, and the manager that stacks them (manager.pyx).
-- aiolimiter's `AsyncLimiter` and async_lru's `alru_cache` are parameters.
pub mod Manager
pub mod Defaults
pub mod Laws
pub mod Stack
pub mod Layers
pub mod Examples
use ez_a_sync.Prelude.{
  ltb, overflow_error, ℕ, zero, suc, Bool, true, false, not, ◌&&◌, ◌||◌, List, [], ◌∷◌, ◌++◌,
  Option, none, some, Result, ok, err, Exn, value_error, type_error, assertion_error,
  not_implemented_error, function_not_async, ℤ, pos, negsuc, if◌then◌else◌,
}

-- `threadsafe` and `own` are instances of `primitives.Semaphore`, `asyncio_sem` is not.
pub data Sem : Type 0 where
  threadsafe own asyncio_sem : ℕ → Sem

-- What an `async with` may guard a call by.
pub data Guard (L : Type 0) : Type 0 where
  by_limiter : L → Guard L
  by_sem : Sem → Guard L

-- What one call of a coroutine function does, in order.
pub data Act (L : Type 0) : Type 0 where
  enter leave : Guard L → Act L
  call : ℕ → Act L

abbrev pub Fn : Type 0 → Type 0
Fn L = List (Act L)

-- An argument of a decorator, as far as the code tells arguments apart. A `plain` one is an object
-- of another type, or a function that is no coroutine function.
pub data Arg (L : Type 0) : Type 0 where
  nothing : Arg L
  number : ℤ → Arg L
  coro : Fn L → Arg L
  plain : ℕ → Arg L
  semaphore : Sem → Arg L
  limiter : L → Arg L

-- A decorator function gives a decorator, or the function that it has wrapped.
pub data Applied (L : Type 0) : Type 0 where
  decorator : (Fn L → Fn L) → Applied L
  wrapped : Fn L → Applied L

pub data CacheType : Type 0 where
  memory disk : CacheType
  other_cache : ℕ → CacheType

abbrev pub dummy : Sem
dummy = own 0

-- `ThreadsafeSemaphore(n)`: `Semaphore.__init__` refuses a value below 0, -1 included, and one from
-- 2^64.
unfoldable pub threadsafe_semaphore : ℤ → Result Sem
threadsafe_semaphore (pos n) =
    if ltb n 18446744073709551616 then ok (threadsafe n) else err overflow_error
threadsafe_semaphore (negsuc n) = err value_error

module _ {L : Type 0} where
  -- `async with g: return await coro_fn(*args, **kwargs)`
  unfoldable pub within : Guard L → Fn L → Fn L
  within g fn = enter g ∷ (fn ++ leave g ∷ [])

  -- `return deco if coro_fn is None else deco(coro_fn)`
  abbrev pub apply : Option (Fn L) → (Fn L → Fn L) → Applied L
  apply none deco = decorator deco
  apply (some fn) deco = wrapped (deco fn)

  -- The first lines of `apply_semaphore`: the function, if any, and the semaphore.
  unfoldable pub parse_semaphore : Arg L → Arg L → Result (Option (Fn L) × Arg L)
  parse_semaphore (number n) nothing = ok (none, number n)
  parse_semaphore (number n) _ = err value_error
  parse_semaphore (semaphore s) nothing = ok (none, semaphore s)
  parse_semaphore (semaphore s) _ = err value_error
  parse_semaphore (coro fn) s = ok (some fn, s)
  parse_semaphore _ s = err function_not_async

  unfoldable pub make_semaphore : Arg L → Result Sem
  make_semaphore (number n) = threadsafe_semaphore n
  make_semaphore (semaphore s) = ok s
  make_semaphore _ = err type_error

  -- A semaphore of the library's own decorates by `Semaphore.decorate`, another by the wrapper:
  -- both run the call within it.
  unfoldable pub apply_semaphore : Arg L → Arg L → Result (Applied L)
  apply_semaphore coro_fn s = elim (parse_semaphore coro_fn s) [
    | err e ↦ err e
    | ok (fn, spec) ↦ elim (make_semaphore spec) [
      | err e ↦ err e
      | ok sem ↦ ok (apply fn (within (by_sem sem)))
    ]
  ]

  unfoldable pub parse_limiter : Arg L → Arg L → Result (Option (Fn L) × Arg L)
  parse_limiter (number n) nothing = ok (none, number n)
  parse_limiter (number n) _ = err assertion_error
  parse_limiter (limiter l) nothing = ok (none, limiter l)
  parse_limiter (limiter l) _ = err assertion_error
  parse_limiter nothing nothing = ok (none, nothing)
  parse_limiter nothing (number n) = ok (none, number n)
  parse_limiter nothing (limiter l) = ok (none, limiter l)
  parse_limiter nothing _ = err type_error
  parse_limiter (coro fn) rate = ok (some fn, rate)
  parse_limiter _ rate = err function_not_async

  -- The first lines that the two cache functions share; they differ in what is a valid size.
  unfoldable pub parse_maxsize : (Arg L → Bool) → Arg L → Arg L → Result (Option (Fn L) × Arg L)
  parse_maxsize valid (number n) nothing = ok (none, number n)
  parse_maxsize valid (number n) _ = err assertion_error
  parse_maxsize valid nothing maxsize = if valid maxsize then ok (none, maxsize) else err type_error
  parse_maxsize valid (coro fn) maxsize = ok (some fn, maxsize)
  parse_maxsize valid _ maxsize = err function_not_async

  -- `maxsize in [None, -1] or (isinstance(maxsize, int) and maxsize > 0)`
  abbrev pub is_cache_size : Arg L → Bool
  is_cache_size nothing = true
  is_cache_size (number (pos (suc n))) = true
  is_cache_size (number (negsuc zero)) = true
  is_cache_size _ = false

  -- `maxsize is None or isinstance(maxsize, int)`
  abbrev pub is_size : Arg L → Bool
  is_size nothing = true
  is_size (number n) = true
  is_size _ = false

  -- `if maxsize == -1: maxsize = None`
  unfoldable pub unbounded : Arg L → Arg L
  unbounded (number (negsuc zero)) = nothing
  unbounded maxsize = maxsize

  -- `cache_decorator if coro_fn is None else cache_decorator(coro_fn)`
  abbrev pub use_cache : Option (Fn L) → Result (Applied L) → Result (Applied L)
  use_cache fn (err e) = err e
  use_cache none (ok (decorator deco)) = ok (decorator deco)
  use_cache (some fn) (ok (decorator deco)) = ok (wrapped (deco fn))
  use_cache fn (ok (wrapped f)) = ok (wrapped f)

module _ {L : Type 0} (async_limiter : Arg L → L) where
  -- `AsyncLimiter`, a limiter already, or the dummy for 0 and `None`.
  unfoldable pub limiter_for : Arg L → Guard L
  limiter_for (limiter l) = by_limiter l
  limiter_for nothing = by_sem dummy
  limiter_for (number (pos zero)) = by_sem dummy
  limiter_for rate = by_limiter (async_limiter rate)

  unfoldable pub apply_rate_limit : Arg L → Arg L → Result (Applied L)
  apply_rate_limit coro_fn rate = elim (parse_limiter coro_fn rate) [
    | err e ↦ err e
    | ok (fn, spec) ↦ ok (apply fn (within (limiter_for spec)))
  ]

module _ {L : Type 0} (alru_cache : Arg L → Arg L → Bool → Fn L → Fn L) where
  unfoldable pub apply_async_memory_cache : Arg L → Arg L → Arg L → Bool → Result (Applied L)
  apply_async_memory_cache coro_fn maxsize ttl typed =
      elim (parse_maxsize is_cache_size coro_fn maxsize) [
        | err e ↦ err e
        | ok (fn, size) ↦ ok (apply fn (alru_cache (unbounded size) ttl typed))
      ]

  unfoldable pub apply_async_cache : Arg L → CacheType → Bool → Arg L → Arg L → Result (Applied L)
  apply_async_cache coro_fn cache_type typed maxsize ttl =
      elim (parse_maxsize is_size coro_fn maxsize) [
        | err e ↦ err e
        | ok (fn, size) ↦ elim cache_type [
          | memory ↦ use_cache fn (apply_async_memory_cache nothing size ttl typed)
          | _ ↦ err not_implemented_error
        ]
      ]
