-- ===== src/Modifiers/Manager.antt =====
-- a_sync/a_sync/modifiers/manager.pyx: `ModifierManager.apply_async_modifiers`.
use ez_a_sync.Prelude.{
  zero, Bool, true, false, not, ◌||◌, Option, none, some, Result, ok, err, negsuc, if◌then◌else◌,
}
use ez_a_sync.Modifiers.{
  Fn, Arg, nothing, number, coro, plain, Applied, decorator, wrapped, CacheType, memory,
  apply_semaphore, apply_rate_limit, apply_async_cache,
}

-- The modifiers of a manager, each with its default filled in.
pub record Modifiers (L : Type 0) : Type 0 where
  pub cache_type : Option CacheType
  pub cache_typed : Bool
  pub ram_cache_maxsize : Arg L
  pub ram_cache_ttl : Arg L
  pub runs_per_minute : Arg L
  pub semaphore_spec : Arg L

abbrev pub is_none : Option CacheType → Bool
is_none none = true
is_none (some t) = false

-- `self.cache_type or "memory"`
abbrev pub or_memory : Option CacheType → CacheType
or_memory none = memory
or_memory (some t) = t

module _ {L : Type 0} where
  abbrev pub is_nothing : Arg L → Bool
  is_nothing nothing = true
  is_nothing _ = false

  abbrev pub is_minus_one : Arg L → Bool
  is_minus_one (number (negsuc zero)) = true
  is_minus_one _ = false

  unfoldable pub uses_cache : Modifiers L → Bool
  uses_cache m =
      not (is_none m.cache_type)
      || not (is_minus_one m.ram_cache_maxsize)
      || not (is_nothing m.ram_cache_ttl)
      || m.cache_typed

  -- What the next modifier takes as `coro_fn`; a decorator is no coroutine function.
  abbrev pub as_arg : Result (Applied L) → Result (Arg L)
  as_arg (err e) = err e
  as_arg (ok (decorator deco)) = ok (plain 0)
  as_arg (ok (wrapped fn)) = ok (coro fn)

  abbrev pub after : Result (Arg L) → (Arg L → Result (Arg L)) → Result (Arg L)
  after (err e) f = err e
  after (ok fn) f = f fn

  unfoldable pub apply_async_modifiers :
      (Arg L → L) → (Arg L → Arg L → Bool → Fn L → Fn L) → Modifiers L → Arg L → Result (Arg L)
  apply_async_modifiers async_limiter alru_cache m fn =
      after
        (if is_nothing m.runs_per_minute
          then ok fn
          else as_arg (apply_rate_limit async_limiter fn m.runs_per_minute))
        (λ limited.
          after
            (if is_nothing m.semaphore_spec
              then ok limited
              else as_arg (apply_semaphore limited m.semaphore_spec))
            (λ guarded.
              if uses_cache m
              then as_arg (
                  apply_async_cache alru_cache guarded (or_memory m.cache_type) m.cache_typed
                    m.ram_cache_maxsize m.ram_cache_ttl)
              else ok guarded))
