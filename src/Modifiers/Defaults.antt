-- ===== src/Modifiers/Defaults.antt =====
-- a_sync/a_sync/config.py: the modifiers that mean "nothing", and the defaults that the environment
-- gives.
use ez_a_sync.Prelude.{zero, ◌≡◌, refl, Bool, false, Option, none, ok, ℤ, pos, negsuc}
use ez_a_sync.Modifiers.{Arg, nothing, number, Fn, CacheType}
use ez_a_sync.Modifiers.Manager.{Modifiers, apply_async_modifiers, uses_cache}

-- The variables, read: a flag that is set, numbers, and `none` for an empty name of a cache.
pub record Environment : Type 0 where
  pub cache_name : Option CacheType
  pub typed : Bool
  pub maxsize : ℤ
  pub ttl : ℤ
  pub per_minute : ℤ
  pub permits : ℤ

-- What the code reads when no variable is set.
abbrev pub unset : Environment
unset = record {
  cache_name = none;
  typed = false;
  maxsize = negsuc 0;
  ttl = pos 0;
  per_minute = pos 0;
  permits = pos 0;
}

module _ {L : Type 0} where
  abbrev pub null_modifiers : Modifiers L
  null_modifiers = record {
    cache_type = none;
    cache_typed = false;
    ram_cache_maxsize = number (negsuc 0);
    ram_cache_ttl = nothing;
    runs_per_minute = nothing;
    semaphore_spec = nothing;
  }

  -- `n if n else None`
  abbrev pub nonzero_or_null : ℤ → Arg L
  nonzero_or_null (pos zero) = nothing
  nonzero_or_null n = number n

  unfoldable pub user_set_default_modifiers : Environment → Modifiers L
  user_set_default_modifiers e = record {
    cache_type = e.cache_name;
    cache_typed = e.typed;
    ram_cache_maxsize = number e.maxsize;
    ram_cache_ttl = nonzero_or_null e.ttl;
    runs_per_minute = nonzero_or_null e.per_minute;
    semaphore_spec = nonzero_or_null e.permits;
  }

  -- Without variables, the defaults are the modifiers that do nothing.
  pub unset_unmodified :
      (async_limiter : Arg L → L) (alru_cache : Arg L → Arg L → Bool → Fn L → Fn L) (fn : Arg L)
      → (user_set_default_modifiers unset ≡ null_modifiers)
        × (apply_async_modifiers async_limiter alru_cache (user_set_default_modifiers unset) fn
            ≡ ok fn)
  unfolding user_set_default_modifiers apply_async_modifiers uses_cache
  unset_unmodified async_limiter alru_cache fn = (refl, refl)
