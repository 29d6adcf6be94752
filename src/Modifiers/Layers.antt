-- ===== src/Modifiers/Layers.antt =====
-- a_sync/a_sync/modifiers/manager.pyx: what is around a function that has been modified.
use ez_a_sync.Prelude.{◌≡◌, ◌⊎◌, Bool, true, false, ok}
use ez_a_sync.Modifiers.{
  Sem, by_sem, Fn, Arg, memory, within, make_semaphore, limiter_for, unbounded,
}
use ez_a_sync.Modifiers.Manager.{Modifiers, or_memory, is_nothing, uses_cache}

module _ {L : Type 0} (async_limiter : Arg L → L)
    (alru_cache : Arg L → Arg L → Bool → Fn L → Fn L) where
  -- A limiter around `fn`, if there is a rate.
  abbrev pub Limited : Arg L → Fn L → Fn L → Type 0
  Limited rate fn g =
      ((is_nothing rate ≡ true) × (g ≡ fn))
      ⊎ ((is_nothing rate ≡ false) × (g ≡ within (limiter_for async_limiter rate) fn))

  -- A semaphore around `g`, if one is asked for.
  abbrev pub Guarded : Arg L → Fn L → Fn L → Type 0
  Guarded spec g k =
      ((is_nothing spec ≡ true) × (k ≡ g))
      ⊎ ((s : Sem) × (is_nothing spec ≡ false)
          × (make_semaphore spec ≡ ok s)
          × (k ≡ within (by_sem s) g))

  -- A cache in memory around `k`, if one is used.
  abbrev pub Stored : Modifiers L → Fn L → Fn L → Type 0
  Stored m k f =
      ((uses_cache m ≡ false) × (f ≡ k))
      ⊎ ((uses_cache m ≡ true)
          × (or_memory m.cache_type ≡ memory)
          × (f ≡ alru_cache (unbounded m.ram_cache_maxsize) m.ram_cache_ttl m.cache_typed k))
