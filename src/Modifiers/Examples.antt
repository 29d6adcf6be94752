-- ===== src/Modifiers/Examples.antt =====
-- The modifiers at concrete inputs; the limiter is its rate, the cache enters it.
use ez_a_sync.Prelude.{
  ℕ, ◌≡◌, refl, Bool, true, false, [], ◌∷◌, some, ok, err, type_error, pos, negsuc, none,
}
use ez_a_sync.Modifiers.{
  Arg, nothing, number, coro, Fn, call, enter, by_sem, by_limiter, threadsafe, wrapped, memory,
  apply_semaphore, apply_rate_limit, apply_async_memory_cache, apply_async_cache, use_cache, within,
  limiter_for, unbounded, parse_limiter, parse_semaphore, make_semaphore, threadsafe_semaphore,
}
use ez_a_sync.Modifiers.Manager.{Modifiers, apply_async_modifiers, uses_cache}
use ez_a_sync.Modifiers.Laws.{
  IsSemSpec, by_number, semaphore_stages, apply_semaphore_decorator, sizes_apart, cache_stages,
  rate_stages, by_rate,
}
use ez_a_sync.Modifiers.Stack.{IsNested, just_call, stack_order, apply_async_modifiers-IsNested}

abbrev rate_of : Arg ℕ → ℕ
rate_of (number (pos n)) = n
rate_of _ = 0

abbrev cache_of : Arg ℕ → Arg ℕ → Bool → Fn ℕ → Fn ℕ
cache_of size ttl typed fn = enter (by_limiter 100) ∷ fn

abbrev one_call : Fn ℕ
one_call = call 5 ∷ []

abbrev all_set : Modifiers ℕ
all_set = record {
  cache_type = some memory;
  cache_typed = false;
  ram_cache_maxsize = number (pos 9);
  ram_cache_ttl = nothing;
  runs_per_minute = number (pos 60);
  semaphore_spec = number (pos 2);
}

abbrev no_cache : Modifiers ℕ
no_cache = record all_set { cache_type = none; ram_cache_maxsize = number (negsuc 0) }

semaphore_stages_example :
    use_cache (some one_call) (apply_semaphore (number (negsuc 0)) nothing)
    ≡ apply_semaphore (coro one_call) (number (negsuc 0))
semaphore_stages_example = semaphore_stages one_call (number (negsuc 0)) (by_number (negsuc 0))

cache_stages_example :
    use_cache
      (some one_call)
      (apply_async_cache cache_of (number (pos 3)) memory true nothing nothing)
    ≡ apply_async_cache cache_of (coro one_call) memory true (number (pos 3)) nothing
cache_stages_example = cache_stages cache_of one_call (pos 3) nothing true

rate_stages_example :
    use_cache (some one_call) (apply_rate_limit rate_of (number (pos 3)) nothing)
    ≡ apply_rate_limit rate_of (coro one_call) (number (pos 3))
rate_stages_example = rate_stages rate_of one_call (number (pos 3)) (by_rate (pos 3))

abbrev two_permits : Arg ℕ
two_permits = number (pos 2)

abbrev no_spec : Arg ℕ
no_spec = nothing

apply_semaphore_decorator_example : (no_spec ≡ nothing) × IsSemSpec two_permits
unfolding apply_semaphore parse_semaphore make_semaphore threadsafe_semaphore
apply_semaphore_decorator_example =
    apply_semaphore_decorator two_permits no_spec {deco = within (by_sem (threadsafe 2))} refl

sizes_apart_example :
    (apply_async_cache cache_of (coro one_call) memory false (number (negsuc 4)) nothing
      ≡ err type_error)
    × (apply_async_memory_cache cache_of (coro one_call) (number (negsuc 4)) nothing false
        ≡ ok (wrapped (enter (by_limiter 100) ∷ one_call)))
sizes_apart_example = sizes_apart cache_of one_call 3 nothing false

stack_order_example :
    apply_async_modifiers rate_of cache_of all_set (coro one_call)
    ≡ ok (
        coro (
          enter (by_limiter 100)
          ∷ within (by_sem (threadsafe 2)) (within (by_limiter 60) one_call)))
unfolding make_semaphore threadsafe_semaphore uses_cache limiter_for unbounded
stack_order_example =
    stack_order rate_of cache_of all_set one_call (threadsafe 2) refl refl refl refl refl refl

abbrev stacked : Fn ℕ
stacked = enter (by_limiter 100) ∷ within (by_sem (threadsafe 2)) (within (by_limiter 60) one_call)

apply_async_modifiers-IsNested_example :
    IsNested (within (by_sem (threadsafe 2)) (within (by_limiter 60) one_call))
unfolding uses_cache apply_async_modifiers limiter_for within apply_rate_limit parse_limiter
    apply_semaphore parse_semaphore make_semaphore threadsafe_semaphore
apply_async_modifiers-IsNested_example =
    apply_async_modifiers-IsNested rate_of cache_of no_cache one_call _ refl (just_call 5) refl
