-- ===== src/Decorator/Examples.antt =====
-- `a_sync` and the modifiers of a class at concrete inputs.
use ez_a_sync.Prelude.{ℕ, ◌≡◌, refl, Option, none, ok, pos, [], ◌∷◌, true}
use ez_a_sync.Modifiers.{Arg, number, semaphore, limiter, threadsafe, threadsafe_semaphore}
use ez_a_sync.Decorator.{
  sync_default, async_default, a_sync, function, word, no_fn, Key, semaphore_key,
  runs_per_minute_key, update, set_semaphore, set_limiter, apply_class_defined_modifiers,
  get_modifiers_from, chosen, get_default_executor, threads,
}
use ez_a_sync.Decorator.Laws.{a_sync_stages, no_numbers, NoNumbers, on}

abbrev seven : ℕ
seven = 7

a_sync_stages_example :
    (a_sync (function 3) async_default seven ≡ on (a_sync no_fn async_default seven) 3)
    × (a_sync (word sync_default) async_default seven ≡ a_sync no_fn sync_default seven)
a_sync_stages_example = a_sync_stages 3 sync_default async_default seven (λ e. cc)

abbrev rate_of : Arg ℕ → ℕ
rate_of (number (pos n)) = n
rate_of _ = 0

abbrev attributes : Key → Option (Arg ℕ)
attributes =
    update semaphore_key (number (pos 3)) (update runs_per_minute_key (number (pos 60)) (λ _. none))

abbrev applied : Key → Option (Arg ℕ)
applied =
    update runs_per_minute_key (limiter 60)
      (update semaphore_key (semaphore (threadsafe 3)) attributes)

no_numbers_example : NoNumbers applied
unfolding apply_class_defined_modifiers set_semaphore set_limiter threadsafe_semaphore
no_numbers_example = no_numbers rate_of attributes applied refl

modifiers_of_class :
    get_modifiers_from rate_of true attributes
    ≡ ok ((runs_per_minute_key, limiter 60) ∷ (semaphore_key, semaphore (threadsafe 3)) ∷ [])
unfolding get_modifiers_from chosen apply_class_defined_modifiers set_semaphore set_limiter
    threadsafe_semaphore
modifiers_of_class = refl

executor_of_upper_case : get_default_executor (84 ∷ 72 ∷ []) ≡ ok threads
unfolding get_default_executor
executor_of_upper_case = refl
