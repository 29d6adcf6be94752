-- ===== src/Iter/Examples.antt =====
-- Iterators, filters and sorters of a few items.
use ez_a_sync.Prelude.{
  ℕ, ◌≡◌, ◌*◌, ◌%◌, refl, Bool, true, false, List, [], ◌∷◌, none, some, Result, ok, err, type_error,
  runtime_error, attribute_error, sync_mode_in_async_context, user_error, ◌==◌, if◌then◌else◌,
  total, arith,
}
use ez_a_sync.Iter.{
  View, raises, plain, coroutine, materialized, next, init_view, filter_anext, sorter_anext,
  init_sorter, sorter_aiter, in_order, pairs_in_order, has_tie, run_sort,
}
use ez_a_sync.Iter.Filtering.{filter_lem, comprehension}
use ez_a_sync.Iter.Order.{IsOrdered, select}
use ez_a_sync.Iter.Stable.{sorter_sorts, coroutine_key}
use ez_a_sync.Iter.Consumed.{aiter_after, advance}

abbrev numbers : View ℕ
numbers = record { is_async = true; truth = true; items = 12 ∷ 25 ∷ 11 ∷ 23 ∷ []; ending = none }

abbrev is_odd : ℕ → Result Bool
is_odd n = if n == 23 then err (user_error 4) else ok (n % 2 == 1)

-- The last item raises.
filter_lem_example :
    materialized (filter_anext is_odd) 5 numbers ≡ some (comprehension is_odd numbers.items none)
filter_lem_example = filter_lem is_odd 5 numbers refl (omega arith)

filtered : materialized (filter_anext is_odd) 5 numbers ≡ some (err (user_error 4))
unfolding filter_anext materialized
filtered = refl

abbrev tens : ℕ → ℕ
tens n = n % 10

sorter_sorts_example :
    (ys : List ℕ) × (materialized
        (sorter_anext true (λ n. n) (plain (λ n. ok (tens n))) true)
        5
        (init_sorter numbers)
      ≡ some (ok ys))
    × IsOrdered (in_order tens true) ys
    × ((n : ℕ) → select (λ x. tens x == n) ys ≡ select (λ x. tens x == n) numbers.items)
sorter_sorts_example =
    sorter_sorts true (λ n. n) true (λ n. ok (tens n)) tens numbers (λ x. refl) refl refl

sorted :
    materialized (sorter_anext true (λ n. n) (plain (λ n. ok (n * 3))) true) 5 (init_sorter numbers)
    ≡ some (ok (25 ∷ 23 ∷ 12 ∷ 11 ∷ []))
unfolding sorter_anext materialized
sorted = refl

coroutine_key_example :
    ((ys : List ℕ) × (materialized
          (sorter_anext true (λ n. n) (coroutine tens) false)
          5
          (init_sorter (record numbers { is_async = false }))
        ≡ some (ok ys))
      × IsOrdered (pairs_in_order tens (λ n. n) false) ys
      × ((g : ℕ → ℕ) → total g ys ≡ total g numbers.items))
    × (materialized
          (sorter_anext true (λ n. n) (coroutine tens) false)
          5
          (init_sorter (record numbers { is_async = true }))
        ≡ some (ok []))
unfolding has_tie
coroutine_key_example = coroutine_key true (λ n. n) tens false numbers refl refl refl

-- Two different items of one key that cannot be compared.
tied :
    materialized
      (sorter_anext false (λ n. n) (coroutine (λ n. 7)) false)
      5
      (init_sorter (record numbers { is_async = false }))
    ≡ some (err type_error)
unfolding sorter_anext materialized
tied = refl

aiter_after_example :
    sorter_aiter (advance true (λ n. n) (plain (λ n. ok n)) false 5 (init_sorter numbers))
    ≡ err runtime_error
unfolding run_sort
aiter_after_example =
    aiter_after true (λ n. n) (plain (λ n. ok n)) false 5 numbers (11 ∷ 12 ∷ 23 ∷ 25 ∷ []) refl

-- A filter cannot be used in a `for`.
next_filter : (next false false (filter_anext is_odd) numbers).0 ≡ raises attribute_error
unfolding next
next_filter = refl

next_running : (next true true (filter_anext is_odd) numbers).0 ≡ raises sync_mode_in_async_context
unfolding next
next_running = refl

view_of_none : init_view {A = ℕ} false false true [] none ≡ err type_error
unfolding init_view
view_of_none = refl
