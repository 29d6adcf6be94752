-- ===== src/Iter/Stable.antt =====
-- The order in which `ASyncSorter` of a_sync/iter.pyx yields, and when it counts as consumed.
use ez_a_sync.Prelude.{
  ℕ, suc, ◌≡◌, ap, ◌∙◌, Bool, true, false, not, ◌&&◌, List, [], map, none, some, Result, ok, length,
  total, ◌==◌, arith,
}
use ez_a_sync.Iter.{
  View, plain, coroutine, in_order, pairs_in_order, sort, has_tie, second, first, sort_plain,
  sort_pairs, run_sort, sorter_anext, init_sorter, materialized,
}
use ez_a_sync.Iter.Order.{IsOrdered, select, total-sort, select-sort, sort-IsOrdered}
use ez_a_sync.Iter.Sorting.{
  sort-map, length-total, map-keyed, sort_keys_lem, key_total, key_trans, key_ties, sorted_lem,
  keyed,
}

length-sort : {A : Type 0} (le : A → A → Bool) (xs : List A) → length (sort le xs) ≡ length xs
length-sort le xs =
    omega (arith, length-total xs, length-total (sort le xs), total-sort le (λ _. 1) xs)

module _ {A : Type 0} where
  sort_plain_lem :
      (reverse : Bool) (f : A → Result ℕ) (k : A → ℕ) (xs : List A)
      → ((x : A) → f x ≡ ok (k x))
      → sort_plain reverse f xs ≡ ok (sort (in_order k reverse) xs)
  unfolding sort_plain
  sort_plain_lem reverse f k xs h =
      rw (sort_keys_lem f k xs h, sort_plain)
        (ap (λ l. ok (map second l)) (sort-map (keyed k) (in_order first reverse) xs)
          ∙ ap ok (map-keyed k (sort (in_order k reverse) xs)))

  -- With a key function that returns, an `ASyncSorter` of an iterator that is not false and does
  -- not raise yields every item of its iterator, ordered by the key, or the other way round with
  -- `reverse`; the items of one key keep their order.
  pub sorter_sorts :
      (comparable : Bool) (rank : A → ℕ) (reverse : Bool) (f : A → Result ℕ) (k : A → ℕ)
      (view : View A)
      → ((x : A) → f x ≡ ok (k x))
      → view.truth ≡ true
      → view.ending ≡ none
      → (ys : List A) × (materialized
            (sorter_anext comparable rank (plain f) reverse)
            (suc (length view.items))
            (init_sorter view)
          ≡ some (ok ys))
        × IsOrdered (in_order k reverse) ys
        × ((n : ℕ) → select (λ x. k x == n) ys ≡ select (λ x. k x == n) view.items)
  unfolding run_sort
  sorter_sorts comparable rank reverse f k view h t e =
      let le = in_order k reverse in
      (
        sort le view.items,
        sorted_lem comparable rank (plain f) reverse view (sort le view.items) _
            (ground (arith, t, e, sort_plain_lem reverse f k view.items h))
            (omega (arith, length-sort le view.items)),
        sort-IsOrdered le (key_total k reverse) (key_trans k reverse) view.items,
        λ n. select-sort le (λ x. k x == n) (key_ties k reverse n) view.items,
      )

  pairs_total :
      (k rank : A → ℕ) (r : Bool) (x y : A)
      → pairs_in_order k rank r x y ≡ false
      → pairs_in_order k rank r y x ≡ true
  pairs_total k rank true x y e = ground (arith, e)
  pairs_total k rank false x y e = ground (arith, e)

  pairs_trans :
      (k rank : A → ℕ) (r : Bool) (x y z : A)
      → pairs_in_order k rank r x y ≡ true
      → pairs_in_order k rank r y z ≡ true
      → pairs_in_order k rank r x z ≡ true
  pairs_trans k rank true x y z e f = ground (arith, e, f)
  pairs_trans k rank false x y z e f = ground (arith, e, f)

  -- With a coroutine function for a key, an iterator that is not false and does not raise, and
  -- items of which no two different ones have one key or that can be compared, an `ASyncSorter`
  -- of an iterator yields every item, ordered by the key and then by the item, and one of an
  -- async iterator yields nothing, whatever the items are.
  pub coroutine_key :
      (comparable : Bool) (rank f : A → ℕ) (reverse : Bool) (view : View A)
      → view.truth ≡ true
      → view.ending ≡ none
      → (has_tie f rank view.items && not comparable) ≡ false
      → ((ys : List A) × (materialized
              (sorter_anext comparable rank (coroutine f) reverse)
              (suc (length view.items))
              (init_sorter (record view { is_async = false }))
            ≡ some (ok ys))
          × IsOrdered (pairs_in_order f rank reverse) ys
          × ((g : A → ℕ) → total g ys ≡ total g view.items))
        × (materialized
              (sorter_anext comparable rank (coroutine f) reverse)
              (suc (length view.items))
              (init_sorter (record view { is_async = true }))
            ≡ some (ok []))
  unfolding run_sort sort_pairs
  coroutine_key comparable rank f reverse view t e clash =
      let le = pairs_in_order f rank reverse in
      (
        (
          sort le view.items,
          sorted_lem comparable rank (coroutine f) reverse (record view { is_async = false })
              (sort le view.items) _ (ground (arith, t, e, clash))
              (omega (arith, length-sort le view.items)),
          sort-IsOrdered le (pairs_total f rank reverse) (pairs_trans f rank reverse) view.items,
          λ g. total-sort le g view.items,
        ),
        sorted_lem comparable rank (coroutine f) reverse (record view { is_async = true }) [] _
            (ground (arith, t, e)) (omega arith),
      )
