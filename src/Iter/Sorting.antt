-- ===== src/Iter/Sorting.antt =====
-- `ASyncSorter` of a_sync/iter.pyx: the items that it yields.
use ez_a_sync.Prelude.{
  ℕ, zero, suc, ◌<◌, ◌≡◌, refl, ap, ◌∙◌, Bool, true, false, List, [], ◌∷◌, map, Option, some,
  Result, ok, err, Exn, length, total, ◌==◌, arith,
}
use ez_a_sync.Iter.{
  View, Next, yields, stops, raises, SortKey, yielding, ended, Sorter, in_order, insert, sort,
  sort_keys, second, run_sort, emit, sorter_anext, init_sorter, materialized, prepend_item,
}

module _ {A B : Type 0} (g : A → B) (le : B → B → Bool) where
  insert-map :
      (x : A) (xs : List A)
      → insert le (g x) (map g xs) ≡ map g (insert (λ a b. le (g a) (g b)) x xs)
  unfolding insert
  insert-map x [] = refl
  insert-map x (y ∷ ys) = ground (arith, insert-map x ys)

  pub sort-map : (xs : List A) → sort le (map g xs) ≡ map g (sort (λ a b. le (g a) (g b)) xs)
  unfolding sort
  sort-map [] = refl
  sort-map (x ∷ xs) =
      ap (insert le (g x)) (sort-map xs) ∙ insert-map x (sort (λ a b. le (g a) (g b)) xs)

pub length-total : {A : Type 0} (xs : List A) → length xs ≡ total (λ _. 1) xs
length-total [] = refl
length-total (x ∷ xs) = omega (arith, length-total xs)

module _ {A : Type 0} where
  abbrev pub keyed : (A → ℕ) → A → ℕ × A
  keyed k x = (k x, x)

  pub map-keyed : (k : A → ℕ) (xs : List A) → map second (map (keyed k) xs) ≡ xs
  map-keyed k [] = refl
  map-keyed k (x ∷ xs) = ap (◌∷◌ x) (map-keyed k xs)

  pub sort_keys_lem :
      (f : A → Result ℕ) (k : A → ℕ) (xs : List A)
      → ((x : A) → f x ≡ ok (k x))
      → sort_keys f xs ≡ ok (map (keyed k) xs)
  unfolding sort_keys
  sort_keys_lem f k [] h = refl
  sort_keys_lem f k (x ∷ xs) h = rw (h x, sort_keys) (rw (sort_keys_lem f k xs h, sort_keys) refl)

  pub key_total :
      (k : A → ℕ) (r : Bool) (x y : A) → in_order k r x y ≡ false → in_order k r y x ≡ true
  key_total k true x y e = ground (arith, e)
  key_total k false x y e = ground (arith, e)

  pub key_trans :
      (k : A → ℕ) (r : Bool) (x y z : A)
      → in_order k r x y ≡ true
      → in_order k r y z ≡ true
      → in_order k r x z ≡ true
  key_trans k true x y z e f = ground (arith, e, f)
  key_trans k false x y z e f = ground (arith, e, f)

  pub key_ties :
      (k : A → ℕ) (r : Bool) (n : ℕ) (x y : A)
      → (k x == n) ≡ true
      → (k y == n) ≡ true
      → in_order k r x y ≡ true
  key_ties k true n x y e f = ground (arith, e, f)
  key_ties k false n x y e f = ground (arith, e, f)

module _ {S A : Type 0} (anext : S → Next A × S) (fuel : ℕ) (self : S) where
  abbrev carry_on : Next A × S → Option (Result (List A))
  carry_on p = elim p.0 [
    | yields x ↦ prepend_item x (materialized anext fuel p.1)
    | stops ↦ some (ok [])
    | raises e ↦ some (err e)
  ]

  pub materialized_step :
      (p : Next A × S) → anext self ≡ p → materialized anext (suc fuel) self ≡ carry_on p
  unfolding materialized
  materialized_step p e = ap carry_on e

module _ {A : Type 0} (comparable : Bool) (rank : A → ℕ) (key : SortKey A) (reverse : Bool) where
  abbrev pub anext : Sorter A → Next A × Sorter A
  anext = sorter_anext comparable rank key reverse

  emitted :
      (xs : List A) (fuel : ℕ) (view : View A)
      → length xs < fuel
      → materialized anext fuel (record { view = view; progress = yielding xs; consumed = false })
        ≡ some (ok xs)
  unfolding sorter_anext emit
  emitted xs zero view h = absurd (omega arith)
  emitted [] (suc fuel) view h = materialized_step anext fuel _ _ refl
  emitted (x ∷ xs) (suc fuel) view h =
      materialized_step anext fuel _ _ refl
      ∙ ap (prepend_item x) (emitted xs fuel view (omega arith))

  pub sorter_anext-ok :
      (view : View A) (l : List A)
      → run_sort comparable rank key reverse view ≡ ok l
      → anext (init_sorter view) ≡ emit (init_sorter view) l
  unfolding sorter_anext
  sorter_anext-ok view l e =
      ap
        (λ (r : Result (List A)). elim r [
          | ok items ↦ emit (init_sorter view) items
          | err x ↦ (raises x, record (init_sorter view) { progress = ended })
        ])
        e

  sorter_anext-err :
      (view : View A) (exn : Exn)
      → run_sort comparable rank key reverse view ≡ err exn
      → anext (init_sorter view) ≡ (raises exn, record (init_sorter view) { progress = ended })
  unfolding sorter_anext
  sorter_anext-err view exn e =
      ap
        (λ (r : Result (List A)). elim r [
          | ok items ↦ emit (init_sorter view) items
          | err x ↦ (raises x, record (init_sorter view) { progress = ended })
        ])
        e

  pub sorted_lem :
      (view : View A) (l : List A) (fuel : ℕ)
      → run_sort comparable rank key reverse view ≡ ok l
      → length l < fuel
      → materialized anext fuel (init_sorter view) ≡ some (ok l)
  unfolding emit
  sorted_lem view l zero e h = absurd (omega arith)
  sorted_lem view [] (suc fuel) e h = materialized_step anext fuel _ _ (sorter_anext-ok view [] e)
  sorted_lem view (x ∷ xs) (suc fuel) e h =
      materialized_step anext fuel _ _ (sorter_anext-ok view (x ∷ xs) e)
      ∙ ap (prepend_item x) (emitted xs fuel view (omega arith))

  pub failed_lem :
      (view : View A) (fuel : ℕ) (exn : Exn)
      → run_sort comparable rank key reverse view ≡ err exn
      → materialized anext (suc fuel) (init_sorter view) ≡ some (err exn)
  failed_lem view fuel exn e = materialized_step anext fuel _ _ (sorter_anext-err view exn e)
