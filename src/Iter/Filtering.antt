-- ===== src/Iter/Filtering.antt =====
-- `ASyncFilter` of a_sync/iter.pyx against a list comprehension.
use ez_a_sync.Prelude.{
  ℕ, zero, suc, ◌≤◌, ◌<◌, ◌≡◌, refl, ap, ◌∙◌, Bool, true, false, List, [], ◌∷◌, Option, none, some,
  Result, ok, err, Exn, length, ◌⊎◌, inl, inr, arith,
}
use ez_a_sync.Iter.{
  View, find, filter_anext, materialized, prepend_item, Next, yields, stops, raises,
}

abbrev when_checked : {A : Type 0} → A → Result Bool → Result (List A) → Result (List A)
when_checked x (ok true) (ok l) = ok (x ∷ l)
when_checked x (ok true) (err e) = err e
when_checked x (ok false) rest = rest
when_checked x (err e) rest = err e

check-cases : (r : Result Bool) → (r ≡ ok true) ⊎ ((r ≡ ok false) ⊎ ((e : Exn) × (r ≡ err e)))
check-cases (ok true) = inl refl
check-cases (ok false) = inr (inl refl)
check-cases (err e) = inr (inr (e, refl))

module _ {A : Type 0} (check : A → Result Bool) where
  -- `[x for x in xs if check(x)]`, where the iteration ends by `ending`.
  unfoldable pub comprehension : List A → Option Exn → Result (List A)
  comprehension [] none = ok []
  comprehension [] (some e) = err e
  comprehension (x ∷ xs) ending = when_checked x (check x) (comprehension xs ending)

  abbrev continue : ℕ → Next A × View A → Option (Result (List A))
  continue fuel (yields x, self) = prepend_item x (materialized (filter_anext check) fuel self)
  continue fuel (stops, self) = some (ok [])
  continue fuel (raises e, self) = some (err e)

  materialized-continue :
      (fuel : ℕ) (self : View A)
      → self.truth ≡ true
      → materialized (filter_anext check) (suc fuel) self
        ≡ continue fuel (find check self self.items self.ending)
  unfolding materialized filter_anext
  materialized-continue fuel self e = ground (arith, e)

  prepend_item-some :
      (x : A) (r : Result (List A)) → prepend_item x (some r) ≡ some (when_checked x (ok true) r)
  prepend_item-some x (ok l) = refl
  prepend_item-some x (err e) = refl

  loop :
      (xs : List A) (fuel : ℕ) (self : View A) (ending : Option Exn)
      → self.truth ≡ true
      → length xs ≤ fuel
      → continue fuel (find check self xs ending) ≡ some (comprehension xs ending)
  unfolding find comprehension
  loop [] fuel self none t h = refl
  loop [] fuel self (some e) t h = refl
  loop (x ∷ xs) zero self ending t h = absurd (omega arith)
  loop (x ∷ xs) (suc fuel) self ending t h = elim (check-cases (check x)) [
    | inl e ↦
        let self' = record self { items = xs; ending = ending } in
        rw (e, find)
          (ap (prepend_item x)
              (materialized-continue fuel self' t ∙ loop xs fuel self' ending t (omega arith))
            ∙ prepend_item-some x (comprehension xs ending))
    | inr (inl e) ↦ rw (e, find) (loop xs (suc fuel) self ending t (omega arith))
    | inr (inr (exn, e)) ↦ rw (e, find) refl
  ]

  -- With more fuel than items, `[obj async for obj in ASyncFilter(function, iterable)]` is `[obj
  -- for obj in iterable if function(obj)]`: the objects that pass, in order, or the first
  -- exception, of the function or of the iteration. The iterator must not be false.
  pub filter_lem :
      (fuel : ℕ) (self : View A)
      → self.truth ≡ true
      → length self.items < fuel
      → materialized (filter_anext check) fuel self ≡ some (comprehension self.items self.ending)
  filter_lem zero self t h = absurd (omega arith)
  filter_lem (suc fuel) self t h =
      materialized-continue fuel self t ∙ loop self.items fuel self self.ending t (omega arith)
