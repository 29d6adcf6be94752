-- ===== src/Iter/Consumed.antt =====
-- How often an `ASyncSorter` of a_sync/iter.pyx can be iterated.
use ez_a_sync.Prelude.{
  ℕ, zero, suc, ◌≡◌, refl, ap, ◌∙◌, Bool, true, false, List, [], ◌∷◌, ok, err, runtime_error,
  length, ltb, if◌then◌else◌, arith,
}
use ez_a_sync.Iter.{
  View, SortKey, Sorter, run_sort, sorter_anext, init_sorter, sorter_aiter, yielding, ended, emit,
}
use ez_a_sync.Iter.Sorting.{sorter_anext-ok}

module _ {A : Type 0} (comparable : Bool) (rank : A → ℕ) (key : SortKey A) (reverse : Bool) where
  -- The sorter after so many calls of `__anext__`.
  abbrev pub advance : ℕ → Sorter A → Sorter A
  advance zero self = self
  advance (suc n) self = advance n (sorter_anext comparable rank key reverse self).1

  spent :
      (n : ℕ) (view : View A)
      → (advance n (record { view = view; progress = ended; consumed = true })).consumed ≡ true
  unfolding sorter_anext
  spent zero view = refl
  spent (suc n) view = spent n view

  emitting :
      (n : ℕ) (xs : List A) (view : View A)
      → (advance n (record { view = view; progress = yielding xs; consumed = false })).consumed
        ≡ ltb (length xs) n
  unfolding sorter_anext emit
  emitting zero xs view = ground arith
  emitting (suc n) [] view = spent n view ∙ ground arith
  emitting (suc n) (x ∷ xs) view = emitting n xs view ∙ ground arith

  started :
      (n : ℕ) (view : View A) (l : List A)
      → run_sort comparable rank key reverse view ≡ ok l
      → (advance n (init_sorter view)).consumed ≡ ltb (length l) n
  unfolding emit
  started zero view l e = ground arith
  started (suc n) view [] e =
      ap (λ p. (advance n p.1).consumed) (sorter_anext-ok comparable rank key reverse view [] e)
      ∙ spent n view
      ∙ ground arith
  started (suc n) view (x ∷ xs) e =
      ap (λ p. (advance n p.1).consumed)
        (sorter_anext-ok comparable rank key reverse view (x ∷ xs) e)
      ∙ emitting n xs view
      ∙ ground arith

  -- When the sort itself raises nothing, a new iteration of an `ASyncSorter` is refused with
  -- RuntimeError once one more item has been asked for than there are, and not before: until
  -- then it goes on where the last one stands.
  pub aiter_after :
      (n : ℕ) (view : View A) (l : List A)
      → run_sort comparable rank key reverse view ≡ ok l
      → sorter_aiter (advance n (init_sorter view))
        ≡ (if ltb (length l) n then err runtime_error else ok (advance n (init_sorter view)))
  unfolding sorter_aiter
  aiter_after n view l e =
      ap (λ (b : Bool). if b then err runtime_error else ok (advance n (init_sorter view)))
        (started n view l e)
