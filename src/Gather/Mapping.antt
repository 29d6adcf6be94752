-- ===== src/Gather/Mapping.antt =====
-- a_sync/asyncio/gather.pyx: `gather_mapping`, for awaitables that return.
use ez_a_sync.Prelude.{
  ℕ, ◌≡◌, refl, sym, ap, ◌∙◌, Bool, true, false, List, [], ◌∷◌, map, none, some, ok, err, key_error,
  ◌==◌, Bool-cases, inl, inr,
}
use ez_a_sync.Gather.{is_excluded, collect, lookup_all, gather_mapping, add_item}
use ez_a_sync.Counter.Heap.{mem, if_true, if_false, eq_refl, eq_false, or_intro, or_second, later}
use ez_a_sync.Counter.Good.{true_false, or_intro_left}

module _ {V : Type 0} (out : ℕ → V) where
  collect_all : (ks : List ℕ) → collect out none ks ≡ ks
  unfolding collect is_excluded
  collect_all [] = refl
  collect_all (k ∷ ks) = ap (◌∷◌ k) (collect_all ks)

  lookup_found :
      (keys ks : List ℕ)
      → ((k : ℕ) → mem k ks ≡ true → mem k keys ≡ true)
      → lookup_all out none keys ks ≡ ok (map (λ k. (k, out k)) ks)
  unfolding lookup_all
  lookup_found keys [] h = refl
  lookup_found keys (k ∷ ks) h =
      if_true (mem k keys) _ _ (h k (or_intro_left (k == k) (mem k ks) (eq_refl k)))
      ∙ ap (add_item (k, out k))
          (lookup_found keys ks (λ j e. h j (or_intro (j == k) (mem j ks) e)))

  -- Without `exclude_if`, for awaitables that return and any order in which every key of the
  -- mapping ends, `gather_mapping` returns the result of each key in the order of the mapping.
  pub mapping_in_order :
      (mapping order : List ℕ)
      → ((k : ℕ) → mem k mapping ≡ true → mem k order ≡ true)
      → gather_mapping out none mapping order ≡ ok (map (λ k. (k, out k)) mapping)
  unfolding gather_mapping
  mapping_in_order mapping order h =
      lookup_found (collect out none order) mapping (λ k e. ap (mem k) (collect_all order) ∙ h k e)

  not_collected :
      (exclude : V → Bool) (order : List ℕ) (k : ℕ)
      → exclude (out k) ≡ true
      → mem k (collect out (some exclude) order) ≡ false
  unfolding collect is_excluded
  not_collected exclude [] k e = refl
  not_collected exclude (j ∷ js) k e = elim (Bool-cases (exclude (out j))) [
    | inl excluded ↦
        ap (mem k) (if_true (exclude (out j)) _ _ excluded) ∙ not_collected exclude js k e
    | inr included ↦
        ap (mem k) (if_false (exclude (out j)) _ _ included)
        ∙ or_second (k == j) (mem k (collect out (some exclude) js))
            (eq_false k j (λ i. true_false (sym e ∙ ap (λ l. exclude (out l)) i ∙ included)))
        ∙ not_collected exclude js k e
  ]

  lookup_missing :
      (exclude : V → Bool) (keys ks : List ℕ) (k : ℕ)
      → mem k ks ≡ true
      → mem k keys ≡ false
      → lookup_all out (some exclude) keys ks ≡ err key_error
  unfolding lookup_all
  lookup_missing exclude keys [] k e m = absurd (true_false (sym e))
  lookup_missing exclude keys (j ∷ js) k e m = elim (Bool-cases (mem j keys)) [
    | inr gone ↦ if_false (mem j keys) _ _ gone
    | inl there ↦
        if_true (mem j keys) _ _ there
        ∙ ap (add_item (j, out j)) (
            lookup_missing exclude keys js k
              (later (k == j) (mem k js)
                (eq_false k j (λ i. true_false (sym there ∙ ap (λ l. mem l keys) (sym i) ∙ m))) e)
              m)
  ]

  -- When `exclude_if` holds of the result of some key of the mapping, `gather_mapping` raises
  -- `KeyError`, in whatever order the awaitables end.
  pub excluded_raises :
      (exclude : V → Bool) (mapping order : List ℕ) (k : ℕ)
      → mem k mapping ≡ true
      → exclude (out k) ≡ true
      → gather_mapping out (some exclude) mapping order ≡ err key_error
  unfolding gather_mapping
  excluded_raises exclude mapping order k in_mapping e =
      lookup_missing exclude (collect out (some exclude) order) mapping k in_mapping
        (not_collected exclude order k e)
