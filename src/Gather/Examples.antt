-- ===== src/Gather/Examples.antt =====
-- Gathering at concrete inputs.
use ez_a_sync.Prelude.{
  ℕ, zero, suc, ◌≡◌, refl, true, false, [], ◌∷◌, some, none, ok, err, user_error, key_error, ◌==◌,
  arith,
}
use ez_a_sync.Gather.{
  Outcome, finished, failed, cancelled, gives, value, raised, cigather, complete, done_callback,
  last, result_or_exc, distinct, gather_mapping,
}
use ez_a_sync.Gather.Expected.{Expected}
use ez_a_sync.Gather.Laws.{cigather_lem}
use ez_a_sync.Gather.Mapping.{mapping_in_order, excluded_raises}

-- The second of three fails, the third is cancelled and ends first; the first is given twice.
abbrev ends : ℕ → Outcome ℕ
ends zero = finished 10
ends (suc zero) = failed (user_error 4)
ends (suc (suc n)) = cancelled

cigather_lem_example :
    Expected ends
      (0 ∷ 1 ∷ 0 ∷ 2 ∷ [])
      (2 ∷ 0 ∷ 1 ∷ [])
      false
      false
      (cigather ends (0 ∷ 1 ∷ 0 ∷ 2 ∷ []) false false (2 ∷ 0 ∷ 1 ∷ []))
unfolding distinct
cigather_lem_example = cigather_lem ends 0 (1 ∷ 0 ∷ 2 ∷ []) false false 2 (0 ∷ 1 ∷ []) refl

-- The results are told in the order of the arguments, a repeated one again.
told_again :
    cigather ends (0 ∷ 1 ∷ 0 ∷ []) true false (1 ∷ 0 ∷ [])
    ≡ gives (value 10 ∷ raised (user_error 4) ∷ value 10 ∷ [])
unfolding cigather distinct complete done_callback last result_or_exc
told_again = refl

mapping_in_order_example :
    gather_mapping (λ k. k) none (3 ∷ 5 ∷ []) (5 ∷ 3 ∷ []) ≡ ok ((3, 3) ∷ (5, 5) ∷ [])
mapping_in_order_example =
    mapping_in_order (λ k. k) (3 ∷ 5 ∷ []) (5 ∷ 3 ∷ []) (λ k e. ground (arith, e))

excluded_raises_example :
    gather_mapping (λ k. k) (some (λ v. v == 5)) (3 ∷ 5 ∷ []) (5 ∷ 3 ∷ []) ≡ err key_error
excluded_raises_example =
    excluded_raises (λ k. k) (λ v. v == 5) (3 ∷ 5 ∷ []) (5 ∷ 3 ∷ []) 5 refl refl
