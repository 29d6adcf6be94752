-- ===== src/TaskMapping/Examples.antt =====
-- `TaskMapping` on small mappings.
use ez_a_sync.Prelude.{
  if◌then◌else◌, ℕ, ◌+◌, ◌≡◌, refl, Bool, true, false, not, List, [], ◌∷◌, ok, err, runtime_error,
  mapping_is_empty, ltb, ◌==◌, arith,
}
use ez_a_sync.Asyncio.Futures.{pending, result}
use ez_a_sync.TaskMapping.{pop, TaskMapping, init, getitem, start_tasks, clear, is_done}
use ez_a_sync.TaskMapping.Loops.{
  aiter, all, any, best, sum, all_body, sum_body, yield_completed, yield_completed_from,
}
use ez_a_sync.TaskMapping.Dict.{getitem_once, clear_ends, restarted_lost}
use ez_a_sync.TaskMapping.Consumed.{aiter_twice, all-IsConsumed, IsConsumed}
use ez_a_sync.TaskMapping.Results.{
  no_loader, all-every, all_empty, sum-fold, best-IsBest, IsBest, Among,
}

-- Tasks for the keys 5 and 6.
abbrev two : TaskMapping ℕ
two = record init { dict = (5, 0) ∷ (6, 1) ∷ []; created = 2; started = 5 ∷ 6 ∷ [] }

abbrev nonzero : ℕ → Bool
nonzero n = not (n == 0)

abbrev outcomes : List (ℕ × ℕ)
outcomes = (6, 9) ∷ (5, 3) ∷ []

getitem_once_example : getitem 7 (getitem 7 two).1 ≡ ((getitem 7 two).0, (getitem 7 two).1)
getitem_once_example = getitem_once 7 two

clear_ends_example : ((clear true two).dict ≡ []) × (is_done ((clear true two).tasks 1) ≡ true)
clear_ends_example = clear_ends 1 6 1 two refl

restarted_lost_example : (clear true (start_tasks (8 ∷ 8 ∷ []) two)).tasks 2 ≡ pending
restarted_lost_example = restarted_lost 8 two refl (omega arith, (omega arith, tt))

aiter_twice_example :
    aiter
      (sum_body ◌+◌ 0)
      true
      (no_loader [])
      0
      (aiter (all_body nonzero) true (no_loader outcomes) true two).1
    ≡ (err runtime_error, (aiter (all_body nonzero) true (no_loader outcomes) true two).1)
aiter_twice_example =
    aiter_twice (all_body nonzero) (sum_body ◌+◌ 0) (no_loader outcomes) (no_loader []) true 0 two

all-IsConsumed_example :
    IsConsumed (all nonzero true (no_loader outcomes) two).1
    × IsConsumed (any nonzero true (no_loader outcomes) two).1
all-IsConsumed_example = all-IsConsumed nonzero (no_loader outcomes) two

all-every_example :
    ((all nonzero true (no_loader outcomes) two).0 ≡ ok true)
    × ((any nonzero true (no_loader outcomes) two).0 ≡ ok true)
all-every_example = all-every nonzero true outcomes two (refl, refl)

all_empty_example :
    ((all nonzero false (no_loader []) init).0 ≡ err mapping_is_empty)
    × ((any nonzero false (no_loader []) init).0 ≡ err mapping_is_empty)
all_empty_example = all_empty nonzero false (no_loader []) init refl refl refl

sum-fold_example : (sum ◌+◌ 0 false (no_loader outcomes) two).0 ≡ ok 12
sum-fold_example = sum-fold ◌+◌ 0 false outcomes two (refl, refl)

-- `>` on numbers.
abbrev greater : ℕ → ℕ → Bool
greater a b = ltb b a

best-IsBest_example :
    (r : ℕ) × ((best greater true (no_loader outcomes) two).0 ≡ ok r)
    × IsBest greater r (9 ∷ 3 ∷ [])
    × Among r (9 ∷ 3 ∷ [])
best-IsBest_example =
    best-IsBest greater true (λ a b e. ground arith) (λ a. ground arith) (λ a b c e f. ground arith)
      9 6 ((5, 3) ∷ []) two (refl, refl)

abbrev one_done : TaskMapping ℕ
one_done = record two { tasks = λ t. if t == 1 then result 8 else pending }

yields_what_is_done :
    yield_completed true one_done ≡ (ok ((6, 8) ∷ []), record one_done { dict = (5, 0) ∷ [] })
unfolding yield_completed yield_completed_from pop
yields_what_is_done = refl
