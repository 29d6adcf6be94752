-- ===== src/Queue/Examples.antt =====
-- `Queue` on small queues: runs, and its theorems at concrete inputs.
use mathlib.Core.List.{flatten}
use ez_a_sync.Prelude.{
  ℕ, ◌≡◌, ◌≢◌, ◌⊎◌, inl, refl, Bool, true, false, [], ◌∷◌, ◌++◌, some, ok, err, queue_empty,
  value_error, int, pos, bool, Value, arith,
}
use ez_a_sync.Asyncio.{AsyncQueue, empty, get_nowait, wake_putter, wakeup_next}
use ez_a_sync.Asyncio.Laws.{Holds}
use ez_a_sync.Queue.{Arrivals, get_all, get_all_nowait, get_multi, get_multi_nowait, multi_loop}
use ez_a_sync.Queue.Drain.{get_all_nowait_lem, get_all_waits}
use ez_a_sync.Queue.Multi.{
  IsRequest, get_multi_nowait_enough, get_multi_nowait_less, get_multi_nowait_fails,
}
use ez_a_sync.Queue.Waiting.{get_multi_ready, get_multi_allows_less, get_multi_one_short}

abbrev two : AsyncQueue ℕ
two = record empty { queue = 7 ∷ 8 ∷ []; unfinished_tasks = 2; all_done = false }

abbrev of_two : Value
of_two = int (pos 2)

abbrev of_three : Value
of_three = int (pos 3)

request_two : (less : Bool) → IsRequest of_two (bool less)
request_two less = record { integer = refl; flag = refl; several = omega arith }

request_three : (less : Bool) → IsRequest of_three (bool less)
request_three less = record { integer = refl; flag = refl; several = omega arith }

two_at_once :
    get_multi_nowait of_two (bool false) two ≡ (ok (7 ∷ 8 ∷ []), record two { queue = [] })
unfolding get_multi_nowait get_nowait wake_putter wakeup_next
two_at_once = refl

loses_items :
    get_multi 5 of_three (bool false) [] two ≡ some (err value_error, record two { queue = [] })
unfolding get_multi multi_loop get_nowait wake_putter wakeup_next
loses_items = refl

get_all_nowait_example :
    ((two.queue ≡ []) × (get_all_nowait two ≡ some (err queue_empty, two)))
    ⊎ ((q' : AsyncQueue ℕ) × (two.queue ≢ [])
        × (get_all_nowait two ≡ some (ok two.queue, q'))
        × Holds q' [] 2 0)
get_all_nowait_example = get_all_nowait_lem two

get_all_waits_example :
    (rest : Arrivals ℕ) × (q' : AsyncQueue ℕ) × (get_all ([] ∷ (4 ∷ 5 ∷ []) ∷ []) empty
      ≡ some (ok (4 ∷ []), q'))
    × (q'.queue ++ flatten rest ≡ 5 ∷ [])
unfolding flatten
get_all_waits_example = get_all_waits ([] ∷ (4 ∷ 5 ∷ []) ∷ []) empty 4 (5 ∷ []) refl refl refl

get_multi_nowait_enough_example :
    (q' : AsyncQueue ℕ) × (get_multi_nowait of_two (bool false) two ≡ (ok (7 ∷ 8 ∷ []), q'))
    × Holds q' [] 2 0
get_multi_nowait_enough_example =
    get_multi_nowait_enough of_two (bool false) two (request_two false) (omega arith)

get_multi_nowait_less_example :
    (q' : AsyncQueue ℕ) × (get_multi_nowait of_three (bool true) two ≡ (ok (7 ∷ 8 ∷ []), q'))
    × Holds q' [] 2 0
get_multi_nowait_less_example =
    get_multi_nowait_less of_three (bool true) two (request_three true) (omega arith) (λ e. cc) refl

get_multi_nowait_fails_example :
    (q' : AsyncQueue ℕ) × (get_multi_nowait of_three (bool false) two ≡ (err queue_empty, q'))
    × Holds q' (7 ∷ 8 ∷ []) 4 0
get_multi_nowait_fails_example =
    get_multi_nowait_fails of_three (bool false) two (request_three false) (omega arith) (inl refl)
      (inl refl)

get_multi_ready_example :
    (q' : AsyncQueue ℕ) × (get_multi 2 of_two (bool false) [] two ≡ some (ok (7 ∷ 8 ∷ []), q'))
    × (q'.queue ≡ [])
get_multi_ready_example =
    get_multi_ready [] of_two (bool false) two (request_two false) 0 refl (omega arith)

get_multi_allows_less_example : get_multi 1 of_two (bool true) [] two ≡ some (ok [], two)
get_multi_allows_less_example =
    get_multi_allows_less [] of_two (bool true) two (request_two true) 0 refl

get_multi_one_short_example :
    (q' : AsyncQueue ℕ) × (get_multi 2 of_three (bool false) [] two ≡ some (err value_error, q'))
    × (q'.queue ≡ [])
get_multi_one_short_example =
    get_multi_one_short [] of_three (bool false) two (request_three false) 0 refl (omega arith)
