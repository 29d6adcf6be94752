-- ===== src/Yielding/Examples.antt =====
-- `as_yielded` over two short iterators.
use ez_a_sync.Prelude.{
  ℕ, ◌≡◌, ◌≤◌, refl, true, false, List, [], ◌∷◌, ◌++◌, Option, none, some, Exn, length, err,
  value_error, user_error,
}
use ez_a_sync.Asyncio.{get_nowait, put_nowait, task_done, full, wake_getter, wake_putter}
use ez_a_sync.Queue.{get_all_nowait}
use ez_a_sync.Gather.{failure, last}
use ez_a_sync.Yielding.{
  Event, advance, settle, consume, returned, run, init, from, is_ended, gathered, check_join, thing,
}
use ez_a_sync.Yielding.Complete.{normally, yielded_prefix, yielded_all}
use ez_a_sync.Yielding.Ends.{yielder_ends, step_bound}

abbrev numbers : List (List ℕ)
numbers = (10 ∷ 11 ∷ []) ∷ (20 ∷ []) ∷ []

abbrev mixed : List (List ℕ × Option Exn)
mixed = (10 ∷ 11 ∷ [], none) ∷ (20 ∷ [], some (user_error 3)) ∷ []

-- Both iterators run to their ends while the generator reads.
abbrev to_the_end : List Event
to_the_end =
    consume
    ∷ advance 1
    ∷ advance 0
    ∷ consume
    ∷ consume
    ∷ advance 0
    ∷ consume
    ∷ consume
    ∷ advance 1
    ∷ advance 0
    ∷ consume
    ∷ consume
    ∷ settle
    ∷ consume
    ∷ consume
    ∷ consume
    ∷ consume
    ∷ []

in_turn :
    (run to_the_end (init (normally numbers))).yielded ≡ thing 1 20 ∷ thing 0 10 ∷ thing 0 11 ∷ []
unfolding run gathered get_all_nowait get_nowait put_nowait task_done failure last full wake_getter
    wake_putter
in_turn = refl

yielded_all_example :
    ((run to_the_end (init (normally numbers))).consumer ≡ returned)
    × (from 0 (run to_the_end (init (normally numbers))).yielded ≡ 10 ∷ 11 ∷ [])
unfolding run gathered get_all_nowait get_nowait put_nowait task_done failure last full wake_getter
    wake_putter
yielded_all_example = yielded_all numbers to_the_end 0 (10 ∷ 11 ∷ []) refl refl

yielded_prefix_example :
    (rest : List ℕ) × (from 0
          (run (advance 0 ∷ consume ∷ advance 1 ∷ consume ∷ []) (init mixed)).yielded
        ++ rest
      ≡ 10 ∷ 11 ∷ [])
yielded_prefix_example =
    yielded_prefix mixed (advance 0 ∷ consume ∷ advance 1 ∷ consume ∷ []) 0 (10 ∷ 11 ∷ []) none refl

yielder_ends_example :
    (fs : List Event) × (length fs ≤ step_bound mixed)
    × (is_ended (run ((advance 1 ∷ advance 1 ∷ []) ++ fs) (init mixed)).consumer ≡ true)
yielder_ends_example = yielder_ends mixed (advance 1 ∷ advance 1 ∷ [])

abbrev seven : ℕ
seven = 7

no_queue_to_join : check_join false true ≡ err value_error
unfolding check_join
no_queue_to_join = refl
