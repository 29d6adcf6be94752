-- ===== src/Executor/Examples.antt =====
-- The executor at concrete inputs.
use ez_a_sync.Prelude.{
  ℕ, ◌+◌, ◌≤◌, ◌≡◌, ◌⊎◌, Exn, refl, List, [], ◌∷◌, replicate, Result, ok, err, value_error, arith,
}
use ez_a_sync.Asyncio.Futures.{Future, pending, cancelled}
use ez_a_sync.Executor.{Executor, run_item, loop_once, run_calls, init}
use ez_a_sync.Executor.Modes.{directly, threaded, modes_agree, run_calls-cancelled}
use ez_a_sync.Executor.Pool
use ez_a_sync.Executor.Pool.{Step, submit, get, finish, time_out, run, step}
use ez_a_sync.Executor.Pool.Sound.{threads_bounded, never_stuck, reached}
use ez_a_sync.Executor.Pool.Idle.{after_burst, overcounted}

abbrev same : Exn → Exn
same e = e

abbrev fails : ℕ → Result ℕ
fails n = err value_error

abbrev none_yet : ℕ → Future ℕ
none_yet n = pending

modes_agree_example :
    ((directly same fails 4 0 7 none_yet).0 ≡ (threaded same fails 4 0 7 none_yet).0)
    × ((directly same fails 4 0 7 none_yet).1.futs 7
        ≡ (loop_once same (run_item fails (threaded same fails 4 0 7 none_yet).1)).futs 7)
modes_agree_example = modes_agree same fails 4 0 7 none_yet 7 refl refl (λ e n. refl)

abbrev gone : Executor ℕ ℕ
gone = record (init 3) { futs = λ n. cancelled }

run_calls-cancelled_example : (run_calls same ((1, ok 5) ∷ (2, ok 6) ∷ []) gone).futs 1 ≡ cancelled
run_calls-cancelled_example = run_calls-cancelled same ((1, ok 5) ∷ (2, ok 6) ∷ []) gone 1 refl

abbrev schedule : List Step
schedule = submit ∷ submit ∷ get ∷ time_out ∷ []

threads_bounded_example :
    ((reached schedule 3).busy ≤ (reached schedule 3).threads) × ((reached schedule 3).threads ≤ 3)
threads_bounded_example = threads_bounded schedule 3 (omega arith)

never_stuck_example :
    ((step get (reached schedule 3)).work_queue + 1 ≡ (reached schedule 3).work_queue)
    ⊎ ((step finish (reached schedule 3)).busy + 1 ≡ (reached schedule 3).busy)
unfolding run step Pool.adjust_thread_count Pool.get_item Pool.prune
never_stuck_example = never_stuck schedule 3 (omega arith) (omega arith)

overcounted_example :
    ((run (replicate 3 submit) (after_burst 1 2)).threads ≡ 1)
    × ((run (replicate 3 submit) (after_burst 1 2)).work_queue ≡ 3)
overcounted_example = overcounted 1 2 3 (omega arith)
