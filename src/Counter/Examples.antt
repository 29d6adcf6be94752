-- ===== src/Counter/Examples.antt =====
-- A counter lock at concrete inputs.
use ez_a_sync.Prelude.{
  ◌≡◌, ◌≢◌, ◌≤◌, ◌↔◌, refl, List, [], ◌∷◌, some, ok, err, value_error, leb→le, ltb→lt,
}
use ez_a_sync.Counter.{
  finished, cancelled, waiting, Event, call_wait_for, call_set, cancel_task, resume_task, run,
  new_lock, step, set_value, wait_for, is_ready, heap_push, wake_loop, pop_event, set_event, resume,
  remove,
}
use ez_a_sync.Counter.Steps.{set_below}
use ez_a_sync.Counter.Served.{served, set_succeeds}

-- Two tasks wait for 5 and one for 9; one of the first is cancelled, and the value becomes 7.
abbrev waits_and_sets : List Event
waits_and_sets =
    call_wait_for 9
    ∷ call_wait_for 5
    ∷ call_wait_for 5
    ∷ cancel_task 1
    ∷ resume_task 1
    ∷ call_set 7
    ∷ []

third : (run waits_and_sets (new_lock 2)).futures 2 ≡ some (waiting 5 finished)
unfolding run step wait_for is_ready heap_push set_value wake_loop pop_event set_event resume remove
    new_lock
third = refl

finished_cancelled : finished ≢ cancelled
finished_cancelled e = cc

served_example : (finished ≡ finished) ↔ (5 ≤ (run waits_and_sets (new_lock 2)).value)
served_example = served 2 waits_and_sets 2 5 finished third finished_cancelled

set_succeeds_example :
    ((set_value 9 (run waits_and_sets (new_lock 2))).0 ≡ ok tt)
    × ((set_value 9 (run waits_and_sets (new_lock 2))).1.value ≡ 9)
unfolding run step wait_for is_ready heap_push set_value wake_loop pop_event set_event resume remove
    new_lock
set_succeeds_example = set_succeeds 2 9 waits_and_sets (leb→le 7 9 refl)

set_below_example : set_value 1 (new_lock 2) ≡ (err value_error, new_lock 2)
unfolding new_lock
set_below_example = set_below 1 (new_lock 2) (ltb→lt 1 2 refl)
