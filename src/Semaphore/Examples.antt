-- ===== src/Semaphore/Examples.antt =====
-- The semaphore at concrete inputs.
use ez_a_sync.Prelude.{
  true, ◌+◌, ◌≡◌, ◌<◌, ◌≤◌, refl, List, [], ◌∷◌, total, ltb→lt, err, value_error, overflow_error,
  pos, negsuc,
}
use ez_a_sync.Semaphore.{
  Event, await_acquire, release_permit, cancel_task, resume_task, run, step, acquire, locked,
  release, wake_up_next, set_first_result, enqueue, increment, decrement, resume, cancel_waiter,
  remove_waiter, initial, new_semaphore,
}
use ez_a_sync.Semaphore.Counting.{grants, waits, all_permits}
use ez_a_sync.Semaphore.Wakeups.{no_lost_wakeup, none_left_waiting}
use ez_a_sync.Semaphore.Abstract.{CounterRun, counter, run-counter}
use ez_a_sync.Semaphore.{Semaphore, cancelled}
use ez_a_sync.Semaphore.RoundTrip.{release-acquire}
use ez_a_sync.Semaphore.Unstarted.{late_start, starts_late}

too_large : new_semaphore (pos 18446744073709551616) ≡ err overflow_error
unfolding new_semaphore
too_large = refl

below_zero : new_semaphore (negsuc 0) ≡ err value_error
unfolding new_semaphore
below_zero = refl

-- Three tasks want one permit, the second is cancelled after it was woken.
abbrev three_tasks : List Event
three_tasks =
    await_acquire
    ∷ await_acquire
    ∷ await_acquire
    ∷ release_permit
    ∷ cancel_task 0
    ∷ resume_task 0
    ∷ resume_task 0
    ∷ release_permit
    ∷ []

abbrev before_last : List Event
before_last = await_acquire ∷ await_acquire ∷ await_acquire ∷ release_permit ∷ cancel_task 0 ∷ []

all_permits_example :
    let w = run before_last (initial 1) in
    (w.sem.value + total grants w.sem.waiters + w.held ≡ 1) × (w.held ≤ 1) × (w.sem.value ≤ 1)
all_permits_example = all_permits 1 before_last (ltb→lt 1 18446744073709551616 refl)

-- A permit is back, and a waiter waits behind one that was woken.
abbrev behind_woken : List Event
behind_woken =
    await_acquire ∷ await_acquire ∷ await_acquire ∷ release_permit ∷ release_permit ∷ await_acquire
    ∷ []

no_lost_wakeup_example : 0 < total grants (run behind_woken (initial 2)).sem.waiters
unfolding run step acquire locked release wake_up_next set_first_result enqueue increment decrement
no_lost_wakeup_example = no_lost_wakeup 2 behind_woken refl (ltb→lt 0 1 refl) (ltb→lt 0 1 refl)

none_left_waiting_example : total waits (run three_tasks (initial 1)).sem.waiters ≡ 0
unfolding run step acquire locked release wake_up_next set_first_result enqueue increment decrement
    resume cancel_waiter remove_waiter
none_left_waiting_example =
    none_left_waiting 0 three_tasks (ltb→lt 1 18446744073709551616 refl) refl refl refl

run-counter_example :
    CounterRun before_last (counter (initial 1)) (counter (run before_last (initial 1)))
run-counter_example = run-counter before_last (initial 1) (ltb→lt 1 18446744073709551616 refl)

starts_late_example :
    let w = run (late_start (await_acquire ∷ resume_task 0 ∷ [])) (initial 1) in
    (w.held ≡ 0) × (w.sem.value ≡ 1) × (0 < total waits w.sem.waiters)
starts_late_example = starts_late (await_acquire ∷ resume_task 0 ∷ []) refl

-- One waiter is left, which was cancelled.
abbrev one_cancelled : Semaphore
one_cancelled = record { value = 2; waiters = cancelled ∷ [] }

release-acquire_example :
    ((acquire one_cancelled).1 ≡ true) × (release (acquire one_cancelled).0 ≡ one_cancelled)
unfolding locked
release-acquire_example = release-acquire one_cancelled refl (ltb→lt 2 18446744073709551616 refl)
