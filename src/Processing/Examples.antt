-- ===== src/Processing/Examples.antt =====
-- `ProcessingQueue` on small schedules: runs, and its theorems at concrete inputs.
use ez_a_sync.Prelude.{
  ℕ, ◌+◌, ◌≡◌, refl, true, false, List, [], ◌∷◌, some, err, Exn, user_error, get_elem?,
  if◌then◌else◌, ◌==◌, arith, inl,
}
use ez_a_sync.Asyncio
use ez_a_sync.Asyncio.{AsyncQueue, wake_getter, wake_putter, wakeup_next, full, task_done}
use ez_a_sync.Processing.{
  Processing, idle, busy, broken, Event, submits, takes, finishes, cancels, Outcome, returns,
  raises, is_cancelled, init, run, step, work, take_job, receive, received, complete, settle,
  settled, finish, done_with, put_nowait, submit, enqueue, ensure_workers, start_workers, cancel,
  cancelled, collected, result, exception,
}
use ez_a_sync.Processing.Cases.{is_pending}
use ez_a_sync.Processing.Tasks.{IsCounted, init-IsCounted, run-IsCounted}
use ez_a_sync.Processing.Owners.{IsOwned, run-init-IsOwned}
use ez_a_sync.Processing.Outcomes.{ended, dry_all_settled, finish_settles}
use ez_a_sync.Processing.Broken.{BrokenAt, run-BrokenAt, put_nowait-BrokenAt, collected_ends}

-- Doubles its argument, fails on 3, and is cancelled on 4.
abbrev func : ℕ → Outcome ℕ
func n = if n == 3 then raises (user_error 0) else if n == 4 then is_cancelled else returns (n + n)

abbrev schedule : List (Event ℕ)
schedule =
    submits 5
    ∷ submits 3
    ∷ submits 6
    ∷ takes 0
    ∷ takes 1
    ∷ cancels 2
    ∷ finishes 0
    ∷ takes 0
    ∷ finishes 1
    ∷ []

abbrev new : Processing ℕ ℕ
new = init 2 true

abbrev last : Processing ℕ ℕ
last = run func schedule new

schedule_runs :
    (last.futs 0 ≡ result 10)
    × (last.futs 1 ≡ exception (user_error 0))
    × (last.futs 2 ≡ cancelled)
    × (last.jobs.unfinished_tasks ≡ 0)
    × (last.workers ≡ idle ∷ idle ∷ [])
unfolding init run step work take_job receive received complete settle settled finish done_with
    put_nowait submit enqueue ensure_workers start_workers cancel Asyncio.get_nowait
    Asyncio.put_nowait wake_getter wake_putter wakeup_next full task_done
schedule_runs = (refl, refl, refl, refl, refl)

run-IsCounted_example : IsCounted last
run-IsCounted_example = run-IsCounted func schedule new (init-IsCounted 2 true)

run-init-IsOwned_example : IsOwned 1 last
run-init-IsOwned_example = run-init-IsOwned func 2 true schedule 1

dry_all_settled_example : (last.jobs.all_done ≡ true) × (is_pending (last.futs 2) ≡ false)
unfolding init run step work take_job receive received complete settle settled finish done_with
    put_nowait submit enqueue ensure_workers start_workers cancel Asyncio.get_nowait
    Asyncio.put_nowait wake_getter wake_putter wakeup_next full task_done
dry_all_settled_example = dry_all_settled func 2 true schedule refl refl 2 (omega arith)

-- One worker that holds the job 5 for the future 0, of which nothing is known yet.
abbrev working : Processing ℕ ℕ
working = record new {
  started = true;
  workers = busy (record { args = 5; fut = some 0 }) ∷ [];
  jobs = record Asyncio.empty { unfinished_tasks = 1; all_done = false };
  next_fut = 1;
}

finish_settles_example :
    ((g : ℕ)
      → (ended working 0 5 0 (returns 10)).futs g ≡ (if g == 0 then result 10 else working.futs g))
    × ((ended working 0 5 0 (returns 10)).jobs.unfinished_tasks ≡ 0)
    × ((ended working 0 5 0 (returns 10)).jobs.queue ≡ [])
    × (get_elem? (ended working 0 5 0 (returns 10)).workers 0 ≡ some idle)
unfolding init
finish_settles_example = finish_settles working 0 5 0 (returns 10) (result 10) 0 refl refl refl refl

-- One idle worker, and a job whose future has been dropped.
abbrev dropped : Processing ℕ ℕ
dropped = record new {
  started = true;
  workers = idle ∷ [];
  jobs = record Asyncio.empty {
    queue = record { args = 5; fut = some 0 } ∷ [];
    unfinished_tasks = 1;
    all_done = false;
  };
  futs = λ _. collected;
  next_fut = 1;
}

collected_ends_example :
    ((run func (submits 1 ∷ []) (take_job 0 dropped)).jobs.all_done ≡ false)
    × ((y : Exn) × (put_nowait 2 (run func (submits 1 ∷ []) (take_job 0 dropped))
          ≡ (err y, run func (submits 1 ∷ []) (take_job 0 dropped))))
collected_ends_example =
    collected_ends func 0 5 0 dropped [] (submits 1 ∷ []) 2
      (record { unbounded = refl; counted = refl; joinable = refl; unstarted = inl refl }) refl refl
      refl

abbrev halted : Processing ℕ ℕ
halted = record working { workers = broken (user_error 1) (record { args = 5; fut = some 0 }) ∷ [] }

halted-IsCounted : IsCounted halted
halted-IsCounted = record {
  unbounded = refl;
  counted = refl;
  joinable = refl;
  unstarted = inl refl;
}

run-BrokenAt_example :
    BrokenAt 0 (user_error 1) (record { args = 5; fut = some 0 }) (run func schedule halted)
    × ((run func schedule halted).jobs.all_done ≡ false)
run-BrokenAt_example =
    run-BrokenAt 0 (user_error 1) (record { args = 5; fut = some 0 }) func schedule halted
      halted-IsCounted refl

put_nowait-BrokenAt_example : (y : Exn) × (put_nowait 9 halted ≡ (err y, halted))
put_nowait-BrokenAt_example =
    put_nowait-BrokenAt 0 (user_error 1) (record { args = 5; fut = some 0 }) 9 halted
      halted-IsCounted refl
