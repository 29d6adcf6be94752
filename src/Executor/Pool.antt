-- ===== src/Executor/Pool.antt =====
-- a_sync/executor.py: the threads of `PruningThreadPoolExecutor`, `_worker` and
-- `_adjust_thread_count`. A step is what one thread does under the lock or between two waits.
pub mod Sound
pub mod Idle
use ez_a_sync.Prelude.{
  ℕ, zero, suc, ◌+◌, ◌-◌, Bool, true, false, ◌&&◌, List, [], ◌∷◌, ltb, ◌==◌, if◌then◌else◌,
}

-- `busy` threads run a work item, the others wait for one; `idle` is `_idle_semaphore`.
pub record Pool : Type 0 where
  pub max_workers : ℕ
  pub threads : ℕ
  pub busy : ℕ
  pub work_queue : ℕ
  pub idle : ℕ

pub data Step : Type 0 where
  submit get finish time_out : Step

abbrev pub init : ℕ → Pool
init n = record { max_workers = n; threads = 0; busy = 0; work_queue = 0; idle = 0 }

unfoldable pub adjust_thread_count : Pool → Pool
adjust_thread_count p =
    if p.idle == 0
    then (if ltb p.threads p.max_workers then record p { threads = p.threads + 1 } else p)
    else record p { idle = p.idle - 1 }

-- A waiting thread takes a work item.
unfoldable pub get_item : Pool → Pool
get_item p =
    if ltb p.busy p.threads && ltb 0 p.work_queue
    then record p { busy = p.busy + 1; work_queue = p.work_queue - 1 }
    else p

-- `work_item.run()` is over, and the semaphore is released.
unfoldable pub end_item : Pool → Pool
end_item p = if ltb 0 p.busy then record p { busy = p.busy - 1; idle = p.idle + 1 } else p

-- `queue.Empty`: the last thread stays. A work item may have come in the meantime.
unfoldable pub prune : Pool → Pool
prune p =
    if ltb p.busy p.threads && ltb 1 p.threads
    then record p { threads = p.threads - 1; idle = p.idle - 1 }
    else p

unfoldable pub step : Step → Pool → Pool
step submit p = adjust_thread_count (record p { work_queue = p.work_queue + 1 })
step get p = get_item p
step finish p = end_item p
step time_out p = prune p

unfoldable pub run : List Step → Pool → Pool
run [] p = p
run (a ∷ as') p = run as' (step a p)
