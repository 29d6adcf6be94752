-- ===== src/Processing/Outcomes.antt =====
-- What callers of a `ProcessingQueue` can rely on.
use ez_a_sync.Prelude.{
  ℕ, suc, ◌<◌, ◌≡◌, refl, Bool, true, false, List, [], ◌∷◌, Option, none, some, get_elem?,
  get_elem?-set_self, total, ◌==◌, all, arith, if◌then◌else◌,
}
use ez_a_sync.Asyncio.{task_done}
use ez_a_sync.Processing.{
  Processing, Worker, idle, busy, broken, Event, Outcome, returns, raises, is_cancelled, done_with,
  settle, settled, complete, finish, run, init, Fut, result, exception, pending,
}
use ez_a_sync.Processing.Cases.{is_pending}
use ez_a_sync.Processing.Tasks.{IsCounted, holding, init-IsCounted, run-IsCounted}
use ez_a_sync.Processing.Owners.{IsOwned, worker_carries, run-init-IsOwned}

abbrev pub is_idle {ℓ} : {A : Type ℓ} → Worker A → Bool
is_idle idle = true
is_idle _ = false

holding-idle {ℓ} :
    {A : Type ℓ} (ws : List (Worker A)) → all is_idle ws ≡ true → total holding ws ≡ 0
holding-idle [] e = refl
holding-idle (idle ∷ ws) e = omega (arith, holding-idle ws e)
holding-idle (busy j ∷ ws) e = cc
holding-idle (broken x j ∷ ws) e = cc

carries-idle {ℓ} :
    {A : Type ℓ} (f : ℕ) (ws : List (Worker A))
    → all is_idle ws ≡ true
    → total (worker_carries f) ws ≡ 0
carries-idle f [] e = refl
carries-idle f (idle ∷ ws) e = omega (arith, carries-idle f ws e)
carries-idle f (busy j ∷ ws) e = cc
carries-idle f (broken x j ∷ ws) e = cc

module _ {ℓ} {A V : Type ℓ} (func : A → Outcome V) (n : ℕ) (return_data : Bool)
    (es : List (Event A)) where
  abbrev pub reached : Processing A V
  reached = run func es (init n return_data)

  -- Whatever has been submitted, cancelled and dropped, once a new queue has no job queued and
  -- every worker is idle, `join` may return and no future that the queue gave out is pending.
  pub dry_all_settled :
      reached.jobs.queue ≡ []
      → all is_idle reached.workers ≡ true
      → (f : ℕ) → f < reached.next_fut
      → (reached.jobs.all_done ≡ true) × (is_pending (reached.futs f) ≡ false)
  dry_all_settled dry idle_all f given =
      let s = run func es (init n return_data) in
      let c : IsCounted s = run-IsCounted func es _ (init-IsCounted n return_data) in
      let o : IsOwned f s = run-init-IsOwned func n return_data es f in
      let h = holding-idle s.workers idle_all in
      let k = carries-idle f s.workers idle_all in
      (ground (arith, c.counted, c.joinable, h, dry), ground (arith, o, k, dry))

-- What the future of a job is to hold, by how the function ended.
abbrev pub value_of {ℓ} : {V : Type ℓ} → Outcome V → Option (Fut V)
value_of (returns v) = some (result v)
value_of (raises e) = some (exception e)
value_of is_cancelled = none

module _ {ℓ} {A V : Type ℓ} (s : Processing A V) (w : ℕ) (args : A) (f : ℕ) (o : Outcome V) where
  abbrev pub ended : Processing A V
  ended = finish w (record { args = args; fut = some f }) o s

  -- When the function of a busy worker has returned or raised and its future is pending, the
  -- worker sets that future accordingly and no other, counts one task as done, leaves the queue
  -- alone and is idle.
  pub finish_settles :
      (value : Fut V) (tasks : ℕ)
      → get_elem? s.workers w ≡ some (busy (record { args = args; fut = some f }))
      → s.futs f ≡ pending
      → s.jobs.unfinished_tasks ≡ suc tasks
      → value_of o ≡ some value
      → ((g : ℕ) → ended.futs g ≡ (if g == f then value else s.futs g))
        × (ended.jobs.unfinished_tasks ≡ tasks)
        × (ended.jobs.queue ≡ s.jobs.queue)
        × (get_elem? ended.workers w ≡ some idle)
  unfolding finish complete settle settled done_with task_done
  finish_settles value tasks e p u is =
      let freed = get_elem?-set_self s.workers w idle e in ground (arith, freed)
