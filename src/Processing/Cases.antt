-- ===== src/Processing/Cases.antt =====
-- What each step of `Processing` comes down to, as rules for proofs about all steps.
use ez_a_sync.Prelude.{
  ℕ, suc, ◌≡◌, refl, Bool, true, false, List, [], ◌∷◌, Option, none, some, ok, err, set, get_elem?,
  List-cases, Option-cases, Bool-cases, arith, inl, inr, ◌⊎◌, subst, sym, Result, and_then, Exn,
  runtime_error, reference_error,
}
use ez_a_sync.Asyncio
use ez_a_sync.Asyncio.{AsyncQueue, wake_putter}
use ez_a_sync.Processing.{
  Processing, idle, busy, broken, Job, Outcome, start_workers, ensure_workers, enqueue, put_nowait,
  submit, done_with, receive, received, take_job, settled, finish, work, first_broken, Fut, update,
  pending, cancelled, collected, result, exception,
}

-- The queue after `get_nowait` has returned its first item.
abbrev pub taken {ℓ} : {A : Type ℓ} → AsyncQueue A → List A → AsyncQueue A
taken q js = wake_putter (record q { queue = js })

abbrev pub is_pending {ℓ} : {V : Type ℓ} → Fut V → Bool
is_pending pending = true
is_pending _ = false

-- The store with a new pending future, named by the old `next_fut`.
abbrev pub with_fresh {ℓ} : {A V : Type ℓ} → Processing A V → Processing A V
with_fresh s = record s { futs = update s.futs s.next_fut pending; next_fut = suc s.next_fut }

module _ {ℓ} {A V : Type ℓ} (s : Processing A V) where
  -- An idle worker with jobs queued receives the oldest.
  pub take_job-idle :
      (w : ℕ) (j : Job A) (js : List (Job A))
      → get_elem? s.workers w ≡ some idle
      → s.jobs.queue ≡ j ∷ js
      → take_job w s ≡ receive w j (record s { jobs = taken s.jobs js })
  unfolding take_job Asyncio.get_nowait
  take_job-idle w j js e c = ground arith

  take_job-empty : (w : ℕ) → s.jobs.queue ≡ [] → take_job w s ≡ s
  unfolding take_job Asyncio.get_nowait
  take_job-empty w c = ground arith

  ensure_workers_cases :
      (ensure_workers s ≡ (ok tt, start_workers s))
      ⊎ ((e : Exn) × (ensure_workers s ≡ (err e, s)))
      ⊎ ((e : Exn) × (ensure_workers s ≡ (err e, start_workers s)))
  unfolding ensure_workers
  ensure_workers_cases = elim (Bool-cases s.closed) [
    | inl e ↦ inr (inl (runtime_error, ground arith))
    | inr e ↦ elim (Option-cases (first_broken (start_workers s).workers)) [
      | inl n ↦ inl (ground arith)
      | inr (x, b) ↦ inr (inr (x, ground arith))
    ]
  ]

  start_workers-same :
      ((start_workers s).next_fut ≡ s.next_fut)
      × ((start_workers s).futs ≡ s.futs)
      × ((start_workers s).no_futs ≡ s.no_futs)
  unfolding start_workers
  start_workers-same = ground arith

and_then_state {ℓ κ μ} :
    {S : Type ℓ} {A : Type κ} {B : Type μ} (m : Result A × S) (b : B)
    → (and_then m (λ _ t. (ok b, t))).1 ≡ m.1
and_then_state (ok a, t) b = refl
and_then_state (err e, t) b = refl

module _ {ℓ} {A V : Type ℓ} (args : A) (s : Processing A V) where
  submit-plain :
      s.no_futs ≡ true → (submit args s).1 ≡ (enqueue (record { args = args; fut = none }) s).1
  unfolding submit
  submit-plain e =
      ground
        (arith, and_then_state {B = Option ℕ} (enqueue (record { args = args; fut = none }) s) none)

  submit-data :
      s.no_futs ≡ false
      → (submit args s).1
        ≡ (enqueue (record { args = args; fut = some s.next_fut }) (with_fresh s)).1
  unfolding submit
  submit-data e = ground (
    arith,
    and_then_state (enqueue (record { args = args; fut = some s.next_fut }) (with_fresh s))
        (some s.next_fut),
  )

module _ {ℓ κ} {A V : Type ℓ} (P : Processing A V → Type κ) (s : Processing A V) where
  pub take_job_cases :
      (w : ℕ)
      → P s
      → ((j : Job A) (js : List (Job A))
          → get_elem? s.workers w ≡ some idle
          → s.jobs.queue ≡ j ∷ js
          → P (receive w j (record s { jobs = taken s.jobs js })))
      → P (take_job w s)
  take_job_cases w stay take = elim (List-cases s.jobs.queue) [
    | inl n ↦ subst P (sym (take_job-empty s w n)) stay
    | inr (j, js, c) ↦ elim (Option-cases (get_elem? s.workers w)) [
      | inl e ↦ unfold take_job in rw (e, take_job) stay
      | inr (idle, e) ↦ subst P (sym (take_job-idle s w j js e c)) (take j js e c)
      | inr (busy _, e) ↦ unfold take_job in rw (e, take_job) stay
      | inr (broken _ _, e) ↦ unfold take_job in rw (e, take_job) stay
    ]
  ]

  pub received_cases :
      (w : ℕ) (j : Job A) (o : Option (Fut V))
      → P (record s { workers = set s.workers w (busy j) })
      → P (record s { workers = set s.workers w (broken reference_error j) })
      → (o ≡ some cancelled → P (done_with w s))
      → P (received w j o s)
  unfolding received
  received_cases w j none keep breaks skip = keep
  received_cases w j (some cancelled) keep breaks skip = skip refl
  received_cases w j (some collected) keep breaks skip = breaks
  received_cases w j (some pending) keep breaks skip = keep
  received_cases w j (some (result x)) keep breaks skip = keep
  received_cases w j (some (exception x)) keep breaks skip = keep

  pub settled_cases :
      (w : ℕ) (j : Job A) (f : ℕ) (value x : Fut V)
      → (x ≡ pending → P (done_with w (record s { futs = update s.futs f value })))
      → P (record s { workers = set s.workers w (broken reference_error j) })
      → (is_pending x ≡ false → P (done_with w s))
      → P (settled w j f value x s)
  unfolding settled
  settled_cases w j f value pending pass breaks log = pass refl
  settled_cases w j f value collected pass breaks log = breaks
  settled_cases w j f value cancelled pass breaks log = log refl
  settled_cases w j f value (result x) pass breaks log = log refl
  settled_cases w j f value (exception x) pass breaks log = log refl

  pub work_cases :
      (func : A → Outcome V) (w : ℕ)
      → P s
      → ((j : Job A) → get_elem? s.workers w ≡ some (busy j) → P (finish w j (func j.args) s))
      → P (work func w s)
  unfolding work
  work_cases func w stay go = elim (Option-cases (get_elem? s.workers w)) [
    | inl e ↦ rw (e, work) stay
    | inr (idle, e) ↦ rw (e, work) stay
    | inr (busy j, e) ↦ rw (e, work) (go j e)
    | inr (broken x j, e) ↦ rw (e, work) stay
  ]

  submit_cases :
      (args : A)
      → P (enqueue (record { args = args; fut = none }) s).1
      → P (enqueue (record { args = args; fut = some s.next_fut }) (with_fresh s)).1
      → P (submit args s).1
  submit_cases args plain with_fut = elim (Bool-cases s.no_futs) [
    | inl e ↦ subst P (sym (submit-plain args s e)) plain
    | inr e ↦ subst P (sym (submit-data args s e)) with_fut
  ]

module _ {ℓ κ} {A V : Type ℓ} (P : Processing A V → Type κ) (s : Processing A V) where
  -- `put_nowait` raises with nothing queued, or queues one job.
  pub put_nowait_cases :
      (args : A)
      → P s
      → P (start_workers s)
      → P (enqueue (record { args = args; fut = none }) (start_workers s)).1
      → P
          (enqueue
            (record { args = args; fut = some (start_workers s).next_fut })
            (with_fresh (start_workers s))).1
      → P (put_nowait args s).1
  unfolding put_nowait
  put_nowait_cases args stay started plain with_fut = elim (ensure_workers_cases s) [
    | inr (inl (e, eq)) ↦ rw (eq, put_nowait) stay
    | inr (inr (e, eq)) ↦ rw (eq, put_nowait) started
    | inl eq ↦ rw (eq, put_nowait) (submit_cases P (start_workers s) args plain with_fut)
  ]
