-- ===== src/Smart/Broken.antt =====
-- Jobs that a worker of `SmartProcessingQueue` in a_sync/primitives/queue.py leaves when it breaks.
use ez_a_sync.Prelude.{
  ℕ, ◌≡◌, ◌≢◌, sym, subst, Bool, true, false, ◌||◌, List, [], ◌∷◌, Option, none, some, Exn, Result,
  ok, err, if◌then◌else◌, Bool-cases, inl, inr,
}
use ez_a_sync.Executor.{is_exception}
use ez_a_sync.Gather.{finished, failed}
use ez_a_sync.Smart.{
  Job, queued, processing, over, abandoned, first_error, Inner, Given, SmartQueue, update, get_fut,
  is_done, is_skipped, begin_job, set_outcome, end_job, is_held, is_processing, shield, new_job,
  put_found, put_unless, ensure_workers, put_nowait, Event, put, take, end, callback, cancel,
  collect, notice, close, step, run, init,
}
use ez_a_sync.Smart.Steps.{at_update}

error_stays : (e : Exn) (o : Option Exn) → first_error e o ≢ none
error_stays e none n = cc
error_stays e (some x) n = cc

module _ {V : Type 0} where
  -- A job that has been abandoned was left by a worker that broke.
  abbrev pub IsBlamed : SmartQueue V → Type 0
  IsBlamed self = (i : ℕ) → (self.inner i).job ≡ abandoned → self.worker_error ≢ none

  module _ (i : ℕ) (v : Inner V) (self : SmartQueue V) (h : IsBlamed self) where
    -- Future `i` gets another value.
    blamed :
        (v.job ≡ abandoned → self.worker_error ≢ none)
        → (j : ℕ) → (update self.inner i v j).job ≡ abandoned
        → self.worker_error ≢ none
    blamed g =
        at_update (λ j x. x.job ≡ abandoned → self.worker_error ≢ none) self.inner i v g
          (λ j n. h j)

  shield-IsBlamed : (i : ℕ) (self : SmartQueue V) → IsBlamed self → IsBlamed (shield i self).1
  unfolding shield
  shield-IsBlamed i self h =
      blamed i (record (self.inner i) { waiters = self.outers ∷ (self.inner i).waiters }) self h
        (h i)

  put_found-IsBlamed :
      (key : ℕ) (o : Option ℕ) (self : SmartQueue V)
      → IsBlamed self
      → IsBlamed (put_found key o self).1
  unfolding new_job
  put_found-IsBlamed key none self h = shield-IsBlamed self.inners (new_job key self) (
      blamed self.inners
        (record { key = key; state = none; waiters = []; collected = false; job = queued }) self h
        (λ e. cc))
  put_found-IsBlamed key (some i) self h = elim (Bool-cases (is_done (self.inner i).state)) [
    | inl d ↦
        subst (λ (b : Bool). IsBlamed (if b then (Given.itself i, self) else shield i self).1)
          (sym d) h
    | inr d ↦
        subst (λ (b : Bool). IsBlamed (if b then (Given.itself i, self) else shield i self).1)
          (sym d) (shield-IsBlamed i self h)
  ]

  put_unless-IsBlamed :
      (o : Option Exn) (key : ℕ) (self : SmartQueue V)
      → IsBlamed self
      → IsBlamed (put_unless o key self).1
  put_unless-IsBlamed (some e) key self h = h
  put_unless-IsBlamed none key self h = put_found-IsBlamed key (get_fut key self.futs) self h

  either : (b : Bool) (s t : SmartQueue V) → IsBlamed s → IsBlamed t → IsBlamed (if b then s else t)
  either true s t h k = h
  either false s t h k = k

  begin_job-IsBlamed :
      (i : ℕ) (job : Job) (self : SmartQueue V) → IsBlamed self → IsBlamed (begin_job i job self)
  begin_job-IsBlamed i queued self h =
      either (is_skipped (self.inner i)) _ _
        (blamed i (record (self.inner i) { job = over }) self h (λ e. cc))
        (blamed i (record (self.inner i) { job = processing }) self h (λ e. cc))
  begin_job-IsBlamed i processing self h = h
  begin_job-IsBlamed i over self h = h
  begin_job-IsBlamed i abandoned self h = h

  end_job-IsBlamed :
      (i : ℕ) (r : Result V) (job : Job) (self : SmartQueue V)
      → IsBlamed self
      → IsBlamed (end_job i r job self)
  end_job-IsBlamed i (ok v) processing self h =
      blamed i (record (set_outcome (finished v) (self.inner i)) { job = over }) self h (λ e. cc)
  end_job-IsBlamed i (err e) processing self h =
      either (is_exception e) _ _
        (blamed i (record (set_outcome (failed e) (self.inner i)) { job = over }) self h (λ e. cc))
        (λ j n. error_stays e self.worker_error)
  end_job-IsBlamed i (ok v) queued self h = h
  end_job-IsBlamed i (ok v) over self h = h
  end_job-IsBlamed i (ok v) abandoned self h = h
  end_job-IsBlamed i (err e) queued self h = h
  end_job-IsBlamed i (err e) over self h = h
  end_job-IsBlamed i (err e) abandoned self h = h

  step-IsBlamed : (e : Event V) (self : SmartQueue V) → IsBlamed self → IsBlamed (step e self)
  unfolding step put_nowait
  step-IsBlamed (put key) self h = put_unless-IsBlamed (ensure_workers self) key self h
  step-IsBlamed (take i) self h = begin_job-IsBlamed i (self.inner i).job self h
  step-IsBlamed (end i r) self h = end_job-IsBlamed i r (self.inner i).job self h
  step-IsBlamed (callback o) self h = h
  step-IsBlamed (cancel o) self h = h
  step-IsBlamed (collect i) self h =
      either (is_held i self self.outers || is_processing (self.inner i).job) _ _ h
        (blamed i (record (self.inner i) { collected = true }) self h (h i))
  step-IsBlamed notice self h = h
  step-IsBlamed close self h = h

  run-IsBlamed :
      (es : List (Event V)) (self : SmartQueue V) → IsBlamed self → IsBlamed (run es self)
  unfolding run
  run-IsBlamed [] self h = h
  run-IsBlamed (e ∷ es) self h = run-IsBlamed es (step e self) (step-IsBlamed e self h)

  pub left_broken : (es : List (Event V)) → IsBlamed (run es init)
  left_broken es = run-IsBlamed es init (λ i e. absurd cc)
