-- ===== src/Counter/Served.antt =====
-- a_sync/primitives/locks/counter.pyx: which waiters have been woken, after any sequence of events.
use ez_a_sync.Prelude.{
  ltb→lt, ◌↔◌, ℕ, ◌≤◌, ◌≡◌, ◌≢◌, refl, sym, ap, subst, ◌∙◌, List, [], ◌∷◌, some, Result, ok, ltb,
  Bool-cases, inl, inr, arith,
}
use ez_a_sync.Counter.{State, pending, finished, cancelled, waiting, CounterLock}
use ez_a_sync.Counter.Heap.{above}
use ez_a_sync.Counter.Good.{is_some, no_some}
use ez_a_sync.Counter.Steps.{IsWhole}
use ez_a_sync.Counter.{
  Event, call_wait_for, call_set, cancel_task, resume_task, step, run, new_lock, set_value,
}
use ez_a_sync.Counter.Steps.{set-IsDone, set_below}
use ez_a_sync.Counter.Joins.{wait-IsWhole}
use ez_a_sync.Counter.Leaves.{cancel-IsWhole, resume-IsWhole}

set-IsWhole : (v : ℕ) (self : CounterLock) → IsWhole self → IsWhole (set_value v self).1
set-IsWhole v self whole = elim (Bool-cases (ltb v self.value)) [
  | inl lt ↦
      subst (λ (r : Result (Unit {0}) × CounterLock). IsWhole r.1)
        (sym (set_below v self (ltb→lt v self.value lt))) whole
  | inr ge ↦ (set-IsDone v self whole (ground (arith, ge))).1
]

step-IsWhole : (e : Event) (self : CounterLock) → IsWhole self → IsWhole (step e self)
unfolding step
step-IsWhole (call_wait_for v) self whole = wait-IsWhole v self whole
step-IsWhole (call_set v) self whole = set-IsWhole v self whole
step-IsWhole (cancel_task f) self whole = cancel-IsWhole f self whole
step-IsWhole (resume_task f) self whole = resume-IsWhole f self whole

run-IsWhole : (es : List Event) (self : CounterLock) → IsWhole self → IsWhole (run es self)
unfolding run
run-IsWhole [] self whole = whole
run-IsWhole (e ∷ es) self whole = run-IsWhole es (step e self) (step-IsWhole e self whole)

new-IsWhole : (v : ℕ) → IsWhole (new_lock v)
unfolding new_lock
new-IsWhole v = record {
  sorted = tt;
  aligned = λ k. refl;
  waits = λ f k e. absurd (no_some (waiting k pending) e);
  belongs = λ f k ws at in_ws. absurd (no_some ws at);
  reached = λ f k e. absurd (no_some (waiting k finished) e);
  fresh = λ f h. refl;
}

pending_finished : pending ≢ finished
pending_finished e = cc

served_in :
    (self : CounterLock)
    → IsWhole self
    → (f k : ℕ) (st : State) → self.futures f ≡ some (waiting k st)
    → st ≢ cancelled
    → (st ≡ finished) ↔ (k ≤ self.value)
served_in self whole f k finished e h = (λ i. whole.reached f k e, λ le. refl)
served_in self whole f k cancelled e h = absurd (h refl)
served_in self whole f k pending e h =
    let (ws, at, in_ws) = whole.waits f k e in
    let up = above self.value k self.heap whole.sorted (whole.aligned k ∙ ap is_some at) in
    (λ i. absurd (pending_finished i), λ le. absurd (omega (arith, up, le)))

-- After any sequence of calls of `wait_for` and `set`, cancellations and resumptions on a new
-- lock, a future that waits for the value `k` and is not cancelled has its result exactly when
-- the value of the lock is at least `k`.
pub served :
    (v : ℕ) (es : List Event) (f k : ℕ) (st : State)
    → (run es (new_lock v)).futures f ≡ some (waiting k st)
    → st ≢ cancelled
    → (st ≡ finished) ↔ (k ≤ (run es (new_lock v)).value)
served v es f k st e h =
    served_in (run es (new_lock v)) (run-IsWhole es (new_lock v) (new-IsWhole v)) f k st e h

-- After any sequence of such events on a new lock, `set` to a value that is not below the
-- present one raises nothing, and the lock has that value.
pub set_succeeds :
    (v w : ℕ) (es : List Event)
    → (run es (new_lock v)).value ≤ w
    → ((set_value w (run es (new_lock v))).0 ≡ ok tt)
      × ((set_value w (run es (new_lock v))).1.value ≡ w)
set_succeeds v w es h =
    let (worked, kept, same) =
      set-IsDone w (run es (new_lock v)) (run-IsWhole es (new_lock v) (new-IsWhole v)) h in
    (worked, same)
