-- ===== src/Semaphore/Unstarted.antt =====
-- a_sync/primitives/locks/semaphore.pyx: `acquire` looks at the semaphore when it is called, and its
-- coroutine joins the waiters when it starts, without a second look.
use ez_a_sync.Prelude.{
  ℕ, zero, suc, ◌<◌, ◌≡◌, refl, sym, subst, Bool, true, false, List, [], ◌∷◌, Option, none, some,
  any, all, get_elem?, total, total-append, Bool-cases, inl, inr, arith,
}
use ez_a_sync.Semaphore.{
  Waiter, pending, granted, interrupted, cancelled, Semaphore, is_not_cancelled, locked,
  set_first_result, wake_up_next, acquire, enqueue, release, increment, decrement, resume, World,
  Event, call_acquire, await_acquire, start, release_permit, cancel_task, resume_task, step, run,
  initial, after_call, after_await, resume_at, start_one, release_one,
}
use ez_a_sync.Semaphore.Counting.{grants, waits, when_locked, grants-remove}
use ez_a_sync.Semaphore.Wakeups.{none_waits, and_parts, waits-remove}

-- Waiters wait, and no task is left that would wake one.
pub record IsStuck (v : ℕ) (w : World) : Type 0 where
  pub nothing_held : w.held ≡ 0
  pub nothing_granted : total grants w.sem.waiters ≡ 0
  pub waiting : 0 < total waits w.sem.waiters
  pub same_value : w.sem.value ≡ v

stuck-locked : (self : Semaphore) → 0 < total waits self.waiters → locked self ≡ true
unfolding locked
stuck-locked self h = elim (Bool-cases (any is_not_cancelled self.waiters)) [
  | inl e ↦ ground (arith, e)
  | inr e ↦ absurd (omega (arith, none_waits self.waiters e))
]

enqueue-IsStuck :
    (v : ℕ) (w : World) (u : ℕ)
    → IsStuck v w
    → IsStuck v (record { sem = enqueue w.sem; held = w.held; unstarted = u })
unfolding enqueue
enqueue-IsStuck v w u s = record {
  nothing_held = s.nothing_held;
  nothing_granted =
      omega (arith, total-append grants w.sem.waiters (pending ∷ []), s.nothing_granted);
  waiting = omega (arith, total-append waits w.sem.waiters (pending ∷ []));
  same_value = s.same_value;
}

call-IsStuck : (v : ℕ) (w : World) → IsStuck v w → IsStuck v (after_call w (acquire w.sem))
call-IsStuck v w s =
    subst (λ r. IsStuck v (after_call w r)) (sym (when_locked w.sem (stuck-locked w.sem s.waiting)))
      (record {
        nothing_held = s.nothing_held;
        nothing_granted = s.nothing_granted;
        waiting = s.waiting;
        same_value = s.same_value;
      })

await-IsStuck : (v : ℕ) (w : World) → IsStuck v w → IsStuck v (after_await w (acquire w.sem))
await-IsStuck v w s =
    subst (λ r. IsStuck v (after_await w r))
      (sym (when_locked w.sem (stuck-locked w.sem s.waiting))) (enqueue-IsStuck v w w.unstarted s)

start-IsStuck : (v : ℕ) (w : World) (n : ℕ) → IsStuck v w → IsStuck v (start_one w n)
start-IsStuck v w zero s = s
start-IsStuck v w (suc n) s = enqueue-IsStuck v w n s

release-IsStuck : (v : ℕ) (w : World) → IsStuck v w → IsStuck v (step release_permit w)
unfolding step
release-IsStuck v w s = subst (λ n. IsStuck v (release_one w n)) (sym s.nothing_held) s

resume-IsStuck :
    (v : ℕ) (w : World) (n : ℕ) (o : Option Waiter)
    → get_elem? w.sem.waiters n ≡ o
    → IsStuck v w
    → IsStuck v (resume_at w n o)
unfolding resume
resume-IsStuck v w n none e s = s
resume-IsStuck v w n (some pending) e s = s
resume-IsStuck v w n (some granted) e s =
    absurd (omega (arith, grants-remove w.sem.waiters n granted e, s.nothing_granted))
resume-IsStuck v w n (some interrupted) e s =
    absurd (omega (arith, grants-remove w.sem.waiters n interrupted e, s.nothing_granted))
resume-IsStuck v w n (some cancelled) e s = record {
  nothing_held = s.nothing_held;
  nothing_granted = omega (arith, grants-remove w.sem.waiters n cancelled e, s.nothing_granted);
  waiting = omega (arith, waits-remove w.sem.waiters n cancelled e, s.waiting);
  same_value = s.same_value;
}

abbrev pub no_cancel : Event → Bool
no_cancel (cancel_task n) = false
no_cancel _ = true

step-IsStuck :
    (v : ℕ) (e : Event) (w : World) → no_cancel e ≡ true → IsStuck v w → IsStuck v (step e w)
unfolding step
step-IsStuck v call_acquire w p s = call-IsStuck v w s
step-IsStuck v await_acquire w p s = await-IsStuck v w s
step-IsStuck v start w p s = start-IsStuck v w w.unstarted s
step-IsStuck v release_permit w p s = release-IsStuck v w s
step-IsStuck v (cancel_task n) w p s = absurd cc
step-IsStuck v (resume_task n) w p s = resume-IsStuck v w n (get_elem? w.sem.waiters n) refl s

run-IsStuck :
    (v : ℕ) (es : List Event) (w : World)
    → all no_cancel es ≡ true
    → IsStuck v w
    → IsStuck v (run es w)
unfolding run
run-IsStuck v [] w p s = s
run-IsStuck v (e ∷ es) w p s =
    let (now, later) = and_parts (no_cancel e) (all no_cancel es) p in
    run-IsStuck v es (step e w) later (step-IsStuck v e w now s)

-- A task takes the only permit, another calls `acquire`, the permit is released, and only then does
-- the coroutine of `acquire` start.
abbrev pub late_start : List Event → List Event
late_start es = await_acquire ∷ call_acquire ∷ release_permit ∷ start ∷ es

-- One permit is taken, another task calls `acquire`, the permit is released, and only then does
-- that coroutine start: after all further events but cancellations, no task ever holds a permit,
-- the value is still 1, and a waiter waits.
pub starts_late :
    (es : List Event)
    → all no_cancel es ≡ true
    → ((run (late_start es) (initial 1)).held ≡ 0)
      × ((run (late_start es) (initial 1)).sem.value ≡ 1)
      × (0 < total waits (run (late_start es) (initial 1)).sem.waiters)
unfolding run step acquire locked release wake_up_next set_first_result enqueue increment decrement
starts_late es p =
    let stuck =
      run-IsStuck 1 es
        (record { sem = record { value = 1; waiters = pending ∷ [] }; held = 0; unstarted = 0 }) p
        (record {
          nothing_held = refl;
          nothing_granted = refl;
          waiting = omega arith;
          same_value = refl;
        }) in
    (stuck.nothing_held, stuck.same_value, stuck.waiting)
