-- ===== src/Semaphore.antt =====
-- a_sync/primitives/locks/semaphore.pyx: `Semaphore` and its waiters, with the tasks that wait in
-- `__acquire` and what the event loop does to them.
pub mod Counting
pub mod Wakeups
pub mod Abstract
pub mod RoundTrip
pub mod Unstarted
pub mod Examples
use ez_a_sync.Prelude.{
  ℕ, zero, suc, ◌+◌, ◌-◌, ◌%◌, Bool, true, false, not, ◌&&◌, ◌||◌, List, [], ◌∷◌, ◌++◌, Option,
  none, some, Result, ok, err, value_error, overflow_error, ℤ, pos, negsuc, ltb, ◌==◌,
  if◌then◌else◌, any, get_elem?, set,
}

-- A future of `__waiters`, with the task that awaits it. `granted` is a future with a result,
-- `interrupted` is one whose task was cancelled after that.
pub data Waiter : Type 0 where
  pending granted interrupted cancelled : Waiter

pub record Semaphore : Type 0 where
  pub value : ℕ
  pub waiters : List Waiter

-- `value` is an `unsigned long long`.
unfoldable pub increment : ℕ → ℕ
increment v = (v + 1) % 18446744073709551616

unfoldable pub decrement : ℕ → ℕ
decrement v = (v + 18446744073709551615) % 18446744073709551616

-- `Semaphore.__init__`
unfoldable pub new_semaphore : ℤ → Result Semaphore
new_semaphore (negsuc n) = err value_error
new_semaphore (pos n) =
    if ltb n 18446744073709551616
    then ok (record { value = n; waiters = [] })
    else err overflow_error

abbrev pub is_not_cancelled : Waiter → Bool
is_not_cancelled cancelled = false
is_not_cancelled _ = true

unfoldable pub locked : Semaphore → Bool
locked self = (self.value == 0) || any is_not_cancelled self.waiters

abbrev pub keep : Waiter → Option (List Waiter) → Option (List Waiter)
keep w none = none
keep w (some ws) = some (w ∷ ws)

-- The first waiter that is not done gets its result; `none` where there is none.
unfoldable pub set_first_result : List Waiter → Option (List Waiter)
set_first_result [] = none
set_first_result (pending ∷ ws) = some (granted ∷ ws)
set_first_result (w ∷ ws) = keep w (set_first_result ws)

abbrev pub woken : Semaphore → Option (List Waiter) → Semaphore
woken self none = self
woken self (some ws) = record { value = decrement self.value; waiters = ws }

unfoldable pub wake_up_next : Semaphore → Semaphore
wake_up_next self = woken self (set_first_result self.waiters)

-- `acquire`: the permit is taken at once, or a coroutine of `__acquire` is made; the second
-- component is whether it was taken.
unfoldable pub acquire : Semaphore → Semaphore × Bool
acquire self =
    if locked self then (self, false) else (record self { value = decrement self.value }, true)

-- `__acquire` up to its `await`
unfoldable pub enqueue : Semaphore → Semaphore
enqueue self = record self { waiters = self.waiters ++ pending ∷ [] }

unfoldable pub release : Semaphore → Semaphore
release self = wake_up_next (record self { value = increment self.value })

-- `task.cancel()` for the task of the waiter: it cancels the future that is not done yet.
unfoldable pub cancel_waiter : Waiter → Waiter
cancel_waiter pending = cancelled
cancel_waiter granted = interrupted
cancel_waiter w = w

unfoldable pub remove_waiter : ℕ → List Waiter → List Waiter
remove_waiter n [] = []
remove_waiter zero (w ∷ ws) = ws
remove_waiter (suc n) (w ∷ ws) = w ∷ remove_waiter n ws

-- `__acquire` from its `await` on, for the waiter that has been removed; whether it has the permit.
unfoldable pub resume : Waiter → Semaphore → Semaphore × Bool
resume pending self = (self, false)
resume cancelled self = (self, false)
resume interrupted self = (wake_up_next (record self { value = increment self.value }), false)
resume granted self = ((if ltb 0 self.value then wake_up_next self else self), true)

-- The semaphore, the permits that tasks hold, and the coroutines of `__acquire` that have not
-- started yet.
pub record World : Type 0 where
  pub sem : Semaphore
  pub held : ℕ
  pub unstarted : ℕ

-- `call_acquire` makes the coroutine, which a later `start` runs; `await_acquire` is
-- `await semaphore.acquire()`, which runs it at once. A number is the place of a waiter.
pub data Event : Type 0 where
  call_acquire await_acquire start release_permit : Event
  cancel_task resume_task : ℕ → Event

abbrev pub taken : World → Semaphore → World
taken w sem = record { sem = sem; held = suc w.held; unstarted = w.unstarted }

abbrev pub put_sem : World → Semaphore → World
put_sem w sem = record { sem = sem; held = w.held; unstarted = w.unstarted }

abbrev pub after_call : World → Semaphore × Bool → World
after_call w (sem, true) = taken w sem
after_call w (sem, false) = record { sem = sem; held = w.held; unstarted = suc w.unstarted }

abbrev pub after_await : World → Semaphore × Bool → World
after_await w (sem, true) = taken w sem
after_await w (sem, false) = put_sem w (enqueue sem)

abbrev pub after_resume : World → Semaphore × Bool → World
after_resume w (sem, true) = taken w sem
after_resume w (sem, false) = put_sem w sem

abbrev pub resume_at : World → ℕ → Option Waiter → World
resume_at w n none = w
resume_at w n (some pending) = w
resume_at w n (some x) =
    after_resume w (resume x (record w.sem { waiters = remove_waiter n w.sem.waiters }))

abbrev pub cancel_at : World → ℕ → Option Waiter → World
cancel_at w n none = w
cancel_at w n (some x) =
    put_sem w (record w.sem { waiters = set w.sem.waiters n (cancel_waiter x) })

abbrev pub start_one : World → ℕ → World
start_one w zero = w
start_one w (suc n) = record { sem = enqueue w.sem; held = w.held; unstarted = n }

-- A program that releases only what it holds.
abbrev pub release_one : World → ℕ → World
release_one w zero = w
release_one w (suc n) = record { sem = release w.sem; held = n; unstarted = w.unstarted }

-- An event that cannot happen changes nothing.
unfoldable pub step : Event → World → World
step call_acquire w = after_call w (acquire w.sem)
step await_acquire w = after_await w (acquire w.sem)
step start w = start_one w w.unstarted
step release_permit w = release_one w w.held
step (cancel_task n) w = cancel_at w n (get_elem? w.sem.waiters n)
step (resume_task n) w = resume_at w n (get_elem? w.sem.waiters n)

unfoldable pub run : List Event → World → World
run [] w = w
run (e ∷ es) w = run es (step e w)

-- A new semaphore that no task has used.
abbrev pub initial : ℕ → World
initial n = record { sem = record { value = n; waiters = [] }; held = 0; unstarted = 0 }
