-- ===== src/Counter.antt =====
-- a_sync/primitives/locks/counter.pyx: `CounterLock`, with the events of event.pyx that its waiters
-- wait for. A `long long` v stands as the number v + 2^63; the code only compares them.
pub mod Heap
pub mod Good
pub mod Steps
pub mod Joins
pub mod Leaves
pub mod Served
pub mod Examples
use ez_a_sync.Prelude.{
  ℕ, zero, suc, Bool, true, false, not, ◌&&◌, ◌||◌, List, [], ◌∷◌, ◌++◌, Option, none, some, Result,
  ok, err, Exn, key_error, value_error, Exec, ltb, leb, ◌==◌, if◌then◌else◌,
}

pub data State : Type 0 where
  pending finished cancelled : State

-- A future of a call of `wait_for`: the value it waits for, and its state.
pub data Waiting : Type 0 where
  waiting : ℕ → State → Waiting

-- The waiters of an `Event` are numbers of futures; no event in `events` is set.
pub record CounterLock : Type 0 where
  pub value : ℕ
  pub heap : List ℕ
  pub events : ℕ → Option (List ℕ)
  pub futures : ℕ → Option Waiting
  pub next : ℕ

abbrev pub put {ℓ} : {A : Type ℓ} → ℕ → A → (ℕ → A) → ℕ → A
put k a f j = if j == k then a else f j

-- `heappush` on a heap that is kept as the sorted list of its items.
unfoldable pub heap_push : ℕ → List ℕ → List ℕ
heap_push k [] = k ∷ []
heap_push k (j ∷ js) = let rest = heap_push k js in if leb k j then k ∷ j ∷ js else j ∷ rest

unfoldable pub is_ready : ℕ → CounterLock → Bool
is_ready value self = leb value self.value

-- `fut.set_result(True)` where the future is not done.
abbrev pub finish : Option Waiting → Option Waiting
finish none = none
finish (some (waiting key pending)) = some (waiting key finished)
finish (some (waiting key finished)) = some (waiting key finished)
finish (some (waiting key cancelled)) = some (waiting key cancelled)

-- `Event.set`, for the waiters of an event that is not set.
unfoldable pub set_event : List ℕ → (ℕ → Option Waiting) → ℕ → Option Waiting
set_event [] futures = futures
set_event (f ∷ fs) futures = set_event fs (put f (finish (futures f)) futures)

abbrev pub pop_waiters : ℕ → Option (List ℕ) → Exec CounterLock (Unit {0})
pop_waiters key none self = (err key_error, self)
pop_waiters key (some waiters) self = (
  ok tt,
  record self { events = put key none self.events; futures = set_event waiters self.futures },
)

-- `self._events.pop(key).set()`
unfoldable pub pop_event : ℕ → Exec CounterLock (Unit {0})
pop_event key self = pop_waiters key (self.events key) self

abbrev pub after_pop :
    Result (Unit {0}) × CounterLock
    → (CounterLock → Result (Unit {0}) × CounterLock)
    → Result (Unit {0}) × CounterLock
after_pop (ok u, self) go = go self
after_pop (err e, self) go = (err e, self)

-- The `while` of `set`, on what is left of the heap.
unfoldable pub wake_loop : List ℕ → Exec CounterLock (Unit {0})
wake_loop [] self = (ok tt, record self { heap = [] })
wake_loop (key ∷ keys) self =
    let popped = after_pop (pop_event key self) (wake_loop keys) in
    if leb key self.value then popped else (ok tt, record self { heap = key ∷ keys })

unfoldable pub set_value : ℕ → Exec CounterLock (Unit {0})
set_value value self =
    if ltb self.value value
    then wake_loop self.heap (record self { value = value })
    else if ltb value self.value
    then (err value_error, self)
    else (ok tt, self)

-- `Event.c_wait`: the future joins the waiters.
abbrev pub join_event : ℕ → List ℕ → CounterLock → CounterLock
join_event key waiters self = record {
  value = self.value;
  heap = self.heap;
  events = put key (some (waiters ++ self.next ∷ [])) self.events;
  futures = put self.next (some (waiting key pending)) self.futures;
  next = suc self.next;
}

abbrev pub wait_at : ℕ → Option (List ℕ) → CounterLock → CounterLock
wait_at key none self = join_event key [] (record self { heap = heap_push key self.heap })
wait_at key (some waiters) self = join_event key waiters self

-- `wait_for` up to its `await`; `true` where it returns at once.
unfoldable pub wait_for : ℕ → CounterLock → Bool × CounterLock
wait_for value self =
    if is_ready value self then (true, self) else (false, wait_at value (self.events value) self)

unfoldable pub remove : ℕ → List ℕ → List ℕ
remove f [] = []
remove f (g ∷ gs) = let rest = remove f gs in if g == f then gs else g ∷ rest

-- A task that waits is cancelled, and with it its future.
abbrev pub cancel : Option Waiting → Option Waiting
cancel none = none
cancel (some (waiting key pending)) = some (waiting key cancelled)
cancel (some (waiting key finished)) = some (waiting key finished)
cancel (some (waiting key cancelled)) = some (waiting key cancelled)

-- The `finally` of `Event.__wait`, where the event is still one of the lock's.
abbrev pub leave_event : ℕ → ℕ → Option (List ℕ) → CounterLock → CounterLock
leave_event f key none self = self
leave_event f key (some waiters) self = record self {
  events = put key (some (remove f waiters)) self.events;
}

-- The task of a future that is done goes on. `CancelledError` is no `Exception`, so that the clean-up
-- of `wait_for` is left out.
abbrev pub resume_with : ℕ → Option Waiting → CounterLock → CounterLock
resume_with f none self = self
resume_with f (some (waiting key pending)) self = self
resume_with f (some (waiting key finished)) self = leave_event f key (self.events key) self
resume_with f (some (waiting key cancelled)) self = leave_event f key (self.events key) self

unfoldable pub resume : ℕ → CounterLock → CounterLock
resume f self = resume_with f (self.futures f) self

pub data Event : Type 0 where
  call_wait_for call_set cancel_task resume_task : ℕ → Event

unfoldable pub step : Event → CounterLock → CounterLock
step (call_wait_for value) self = (wait_for value self).1
step (call_set value) self = (set_value value self).1
step (cancel_task f) self = record self { futures = put f (cancel (self.futures f)) self.futures }
step (resume_task f) self = resume f self

unfoldable pub run : List Event → CounterLock → CounterLock
run [] self = self
run (e ∷ es) self = run es (step e self)

unfoldable pub new_lock : ℕ → CounterLock
new_lock start_value = record {
  value = start_value;
  heap = [];
  events = λ key. none;
  futures = λ f. none;
  next = 0;
}
