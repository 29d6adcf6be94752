-- ===== src/Yielding.antt =====
-- a_sync/utils/iterators.py: `as_yielded`, which drains many iterators through one queue. The tasks
-- that interleave are the iterators, the task that gathers them and the generator that reads the
-- queue; a run is a list of the steps that they make. The queue is unbounded. A gathered iterator
-- ends with an `Exception` or with CancelledError.
pub mod Queues
pub mod Moves
pub mod Tracking
pub mod Filling
pub mod Reading
pub mod Simulation
pub mod Conserved
pub mod Endings
pub mod Clean
pub mod Closing
pub mod Complete
pub mod Progress
pub mod Marked
pub mod Ends
pub mod Examples
use ez_a_sync.Prelude.{
  ℕ, zero, suc, ◌+◌, Bool, true, false, not, ◌&&◌, List, [], ◌∷◌, ◌++◌, map, Option, none, some,
  Result, ok, err, Exn, cancelled_error, assertion_error, value_error, length, get_elem?, set,
  is_empty, ◌==◌, if◌then◌else◌,
}
use ez_a_sync.Asyncio.{AsyncQueue, empty, put_nowait, get_nowait, task_done}
use ez_a_sync.Queue.{get_all_nowait}
use ez_a_sync.Gather.{Outcome, Outer, Gathering, gives, raises, done_callback}
use ez_a_sync.Gather

-- What stands in the queue: an item, with the number of its iterator, or a `_Done`.
pub data Put (V : Type 0) : Type 0 where
  thing : ℕ → V → Put V
  marker : Option Exn → Put V

-- An iterator: the items that it still has to give, and the exception that ends it, if one does.
pub record Source (V : Type 0) : Type 0 where
  pub left : List V
  pub ending : Option Exn
  pub stopped : Bool

-- The task of `exhaust_iterators`: in `await igather`, in `await queue.join()`, or done.
pub data Populating : Type 0 where
  gathering joining finished : Populating
  cancelled_by : Exn → Populating

-- The generator: at the test of its `while`, in `await queue.get()`, in its `for`, or ended.
pub data Consumer : Type 0 where
  asking getting handling returned : Consumer
  raised : Exn → Consumer

-- `batch` is what is left of `items`.
pub record Yielder (V : Type 0) : Type 0 where
  pub sources : List (Source V)
  pub gather : Gathering (Unit {0})
  pub populating : Populating
  pub queue : AsyncQueue (Put V)
  pub batch : List (Put V)
  pub consumer : Consumer
  pub yielded : List (Put V)

-- A step of an iterator, of the task behind `await igather` or `await queue.join()`, of the generator.
pub data Event : Type 0 where
  advance : ℕ → Event
  settle rejoin consume : Event

abbrev pub positions : ℕ → ℕ → List ℕ
positions i zero = []
positions i (suc n) = i ∷ positions (suc i) n

abbrev pub is_cancellation : Exn → Bool
is_cancellation cancelled_error = true
is_cancellation _ = false

abbrev pub future_outcome : Option Exn → Outcome (Unit {0})
future_outcome none = Outcome.finished tt
future_outcome (some e) = if is_cancellation e then Outcome.cancelled else Outcome.failed e

-- A `_Done`: `assert queue.empty()`, then `raise` or `return`.
abbrev pub end_by : Bool → Option Exn → Consumer
end_by true none = returned
end_by true (some e) = raised e
end_by false exc = raised assertion_error

abbrev pub is_ended : Consumer → Bool
is_ended returned = true
is_ended (raised e) = true
is_ended _ = false

module _ {V : Type 0} where
  abbrev pub new_source : List V × Option Exn → Source V
  new_source (xs, e) = record { left = xs; ending = e; stopped = false }

  abbrev pub init_outer : List (List V × Option Exn) → Outer (Unit {0})
  init_outer [] = gives []
  init_outer (x ∷ xs) = Gather.waits

  -- `as_yielded(*iterators)` at its first `while`.
  abbrev pub init : List (List V × Option Exn) → Yielder V
  init inputs = record {
    sources = map new_source inputs;
    gather = record { outer = init_outer inputs; nfinished = 0 };
    populating = gathering;
    queue = empty;
    batch = [];
    consumer = asking;
    yielded = [];
  }

  abbrev pub out : List (Source V) → ℕ → Outcome (Unit {0})
  out sources k = elim (get_elem? sources k) [
    | none ↦ Outcome.finished tt
    | some s ↦ future_outcome s.ending
  ]

  -- The end of iterator `k`, as `igather` hears of it.
  unfoldable pub gathered : ℕ → List (Source V) → Gathering (Unit {0}) → Gathering (Unit {0})
  unfolding done_callback
  gathered k sources gather =
      let n = length sources in done_callback (out sources) (positions 0 n) n false false k gather

  abbrev pub with_source : ℕ → Source V → Yielder V → Yielder V
  with_source k s self = record self { sources = set self.sources k s }

  -- `exhaust_iterator`: `queue.put_nowait(thing)` in `async for thing in iterator`.
  abbrev pub exhaust : ℕ → Source V → List V → Yielder V → Yielder V
  exhaust k s (x ∷ xs) self = record (with_source k (record s { left = xs }) self) {
    queue = (put_nowait (thing k x) self.queue).1;
  }
  exhaust k s [] self = record (with_source k (record s { stopped = true }) self) {
    gather = gathered k self.sources self.gather;
  }

  abbrev pub exhaust_some : ℕ → Option (Source V) → Yielder V → Yielder V
  exhaust_some k none self = self
  exhaust_some k (some s) self = if s.stopped then self else exhaust k s s.left self

  abbrev pub mark : Option Exn → Populating → Yielder V → Yielder V
  mark exc populating self = record self {
    queue = (put_nowait (marker exc) self.queue).1;
    populating = populating;
  }

  -- `exhaust_iterators` behind `await igather`, and the callback of its task if it is cancelled.
  abbrev pub settle_with : Populating → Outer (Unit {0}) → Yielder V → Yielder V
  settle_with gathering (gives l) self = mark none joining self
  settle_with gathering (raises e) self =
      mark (some e) (if is_cancellation e then cancelled_by e else joining) self
  settle_with _ _ self = self

  abbrev pub rejoined : Populating → Yielder V → Yielder V
  rejoined joining self =
      if self.queue.all_done then record self { populating = finished } else self
  rejoined _ self = self

  -- `items = await queue.get_all()`, which waits in `get()` if the queue is empty.
  abbrev pub fetched : Option (Result (List (Put V)) × AsyncQueue (Put V)) → Yielder V → Yielder V
  fetched (some (ok items, q)) self = record self { queue = q; batch = items; consumer = handling }
  fetched (some (err e, q)) self = record self { queue = q; consumer = getting }
  fetched none self = self

  abbrev pub got : Result (Put V) × AsyncQueue (Put V) → Yielder V → Yielder V
  got (ok x, q) self = record self { queue = q; batch = x ∷ []; consumer = handling }
  got (err e, q) self = self

  -- `while not task.done()`, and `await task` behind it.
  abbrev pub ask : Populating → Yielder V → Yielder V
  ask gathering self = fetched (get_all_nowait self.queue) self
  ask joining self = fetched (get_all_nowait self.queue) self
  ask finished self = record self { consumer = returned }
  ask (cancelled_by e) self = record self { consumer = raised e }

  abbrev pub handle : List (Put V) → Yielder V → Yielder V
  handle [] self = record self { consumer = asking }
  handle (thing k x ∷ xs) self = record self {
    queue = (task_done self.queue).1;
    batch = xs;
    yielded = self.yielded ++ thing k x ∷ [];
  }
  handle (marker exc ∷ xs) self = record self {
    queue = (task_done self.queue).1;
    batch = xs;
    consumer = end_by (is_empty self.queue.queue) exc;
  }

  abbrev pub consume_at : Consumer → Yielder V → Yielder V
  consume_at asking self = ask self.populating self
  consume_at getting self = got (get_nowait self.queue) self
  consume_at handling self = handle self.batch self
  consume_at returned self = self
  consume_at (raised e) self = self

  -- One step; a task that cannot go on makes none.
  unfoldable pub step : Event → Yielder V → Yielder V
  step (advance k) self = exhaust_some k (get_elem? self.sources k) self
  step settle self = settle_with self.populating self.gather.outer self
  step rejoin self = rejoined self.populating self
  step consume self = consume_at self.consumer self

  unfoldable pub run : List Event → Yielder V → Yielder V
  unfolding step
  run [] self = self
  run (e ∷ es) self = run es (step e self)

  -- The items of iterator `k`, in order.
  abbrev pub from : ℕ → List (Put V) → List V
  from k [] = []
  from k (thing j x ∷ xs) = if j == k then x ∷ from k xs else from k xs
  from k (marker exc ∷ xs) = from k xs

-- `exhaust_iterators` looks at its arguments before it starts an iterator.
unfoldable pub check_join : Bool → Bool → Result (Unit {0})
check_join has_queue join = if not has_queue && join then err value_error else ok tt
