-- ===== src/Asyncio.antt =====
-- What a_sync uses of the standard library's asyncio: futures, and the queue that a_sync's queues
-- extend (`asyncio.Queue`: `full`, `get_nowait`, `put_nowait`, `task_done`, `_wakeup_next`).
pub mod Laws
pub mod Futures
use ez_a_sync.Prelude.{
  ℕ, suc, ◌+◌, ◌-◌, Bool, true, false, List, [], ◌∷◌, ◌++◌, Result, ok, err, Exn, queue_empty,
  queue_full, value_error, Exec, length, leb, ◌==◌, if◌then◌else◌, Option, none, some,
}

-- `Future._state`; a finished future has a result or an exception.
pub data FutState : Type 0 where
  pending finished cancelled : FutState

abbrev pub is_not_done : FutState → Bool
is_not_done pending = true
is_not_done _ = false

abbrev pub is_not_cancelled : FutState → Bool
is_not_cancelled cancelled = false
is_not_cancelled _ = true

-- A future in a deque of waiters.
pub record Waiter : Type 0 where
  pub id : ℕ
  pub state : FutState

-- `_queue` oldest first; `woken` lists the waiters whose future has been set, oldest first.
pub record AsyncQueue {ℓ} (A : Type ℓ) : Type ℓ where
  pub maxsize : ℕ
  pub queue : List A
  pub unfinished_tasks : ℕ
  pub all_done : Bool
  pub getters : List Waiter
  pub putters : List Waiter
  pub woken : List ℕ

-- `_wakeup_next`: drop waiters until one is found that is not done, and set that one.
unfoldable pub wakeup_next : List Waiter → List ℕ → List Waiter × List ℕ
wakeup_next [] woken = ([], woken)
wakeup_next (w ∷ ws) woken =
    if is_not_done w.state then (ws, woken ++ w.id ∷ []) else wakeup_next ws woken

module _ {ℓ} {A : Type ℓ} where
  abbrev pub empty : AsyncQueue A
  empty = record {
    maxsize = 0;
    queue = [];
    unfinished_tasks = 0;
    all_done = true;
    getters = [];
    putters = [];
    woken = [];
  }

  unfoldable pub full : AsyncQueue A → Bool
  full q = if q.maxsize == 0 then false else leb q.maxsize (length q.queue)

  unfoldable pub wake_getter : AsyncQueue A → AsyncQueue A
  wake_getter q =
      let (ws, woken) = wakeup_next q.getters q.woken in record q { getters = ws; woken = woken }

  unfoldable pub wake_putter : AsyncQueue A → AsyncQueue A
  wake_putter q =
      let (ws, woken) = wakeup_next q.putters q.woken in record q { putters = ws; woken = woken }

  unfoldable pub get_nowait : Exec (AsyncQueue A) A
  get_nowait q = elim q.queue [
    | [] ↦ (err queue_empty, q)
    | x ∷ xs ↦ (ok x, wake_putter (record q { queue = xs }))
  ]

  unfoldable pub put_nowait : A → Exec (AsyncQueue A) (Unit {0})
  put_nowait x q = if full q then (err queue_full, q) else (
    ok tt,
    wake_getter (record q {
      queue = q.queue ++ x ∷ [];
      unfinished_tasks = q.unfinished_tasks + 1;
      all_done = false;
    }),
  )

  unfoldable pub task_done : Exec (AsyncQueue A) (Unit {0})
  task_done q = if leb q.unfinished_tasks 0 then (err value_error, q) else (
    ok tt,
    record q {
      unfinished_tasks = q.unfinished_tasks - 1;
      all_done = if q.unfinished_tasks - 1 == 0 then true else q.all_done;
    },
  )
