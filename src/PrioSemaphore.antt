-- ===== src/PrioSemaphore.antt =====
-- a_sync/primitives/locks/prio_semaphore.pyx: the managers of a priority semaphore, their waiters,
-- and `_wake_up_next`. `order` is the order in which `set.pop` takes the items of a set.
pub mod Firsts
pub mod Wakes
pub mod Lost
pub mod Examples
use ez_a_sync.Prelude.{
  ℕ, zero, suc, ◌+◌, ◌-◌, ◌%◌, Bool, true, false, not, List, [], ◌∷◌, ◌++◌, Option, none, some, leb,
  ltb, ◌==◌, if◌then◌else◌,
}
use ez_a_sync.Counter.{put, remove}

-- Managers and futures are numbers; manager 0 is the top priority's. `heap` are the managers in the
-- order of their priorities, `managers` is `_context_managers`, `lost` is `_potential_lost_waiters`.
-- A priority is an `int` p as the number p + 2^31.
pub record PrioSemaphore : Type 0 where
  pub value : ℕ
  pub priority : ℕ → ℕ
  pub waiters : ℕ → List ℕ
  pub heap : List ℕ
  pub managers : ℕ → Option ℕ
  pub lost : List ℕ
  pub pending : ℕ → Bool
  pub next_manager : ℕ
  pub next_future : ℕ

-- How a part of `_wake_up_next` ends: the method returns, or goes on, or raises `KeyError`.
pub data Ending : Type 0 where
  returns goes_on raises : Ending

abbrev pub discard : ℕ → PrioSemaphore → PrioSemaphore
discard f self = record self { lost = remove f self.lost }

abbrev pub set_result : ℕ → PrioSemaphore → PrioSemaphore
set_result f self = record self { pending = put f false self.pending }

-- `popleft` until a waiter is woken: whether one was, and the waiters that are left.
unfoldable pub wake_first : List ℕ → PrioSemaphore → Bool × List ℕ × PrioSemaphore
wake_first [] self = (false, [], self)
wake_first (f ∷ fs) self =
    let rest = wake_first fs (discard f self) in
    if self.pending f then (true, fs, set_result f (discard f self)) else rest

abbrev pub put_waiters : ℕ → List ℕ → PrioSemaphore → PrioSemaphore
put_waiters m fs self = record self { waiters = put m fs self.waiters }

abbrev pub top_ending : Bool × List ℕ × PrioSemaphore → Ending × PrioSemaphore
top_ending (true, fs, self) = (returns, put_waiters 0 fs self)
top_ending (false, fs, self) = (goes_on, put_waiters 0 fs self)

-- The waiters of the top priority.
unfoldable pub wake_top : PrioSemaphore → Ending × PrioSemaphore
wake_top self = top_ending (wake_first (self.waiters 0) self)

-- `heappush`
unfoldable pub heap_push : (ℕ → ℕ) → ℕ → List ℕ → List ℕ
heap_push priority m [] = m ∷ []
heap_push priority m (n ∷ ns) =
    let rest = heap_push priority m ns in
    if leb (priority m) (priority n) then m ∷ n ∷ ns else n ∷ rest

-- `self._context_managers.pop(manager._priority)`, and what comes after it.
abbrev pub pop_manager :
    ℕ → Option ℕ → PrioSemaphore → (PrioSemaphore → Ending × PrioSemaphore) → Ending × PrioSemaphore
pop_manager m none self go = (raises, self)
pop_manager m (some n) self go =
    go (record self { managers = put (self.priority m) none self.managers })

-- The end of a round in which a waiter of `m` was woken that was not its first.
abbrev pub put_back : ℕ → List ℕ → PrioSemaphore → Ending × PrioSemaphore
put_back m [] self = pop_manager m (self.managers (self.priority m)) self (λ s. (returns, s))
put_back m (f ∷ fs) self = (returns, record self { heap = heap_push self.priority m self.heap })

abbrev pub after_rest :
    ℕ
    → (PrioSemaphore → Ending × PrioSemaphore)
    → Bool × List ℕ × PrioSemaphore
    → Ending × PrioSemaphore
after_rest m go (true, fs, self) = put_back m fs (put_waiters m fs self)
after_rest m go (false, fs, self) =
    let s = put_waiters m fs self in pop_manager m (s.managers (s.priority m)) s go

-- One round of `while self_waiters`, for the waiters of `m`: where the first one is pending, `break`
-- leaves this loop, the outer one.
abbrev pub one_manager :
    ℕ → List ℕ → (PrioSemaphore → Ending × PrioSemaphore) → PrioSemaphore → Ending × PrioSemaphore
one_manager m [] go self = pop_manager m (self.managers (self.priority m)) self go
one_manager m (f ∷ fs) go self =
    let s = put_waiters m fs (discard f self) in
    if self.pending f then (goes_on, set_result f s) else after_rest m go (wake_first fs s)

unfoldable pub wake_managers : List ℕ → PrioSemaphore → Ending × PrioSemaphore
wake_managers [] self = (goes_on, record self { heap = [] })
wake_managers (m ∷ ms) self =
    one_manager m (self.waiters m) (wake_managers ms) (record self { heap = ms })

-- `while potential_lost_waiters`
unfoldable pub wake_lost : List ℕ → PrioSemaphore → PrioSemaphore
wake_lost [] self = record self { lost = [] }
wake_lost (f ∷ fs) self =
    let rest = wake_lost fs self in
    if self.pending f then set_result f (record self { lost = fs }) else rest

module _ (order : List ℕ → List ℕ) where
  abbrev pub then_lost : Ending × PrioSemaphore → Ending × PrioSemaphore
  then_lost (goes_on, self) = (returns, wake_lost (order self.lost) self)
  then_lost (returns, self) = (returns, self)
  then_lost (raises, self) = (raises, self)

  abbrev pub then_managers : Ending × PrioSemaphore → Ending × PrioSemaphore
  then_managers (goes_on, self) = then_lost (wake_managers self.heap self)
  then_managers (returns, self) = (returns, self)
  then_managers (raises, self) = (raises, self)

  unfoldable pub wake_up_next : PrioSemaphore → Ending × PrioSemaphore
  wake_up_next self = then_managers (wake_top self)

  -- `Semaphore.release`
  unfoldable pub release : PrioSemaphore → Ending × PrioSemaphore
  release self = wake_up_next (record self { value = (self.value + 1) % 18446744073709551616 })

abbrev pub get_or_make : ℕ → Option ℕ → PrioSemaphore → ℕ × PrioSemaphore
get_or_make p (some m) self = (m, self)
get_or_make p none self = (
  self.next_manager,
  record {
    value = self.value;
    priority = put self.next_manager p self.priority;
    waiters = put self.next_manager [] self.waiters;
    heap = heap_push (put self.next_manager p self.priority) self.next_manager self.heap;
    managers = put p (some self.next_manager) self.managers;
    lost = self.lost;
    pending = self.pending;
    next_manager = suc self.next_manager;
    next_future = self.next_future;
  },
)

-- `PrioritySemaphore.c_getitem`
unfoldable pub getitem : ℕ → PrioSemaphore → ℕ × PrioSemaphore
getitem p self = get_or_make p (self.managers p) self

-- A round of `__acquire` of the manager `m`: the permit, or a new future that waits for it.
unfoldable pub acquire : ℕ → PrioSemaphore → Bool × PrioSemaphore
acquire m self = if ltb 0 self.value then (true, record self { value = self.value - 1 }) else (
  false,
  record {
    value = self.value;
    priority = self.priority;
    waiters = put m (self.waiters m ++ self.next_future ∷ []) self.waiters;
    heap = self.heap;
    managers = self.managers;
    lost = self.next_future ∷ self.lost;
    pending = put self.next_future true self.pending;
    next_manager = self.next_manager;
    next_future = suc self.next_future;
  },
)

-- The future of a task that is cancelled while it waits.
unfoldable pub cancel : ℕ → PrioSemaphore → PrioSemaphore
cancel f self = record self { pending = put f false self.pending }

module _ (order : List ℕ → List ℕ) where
  -- `except` in `__acquire`, for the future of a task that is cancelled while it waits.
  unfoldable pub interrupt : ℕ → PrioSemaphore → Ending × PrioSemaphore
  interrupt f self =
      if self.pending f
      then (returns, cancel f self)
      else if ltb 0 self.value
      then wake_up_next order self
      else (returns, self)
