-- ===== src/Yielding/Moves.antt =====
-- `as_yielded` of a_sync/utils/iterators.py as a relation between states whose queue is a list.
use ez_a_sync.Prelude.{
  ℕ, ◌≡◌, ◌≢◌, true, false, List, [], ◌∷◌, ◌++◌, Option, none, some, Exn, get_elem?, set, is_empty,
}
use ez_a_sync.Gather.{Outer, Gathering, gives, raises}
use ez_a_sync.Gather
use ez_a_sync.Yielding.{
  Put, thing, marker, Source, Populating, gathering, joining, finished, cancelled_by, Consumer,
  asking, getting, handling, returned, raised, gathered, end_by,
}

pub record Spec (V : Type 0) : Type 0 where
  pub sources : List (Source V)
  pub gather : Gathering (Unit {0})
  pub populating : Populating
  pub queue : List (Put V)
  pub batch : List (Put V)
  pub consumer : Consumer
  pub yielded : List (Put V)

-- The task of `exhaust_iterators` is not in `await igather` any more.
pub data IsPast : Populating → Type 0 where
  at_join : IsPast joining
  past_join : IsPast finished
  when_cancelled : (e : Exn) → IsPast (cancelled_by e)

-- How the generator ends when it finds the task done.
pub data Leaves : Populating → Consumer → Type 0 where
  by_return : Leaves finished returned
  by_raise : (e : Exn) → Leaves (cancelled_by e) (raised e)

pub data Move {V : Type 0} : Spec V → Spec V → Type 0 where
  put :
      (s : Spec V) (k : ℕ) (src : Source V) (x : V) (xs : List V)
      → get_elem? s.sources k ≡ some src
      → src.stopped ≡ false
      → src.left ≡ x ∷ xs
      → Move s (record s {
        sources = set s.sources k (record src { left = xs });
        queue = s.queue ++ thing k x ∷ [];
      })
  stop :
      (s : Spec V) (k : ℕ) (src : Source V)
      → get_elem? s.sources k ≡ some src
      → src.stopped ≡ false
      → src.left ≡ []
      → Move s (record s {
        sources = set s.sources k (record src { stopped = true });
        gather = gathered k s.sources s.gather;
      })
  mark_end :
      (s : Spec V) (l : List (Gather.Item (Unit {0})))
      → s.populating ≡ gathering
      → s.gather.outer ≡ gives l
      → Move s (record s { queue = s.queue ++ marker none ∷ []; populating = joining })
  mark_error :
      (s : Spec V) (e : Exn) (p : Populating)
      → s.populating ≡ gathering
      → s.gather.outer ≡ raises e
      → IsPast p
      → Move s (record s { queue = s.queue ++ marker (some e) ∷ []; populating = p })
  join :
      (s : Spec V)
      → s.populating ≡ joining
      → s.queue ≡ []
      → s.batch ≡ []
      → Move s (record s { populating = finished })
  fetch_all :
      (s : Spec V)
      → s.consumer ≡ asking
      → s.queue ≢ []
      → s.batch ≡ []
      → Move s (record s { queue = []; batch = s.queue; consumer = handling })
  wait :
      (s : Spec V) → s.consumer ≡ asking → s.queue ≡ [] → Move s (record s { consumer = getting })
  leave :
      (s : Spec V) (c : Consumer)
      → s.consumer ≡ asking
      → Leaves s.populating c
      → Move s (record s { consumer = c })
  fetch_one :
      (s : Spec V) (x : Put V) (xs : List (Put V))
      → s.consumer ≡ getting
      → s.queue ≡ x ∷ xs
      → s.batch ≡ []
      → Move s (record s { queue = xs; batch = x ∷ []; consumer = handling })
  ask_again :
      (s : Spec V) → s.consumer ≡ handling → s.batch ≡ [] → Move s (record s { consumer = asking })
  give :
      (s : Spec V) (k : ℕ) (x : V) (xs : List (Put V))
      → s.consumer ≡ handling
      → s.batch ≡ thing k x ∷ xs
      → Move s (record s { batch = xs; yielded = s.yielded ++ thing k x ∷ [] })
  end :
      (s : Spec V) (exc : Option Exn) (xs : List (Put V))
      → s.consumer ≡ handling
      → s.batch ≡ marker exc ∷ xs
      → Move s (record s { batch = xs; consumer = end_by (is_empty s.queue) exc })

pub data Moves {V : Type 0} : Spec V → Spec V → Type 0 where
  here : (s : Spec V) → Moves s s
  next : {s t u : Spec V} → Move s t → Moves t u → Moves s u
