-- ===== src/Yielding/Tracking.antt =====
-- The states of `as_yielded` in a_sync/utils/iterators.py that stand for a state of its moves.
use ez_a_sync.Prelude.{◌+◌, ◌≡◌, refl, Bool, true, false, [], inl, inr, ◌⊎◌, length}
use ez_a_sync.Asyncio.{AsyncQueue}
use ez_a_sync.Yielding.{Put, Consumer, asking, getting, Yielder}
use ez_a_sync.Yielding.Queues.{Unbounded}
use ez_a_sync.Yielding.Moves.{Spec, Move}

abbrev pub is_idle : Consumer → Bool
is_idle asking = true
is_idle getting = true
is_idle _ = false

module _ {V : Type 0} where
  abbrev pub embed : Spec V → AsyncQueue (Put V) → Yielder V
  embed t q = record {
    sources = t.sources;
    gather = t.gather;
    populating = t.populating;
    queue = q;
    batch = t.batch;
    consumer = t.consumer;
    yielded = t.yielded;
  }

  pub record Tracks (t : Spec V) (q : AsyncQueue (Put V)) : Type 0 where
    pub queue : Unbounded q t.queue (length t.batch + length t.queue)
    pub idle : is_idle t.consumer ≡ true → t.batch ≡ []

  -- Nothing happened, or a move.
  abbrev pub Simulates : Spec V → Yielder V → Type 0
  Simulates t self =
      (t' : Spec V) × (q' : AsyncQueue (Put V)) × (self ≡ embed t' q')
      × ((t ≡ t') ⊎ Move t t')
      × Tracks t' q'

  -- A move.
  abbrev pub Advances : Spec V → Yielder V → Type 0
  Advances t self =
      (t' : Spec V) × (q' : AsyncQueue (Put V)) × (self ≡ embed t' q') × Move t t' × Tracks t' q'

  pub weaken : (t : Spec V) (self : Yielder V) → Advances t self → Simulates t self
  weaken t self (t', q', e, m, h) = (t', q', e, inr m, h)

  pub stays :
      (t : Spec V) (q : AsyncQueue (Put V)) (self : Yielder V)
      → self ≡ embed t q
      → Tracks t q
      → Simulates t self
  stays t q self e h = (t, q, e, inl refl, h)
