-- ===== src/Yielding/Simulation.antt =====
-- The steps of `as_yielded` in a_sync/utils/iterators.py are moves.
use ez_a_sync.Prelude.{◌≡◌, refl, sym, ap, ◌∙◌, subst, List, [], ◌∷◌, inl, inr, ◌⊎◌}
use ez_a_sync.Asyncio.{AsyncQueue}
use ez_a_sync.Yielding.{
  Put, Consumer, asking, getting, handling, returned, raised, Event, advance, settle, rejoin,
  consume, consume_at, step, run,
}
use ez_a_sync.Yielding.Moves.{Spec, Move, Moves, here, next}
use ez_a_sync.Yielding.Filling.{simulate_advance, simulate_settle, simulate_rejoin}
use ez_a_sync.Yielding.Reading.{simulate_ask, simulate_got, simulate_handle}
use ez_a_sync.Yielding.Tracking.{embed, Tracks, Simulates, weaken, stays}

module _ {V : Type 0} where
  module _ (t : Spec V) (q : AsyncQueue (Put V)) (h : Tracks t q) where
    simulate_consume : (c : Consumer) → t.consumer ≡ c → Simulates t (consume_at c (embed t q))
    simulate_consume asking e = weaken t _ (simulate_ask t q h t.populating refl e)
    simulate_consume getting e = simulate_got t q h t.queue refl e
    simulate_consume handling e = weaken t _ (simulate_handle t q h t.batch refl e)
    simulate_consume returned e = stays t q _ refl h
    simulate_consume (raised x) e = stays t q _ refl h

    -- Every step of `as_yielded` is a move, or changes nothing.
    pub simulate : (e : Event) → Simulates t (step e (embed t q))
    unfolding step
    simulate (advance k) = simulate_advance t q h k
    simulate settle = simulate_settle t q h t.populating t.gather.outer refl refl
    simulate rejoin = simulate_rejoin t q h t.populating refl
    simulate consume = simulate_consume t.consumer refl

  prepend : (s t u : Spec V) → (s ≡ t) ⊎ Move s t → Moves t u → Moves s u
  prepend s t u (inl e) m = subst (λ (r : Spec V). Moves r u) (sym e) m
  prepend s t u (inr h) m = next h m

  -- Whatever the steps of a run are, its states are related by moves, over queues that hold the same
  -- items and that count those that have not been marked as done.
  pub run-Moves :
      (es : List Event) (t : Spec V) (q : AsyncQueue (Put V))
      → Tracks t q
      → (t' : Spec V) × (q' : AsyncQueue (Put V)) × (run es (embed t q) ≡ embed t' q')
        × Moves t t'
        × Tracks t' q'
  unfolding run
  run-Moves [] t q h = (t, q, refl, here t, h)
  run-Moves (e ∷ es) t q h =
      let (t1, q1, e1, moved, h1) = simulate t q h e in
      let (t2, q2, e2, moves, h2) = run-Moves es t1 q1 h1 in
      (t2, q2, ap (run es) e1 ∙ e2, prepend t t1 t2 moved moves, h2)
