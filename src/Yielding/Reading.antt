-- ===== src/Yielding/Reading.antt =====
-- The generator of `as_yielded` in a_sync/utils/iterators.py makes moves.
use ez_a_sync.Prelude.{
  ℕ, ◌+◌, ◌≡◌, refl, sym, ap, subst, Bool, true, false, List, [], ◌∷◌, ◌++◌, Option, none, some,
  Exn, inl, inr, is_empty, length, arith,
}
use ez_a_sync.Asyncio.{AsyncQueue, get_nowait, task_done}
use ez_a_sync.Queue.{get_all_nowait}
use ez_a_sync.Yielding.{
  Put, thing, marker, Populating, gathering, joining, finished, cancelled_by, asking, getting,
  handling, returned, raised, fetched, got, ask, end_by, handle,
}
use ez_a_sync.Yielding.Queues.{
  Unbounded, task_done-Unbounded, get_nowait-Unbounded, get_nowait-Unbounded_nil,
  get_all_nowait-Unbounded,
}
use ez_a_sync.Yielding.Moves.{
  Spec, Leaves, by_return, by_raise, fetch_all, wait, leave, fetch_one, ask_again, give, end,
}
use ez_a_sync.Yielding.Tracking.{is_idle, embed, Tracks, Simulates, Advances, weaken, stays}

module _ {V : Type 0} where
  module _ (t : Spec V) (q : AsyncQueue (Put V)) (h : Tracks t q) where
    simulate_fetch : t.consumer ≡ asking → Advances t (fetched (get_all_nowait q) (embed t q))
    simulate_fetch e =
        let empty = h.idle (ap is_idle e) in
        elim (get_all_nowait-Unbounded q t.queue _ h.queue) [
          | inl (f, g) ↦ (
            _,
            q,
            ap (λ r. fetched r (embed t q)) g,
            wait t e f,
            record { queue = h.queue; idle = λ _. empty },
          )
          | inr (q', ne, g, u) ↦ (
            record t { queue = []; batch = t.queue; consumer = handling },
            q',
            ap (λ r. fetched r (embed t q)) g,
            fetch_all t e ne empty,
            record {
              queue = subst (λ (n : ℕ). Unbounded q' [] n) (omega (arith, ap length empty)) u;
              idle = λ f. cc;
            },
          )
        ]

    pub simulate_ask :
        (p : Populating) → t.populating ≡ p → t.consumer ≡ asking → Advances t (ask p (embed t q))
    simulate_ask gathering e c = simulate_fetch c
    simulate_ask joining e c = simulate_fetch c
    simulate_ask finished e c = (
      _,
      q,
      refl,
      leave t returned c (subst (λ p. Leaves p returned) (sym e) by_return),
      record { queue = h.queue; idle = λ f. cc },
    )
    simulate_ask (cancelled_by x) e c = (
      _,
      q,
      refl,
      leave t (raised x) c (subst (λ p. Leaves p (raised x)) (sym e) (by_raise x)),
      record { queue = h.queue; idle = λ f. cc },
    )

    pub got_one :
        (x : Put V) (xs : List (Put V))
        → t.queue ≡ x ∷ xs
        → t.consumer ≡ getting
        → Advances t (got (get_nowait q) (embed t q))
    got_one x xs e c =
        let empty = h.idle (ap is_idle c) in
        let (q', f, u) = get_nowait-Unbounded q x xs _ (
          subst (λ (l : List (Put V)). Unbounded q l (length t.batch + length t.queue)) e
            h.queue) in
        (
          record t { queue = xs; batch = x ∷ []; consumer = handling },
          q',
          ap (λ r. got r (embed t q)) f,
          fetch_one t x xs c e empty,
          record {
            queue =
                subst (λ (n : ℕ). Unbounded q' xs n) (omega (arith, ap length empty, ap length e))
                  u;
            idle = λ g. cc;
          },
        )

    pub simulate_got :
        (l : List (Put V))
        → t.queue ≡ l
        → t.consumer ≡ getting
        → Simulates t (got (get_nowait q) (embed t q))
    simulate_got [] e c =
        stays t q _
          (ap (λ r. got r (embed t q))
            (get_nowait-Unbounded_nil q _ (
              subst (λ (l : List (Put V)). Unbounded q l (length t.batch + length t.queue)) e
                h.queue)))
          h
    simulate_got (x ∷ xs) e c = weaken t _ (got_one x xs e c)

    done_one :
        (x : Put V) (xs : List (Put V))
        → t.batch ≡ x ∷ xs
        → Unbounded (task_done q).1 t.queue (length xs + length t.queue)
    done_one x xs e =
        task_done-Unbounded q t.queue _
          (subst (λ (n : ℕ). Unbounded q t.queue n) (omega (arith, ap length e)) h.queue)

    not_idle : (b : Bool) (exc : Option Exn) → is_idle (end_by b exc) ≡ false
    not_idle true none = refl
    not_idle true (some x) = refl
    not_idle false exc = refl

    pub simulate_handle :
        (l : List (Put V)) → t.batch ≡ l → t.consumer ≡ handling → Advances t (handle l (embed t q))
    simulate_handle [] e c =
        (_, q, refl, ask_again t c e, record { queue = h.queue; idle = λ _. e })
    simulate_handle (thing k x ∷ xs) e c = (
      record t { batch = xs; yielded = t.yielded ++ thing k x ∷ [] },
      (task_done q).1,
      refl,
      give t k x xs c e,
      record { queue = done_one (thing k x) xs e; idle = λ f. cc },
    )
    simulate_handle (marker exc ∷ xs) e c = (
      record t { batch = xs; consumer = end_by (is_empty t.queue) exc },
      (task_done q).1,
      ap
          (λ l. record (embed t q) {
            queue = (task_done q).1;
            batch = xs;
            consumer = end_by (is_empty l) exc;
          })
          h.queue.items,
      end t exc xs c e,
      record {
        queue = done_one (marker exc) xs e;
        idle = λ f. cc (not_idle (is_empty t.queue) exc);
      },
    )
