-- ===== src/Queue/Waiting.antt =====
-- `get_multi` of a_sync/primitives/queue.py: when it returns what was asked for, and when not.
use ez_a_sync.Prelude.{
  ap, ◌∙◌, ◌⊎◌, inl, inr, subst, ℕ, suc, ◌+◌, ◌-◌, ◌<◌, ◌≤◌, ◌≡◌, refl, List, [], ◌++◌, some, ok,
  err, value_error, length, Bool, true, false, take, drop, to_ℕ, is_true, Value, int, pos, bool,
  arith, length-take_le,
}
use ez_a_sync.Asyncio.{AsyncQueue}
use ez_a_sync.Queue.{multi_loop, get_multi, get_multi_nowait, validate_args, Arrivals}
use ez_a_sync.Queue.Multi.{
  IsRequest, validate_args-IsRequest, get_multi_nowait_enough, get_multi_nowait_less,
}

module _ {ℓ} {A : Type ℓ} (arrivals : Arrivals A) where
  loop_stops :
      (fuel i : ℕ) (less : Bool) (items : List A) (q : AsyncQueue A)
      → (i ≤ length items) ⊎ (less ≡ true)
      → multi_loop (suc fuel) i less items arrivals q ≡ some (ok items, q)
  unfolding multi_loop
  loop_stops fuel i less items q (inl le) = ground arith
  loop_stops fuel i less items q (inr e) = ground arith

  -- One round that finds items adds them to those held.
  loop_extends :
      (fuel i : ℕ) (items more : List A) (q q' : AsyncQueue A)
      → length items < i
      → get_multi_nowait (int (pos (i - length items))) (bool true) q ≡ (ok more, q')
      → multi_loop (suc fuel) i false items arrivals q
        ≡ multi_loop fuel i false (items ++ more) arrivals q'
  unfolding multi_loop
  loop_extends fuel i items more q q' lt e = ground (arith, e)

  loop_first :
      (fuel i : ℕ) (more : List A) (q q' : AsyncQueue A)
      → 0 < i
      → get_multi_nowait (int (pos i)) (bool true) q ≡ (ok more, q')
      → multi_loop (suc fuel) i false [] arrivals q ≡ multi_loop fuel i false more arrivals q'
  loop_first fuel i more q q' lt e =
      let same : i ≡ i - 0 = omega arith in
      loop_extends fuel i [] more q q' lt
        (subst (λ n. get_multi_nowait (int (pos n)) (bool true) q ≡ (ok more, q')) same e)

  -- One item short: the request for the last one is refused.
  loop_refused :
      (fuel i : ℕ) (items : List A) (q : AsyncQueue A)
      → i ≡ length items + 1
      → multi_loop (suc fuel) i false items arrivals q ≡ some (err value_error, q)
  unfolding multi_loop get_multi_nowait validate_args
  loop_refused fuel i items q e = ground arith

  module _ (i can_return_less : Value) (q : AsyncQueue A) (valid : IsRequest i can_return_less)
      (fuel : ℕ) where
    abbrev request : IsRequest (int (pos (to_ℕ i))) (bool true)
    request = record { integer = refl; flag = refl; several = valid.several }

    -- For valid arguments without `can_return_less`, a queue of at least `i` items and two
    -- rounds or more, `get_multi` returns the oldest `i` in order, and the others stay queued.
    pub get_multi_ready :
        is_true can_return_less ≡ false
        → to_ℕ i ≤ length q.queue
        → (q' : AsyncQueue A) × (get_multi (suc (suc fuel)) i can_return_less arrivals q
            ≡ some (ok (take (to_ℕ i) q.queue), q'))
          × (q'.queue ≡ drop (to_ℕ i) q.queue)
    unfolding get_multi
    get_multi_ready all_of le =
        let (q', e, h) = get_multi_nowait_enough (int (pos (to_ℕ i))) (bool true) q request le in
        (
          q',
          rw (validate_args-IsRequest i can_return_less valid, all_of, get_multi)
              (loop_first (suc fuel) (to_ℕ i) _ q q' (omega (arith, valid.several)) e
                ∙ loop_stops fuel (to_ℕ i) false (take (to_ℕ i) q.queue) q'
                    (inl (length-take_le (to_ℕ i) q.queue le))),
          h.items,
        )

    -- For valid arguments with `can_return_less`, `get_multi` returns the empty list and leaves
    -- the queue as it was, whatever it holds.
    pub get_multi_allows_less :
        is_true can_return_less ≡ true
        → get_multi (suc fuel) i can_return_less arrivals q ≡ some (ok [], q)
    unfolding get_multi
    get_multi_allows_less less =
        rw (validate_args-IsRequest i can_return_less valid, less, get_multi)
          (loop_stops fuel (to_ℕ i) true [] q (inr refl))

    -- For valid arguments without `can_return_less` and a queue of exactly `i - 1` items,
    -- `get_multi` raises `ValueError` within two rounds and the queue is left empty, so that the
    -- items are lost.
    pub get_multi_one_short :
        is_true can_return_less ≡ false
        → to_ℕ i ≡ length q.queue + 1
        → (q' : AsyncQueue A) × (get_multi (suc (suc fuel)) i can_return_less arrivals q
            ≡ some (err value_error, q'))
          × (q'.queue ≡ [])
    unfolding get_multi
    get_multi_one_short all_of short =
        let (q', e, h) =
          get_multi_nowait_less (int (pos (to_ℕ i))) (bool true) q request (omega arith)
            (λ empty. omega (arith, valid.several, ap length empty)) refl in
        (
          q',
          rw (validate_args-IsRequest i can_return_less valid, all_of, get_multi)
              (loop_first (suc fuel) (to_ℕ i) _ q q' (omega (arith, valid.several)) e
                ∙ loop_refused fuel (to_ℕ i) q.queue q' short),
          h.items,
        )
