-- ===== src/Yielding/Ends.antt =====
-- `as_yielded` of a_sync/utils/iterators.py never waits for something that cannot come.
use ez_a_sync.Prelude.{
  ℕ, zero, suc, ◌+◌, ◌≤◌, ◌<◌, ◌≡◌, ◌≢◌, refl, sym, ap, ◌∙◌, subst, Bool, true, false, List, [],
  ◌∷◌, ◌++◌, Option, some, Exn, inl, inr, List-cases, Bool-cases, if◌then◌else◌, get_elem?, length,
  map, any, total, ◌*◌, arith,
}
use ez_a_sync.Asyncio.{AsyncQueue, empty}
use ez_a_sync.Gather.{gives, raises, Outer}
use ez_a_sync.Gather
use ez_a_sync.Yielding.{
  Put, Source, new_source, Yielder, Event, advance, settle, consume, Populating, gathering, joining,
  finished, cancelled_by, Consumer, asking, getting, handling, returned, raised, is_ended, run,
  init, step, consume_at, settle_with, exhaust, exhaust_some,
}
use ez_a_sync.Yielding.Moves.{Spec, Moves, here, next}
use ez_a_sync.Yielding.Simulation.{run-Moves}
use ez_a_sync.Yielding.Tracking.{embed, Tracks, Advances, is_idle}
use ez_a_sync.Yielding.Filling.{simulate_source, settle_given, settle_raised}
use ez_a_sync.Yielding.Reading.{simulate_ask, got_one, simulate_handle}
use ez_a_sync.Yielding.Endings.{Counts, is_open, Counts-Move, Counts-Moves, Outer-cases}
use ez_a_sync.Yielding.Complete.{start, start-Tracks, start-Counts}
use ez_a_sync.Yielding.Progress.{measure, measure-Move, work}
use ez_a_sync.Yielding.Marked.{IsMarked, IsMarked-Move, IsMarked-Moves, is_marker}

module _ {V : Type 0} where
  find_open :
      (sources : List (Source V))
      → 0 < total is_open sources
      → (k : ℕ) × (src : Source V) × (get_elem? sources k ≡ some src) × (src.stopped ≡ false)
  find_open [] h = absurd (omega arith)
  find_open (src ∷ rest) h = elim (Bool-cases src.stopped) [
    | inr f ↦ (0, src, refl, f)
    | inl f ↦ let (k, src', e, g) = find_open rest (ground (arith, h, f)) in (suc k, src', e, g)
  ]

  module _ (t : Spec V) (q : AsyncQueue (Put V)) (h : Tracks t q) where
    advance_open :
        (k : ℕ) (src : Source V)
        → get_elem? t.sources k ≡ some src
        → src.stopped ≡ false
        → Advances t (step (advance k) (embed t q))
    unfolding step
    advance_open k src e f =
        subst (λ (o : Option (Source V)). Advances t (exhaust_some k o (embed t q))) (sym e)
          (subst
            (λ (b : Bool). Advances t (if b then embed t q else exhaust k src src.left (embed t q)))
            (sym f) (simulate_source t q h k src src.left e f refl))

    settle_outer :
        (o : Outer (Unit {0}))
        → o ≢ Gather.waits
        → t.populating ≡ gathering
        → t.gather.outer ≡ o
        → Advances t (step settle (embed t q))
    unfolding step
    settle_outer Gather.waits n e f = absurd (n refl)
    settle_outer (gives l) n e f =
        subst (λ (p : Populating). Advances t (settle_with p t.gather.outer (embed t q))) (sym e)
          (subst (λ (o : Outer (Unit {0})). Advances t (settle_with gathering o (embed t q)))
            (sym f) (settle_given t q h l e f))
    settle_outer (raises x) n e f =
        subst (λ (p : Populating). Advances t (settle_with p t.gather.outer (embed t q))) (sym e)
          (subst (λ (o : Outer (Unit {0})). Advances t (settle_with gathering o (embed t q)))
            (sym f) (settle_raised t q h x e f))

    -- While the iterators are gathered, one of them can go on, or all have been heard of.
    go_on : Counts t → t.populating ≡ gathering → (e : Event) × Advances t (step e (embed t q))
    go_on c p = elim (Outer-cases t.gather.outer) [
      | inl w ↦
          let (k, src, e, f) = find_open t.sources (c.waiting w).1 in
          (advance k, advance_open k src e f)
      | inr (inl (l, w)) ↦ (settle, settle_outer (gives l) (λ n. cc) p w)
      | inr (inr (x, w)) ↦ (settle, settle_outer (raises x) (λ n. cc) p w)
    ]

    get_one :
        (x : Put V) (xs : List (Put V))
        → t.queue ≡ x ∷ xs
        → t.consumer ≡ getting
        → Advances t (step consume (embed t q))
    unfolding step
    get_one x xs e c =
        subst (λ (d : Consumer). Advances t (consume_at d (embed t q))) (sym c)
          (got_one t q h x xs e c)

    unmarked : t.populating ≢ gathering → IsMarked t → t.queue ≡ [] → t.consumer ≢ getting
    unmarked p m e d =
        let some_marker = m p (ap is_ended d) in
        let none_held : t.batch ++ t.queue ≡ [] =
          ap (λ l. l ++ t.queue) (h.idle (ap is_idle d)) ∙ e in
        cc (sym some_marker ∙ ap (any is_marker) none_held)

    nothing_left :
        (p : Populating)
        → t.populating ≡ p
        → Counts t
        → IsMarked t
        → t.queue ≡ []
        → t.consumer ≡ getting
        → (e : Event) × Advances t (step e (embed t q))
    nothing_left gathering p c m e d = go_on c p
    nothing_left joining p c m e d = absurd (unmarked (λ n. cc (n, p)) m e d)
    nothing_left finished p c m e d = absurd (unmarked (λ n. cc (n, p)) m e d)
    nothing_left (cancelled_by x) p c m e d = absurd (unmarked (λ n. cc (n, p)) m e d)

    -- Some step makes a move, unless the generator has ended.
    enabled :
        (c : Consumer)
        → t.consumer ≡ c
        → Counts t
        → IsMarked t
        → is_ended c ≡ false
        → (e : Event) × Advances t (step e (embed t q))
    unfolding step
    enabled asking e c m n = (
      consume,
      subst (λ (d : Consumer). Advances t (consume_at d (embed t q))) (sym e)
          (simulate_ask t q h t.populating refl e),
    )
    enabled handling e c m n = (
      consume,
      subst (λ (d : Consumer). Advances t (consume_at d (embed t q))) (sym e)
          (simulate_handle t q h t.batch refl e),
    )
    enabled getting e c m n = elim (List-cases t.queue) [
      | inl f ↦ nothing_left t.populating refl c m f e
      | inr (x, xs, f) ↦ (consume, get_one x xs f e)
    ]
    enabled returned e c m n = cc
    enabled (raised x) e c m n = cc

  ends_within :
      (fuel : ℕ) (t : Spec V) (q : AsyncQueue (Put V))
      → Tracks t q
      → Counts t
      → IsMarked t
      → measure t ≤ fuel
      → (es : List Event) × (length es ≤ fuel) × (is_ended (run es (embed t q)).consumer ≡ true)
  unfolding run
  ends_within zero t q h c m le = elim (Bool-cases (is_ended t.consumer)) [
    | inl e ↦ ([], omega arith, e)
    | inr e ↦
        let (ev, found) = enabled t q h t.consumer refl c m e in
        let (t', q', f, mv, h') = found in absurd (omega (arith, measure-Move mv, le))
  ]
  ends_within (suc fuel) t q h c m le = elim (Bool-cases (is_ended t.consumer)) [
    | inl e ↦ ([], omega arith, e)
    | inr e ↦
        let (ev, found) = enabled t q h t.consumer refl c m e in
        let (t', q', f, mv, h') = found in
        let (es, short, done) =
          ends_within fuel t' q' h' (Counts-Move mv c) (IsMarked-Move mv m)
            (omega (arith, measure-Move mv, le)) in
        (
          ev ∷ es,
          omega (arith, short),
          ap (λ (self : Yielder V). is_ended (run es self).consumer) f ∙ done,
        )
  ]

  run-append : (es fs : List Event) (self : Yielder V) → run (es ++ fs) self ≡ run fs (run es self)
  unfolding run
  run-append [] fs self = refl
  run-append (e ∷ es) fs self = run-append es fs (step e self)

  measure-Moves : {s t : Spec V} → Moves s t → measure t ≤ measure s
  measure-Moves (here s) = omega arith
  measure-Moves (next m ms) = omega (arith, measure-Move m, measure-Moves ms)

  -- Five steps for each item, one for each iterator, and eight.
  abbrev pub step_bound : List (List V × Option Exn) → ℕ
  step_bound inputs = 5 * total (λ i. length i.0) inputs + length inputs + 8

  start_measure :
      (inputs : List (List V × Option Exn))
      → total work (map new_source inputs) ≡ 5 * total (λ i. length i.0) inputs + length inputs
  start_measure [] = omega arith
  start_measure (x ∷ xs) = omega (arith, start_measure xs)

  -- From every state of every run, whatever the iterators raise, the generator can go on to its
  -- end in no more than five steps for each item, one for each iterator, and eight.
  pub yielder_ends :
      (inputs : List (List V × Option Exn)) (es : List Event)
      → (fs : List Event) × (length fs ≤ step_bound inputs)
        × (is_ended (run (es ++ fs) (init inputs)).consumer ≡ true)
  yielder_ends inputs es =
      let (t, q, f, ms, h) = run-Moves es (start inputs) empty (start-Tracks inputs) in
      let (fs, short, done) =
        ends_within (measure t) t q h (Counts-Moves ms (start-Counts inputs))
          (IsMarked-Moves ms (λ p. absurd (p refl))) (omega arith) in
      (
        fs,
        omega (arith, short, measure-Moves ms, start_measure inputs),
        ap (λ (self : Yielder V). is_ended self.consumer)
              (run-append es fs (init inputs) ∙ ap (run fs) f)
            ∙ done,
      )
