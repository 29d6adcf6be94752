-- ===== src/Yielding/Complete.antt =====
-- What `as_yielded` of a_sync/utils/iterators.py has yielded, in every run.
use ez_a_sync.Prelude.{
  ℕ, zero, suc, ◌≤◌, ◌≡◌, ◌≢◌, refl, sym, ap, ◌∙◌, true, List, [], ◌∷◌, ◌++◌, Option, none, some,
  Exn, inl, get_elem?, length, map, total, append-nil, append_assoc, arith,
}
use ez_a_sync.Asyncio.{empty}
use ez_a_sync.Yielding.{
  Put, Source, Yielder, Event, new_source, init_outer, gathering, asking, returned, run, init, from,
  is_ended,
}
use ez_a_sync.Gather
use ez_a_sync.Yielding.Moves.{Spec}
use ez_a_sync.Yielding.Simulation.{run-Moves}
use ez_a_sync.Yielding.Tracking.{Tracks}
use ez_a_sync.Yielding.Conserved.{Conserves, Conserves-Moves, given}
use ez_a_sync.Yielding.Endings.{Counts, is_open, fails, le-total}
use ez_a_sync.Yielding.Closing.{IsClean-Moves, end-IsClean}
use ez_a_sync.Yielding.Clean.{IsClean}

-- Iterators that end without an exception.
abbrev pub normally : {V : Type 0} → List (List V) → List (List V × Option Exn)
normally = map (λ xs. (xs, none))

module _ {V : Type 0} where
  abbrev pub start : List (List V × Option Exn) → Spec V
  start inputs = record {
    sources = map new_source inputs;
    gather = record { outer = init_outer inputs; nfinished = 0 };
    populating = gathering;
    queue = [];
    batch = [];
    consumer = asking;
    yielded = [];
  }

  pub start-Tracks : (inputs : List (List V × Option Exn)) → Tracks (start inputs) empty
  start-Tracks inputs = record {
    queue = record { items = refl; bound = refl; tasks = refl; joined = λ e. refl };
    idle = λ e. refl;
  }

  start-found :
      (inputs : List (List V × Option Exn)) (k : ℕ) (i : List V × Option Exn)
      → get_elem? inputs k ≡ some i
      → get_elem? (map new_source inputs) k ≡ some (new_source i)
  start-found [] k i e = cc
  start-found (x ∷ xs) zero i e =
      ap
        (λ (o : Option (List V × Option Exn)). elim o [
          | none ↦ none
          | some a ↦ some (new_source a)
        ])
        e
  start-found (x ∷ xs) (suc k) i e = start-found xs k i e

  start-Conserves :
      (inputs : List (List V × Option Exn)) (k : ℕ) (xs : List V) (ending : Option Exn)
      → get_elem? inputs k ≡ some (xs, ending)
      → Conserves k xs ending (start inputs)
  start-Conserves inputs k xs ending e = record {
    source = new_source (xs, ending);
    found = start-found inputs k (xs, ending) e;
    ends = refl;
    items = refl;
    used_up = λ n. cc;
  }

  all_open :
      (inputs : List (List V × Option Exn))
      → total is_open (map new_source inputs) ≡ length (map new_source inputs)
  all_open [] = refl
  all_open (x ∷ xs) = omega (arith, all_open xs)

  pub start-Counts : (inputs : List (List V × Option Exn)) → Counts (start inputs)
  start-Counts [] = record { waiting = λ w. cc; all_given = λ l w. refl }
  start-Counts (x ∷ xs) = record {
    waiting = λ w. (omega (arith, all_open xs), omega arith);
    all_given = λ l w. cc;
  }

  none_fails : (inputs : List (List V)) → total fails (map new_source (normally inputs)) ≡ 0
  none_fails [] = refl
  none_fails (x ∷ xs) = omega (arith, none_fails xs)

  start_waits : (inputs : List (List V)) (e : Exn) → init_outer (normally inputs) ≢ Gather.raises e
  start_waits [] e h = cc
  start_waits (x ∷ xs) e h = cc

  start-IsClean : (inputs : List (List V)) → IsClean (start (normally inputs))
  start-IsClean inputs = record {
    none_fails = none_fails inputs;
    no_raise = start_waits inputs;
    phase = inl (refl, refl, refl);
  }

  -- At every point of every run, what has been yielded of an iterator is what it gives first, in
  -- the order in which it gives it, whichever iterators raise and whenever they do.
  pub yielded_prefix :
      (inputs : List (List V × Option Exn)) (es : List Event) (k : ℕ) (xs : List V)
      (ending : Option Exn)
      → get_elem? inputs k ≡ some (xs, ending)
      → (rest : List V) × (from k (run es (init inputs)).yielded ++ rest ≡ xs)
  yielded_prefix inputs es k xs ending e =
      let (t, q, f, ms, _) = run-Moves es (start inputs) empty (start-Tracks inputs) in
      let c = Conserves-Moves k xs ending ms (start-Conserves inputs k xs ending e) in
      (
        (from k t.batch ++ from k t.queue) ++ c.source.left,
        ap
              (λ (self : Yielder V).
                from k self.yielded ++ ((from k t.batch ++ from k t.queue) ++ c.source.left))
              f
            ∙ sym (append_assoc (from k t.yielded) (from k t.batch ++ from k t.queue) c.source.left)
            ∙ c.items,
      )

  nothing_held : (k : ℕ) (xs ys : List (Put V)) → xs ++ ys ≡ [] → from k xs ++ from k ys ≡ []
  nothing_held k [] [] e = refl
  nothing_held k [] (y ∷ ys) e = cc
  nothing_held k (x ∷ xs) ys e = cc

  all_stopped : (n : ℕ) (src : Source V) → is_open src ≤ n → n ≡ 0 → src.stopped ≡ true
  all_stopped n src h e = ground (arith, h, e)

  -- If no iterator raises, a generator that has ended has returned, and it has yielded every
  -- item of every iterator once, in the iterator's order, however the tasks interleave.
  pub yielded_all :
      (inputs : List (List V)) (es : List Event) (k : ℕ) (xs : List V)
      → get_elem? (normally inputs) k ≡ some (xs, none)
      → is_ended (run es (init (normally inputs))).consumer ≡ true
      → ((run es (init (normally inputs))).consumer ≡ returned)
        × (from k (run es (init (normally inputs))).yielded ≡ xs)
  yielded_all inputs es k xs e done =
      let (t, q, f, ms, _) =
        run-Moves es (start (normally inputs)) empty (start-Tracks (normally inputs)) in
      let c = Conserves-Moves k xs none ms (start-Conserves (normally inputs) k xs none e) in
      let h = IsClean-Moves ms (start-Counts (normally inputs)) (start-IsClean inputs) in
      let (r, nothing, stopped) =
        end-IsClean t h (sym (ap (λ (self : Yielder V). is_ended self.consumer) f) ∙ done) in
      let used = c.used_up (
        all_stopped (total is_open t.sources) c.source
          (le-total is_open t.sources k c.source c.found) stopped) in
      (
        ap (λ (self : Yielder V). self.consumer) f ∙ r,
        ap (λ (self : Yielder V). from k self.yielded) f
            ∙ sym (append-nil (from k t.yielded))
            ∙ sym (ap (λ l. from k t.yielded ++ l) (nothing_held k t.batch t.queue nothing))
            ∙ sym (append-nil (given k t))
            ∙ sym (ap (λ l. given k t ++ l) used)
            ∙ c.items,
      )
