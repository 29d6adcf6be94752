-- ===== src/Counter/Joins.antt =====
-- a_sync/primitives/locks/counter.pyx: what `wait_for` keeps of a lock whose parts belong together.
use ez_a_sync.Prelude.{
  ℕ, suc, ◌<◌, ◌≤◌, ◌≡◌, ◌≢◌, refl, sym, ap, subst, ◌∙◌, Bool, true, false, ◌||◌, List, [], ◌∷◌,
  ◌++◌, Option, none, some, leb, ◌==◌, Bool-cases, inl, inr, arith,
}
use ez_a_sync.Counter.{
  State, pending, finished, Waiting, waiting, CounterLock, heap_push, is_ready, join_event, wait_at,
  wait_for,
}
use ez_a_sync.Counter.Heap.{
  IsFrom, mem, eq_true, eq_refl, eq_false, above_push, mem-push, mem-append, if_true, if_false,
  or_second, or_intro,
}
use ez_a_sync.Counter.Good.{
  is_some, put_same, put_other, no_some, some_inj, same_key, true_false, or_intro_left,
}
use ez_a_sync.Counter.Steps.{IsWhole}

or_none : (b c : Bool) → c ≡ false → (b || (c || false)) ≡ true → b ≡ true
or_none true c e h = refl
or_none false c e h = absurd (true_false (sym h ∙ or_second c false e))

already : (j k : ℕ) (ks : List ℕ) → mem k ks ≡ true → mem j ks ≡ ((j == k) || mem j ks)
already j k ks e = elim (Bool-cases (j == k)) [
  | inl same ↦
      ap (λ i. mem i ks) (eq_true j k same) ∙ e ∙ sym (or_intro_left (j == k) (mem j ks) same)
  | inr differs ↦ sym (or_second (j == k) (mem j ks) differs)
]

not_finished :
    (j k : ℕ) → ◌≢◌ {A = Option Waiting} (some (waiting j pending)) (some (waiting k finished))
not_finished j k e = cc

-- A new future joins the event of `key`, whose waiters were `ws`.
module _ (key : ℕ) (ws keys : List ℕ) (self : CounterLock) (whole : IsWhole self)
    (sorted : IsFrom self.value keys)
    (aligned : (j : ℕ) → mem j keys ≡ ((j == key) || mem j self.heap))
    (were : (us : List ℕ) → self.events key ≡ some us → us ≡ ws)
    (from : (f : ℕ)
      → mem f ws ≡ true
      → (st : State) × (self.futures f ≡ some (waiting key st))) where
  abbrev joined : CounterLock
  joined = join_event key ws (record self { heap = keys })

  abbrev all_waiters : List ℕ
  all_waiters = ws ++ self.next ∷ []

  -- The number of the new future is not in use.
  not_next :
      (f k : ℕ) (st : State) → self.futures f ≡ some (waiting k st) → (f == self.next) ≡ false
  not_next f k st e = eq_false f self.next (λ same.
      no_some (waiting k st) (sym (ap self.futures same ∙ whole.fresh self.next (omega arith)) ∙ e))

  next_in : mem self.next all_waiters ≡ true
  next_in =
      mem-append self.next ws (self.next ∷ [])
      ∙ or_intro (mem self.next ws) ((self.next == self.next) || false)
          (or_intro_left (self.next == self.next) false (eq_refl self.next))

  old_in : (f : ℕ) → mem f ws ≡ true → mem f all_waiters ≡ true
  old_in f e = mem-append f ws (self.next ∷ []) ∙ or_intro_left (mem f ws) _ e

  in_all : (f : ℕ) → (f == self.next) ≡ false → mem f all_waiters ≡ true → mem f ws ≡ true
  in_all f e h = or_none (mem f ws) (f == self.next) e (sym (mem-append f ws (self.next ∷ [])) ∙ h)

  joined_aligned : (k : ℕ) → mem k keys ≡ is_some (joined.events k)
  joined_aligned k = elim (Bool-cases (k == key)) [
    | inl same ↦
        aligned k
        ∙ or_intro_left (k == key) (mem k self.heap) same
        ∙ sym (ap is_some (put_same key k (some all_waiters) self.events same))
    | inr differs ↦
        aligned k
        ∙ or_second (k == key) (mem k self.heap) differs
        ∙ whole.aligned k
        ∙ sym (ap is_some (put_other key k (some all_waiters) self.events differs))
  ]

  joined_waits :
      (f k : ℕ)
      → joined.futures f ≡ some (waiting k pending)
      → (us : List ℕ) × (joined.events k ≡ some us) × (mem f us ≡ true)
  joined_waits f k e = elim (Bool-cases (f == self.next)) [
    | inl new ↦
        let at = put_same self.next f (some (waiting key pending)) self.futures new in
        let here = same_key key k pending pending (sym at ∙ e) in
        (
          all_waiters,
          put_same key k (some all_waiters) self.events
              (ap (λ i. i == key) (sym here) ∙ eq_refl key),
          ap (λ i. mem i all_waiters) (eq_true f self.next new) ∙ next_in,
        )
    | inr old ↦
        let (us, at, in_us) =
          whole.waits f k
            (sym (put_other self.next f (some (waiting key pending)) self.futures old) ∙ e) in
        elim (Bool-cases (k == key)) [
          | inl same ↦
              let us_ws = were us (sym (ap self.events (eq_true k key same)) ∙ at) in
              (
                all_waiters,
                put_same key k (some all_waiters) self.events same,
                old_in f (sym (ap (mem f) us_ws) ∙ in_us),
              )
          | inr differs ↦ (us, put_other key k (some all_waiters) self.events differs ∙ at, in_us)
        ]
  ]

  joined_belongs :
      (f k : ℕ) (us : List ℕ)
      → joined.events k ≡ some us
      → mem f us ≡ true
      → (st : State) × (joined.futures f ≡ some (waiting k st))
  joined_belongs f k us at in_us = elim (Bool-cases (k == key)) [
    | inl same ↦
        let us_all =
          some_inj us all_waiters (sym at ∙ put_same key k (some all_waiters) self.events same) in
        elim (Bool-cases (f == self.next)) [
          | inl new ↦ (
            pending,
            put_same self.next f (some (waiting key pending)) self.futures new
                ∙ ap (λ i. some (waiting i pending)) (sym (eq_true k key same)),
          )
          | inr old ↦
              let (st, e) = from f (in_all f old (sym (ap (mem f) us_all) ∙ in_us)) in
              (
                st,
                put_other self.next f (some (waiting key pending)) self.futures old
                    ∙ e
                    ∙ ap (λ i. some (waiting i st)) (sym (eq_true k key same)),
              )
        ]
    | inr differs ↦
        let (st, e) =
          whole.belongs f k us (sym (put_other key k (some all_waiters) self.events differs) ∙ at)
            in_us in
        (
          st,
          put_other self.next f (some (waiting key pending)) self.futures (not_next f k st e) ∙ e,
        )
  ]

  joined_reached : (f k : ℕ) → joined.futures f ≡ some (waiting k finished) → k ≤ self.value
  joined_reached f k e = elim (Bool-cases (f == self.next)) [
    | inl new ↦ absurd (
        not_finished key k
          (sym (put_same self.next f (some (waiting key pending)) self.futures new) ∙ e))
    | inr old ↦
        whole.reached f k
          (sym (put_other self.next f (some (waiting key pending)) self.futures old) ∙ e)
  ]

  joined_fresh : (f : ℕ) → suc self.next ≤ f → joined.futures f ≡ none
  joined_fresh f h =
      put_other self.next f (some (waiting key pending)) self.futures
        (eq_false f self.next (λ e. omega (arith, e, h)))
      ∙ whole.fresh f (omega arith)

  pub joined-IsWhole : IsWhole joined
  joined-IsWhole = record {
    sorted = sorted;
    aligned = joined_aligned;
    waits = joined_waits;
    belongs = joined_belongs;
    reached = joined_reached;
    fresh = joined_fresh;
  }

wait_at-IsWhole :
    (v : ℕ) (self : CounterLock)
    → IsWhole self
    → self.value < v
    → (o : Option (List ℕ)) → self.events v ≡ o
    → IsWhole (wait_at v o self)
wait_at-IsWhole v self whole h none e =
    joined-IsWhole v [] (heap_push v self.heap) self whole
      (above_push self.value v self.heap h whole.sorted (whole.aligned v ∙ ap is_some e))
      (λ j. mem-push j v self.heap) (λ us here. absurd (no_some us (sym e ∙ here)))
      (λ f none_in. absurd (true_false (sym none_in)))
wait_at-IsWhole v self whole h (some ws) e =
    joined-IsWhole v ws self.heap self whole whole.sorted
      (λ j. already j v self.heap (whole.aligned v ∙ ap is_some e))
      (λ us here. some_inj us ws (sym here ∙ e)) (λ f in_ws. whole.belongs f v ws e in_ws)

-- `wait_for` keeps the parts together.
pub wait-IsWhole : (v : ℕ) (self : CounterLock) → IsWhole self → IsWhole (wait_for v self).1
unfolding wait_for is_ready
wait-IsWhole v self whole = elim (Bool-cases (leb v self.value)) [
  | inl ready ↦
      subst (λ (r : Bool × CounterLock). IsWhole r.1) (sym (if_true (leb v self.value) _ _ ready))
        whole
  | inr waits ↦
      subst (λ (r : Bool × CounterLock). IsWhole r.1) (sym (if_false (leb v self.value) _ _ waits))
        (wait_at-IsWhole v self whole (ground (arith, waits)) (self.events v) refl)
]
