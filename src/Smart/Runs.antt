-- ===== src/Smart/Runs.antt =====
-- Runs of `SmartProcessingQueue` of a_sync/primitives/queue.py: every event keeps the invariant.
use ez_a_sync.Prelude.{
  ℕ, zero, suc, ◌-◌, ◌<◌, ◌≡◌, ◌≢◌, refl, sym, ap, ◌∙◌, subst, Bool, true, false, ◌||◌, List, [],
  ◌∷◌, Option, none, some, Result, ok, err, Exn, ◌==◌, if◌then◌else◌, Bool-cases, Option-cases, inl,
  inr, ◌⊎◌, arith,
}
use ez_a_sync.Executor.{is_exception}
use ez_a_sync.Gather.{Outcome, finished, failed, cancelled}
use ez_a_sync.Counter.Heap.{eq_true, if_false, or_left, or_right}
use ez_a_sync.Smart.{
  Job, queued, processing, over, abandoned, first_error, Inner, Shield, SmartQueue, update, pop_fut,
  forget_fut, is_done, is_skipped, has_been_cancelled, begin_job, set_outcome, end_job, copy,
  is_held, is_processing, Event, put, take, end, callback, cancel, collect, notice, close, step,
  run,
}
use ez_a_sync.Smart.Steps.{at_update, IsSound, changed-IsSound, same-IsSound}
use ez_a_sync.Smart.Changes.{
  take-IsChange, skip-IsChange, abandon-IsChange, end_ok-IsChange, end_err-IsChange,
  collect-IsChange,
}
use ez_a_sync.Smart.Puts.{put_nowait-IsSound}

some_inj : {A : Type 0} {a b : A} → some a ≡ some b → a ≡ b
some_inj e = cc

module _ {V : Type 0} where
  module _ (i : ℕ) (self : SmartQueue V) (h : IsSound self) where
    -- A job is skipped only if its future has been collected.
    pub is_skipped-collected :
        (self.inner i).job ≡ queued → (is_skipped (self.inner i) ≡ (self.inner i).collected)
    is_skipped-collected q =
        let (l, z) = h.works i (λ n. cc (n, q)) in
        let w = h.wanted i l in ground (arith, ap has_been_cancelled z, w)

    begin_job-IsSound : (job : Job) → (self.inner i).job ≡ job → IsSound (begin_job i job self)
    begin_job-IsSound queued q = elim (Bool-cases (is_skipped (self.inner i))) [
      | inl s ↦
          subst
            (λ (b : Bool). IsSound (
              if b
              then record self {
                inner = update self.inner i (record (self.inner i) { job = over });
                unfinished = self.unfinished - 1;
              }
              else record self {
                inner = update self.inner i (record (self.inner i) { job = processing });
              }))
            (sym s)
            (changed-IsSound i _ self.futs _ self
              (skip-IsChange i self h (sym (is_skipped-collected q) ∙ s)) h)
      | inr s ↦
          subst
            (λ (b : Bool). IsSound (
              if b
              then record self {
                inner = update self.inner i (record (self.inner i) { job = over });
                unfinished = self.unfinished - 1;
              }
              else record self {
                inner = update self.inner i (record (self.inner i) { job = processing });
              }))
            (sym s)
            (changed-IsSound i _ self.futs self.unfinished self
              (take-IsChange i self h q (sym (is_skipped-collected q) ∙ s)) h)
    ]
    begin_job-IsSound processing q = h
    begin_job-IsSound over q = h
    begin_job-IsSound abandoned q = h

    set_pending :
        (s : Outcome V)
        → (self.inner i).state ≡ none
        → set_outcome s (self.inner i) ≡ record (self.inner i) { state = some s }
    set_pending s z = if_false _ _ _ (ap is_done z)

    -- The function has raised an `Exception`, or something else.
    abbrev excepted : Exn → SmartQueue V
    excepted e = record self {
      inner = update self.inner i (record (set_outcome (failed e) (self.inner i)) { job = over });
      futs = pop_fut (self.inner i).key self.futs;
      unfinished = self.unfinished - 1;
    }

    abbrev abandons : Exn → SmartQueue V
    abandons e = record self {
      inner = update self.inner i (record (self.inner i) { job = abandoned });
      worker_error = first_error e self.worker_error;
    }

    excepted-IsSound : (e : Exn) → (self.inner i).job ≡ processing → IsSound (excepted e)
    excepted-IsSound e q =
        let (l, z) = h.works i (λ n. cc (n, q)) in
        subst
          (λ (x : Inner V). IsSound (record self {
            inner = update self.inner i (record x { job = over });
            futs = pop_fut (self.inner i).key self.futs;
            unfinished = self.unfinished - 1;
          }))
          (sym (set_pending (failed e) z))
          (changed-IsSound i _ _ _ self (end_err-IsChange i self h (failed e) l (h.runs i q) z) h)

    abandons-IsSound : (e : Exn) → (self.inner i).job ≡ processing → IsSound (abandons e)
    abandons-IsSound e q =
        same-IsSound self.closed (first_error e self.worker_error) self.broken
          (record self { inner = update self.inner i (record (self.inner i) { job = abandoned }) })
          (changed-IsSound i _ self.futs self.unfinished self (abandon-IsChange i self h q) h)

    end-IsSound :
        (r : Result V) (job : Job) → (self.inner i).job ≡ job → IsSound (end_job i r job self)
    end-IsSound (ok v) processing q =
        let (l, z) = h.works i (λ n. cc (n, q)) in
        subst
          (λ (x : Inner V). IsSound (record self {
            inner = update self.inner i (record x { job = over });
            unfinished = self.unfinished - 1;
          }))
          (sym (set_pending (finished v) z))
          (changed-IsSound i _ self.futs _ self (end_ok-IsChange i self h (finished v) z) h)
    end-IsSound (err e) processing q = elim (Bool-cases (is_exception e)) [
      | inl t ↦
          subst (λ (b : Bool). IsSound (if b then excepted e else abandons e)) (sym t)
            (excepted-IsSound e q)
      | inr t ↦
          subst (λ (b : Bool). IsSound (if b then excepted e else abandons e)) (sym t)
            (abandons-IsSound e q)
    ]
    end-IsSound (ok v) queued q = h
    end-IsSound (ok v) over q = h
    end-IsSound (err e) queued q = h
    end-IsSound (err e) over q = h
    end-IsSound (ok v) abandoned q = h
    end-IsSound (err e) abandoned q = h

  module _ (o : ℕ) (self : SmartQueue V) (h : IsSound self) where
    abbrev Held : Shield V → Type 0
    Held x = x.state ≡ none → (x.inner < self.inners) × ((self.inner x.inner).collected ≡ false)

    abbrev Agreed : Outcome V → Shield V → Type 0
    Agreed s x =
        x.state ≡ some s
        → (s ≡ cancelled) ⊎ ((x.inner < self.inners) × ((self.inner x.inner).state ≡ some s))

    abbrev Right : Outcome V → Type 0
    Right t = (t ≡ cancelled) ⊎ ((self.inner (self.outer o).inner).state ≡ some t)

    copied_some :
        (P : Shield V → Type 0) (t : Outcome V)
        → P (self.outer o)
        → ((self.outer o).state ≡ none → P (record (self.outer o) { state = some t }))
        → P (copy (some t) (self.outer o))
    copied_some P t old new = elim (Option-cases (self.outer o).state) [
      | inl e ↦
          subst
            (λ (b : Bool). P (if b then self.outer o else record (self.outer o) { state = some t }))
            (sym (ap is_done e)) (new e)
      | inr (s, e) ↦
          subst
            (λ (b : Bool). P (if b then self.outer o else record (self.outer o) { state = some t }))
            (sym (ap is_done e)) old
    ]

    held : (st : Option (Outcome V)) → Held (copy st (self.outer o))
    held none = h.holds o
    held (some t) = copied_some Held t (h.holds o) (λ z e. cc)

    born : (st : Option (Outcome V)) → (copy st (self.outer o)).state ≡ none → o < self.outers
    born none = h.born o
    born (some t) = copied_some (λ x. x.state ≡ none → o < self.outers) t (h.born o) (λ z e. cc)

    agreed :
        (s : Outcome V) (st : Option (Outcome V))
        → ((t : Outcome V) → st ≡ some t → Right t)
        → Agreed s (copy st (self.outer o))
    agreed s none right = h.agrees o s
    agreed s (some t) right = copied_some (Agreed s) t (h.agrees o s) (λ z e. elim (right t refl) [
      | inl c ↦ inl (sym (some_inj e) ∙ c)
      | inr c ↦ inr ((h.holds o z).0, c ∙ e)
    ])

    copied-IsSound :
        (st : Option (Outcome V))
        → ((t : Outcome V) → st ≡ some t → Right t)
        → IsSound (record self { outer = update self.outer o (copy st (self.outer o)) })
    copied-IsSound st right = record {
      holds =
          at_update (λ p x. Held x) self.outer o (copy st (self.outer o)) (held st)
            (λ p n. h.holds p);
      born =
          at_update (λ p x. x.state ≡ none → p < self.outers) self.outer o (copy st (self.outer o))
            (born st) (λ p n. h.born p);
      agrees = λ p s.
          at_update (λ q x. Agreed s x) self.outer o (copy st (self.outer o)) (agreed s st right)
            (λ q n. h.agrees q s) p;
      waits = h.waits;
      wanted = h.wanted;
      works = h.works;
      runs = h.runs;
      refers = h.refers;
    }

  held_by_none :
      (i n : ℕ) (self : SmartQueue V)
      → is_held i self n ≡ false
      → (o : ℕ) → o < n
      → (self.outer o).inner ≡ i
      → (self.outer o).state ≢ none
  unfolding is_held
  held_by_none i zero self e o l eq z = absurd (omega arith)
  held_by_none i (suc n) self e o l eq z = elim (Bool-cases (o == n)) [
    | inl same ↦
        let p = eq_true o n same in
        let eq' : (self.outer n).inner ≡ i = sym (ap (λ k. (self.outer k).inner) p) ∙ eq in
        let z' : (self.outer n).state ≡ none = sym (ap (λ k. (self.outer k).state) p) ∙ z in
        ground (arith, e, eq', ap is_done z')
    | inr differs ↦ held_by_none i n self (or_right _ _ e) o (ground (arith, l, differs)) eq z
  ]

  collect-IsSound : (i : ℕ) (self : SmartQueue V) → IsSound self → IsSound (step (collect i) self)
  unfolding step
  collect-IsSound i self h =
      elim (Bool-cases (is_held i self self.outers || is_processing (self.inner i).job)) [
        | inl b ↦
            subst
              (λ (b : Bool). IsSound (
                if b then self else record self {
                  inner = update self.inner i (record (self.inner i) { collected = true });
                  futs = forget_fut i self.futs;
                }))
              (sym b) h
        | inr b ↦
            subst
              (λ (b : Bool). IsSound (
                if b then self else record self {
                  inner = update self.inner i (record (self.inner i) { collected = true });
                  futs = forget_fut i self.futs;
                }))
              (sym b)
              (changed-IsSound i _ _ self.unfinished self
                (collect-IsChange i self h
                  (λ o eq z. held_by_none i self.outers self (or_left _ _ b) o (h.born o z) eq z)
                  (λ p. cc (
                    or_right (is_held i self self.outers) (is_processing (self.inner i).job) b,
                    ap is_processing p,
                  )))
                h)
      ]

  step-IsSound : (e : Event V) (self : SmartQueue V) → IsSound self → IsSound (step e self)
  unfolding step
  step-IsSound (put key) self h = put_nowait-IsSound key self h
  step-IsSound (take i) self h = begin_job-IsSound i self h (self.inner i).job refl
  step-IsSound (end i r) self h = end-IsSound i self h r (self.inner i).job refl
  step-IsSound (callback o) self h =
      copied-IsSound o self h (self.inner (self.outer o).inner).state (λ t e. inr e)
  step-IsSound (cancel o) self h =
      copied-IsSound o self h (some cancelled) (λ t e. inl (some_inj (sym e)))
  step-IsSound (collect i) self h = collect-IsSound i self h
  step-IsSound notice self h =
      same-IsSound self.closed self.worker_error
        (elim self.broken as (λ _. Option Exn) [ none ↦ self.worker_error | some e ↦ some e ]) self
        h
  step-IsSound close self h = same-IsSound true self.worker_error self.broken self h

  pub run-IsSound :
      (es : List (Event V)) (self : SmartQueue V) → IsSound self → IsSound (run es self)
  unfolding run
  run-IsSound [] self h = h
  run-IsSound (e ∷ es) self h = run-IsSound es (step e self) (step-IsSound e self h)
