-- ===== src/Counter/Leaves.antt =====
-- a_sync/primitives/locks/counter.pyx and event.pyx: cancelled waiters, and waiters that go on.
use ez_a_sync.Prelude.{
  ℕ, ◌≤◌, ◌≡◌, ◌≢◌, refl, sym, ap, ◌∙◌, true, List, Option, none, some, ◌==◌, Bool-cases, inl, inr,
}
use ez_a_sync.Counter.{
  State, pending, finished, cancelled, Waiting, waiting, CounterLock, put, cancel, remove,
  leave_event, resume, resume_with,
}
use ez_a_sync.Counter.Heap.{mem, eq_true, mem-remove, mem-remove_ne}
use ez_a_sync.Counter.Good.{is_some, put_same, put_other, some_inj}
use ez_a_sync.Counter.Steps.{IsWhole}

cancel_keeps :
    (o : Option Waiting) (k : ℕ) (st : State)
    → o ≡ some (waiting k st)
    → (st' : State) × (cancel o ≡ some (waiting k st'))
cancel_keeps none k st e = absurd cc
cancel_keeps (some (waiting j pending)) k st e = (cancelled, cc)
cancel_keeps (some (waiting j finished)) k st e = (finished, cc)
cancel_keeps (some (waiting j cancelled)) k st e = (cancelled, cc)

not_pending : (o : Option Waiting) (k : ℕ) → cancel o ≢ some (waiting k pending)
not_pending none k e = absurd cc
not_pending (some (waiting j pending)) k e = absurd cc
not_pending (some (waiting j finished)) k e = absurd cc
not_pending (some (waiting j cancelled)) k e = absurd cc

was_finished :
    (o : Option Waiting) (k : ℕ)
    → cancel o ≡ some (waiting k finished)
    → o ≡ some (waiting k finished)
was_finished none k e = absurd cc
was_finished (some (waiting j pending)) k e = absurd cc
was_finished (some (waiting j finished)) k e = e
was_finished (some (waiting j cancelled)) k e = absurd cc

module _ (f : ℕ) (self : CounterLock) (whole : IsWhole self) where
  abbrev after_cancel : CounterLock
  after_cancel = record self { futures = put f (cancel (self.futures f)) self.futures }

  cancel_waits :
      (g k : ℕ)
      → after_cancel.futures g ≡ some (waiting k pending)
      → (us : List ℕ) × (self.events k ≡ some us) × (mem g us ≡ true)
  cancel_waits g k e = elim (Bool-cases (g == f)) [
    | inl same ↦ absurd (
        not_pending (self.futures f) k
          (sym (put_same f g (cancel (self.futures f)) self.futures same) ∙ e))
    | inr differs ↦
        whole.waits g k (sym (put_other f g (cancel (self.futures f)) self.futures differs) ∙ e)
  ]

  cancel_belongs :
      (g k : ℕ) (us : List ℕ)
      → self.events k ≡ some us
      → mem g us ≡ true
      → (st : State) × (after_cancel.futures g ≡ some (waiting k st))
  cancel_belongs g k us at in_us =
      let (st, e) = whole.belongs g k us at in_us in
      elim (Bool-cases (g == f)) [
        | inl same ↦
            let (st', h) =
              cancel_keeps (self.futures f) k st (ap self.futures (sym (eq_true g f same)) ∙ e) in
            (st', put_same f g (cancel (self.futures f)) self.futures same ∙ h)
        | inr differs ↦ (st, put_other f g (cancel (self.futures f)) self.futures differs ∙ e)
      ]

  cancel_reached : (g k : ℕ) → after_cancel.futures g ≡ some (waiting k finished) → k ≤ self.value
  cancel_reached g k e = elim (Bool-cases (g == f)) [
    | inl same ↦ whole.reached f k (
        was_finished (self.futures f) k
          (sym (put_same f g (cancel (self.futures f)) self.futures same) ∙ e))
    | inr differs ↦
        whole.reached g k (sym (put_other f g (cancel (self.futures f)) self.futures differs) ∙ e)
  ]

  cancel_fresh : (g : ℕ) → self.next ≤ g → after_cancel.futures g ≡ none
  cancel_fresh g h = elim (Bool-cases (g == f)) [
    | inl same ↦
        put_same f g (cancel (self.futures f)) self.futures same
        ∙ ap cancel (ap self.futures (sym (eq_true g f same)) ∙ whole.fresh g h)
    | inr differs ↦ put_other f g (cancel (self.futures f)) self.futures differs ∙ whole.fresh g h
  ]

  pub cancel-IsWhole : IsWhole after_cancel
  cancel-IsWhole = record {
    sorted = whole.sorted;
    aligned = whole.aligned;
    waits = cancel_waits;
    belongs = cancel_belongs;
    reached = cancel_reached;
    fresh = cancel_fresh;
  }

-- A future that does not wait leaves the waiters `ws` of its event.
module _ (f key : ℕ) (ws : List ℕ) (self : CounterLock) (whole : IsWhole self)
    (here : self.events key ≡ some ws)
    (done : (k : ℕ) → self.futures f ≢ some (waiting k pending)) where
  abbrev left : CounterLock
  left = record self { events = put key (some (remove f ws)) self.events }

  left_aligned : (k : ℕ) → mem k self.heap ≡ is_some (left.events k)
  left_aligned k = elim (Bool-cases (k == key)) [
    | inl same ↦
        whole.aligned k
        ∙ ap is_some (ap self.events (eq_true k key same) ∙ here)
        ∙ sym (ap is_some (put_same key k (some (remove f ws)) self.events same))
    | inr differs ↦
        whole.aligned k
        ∙ sym (ap is_some (put_other key k (some (remove f ws)) self.events differs))
  ]

  left_waits :
      (g k : ℕ)
      → self.futures g ≡ some (waiting k pending)
      → (us : List ℕ) × (left.events k ≡ some us) × (mem g us ≡ true)
  left_waits g k e =
      let (us, at, in_us) = whole.waits g k e in
      elim (Bool-cases (k == key)) [
        | inl same ↦
            let us_ws = some_inj us ws (sym at ∙ ap self.events (eq_true k key same) ∙ here) in
            (
              remove f ws,
              put_same key k (some (remove f ws)) self.events same,
              mem-remove_ne g f ws (λ i. done k (ap self.futures (sym i) ∙ e))
                  (sym (ap (mem g) us_ws) ∙ in_us),
            )
        | inr differs ↦ (us, put_other key k (some (remove f ws)) self.events differs ∙ at, in_us)
      ]

  left_belongs :
      (g k : ℕ) (us : List ℕ)
      → left.events k ≡ some us
      → mem g us ≡ true
      → (st : State) × (self.futures g ≡ some (waiting k st))
  left_belongs g k us at in_us = elim (Bool-cases (k == key)) [
    | inl same ↦
        let us_rest =
          some_inj us (remove f ws)
            (sym at ∙ put_same key k (some (remove f ws)) self.events same) in
        whole.belongs g k ws (ap self.events (eq_true k key same) ∙ here)
          (mem-remove g f ws (sym (ap (mem g) us_rest) ∙ in_us))
    | inr differs ↦
        whole.belongs g k us (sym (put_other key k (some (remove f ws)) self.events differs) ∙ at)
          in_us
  ]

  left-IsWhole : IsWhole left
  left-IsWhole = record {
    sorted = whole.sorted;
    aligned = left_aligned;
    waits = left_waits;
    belongs = left_belongs;
    reached = whole.reached;
    fresh = whole.fresh;
  }

leave-IsWhole :
    (f key : ℕ) (o : Option (List ℕ)) (self : CounterLock)
    → IsWhole self
    → self.events key ≡ o
    → ((k : ℕ) → self.futures f ≢ some (waiting k pending))
    → IsWhole (leave_event f key o self)
leave-IsWhole f key none self whole here done = whole
leave-IsWhole f key (some ws) self whole here done = left-IsWhole f key ws self whole here done

resume_with-IsWhole :
    (f : ℕ) (o : Option Waiting) (self : CounterLock)
    → IsWhole self
    → self.futures f ≡ o
    → IsWhole (resume_with f o self)
resume_with-IsWhole f none self whole e = whole
resume_with-IsWhole f (some (waiting key pending)) self whole e = whole
resume_with-IsWhole f (some (waiting key finished)) self whole e =
    leave-IsWhole f key (self.events key) self whole refl (λ k h. cc)
resume_with-IsWhole f (some (waiting key cancelled)) self whole e =
    leave-IsWhole f key (self.events key) self whole refl (λ k h. cc)

pub resume-IsWhole : (f : ℕ) (self : CounterLock) → IsWhole self → IsWhole (resume f self)
unfolding resume
resume-IsWhole f self whole = resume_with-IsWhole f (self.futures f) self whole refl
