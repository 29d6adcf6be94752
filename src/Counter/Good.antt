-- ===== src/Counter/Good.antt =====
-- a_sync/primitives/locks/counter.pyx: how the heap, the events and the futures of a lock fit, and
-- what popping an event does to that.
use ez_a_sync.Prelude.{
  ℕ, ◌≤◌, ◌≡◌, ◌≢◌, refl, sym, ap, subst, ◌∙◌, Bool, true, false, ◌||◌, List, [], ◌∷◌, Option, none,
  some, ok, ◌==◌, Bool-cases, Option-cases, ◌⊎◌, inl, inr,
}
use ez_a_sync.Counter.{
  State, pending, finished, cancelled, Waiting, waiting, CounterLock, put, finish, set_event,
  pop_event, pop_waiters,
}
use ez_a_sync.Counter.Heap.{
  IsFrom, mem, eq_true, eq_refl, if_true, if_false, or_right, or_left, later, not_mem, or_second,
}

abbrev pub is_some : Option (List ℕ) → Bool
is_some none = false
is_some (some ws) = true

pub put_same : {A : Type 0} (k j : ℕ) (a : A) (g : ℕ → A) → (j == k) ≡ true → put k a g j ≡ a
put_same k j a g e = if_true (j == k) a (g j) e

pub put_other : {A : Type 0} (k j : ℕ) (a : A) (g : ℕ → A) → (j == k) ≡ false → put k a g j ≡ g j
put_other k j a g e = if_false (j == k) a (g j) e

-- `lo` is below every key that is left on the heap, `keys`.
pub record IsGood (lo : ℕ) (keys : List ℕ) (self : CounterLock) : Type 0 where
  pub sorted : IsFrom lo keys
  pub aligned : (k : ℕ) → mem k keys ≡ is_some (self.events k)
  pub waits :
      (f k : ℕ)
      → self.futures f ≡ some (waiting k pending)
      → (ws : List ℕ) × (self.events k ≡ some ws) × (mem f ws ≡ true)
  pub belongs :
      (f k : ℕ) (ws : List ℕ)
      → self.events k ≡ some ws
      → mem f ws ≡ true
      → (st : State) × (self.futures f ≡ some (waiting k st))
  pub reached : (f k : ℕ) → self.futures f ≡ some (waiting k finished) → k ≤ self.value
  pub fresh : (f : ℕ) → self.next ≤ f → self.futures f ≡ none

finish_twice : (o : Option Waiting) → finish (finish o) ≡ finish o
finish_twice none = refl
finish_twice (some (waiting k pending)) = refl
finish_twice (some (waiting k finished)) = refl
finish_twice (some (waiting k cancelled)) = refl

pub set_event_out :
    (fs : List ℕ) (d : ℕ → Option Waiting) (f : ℕ) → mem f fs ≡ false → set_event fs d f ≡ d f
unfolding set_event
set_event_out [] d f e = refl
set_event_out (g ∷ gs) d f e =
    set_event_out gs (put g (finish (d g)) d) f (or_right (f == g) (mem f gs) e)
    ∙ put_other g f (finish (d g)) d (or_left (f == g) (mem f gs) e)

finished_at :
    (d : ℕ → Option Waiting) (f g : ℕ) → (f == g) ≡ true → put g (finish (d g)) d f ≡ finish (d f)
finished_at d f g e = put_same g f (finish (d g)) d e ∙ ap (λ i. finish (d i)) (sym (eq_true f g e))

-- What `Event.set` does to the future of a waiter.
pub set_event_in :
    (fs : List ℕ) (d : ℕ → Option Waiting) (f : ℕ)
    → mem f fs ≡ true
    → set_event fs d f ≡ finish (d f)
unfolding set_event
set_event_in [] d f e = absurd cc
set_event_in (g ∷ gs) d f e =
    let d' = put g (finish (d g)) d in
    elim (Bool-cases (f == g)) [
      | inr differs ↦
          set_event_in gs d' f (later (f == g) (mem f gs) differs e)
          ∙ ap finish (put_other g f (finish (d g)) d differs)
      | inl same ↦ elim (Bool-cases (mem f gs)) [
        | inl again ↦
            set_event_in gs d' f again ∙ ap finish (finished_at d f g same) ∙ finish_twice (d f)
        | inr once ↦ set_event_out gs d' f once ∙ finished_at d f g same
      ]
    ]

not_pending : (o : Option Waiting) (k : ℕ) → finish o ≢ some (waiting k pending)
not_pending none k e = absurd cc
not_pending (some (waiting j pending)) k e = absurd cc
not_pending (some (waiting j finished)) k e = absurd cc
not_pending (some (waiting j cancelled)) k e = absurd cc

was_finished :
    (o : Option Waiting) (k : ℕ)
    → finish o ≡ some (waiting k finished)
    → (o ≡ some (waiting k pending)) ⊎ (o ≡ some (waiting k finished))
was_finished none k e = absurd cc
was_finished (some (waiting j pending)) k e = inl cc
was_finished (some (waiting j finished)) k e = inr e
was_finished (some (waiting j cancelled)) k e = absurd cc

finish_keeps :
    (o : Option Waiting) (k : ℕ) (st : State)
    → o ≡ some (waiting k st)
    → (st' : State) × (finish o ≡ some (waiting k st'))
finish_keeps none k st e = absurd cc
finish_keeps (some (waiting j pending)) k st e = (finished, cc)
finish_keeps (some (waiting j finished)) k st e = (finished, cc)
finish_keeps (some (waiting j cancelled)) k st e = (cancelled, cc)

pub true_false : ◌≢◌ {A = Bool} true false
true_false e = cc

pub or_intro_left : (b c : Bool) → b ≡ true → (b || c) ≡ true
or_intro_left true c e = refl
or_intro_left false c e = absurd cc

pub no_some : {A : Type 0} (x : A) → ◌≢◌ {A = Option A} none (some x)
no_some x e = cc

pub some_inj : {A : Type 0} (x y : A) → ◌≡◌ {A = Option A} (some x) (some y) → x ≡ y
some_inj x y e = cc

pub same_key :
    (j k : ℕ) (s t : State)
    → ◌≡◌ {A = Option Waiting} (some (waiting j s)) (some (waiting k t))
    → j ≡ k
same_key j k s t e = cc

-- Popping the event of the least key and setting it.
module _ (lo key : ℕ) (keys ws : List ℕ) (self : CounterLock) (good : IsGood lo (key ∷ keys) self)
    (here : self.events key ≡ some ws) (le : key ≤ self.value) where
  abbrev popped : CounterLock
  popped = record self { events = put key none self.events; futures = set_event ws self.futures }

  popped_aligned : (k : ℕ) → mem k keys ≡ is_some (popped.events k)
  popped_aligned k = elim (Bool-cases (k == key)) [
    | inl same ↦
        ap (λ i. mem i keys) (eq_true k key same)
        ∙ not_mem key keys good.sorted.1
        ∙ sym (ap is_some (put_same key k none self.events same))
    | inr differs ↦
        sym (or_second (k == key) (mem k keys) differs)
        ∙ good.aligned k
        ∙ sym (ap is_some (put_other key k none self.events differs))
  ]

  popped_waits :
      (f k : ℕ)
      → popped.futures f ≡ some (waiting k pending)
      → (us : List ℕ) × (popped.events k ≡ some us) × (mem f us ≡ true)
  popped_waits f k e = elim (Bool-cases (mem f ws)) [
    | inl woken ↦
        absurd (not_pending (self.futures f) k (sym (set_event_in ws self.futures f woken) ∙ e))
    | inr other ↦
        let (us, at, in_us) = good.waits f k (sym (set_event_out ws self.futures f other) ∙ e) in
        elim (Bool-cases (k == key)) [
          | inl same ↦
              let us_ws = some_inj us ws (sym at ∙ ap self.events (eq_true k key same) ∙ here) in
              absurd (true_false (sym in_us ∙ ap (mem f) us_ws ∙ other))
          | inr differs ↦ (us, put_other key k none self.events differs ∙ at, in_us)
        ]
  ]

  popped_belongs :
      (f k : ℕ) (us : List ℕ)
      → popped.events k ≡ some us
      → mem f us ≡ true
      → (st : State) × (popped.futures f ≡ some (waiting k st))
  popped_belongs f k us at in_us = elim (Bool-cases (k == key)) [
    | inl same ↦ absurd (no_some us (sym (put_same key k none self.events same) ∙ at))
    | inr differs ↦
        let (st, e) =
          good.belongs f k us (sym (put_other key k none self.events differs) ∙ at) in_us in
        elim (Bool-cases (mem f ws)) [
          | inl woken ↦
              let (st', h) = finish_keeps (self.futures f) k st e in
              (st', set_event_in ws self.futures f woken ∙ h)
          | inr other ↦ (st, set_event_out ws self.futures f other ∙ e)
        ]
  ]

  popped_reached : (f k : ℕ) → popped.futures f ≡ some (waiting k finished) → k ≤ self.value
  popped_reached f k e = elim (Bool-cases (mem f ws)) [
    | inr other ↦ good.reached f k (sym (set_event_out ws self.futures f other) ∙ e)
    | inl woken ↦
        elim (was_finished (self.futures f) k (sym (set_event_in ws self.futures f woken) ∙ e)) [
          | inr before ↦ good.reached f k before
          | inl now ↦
              let (st, h) = good.belongs f key ws here woken in
              subst (λ i. i ≤ self.value) (same_key key k st pending (sym h ∙ now)) le
        ]
  ]

  popped_fresh : (f : ℕ) → self.next ≤ f → popped.futures f ≡ none
  popped_fresh f h = elim (Bool-cases (mem f ws)) [
    | inl woken ↦ set_event_in ws self.futures f woken ∙ ap finish (good.fresh f h)
    | inr other ↦ set_event_out ws self.futures f other ∙ good.fresh f h
  ]

  popped-IsGood : IsGood key keys popped
  popped-IsGood = record {
    sorted = good.sorted.1;
    aligned = popped_aligned;
    waits = popped_waits;
    belongs = popped_belongs;
    reached = popped_reached;
    fresh = popped_fresh;
  }

-- On a lock whose parts belong together, the event of a key on the heap is there.
pub pop-IsGood :
    (lo key : ℕ) (keys : List ℕ) (self : CounterLock)
    → IsGood lo (key ∷ keys) self
    → key ≤ self.value
    → ((pop_event key self).0 ≡ ok tt)
      × IsGood key keys (pop_event key self).1
      × ((pop_event key self).1.value ≡ self.value)
unfolding pop_event
pop-IsGood lo key keys self good le = elim (Option-cases (self.events key)) [
  | inl gone ↦ absurd (
      true_false (
        sym (or_intro_left (key == key) (mem key keys) (eq_refl key))
        ∙ good.aligned key
        ∙ ap is_some gone))
  | inr (ws, here) ↦
      subst
        (λ o.
          ((pop_waiters key o self).0 ≡ ok tt)
          × IsGood key keys (pop_waiters key o self).1
          × ((pop_waiters key o self).1.value ≡ self.value))
        (sym here) (refl, popped-IsGood lo key keys ws self good here le, refl)
]
