-- ===== src/Counter/Steps.antt =====
-- a_sync/primitives/locks/counter.pyx: what each operation keeps of a lock whose parts belong
-- together.
use ez_a_sync.Prelude.{
  ℕ, ◌<◌, ◌≤◌, ◌≡◌, refl, sym, subst, ◌∙◌, List, [], ◌∷◌, Result, ok, err, value_error, leb, ltb,
  leb→le, Bool-cases, inl, inr, arith,
}
use ez_a_sync.Counter.{CounterLock, pop_event, after_pop, wake_loop, set_value}
use ez_a_sync.Counter.Heap.{IsFrom, if_true, if_false}
use ez_a_sync.Counter.Good.{IsGood, pop-IsGood}

abbrev pub IsWhole : CounterLock → Type 0
IsWhole self = IsGood self.value self.heap self

-- The heap that is left is kept, once its keys are above the value.
put_heap :
    (lo : ℕ) (keys : List ℕ) (self : CounterLock)
    → IsGood lo keys self
    → IsFrom self.value keys
    → IsWhole (record self { heap = keys })
put_heap lo keys self good sorted = record {
  sorted = sorted;
  aligned = good.aligned;
  waits = good.waits;
  belongs = good.belongs;
  reached = good.reached;
  fresh = good.fresh;
}

after_ok :
    (r : Result (Unit {0}) × CounterLock) (go : CounterLock → Result (Unit {0}) × CounterLock)
    → r.0 ≡ ok tt
    → after_pop r go ≡ go r.1
after_ok (ok u, self) go e = refl
after_ok (err x, self) go e = absurd cc

abbrev IsDone : ℕ → Result (Unit {0}) × CounterLock → Type 0
IsDone v r = (r.0 ≡ ok tt) × IsWhole r.1 × (r.1.value ≡ v)

loop-IsDone :
    (lo : ℕ) (keys : List ℕ) (self : CounterLock)
    → IsGood lo keys self
    → IsDone self.value (wake_loop keys self)
unfolding wake_loop
loop-IsDone lo [] self good = (refl, put_heap lo [] self good tt, refl)
loop-IsDone lo (key ∷ keys) self good = elim (Bool-cases (leb key self.value)) [
  | inl le ↦
      let (worked, kept, same) = pop-IsGood lo key keys self good (leb→le key self.value le) in
      subst (IsDone self.value)
        (sym (
          if_true (leb key self.value) _ _ le
          ∙ after_ok (pop_event key self) (wake_loop keys) worked))
        (subst (λ v. IsDone v (wake_loop keys (pop_event key self).1)) same
          (loop-IsDone key keys (pop_event key self).1 kept))
  | inr gt ↦
      subst (IsDone self.value) (sym (if_false (leb key self.value) _ _ gt))
        (refl, put_heap lo (key ∷ keys) self good (ground (arith, gt), good.sorted.1), refl)
]

-- A value that is not below the present one becomes the value.
pub set-IsDone :
    (v : ℕ) (self : CounterLock) → IsWhole self → self.value ≤ v → IsDone v (set_value v self)
unfolding set_value
set-IsDone v self whole le = elim (Bool-cases (ltb self.value v)) [
  | inl lt ↦ subst (IsDone v) (sym (if_true (ltb self.value v) _ _ lt)) (
      loop-IsDone self.value self.heap (record self { value = v })
        (record {
          sorted = whole.sorted;
          aligned = whole.aligned;
          waits = whole.waits;
          belongs = whole.belongs;
          reached = λ f k e. omega (arith, le, whole.reached f k e);
          fresh = whole.fresh;
        }))
  | inr ge ↦
      subst (IsDone v)
        (sym (
          if_false (ltb self.value v) _ _ ge
          ∙ if_false (ltb v self.value) _ _ (ground (arith, le))))
        (refl, whole, ground (arith, le, ge))
]

pub set_below :
    (v : ℕ) (self : CounterLock) → v < self.value → set_value v self ≡ (err value_error, self)
unfolding set_value
set_below v self h =
    if_false (ltb self.value v) _ _ (ground (arith, h))
    ∙ if_true (ltb v self.value) _ _ (ground (arith, h))
