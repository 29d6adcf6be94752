-- ===== src/Persisted/Raising.antt =====
-- What create_task of a_sync/asyncio/create_task.pyx raises.
use ez_a_sync.Prelude.{
  ℕ, ◌≡◌, ◌≢◌, refl, sym, ap, ◌∙◌, subst, Bool, true, false, List, [], ◌∷◌, Option, none, some, Exn,
  ok, inl, inr, ltb, if◌then◌else◌, Bool-cases, all, arith,
}
use ez_a_sync.Gather.{Outcome, finished, failed, cancelled}
use ez_a_sync.Smart.{update}
use ez_a_sync.Smart.Steps.{at_update}
use ez_a_sync.Persisted.{
  returned, stopped, persisted_exception, bare, Wrapper, missing, running, handled, ended, Tasks,
  Event, create, finish, wake, callback, raise_first, ccreate_task, finish_task,
  persisted_task_callback, persisted_task_exc_wrap, go_on, step, run, init,
}

-- The coroutine of the task raises nothing but instances of Exception.
abbrev pub is_tame : {V : Type 0} → (Exn → Bool) → Event V → Bool
is_tame is_exception (finish i (failed e)) = is_exception e
is_tame is_exception _ = true

not_bare :
    {V : Type 0} (is_exception : Exn → Bool) (o : Outcome V) (e : Exn)
    → ((x : Exn) → o ≡ failed x → is_exception x ≡ true)
    → persisted_task_exc_wrap is_exception o ≢ bare e
not_bare p (finished v) e h n = cc
not_bare p cancelled e h n = cc
not_bare p (failed x) e h n =
    subst (λ (b : Bool). (if b then persisted_exception x else bare x) ≢ bare e) (sym (h x refl))
      (λ m. cc) n

module _ {V : Type 0} (is_exception : Exn → Bool) where
  record IsTame (self : Tasks V) : Type 0 where
    empty : self.exceptions ≡ []
    clean : (i : ℕ) (e : Exn) → self.wrapper i ≢ ended (bare e)
    exact : (i : ℕ) (e : Exn) → self.outcome i ≡ some (failed e) → is_exception e ≡ true

  create-IsTame : (skip : Bool) (self : Tasks V) → IsTame self → IsTame (ccreate_task skip self).1
  unfolding ccreate_task
  create-IsTame false self h = record { empty = h.empty; clean = h.clean; exact = h.exact }
  create-IsTame true self h = record {
    empty = h.empty;
    clean = λ i e.
        at_update (λ k y. y ≢ ended (bare e)) self.wrapper self.created running (λ n. cc)
          (λ k m. h.clean k e) i;
    exact = h.exact;
  }

  finish-IsTame :
      (j : ℕ) (o : Outcome V) (s : Option (Outcome V)) (self : Tasks V)
      → ((e : Exn) → o ≡ failed e → is_exception e ≡ true)
      → IsTame self
      → IsTame (finish_task j o s self)
  finish-IsTame j o (some _) self t h = h
  finish-IsTame j o none self t h = elim (Bool-cases (ltb j self.created)) [
    | inl b ↦
        subst
          (λ (c : Bool).
            IsTame (if c then record self { outcome = update self.outcome j (some o) } else self))
          (sym b)
          (record {
            empty = h.empty;
            clean = h.clean;
            exact = λ i e.
                at_update (λ k y. y ≡ some (failed e) → is_exception e ≡ true) self.outcome j
                  (some o) (λ n. t e (cc n)) (λ k m. h.exact k e) i;
          })
    | inr b ↦
        subst
          (λ (c : Bool).
            IsTame (if c then record self { outcome = update self.outcome j (some o) } else self))
          (sym b) h
  ]

  wake-IsTame :
      (j : ℕ) (w : Wrapper) (s : Option (Outcome V)) (self : Tasks V)
      → self.outcome j ≡ s
      → IsTame self
      → IsTame (go_on is_exception j w s self)
  wake-IsTame j running (some o) self e h = record {
    empty = h.empty;
    clean = λ i x.
        at_update (λ k y. y ≢ ended (bare x)) self.wrapper j
          (ended (persisted_task_exc_wrap is_exception o))
          (λ n. not_bare is_exception o x (λ z m. h.exact j z (e ∙ ap some m)) (cc n))
          (λ k m. h.clean k x) i;
    exact = h.exact;
  }
  wake-IsTame j running none self e h = h
  wake-IsTame j missing s self e h = h
  wake-IsTame j handled s self e h = h
  wake-IsTame j (ended x) s self e h = h

  -- The callback of `j` has run, and has added nothing to the exceptions.
  handled-IsTame :
      (j : ℕ) (es : List Exn) (self : Tasks V)
      → IsTame self
      → IsTame (record self {
        wrapper = update self.wrapper j handled;
        persisted = update self.persisted j false;
        reported = es;
      })
  handled-IsTame j es self h = record {
    empty = h.empty;
    clean = λ i x.
        at_update (λ k y. y ≢ ended (bare x)) self.wrapper j handled (λ n. cc) (λ k m. h.clean k x)
          i;
    exact = h.exact;
  }

  callback-IsTame :
      (j : ℕ) (w : Wrapper) (self : Tasks V)
      → self.wrapper j ≡ w
      → IsTame self
      → IsTame (persisted_task_callback j w self)
  callback-IsTame j missing self e h = h
  callback-IsTame j running self e h = h
  callback-IsTame j handled self e h = h
  callback-IsTame j (ended (bare x)) self e h = absurd (h.clean j x e)
  callback-IsTame j (ended returned) self e h = handled-IsTame j self.reported self h
  callback-IsTame j (ended stopped) self e h = handled-IsTame j self.reported self h
  callback-IsTame j (ended (persisted_exception z)) self e h =
      handled-IsTame j (z ∷ self.reported) self h

  step-IsTame :
      (e : Event V) (self : Tasks V)
      → is_tame is_exception e ≡ true
      → IsTame self
      → IsTame (step is_exception e self)
  unfolding step
  step-IsTame (create skip) self t h = create-IsTame skip self h
  step-IsTame (finish j (failed x)) self t h =
      finish-IsTame j (failed x) (self.outcome j) self
        (λ e n. subst (λ (y : Exn). is_exception y ≡ true) (cc n) t) h
  step-IsTame (finish j (finished v)) self t h =
      finish-IsTame j (finished v) (self.outcome j) self (λ e n. cc) h
  step-IsTame (finish j cancelled) self t h =
      finish-IsTame j cancelled (self.outcome j) self (λ e n. cc) h
  step-IsTame (wake j) self t h = wake-IsTame j (self.wrapper j) (self.outcome j) self refl h
  step-IsTame (callback j) self t h = callback-IsTame j (self.wrapper j) self refl h

  run-IsTame :
      (es : List (Event V)) (self : Tasks V)
      → all (is_tame is_exception) es ≡ true
      → IsTame self
      → IsTame (run is_exception es self)
  unfolding run
  run-IsTame [] self t h = h
  run-IsTame (e ∷ es) self t h =
      let here : is_tame is_exception e ≡ true = ground (arith, t) in
      run-IsTame es (step is_exception e self) (ground (arith, t)) (step-IsTame e self here h)

  -- As long as the tasks raise nothing but instances of Exception, every call of `create_task`
  -- returns its new task, whatever the persisted tasks have raised.
  pub create_task_returns :
      (es : List (Event V)) (skip : Bool)
      → all (is_tame is_exception) es ≡ true
      → (ccreate_task skip (run is_exception es init)).0 ≡ ok (run is_exception es init).created
  unfolding ccreate_task
  create_task_returns es skip t =
      let self = run is_exception es init in
      let h =
        run-IsTame es init t (record { empty = refl; clean = λ i e n. cc; exact = λ i e n. cc }) in
      ap (λ (xs : List (ℕ × Exn)). raise_first xs self.created) h.empty
