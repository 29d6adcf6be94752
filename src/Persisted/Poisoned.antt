-- ===== src/Persisted/Poisoned.antt =====
-- An exception that create_task of a_sync/asyncio/create_task.pyx goes on raising.
use ez_a_sync.Prelude.{
  ℕ, suc, ◌≡◌, refl, sym, ap, ◌∙◌, subst, Bool, true, false, List, [], ◌∷◌, Option, none, some, Exn,
  err, inl, inr, ltb, if◌then◌else◌, Bool-cases,
}
use ez_a_sync.Gather.{Outcome}
use ez_a_sync.Smart.{update}
use ez_a_sync.Persisted.{
  returned, stopped, persisted_exception, bare, Wrapper, missing, running, handled, ended, Tasks,
  Event, create, finish, wake, callback, raise_first, ccreate_task, finish_task,
  persisted_task_callback, go_on, step, run, init,
}

raise_some :
    (p : ℕ × Exn) (xs ys : List (ℕ × Exn)) (i : ℕ)
    → ys ≡ p ∷ xs
    → (e : Exn) × (raise_first ys i ≡ err e)
raise_some (j, e) xs ys i h = (e, ap (λ (zs : List (ℕ × Exn)). raise_first zs i) h)

module _ {V : Type 0} (is_exception : Exn → Bool) where
  -- Every later call of `create_task` raises.
  Raises : Tasks V → Type 0
  Raises self = (p : ℕ × Exn) × (xs : List (ℕ × Exn)) × (self.exceptions ≡ p ∷ xs)

  callback-Raises :
      (j : ℕ) (w : Wrapper) (self : Tasks V)
      → Raises self
      → Raises (persisted_task_callback j w self)
  unfolding Raises
  callback-Raises j (ended (bare x)) self h = ((j, x), self.exceptions, refl)
  callback-Raises j (ended returned) self h = h
  callback-Raises j (ended stopped) self h = h
  callback-Raises j (ended (persisted_exception x)) self h = h
  callback-Raises j missing self h = h
  callback-Raises j running self h = h
  callback-Raises j handled self h = h

  -- Of the events, only a callback changes what is raised.
  finish-exceptions :
      (j : ℕ) (o : Outcome V) (s : Option (Outcome V)) (self : Tasks V)
      → (finish_task j o s self).exceptions ≡ self.exceptions
  finish-exceptions j o (some _) self = refl
  finish-exceptions j o none self = elim (Bool-cases (ltb j self.created)) [
    | inl b ↦
        subst
          (λ (c : Bool).
            (if c
              then record self { outcome = update self.outcome j (some o) }
              else self).exceptions
            ≡ self.exceptions)
          (sym b) refl
    | inr b ↦
        subst
          (λ (c : Bool).
            (if c
              then record self { outcome = update self.outcome j (some o) }
              else self).exceptions
            ≡ self.exceptions)
          (sym b) refl
  ]

  go_on-exceptions :
      (j : ℕ) (w : Wrapper) (s : Option (Outcome V)) (self : Tasks V)
      → (go_on is_exception j w s self).exceptions ≡ self.exceptions
  go_on-exceptions j running (some o) self = refl
  go_on-exceptions j running none self = refl
  go_on-exceptions j missing s self = refl
  go_on-exceptions j handled s self = refl
  go_on-exceptions j (ended x) s self = refl

  create-exceptions :
      (skip : Bool) (self : Tasks V) → (ccreate_task skip self).1.exceptions ≡ self.exceptions
  unfolding ccreate_task
  create-exceptions false self = refl
  create-exceptions true self = refl

  step-Raises : (e : Event V) (self : Tasks V) → Raises self → Raises (step is_exception e self)
  unfolding step Raises
  step-Raises (create skip) self (p, xs, h) = (p, xs, create-exceptions skip self ∙ h)
  step-Raises (finish j o) self (p, xs, h) =
      (p, xs, finish-exceptions j o (self.outcome j) self ∙ h)
  step-Raises (wake j) self (p, xs, h) =
      (p, xs, go_on-exceptions j (self.wrapper j) (self.outcome j) self ∙ h)
  step-Raises (callback j) self h = callback-Raises j (self.wrapper j) self h

  run-Raises :
      (es : List (Event V)) (self : Tasks V) → Raises self → Raises (run is_exception es self)
  unfolding run
  run-Raises [] self h = h
  run-Raises (e ∷ es) self h = run-Raises es (step is_exception e self) (step-Raises e self h)

  -- After any run, when a persisted task has raised what is no instance of Exception and its
  -- callback has run, every later call of `create_task` raises, whatever happens before it; its
  -- task has been created all the same.
  pub create_task_raises :
      (es fs : List (Event V)) (i : ℕ) (x : Exn) (skip : Bool)
      → (run is_exception es init).wrapper i ≡ ended (bare x)
      → ((e : Exn) × ((ccreate_task skip
              (run is_exception fs (step is_exception (callback i) (run is_exception es init)))).0
            ≡ err e))
        × ((ccreate_task skip (
              run is_exception fs
                (step is_exception (callback i) (run is_exception es init)))).1.created
            ≡ suc
                (run is_exception fs
                  (step is_exception (callback i) (run is_exception es init))).created)
  unfolding ccreate_task step Raises
  create_task_raises es fs i x skip e =
      let self = run is_exception es init in
      let later : Tasks V = run is_exception fs (step is_exception (callback i) self) in
      let h : Raises later = run-Raises fs (step is_exception (callback i) self) (
        subst (λ (w : Wrapper). Raises (persisted_task_callback i w self)) (sym e)
          ((i, x), self.exceptions, refl)) in
      (raise_some h.0 h.1 later.exceptions later.created h.2, refl)
