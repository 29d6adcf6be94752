-- ===== src/Persisted/Held.antt =====
-- What create_task of a_sync/asyncio/create_task.pyx keeps from the garbage collector.
use ez_a_sync.Prelude.{
  ℕ, ◌<◌, ◌≡◌, ◌≢◌, refl, sym, ap, ◌∙◌, subst, Bool, true, false, List, [], ◌∷◌, Option, none, some,
  Exn, inl, inr, ltb, if◌then◌else◌, Bool-cases, arith,
}
use ez_a_sync.Gather.{Outcome}
use ez_a_sync.Smart.{update}
use ez_a_sync.Smart.Steps.{at_update}
use ez_a_sync.Persisted.{
  End, returned, stopped, persisted_exception, bare, Wrapper, missing, running, handled, ended,
  Tasks, Event, create, finish, wake, callback, ccreate_task, finish_task, persisted_task_callback,
  persisted_task_exc_wrap, go_on, step, run, init,
}

update_same : {A : Type 0} (f : ℕ → A) (i : ℕ) (v : A) → update f i v i ≡ v
update_same f i v =
    at_update (λ j y. j ≡ i → y ≡ v) f i v (λ e. refl) (λ j m e. absurd (m e)) i refl

update_other : {A : Type 0} (f : ℕ → A) (i : ℕ) (v : A) (j : ℕ) → j ≢ i → update f i v j ≡ f j
update_other f i v j n =
    at_update (λ k y. k ≢ i → y ≡ f k) f i v (λ m. absurd (m refl)) (λ k m l. refl) j n

module _ {V : Type 0} where
  -- Task `i` is persisted until it is done.
  IsHeld : ℕ → Tasks V → Type 0
  IsHeld i self =
      (i < self.created)
      × (self.outcome i ≡ none → (self.wrapper i ≡ running) × (self.persisted i ≡ true))

  created-IsHeld : (self : Tasks V) → IsHeld self.created (ccreate_task true self).1
  unfolding IsHeld ccreate_task
  created-IsHeld self = (
    omega arith,
    λ e. (
      update_same self.wrapper self.created running,
      update_same self.persisted self.created true,
    ),
  )

  create-IsHeld :
      (i : ℕ) (skip : Bool) (self : Tasks V) → IsHeld i self → IsHeld i (ccreate_task skip self).1
  unfolding IsHeld ccreate_task
  create-IsHeld i false self (l, h) = (omega arith, h)
  create-IsHeld i true self (l, h) =
      let n : i ≢ self.created = λ e. absurd (omega arith) in
      (
        omega arith,
        λ e. (
          update_other self.wrapper self.created running i n ∙ (h e).0,
          update_other self.persisted self.created true i n ∙ (h e).1,
        ),
      )

  finish-IsHeld :
      (i j : ℕ) (o : Outcome V) (s : Option (Outcome V)) (self : Tasks V)
      → IsHeld i self
      → self.outcome j ≡ s
      → IsHeld i (finish_task j o s self)
  unfolding IsHeld
  finish-IsHeld i j o (some _) self h e = h
  finish-IsHeld i j o none self h e = elim (Bool-cases (ltb j self.created)) [
    | inl t ↦
        subst
          (λ (b : Bool).
            IsHeld i (if b then record self { outcome = update self.outcome j (some o) } else self))
          (sym t)
          (
            h.0,
            at_update
                (λ k y.
                  IsHeld k self → y ≡ none → (self.wrapper k ≡ running) × (self.persisted k ≡ true))
                self.outcome j (some o) (λ w n. cc) (λ k m w n. w.1 n) i h,
          )
    | inr t ↦
        subst
          (λ (b : Bool).
            IsHeld i (if b then record self { outcome = update self.outcome j (some o) } else self))
          (sym t) h
  ]

  callback-IsHeld :
      (i j : ℕ) (w : Wrapper) (self : Tasks V)
      → IsHeld i self
      → self.wrapper j ≡ w
      → IsHeld i (persisted_task_callback j w self)
  unfolding IsHeld
  callback-IsHeld i j (ended end) self (l, h) e = ended_now end
    where
      both :
          self.outcome i ≡ none
          → (update self.wrapper j handled i ≡ running) × (update self.persisted j false i ≡ true)
      both n =
          let m : i ≢ j = λ f. cc (e, (h n).0, ap self.wrapper f) in
          (
            update_other self.wrapper j handled i m ∙ (h n).0,
            update_other self.persisted j false i m ∙ (h n).1,
          )

      ended_now : (x : End) → IsHeld i (persisted_task_callback j (ended x) self)
      ended_now returned = (l, both)
      ended_now stopped = (l, both)
      ended_now (persisted_exception x) = (l, both)
      ended_now (bare x) = (l, both)
  callback-IsHeld i j missing self h e = h
  callback-IsHeld i j running self h e = h
  callback-IsHeld i j handled self h e = h

  module _ (is_exception : Exn → Bool) where
    wake-IsHeld :
        (i j : ℕ) (w : Wrapper) (s : Option (Outcome V)) (self : Tasks V)
        → IsHeld i self
        → self.outcome j ≡ s
        → IsHeld i (go_on is_exception j w s self)
    unfolding IsHeld
    wake-IsHeld i j running (some o) self (l, h) e = (
      l,
      λ n.
          let m : i ≢ j = λ f. cc (e, n, f) in
          (
            update_other self.wrapper j (ended (persisted_task_exc_wrap is_exception o)) i m
                ∙ (h n).0,
            (h n).1,
          ),
    )
    wake-IsHeld i j running none self h e = h
    wake-IsHeld i j missing s self h e = h
    wake-IsHeld i j handled s self h e = h
    wake-IsHeld i j (ended x) s self h e = h

    step-IsHeld :
        (i : ℕ) (e : Event V) (self : Tasks V) → IsHeld i self → IsHeld i (step is_exception e self)
    unfolding step
    step-IsHeld i (create skip) self h = create-IsHeld i skip self h
    step-IsHeld i (finish j o) self h = finish-IsHeld i j o (self.outcome j) self h refl
    step-IsHeld i (wake j) self h = wake-IsHeld i j (self.wrapper j) (self.outcome j) self h refl
    step-IsHeld i (callback j) self h = callback-IsHeld i j (self.wrapper j) self h refl

    run-IsHeld :
        (i : ℕ) (es : List (Event V)) (self : Tasks V)
        → IsHeld i self
        → IsHeld i (run is_exception es self)
    unfolding run
    run-IsHeld i [] self h = h
    run-IsHeld i (e ∷ es) self h =
        run-IsHeld i es (step is_exception e self) (step-IsHeld i e self h)

    -- A task that is created with `skip_gc_until_done` is persisted as long as it is not done,
    -- whatever else is created and ends.
    pub persisted_until_done :
        (es fs : List (Event V))
        → (run is_exception fs (ccreate_task true (run is_exception es init)).1).outcome
            (run is_exception es init).created
          ≡ none
        → (run is_exception fs (ccreate_task true (run is_exception es init)).1).persisted
            (run is_exception es init).created
          ≡ true
    unfolding IsHeld
    persisted_until_done es fs e =
        let self = run is_exception es init in
        ((run-IsHeld self.created fs (ccreate_task true self).1 (created-IsHeld self)).1 e).1
