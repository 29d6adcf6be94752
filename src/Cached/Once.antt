-- ===== src/Cached/Once.antt =====
-- How often the getter of a cached property of a_sync/a_sync/property.pyx runs.
use ez_a_sync.Prelude.{
  ℕ, suc, ◌<◌, ◌≡◌, ◌⊎◌, refl, sym, ap, ◌∙◌, subst, Bool, true, false, List, [], ◌∷◌, Option, none,
  some, Exn, inl, inr, ◌==◌, ltb, if◌then◌else◌, Bool-cases, all, arith,
}
use ez_a_sync.Gather.{Outcome, finished, failed, cancelled}
use ez_a_sync.Smart.{update}
use ez_a_sync.Smart.Steps.{at_update}
use ez_a_sync.Cached.{
  Caller, absent, waiting, awaiting, got, raised, CacheState, Event, call, grant, resume, done,
  cancel, with_caller, look_up, arrive, enter, acquire, loaded, go_on, task_after, interrupt,
  end_task, step, run, init,
}
use ez_a_sync.Cached.Agreed.{IsKept, init-IsKept, step-IsKept, run-IsKept}

module _ {V : Type 0} where
  -- The getter raised, or its task was cancelled.
  abbrev pub has_failed : Option (Outcome V) → Bool
  has_failed (some (failed e)) = true
  has_failed (some cancelled) = true
  has_failed _ = false

  abbrev pub is_calm : Event V → Bool
  is_calm (cancel c) = false
  is_calm _ = true

  record IsOnce (self : CacheState V) : Type 0 where
    redone : (i : ℕ) → suc i < self.created → has_failed (self.outcome i) ≡ true
    vacant :
        (i : ℕ)
        → self.task ≡ none
        → self.cache ≡ none
        → suc i ≡ self.created
        → has_failed (self.outcome i) ≡ true

  module _ (c : ℕ) (self : CacheState V) (h : IsOnce self) where
    caller-IsOnce : (x : Caller V) → IsOnce (with_caller c x self)
    caller-IsOnce x = record { redone = h.redone; vacant = h.vacant }

    arrive-IsOnce : (x : Caller V) → IsOnce (arrive c x self)
    arrive-IsOnce absent = found self.cache
      where
        found : (o : Option V) → IsOnce (look_up c o self)
        found none = caller-IsOnce waiting
        found (some v) = caller-IsOnce (got v)
    arrive-IsOnce waiting = h
    arrive-IsOnce (awaiting i) = h
    arrive-IsOnce (got v) = h
    arrive-IsOnce (raised x) = h

    enter-IsOnce :
        (o : Option V) (t : Option ℕ) → self.cache ≡ o → self.task ≡ t → IsOnce (enter c o t self)
    enter-IsOnce (some v) t e f = caller-IsOnce (got v)
    enter-IsOnce none (some i) e f = record { redone = h.redone; vacant = h.vacant }
    enter-IsOnce none none e f = record {
      redone = λ i l. elim (Bool-cases (suc i == self.created)) [
        | inl last ↦ h.vacant i f e (ground (arith, last))
        | inr before ↦ h.redone i (ground (arith, l, before))
      ];
      vacant = λ i n. cc;
    }

    acquire-IsOnce : (x : Caller V) (o : Option ℕ) → IsOnce (acquire c x o self)
    acquire-IsOnce waiting none = enter-IsOnce self.cache self.task refl refl
    acquire-IsOnce waiting (some d) = h
    acquire-IsOnce absent o = h
    acquire-IsOnce (awaiting i) o = h
    acquire-IsOnce (got v) o = h
    acquire-IsOnce (raised x) o = h

    module _ (k : IsKept self) where
      -- The task that has failed is the latest one.
      failed_last :
          (i j : ℕ) (o : Outcome V)
          → self.caller c ≡ awaiting i
          → self.outcome i ≡ some o
          → has_failed (some o) ≡ true
          → suc j ≡ self.created
          → has_failed (self.outcome j) ≡ true
      failed_last i j o e f b n =
          let last = (k.latest i (k.holds c i e).1).1 in
          let same : i ≡ j = omega (arith, last, n) in
          ap (λ (l : ℕ). has_failed (self.outcome l)) (sym same) ∙ ap has_failed f ∙ b

      loaded-IsOnce :
          (i : ℕ) (o : Option (Outcome V))
          → self.caller c ≡ awaiting i
          → self.outcome i ≡ o
          → IsOnce (loaded c o self)
      loaded-IsOnce i none e f = h
      loaded-IsOnce i (some (finished v)) e f = record { redone = h.redone; vacant = λ j n m. cc }
      loaded-IsOnce i (some (failed x)) e f = record {
        redone = h.redone;
        vacant = λ j n m l. failed_last i j (failed x) e f refl l;
      }
      loaded-IsOnce i (some cancelled) e f = record {
        redone = h.redone;
        vacant = λ j n m l. failed_last i j cancelled e f refl l;
      }

      go_on-IsOnce : (x : Caller V) → self.caller c ≡ x → IsOnce (go_on c x self)
      go_on-IsOnce (awaiting i) e = loaded-IsOnce i (self.outcome i) e refl
      go_on-IsOnce absent e = h
      go_on-IsOnce waiting e = h
      go_on-IsOnce (got v) e = h
      go_on-IsOnce (raised x) e = h

  -- What has failed stays failed.
  stays_failed :
      (i : ℕ) (o : Outcome V) (self : CacheState V)
      → self.outcome i ≡ none
      → (j : ℕ) → has_failed (self.outcome j) ≡ true
      → has_failed (update self.outcome i (some o) j) ≡ true
  stays_failed i o self z j e =
      at_update (λ l x. has_failed (self.outcome l) ≡ true → has_failed x ≡ true) self.outcome i
        (some o) (λ n. cc (n, ap has_failed z)) (λ l m n. n) j e

  end_task-IsOnce :
      (i : ℕ) (o : Outcome V) (s : Option (Outcome V)) (self : CacheState V)
      → self.outcome i ≡ s
      → IsOnce self
      → IsOnce (end_task i o s self)
  end_task-IsOnce i o none self z h = elim (Bool-cases (ltb i self.created)) [
    | inl e ↦
        subst
          (λ (b : Bool).
            IsOnce (if b then record self { outcome = update self.outcome i (some o) } else self))
          (sym e)
          (record {
            redone = λ j l. stays_failed i o self z j (h.redone j l);
            vacant = λ j n m l. stays_failed i o self z j (h.vacant j n m l);
          })
    | inr e ↦
        subst
          (λ (b : Bool).
            IsOnce (if b then record self { outcome = update self.outcome i (some o) } else self))
          (sym e) h
  ]
  end_task-IsOnce i o (some _) self z h = h

  step-IsOnce :
      (e : Event V) (self : CacheState V)
      → is_calm e ≡ true
      → IsKept self
      → IsOnce self
      → IsOnce (step e self)
  unfolding step
  step-IsOnce (call c) self n k h = arrive-IsOnce c self h (self.caller c)
  step-IsOnce (grant c) self n k h = acquire-IsOnce c self h (self.caller c) self.owner
  step-IsOnce (resume c) self n k h = go_on-IsOnce c self h k (self.caller c) refl
  step-IsOnce (done i o) self n k h = end_task-IsOnce i o (self.outcome i) self refl h
  step-IsOnce (cancel c) self n k h = cc

  run-IsOnce :
      (es : List (Event V)) (self : CacheState V)
      → all is_calm es ≡ true
      → IsKept self
      → IsOnce self
      → IsOnce (run es self)
  unfolding run
  run-IsOnce [] self n k h = h
  run-IsOnce (e ∷ es) self n k h =
      let calm : is_calm e ≡ true = ground (arith, n) in
      run-IsOnce es (step e self) (ground (arith, n)) (step-IsKept e self k)
        (step-IsOnce e self calm k h)

  failures :
      (o : Option (Outcome V))
      → has_failed o ≡ true
      → ((e : Exn) × (o ≡ some (failed e))) ⊎ (o ≡ some cancelled)
  failures none e = cc
  failures (some (finished v)) e = cc
  failures (some (failed x)) e = inl (x, refl)
  failures (some cancelled) e = inr refl

  -- As long as no caller is cancelled, the getter is run again only after it has raised or its
  -- task has been cancelled, however many callers there are.
  pub getter_once :
      (es : List (Event V)) (i : ℕ)
      → all is_calm es ≡ true
      → suc i < (run es init).created
      → ((e : Exn) × ((run es init).outcome i ≡ some (failed e)))
        ⊎ ((run es init).outcome i ≡ some cancelled)
  getter_once es i n l =
      let h = run-IsOnce es init n init-IsKept (record {
        redone = λ j m. absurd (omega arith);
        vacant = λ j a b m. absurd (omega arith);
      }) in
      failures ((run es init).outcome i) (h.redone i l)

  -- After any run, if the caller that waits for the task is cancelled when the getter has
  -- already returned, the value is neither cached nor kept in its task, and the lock is free.
  pub value_dropped :
      (es : List (Event V)) (c i : ℕ) (v : V)
      → (run es init).caller c ≡ awaiting i
      → (run es init).outcome i ≡ some (finished v)
      → ((step (cancel c) (run es init)).cache ≡ none)
        × ((step (cancel c) (run es init)).task ≡ none)
        × ((step (cancel c) (run es init)).owner ≡ none)
  unfolding step
  value_dropped es c i v e f =
      let self = run es init in
      let k = run-IsKept es init init-IsKept in
      let empty = (k.latest i (k.holds c i e).1).0 in
      subst
        (λ (x : Caller V).
          ((interrupt c x self).cache ≡ none)
          × ((interrupt c x self).task ≡ none)
          × ((interrupt c x self).owner ≡ none))
        (sym e) (empty, ap (λ (o : Option (Outcome V)). task_after o self.task) f, refl)
