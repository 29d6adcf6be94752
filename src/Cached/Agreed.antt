-- ===== src/Cached/Agreed.antt =====
-- The callers of a cached property of a_sync/a_sync/property.pyx get one value.
use ez_a_sync.Prelude.{
  ℕ, suc, ◌≡◌, ◌≢◌, refl, sym, ap, ◌∙◌, subst, Bool, List, [], ◌∷◌, Option, none, some,
  cancelled_error, inl, inr, Bool-cases, ltb, if◌then◌else◌,
}
use ez_a_sync.Gather.{Outcome, finished, failed, cancelled}
use ez_a_sync.Smart.{update}
use ez_a_sync.Smart.Steps.{at_update}
use ez_a_sync.Cached.{
  Caller, absent, waiting, awaiting, got, raised, CacheState, Event, call, grant, resume, done,
  cancel, with_caller, look_up, arrive, enter, acquire, loaded, go_on, task_after, interrupt,
  end_task, step, run, init,
}

some_inj : {A : Type 0} {a b : A} → some a ≡ some b → a ≡ b
some_inj e = cc

module _ {V : Type 0} where
  pub record IsKept (self : CacheState V) : Type 0 where
    -- who waits for the task holds the lock
    pub holds :
        (c i : ℕ) → self.caller c ≡ awaiting i → (self.owner ≡ some c) × (self.task ≡ some i)
    -- the task is the latest one
    pub latest : (i : ℕ) → self.task ≡ some i → (self.cache ≡ none) × (suc i ≡ self.created)
    pub cached : (c : ℕ) (v : V) → self.caller c ≡ got v → self.cache ≡ some v

  pub init-IsKept : IsKept (init {V = V})
  init-IsKept = record { holds = λ c i e. cc; latest = λ i e. cc; cached = λ c v e. cc }

  module _ (c : ℕ) (self : CacheState V) (h : IsKept self) where
    -- Caller `c` changes, and is not one that waits for the task.
    caller-IsKept :
        (x : Caller V)
        → ((i : ℕ) → x ≢ awaiting i)
        → ((v : V) → x ≡ got v → self.cache ≡ some v)
        → IsKept (with_caller c x self)
    caller-IsKept x n g = record {
      holds = λ d i.
          at_update (λ k y. y ≡ awaiting i → (self.owner ≡ some k) × (self.task ≡ some i))
            self.caller c x (λ e. absurd (n i e)) (λ k m. h.holds k i) d;
      latest = h.latest;
      cached = λ d v.
          at_update (λ k y. y ≡ got v → self.cache ≡ some v) self.caller c x (g v)
            (λ k m. h.cached k v) d;
    }

    arrive-IsKept : (x : Caller V) → IsKept (arrive c x self)
    arrive-IsKept absent = found self.cache refl
      where
        found : (o : Option V) → self.cache ≡ o → IsKept (look_up c o self)
        found none e = caller-IsKept waiting (λ i. λ n. cc) (λ v n. cc)
        found (some v) e = caller-IsKept (got v) (λ i. λ n. cc) (λ w n. cc (e, n))
    arrive-IsKept waiting = h
    arrive-IsKept (awaiting i) = h
    arrive-IsKept (got v) = h
    arrive-IsKept (raised x) = h

    -- Nobody waits for the task while the lock is free.
    none_awaits : self.owner ≡ none → (d i : ℕ) → self.caller d ≢ awaiting i
    none_awaits f d i e = cc (f, (h.holds d i e).0)

    enter-IsKept :
        (o : Option V) (t : Option ℕ)
        → self.cache ≡ o
        → self.task ≡ t
        → self.owner ≡ none
        → IsKept (enter c o t self)
    enter-IsKept (some v) t e f z = caller-IsKept (got v) (λ i. λ n. cc) (λ w n. cc (e, n))
    enter-IsKept none (some i) e f z = record {
      holds = λ d j.
          at_update (λ k y. y ≡ awaiting j → (some c ≡ some k) × (self.task ≡ some j)) self.caller c
            (awaiting i) (λ n. (refl, cc (f, n))) (λ k m n. absurd (none_awaits z k j n)) d;
      latest = h.latest;
      cached = λ d v.
          at_update (λ k y. y ≡ got v → self.cache ≡ some v) self.caller c (awaiting i) (λ n. cc)
            (λ k m. h.cached k v) d;
    }
    enter-IsKept none none e f z = record {
      holds = λ d j.
          at_update (λ k y. y ≡ awaiting j → (some c ≡ some k) × (some self.created ≡ some j))
            self.caller c (awaiting self.created) (λ n. (refl, cc n))
            (λ k m n. absurd (none_awaits z k j n)) d;
      latest = λ i n. (e, ap suc (sym (some_inj n)));
      cached = λ d v.
          at_update (λ k y. y ≡ got v → self.cache ≡ some v) self.caller c (awaiting self.created)
            (λ n. cc) (λ k m. h.cached k v) d;
    }

    acquire-IsKept : (x : Caller V) (o : Option ℕ) → self.owner ≡ o → IsKept (acquire c x o self)
    acquire-IsKept waiting none z = enter-IsKept self.cache self.task refl refl z
    acquire-IsKept waiting (some d) z = h
    acquire-IsKept absent o z = h
    acquire-IsKept (awaiting i) o z = h
    acquire-IsKept (got v) o z = h
    acquire-IsKept (raised x) o z = h

    -- Caller `c`, which held the lock, ends.
    released :
        (i : ℕ) (x : Caller V) (o : Option V) (t : Option ℕ)
        → self.caller c ≡ awaiting i
        → ((j : ℕ) → x ≢ awaiting j)
        → ((v : V) → x ≡ got v → o ≡ some v)
        → ((j : ℕ) → t ≡ some j → (o ≡ none) × (suc j ≡ self.created))
        → IsKept (record (with_caller c x self) { cache = o; task = t; owner = none })
    released i x o t e n g l = record {
      holds = λ d j.
          at_update (λ k y. y ≡ awaiting j → (none ≡ some k) × (t ≡ some j)) self.caller c x
            (λ m. absurd (n j m))
            (λ k m w. absurd (m (some_inj (sym (h.holds k j w).0 ∙ (h.holds c i e).0)))) d;
      latest = l;
      cached = λ d v.
          at_update (λ k y. y ≡ got v → o ≡ some v) self.caller c x (g v)
            (λ k m w. cc (h.cached k v w, (h.latest i (h.holds c i e).1).0)) d;
    }

    loaded-IsKept :
        (i : ℕ) (o : Option (Outcome V)) → self.caller c ≡ awaiting i → IsKept (loaded c o self)
    loaded-IsKept i none e = h
    loaded-IsKept i (some (finished v)) e =
        released i (got v) (some v) none e (λ j n. cc) (λ w n. cc n) (λ j n. cc)
    loaded-IsKept i (some (failed x)) e =
        released i (raised x) self.cache none e (λ j n. cc) (λ w n. cc) (λ j n. cc)
    loaded-IsKept i (some cancelled) e =
        released i (raised cancelled_error) self.cache none e (λ j n. cc) (λ w n. cc) (λ j n. cc)

    go_on-IsKept : (x : Caller V) → self.caller c ≡ x → IsKept (go_on c x self)
    go_on-IsKept (awaiting i) e = loaded-IsKept i (self.outcome i) e
    go_on-IsKept absent e = h
    go_on-IsKept waiting e = h
    go_on-IsKept (got v) e = h
    go_on-IsKept (raised x) e = h

    kept_task :
        (o : Option (Outcome V)) (j : ℕ)
        → task_after o self.task ≡ some j
        → (self.cache ≡ none) × (suc j ≡ self.created)
    kept_task none j e = h.latest j e
    kept_task (some o) j e = cc

    interrupt-IsKept : (x : Caller V) → self.caller c ≡ x → IsKept (interrupt c x self)
    interrupt-IsKept waiting e = caller-IsKept (raised cancelled_error) (λ i n. cc) (λ v n. cc)
    interrupt-IsKept (awaiting i) e =
        released i (raised cancelled_error) self.cache (task_after (self.outcome i) self.task) e
          (λ j n. cc) (λ w n. cc) (kept_task (self.outcome i))
    interrupt-IsKept absent e = h
    interrupt-IsKept (got v) e = h
    interrupt-IsKept (raised x) e = h

  end_task-IsKept :
      (i : ℕ) (o : Outcome V) (s : Option (Outcome V)) (self : CacheState V)
      → IsKept self
      → IsKept (end_task i o s self)
  end_task-IsKept i o none self h = elim (Bool-cases (ltb i self.created)) [
    | inl e ↦
        subst
          (λ (b : Bool).
            IsKept (if b then record self { outcome = update self.outcome i (some o) } else self))
          (sym e) (record { holds = h.holds; latest = h.latest; cached = h.cached })
    | inr e ↦
        subst
          (λ (b : Bool).
            IsKept (if b then record self { outcome = update self.outcome i (some o) } else self))
          (sym e) h
  ]
  end_task-IsKept i o (some _) self h = h

  pub step-IsKept : (e : Event V) (self : CacheState V) → IsKept self → IsKept (step e self)
  unfolding step
  step-IsKept (call c) self h = arrive-IsKept c self h (self.caller c)
  step-IsKept (grant c) self h = acquire-IsKept c self h (self.caller c) self.owner refl
  step-IsKept (resume c) self h = go_on-IsKept c self h (self.caller c) refl
  step-IsKept (done i o) self h = end_task-IsKept i o (self.outcome i) self h
  step-IsKept (cancel c) self h = interrupt-IsKept c self h (self.caller c) refl

  pub run-IsKept : (es : List (Event V)) (self : CacheState V) → IsKept self → IsKept (run es self)
  unfolding run
  run-IsKept [] self h = h
  run-IsKept (e ∷ es) self h = run-IsKept es (step e self) (step-IsKept e self h)

  -- Whatever callers, the lock and the getter do, two callers that have got a value have got the
  -- same one, and it is the cached one.
  pub one_value :
      (es : List (Event V)) (c d : ℕ) (v w : V)
      → (run es init).caller c ≡ got v
      → (run es init).caller d ≡ got w
      → (v ≡ w) × ((run es init).cache ≡ some v)
  one_value es c d v w e f =
      let h = run-IsKept es init init-IsKept in
      let x = h.cached c v e in (some_inj (sym x ∙ h.cached d w f), x)
