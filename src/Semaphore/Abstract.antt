-- ===== src/Semaphore/Abstract.antt =====
-- a_sync/primitives/locks/semaphore.pyx: the semaphore as a counter of permits that are available
-- and permits that are held.
use ez_a_sync.Prelude.{
  ℕ, zero, suc, ◌+◌, ◌<◌, ◌≡◌, refl, sym, ap, subst, List, [], ◌∷◌, Option, none, some, get_elem?,
  Bool-cases, ◌⊎◌, inl, inr, arith,
}
use ez_a_sync.Semaphore.{
  Waiter, pending, granted, interrupted, cancelled, locked, acquire, World, Event, call_acquire,
  await_acquire, start, release_permit, cancel_task, resume_task, step, run, after_call,
  after_await, resume_at, cancel_at, start_one, release_one, resume,
}
use ez_a_sync.Semaphore.Counting.{free, permits, permits-step, when_locked, when_open}

pub record Counter : Type 0 where
  pub available : ℕ
  pub holders : ℕ

-- What a counting semaphore promises for each event. A call of `acquire` takes an available permit
-- or has to wait, as does one that is awaited at once; a waiter that is resumed takes a permit, or
-- goes on without one; a release gives back a permit that is held, if there is one. The start of a
-- coroutine that waits, and a cancellation, leave the permits as they are.
pub data CounterStep : Event → Counter → Counter → Type 0 where
  call_waits : (c : Counter) → CounterStep call_acquire c c
  call_takes :
      (a h : ℕ)
      → CounterStep call_acquire
          (record { available = suc a; holders = h })
          (record { available = a; holders = suc h })
  await_waits : (c : Counter) → CounterStep await_acquire c c
  await_takes :
      (a h : ℕ)
      → CounterStep await_acquire
          (record { available = suc a; holders = h })
          (record { available = a; holders = suc h })
  starts : (c : Counter) → CounterStep start c c
  gives :
      (a h : ℕ)
      → CounterStep release_permit
          (record { available = a; holders = suc h })
          (record { available = suc a; holders = h })
  gives_nothing :
      (a : ℕ)
      → CounterStep release_permit
          (record { available = a; holders = 0 })
          (record { available = a; holders = 0 })
  cancels : (n : ℕ) (c : Counter) → CounterStep (cancel_task n) c c
  resumes : (n : ℕ) (c : Counter) → CounterStep (resume_task n) c c
  resume_takes :
      (n a h : ℕ)
      → CounterStep
          (resume_task n)
          (record { available = suc a; holders = h })
          (record { available = a; holders = suc h })

-- One step of the counter for each event.
pub data CounterRun : List Event → Counter → Counter → Type 0 where
  no_step : (c : Counter) → CounterRun [] c c
  then_step :
      (e : Event) (es : List Event) (a b c : Counter)
      → CounterStep e a b
      → CounterRun es b c
      → CounterRun (e ∷ es) a c

abbrev pub counter : World → Counter
counter w = record { available = free w.sem; holders = w.held }

abbrev Takes : ℕ → ℕ → Type 0
Takes h h' = (h' ≡ h) ⊎ (h' ≡ suc h)

held-call : (w : World) → Takes w.held (after_call w (acquire w.sem)).held
held-call w = elim (Bool-cases (locked w.sem)) [
  | inl e ↦ inl (ap (λ r. (after_call w r).held) (when_locked w.sem e))
  | inr e ↦ inr (ap (λ r. (after_call w r).held) (when_open w.sem e))
]

held-await : (w : World) → Takes w.held (after_await w (acquire w.sem)).held
held-await w = elim (Bool-cases (locked w.sem)) [
  | inl e ↦ inl (ap (λ r. (after_await w r).held) (when_locked w.sem e))
  | inr e ↦ inr (ap (λ r. (after_await w r).held) (when_open w.sem e))
]

held-start : (w : World) (n : ℕ) → (start_one w n).held ≡ w.held
held-start w zero = refl
held-start w (suc n) = refl

held-cancel : (w : World) (n : ℕ) (o : Option Waiter) → (cancel_at w n o).held ≡ w.held
held-cancel w n none = refl
held-cancel w n (some x) = refl

held-resume : (w : World) (n : ℕ) (o : Option Waiter) → Takes w.held (resume_at w n o).held
unfolding resume
held-resume w n none = inl refl
held-resume w n (some pending) = inl refl
held-resume w n (some granted) = inr refl
held-resume w n (some interrupted) = inl refl
held-resume w n (some cancelled) = inl refl

-- A step from one counter to another that is given by equations.
at_counters :
    (P : Counter → Counter → Type 0) (f h g k f' h' g' k' : ℕ)
    → P (record { available = f'; holders = h' }) (record { available = g'; holders = k' })
    → f' ≡ f
    → h' ≡ h
    → g' ≡ g
    → k' ≡ k
    → P (record { available = f; holders = h }) (record { available = g; holders = k })
at_counters P f h g k f' h' g' k' p a b c d =
    subst (λ x. P (record { available = x; holders = h }) (record { available = g; holders = k })) a
      (subst
        (λ x. P (record { available = f'; holders = x }) (record { available = g; holders = k })) b
        (subst
          (λ x. P (record { available = f'; holders = h' }) (record { available = x; holders = k }))
          c
          (subst
            (λ x.
              P (record { available = f'; holders = h' }) (record { available = g'; holders = x }))
            d p)))

-- The permits stay as they are, or one is taken.
stays :
    (P : Counter → Counter → Type 0) (f h g k : ℕ)
    → ((c : Counter) → P c c)
    → g + k ≡ f + h
    → k ≡ h
    → P (record { available = f; holders = h }) (record { available = g; holders = k })
stays P f h g k p same e =
    at_counters P f h g k f h f h (p (record { available = f; holders = h })) refl refl
      (omega (arith, same, e)) (sym e)

takes :
    (P : Counter → Counter → Type 0) (f h g k : ℕ)
    → ((c : Counter) → P c c)
    → ((a b : ℕ)
        → P (record { available = suc a; holders = b }) (record { available = a; holders = suc b }))
    → g + k ≡ f + h
    → Takes h k
    → P (record { available = f; holders = h }) (record { available = g; holders = k })
takes P f h g k p q same (inl e) = stays P f h g k p same e
takes P f h g k p q same (inr e) =
    at_counters P f h g k (suc g) h g (suc h) (q g h) (omega (arith, same, e)) refl refl (sym e)

released :
    (w : World) (n : ℕ)
    → w.held ≡ n
    → permits (release_one w n) ≡ permits w
    → CounterStep release_permit (counter w) (counter (release_one w n))
released w zero e same =
    at_counters (CounterStep release_permit) (free w.sem) w.held (free w.sem) w.held (free w.sem) 0
      (free w.sem) 0 (gives_nothing (free w.sem)) refl (sym e) refl (sym e)
released w (suc n) e same =
    at_counters (CounterStep release_permit) (free w.sem) w.held (free (release_one w (suc n)).sem)
      n (free w.sem) (suc n) (suc (free w.sem)) n (gives (free w.sem) n) refl (sym e)
      (omega (arith, same, e)) refl

pub step-counter :
    (e : Event) (w : World)
    → permits w < 18446744073709551616
    → CounterStep e (counter w) (counter (step e w))
unfolding step
step-counter e w h = matched e (permits-step e w h)
  where
    matched :
        (e : Event)
        → permits (step e w) ≡ permits w
        → CounterStep e (counter w) (counter (step e w))
    matched call_acquire same =
        takes (CounterStep call_acquire) _ _ _ _ call_waits call_takes same (held-call w)
    matched await_acquire same =
        takes (CounterStep await_acquire) _ _ _ _ await_waits await_takes same (held-await w)
    matched start same = stays (CounterStep start) _ _ _ _ starts same (held-start w w.unstarted)
    matched release_permit same = released w w.held refl same
    matched (cancel_task n) same =
        stays (CounterStep (cancel_task n)) _ _ _ _ (cancels n) same
          (held-cancel w n (get_elem? w.sem.waiters n))
    matched (resume_task n) same =
        takes (CounterStep (resume_task n)) _ _ _ _ (resumes n) (resume_takes n) same
          (held-resume w n (get_elem? w.sem.waiters n))

-- From any state with fewer than 2^64 permits, every event of a sequence is the step that the
-- abstract counter has for it: a call, and a waiter that is resumed, takes an available permit
-- or none; a release gives back a held permit, or nothing if none is held; the start of a
-- coroutine that waits and a cancellation leave the counter as it is.
pub run-counter :
    (es : List Event) (w : World)
    → permits w < 18446744073709551616
    → CounterRun es (counter w) (counter (run es w))
unfolding run
run-counter [] w h = no_step (counter w)
run-counter (e ∷ es) w h =
    then_step e es _ _ _ (step-counter e w h)
      (run-counter es (step e w) (omega (arith, permits-step e w h)))
