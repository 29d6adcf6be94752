-- ===== src/Semaphore/Counting.antt =====
-- a_sync/primitives/locks/semaphore.pyx: the permits of a semaphore, counted over any sequence of
-- events.
use ez_a_sync.Prelude.{
  ℕ, zero, suc, ◌+◌, ◌≤◌, ◌<◌, ◌≡◌, refl, sym, ap, ◌∙◌, Bool, true, false, ◌||◌, List, [], ◌∷◌,
  Option, none, some, ltb, ltb→lt, ◌==◌, if◌then◌else◌, any, get_elem?, total, total-append,
  total-set, Bool-cases, inl, inr, arith,
}
use ez_a_sync.Semaphore.{
  Waiter, pending, granted, interrupted, cancelled, Semaphore, increment, decrement,
  is_not_cancelled, locked, set_first_result, keep, woken, wake_up_next, acquire, enqueue, release,
  cancel_waiter, remove_waiter, resume, World, Event, call_acquire, await_acquire, start,
  release_permit, cancel_task, resume_task, step, run, initial, taken, after_call, after_await,
  resume_at, cancel_at, start_one, release_one,
}

-- A waiter with a permit that no task has yet.
abbrev pub grants : Waiter → ℕ
grants granted = 1
grants interrupted = 1
grants _ = 0

abbrev pub waits : Waiter → ℕ
waits pending = 1
waits _ = 0

pub increment_lem : (v : ℕ) → suc v < 18446744073709551616 → increment v ≡ suc v
unfolding increment
increment_lem v h = omega arith

pub decrement_lem : (v : ℕ) → 0 < v → v < 18446744073709551616 → suc (decrement v) ≡ v
unfolding decrement
decrement_lem v h k = omega arith

pub some_inj : {A : Type 0} (x y : A) → ◌≡◌ {A = Option A} (some x) (some y) → x ≡ y
some_inj x y e = cc

-- A waiter that stays before the one that is woken.
pub kept :
    (w : Waiter) (o : Option (List Waiter)) (rs : List Waiter)
    → keep w o ≡ some rs
    → (ws : List Waiter) × (o ≡ some ws) × (rs ≡ w ∷ ws)
kept w none rs e = absurd cc
kept w (some ws) rs e = (ws, refl, some_inj rs (w ∷ ws) (sym e))

grants_step :
    (w : Waiter) (ws rs : List Waiter)
    → ((xs : List Waiter) → set_first_result ws ≡ some xs → total grants xs ≡ suc (total grants ws))
    → keep w (set_first_result ws) ≡ some rs
    → total grants rs ≡ suc (total grants (w ∷ ws))
grants_step w ws rs rec e =
    let (xs, h, k) = kept w (set_first_result ws) rs e in
    ap (total grants) k ∙ omega (arith, rec xs h)

pub set_first-grants :
    (ws rs : List Waiter) → set_first_result ws ≡ some rs → total grants rs ≡ suc (total grants ws)
unfolding set_first_result
set_first-grants [] rs e = absurd cc
set_first-grants (pending ∷ ws) rs e =
    ap (total grants) (sym (some_inj (granted ∷ ws) rs e)) ∙ omega arith
set_first-grants (granted ∷ ws) rs e = grants_step granted ws rs (set_first-grants ws) e
set_first-grants (interrupted ∷ ws) rs e = grants_step interrupted ws rs (set_first-grants ws) e
set_first-grants (cancelled ∷ ws) rs e = grants_step cancelled ws rs (set_first-grants ws) e

-- The permits that no task holds.
abbrev pub free : Semaphore → ℕ
free self = self.value + total grants self.waiters

pub free-woken :
    (self : Semaphore) (o : Option (List Waiter))
    → set_first_result self.waiters ≡ o
    → 0 < self.value
    → self.value < 18446744073709551616
    → free (woken self o) ≡ free self
free-woken self none e h k = refl
free-woken self (some rs) e h k =
    omega (arith, set_first-grants self.waiters rs e, decrement_lem self.value h k)

pub free-wake_up_next :
    (self : Semaphore)
    → 0 < self.value
    → self.value < 18446744073709551616
    → free (wake_up_next self) ≡ free self
unfolding wake_up_next
free-wake_up_next self h k = free-woken self (set_first_result self.waiters) refl h k

-- `release` gives one permit back, whether a waiter gets it or not.
pub free-release :
    (self : Semaphore)
    → suc self.value < 18446744073709551616
    → free (release self) ≡ suc (free self)
unfolding release
free-release self h =
    let up = record self { value = increment self.value } in
    let eq = increment_lem self.value h in
    free-wake_up_next up (omega (arith, eq)) (omega (arith, eq)) ∙ omega (arith, eq)

pub grants-remove :
    (ws : List Waiter) (n : ℕ) (w : Waiter)
    → get_elem? ws n ≡ some w
    → total grants (remove_waiter n ws) + grants w ≡ total grants ws
unfolding remove_waiter
grants-remove [] n w e = absurd cc
grants-remove (x ∷ ws) zero w e = omega (arith, ap grants (some_inj x w e))
grants-remove (x ∷ ws) (suc n) w e = omega (arith, grants-remove ws n w e)

pub grants-cancel : (w : Waiter) → grants (cancel_waiter w) ≡ grants w
unfolding cancel_waiter
grants-cancel pending = refl
grants-cancel granted = refl
grants-cancel interrupted = refl
grants-cancel cancelled = refl

-- All permits, free or held.
abbrev pub permits : World → ℕ
permits w = free w.sem + w.held

pub false_parts : (v : ℕ) (b : Bool) → ((v == 0) || b) ≡ false → (0 < v) × (b ≡ false)
false_parts v b e = ground (arith, e)

pub open_parts :
    (self : Semaphore)
    → locked self ≡ false
    → (0 < self.value) × (any is_not_cancelled self.waiters ≡ false)
unfolding locked
open_parts self e = false_parts self.value (any is_not_cancelled self.waiters) e

pub when_locked : (self : Semaphore) → locked self ≡ true → acquire self ≡ (self, false)
unfolding acquire
when_locked self e = rw (e, acquire) refl

pub when_open :
    (self : Semaphore)
    → locked self ≡ false
    → acquire self ≡ (record self { value = decrement self.value }, true)
unfolding acquire
when_open self e =
    ap (λ b. if b then (self, false) else (record self { value = decrement self.value }, true)) e

permits-take :
    (w : World)
    → 0 < w.sem.value
    → w.sem.value < 18446744073709551616
    → permits (taken w (record w.sem { value = decrement w.sem.value })) ≡ permits w
permits-take w h k = omega (arith, decrement_lem w.sem.value h k)

permits-call :
    (w : World)
    → w.sem.value < 18446744073709551616
    → permits (after_call w (acquire w.sem)) ≡ permits w
permits-call w k = elim (Bool-cases (locked w.sem)) [
  | inl e ↦ ap (λ r. permits (after_call w r)) (when_locked w.sem e)
  | inr e ↦
      ap (λ r. permits (after_call w r)) (when_open w.sem e)
      ∙ permits-take w (open_parts w.sem e).0 k
]

free-enqueue : (self : Semaphore) → free (enqueue self) ≡ free self
unfolding enqueue
free-enqueue self = omega (arith, total-append grants self.waiters (pending ∷ []))

permits-await :
    (w : World)
    → w.sem.value < 18446744073709551616
    → permits (after_await w (acquire w.sem)) ≡ permits w
permits-await w k = elim (Bool-cases (locked w.sem)) [
  | inl e ↦
      ap (λ r. permits (after_await w r)) (when_locked w.sem e)
      ∙ ap (λ n. n + w.held) (free-enqueue w.sem)
  | inr e ↦
      ap (λ r. permits (after_await w r)) (when_open w.sem e)
      ∙ permits-take w (open_parts w.sem e).0 k
]

permits-start : (w : World) (n : ℕ) → permits (start_one w n) ≡ permits w
permits-start w zero = refl
permits-start w (suc n) = ap (λ m. m + w.held) (free-enqueue w.sem)

permits-release :
    (w : World) (n : ℕ)
    → w.held ≡ n
    → permits w < 18446744073709551616
    → permits (release_one w n) ≡ permits w
permits-release w zero e h = refl
permits-release w (suc n) e h = omega (arith, e, free-release w.sem (omega (arith, e)))

permits-cancel :
    (w : World) (n : ℕ) (o : Option Waiter)
    → get_elem? w.sem.waiters n ≡ o
    → permits (cancel_at w n o) ≡ permits w
permits-cancel w n none e = refl
permits-cancel w n (some x) e =
    omega (arith, total-set grants w.sem.waiters n (cancel_waiter x) e, grants-cancel x)

free-resume_granted :
    (self : Semaphore) (b : Bool)
    → ltb 0 self.value ≡ b
    → self.value < 18446744073709551616
    → free (if b then wake_up_next self else self) ≡ free self
free-resume_granted self true e k = free-wake_up_next self (ltb→lt 0 self.value e) k
free-resume_granted self false e k = refl

permits-resume :
    (w : World) (n : ℕ) (o : Option Waiter)
    → get_elem? w.sem.waiters n ≡ o
    → permits w < 18446744073709551616
    → permits (resume_at w n o) ≡ permits w
unfolding resume release
permits-resume w n none e h = refl
permits-resume w n (some pending) e h = refl
permits-resume w n (some cancelled) e h = omega (arith, grants-remove w.sem.waiters n cancelled e)
permits-resume w n (some granted) e h =
    let rest = record w.sem { waiters = remove_waiter n w.sem.waiters } in
    omega (
      arith,
      grants-remove w.sem.waiters n granted e,
      free-resume_granted rest (ltb 0 rest.value) refl (omega arith),
    )
permits-resume w n (some interrupted) e h =
    let rest = record w.sem { waiters = remove_waiter n w.sem.waiters } in
    let eq = grants-remove w.sem.waiters n interrupted e in
    omega (arith, eq, free-release rest (omega (arith, eq)))

-- No event changes the number of permits.
pub permits-step :
    (e : Event) (w : World) → permits w < 18446744073709551616 → permits (step e w) ≡ permits w
unfolding step
permits-step call_acquire w h = permits-call w (omega arith)
permits-step await_acquire w h = permits-await w (omega arith)
permits-step start w h = permits-start w w.unstarted
permits-step release_permit w h = permits-release w w.held refl h
permits-step (cancel_task n) w h = permits-cancel w n (get_elem? w.sem.waiters n) refl
permits-step (resume_task n) w h = permits-resume w n (get_elem? w.sem.waiters n) refl h

pub permits-run :
    (es : List Event) (w : World)
    → permits w < 18446744073709551616
    → permits (run es w) ≡ permits w
unfolding run
permits-run [] w h = refl
permits-run (e ∷ es) w h =
    let now = permits-step e w h in permits-run es (step e w) (omega (arith, now)) ∙ now

-- For a new semaphore of `n` permits, with `n` below 2^64, after any sequence of calls, starts,
-- cancellations, resumptions and releases of held permits, its value, the permits of woken
-- waiters and those held by tasks add up to `n`: at most `n` tasks hold one, and the value never
-- wraps.
pub all_permits :
    (n : ℕ) (es : List Event)
    → n < 18446744073709551616
    → let w = run es (initial n) in
      (w.sem.value + total grants w.sem.waiters + w.held ≡ n) × (w.held ≤ n) × (w.sem.value ≤ n)
all_permits n es h =
    let e = permits-run es (initial n) (omega arith) in
    (omega (arith, e), omega (arith, e), omega (arith, e))
