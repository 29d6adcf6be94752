-- ===== src/Semaphore/Wakeups.antt =====
-- a_sync/primitives/locks/semaphore.pyx: whether a waiter is woken while there are permits.
use ez_a_sync.Prelude.{
  subst, ℕ, zero, suc, ◌+◌, ◌≤◌, ◌<◌, ◌≡◌, refl, sym, ap, Bool, true, false, ◌&&◌, ◌||◌, List, [],
  ◌∷◌, Option, none, some, ltb, ◌==◌, if◌then◌else◌, any, all, get_elem?, total, total-append,
  total-set, Bool-cases, ◌⊎◌, inl, inr, arith,
}
use ez_a_sync.Semaphore.{
  Waiter, pending, granted, interrupted, cancelled, Semaphore, increment, decrement,
  is_not_cancelled, locked, set_first_result, keep, woken, wake_up_next, acquire, enqueue, release,
  cancel_waiter, remove_waiter, resume, World, Event, call_acquire, await_acquire, start,
  release_permit, cancel_task, resume_task, step, run, initial, after_await, resume_at, cancel_at,
  release_one,
}
use ez_a_sync.Semaphore.Counting.{
  grants, waits, some_inj, set_first-grants, open_parts, when_locked, when_open, all_permits,
  grants-remove, grants-cancel,
}

-- While there are permits and a waiter waits, another waiter has been woken, and will wake the next
-- when it runs.
abbrev pub IsAwake : Semaphore → Type 0
IsAwake self = 0 < self.value → 0 < total waits self.waiters → 0 < total grants self.waiters

none_kept : (w : Waiter) (o : Option (List Waiter)) → keep w o ≡ none → o ≡ none
none_kept w none e = refl
none_kept w (some r) e = absurd cc

no_waits : (ws : List Waiter) → set_first_result ws ≡ none → total waits ws ≡ 0
unfolding set_first_result
no_waits [] e = refl
no_waits (pending ∷ ws) e = absurd cc
no_waits (granted ∷ ws) e = omega (arith, no_waits ws (none_kept granted _ e))
no_waits (interrupted ∷ ws) e = omega (arith, no_waits ws (none_kept interrupted _ e))
no_waits (cancelled ∷ ws) e = omega (arith, no_waits ws (none_kept cancelled _ e))

woken-IsAwake :
    (self : Semaphore) (o : Option (List Waiter))
    → set_first_result self.waiters ≡ o
    → IsAwake (woken self o)
woken-IsAwake self none e h k = absurd (omega (arith, no_waits self.waiters e))
woken-IsAwake self (some rs) e h k = omega (arith, set_first-grants self.waiters rs e)

-- Whatever the state, after `_wake_up_next` no wake-up is missing.
pub wake_up_next-IsAwake : (self : Semaphore) → IsAwake (wake_up_next self)
unfolding wake_up_next
wake_up_next-IsAwake self = woken-IsAwake self (set_first_result self.waiters) refl

pub none_waits : (ws : List Waiter) → any is_not_cancelled ws ≡ false → total waits ws ≡ 0
none_waits [] e = refl
none_waits (pending ∷ ws) e = absurd cc
none_waits (granted ∷ ws) e = absurd cc
none_waits (interrupted ∷ ws) e = absurd cc
none_waits (cancelled ∷ ws) e = omega (arith, none_waits ws e)

some_waits :
    (ws : List Waiter) → any is_not_cancelled ws ≡ true → 0 < total waits ws + total grants ws
some_waits [] e = absurd cc
some_waits (pending ∷ ws) e = omega arith
some_waits (granted ∷ ws) e = omega arith
some_waits (interrupted ∷ ws) e = omega arith
some_waits (cancelled ∷ ws) e = omega (arith, some_waits ws e)

zero_or_more : (n : ℕ) → (n ≡ 0) ⊎ (0 < n)
zero_or_more zero = inl refl
zero_or_more (suc n) = inr (omega arith)

true_parts : (v : ℕ) (b : Bool) → ((v == 0) || b) ≡ true → (v ≡ 0) ⊎ (b ≡ true)
true_parts v b e = ground (arith, e)

enqueue-IsAwake : (self : Semaphore) → locked self ≡ true → IsAwake self → IsAwake (enqueue self)
unfolding locked enqueue
enqueue-IsAwake self e awake h k =
    let same = total-append grants self.waiters (pending ∷ []) in
    elim (true_parts self.value (any is_not_cancelled self.waiters) e) [
      | inl z ↦ absurd (omega (arith, z))
      | inr left ↦ elim (zero_or_more (total waits self.waiters)) [
        | inl z ↦ omega (arith, same, some_waits self.waiters left, z)
        | inr more ↦ omega (arith, same, awake h more)
      ]
    ]

take-IsAwake :
    (self : Semaphore)
    → any is_not_cancelled self.waiters ≡ false
    → IsAwake (record self { value = decrement self.value })
take-IsAwake self e h k = absurd (omega (arith, none_waits self.waiters e))

await-IsAwake : (w : World) → IsAwake w.sem → IsAwake (after_await w (acquire w.sem)).sem
await-IsAwake w awake = elim (Bool-cases (locked w.sem)) [
  | inl e ↦
      subst (λ r. IsAwake (after_await w r).sem) (sym (when_locked w.sem e))
        (enqueue-IsAwake w.sem e awake)
  | inr e ↦
      subst (λ r. IsAwake (after_await w r).sem) (sym (when_open w.sem e))
        (take-IsAwake w.sem (open_parts w.sem e).1)
]

pub waits-remove :
    (ws : List Waiter) (n : ℕ) (w : Waiter)
    → get_elem? ws n ≡ some w
    → total waits (remove_waiter n ws) + waits w ≡ total waits ws
unfolding remove_waiter
waits-remove [] n w e = absurd cc
waits-remove (x ∷ ws) zero w e = omega (arith, ap waits (some_inj x w e))
waits-remove (x ∷ ws) (suc n) w e = omega (arith, waits-remove ws n w e)

waits-cancel_le : (w : Waiter) → waits (cancel_waiter w) ≤ waits w
unfolding cancel_waiter
waits-cancel_le pending = omega arith
waits-cancel_le granted = omega arith
waits-cancel_le interrupted = omega arith
waits-cancel_le cancelled = omega arith

release-IsAwake : (w : World) (n : ℕ) → IsAwake w.sem → IsAwake (release_one w n).sem
unfolding release
release-IsAwake w zero awake = awake
release-IsAwake w (suc n) awake =
    wake_up_next-IsAwake (record w.sem { value = increment w.sem.value })

cancel-IsAwake :
    (w : World) (n : ℕ) (o : Option Waiter)
    → get_elem? w.sem.waiters n ≡ o
    → IsAwake w.sem
    → IsAwake (cancel_at w n o).sem
cancel-IsAwake w n none e awake h k = awake h k
cancel-IsAwake w n (some x) e awake h k =
    let fewer = total-set waits w.sem.waiters n (cancel_waiter x) e in
    let same = total-set grants w.sem.waiters n (cancel_waiter x) e in
    omega (arith, same, grants-cancel x, awake h (omega (arith, fewer, waits-cancel_le x)))

resumed-IsAwake :
    (self : Semaphore) (b : Bool)
    → ltb 0 self.value ≡ b
    → IsAwake (if b then wake_up_next self else self)
resumed-IsAwake self true e h k = wake_up_next-IsAwake self h k
resumed-IsAwake self false e h k = absurd (ground (arith, e))

resume-IsAwake :
    (w : World) (n : ℕ) (o : Option Waiter)
    → get_elem? w.sem.waiters n ≡ o
    → IsAwake w.sem
    → IsAwake (resume_at w n o).sem
unfolding resume
resume-IsAwake w n none e awake h k = awake h k
resume-IsAwake w n (some pending) e awake h k = awake h k
resume-IsAwake w n (some cancelled) e awake h k =
    let fewer = waits-remove w.sem.waiters n cancelled e in
    omega (arith, grants-remove w.sem.waiters n cancelled e, awake h (omega (arith, fewer)))
resume-IsAwake w n (some granted) e awake h k =
    let rest = record w.sem { waiters = remove_waiter n w.sem.waiters } in
    resumed-IsAwake rest (ltb 0 rest.value) refl h k
resume-IsAwake w n (some interrupted) e awake h k =
    wake_up_next-IsAwake
      (record { value = increment w.sem.value; waiters = remove_waiter n w.sem.waiters }) h k

-- The coroutine of `__acquire` is awaited as soon as it is made.
abbrev pub is_prompt : Event → Bool
is_prompt call_acquire = false
is_prompt start = false
is_prompt _ = true

step-IsAwake : (e : Event) (w : World) → is_prompt e ≡ true → IsAwake w.sem → IsAwake (step e w).sem
unfolding step
step-IsAwake call_acquire w p awake = absurd cc
step-IsAwake start w p awake = absurd cc
step-IsAwake await_acquire w p awake = await-IsAwake w awake
step-IsAwake release_permit w p awake = release-IsAwake w w.held awake
step-IsAwake (cancel_task n) w p awake = cancel-IsAwake w n (get_elem? w.sem.waiters n) refl awake
step-IsAwake (resume_task n) w p awake = resume-IsAwake w n (get_elem? w.sem.waiters n) refl awake

pub and_parts : (b c : Bool) → (b && c) ≡ true → (b ≡ true) × (c ≡ true)
and_parts true true e = (refl, refl)
and_parts true false e = absurd cc
and_parts false c e = absurd cc

run-IsAwake :
    (es : List Event) (w : World) → all is_prompt es ≡ true → IsAwake w.sem → IsAwake (run es w).sem
unfolding run
run-IsAwake [] w p awake = awake
run-IsAwake (e ∷ es) w p awake =
    let (now, later) = and_parts (is_prompt e) (all is_prompt es) p in
    run-IsAwake es (step e w) later (step-IsAwake e w now awake)

-- When every `acquire` is awaited at once, then after any such sequence of events on a new
-- semaphore, if its value is positive and a waiter waits, another waiter has been woken and has
-- not yet run.
pub no_lost_wakeup :
    (n : ℕ) (es : List Event) → all is_prompt es ≡ true → IsAwake (run es (initial n)).sem
no_lost_wakeup n es p = run-IsAwake es (initial n) p (λ h k. k)

-- For a new semaphore with at least one permit and fewer than 2^64, when every `acquire` is
-- awaited at once: once no permit is held and every woken waiter has run, no waiter waits.
pub none_left_waiting :
    (n : ℕ) (es : List Event)
    → suc n < 18446744073709551616
    → all is_prompt es ≡ true
    → (run es (initial (suc n))).held ≡ 0
    → total grants (run es (initial (suc n))).sem.waiters ≡ 0
    → total waits (run es (initial (suc n))).sem.waiters ≡ 0
none_left_waiting n es h p held woke =
    let w = run es (initial (suc n)) in
    let (count, _, _) = all_permits (suc n) es h in
    elim (zero_or_more (total waits w.sem.waiters)) [
      | inl z ↦ z
      | inr more ↦ absurd (omega (arith, no_lost_wakeup (suc n) es p (omega (arith, count)) more))
    ]
