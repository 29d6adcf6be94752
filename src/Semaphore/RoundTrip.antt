-- ===== src/Semaphore/RoundTrip.antt =====
-- a_sync/primitives/locks/semaphore.pyx: taking a permit at once, and giving it back.
use ez_a_sync.Prelude.{
  ℕ, ◌<◌, ◌≡◌, refl, ap, ◌∙◌, Bool, true, false, List, [], ◌∷◌, none, any, arith,
}
use ez_a_sync.Semaphore.{
  Waiter, pending, granted, interrupted, cancelled, Semaphore, increment, decrement,
  is_not_cancelled, locked, set_first_result, keep, woken, wake_up_next, acquire, release,
}
use ez_a_sync.Semaphore.Counting.{increment_lem, decrement_lem, open_parts, when_open}

nobody : (ws : List Waiter) → any is_not_cancelled ws ≡ false → set_first_result ws ≡ none
unfolding set_first_result
nobody [] e = refl
nobody (pending ∷ ws) e = absurd cc
nobody (granted ∷ ws) e = absurd cc
nobody (interrupted ∷ ws) e = absurd cc
nobody (cancelled ∷ ws) e = ap (keep cancelled) (nobody ws e)

there_and_back : (v : ℕ) → 0 < v → v < 18446744073709551616 → increment (decrement v) ≡ v
there_and_back v h k =
    let down = decrement_lem v h k in increment_lem (decrement v) (omega (arith, down)) ∙ down

-- When a semaphore with a value below 2^64 is not locked, `acquire` takes a permit at once, and
-- `release` after it gives back the same semaphore, waiters that were cancelled included.
pub release-acquire :
    (self : Semaphore)
    → locked self ≡ false
    → self.value < 18446744073709551616
    → ((acquire self).1 ≡ true) × (release (acquire self).0 ≡ self)
unfolding release wake_up_next
release-acquire self e h =
    let (positive, none_left) = open_parts self e in
    (
      ap (λ (r : Semaphore × Bool). r.1) (when_open self e),
      ap (λ (r : Semaphore × Bool). release r.0) (when_open self e)
          ∙ ap (woken (record self { value = increment (decrement self.value) }))
              (nobody self.waiters none_left)
          ∙ ap (λ v. record self { value = v }) (there_and_back self.value positive h),
    )
