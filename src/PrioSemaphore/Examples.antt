-- ===== src/PrioSemaphore/Examples.antt =====
-- A priority semaphore at concrete inputs.
use ez_a_sync.Prelude.{ℕ, ◌≡◌, ◌≢◌, refl, true, false, [], ◌∷◌, none, arith}
use ez_a_sync.PrioSemaphore.{PrioSemaphore, returns, getitem, acquire, wake_up_next, heap_push}
use ez_a_sync.PrioSemaphore.Firsts.{IsTracked, HasWoken}
use ez_a_sync.PrioSemaphore.Lost.{wakes_one}
use ez_a_sync.PrioSemaphore.Wakes.{wakes_two}

abbrev no_permits : PrioSemaphore
no_permits = record {
  value = 0;
  priority = λ m. 0;
  waiters = λ m. [];
  heap = [];
  managers = λ p. none;
  lost = [];
  pending = λ f. false;
  next_manager = 1;
  next_future = 0;
}

-- Two tasks wait with priority 8, then one with priority 3.
abbrev three_wait : PrioSemaphore
three_wait =
    let s = (getitem 8 no_permits).1 in
    let t = (acquire 1 (acquire 1 s).1).1 in (acquire 2 (getitem 3 t).1).1

tracked : IsTracked three_wait
unfolding acquire getitem
tracked f e = ground (arith, e)

wakes_one_example :
    ((wake_up_next (λ fs. fs) three_wait).0 ≡ returns)
    × HasWoken three_wait (wake_up_next (λ fs. fs) three_wait).1
unfolding acquire getitem heap_push
wakes_one_example =
    wakes_one (λ fs. fs) (λ f fs e. e) three_wait 0 tracked ((2, refl), ((1, refl), tt)) refl

one_two : ◌≢◌ {A = ℕ} 1 2
one_two e = absurd (omega (arith, e))

two_zero : ◌≢◌ {A = ℕ} 2 0
two_zero e = absurd (omega (arith, e))

wakes_two_example :
    ((wake_up_next (λ fs. fs) three_wait).1.pending 2 ≡ false)
    × ((g : ℕ) × (g ≢ 2)
        × (three_wait.pending g ≡ true)
        × ((wake_up_next (λ fs. fs) three_wait).1.pending g ≡ false))
    × ((wake_up_next (λ fs. fs) three_wait).1.heap ≡ 1 ∷ [])
    × ((wake_up_next (λ fs. fs) three_wait).1.managers ≡ three_wait.managers)
unfolding acquire getitem heap_push
wakes_two_example =
    wakes_two (λ fs. fs) (λ f fs e. e) three_wait 2 2 (1 ∷ []) [] refl refl two_zero refl refl 1
      tracked one_two refl
