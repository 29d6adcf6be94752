-- ===== src/PrioSemaphore/Wakes.antt =====
-- a_sync/primitives/locks/prio_semaphore.pyx: a wake-up that finds the first waiter of the first
-- manager on the heap.
use ez_a_sync.Prelude.{
  ℕ, ◌≡◌, ◌≢◌, refl, sym, ap, subst, ◌∙◌, true, false, List, [], ◌∷◌, Bool-cases, inl, inr,
}
use ez_a_sync.Counter.Heap.{mem, mem-remove_ne, if_true, if_false, eq_refl, eq_false}
use ez_a_sync.Counter.Good.{put_same, put_other, true_false}
use ez_a_sync.PrioSemaphore.{
  PrioSemaphore, Ending, returns, goes_on, discard, set_result, wake_first, put_waiters, top_ending,
  wake_top, one_manager, wake_managers, wake_lost, then_lost, then_managers, wake_up_next,
}
use ez_a_sync.PrioSemaphore.Firsts.{IsTracked, HasWoken}
use ez_a_sync.PrioSemaphore.Lost.{wake_lost-HasWoken, wake_lost-woken}

lost_heap :
    (fs : List ℕ) (s : PrioSemaphore)
    → ((wake_lost fs s).heap ≡ s.heap) × ((wake_lost fs s).managers ≡ s.managers)
unfolding wake_lost
lost_heap [] s = (refl, refl)
lost_heap (g ∷ gs) s = elim (Bool-cases (s.pending g)) [
  | inl h ↦
      subst (λ (t : PrioSemaphore). (t.heap ≡ s.heap) × (t.managers ≡ s.managers))
        (sym (if_true (s.pending g) _ _ h)) (refl, refl)
  | inr h ↦
      subst (λ (t : PrioSemaphore). (t.heap ≡ s.heap) × (t.managers ≡ s.managers))
        (sym (if_false (s.pending g) _ _ h)) (lost_heap gs s)
]

-- No waiter of the top priority waits, and the first manager of the heap is `m` with the waiters
-- `a` and `fs`.
module _ (order : List ℕ → List ℕ)
    (all_popped : (f : ℕ) (fs : List ℕ) → mem f fs ≡ true → mem f (order fs) ≡ true)
    (s : PrioSemaphore) (m a : ℕ) (ms fs : List ℕ) (no_top : s.waiters 0 ≡ [])
    (first : s.heap ≡ m ∷ ms) (not_top : m ≢ 0) (its : s.waiters m ≡ a ∷ fs)
    (waits : s.pending a ≡ true) where
  abbrev after_top : PrioSemaphore
  after_top = put_waiters 0 [] s

  -- The state in which `break` leaves the loop.
  abbrev after_break : PrioSemaphore
  after_break = set_result a (put_waiters m fs (discard a (record after_top { heap = ms })))

  breaks : wake_up_next order s ≡ (returns, wake_lost (order after_break.lost) after_break)
  unfolding wake_up_next wake_top wake_first wake_managers
  breaks =
      ap (λ l. then_managers order (top_ending (wake_first l s))) no_top
      ∙ ap (λ h. then_lost order (wake_managers h after_top)) first
      ∙ ap
          (λ l.
            then_lost order (one_manager m l (wake_managers ms) (record after_top { heap = ms })))
          (put_other 0 m [] s.waiters (eq_false m 0 not_top) ∙ its)
      ∙ ap (then_lost order) (if_true (s.pending a) (goes_on, after_break) _ waits)

  breaks_pending : (f : ℕ) → f ≢ a → after_break.pending f ≡ s.pending f
  breaks_pending f other = put_other a f false s.pending (eq_false f a other)

  breaks_woken : after_break.pending a ≡ false
  breaks_woken = put_same a a false s.pending (eq_refl a)

  another :
      (t : PrioSemaphore)
      → HasWoken after_break t
      → (g : ℕ) × (g ≢ a) × (s.pending g ≡ true) × (t.pending g ≡ false)
  another t (g, was, now) =
      let ne = λ (i : g ≡ a). true_false (sym was ∙ ap after_break.pending i ∙ breaks_woken) in
      (g, ne, sym (breaks_pending g ne) ∙ was, now)

  abbrev IsDouble : Ending × PrioSemaphore → Type 0
  IsDouble (ending, t) =
      (t.pending a ≡ false)
      × ((g : ℕ) × (g ≢ a) × (s.pending g ≡ true) × (t.pending g ≡ false))
      × (t.heap ≡ ms)
      × (t.managers ≡ s.managers)

  -- When no waiter of the top priority waits, the first waiter of the first manager of the heap
  -- waits, and so does another waiter, and every pending waiter is among the potential lost
  -- ones: `_wake_up_next` wakes that first waiter and another besides, and leaves the heap
  -- without that manager, although the dictionary still has it.
  pub wakes_two :
      (f : ℕ)
      → IsTracked s
      → f ≢ a
      → s.pending f ≡ true
      → ((wake_up_next order s).1.pending a ≡ false)
        × ((g : ℕ) × (g ≢ a) × (s.pending g ≡ true) × ((wake_up_next order s).1.pending g ≡ false))
        × ((wake_up_next order s).1.heap ≡ ms)
        × ((wake_up_next order s).1.managers ≡ s.managers)
  wakes_two f tracked other e =
      let popped = order after_break.lost in
      let (heap, managers) = lost_heap popped after_break in
      subst IsDouble (sym breaks) (
        wake_lost-woken popped after_break a breaks_woken,
        another (wake_lost popped after_break) (
            wake_lost-HasWoken popped after_break f (breaks_pending f other ∙ e)
              (all_popped f after_break.lost (mem-remove_ne f a s.lost other (tracked f e)))),
        heap,
        managers,
      )
