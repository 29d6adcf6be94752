-- ===== src/PrioSemaphore/Lost.antt =====
-- a_sync/primitives/locks/prio_semaphore.pyx: how each part of `_wake_up_next` ends, on the heap and
-- among the waiters that may be lost.
use ez_a_sync.Prelude.{
  ℕ, ◌≡◌, refl, sym, ap, subst, ◌∙◌, Bool, true, false, List, [], ◌∷◌, Option, none, some, ◌==◌,
  Bool-cases, inl, inr,
}
use ez_a_sync.Counter.{put}
use ez_a_sync.Counter.Heap.{mem, if_true, if_false, eq_refl, eq_false, later}
use ez_a_sync.Counter.Good.{put_same, put_other, true_false}
use ez_a_sync.PrioSemaphore.{
  PrioSemaphore, Ending, returns, goes_on, discard, wake_first, put_waiters, top_ending, wake_top,
  pop_manager, put_back, after_rest, one_manager, wake_managers, wake_lost, then_lost,
  then_managers, wake_up_next,
}
use ez_a_sync.PrioSemaphore.Firsts.{
  IsTracked, HasWoken, IsSame, IsKept, IsFirst, woke_first, woke_none, discard-IsSame, trans-IsSame,
  woken_after, wake_first-IsFirst,
}

-- How a part of `_wake_up_next` ends: it has woken a waiter, or else lost none.
data IsEnding (s : PrioSemaphore) : Ending × PrioSemaphore → Type 0 where
  woke_and_returns : (t : PrioSemaphore) → HasWoken s t → IsEnding s (returns, t)
  woke_and_goes_on : (t : PrioSemaphore) → HasWoken s t → IsEnding s (goes_on, t)
  goes_on_the_same : (t : PrioSemaphore) → IsSame s t → IsEnding s (goes_on, t)

ending_after :
    (s t : PrioSemaphore) (r : Ending × PrioSemaphore) → IsSame s t → IsEnding t r → IsEnding s r
ending_after s t _ same (woke_and_returns u w) = woke_and_returns u (woken_after s t u same w)
ending_after s t _ same (woke_and_goes_on u w) = woke_and_goes_on u (woken_after s t u same w)
ending_after s t _ same (goes_on_the_same u k) = goes_on_the_same u (trans-IsSame s t u same k)

-- The dictionary has every manager that the loop pops, in the order of the heap.
abbrev pub HasManagers : (ℕ → Option ℕ) → (ℕ → ℕ) → List ℕ → Type 0
HasManagers managers priority [] = Unit
HasManagers managers priority (m ∷ ms) =
    ((n : ℕ) × (managers (priority m) ≡ some n))
    × HasManagers (put (priority m) none managers) priority ms

abbrev after_popped : ℕ → PrioSemaphore → PrioSemaphore
after_popped m s = record s { managers = put (s.priority m) none s.managers }

-- A dictionary entry that is there is popped.
pop_manager-popped :
    (m : ℕ) (s : PrioSemaphore) (go : PrioSemaphore → Ending × PrioSemaphore) (n : ℕ)
    → s.managers (s.priority m) ≡ some n
    → pop_manager m (s.managers (s.priority m)) s go ≡ go (after_popped m s)
pop_manager-popped m s go n e = ap (λ o. pop_manager m o s go) e

put_back-IsEnding :
    (m : ℕ) (fs : List ℕ) (s t : PrioSemaphore) (n : ℕ)
    → t.managers (t.priority m) ≡ some n
    → HasWoken s t
    → IsEnding s (put_back m fs t)
put_back-IsEnding m [] s t n e w =
    subst (IsEnding s) (sym (pop_manager-popped m t (λ u. (returns, u)) n e))
      (woke_and_returns (after_popped m t) w)
put_back-IsEnding m (f ∷ fs) s t n e w = woke_and_returns _ w

at_same :
    (m n : ℕ) (s t : PrioSemaphore)
    → IsKept s t
    → s.managers (s.priority m) ≡ some n
    → t.managers (t.priority m) ≡ some n
at_same m n s t kept e =
    ap (λ d. d (t.priority m)) kept.managers_same
    ∙ ap (λ q. s.managers (q m)) kept.priority_same
    ∙ e

-- What the rest of the loop does, on the managers that are left.
module _ (m n : ℕ) (ms : List ℕ) (go : PrioSemaphore → Ending × PrioSemaphore)
    (go-IsEnding : (u : PrioSemaphore)
      → HasManagers u.managers u.priority ms
      → IsEnding u (go u)) where
  popped-IsEnding :
      (s : PrioSemaphore)
      → s.managers (s.priority m) ≡ some n
      → HasManagers (put (s.priority m) none s.managers) s.priority ms
      → IsEnding s (pop_manager m (s.managers (s.priority m)) s go)
  popped-IsEnding s e has = subst (IsEnding s) (sym (pop_manager-popped m s go n e)) (
      ending_after s (after_popped m s) _
        (record { pending_same = λ f. refl; tracked_same = λ tracked. tracked })
        (go-IsEnding (after_popped m s) has))

  after_rest-IsEnding :
      (s : PrioSemaphore) (r : Bool × List ℕ × PrioSemaphore)
      → IsFirst s r
      → s.managers (s.priority m) ≡ some n
      → HasManagers (put (s.priority m) none s.managers) s.priority ms
      → IsEnding s (after_rest m go r)
  after_rest-IsEnding s _ (woke_first fs t w kept) e has =
      put_back-IsEnding m fs s (put_waiters m fs t) n (at_same m n s t kept e) w
  after_rest-IsEnding s _ (woke_none fs t same kept) e has =
      ending_after s (put_waiters m fs t) _
        (record { pending_same = same.pending_same; tracked_same = same.tracked_same })
        (popped-IsEnding (put_waiters m fs t) (at_same m n s t kept e) (
          subst (λ d. HasManagers (put (t.priority m) none d) t.priority ms)
            (sym kept.managers_same)
            (subst (λ q. HasManagers (put (q m) none s.managers) q ms) (sym kept.priority_same)
              has)))

  one_manager-IsEnding :
      (s : PrioSemaphore) (fs : List ℕ)
      → s.managers (s.priority m) ≡ some n
      → HasManagers (put (s.priority m) none s.managers) s.priority ms
      → IsEnding s (one_manager m fs go s)
  one_manager-IsEnding s [] e has = popped-IsEnding s e has
  one_manager-IsEnding s (f ∷ fs) e has = elim (Bool-cases (s.pending f)) [
    | inl now ↦
        subst (IsEnding s) (sym (if_true (s.pending f) _ _ now))
          (woke_and_goes_on _ (f, now, put_same f f false s.pending (eq_refl f)))
    | inr not_now ↦ subst (IsEnding s) (sym (if_false (s.pending f) _ _ not_now)) (
        ending_after s (put_waiters m fs (discard f s)) _
          (record {
            pending_same = λ g. refl;
            tracked_same = (discard-IsSame f s not_now).tracked_same;
          })
          (after_rest-IsEnding (put_waiters m fs (discard f s)) _
            (wake_first-IsFirst fs (put_waiters m fs (discard f s))) e has))
  ]

wake_managers-IsEnding :
    (ms : List ℕ) (s : PrioSemaphore)
    → HasManagers s.managers s.priority ms
    → IsEnding s (wake_managers ms s)
unfolding wake_managers
wake_managers-IsEnding [] s has =
    goes_on_the_same (record s { heap = [] })
      (record { pending_same = λ f. refl; tracked_same = λ tracked. tracked })
wake_managers-IsEnding (m ∷ ms) s ((n, e), has) =
    ending_after s (record s { heap = ms }) _
      (record { pending_same = λ f. refl; tracked_same = λ tracked. tracked })
      (one_manager-IsEnding m n ms (wake_managers ms) (wake_managers-IsEnding ms)
        (record s { heap = ms }) (s.waiters m) e has)

pub still_false :
    (g : ℕ) (s : PrioSemaphore) (f : ℕ) → s.pending f ≡ false → put g false s.pending f ≡ false
still_false g s f e = elim (Bool-cases (f == g)) [
  | inl same ↦ put_same g f false s.pending same
  | inr differs ↦ put_other g f false s.pending differs ∙ e
]

pub wake_lost-woken :
    (fs : List ℕ) (s : PrioSemaphore) (f : ℕ)
    → s.pending f ≡ false
    → (wake_lost fs s).pending f ≡ false
unfolding wake_lost
wake_lost-woken [] s f e = e
wake_lost-woken (g ∷ gs) s f e = elim (Bool-cases (s.pending g)) [
  | inr h ↦
      subst (λ (t : PrioSemaphore). t.pending f ≡ false) (sym (if_false (s.pending g) _ _ h))
        (wake_lost-woken gs s f e)
  | inl h ↦
      subst (λ (t : PrioSemaphore). t.pending f ≡ false) (sym (if_true (s.pending g) _ _ h))
        (still_false g s f e)
]

pub wake_lost-HasWoken :
    (fs : List ℕ) (s : PrioSemaphore) (f : ℕ)
    → s.pending f ≡ true
    → mem f fs ≡ true
    → HasWoken s (wake_lost fs s)
unfolding wake_lost
wake_lost-HasWoken [] s f e in_fs = absurd (true_false (sym in_fs))
wake_lost-HasWoken (g ∷ gs) s f e in_fs = elim (Bool-cases (s.pending g)) [
  | inl h ↦
      subst (HasWoken s) (sym (if_true (s.pending g) _ _ h))
        (g, h, put_same g g false s.pending (eq_refl g))
  | inr h ↦ subst (HasWoken s) (sym (if_false (s.pending g) _ _ h)) (
      wake_lost-HasWoken gs s f e (
        later (f == g) (mem f gs) (eq_false f g (λ i. true_false (sym e ∙ ap s.pending i ∙ h)))
          in_fs))
]

module _ (order : List ℕ → List ℕ)
    (all_popped : (f : ℕ) (fs : List ℕ) → mem f fs ≡ true → mem f (order fs) ≡ true) where
  managers_end :
      (s : PrioSemaphore) (f : ℕ) (r : Ending × PrioSemaphore)
      → IsEnding s r
      → IsTracked s
      → s.pending f ≡ true
      → ((then_lost order r).0 ≡ returns) × HasWoken s (then_lost order r).1
  managers_end s f _ (woke_and_returns t w) tracked e = (refl, w)
  managers_end s f _ (woke_and_goes_on t (g, was, now)) tracked e =
      (refl, (g, was, wake_lost-woken (order t.lost) t g now))
  managers_end s f _ (goes_on_the_same t same) tracked e =
      let still = same.pending_same f ∙ e in
      (
        refl,
        woken_after s t (wake_lost (order t.lost) t) same (
            wake_lost-HasWoken (order t.lost) t f still
              (all_popped f t.lost (same.tracked_same tracked f still))),
      )

  top_end :
      (s : PrioSemaphore) (f : ℕ) (r : Bool × List ℕ × PrioSemaphore)
      → IsFirst s r
      → IsTracked s
      → HasManagers s.managers s.priority s.heap
      → s.pending f ≡ true
      → ((then_managers order (top_ending r)).0 ≡ returns)
        × HasWoken s (then_managers order (top_ending r)).1
  top_end s f _ (woke_first fs t w kept) tracked has e = (refl, w)
  top_end s f _ (woke_none fs t same kept) tracked has e =
      let u = put_waiters 0 fs t in
      let has_t =
        subst (λ d. HasManagers d t.priority t.heap) (sym kept.managers_same)
          (subst (λ q. HasManagers s.managers q t.heap) (sym kept.priority_same)
            (subst (HasManagers s.managers s.priority) (sym kept.heap_same) has)) in
      let (ended, (g, was, now)) =
        managers_end u f (wake_managers u.heap u) (wake_managers-IsEnding u.heap u has_t)
          (same.tracked_same tracked) (same.pending_same f ∙ e) in
      (ended, (g, sym (same.pending_same g) ∙ was, now))

  -- When every pending waiter is among the potential lost waiters, the dictionary has each
  -- manager that is popped from the heap, `set.pop` takes every item of a set at some time, and
  -- some waiter waits, `_wake_up_next` returns without `KeyError` and has woken a waiter that
  -- waited.
  pub wakes_one :
      (s : PrioSemaphore) (f : ℕ)
      → IsTracked s
      → HasManagers s.managers s.priority s.heap
      → s.pending f ≡ true
      → ((wake_up_next order s).0 ≡ returns) × HasWoken s (wake_up_next order s).1
  unfolding wake_up_next wake_top
  wakes_one s f tracked has e =
      top_end s f (wake_first (s.waiters 0) s) (wake_first-IsFirst (s.waiters 0) s) tracked has e
