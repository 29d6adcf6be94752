-- ===== src/PrioSemaphore/Firsts.antt =====
-- a_sync/primitives/locks/prio_semaphore.pyx: taking waiters off a queue until one is woken.
use ez_a_sync.Prelude.{
  ℕ, ◌≡◌, refl, sym, ap, subst, ◌∙◌, Bool, true, false, List, [], ◌∷◌, Bool-cases, inl, inr,
}
use ez_a_sync.Counter.Heap.{mem, mem-remove_ne, if_true, if_false, eq_refl}
use ez_a_sync.Counter.Good.{put_same, true_false}
use ez_a_sync.PrioSemaphore.{PrioSemaphore, discard, set_result, wake_first}

-- A waiter that waits is among those that may be lost.
abbrev pub IsTracked : PrioSemaphore → Type 0
IsTracked self = (f : ℕ) → self.pending f ≡ true → mem f self.lost ≡ true

-- A waiter of the first state has been woken in the second.
abbrev pub HasWoken : PrioSemaphore → PrioSemaphore → Type 0
HasWoken s t = (f : ℕ) × (s.pending f ≡ true) × (t.pending f ≡ false)

-- Nothing but waiters that do not wait was forgotten.
pub record IsSame (s t : PrioSemaphore) : Type 0 where
  pub pending_same : (f : ℕ) → t.pending f ≡ s.pending f
  pub tracked_same : IsTracked s → IsTracked t

-- The managers stay as they are.
pub record IsKept (s t : PrioSemaphore) : Type 0 where
  pub managers_same : t.managers ≡ s.managers
  pub priority_same : t.priority ≡ s.priority
  pub heap_same : t.heap ≡ s.heap

pub data IsFirst (s : PrioSemaphore) : Bool × List ℕ × PrioSemaphore → Type 0 where
  woke_first :
      (fs : List ℕ) (t : PrioSemaphore) → HasWoken s t → IsKept s t → IsFirst s (true, fs, t)
  woke_none : (fs : List ℕ) (t : PrioSemaphore) → IsSame s t → IsKept s t → IsFirst s (false, fs, t)

pub refl-IsSame : (s : PrioSemaphore) → IsSame s s
refl-IsSame s = record { pending_same = λ g. refl; tracked_same = λ tracked. tracked }

pub refl-IsKept : (s : PrioSemaphore) → IsKept s s
refl-IsKept s = record { managers_same = refl; priority_same = refl; heap_same = refl }

pub discard-IsSame : (f : ℕ) (s : PrioSemaphore) → s.pending f ≡ false → IsSame s (discard f s)
discard-IsSame f s e = record {
  pending_same = λ g. refl;
  tracked_same = λ tracked g h.
      mem-remove_ne g f s.lost (λ i. true_false (sym h ∙ ap s.pending i ∙ e)) (tracked g h);
}

pub trans-IsSame : (s t u : PrioSemaphore) → IsSame s t → IsSame t u → IsSame s u
trans-IsSame s t u a b = record {
  pending_same = λ f. b.pending_same f ∙ a.pending_same f;
  tracked_same = λ tracked. b.tracked_same (a.tracked_same tracked);
}

pub woken_after : (s t u : PrioSemaphore) → IsSame s t → HasWoken t u → HasWoken s u
woken_after s t u same (f, was, now) = (f, sym (same.pending_same f) ∙ was, now)

pub discard-IsKept : (f : ℕ) (s u : PrioSemaphore) → IsKept (discard f s) u → IsKept s u
discard-IsKept f s u kept = record {
  managers_same = kept.managers_same;
  priority_same = kept.priority_same;
  heap_same = kept.heap_same;
}

pub discard-IsFirst :
    (f : ℕ) (s : PrioSemaphore) (r : Bool × List ℕ × PrioSemaphore)
    → s.pending f ≡ false
    → IsFirst (discard f s) r
    → IsFirst s r
discard-IsFirst f s _ e (woke_first fs u w kept) =
    woke_first fs u (woken_after s (discard f s) u (discard-IsSame f s e) w)
      (discard-IsKept f s u kept)
discard-IsFirst f s _ e (woke_none fs u k kept) =
    woke_none fs u (trans-IsSame s (discard f s) u (discard-IsSame f s e) k)
      (discard-IsKept f s u kept)

pub wake_first-IsFirst : (fs : List ℕ) (s : PrioSemaphore) → IsFirst s (wake_first fs s)
unfolding wake_first
wake_first-IsFirst [] s = woke_none [] s (refl-IsSame s) (refl-IsKept s)
wake_first-IsFirst (f ∷ fs) s = elim (Bool-cases (s.pending f)) [
  | inl e ↦ subst (IsFirst s) (sym (if_true (s.pending f) _ _ e)) (
      woke_first fs (set_result f (discard f s)) (f, e, put_same f f false s.pending (eq_refl f))
        (record { managers_same = refl; priority_same = refl; heap_same = refl }))
  | inr e ↦
      subst (IsFirst s) (sym (if_false (s.pending f) _ _ e))
        (discard-IsFirst f s _ e (wake_first-IsFirst fs (discard f s)))
]
