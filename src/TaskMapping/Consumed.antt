-- ===== src/TaskMapping/Consumed.antt =====
-- a_sync/task.py: a mapping that a loop with `pop` has consumed.
use ez_a_sync.Prelude.{
  ℕ, ◌≡◌, refl, ◌∙◌, Bool, true, false, List, [], ◌∷◌, ok, err, runtime_error, Bool-cases,
  Option-cases, inl, inr,
}
use ez_a_sync.TaskMapping.{
  TaskMapping, lookup, keys, pop, pop_keys, clear, if_pop_clear, if_pop_check_destroyed, cancel,
}
use ez_a_sync.TaskMapping.Dict.{clear-nil}
use ez_a_sync.TaskMapping.Loops.{Input, Loop, aiter, all, any}

module _ {V : Type 0} where
  pop_destroyed : (k : ℕ) (c : Bool) (s : TaskMapping V) → (pop k c s).1.destroyed ≡ s.destroyed
  unfolding pop cancel
  pop_destroyed k true s = elim (Option-cases (lookup k s.dict)) [
    | inl e ↦ rw (e, pop) refl
    | inr (t, e) ↦ rw (e, pop) refl
  ]
  pop_destroyed k false s = elim (Option-cases (lookup k s.dict)) [
    | inl e ↦ rw (e, pop) refl
    | inr (t, e) ↦ rw (e, pop) refl
  ]

  pop_keys_destroyed :
      (ks : List ℕ) (c : Bool) (s : TaskMapping V) → (pop_keys ks c s).destroyed ≡ s.destroyed
  unfolding pop_keys
  pop_keys_destroyed [] c s = refl
  pop_keys_destroyed (k ∷ ks) c s = pop_keys_destroyed ks c (pop k c s).1 ∙ pop_destroyed k c s

  -- Nothing is left, and the mapping is marked.
  abbrev pub IsConsumed : TaskMapping V → Type 0
  IsConsumed s = (s.dict ≡ []) × (s.destroyed ≡ true)

  pub if_pop_clear-IsConsumed : (s : TaskMapping V) → IsConsumed (if_pop_clear true s)
  unfolding if_pop_clear clear
  if_pop_clear-IsConsumed s = (
    clear-nil s.dict true (record s { destroyed = true }) refl,
    pop_keys_destroyed (keys s.dict) true (record s { destroyed = true }),
  )

  check_used :
      (s : TaskMapping V)
      → s.destroyed ≡ true
      → if_pop_check_destroyed true s ≡ (err runtime_error, s)
  unfolding if_pop_check_destroyed
  check_used s e = rw e refl

  check_unused :
      (s : TaskMapping V)
      → s.destroyed ≡ false
      → if_pop_check_destroyed true s ≡ (ok tt, record s { destroyed = true })
  unfolding if_pop_check_destroyed
  check_unused s e = rw e refl

module _ {V B : Type 0} (body : B → V → Loop B) (i : Input V) (b : B) (s : TaskMapping V) where
  pub aiter_used : s.destroyed ≡ true → aiter body true i b s ≡ (err runtime_error, s)
  unfolding aiter
  aiter_used e = rw (aiter, check_used s e) refl

  aiter_unused : s.destroyed ≡ false → IsConsumed (aiter body true i b s).1
  unfolding aiter
  aiter_unused e = rw (aiter, check_unused s e) (if_pop_clear-IsConsumed _)

  pub aiter_marks : (aiter body true i b s).1.destroyed ≡ true
  aiter_marks = elim (Bool-cases s.destroyed) [
    | inl e ↦ rw (aiter_used e) e
    | inr e ↦ (aiter_unused e).1
  ]

-- After any loop with `pop` over any mapping, however it ended, a second loop with `pop` raises
-- `RuntimeError` and changes nothing.
pub aiter_twice :
    {V B B' : Type 0} (body : B → V → Loop B) (body' : B' → V → Loop B') (i j : Input V) (b : B)
    (b' : B') (s : TaskMapping V)
    → aiter body' true j b' (aiter body true i b s).1
      ≡ (err runtime_error, (aiter body true i b s).1)
aiter_twice body body' i j b b' s =
    aiter_used body' j b' (aiter body true i b s).1 (aiter_marks body i b s)

module _ {V : Type 0} (truthy : V → Bool) (i : Input V) (s : TaskMapping V) where
  -- After `all` or `any` with `pop`, on any mapping and whatever the tasks do, the dictionary is
  -- empty and the mapping is marked as destroyed.
  pub all-IsConsumed : IsConsumed (all truthy true i s).1 × IsConsumed (any truthy true i s).1
  unfolding all any
  all-IsConsumed = (if_pop_clear-IsConsumed _, if_pop_clear-IsConsumed _)
