-- ===== src/TaskMapping/Dict.antt =====
-- a_sync/task.py: one task for each key, and what `clear` does to the tasks.
use ez_a_sync.Prelude.{
  ℕ, zero, suc, ◌+◌, ◌≡◌, ◌≢◌, refl, sym, ap, subst, ◌∙◌, Bool, true, false, List, [], ◌∷◌, none,
  some, get_elem?, if◌then◌else◌, ◌==◌, ==_iff, arith, Bool-cases, Option-cases, inl, inr,
}
use ez_a_sync.Asyncio.Futures.{Future, pending, cancelled, result, exception}
use ez_a_sync.TaskMapping.{
  TaskMapping, lookup, dict_set, remove, keys, is_done, cancel_fut, start_task, start_tasks,
  getitem, cancel, pop, pop_keys, clear,
}

==_refl : (k : ℕ) → (k == k) ≡ true
==_refl k = ground arith

cancelled_done : {V : Type 0} (f : Future V) → is_done (cancel_fut f) ≡ true
cancelled_done pending = refl
cancelled_done cancelled = refl
cancelled_done (result v) = refl
cancelled_done (exception e) = refl

-- No key has the task `i`.
abbrev pub Avoids : ℕ → List (ℕ × ℕ) → Type 0
Avoids i [] = Unit
Avoids i ((k, t) ∷ d) = (t ≢ i) × Avoids i d

dict_set_twice : (k a b : ℕ) (d : List (ℕ × ℕ)) → dict_set k b (dict_set k a d) ≡ dict_set k b d
dict_set_twice k a b [] = rw (==_refl k) refl
dict_set_twice k a b ((k', t) ∷ d) = elim (Bool-cases (k == k')) [
  | inl e ↦ rw e (rw e refl)
  | inr e ↦ rw e (rw e (ap (◌∷◌ (k', t)) (dict_set_twice k a b d)))
]

dict_set-Avoids : (i k b : ℕ) (d : List (ℕ × ℕ)) → b ≢ i → Avoids i d → Avoids i (dict_set k b d)
dict_set-Avoids i k b [] h a = (h, a)
dict_set-Avoids i k b ((k', t) ∷ d) h a = elim (Bool-cases (k == k')) [
  | inl e ↦ rw e (h, a.1)
  | inr e ↦ rw e (a.0, dict_set-Avoids i k b d h a.1)
]

lookup-dict_set : (k t : ℕ) (d : List (ℕ × ℕ)) → lookup k (dict_set k t d) ≡ some t
lookup-dict_set k t [] = rw (==_refl k) refl
lookup-dict_set k t ((k', t') ∷ d) = elim (Bool-cases (k == k')) [
  | inl e ↦ rw e (rw e refl)
  | inr e ↦ rw e (rw e (lookup-dict_set k t d))
]

module _ (k t : ℕ) (d : List (ℕ × ℕ)) {d' : List (ℕ × ℕ)} (e : d' ≡ (k, t) ∷ d) where
  found : lookup k d' ≡ some t
  found = rw (e, ==_refl k) refl

  removed : remove k d' ≡ d
  removed = rw (e, ==_refl k) refl

module _ {V : Type 0} where
  pub getitem_found :
      (k t : ℕ) (s : TaskMapping V) → lookup k s.dict ≡ some t → getitem k s ≡ (t, s)
  unfolding getitem
  getitem_found k t s e = rw (e, getitem) refl

  pub getitem_new :
      (k : ℕ) (s : TaskMapping V) → lookup k s.dict ≡ none → getitem k s ≡ start_task k s
  unfolding getitem
  getitem_new k s e = rw (e, getitem) refl

  -- Once a key has been read, reading it again returns the same task and changes nothing, so
  -- that no second task is started.
  pub getitem_once :
      (k : ℕ) (s : TaskMapping V) → getitem k (getitem k s).1 ≡ ((getitem k s).0, (getitem k s).1)
  unfolding start_task
  getitem_once k s = elim (Option-cases (lookup k s.dict)) [
    | inl e ↦
        rw (getitem_new k s e)
          (getitem_found k s.created (start_task k s).1 (lookup-dict_set k s.created s.dict))
    | inr (t, e) ↦ rw (getitem_found k t s e) (getitem_found k t s e)
  ]

  -- `pop` of the first key.
  pop_head :
      (k t : ℕ) (d : List (ℕ × ℕ)) (c : Bool) (s : TaskMapping V)
      → s.dict ≡ (k, t) ∷ d
      → ((pop k c s).1.dict ≡ d) × ((pop k c s).1.tasks ≡ (if c then cancel t s else s).tasks)
  unfolding pop cancel
  pop_head k t d true s e = rw (found k t d e, pop) (removed k t d e, refl)
  pop_head k t d false s e = rw (found k t d e, pop) (removed k t d e, refl)

  pub clear-nil :
      (d : List (ℕ × ℕ)) (c : Bool) (s : TaskMapping V)
      → s.dict ≡ d
      → (pop_keys (keys d) c s).dict ≡ []
  unfolding pop_keys
  clear-nil [] c s e = e
  clear-nil ((k, t) ∷ d) c s e = clear-nil d c (pop k c s).1 ((pop_head k t d c s e).0)

  cancel_done :
      (t i : ℕ) (s : TaskMapping V)
      → is_done (s.tasks i) ≡ true
      → is_done ((cancel t s).tasks i) ≡ true
  unfolding cancel
  cancel_done t i s e = elim (Bool-cases (t == i)) [
    | inl b ↦ rw b (cancelled_done (s.tasks i))
    | inr b ↦ rw b e
  ]

  cancel_self : (t : ℕ) (s : TaskMapping V) → is_done ((cancel t s).tasks t) ≡ true
  unfolding cancel
  cancel_self t s = rw (==_refl t) (cancelled_done (s.tasks t))

  cancel_other : (t i : ℕ) (s : TaskMapping V) → t ≢ i → (cancel t s).tasks i ≡ s.tasks i
  unfolding cancel
  cancel_other t i s h = elim (Bool-cases (t == i)) [
    | inl b ↦ absurd (h ((==_iff t i).0 b))
    | inr b ↦ rw b refl
  ]

  pop_keys_keeps :
      (d : List (ℕ × ℕ)) (i : ℕ) (s : TaskMapping V)
      → s.dict ≡ d
      → is_done (s.tasks i) ≡ true
      → is_done ((pop_keys (keys d) true s).tasks i) ≡ true
  unfolding pop_keys
  pop_keys_keeps [] i s e h = h
  pop_keys_keeps ((k, t) ∷ d) i s e h =
      let p = pop_head k t d true s e in
      pop_keys_keeps d i (pop k true s).1 p.0
        (subst (λ f. is_done (f i) ≡ true) (sym p.1) (cancel_done t i s h))

  pop_keys_ends :
      (d : List (ℕ × ℕ)) (i k t : ℕ) (s : TaskMapping V)
      → s.dict ≡ d
      → get_elem? d i ≡ some (k, t)
      → is_done ((pop_keys (keys d) true s).tasks t) ≡ true
  unfolding pop_keys
  pop_keys_ends [] i k t s e h = cc
  pop_keys_ends ((k', t') ∷ d) zero k t s e h =
      let p = pop_head k' t' d true s e in
      let q = subst (λ f. is_done (f t') ≡ true) (sym p.1) (cancel_self t' s) in
      subst (λ j. is_done ((pop_keys (keys d) true (pop k' true s).1).tasks j) ≡ true) (cc)
        (pop_keys_keeps d t' (pop k' true s).1 p.0 q)
  pop_keys_ends ((k', t') ∷ d) (suc i) k t s e h =
      pop_keys_ends d i k t (pop k' true s).1 (pop_head k' t' d true s e).0 h

  -- After `clear(cancel=True)` the dictionary is empty, and each task that was in it is done or
  -- cancelled.
  pub clear_ends :
      (i k t : ℕ) (s : TaskMapping V)
      → get_elem? s.dict i ≡ some (k, t)
      → ((clear true s).dict ≡ []) × (is_done ((clear true s).tasks t) ≡ true)
  unfolding clear
  clear_ends i k t s h = (clear-nil s.dict true s refl, pop_keys_ends s.dict i k t s refl h)

  pop_keys-Avoids :
      (d : List (ℕ × ℕ)) (i : ℕ) (s : TaskMapping V)
      → s.dict ≡ d
      → Avoids i d
      → (pop_keys (keys d) true s).tasks i ≡ s.tasks i
  unfolding pop_keys
  pop_keys-Avoids [] i s e h = refl
  pop_keys-Avoids ((k, t) ∷ d) i s e h =
      let p = pop_head k t d true s e in
      pop_keys-Avoids d i (pop k true s).1 p.0 h.1 ∙ ap (λ f. f i) p.1 ∙ cancel_other t i s h.0

  -- When the loader meets a key twice in a row, on a mapping none of whose keys has the task
  -- that is made next and where that task is not done, the first of the two tasks is still
  -- running after `clear(cancel=True)`.
  pub restarted_lost :
      (k : ℕ) (s : TaskMapping V)
      → s.tasks s.created ≡ pending
      → Avoids s.created s.dict
      → (clear true (start_tasks (k ∷ k ∷ []) s)).tasks s.created ≡ pending
  unfolding start_tasks start_task clear
  restarted_lost k s p a =
      pop_keys-Avoids _ s.created (start_tasks (k ∷ k ∷ []) s) refl (
        subst (Avoids s.created) (sym (dict_set_twice k s.created (s.created + 1) s.dict))
          (dict_set-Avoids s.created k (s.created + 1) s.dict (omega arith) a))
      ∙ p
