-- ===== src/Yielding/Queues.antt =====
-- What the steps of `as_yielded` in a_sync/utils/iterators.py do to its queue.
use ez_a_sync.Prelude.{
  ℕ, zero, suc, ◌+◌, ◌≡◌, ◌≢◌, refl, sym, ap, ◌∙◌, true, List, [], ◌∷◌, ◌++◌, some, Result, ok, err,
  queue_empty, inl, inr, ◌⊎◌, Result-cases, length, arith,
}
use ez_a_sync.Asyncio.{
  AsyncQueue, put_nowait, get_nowait, task_done, wake_getter, wake_putter, full,
}
use ez_a_sync.Asyncio.Laws.{Holds, get_nowait-cons, get_nowait-nil}
use ez_a_sync.Queue.{get_all_nowait, drain}
use ez_a_sync.Queue.Drain.{get_all_nowait_lem}

module _ {A : Type 0} where
  -- A queue without a bound that holds `xs`, where `u` items have not been marked as done.
  pub record Unbounded (q : AsyncQueue A) (xs : List A) (u : ℕ) : Type 0 where
    pub items : q.queue ≡ xs
    pub bound : q.maxsize ≡ 0
    pub tasks : q.unfinished_tasks ≡ u
    pub joined : q.all_done ≡ true → u ≡ 0

  pub put_nowait-Unbounded :
      (x : A) (q : AsyncQueue A) (xs : List A) (u : ℕ)
      → Unbounded q xs u
      → Unbounded (put_nowait x q).1 (xs ++ x ∷ []) (u + 1)
  unfolding put_nowait wake_getter full
  put_nowait-Unbounded x q xs u h = record {
    items = ground (arith, h.items, h.bound);
    bound = ground (arith, h.bound);
    tasks = ground (arith, h.tasks, h.bound);
    joined = λ e. absurd (ground (arith, h.bound, e));
  }

  pub task_done-Unbounded :
      (q : AsyncQueue A) (xs : List A) (u : ℕ)
      → Unbounded q xs (suc u)
      → Unbounded (task_done q).1 xs u
  unfolding task_done
  task_done-Unbounded q xs u h = record {
    items = ground (arith, h.items);
    bound = ground (arith, h.bound);
    tasks = ground (arith, h.tasks);
    joined = λ e. ground (arith, h.tasks, h.joined, e);
  }

  get_nowait-all_done : (q : AsyncQueue A) → (get_nowait q).1.all_done ≡ q.all_done
  unfolding get_nowait wake_putter
  get_nowait-all_done q = ground arith

  drain-all_done :
      (fuel : ℕ) (values : List A) (q q' : AsyncQueue A) (r : Result (List A))
      → drain fuel values q ≡ some (r, q')
      → q'.all_done ≡ q.all_done
  unfolding drain
  drain-all_done zero values q q' r e = cc
  drain-all_done (suc fuel) values q q' r e = elim (Result-cases (get_nowait q).0) [
    | inl (x, h) ↦
        drain-all_done fuel (values ++ x ∷ []) (get_nowait q).1 q' r (ground (arith, h, e))
        ∙ get_nowait-all_done q
    | inr (exn, h) ↦ ground (arith, h, e, get_nowait-all_done q)
  ]

  of_Holds :
      (q q' : AsyncQueue A) (xs ys : List A) (u : ℕ)
      → Unbounded q xs u
      → Holds q' ys q.unfinished_tasks q.maxsize
      → q'.all_done ≡ q.all_done
      → Unbounded q' ys u
  of_Holds q q' xs ys u h g e = record {
    items = g.items;
    bound = g.bound ∙ h.bound;
    tasks = g.tasks ∙ h.tasks;
    joined = λ j. h.joined (sym e ∙ j);
  }

  to_Holds :
      (q : AsyncQueue A) (xs : List A) (u : ℕ)
      → Unbounded q xs u
      → Holds q xs q.unfinished_tasks q.maxsize
  to_Holds q xs u h = record { items = h.items; tasks = refl; bound = refl }

  pub get_nowait-Unbounded :
      (q : AsyncQueue A) (x : A) (xs : List A) (u : ℕ)
      → Unbounded q (x ∷ xs) u
      → (q' : AsyncQueue A) × (get_nowait q ≡ (ok x, q')) × Unbounded q' xs u
  get_nowait-Unbounded q x xs u h =
      let (q', e, g) = get_nowait-cons (to_Holds q (x ∷ xs) u h) in
      (
        q',
        e,
        of_Holds q q' (x ∷ xs) xs u h g (sym (ap (λ p. p.1.all_done) e) ∙ get_nowait-all_done q),
      )

  pub get_nowait-Unbounded_nil :
      (q : AsyncQueue A) (u : ℕ) → Unbounded q [] u → get_nowait q ≡ (err queue_empty, q)
  get_nowait-Unbounded_nil q u h = get_nowait-nil (to_Holds q [] u h)

  pub get_all_nowait-Unbounded :
      (q : AsyncQueue A) (xs : List A) (u : ℕ)
      → Unbounded q xs u
      → ((xs ≡ []) × (get_all_nowait q ≡ some (err queue_empty, q)))
        ⊎ ((q' : AsyncQueue A) × (xs ≢ [])
            × (get_all_nowait q ≡ some (ok xs, q'))
            × Unbounded q' [] u)
  unfolding get_all_nowait
  get_all_nowait-Unbounded q xs u h = elim (get_all_nowait_lem q) [
    | inl (e, f) ↦ inl (sym h.items ∙ e, f)
    | inr (q', ne, f, g) ↦ inr (
      q',
      (λ n. ne (h.items ∙ n)),
      f ∙ ap (λ l. some (ok l, q')) h.items,
      of_Holds q q' xs [] u h g (drain-all_done (suc (length q.queue)) [] q q' (ok q.queue) f),
    )
  ]
