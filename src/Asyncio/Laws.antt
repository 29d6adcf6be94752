-- ===== src/Asyncio/Laws.antt =====
-- The parts of `asyncio.Queue` that its operations set, with the waiters left aside.
use ez_a_sync.Prelude.{
  ℕ, ◌+◌, ◌≤◌, ◌<◌, ◌≡◌, refl, false, List, [], ◌∷◌, ◌++◌, ok, err, queue_empty, length, arith, ◌⊎◌,
}
use ez_a_sync.Asyncio.{AsyncQueue, full, wake_getter, wake_putter, get_nowait, put_nowait}

-- The bound that a queue keeps.
abbrev pub Fits {ℓ} : {A : Type ℓ} → AsyncQueue A → Type 0
Fits q = (q.maxsize ≡ 0) ⊎ (length q.queue ≤ q.maxsize)

module _ {ℓ} {A : Type ℓ} where
  pub record Holds (q : AsyncQueue A) (xs : List A) (unfinished maxsize : ℕ) : Type ℓ where
    pub items : q.queue ≡ xs
    pub tasks : q.unfinished_tasks ≡ unfinished
    pub bound : q.maxsize ≡ maxsize

  pub Holds-self : (q : AsyncQueue A) → Holds q q.queue q.unfinished_tasks q.maxsize
  Holds-self q = record { items = refl; tasks = refl; bound = refl }

  -- Taking the oldest item leaves the count of unfinished tasks alone.
  pub get_nowait-cons :
      {q : AsyncQueue A} {x : A} {xs : List A} {u m : ℕ}
      → Holds q (x ∷ xs) u m
      → (q' : AsyncQueue A) × (get_nowait q ≡ (ok x, q')) × Holds q' xs u m
  unfolding get_nowait wake_putter
  get_nowait-cons {q} {xs = xs} h = (
    wake_putter (record q { queue = xs }),
    ground arith,
    record { items = refl; tasks = h.tasks; bound = h.bound },
  )

  pub get_nowait-nil :
      {q : AsyncQueue A} {u m : ℕ} → Holds q [] u m → get_nowait q ≡ (err queue_empty, q)
  unfolding get_nowait
  get_nowait-nil h = ground arith

  -- A put adds at the end and counts a task.
  pub put_nowait-room :
      {q : AsyncQueue A} (x : A) {xs : List A} {u m : ℕ}
      → Holds q xs u m
      → (m ≡ 0) ⊎ (length xs < m)
      → (q' : AsyncQueue A) × (put_nowait x q ≡ (ok tt, q')) × Holds q' (xs ++ x ∷ []) (u + 1) m
  unfolding put_nowait wake_getter full
  put_nowait-room {q} x h room = (
    wake_getter (record q {
      queue = q.queue ++ x ∷ [];
      unfinished_tasks = q.unfinished_tasks + 1;
      all_done = false;
    }),
    ground arith,
    record { items = ground arith; tasks = ground arith; bound = h.bound },
  )
