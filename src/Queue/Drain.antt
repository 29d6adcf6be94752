-- ===== src/Queue/Drain.antt =====
-- `get_all_nowait` and `get_all` of a_sync/primitives/queue.py.
use ez_a_sync.Prelude.{
  sym, ap, ◌∙◌, ◌≢◌, ◌⊎◌, inl, inr, refl, subst, List-cases, ℕ, zero, suc, ◌<◌, ◌≡◌, List, [], ◌∷◌,
  ◌++◌, some, ok, err, queue_empty, length, is_empty, if◌then◌else◌, arith, append-nil,
  append_assoc,
}
use ez_a_sync.Asyncio.{AsyncQueue}
use ez_a_sync.Asyncio.Laws.{Holds, Holds-self, get_nowait-cons, get_nowait-nil}
use ez_a_sync.Queue.{drain, get_all_nowait, get_all, await_get, Arrivals}
use ez_a_sync.Queue.PutBack.{put_back_lem}
use mathlib.Core.List.{flatten}

module _ {ℓ} {A : Type ℓ} where
  -- With more fuel than items the loop ends, with the items behind those it held.
  pub drain_lem :
      (fuel : ℕ) (values xs : List A) (q : AsyncQueue A) {u m : ℕ}
      → Holds q xs u m
      → length xs < fuel
      → (q' : AsyncQueue A) × (drain fuel values q
          ≡ some
              (if is_empty (values ++ xs) then (err queue_empty, q') else (ok (values ++ xs), q')))
        × Holds q' [] u m
  unfolding drain
  drain_lem zero values xs q h lt = elim lt [ ]
  drain_lem (suc fuel) values [] q h lt =
      (q, ground (arith, get_nowait-nil h, append-nil values), h)
  drain_lem (suc fuel) values (x ∷ xs) q h lt =
      let (q1, e, h1) = get_nowait-cons h in
      let (q', eq, h') = drain_lem fuel (values ++ x ∷ []) xs q1 h1 (omega arith) in
      (q', ground (arith, e, eq, append_assoc values (x ∷ []) xs), h')

  pub get_all_nowait-nil :
      (q : AsyncQueue A) → q.queue ≡ [] → get_all_nowait q ≡ some (err queue_empty, q)
  unfolding get_all_nowait
  get_all_nowait-nil q e = ground (
    arith,
    get_nowait-nil (subst (λ xs. Holds q xs q.unfinished_tasks q.maxsize) e (Holds-self q)),
  )

  pub get_all_nowait-cons :
      (q : AsyncQueue A) (x : A) (xs : List A)
      → q.queue ≡ x ∷ xs
      → (q' : AsyncQueue A) × (get_all_nowait q ≡ some (ok (x ∷ xs), q'))
        × Holds q' [] q.unfinished_tasks q.maxsize
  unfolding get_all_nowait
  get_all_nowait-cons q x xs e =
      let (q', eq, h') =
        drain_lem (suc (length q.queue)) [] q.queue q (Holds-self q) (omega arith) in
      (q', ground (arith, eq, e), h')

  -- On an empty queue `get_all_nowait` raises `QueueEmpty` and changes nothing; on any other it
  -- returns every item, oldest first, and leaves an empty queue with the same count of
  -- unfinished tasks and the same bound.
  pub get_all_nowait_lem :
      (q : AsyncQueue A)
      → ((q.queue ≡ []) × (get_all_nowait q ≡ some (err queue_empty, q)))
        ⊎ ((q' : AsyncQueue A) × (q.queue ≢ [])
            × (get_all_nowait q ≡ some (ok q.queue, q'))
            × Holds q' [] q.unfinished_tasks q.maxsize)
  get_all_nowait_lem q = elim (List-cases q.queue) [
    | inl e ↦ inl (e, get_all_nowait-nil q e)
    | inr (x, xs, e) ↦
        let (q', eq, h) = get_all_nowait-cons q x xs e in
        inr (q', (λ n. cc (e, n)), eq ∙ ap (λ l. some (ok l, q')) (sym e), h)
  ]

  await_get-cons :
      (arrivals : Arrivals A) (q : AsyncQueue A) {y : A} {ys : List A} {u m : ℕ}
      → Holds q (y ∷ ys) u m
      → (q' : AsyncQueue A) × (await_get arrivals q ≡ some (ok y, arrivals, q')) × Holds q' ys u m
  unfolding await_get
  await_get-cons [] q h =
      let (q', e, h') = get_nowait-cons h in (q', ground (arith, h.items, e), h')
  await_get-cons (batch ∷ rest) q h =
      let (q', e, h') = get_nowait-cons h in (q', ground (arith, h.items, e), h')

  -- An unbounded queue that is empty: a waiting `get` returns the first item that arrives.
  await_get-nil :
      (arrivals : Arrivals A) (q : AsyncQueue A) {u : ℕ} {x : A} {xs : List A}
      → Holds q [] u 0
      → flatten arrivals ≡ x ∷ xs
      → (rest : Arrivals A) × (q' : AsyncQueue A) × (await_get arrivals q ≡ some (ok x, rest, q'))
        × (q'.queue ++ flatten rest ≡ xs)
  unfolding await_get flatten
  await_get-nil [] q h e = cc
  await_get-nil ([] ∷ rest) q h e =
      let (q1, e1, h1) = put_back_lem [] [] q h (inl refl) in
      let (rest', q', e', t) = await_get-nil rest q1 h1 e in
      (rest', q', ground (arith, h.items, e1, e'), t)
  await_get-nil ((y ∷ ys) ∷ rest) q h e =
      let (q1, e1, h1) = put_back_lem (y ∷ ys) [] q h (inl refl) in
      let (q', e', h') = await_get-cons rest q1 h1 in
      (rest, q', ground (arith, h.items, e1, e', e), ground (arith, h'.items, e))

  -- On an empty unbounded queue where items are going to arrive, `get_all` returns the first of
  -- them alone, and the queue is left with the ones that follow it, in order, up to some point.
  pub get_all_waits :
      (arrivals : Arrivals A) (q : AsyncQueue A) (x : A) (xs : List A)
      → q.queue ≡ []
      → q.maxsize ≡ 0
      → flatten arrivals ≡ x ∷ xs
      → (rest : Arrivals A) × (q' : AsyncQueue A) × (get_all arrivals q ≡ some (ok (x ∷ []), q'))
        × (q'.queue ++ flatten rest ≡ xs)
  unfolding get_all
  get_all_waits arrivals q x xs e unbounded arrive =
      let h : Holds q [] q.unfinished_tasks 0 = record {
        items = e;
        tasks = refl;
        bound = unbounded;
      } in
      let (rest, q', e', t) = await_get-nil arrivals q h arrive in
      (rest, q', rw (get_all_nowait-nil q e, get_all) (rw (e', get_all)), t)

  -- On a queue with items `get_all` does what `get_all_nowait` does, with no wait.
  pub get_all_ready :
      (arrivals : Arrivals A) (q : AsyncQueue A)
      → q.queue ≢ []
      → (q' : AsyncQueue A) × (get_all arrivals q ≡ some (ok q.queue, q'))
        × (q'.queue ≡ [])
        × (q'.unfinished_tasks ≡ q.unfinished_tasks)
  unfolding get_all
  get_all_ready arrivals q ne = elim (List-cases q.queue) [
    | inl e ↦ absurd (ne e)
    | inr (x, xs, e) ↦
        let (q', eq, h) = get_all_nowait-cons q x xs e in
        (q', rw (eq, get_all) (ap (λ l. some (ok l, q')) (sym e)), h.items, h.tasks)
  ]
