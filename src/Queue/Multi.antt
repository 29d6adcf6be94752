-- ===== src/Queue/Multi.antt =====
-- `get_multi_nowait` of a_sync/primitives/queue.py, on each of its outcomes.
use ez_a_sync.Prelude.{
  sym, ◌≢◌, ◌⊎◌, subst, ℕ, zero, suc, ◌+◌, ◌<◌, ◌≤◌, ◌≡◌, List, [], ◌∷◌, ◌++◌, ok, err, queue_empty,
  length, is_empty, Bool, true, false, take, drop, is_int, is_bool, to_ℕ, is_true, Value, arith,
  append-nil, append_assoc,
}
use ez_a_sync.Asyncio.{AsyncQueue}
use ez_a_sync.Asyncio.Laws.{Holds, Holds-self, get_nowait-cons, get_nowait-nil, Fits}
use ez_a_sync.Queue.{collect, get_multi_nowait, validate_args}
use ez_a_sync.Queue.PutBack.{put_back_lem}

module _ {ℓ} {A : Type ℓ} where
  -- Enough items: the loop takes as many as it was asked for, oldest first.
  pub collect_enough :
      (n : ℕ) (less : Bool) (items xs : List A) (q : AsyncQueue A) {u m : ℕ}
      → Holds q xs u m
      → n ≤ length xs
      → (q' : AsyncQueue A) × (collect n less items q ≡ (ok (items ++ take n xs), q'))
        × Holds q' (drop n xs) u m
  unfolding collect
  collect_enough zero less items xs q h le = (q, ground (arith, append-nil items), h)
  collect_enough (suc n) less items [] q h le = absurd (omega arith)
  collect_enough (suc n) less items (x ∷ xs) q h le =
      let (q1, e, h1) = get_nowait-cons h in
      let (q', eq, h') = collect_enough n less (items ++ x ∷ []) xs q1 h1 (omega arith) in
      (q', ground (arith, e, eq, append_assoc items (x ∷ []) (take n xs)), h')

  -- Too few items, and fewer are allowed: the loop takes them all.
  collect_less :
      (n : ℕ) (items xs : List A) (q : AsyncQueue A) {u m : ℕ}
      → Holds q xs u m
      → length xs < n
      → is_empty (items ++ xs) ≡ false
      → (q' : AsyncQueue A) × (collect n true items q ≡ (ok (items ++ xs), q')) × Holds q' [] u m
  unfolding collect
  collect_less zero items xs q h lt ne = absurd (omega arith)
  collect_less (suc n) items [] q h lt ne =
      (q, ground (arith, get_nowait-nil h, append-nil items), h)
  collect_less (suc n) items (x ∷ xs) q h lt ne =
      let (q1, e, h1) = get_nowait-cons h in
      let (q', eq, h') =
        collect_less n (items ++ x ∷ []) xs q1 h1 (omega arith)
          (ground (arith, append_assoc items (x ∷ []) xs)) in
      (q', ground (arith, e, eq, append_assoc items (x ∷ []) xs), h')

  Holds-regroup :
      (q : AsyncQueue A) (u m : ℕ) (xs ys : List A)
      → xs ≡ ys
      → Holds q xs (u + length xs) m
      → Holds q ys (u + length ys) m
  Holds-regroup q u m xs ys e h = subst (λ l. Holds q l (u + length l) m) e h

  -- Too few items, otherwise: what was taken is put back, and each item counts as a task again.
  collect_fails :
      (n : ℕ) (less : Bool) (items xs : List A) (q : AsyncQueue A) {u m : ℕ}
      → Holds q xs u m
      → length xs < n
      → (less ≡ false) ⊎ (items ++ xs ≡ [])
      → (m ≡ 0) ⊎ (length (items ++ xs) ≤ m)
      → (q' : AsyncQueue A) × (collect n less items q ≡ (err queue_empty, q'))
        × Holds q' (items ++ xs) (u + length (items ++ xs)) m
  unfolding collect
  collect_fails zero less items xs q h lt deny room = absurd (omega arith)
  collect_fails (suc n) less items [] q {u} {m} h lt deny room =
      let nil = append-nil items in
      let (q', eq, h') = put_back_lem items [] q h (ground (arith, room, nil)) in
      (
        q',
        ground (arith, get_nowait-nil h, eq, deny, nil),
        Holds-regroup q' u m items (items ++ []) (sym nil) h',
      )
  collect_fails (suc n) less items (x ∷ xs) q {u} {m} h lt deny room =
      let regroup = append_assoc items (x ∷ []) xs in
      let (q1, e, h1) = get_nowait-cons h in
      let (q', eq, h') =
        collect_fails n less (items ++ x ∷ []) xs q1 h1 (omega arith) (ground (arith, regroup))
          (ground (arith, regroup)) in
      (
        q',
        ground (arith, e, eq),
        Holds-regroup q' u m ((items ++ x ∷ []) ++ xs) (items ++ x ∷ xs) regroup h',
      )

-- Arguments that `_validate_args` lets pass.
pub record IsRequest (i can_return_less : Value) : Type 0 where
  pub integer : is_int i ≡ true
  pub flag : is_bool can_return_less ≡ true
  pub several : 1 < to_ℕ i

pub validate_args-IsRequest :
    (i can_return_less : Value)
    → IsRequest i can_return_less
    → validate_args i can_return_less ≡ ok tt
unfolding validate_args
validate_args-IsRequest i c r = rw (r.integer, r.flag) (ground (arith, r.several))

module _ {ℓ} {A : Type ℓ} (i can_return_less : Value) (q : AsyncQueue A)
    (valid : IsRequest i can_return_less) where
  -- For valid arguments and a queue of at least `i` items, `get_multi_nowait` returns the oldest
  -- `i` in order and leaves the others, the count of unfinished tasks and the bound.
  pub get_multi_nowait_enough :
      to_ℕ i ≤ length q.queue
      → (q' : AsyncQueue A) × (get_multi_nowait i can_return_less q
          ≡ (ok (take (to_ℕ i) q.queue), q'))
        × Holds q' (drop (to_ℕ i) q.queue) q.unfinished_tasks q.maxsize
  unfolding get_multi_nowait
  get_multi_nowait_enough le =
      let (q', e, h) =
        collect_enough (to_ℕ i) (is_true can_return_less) [] q.queue q (Holds-self q) le in
      (q', rw (validate_args-IsRequest i can_return_less valid, get_multi_nowait) e, h)

  -- For valid arguments, a queue that holds some items but fewer than `i`, and
  -- `can_return_less`, `get_multi_nowait` returns all of them in order and leaves the queue
  -- empty.
  pub get_multi_nowait_less :
      length q.queue < to_ℕ i
      → q.queue ≢ []
      → is_true can_return_less ≡ true
      → (q' : AsyncQueue A) × (get_multi_nowait i can_return_less q ≡ (ok q.queue, q'))
        × Holds q' [] q.unfinished_tasks q.maxsize
  unfolding get_multi_nowait
  get_multi_nowait_less lt ne less =
      let (q', e, h) = collect_less (to_ℕ i) [] q.queue q (Holds-self q) lt (ground arith) in
      (q', rw (validate_args-IsRequest i can_return_less valid, less, get_multi_nowait) e, h)

  -- For valid arguments and a queue within its bound that holds fewer than `i` items, where
  -- fewer are not allowed or there are none, `get_multi_nowait` raises `QueueEmpty`, the queue
  -- holds the same items in the same order, and the count of unfinished tasks has grown by their
  -- number.
  pub get_multi_nowait_fails :
      length q.queue < to_ℕ i
      → (is_true can_return_less ≡ false) ⊎ (q.queue ≡ [])
      → Fits q
      → (q' : AsyncQueue A) × (get_multi_nowait i can_return_less q ≡ (err queue_empty, q'))
        × Holds q' q.queue (q.unfinished_tasks + length q.queue) q.maxsize
  unfolding get_multi_nowait
  get_multi_nowait_fails lt deny fits =
      let (q', e, h) =
        collect_fails (to_ℕ i) (is_true can_return_less) [] q.queue q (Holds-self q) lt deny fits in
      (q', rw (validate_args-IsRequest i can_return_less valid, get_multi_nowait) e, h)
