-- ===== src/Queue/PutBack.antt =====
-- Puts of several items in a row, as `get_multi_nowait` and the other tasks make them.
use ez_a_sync.Prelude.{
  ℕ, suc, ◌+◌, ◌≤◌, ◌<◌, ◌≡◌, refl, List, [], ◌∷◌, ◌++◌, ok, length, arith, append-nil,
  append_assoc, ◌⊎◌, inl, inr,
}
use ez_a_sync.Asyncio.{AsyncQueue}
use ez_a_sync.Asyncio.Laws.{Holds, put_nowait-room}
use ez_a_sync.Queue.{put_back}

room_first : (m n k : ℕ) → (m ≡ 0) ⊎ (n + suc k ≤ m) → (m ≡ 0) ⊎ (n < m)
room_first m n k (inl e) = inl e
room_first m n k (inr h) = inr (omega arith)

room_rest : (m n k l : ℕ) → l ≡ n + 1 → (m ≡ 0) ⊎ (n + suc k ≤ m) → (m ≡ 0) ⊎ (l + k ≤ m)
room_rest m n k l e (inl z) = inl z
room_rest m n k l e (inr h) = inr (omega arith)

module _ {ℓ} {A : Type ℓ} where
  length-snoc : (xs : List A) (x : A) → length (xs ++ x ∷ []) ≡ length xs + 1
  length-snoc [] x = omega arith
  length-snoc (y ∷ xs) x = omega (arith, length-snoc xs x)

  -- Where the items fit, all are put, in order, and each counts as a new task.
  pub put_back_lem :
      (items xs : List A) (q : AsyncQueue A) {u m : ℕ}
      → Holds q xs u m
      → (m ≡ 0) ⊎ (length xs + length items ≤ m)
      → (q' : AsyncQueue A) × (put_back items q ≡ (ok tt, q'))
        × Holds q' (xs ++ items) (u + length items) m
  unfolding put_back
  put_back_lem [] xs q h room = (
    q,
    refl,
    record { items = ground (arith, append-nil xs, h.items); tasks = omega arith; bound = h.bound },
  )
  put_back_lem (y ∷ items) xs q {u} {m} h room =
      let (q1, e, h1) = put_nowait-room y h (room_first m (length xs) (length items) room) in
      let (q', eq, h') =
        put_back_lem items (xs ++ y ∷ []) q1 h1 (
          room_rest m (length xs) (length items) (length (xs ++ y ∷ [])) (length-snoc xs y) room) in
      (
        q',
        ground (arith, e, eq),
        record {
          items = ground (arith, h'.items, append_assoc xs (y ∷ []) items);
          tasks = omega arith;
          bound = h'.bound;
        },
      )
