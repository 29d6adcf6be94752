-- ===== src/Smart/Keys.antt =====
-- `_futs` of `SmartProcessingQueue` in a_sync/primitives/queue.py, by its entries.
use ez_a_sync.Prelude.{
  ℕ, ◌≡◌, ◌≢◌, Bool, true, false, ◌&&◌, ◌||◌, List, [], ◌∷◌, none, some, ◌==◌, if◌then◌else◌, arith,
}
use ez_a_sync.Smart.{get_fut, pop_fut, forget_fut}

abbrev pub has_entry : ℕ → ℕ → List (ℕ × ℕ) → Bool
has_entry k i [] = false
has_entry k i ((j, l) ∷ futs) = ((k == j) && (i == l)) || has_entry k i futs

pub has_entry-get :
    (k i : ℕ) (futs : List (ℕ × ℕ)) → get_fut k futs ≡ some i → has_entry k i futs ≡ true
unfolding get_fut
has_entry-get k i [] e = cc
has_entry-get k i ((j, l) ∷ futs) e = ground (arith, e, has_entry-get k i futs)

pub get_fut-pop :
    (k j : ℕ) (futs : List (ℕ × ℕ))
    → get_fut k (pop_fut j futs) ≡ (if k == j then none else get_fut k futs)
unfolding get_fut pop_fut
get_fut-pop k j [] = ground arith
get_fut-pop k j ((l, i) ∷ futs) = ground (arith, get_fut-pop k j futs)

pub has_entry-pop :
    (k i j : ℕ) (futs : List (ℕ × ℕ))
    → has_entry k i (pop_fut j futs) ≡ true
    → (has_entry k i futs ≡ true) × (k ≢ j)
unfolding pop_fut
has_entry-pop k i j [] e = cc
has_entry-pop k i j ((l, m) ∷ futs) e =
    (ground (arith, e, has_entry-pop k i j futs), ground (arith, e, has_entry-pop k i j futs))

pub has_entry-forget :
    (k i j : ℕ) (futs : List (ℕ × ℕ))
    → has_entry k i (forget_fut j futs) ≡ true
    → (has_entry k i futs ≡ true) × (i ≢ j)
unfolding forget_fut
has_entry-forget k i j [] e = cc
has_entry-forget k i j ((l, m) ∷ futs) e =
    (ground (arith, e, has_entry-forget k i j futs), ground (arith, e, has_entry-forget k i j futs))

pub get_fut-forget :
    (k i j : ℕ) (futs : List (ℕ × ℕ))
    → i ≢ j
    → get_fut k futs ≡ some i
    → get_fut k (forget_fut j futs) ≡ some i
unfolding get_fut forget_fut
get_fut-forget k i j [] n e = cc
get_fut-forget k i j ((l, m) ∷ futs) n e = ground (arith, n, e, get_fut-forget k i j futs n)
