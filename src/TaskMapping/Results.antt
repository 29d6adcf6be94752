-- ===== src/TaskMapping/Results.antt =====
-- a_sync/task.py: what the aggregates return.
use ez_a_sync.Prelude.{
  ℕ, ◌≡◌, refl, Bool, true, false, ◌&&◌, ◌||◌, List, [], ◌∷◌, none, some, ok, err, mapping_is_empty,
  is_empty, Bool-cases, inl, inr, ◌⊎◌,
}
use ez_a_sync.TaskMapping.{TaskMapping, if_pop_check_destroyed}
use ez_a_sync.TaskMapping.Loops.{
  Input, Loop, go_on, leave, Events, for_each, aiter, all, any, best, sum, popped, all_body,
  any_body, or_default, or_empty, or_nought, best_body, sum_body,
}

-- All tasks have a result.
abbrev pub results : {V : Type 0} → List (ℕ × V) → Events V
results [] = []
results ((k, v) ∷ vs) = (k, ok v) ∷ results vs

abbrev pub values : {V : Type 0} → List (ℕ × V) → List V
values [] = []
values ((k, v) ∷ vs) = v ∷ values vs

abbrev pub every : {V : Type 0} → (V → Bool) → List V → Bool
every p [] = true
every p (v ∷ vs) = p v && every p vs

abbrev pub exists : {V : Type 0} → (V → Bool) → List V → Bool
exists p [] = false
exists p (v ∷ vs) = p v || exists p vs

abbrev pub fold : {V : Type 0} → (V → V → V) → V → List V → V
fold f b [] = b
fold f b (v ∷ vs) = fold f (f b v) vs

-- `no_loader vs`: a mapping without a loader, whose tasks are done in this order.
abbrev pub no_loader : {V : Type 0} → List (ℕ × V) → Input V
no_loader vs = record { loader = none; rest = results vs }

module _ {V B : Type 0} (body : B → V → Loop B) (pops : Bool) (k : ℕ) (v : V) (es : Events V) where
  for_each-go_on :
      (b b' : B) (s : TaskMapping V)
      → body b v ≡ go_on b'
      → for_each body pops ((k, ok v) ∷ es) b s ≡ for_each body pops es b' (popped body pops k s)
  unfolding for_each
  for_each-go_on b b' s e = rw (e, for_each) refl

  for_each-leave :
      (b b' : B) (s : TaskMapping V)
      → body b v ≡ leave b'
      → for_each body pops ((k, ok v) ∷ es) b s ≡ (ok (leave b'), popped body pops k s)
  unfolding for_each
  for_each-leave b b' s e = rw (e, for_each) refl

module _ {V : Type 0} where
  -- A mapping that may be looped over.
  abbrev pub IsReady : TaskMapping V → Type 0
  IsReady s = (s.destroyed ≡ false) × (is_empty s.dict ≡ false)

  abbrev pub marked : Bool → TaskMapping V → TaskMapping V
  marked true s = record s { destroyed = true }
  marked false s = s

  aiter_ready :
      {B : Type 0} (body : B → V → Loop B) (pops : Bool) (vs : List (ℕ × V)) (b : B)
      (s : TaskMapping V)
      → IsReady s
      → (aiter body pops (no_loader vs) b s).0
        ≡ (for_each body pops (results vs) b (marked pops s)).0
  unfolding aiter if_pop_check_destroyed
  aiter_ready body true vs b s h = rw (h.0, h.1) refl
  aiter_ready body false vs b s h = rw h.1 refl

  aiter_empty :
      {B : Type 0} (body : B → V → Loop B) (pops : Bool) (i : Input V) (b : B) (s : TaskMapping V)
      → i.loader ≡ none
      → s.destroyed ≡ false
      → s.dict ≡ []
      → (aiter body pops i b s).0 ≡ err mapping_is_empty
  unfolding aiter if_pop_check_destroyed
  aiter_empty body true i b s l d e = rw (d, l, e) refl
  aiter_empty body false i b s l d e = rw (l, e) refl

  module _ (truthy : V → Bool) (pops : Bool) where
    for_each-all :
        (vs : List (ℕ × V)) (s : TaskMapping V)
        → or_default truthy true (for_each (all_body truthy) pops (results vs) true s).0
          ≡ ok (every truthy (values vs))
    unfolding for_each
    for_each-all [] s = refl
    for_each-all ((k, v) ∷ vs) s = elim (Bool-cases (truthy v)) [
      | inl e ↦
          rw (for_each-go_on (all_body truthy) pops k v (results vs) true true s (rw e refl), e)
            (for_each-all vs (popped (all_body truthy) pops k s))
      | inr e ↦
          rw (for_each-leave (all_body truthy) pops k v (results vs) true false s (rw e refl), e)
            refl
    ]

    for_each-any :
        (vs : List (ℕ × V)) (s : TaskMapping V)
        → or_default truthy false (for_each (any_body truthy) pops (results vs) false s).0
          ≡ ok (exists truthy (values vs))
    unfolding for_each
    for_each-any [] s = refl
    for_each-any ((k, v) ∷ vs) s = elim (Bool-cases (truthy v)) [
      | inl e ↦
          rw (for_each-leave (any_body truthy) pops k v (results vs) false true s (rw e refl), e)
            refl
      | inr e ↦
          rw (for_each-go_on (any_body truthy) pops k v (results vs) false false s (rw e refl), e)
            (for_each-any vs (popped (any_body truthy) pops k s))
    ]

    -- On a mapping without a loader that is not empty and not consumed and whose tasks all have
    -- a result, `all` and `any` return whether every result, or some result, is true, in
    -- whatever order the tasks are done.
    pub all-every :
        (vs : List (ℕ × V)) (s : TaskMapping V)
        → IsReady s
        → ((all truthy pops (no_loader vs) s).0 ≡ ok (every truthy (values vs)))
          × ((any truthy pops (no_loader vs) s).0 ≡ ok (exists truthy (values vs)))
    unfolding all any
    all-every vs s h = (
      rw (aiter_ready (all_body truthy) pops vs true s h) (for_each-all vs (marked pops s)),
      rw (aiter_ready (any_body truthy) pops vs false s h) (for_each-any vs (marked pops s)),
    )

    -- On a mapping without a loader and without tasks that is not consumed, `all` and `any`
    -- raise `MappingIsEmptyError`.
    pub all_empty :
        (i : Input V) (s : TaskMapping V)
        → i.loader ≡ none
        → s.destroyed ≡ false
        → s.dict ≡ []
        → ((all truthy pops i s).0 ≡ err mapping_is_empty)
          × ((any truthy pops i s).0 ≡ err mapping_is_empty)
    unfolding all any
    all_empty i s l d e = (
      rw (aiter_empty (all_body truthy) pops i true s l d e) refl,
      rw (aiter_empty (any_body truthy) pops i false s l d e) refl,
    )

  module _ (add : V → V → V) (nought : V) (pops : Bool) where
    for_each-sum :
        (vs : List (ℕ × V)) (b : V) (s : TaskMapping V)
        → or_nought add nought (for_each (sum_body add nought) pops (results vs) b s).0
          ≡ ok (fold add b (values vs))
    unfolding for_each
    for_each-sum [] b s = refl
    for_each-sum ((k, v) ∷ vs) b s =
        for_each-sum vs (add b v) (popped (sum_body add nought) pops k s)

    -- On a mapping without a loader that is not empty and not consumed and whose tasks all have
    -- a result, `sum` returns the results added up in the order in which the tasks are done.
    pub sum-fold :
        (vs : List (ℕ × V)) (s : TaskMapping V)
        → IsReady s
        → (sum add nought pops (no_loader vs) s).0 ≡ ok (fold add nought (values vs))
    unfolding sum
    sum-fold vs s h =
        rw (aiter_ready (sum_body add nought) pops vs nought s h)
          (for_each-sum vs nought (marked pops s))

  -- No value is better than `m`.
  abbrev pub IsBest : (V → V → Bool) → V → List V → Type 0
  IsBest better m [] = Unit
  IsBest better m (v ∷ vs) = (better v m ≡ false) × IsBest better m vs

  abbrev pub Among : V → List V → Type 0
  Among m [] = ⊥
  Among m (v ∷ vs) = (m ≡ v) ⊎ Among m vs

  Among-skip : (r m v : V) (vs : List V) → Among r (m ∷ vs) → Among r (m ∷ v ∷ vs)
  Among-skip r m v vs (inl e) = inl e
  Among-skip r m v vs (inr a) = inr (inr a)

  module _ (better : V → V → Bool) (pops : Bool)
      (asym : (a b : V) → better a b ≡ true → better b a ≡ false)
      (irrefl : (a : V) → better a a ≡ false)
      (trans : (a b c : V) → better a b ≡ false → better b c ≡ false → better a c ≡ false) where
    for_each-IsBest :
        (vs : List (ℕ × V)) (m : V) (s : TaskMapping V)
        → (r : V) × (or_empty better (for_each (best_body better) pops (results vs) (some m) s).0
            ≡ ok r)
          × IsBest better r (m ∷ values vs)
          × Among r (m ∷ values vs)
    unfolding for_each
    for_each-IsBest [] m s = (m, refl, (irrefl m, tt), inl refl)
    for_each-IsBest ((k, v) ∷ vs) m s = elim (Bool-cases (better v m)) [
      | inl e ↦
          let (r, f, (p, q), a) = for_each-IsBest vs v (popped (best_body better) pops k s) in
          (r, rw e f, (trans m v r (asym v m e) p, (p, q)), inr a)
      | inr e ↦
          let (r, f, (p, q), a) = for_each-IsBest vs m (popped (best_body better) pops k s) in
          (r, rw e f, (p, (trans v m r e p, q)), Among-skip r m v (values vs) a)
    ]

    -- For an order that is asymmetric, irreflexive and negatively transitive, on a mapping
    -- without a loader that is not empty and not consumed and whose tasks all have a result,
    -- `max` (or `min`) returns one of the results, and no result is better than it.
    pub best-IsBest :
        (v : V) (k : ℕ) (vs : List (ℕ × V)) (s : TaskMapping V)
        → IsReady s
        → (r : V) × ((best better pops (no_loader ((k, v) ∷ vs)) s).0 ≡ ok r)
          × IsBest better r (v ∷ values vs)
          × Among r (v ∷ values vs)
    unfolding best for_each
    best-IsBest v k vs s h =
        let (r, e, p, a) =
          for_each-IsBest vs v (popped (best_body better) pops k (marked pops s)) in
        (r, rw (aiter_ready (best_body better) pops ((k, v) ∷ vs) none s h) e, p, a)
