-- ===== src/Counter/Heap.antt =====
-- A heap of distinct keys, kept sorted.
use ez_a_sync.Prelude.{
  ℕ, ◌<◌, ◌≡◌, ◌≢◌, refl, sym, ap, subst, ◌∙◌, Bool, true, false, ◌||◌, List, [], ◌∷◌, ◌++◌, leb,
  ◌==◌, if◌then◌else◌, any, Bool-cases, inl, inr, arith,
}
use ez_a_sync.Counter.{heap_push, remove}

-- The keys are above `lo` and go up.
abbrev pub IsFrom : ℕ → List ℕ → Type 0
IsFrom lo [] = Unit
IsFrom lo (k ∷ ks) = (lo < k) × IsFrom k ks

abbrev pub mem : ℕ → List ℕ → Bool
mem k ks = any (λ j. k == j) ks

pub eq_true : (a b : ℕ) → (a == b) ≡ true → a ≡ b
eq_true a b e = ground (arith, e)

pub eq_refl : (a : ℕ) → (a == a) ≡ true
eq_refl a = ground arith

pub eq_false : (a b : ℕ) → a ≢ b → (a == b) ≡ false
eq_false a b h = ground (arith, h)

pub if_true : {A : Type 0} (b : Bool) (x y : A) → b ≡ true → (if b then x else y) ≡ x
if_true b x y e = rw e refl

pub if_false : {A : Type 0} (b : Bool) (x y : A) → b ≡ false → (if b then x else y) ≡ y
if_false b x y e = rw e refl

pub later : (b c : Bool) → b ≡ false → (b || c) ≡ true → c ≡ true
later b c e h = ground (arith, e, h)

pub or_left : (b c : Bool) → (b || c) ≡ false → b ≡ false
or_left true c h = absurd cc
or_left false c h = refl

pub or_right : (b c : Bool) → (b || c) ≡ false → c ≡ false
or_right true c h = absurd cc
or_right false c h = h

pub or_intro : (b c : Bool) → c ≡ true → (b || c) ≡ true
or_intro true c h = refl
or_intro false c h = h

or_swap : (a b c : Bool) → (a || (b || c)) ≡ (b || (a || c))
or_swap true true c = refl
or_swap true false c = refl
or_swap false b c = refl

or_assoc : (a b c : Bool) → (a || (b || c)) ≡ ((a || b) || c)
or_assoc true b c = refl
or_assoc false b c = refl

or_map : (b c d : Bool) → (c ≡ true → d ≡ true) → (b || c) ≡ true → (b || d) ≡ true
or_map true c d h e = refl
or_map false c d h e = h e

first_ne : (k j : ℕ) (b : Bool) → leb k j ≡ true → ((k == j) || b) ≡ false → k < j
first_ne k j b le e = ground (arith, le, e)

pub above : (lo k : ℕ) (ks : List ℕ) → IsFrom lo ks → mem k ks ≡ true → lo < k
above lo k [] h e = absurd cc
above lo k (j ∷ js) (h, hs) e = elim (Bool-cases (k == j)) [
  | inl same ↦ omega (arith, h, eq_true k j same)
  | inr differs ↦ omega (arith, h, above j k js hs (later (k == j) (mem k js) differs e))
]

pub above_push :
    (lo k : ℕ) (ks : List ℕ) → lo < k → IsFrom lo ks → mem k ks ≡ false → IsFrom lo (heap_push k ks)
unfolding heap_push
above_push lo k [] h hs e = (h, tt)
above_push lo k (j ∷ js) h (hj, hs) e = elim (Bool-cases (leb k j)) [
  | inl le ↦
      subst (IsFrom lo) (sym (if_true (leb k j) _ _ le)) (h, (first_ne k j (mem k js) le e, hs))
  | inr gt ↦
      subst (IsFrom lo) (sym (if_false (leb k j) _ _ gt))
        (hj, above_push j k js (ground (arith, gt)) hs (or_right (k == j) (mem k js) e))
]

pub mem-push : (i k : ℕ) (ks : List ℕ) → mem i (heap_push k ks) ≡ ((i == k) || mem i ks)
unfolding heap_push
mem-push i k [] = refl
mem-push i k (j ∷ js) = elim (Bool-cases (leb k j)) [
  | inl le ↦ ap (mem i) (if_true (leb k j) _ _ le)
  | inr gt ↦
      ap (mem i) (if_false (leb k j) _ _ gt)
      ∙ ap (λ b. (i == j) || b) (mem-push i k js)
      ∙ or_swap (i == j) (i == k) (mem i js)
]

pub mem-append : (f : ℕ) (fs gs : List ℕ) → mem f (fs ++ gs) ≡ (mem f fs || mem f gs)
mem-append f [] gs = refl
mem-append f (g ∷ fs) gs =
    ap (λ b. (f == g) || b) (mem-append f fs gs) ∙ or_assoc (f == g) (mem f fs) (mem f gs)

-- Nothing new is in a list from which an item was removed.
pub mem-remove : (f g : ℕ) (fs : List ℕ) → mem f (remove g fs) ≡ true → mem f fs ≡ true
unfolding remove
mem-remove f g [] e = e
mem-remove f g (j ∷ js) e = elim (Bool-cases (j == g)) [
  | inl same ↦
      or_intro (f == j) (mem f js) (subst (λ l. mem f l ≡ true) (if_true (j == g) _ _ same) e)
  | inr differs ↦
      or_map (f == j) (mem f (remove g js)) (mem f js) (mem-remove f g js)
        (subst (λ l. mem f l ≡ true) (if_false (j == g) _ _ differs) e)
]

-- What is still in a list after another item was removed.
pub mem-remove_ne : (f g : ℕ) (fs : List ℕ) → f ≢ g → mem f fs ≡ true → mem f (remove g fs) ≡ true
unfolding remove
mem-remove_ne f g [] n e = e
mem-remove_ne f g (j ∷ js) n e = elim (Bool-cases (j == g)) [
  | inl same ↦
      subst (λ l. mem f l ≡ true) (sym (if_true (j == g) _ _ same))
        (later (f == j) (mem f js) (eq_false f j (λ i. n (i ∙ eq_true j g same))) e)
  | inr differs ↦
      subst (λ l. mem f l ≡ true) (sym (if_false (j == g) _ _ differs))
        (or_map (f == j) (mem f js) (mem f (remove g js)) (mem-remove_ne f g js n) e)
]

pub not_mem : (k : ℕ) (ks : List ℕ) → IsFrom k ks → mem k ks ≡ false
not_mem k ks h = elim (Bool-cases (mem k ks)) [
  | inl e ↦ absurd (omega (arith, above k k ks h e))
  | inr e ↦ e
]

pub or_second : (b c : Bool) → b ≡ false → (b || c) ≡ c
or_second true c e = absurd cc
or_second false c e = refl
