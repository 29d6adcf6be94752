-- ===== src/Iter/Order.antt =====
-- Insertion into ordered lists, for `sorted` in a_sync/iter.pyx.
use ez_a_sync.Prelude.{
  ℕ, ◌+◌, ◌≡◌, refl, sym, ap, ◌∙◌, Bool, true, false, ◌&&◌, List, [], ◌∷◌, all, total, Bool-cases,
  inl, inr, if◌then◌else◌, subst, arith,
}
use ez_a_sync.Iter.{insert, sort}

-- Every item may stand before every later one.
abbrev pub IsOrdered : {A : Type 0} → (A → A → Bool) → List A → Type 0
IsOrdered le [] = Unit
IsOrdered le (x ∷ xs) = (all (le x) xs ≡ true) × IsOrdered le xs

-- `[x for x in xs if p(x)]`
abbrev pub select : {A : Type 0} → (A → Bool) → List A → List A
select p [] = []
select p (x ∷ xs) = if p x then x ∷ select p xs else select p xs

module _ {A : Type 0} where
  all_mono :
      (p q : A → Bool) (xs : List A)
      → ((z : A) → p z ≡ true → q z ≡ true)
      → all p xs ≡ true
      → all q xs ≡ true
  all_mono p q [] h e = refl
  all_mono p q (x ∷ xs) h e =
      ground (arith, h x (ground (arith, e)), all_mono p q xs h (ground (arith, e)))

  module _ (le : A → A → Bool) where
    all-insert : (p : A → Bool) (x : A) (ys : List A) → all p (insert le x ys) ≡ (p x && all p ys)
    unfolding insert
    all-insert p x [] = refl
    all-insert p x (y ∷ ys) = ground (arith, all-insert p x ys)

    total-insert : (g : A → ℕ) (x : A) (ys : List A) → total g (insert le x ys) ≡ g x + total g ys
    unfolding insert
    total-insert g x [] = refl
    total-insert g x (y ∷ ys) = ground (arith, total-insert g x ys)

    pub total-sort : (g : A → ℕ) (xs : List A) → total g (sort le xs) ≡ total g xs
    unfolding sort
    total-sort g [] = refl
    total-sort g (x ∷ xs) = omega (arith, total-insert g x (sort le xs), total-sort g xs)

    -- Items that may stand in either order keep the one they have.
    module _ (p : A → Bool) (ties : (x y : A) → p x ≡ true → p y ≡ true → le x y ≡ true) where
      select-insert :
          (x : A) (ys : List A)
          → select p (insert le x ys) ≡ (if p x then x ∷ select p ys else select p ys)
      unfolding insert
      select-insert x [] = refl
      select-insert x (y ∷ ys) = ground (arith, ties x y, select-insert x ys)

      pub select-sort : (xs : List A) → select p (sort le xs) ≡ select p xs
      unfolding sort
      select-sort [] = refl
      select-sort (x ∷ xs) =
          select-insert x (sort le xs) ∙ ap (λ l. if p x then x ∷ l else l) (select-sort xs)

    module _ (le_total : (x y : A) → le x y ≡ false → le y x ≡ true)
        (le_trans : (x y z : A) → le x y ≡ true → le y z ≡ true → le x z ≡ true) where
      insert-IsOrdered : (x : A) (ys : List A) → IsOrdered le ys → IsOrdered le (insert le x ys)
      unfolding insert
      insert-IsOrdered x [] h = (refl, tt)
      insert-IsOrdered x (y ∷ ys) h = elim (Bool-cases (le x y)) [
        | inl e ↦
            let rest = all_mono (le y) (le x) ys (λ z. le_trans x y z e) h.0 in
            subst (λ (b : Bool). IsOrdered le (if b then x ∷ y ∷ ys else y ∷ insert le x ys))
              (sym e) (ground (arith, e, rest), h)
        | inr e ↦
            let back = le_total x y e in
            subst (λ (b : Bool). IsOrdered le (if b then x ∷ y ∷ ys else y ∷ insert le x ys))
              (sym e) (ground (arith, all-insert (le y) x ys, back, h.0), insert-IsOrdered x ys h.1)
      ]

      pub sort-IsOrdered : (xs : List A) → IsOrdered le (sort le xs)
      unfolding sort
      sort-IsOrdered [] = tt
      sort-IsOrdered (x ∷ xs) = insert-IsOrdered x (sort le xs) (sort-IsOrdered xs)
