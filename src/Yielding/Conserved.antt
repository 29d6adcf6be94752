-- ===== src/Yielding/Conserved.antt =====
-- `as_yielded` of a_sync/utils/iterators.py neither loses nor reorders the items of an iterator.
use ez_a_sync.Prelude.{
  ℕ, ◌≡◌, refl, sym, ap, ◌∙◌, subst, true, false, List, [], ◌∷◌, ◌++◌, Option, none, some, Exn, inl,
  inr, Bool-cases, get_elem?, set, get_elem?-set_self, get_elem?-set_ne, append_assoc, append-nil,
  ◌==◌, ==_iff, arith,
}
use ez_a_sync.Yielding.{Put, thing, marker, Source, from}
use ez_a_sync.Yielding.Moves.{
  Spec, Move, Moves, here, next, put, stop, mark_end, mark_error, join, fetch_all, wait, leave,
  fetch_one, ask_again, give, end,
}

some_inj : {A : Type 0} {a b : A} → some a ≡ some b → a ≡ b
some_inj e = cc

module _ {V : Type 0} where
  from-append : (k : ℕ) (xs ys : List (Put V)) → from k (xs ++ ys) ≡ from k xs ++ from k ys
  from-append k [] ys = refl
  from-append k (thing j x ∷ xs) ys = ground (arith, from-append k xs ys)
  from-append k (marker e ∷ xs) ys = from-append k xs ys

  -- What iterator `k` has given so far.
  abbrev pub given : ℕ → Spec V → List V
  given k s = from k s.yielded ++ (from k s.batch ++ from k s.queue)

  -- Iterator `k` has given the items `xs` up to those that it has left.
  pub record Conserves (k : ℕ) (xs : List V) (ending : Option Exn) (s : Spec V) : Type 0 where
    pub source : Source V
    pub found : get_elem? s.sources k ≡ some source
    pub ends : source.ending ≡ ending
    pub items : given k s ++ source.left ≡ xs
    pub used_up : source.stopped ≡ true → source.left ≡ []

  regroup :
      (a b c : List V) (y : V) (ys : List V)
      → (a ++ (b ++ (c ++ y ∷ []))) ++ ys ≡ (a ++ (b ++ c)) ++ (y ∷ ys)
  regroup a b c y ys = simp append_assoc

  regive : (a b c d : List V) → (a ++ b) ++ (c ++ d) ≡ a ++ ((b ++ c) ++ d)
  regive a b c d = simp append_assoc

  module _ (k : ℕ) (xs : List V) (ending : Option Exn) where
    -- The sources did not change, and nothing was given.
    same_given :
        (s t : Spec V)
        → t.sources ≡ s.sources
        → given k t ≡ given k s
        → Conserves k xs ending s
        → Conserves k xs ending t
    same_given s t e f h = record {
      source = h.source;
      found = ap (λ l. get_elem? l k) e ∙ h.found;
      ends = h.ends;
      items = ap (λ l. l ++ h.source.left) f ∙ h.items;
      used_up = h.used_up;
    }

    from-queue_end :
        (s : Spec V) (x : Put V)
        → from k (x ∷ []) ≡ []
        → from k (s.queue ++ x ∷ []) ≡ from k s.queue
    from-queue_end s x e =
        from-append k s.queue (x ∷ [])
        ∙ ap (λ l. from k s.queue ++ l) e
        ∙ append-nil (from k s.queue)

    put_own :
        (s : Spec V) (src : Source V) (y : V) (ys : List V)
        → get_elem? s.sources k ≡ some src
        → src.stopped ≡ false
        → src.left ≡ y ∷ ys
        → Conserves k xs ending s
        → Conserves k xs ending (record s {
          sources = set s.sources k (record src { left = ys });
          queue = s.queue ++ thing k y ∷ [];
        })
    put_own s src y ys e g f h =
        let same : src ≡ h.source = some_inj (sym e ∙ h.found) in
        let one : from k (thing k y ∷ []) ≡ y ∷ [] = ground arith in
        record {
          source = record src { left = ys };
          found = get_elem?-set_self s.sources k (record src { left = ys }) e;
          ends = ap (λ (r : Source V). r.ending) same ∙ h.ends;
          items =
              ap (λ l. (from k s.yielded ++ (from k s.batch ++ l)) ++ ys)
                (from-append k s.queue (thing k y ∷ []) ∙ ap (λ l. from k s.queue ++ l) one)
              ∙ regroup (from k s.yielded) (from k s.batch) (from k s.queue) y ys
              ∙ ap (λ l. given k s ++ l) (sym f ∙ ap (λ (r : Source V). r.left) same)
              ∙ h.items;
          used_up = λ n. cc (n, g);
        }

    put_other :
        (s : Spec V) (j : ℕ) (src : Source V) (y : V)
        → (j == k) ≡ false
        → Conserves k xs ending s
        → Conserves k xs ending
            (record s { sources = set s.sources j src; queue = s.queue ++ thing j y ∷ [] })
    put_other s j src y other h = record {
      source = h.source;
      found = get_elem?-set_ne s.sources j k src (λ n. ground (arith, n, other)) ∙ h.found;
      ends = h.ends;
      items =
          ap (λ l. (from k s.yielded ++ (from k s.batch ++ l)) ++ h.source.left)
            (from-queue_end s (thing j y) (ground (arith, other)))
          ∙ h.items;
      used_up = h.used_up;
    }

    Conserves-put :
        (s : Spec V) (j : ℕ) (src : Source V) (y : V) (ys : List V)
        → get_elem? s.sources j ≡ some src
        → src.stopped ≡ false
        → src.left ≡ y ∷ ys
        → Conserves k xs ending s
        → Conserves k xs ending (record s {
          sources = set s.sources j (record src { left = ys });
          queue = s.queue ++ thing j y ∷ [];
        })
    Conserves-put s j src y ys e g f h = elim (Bool-cases (j == k)) [
      | inl same ↦
          let p : k ≡ j = sym ((==_iff j k).0 same) in
          subst
            (λ (i : ℕ). Conserves k xs ending (record s {
              sources = set s.sources i (record src { left = ys });
              queue = s.queue ++ thing i y ∷ [];
            }))
            p (put_own s src y ys (ap (get_elem? s.sources) p ∙ e) g f h)
      | inr other ↦ put_other s j (record src { left = ys }) y other h
    ]

    set_stopped :
        (s : Spec V) (j : ℕ) (src : Source V)
        → get_elem? s.sources j ≡ some src
        → src.left ≡ []
        → Conserves k xs ending s
        → Conserves k xs ending
            (record s { sources = set s.sources j (record src { stopped = true }) })
    set_stopped s j src e g h = elim (Bool-cases (j == k)) [
      | inl same ↦
          let p : j ≡ k = (==_iff j k).0 same in
          let eq : src ≡ h.source = some_inj (sym e ∙ ap (get_elem? s.sources) p ∙ h.found) in
          record {
            source = record src { stopped = true };
            found =
                ap (get_elem? (set s.sources j (record src { stopped = true }))) (sym p)
                ∙ get_elem?-set_self s.sources j (record src { stopped = true }) e;
            ends = ap (λ (r : Source V). r.ending) eq ∙ h.ends;
            items = ap (λ (r : Source V). given k s ++ r.left) eq ∙ h.items;
            used_up = λ n. g;
          }
      | inr other ↦ record {
        source = h.source;
        found =
            get_elem?-set_ne s.sources j k (record src { stopped = true })
              (λ n. ground (arith, n, other))
            ∙ h.found;
        ends = h.ends;
        items = h.items;
        used_up = h.used_up;
      }
    ]

    Conserves-Move : {s t : Spec V} → Move s t → Conserves k xs ending s → Conserves k xs ending t
    Conserves-Move (put s j src y ys e f g) h = Conserves-put s j src y ys e f g h
    Conserves-Move (stop s j src e f g) h = same_given _ _ refl refl (set_stopped s j src e g h)
    Conserves-Move (mark_end s l e f) h =
        same_given s _ refl
          (ap (λ l. from k s.yielded ++ (from k s.batch ++ l))
            (from-queue_end s (marker none) refl))
          h
    Conserves-Move (mark_error s x p e f g) h =
        same_given s _ refl
          (ap (λ l. from k s.yielded ++ (from k s.batch ++ l))
            (from-queue_end s (marker (some x)) refl))
          h
    Conserves-Move (join s e f g) h = same_given s _ refl refl h
    Conserves-Move (fetch_all s e f b) h =
        same_given s _ refl
          (ap (λ l. from k s.yielded ++ l)
            (append-nil (from k s.queue) ∙ sym (ap (λ l. from k l ++ from k s.queue) b)))
          h
    Conserves-Move (wait s e f) h = same_given s _ refl refl h
    Conserves-Move (leave s c e f) h = same_given s _ refl refl h
    Conserves-Move (fetch_one s x ys e f b) h =
        same_given s _ refl
          (ap (λ l. from k s.yielded ++ l)
            (sym (from-append k (x ∷ []) ys)
              ∙ sym (ap (from k) f)
              ∙ sym (ap (λ l. from k l ++ from k s.queue) b)))
          h
    Conserves-Move (ask_again s e f) h = same_given s _ refl refl h
    Conserves-Move (give s j x ys e f) h =
        same_given s _ refl
          (ap (λ l. l ++ (from k ys ++ from k s.queue)) (from-append k s.yielded (thing j x ∷ []))
            ∙ regive (from k s.yielded) (from k (thing j x ∷ [])) (from k ys) (from k s.queue)
            ∙ ap (λ l. from k s.yielded ++ (l ++ from k s.queue))
                (sym (from-append k (thing j x ∷ []) ys) ∙ sym (ap (from k) f)))
          h
    Conserves-Move (end s exc ys e f) h =
        same_given s _ refl (sym (ap (λ l. from k s.yielded ++ (from k l ++ from k s.queue)) f)) h

    pub Conserves-Moves :
        {s t : Spec V} → Moves s t → Conserves k xs ending s → Conserves k xs ending t
    Conserves-Moves (here s) h = h
    Conserves-Moves (next m ms) h = Conserves-Moves ms (Conserves-Move m h)
