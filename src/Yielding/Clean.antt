-- ===== src/Yielding/Clean.antt =====
-- `as_yielded` of a_sync/utils/iterators.py where no iterator raises, while its iterators run.
use ez_a_sync.Prelude.{
  ℕ, ◌≡◌, ◌≢◌, refl, sym, ap, ◌∙◌, Bool, true, false, List, [], ◌∷◌, ◌++◌, none, some, Exn, inl,
  inr, ◌⊎◌, Option-cases, get_elem?, set, all, is_empty, total, total-set, append_assoc, arith,
}
use ez_a_sync.Gather.{Gathering, raises, failure}
use ez_a_sync.Yielding.{
  Put, thing, marker, Source, gathered, out, Populating, gathering, joining, Consumer, returned,
  is_ended,
}
use ez_a_sync.Yielding.Moves.{Spec, Leaves, by_return, by_raise}
use ez_a_sync.Yielding.Endings.{
  is_open, fails, hears, Outer-cases, gathered-given, le-total, open-total,
}

pub Leaves-past : (p : Populating) (c : Consumer) → Leaves p c → (p ≢ gathering) × (p ≢ joining)
Leaves-past _ _ by_return = ((λ e. cc), (λ e. cc))
Leaves-past _ _ (by_raise x) = ((λ e. cc), (λ e. cc))

module _ {V : Type 0} where
  abbrev pub is_thing : Put V → Bool
  is_thing (thing k x) = true
  is_thing (marker exc) = false

  -- Items with one `_Done` behind them.
  abbrev pub is_closed : List (Put V) → Bool
  is_closed [] = false
  is_closed (thing k x ∷ xs) = is_closed xs
  is_closed (marker none ∷ xs) = is_empty xs
  is_closed (marker (some e) ∷ xs) = false

  abbrev pub held : Spec V → List (Put V)
  held s = s.batch ++ s.queue

  -- While the iterators run, while the `_Done` is on its way, and after it.
  abbrev pub Phase : Spec V → Type 0
  Phase s =
      ((s.populating ≡ gathering) × (all is_thing (held s) ≡ true) × (is_ended s.consumer ≡ false))
      ⊎ ((s.populating ≡ joining)
          × (total is_open s.sources ≡ 0)
          × (is_closed (held s) ≡ true)
          × (is_ended s.consumer ≡ false))
      ⊎ ((s.populating ≢ gathering)
          × (total is_open s.sources ≡ 0)
          × (held s ≡ [])
          × (s.consumer ≡ returned))

  pub record IsClean (s : Spec V) : Type 0 where
    pub none_fails : total fails s.sources ≡ 0
    pub no_raise : (e : Exn) → s.gather.outer ≢ raises e
    pub phase : Phase s

  pub all_things :
      (xs : List (Put V)) (k : ℕ) (x : V)
      → all is_thing xs ≡ true
      → all is_thing (xs ++ thing k x ∷ []) ≡ true
  all_things [] k x e = refl
  all_things (y ∷ ys) k x e = ground (arith, e, all_things ys k x)

  pub closes :
      (xs : List (Put V)) → all is_thing xs ≡ true → is_closed (xs ++ marker none ∷ []) ≡ true
  closes [] e = refl
  closes (thing k x ∷ xs) e = closes xs e
  closes (marker exc ∷ xs) e = cc

  -- A move that only hands items on.
  pub handed :
      (s t : Spec V)
      → t.populating ≡ s.populating
      → t.sources ≡ s.sources
      → t.gather ≡ s.gather
      → held t ≡ held s
      → is_ended t.consumer ≡ false
      → is_ended s.consumer ≡ false
      → IsClean s
      → IsClean t
  handed s t p q g e c d h = record {
    none_fails = ap (total fails) q ∙ h.none_fails;
    no_raise = λ x r. h.no_raise x (sym (ap (λ (r : Gathering (Unit {0})). r.outer) g) ∙ r);
    phase = elim h.phase [
      | inl (a, b, _) ↦ inl (p ∙ a, ap (all is_thing) e ∙ b, c)
      | inr (inl (a, z, b, _)) ↦ inr (inl (p ∙ a, ap (total is_open) q ∙ z, ap is_closed e ∙ b, c))
      | inr (inr (a, z, b, f)) ↦ cc (ap is_ended f, d)
    ];
  }

  pub IsClean-put :
      (s : Spec V) (k : ℕ) (src : Source V) (x : V) (xs : List V)
      → get_elem? s.sources k ≡ some src
      → src.stopped ≡ false
      → IsClean s
      → IsClean (record s {
        sources = set s.sources k (record src { left = xs });
        queue = s.queue ++ thing k x ∷ [];
      })
  IsClean-put s k src x xs e f h = record {
    none_fails =
        omega (arith, total-set fails s.sources k (record src { left = xs }) e, h.none_fails);
    no_raise = h.no_raise;
    phase = elim h.phase [
      | inl (a, b, c) ↦ inl (
        a,
        ap (all is_thing) (sym (append_assoc s.batch s.queue (thing k x ∷ [])))
            ∙ all_things (held s) k x b,
        c,
      )
      | inr (inl (a, z, b, c)) ↦ absurd (omega (arith, z, open-total s k src e f))
      | inr (inr (a, z, b, c)) ↦ absurd (omega (arith, z, open-total s k src e f))
    ];
  }

  no_failure :
      (sources : List (Source V)) (k : ℕ) (src : Source V)
      → get_elem? sources k ≡ some src
      → total fails sources ≡ 0
      → failure (out sources k) ≡ none
  unfolding failure
  no_failure sources k src e z = elim (Option-cases src.ending) [
    | inl f ↦ ground (arith, e, f)
    | inr (x, f) ↦ absurd (ground (arith, f, z, le-total fails sources k src e))
  ]

  pub IsClean-stop :
      (s : Spec V) (k : ℕ) (src : Source V)
      → get_elem? s.sources k ≡ some src
      → src.stopped ≡ false
      → IsClean s
      → IsClean (record s {
        sources = set s.sources k (record src { stopped = true });
        gather = gathered k s.sources s.gather;
      })
  IsClean-stop s k src e f h = record {
    none_fails =
        omega (arith, total-set fails s.sources k (record src { stopped = true }) e, h.none_fails);
    no_raise = λ x r. elim (Outer-cases s.gather.outer) [
      | inl w ↦
          elim (hears k s.sources s.gather none w (no_failure s.sources k src e h.none_fails)) [
            | inl (y, _, g) ↦ cc (g, no_failure s.sources k src e h.none_fails)
            | inr (inl (l, g, _)) ↦ cc (g, r)
            | inr (inr (g, _, _)) ↦ cc (g, r)
          ]
      | inr (inl (l, w)) ↦ cc (gathered-given k s.sources s.gather l w, r)
      | inr (inr (y, w)) ↦ absurd (h.no_raise y w)
    ];
    phase = elim h.phase [
      | inl (a, b, c) ↦ inl (a, b, c)
      | inr (inl (a, z, b, c)) ↦ absurd (omega (arith, z, open-total s k src e f))
      | inr (inr (a, z, b, c)) ↦ absurd (omega (arith, z, open-total s k src e f))
    ];
  }
