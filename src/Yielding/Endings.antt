-- ===== src/Yielding/Endings.antt =====
-- `as_yielded` of a_sync/utils/iterators.py: what the gathering of the iterators has heard of them.
use ez_a_sync.Prelude.{
  ℕ, zero, suc, ◌+◌, ◌≤◌, ◌<◌, ◌≡◌, ◌≢◌, refl, sym, ap, ◌∙◌, subst, Bool, true, false, List, [],
  ◌∷◌, Option, none, some, Exn, inl, inr, ◌⊎◌, Bool-cases, if◌then◌else◌, get_elem?, set, length,
  map, total, total-set, ◌==◌, arith,
}
use ez_a_sync.Gather.{
  Outer, Gathering, gives, raises, done_callback, last, failure, unless_failed, count_done, Item,
  result_or_exc,
}
use ez_a_sync.Gather
use ez_a_sync.Yielding.{Put, Source, gathered, out, positions}
use ez_a_sync.Yielding.Moves.{
  Spec, Move, Moves, here, next, put, stop, mark_end, mark_error, join, fetch_all, wait, leave,
  fetch_one, ask_again, give, end,
}

module _ {A : Type 0} where
  pub length-set : (xs : List A) (i : ℕ) (v : A) → length (set xs i v) ≡ length xs
  length-set [] i v = refl
  length-set (x ∷ xs) zero v = refl
  length-set (x ∷ xs) (suc i) v = ap suc (length-set xs i v)

  pub le-total :
      (g : A → ℕ) (xs : List A) (i : ℕ) (x : A) → get_elem? xs i ≡ some x → g x ≤ total g xs
  le-total g [] i x e = cc
  le-total g (y ∷ ys) zero x e = ground (arith, ap (λ o. o) e)
  le-total g (y ∷ ys) (suc i) x e = omega (arith, le-total g ys i x e)

pub Outer-cases :
    (o : Outer (Unit {0}))
    → (o ≡ Gather.waits)
      ⊎ ((l : List (Item (Unit {0}))) × (o ≡ gives l))
      ⊎ ((e : Exn) × (o ≡ raises e))
Outer-cases Gather.waits = inl refl
Outer-cases (gives l) = inr (inl (l, refl))
Outer-cases (raises e) = inr (inr (e, refl))

module _ {V : Type 0} where
  -- 1 for an iterator that has not ended.
  abbrev pub is_open : Source V → ℕ
  is_open src = if src.stopped then 0 else 1

  -- 1 for an iterator that ends with an exception.
  abbrev pub fails : Source V → ℕ
  fails src = elim src.ending [ none ↦ 0 | some e ↦ 1 ]

  pub record Counts (s : Spec V) : Type 0 where
    pub waiting :
        s.gather.outer ≡ Gather.waits
        → (s.gather.nfinished + total is_open s.sources ≡ length s.sources)
          × (0 < total is_open s.sources)
    pub all_given :
        (l : List (Item (Unit {0}))) → s.gather.outer ≡ gives l → total is_open s.sources ≡ 0

  -- What the end of iterator `k` does to the gathering future.
  abbrev pub Hears : ℕ → List (Source V) → Gathering (Unit {0}) → Gathering (Unit {0}) → Type 0
  Hears k sources g g' =
      ((e : Exn) × (g'.outer ≡ raises e) × (failure (out sources k) ≡ some e))
      ⊎ ((l : List (Item (Unit {0}))) × (g'.outer ≡ gives l) × (suc g.nfinished ≡ length sources))
      ⊎ ((g'.outer ≡ Gather.waits)
          × (g'.nfinished ≡ suc g.nfinished)
          × (suc g.nfinished ≢ length sources))

  pub hears :
      (k : ℕ) (sources : List (Source V)) (g : Gathering (Unit {0})) (f : Option Exn)
      → g.outer ≡ Gather.waits
      → failure (out sources k) ≡ f
      → Hears k sources g (gathered k sources g)
  unfolding gathered last
  hears k sources g (some x) e h = inl (x, ground (arith, e, h), h)
  hears k sources g none e h = elim (Bool-cases (suc g.nfinished == length sources)) [
    | inl b ↦ inr (
        inl (
          map (λ j. result_or_exc (out sources j)) (positions 0 (length sources)),
          ground (arith, e, h, b),
          ground (arith, b),
        ))
    | inr b ↦
        inr (inr (ground (arith, e, h, b), ground (arith, e, h, b), λ n. ground (arith, n, b)))
  ]

  pub gathered-raised :
      (k : ℕ) (sources : List (Source V)) (g : Gathering (Unit {0})) (e : Exn)
      → g.outer ≡ raises e
      → (gathered k sources g).outer ≡ raises e
  unfolding gathered
  gathered-raised k sources g e h = ground (arith, h)

  pub gathered-given :
      (k : ℕ) (sources : List (Source V)) (g : Gathering (Unit {0})) (l : List (Item (Unit {0})))
      → g.outer ≡ gives l
      → (gathered k sources g).outer ≡ gives l
  unfolding gathered
  gathered-given k sources g l h = ground (arith, h)

  total-stopped :
      (s : Spec V) (k : ℕ) (src : Source V)
      → get_elem? s.sources k ≡ some src
      → src.stopped ≡ false
      → total is_open (set s.sources k (record src { stopped = true })) + 1
        ≡ total is_open s.sources
  total-stopped s k src e f = omega (
    arith,
    total-set is_open s.sources k (record src { stopped = true }) e,
    ap {B = ℕ} (λ (b : Bool). if b then 0 else 1) f,
  )

  pub open-total :
      (s : Spec V) (k : ℕ) (src : Source V)
      → get_elem? s.sources k ≡ some src
      → src.stopped ≡ false
      → 0 < total is_open s.sources
  open-total s k src e f =
      omega
        (arith, le-total is_open s.sources k src e, ap {B = ℕ} (λ (b : Bool). if b then 0 else 1) f)

  total-put :
      (s : Spec V) (k : ℕ) (src : Source V) (xs : List V)
      → get_elem? s.sources k ≡ some src
      → total is_open (set s.sources k (record src { left = xs })) ≡ total is_open s.sources
  total-put s k src xs e = omega (arith, total-set is_open s.sources k (record src { left = xs }) e)

  Counts-put :
      (s : Spec V) (k : ℕ) (src : Source V) (xs : List V) (q : List (Put V))
      → get_elem? s.sources k ≡ some src
      → Counts s
      → Counts (record s { sources = set s.sources k (record src { left = xs }); queue = q })
  Counts-put s k src xs q e h = record {
    waiting = λ w.
        let (n, p) = h.waiting w in
        let kept = total-put s k src xs e in
        (
          omega (arith, n, kept, length-set s.sources k (record src { left = xs })),
          omega (arith, p, kept),
        );
    all_given = λ l w. total-put s k src xs e ∙ h.all_given l w;
  }

  -- The end of one more iterator.
  Counts-stop :
      (s : Spec V) (k : ℕ) (src : Source V)
      → get_elem? s.sources k ≡ some src
      → src.stopped ≡ false
      → Counts s
      → Counts (record s {
        sources = set s.sources k (record src { stopped = true });
        gather = gathered k s.sources s.gather;
      })
  Counts-stop s k src e f h =
      let less = total-stopped s k src e f in
      let same = length-set s.sources k (record src { stopped = true }) in
      elim (Outer-cases s.gather.outer) [
        | inl w ↦
            let (n, p) = h.waiting w in
            elim (hears k s.sources s.gather _ w refl) [
              | inl (x, g, _) ↦ record { waiting = λ v. cc (g, v); all_given = λ l v. cc (g, v) }
              | inr (inl (l, g, c)) ↦ record {
                waiting = λ v. cc (g, v);
                all_given = λ m v. omega (arith, less, n, c);
              }
              | inr (inr (g, c, ne)) ↦ record {
                waiting = λ v. (omega (arith, less, n, c, same), omega (arith, less, n, ne));
                all_given = λ l v. cc (g, v);
              }
            ]
        | inr (inl (l, w)) ↦ absurd (omega (arith, less, h.all_given l w))
        | inr (inr (x, w)) ↦ record {
          waiting = λ v. cc (gathered-raised k s.sources s.gather x w, v);
          all_given = λ l v. cc (gathered-raised k s.sources s.gather x w, v);
        }
      ]

  kept : (s t : Spec V) → t.sources ≡ s.sources → t.gather ≡ s.gather → Counts s → Counts t
  kept s t e f h = record {
    waiting = λ w.
        let (n, p) = h.waiting (sym (ap (λ (g : Gathering (Unit {0})). g.outer) f) ∙ w) in
        (
          ap (λ (g : Gathering (Unit {0})). g.nfinished + total is_open t.sources) f
              ∙ ap (λ l. s.gather.nfinished + total is_open l) e
              ∙ n
              ∙ sym (ap length e),
          subst (λ (l : List (Source V)). 0 < total is_open l) (sym e) p,
        );
    all_given = λ l w.
        ap (total is_open) e
        ∙ h.all_given l (sym (ap (λ (g : Gathering (Unit {0})). g.outer) f) ∙ w);
  }

  pub Counts-Move : {s t : Spec V} → Move s t → Counts s → Counts t
  Counts-Move (put s j src y ys e f g) h = Counts-put s j src ys _ e h
  Counts-Move (stop s j src e f g) h = Counts-stop s j src e f h
  Counts-Move (mark_end s l e f) h = kept s _ refl refl h
  Counts-Move (mark_error s x p e f g) h = kept s _ refl refl h
  Counts-Move (join s e f g) h = kept s _ refl refl h
  Counts-Move (fetch_all s e f b) h = kept s _ refl refl h
  Counts-Move (wait s e f) h = kept s _ refl refl h
  Counts-Move (leave s c e f) h = kept s _ refl refl h
  Counts-Move (fetch_one s x ys e f b) h = kept s _ refl refl h
  Counts-Move (ask_again s e f) h = kept s _ refl refl h
  Counts-Move (give s j x ys e f) h = kept s _ refl refl h
  Counts-Move (end s exc ys e f) h = kept s _ refl refl h

  pub Counts-Moves : {s t : Spec V} → Moves s t → Counts s → Counts t
  Counts-Moves (here s) h = h
  Counts-Moves (next m ms) h = Counts-Moves ms (Counts-Move m h)
