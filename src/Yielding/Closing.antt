-- ===== src/Yielding/Closing.antt =====
-- `as_yielded` of a_sync/utils/iterators.py where no iterator raises: its `_Done` stands behind all
-- that the iterators give.
use ez_a_sync.Prelude.{
  ℕ, ◌≡◌, refl, sym, ap, ◌∙◌, true, List, [], ◌∷◌, ◌++◌, Option, none, some, Exn, inl, inr, all,
  is_empty, total, append_assoc, append-nil,
}
use ez_a_sync.Gather.{gives, Item}
use ez_a_sync.Yielding.{
  Put, thing, marker, gathering, joining, finished, Consumer, asking, handling, returned, is_ended,
  end_by,
}
use ez_a_sync.Yielding.Moves.{
  Spec, Move, Moves, Leaves, here, next, put, stop, mark_end, mark_error, join, fetch_all, wait,
  leave, fetch_one, ask_again, give, end,
}
use ez_a_sync.Yielding.Endings.{Counts, is_open, Counts-Move}
use ez_a_sync.Yielding.Clean.{
  is_thing, is_closed, held, IsClean, closes, handed, IsClean-put, IsClean-stop, Leaves-past,
}

module _ {V : Type 0} where
  IsClean-mark :
      (s : Spec V) (l : List (Item (Unit {0})))
      → s.populating ≡ gathering
      → s.gather.outer ≡ gives l
      → Counts s
      → IsClean s
      → IsClean (record s { queue = s.queue ++ marker none ∷ []; populating = joining })
  IsClean-mark s l e f c h = record {
    none_fails = h.none_fails;
    no_raise = h.no_raise;
    phase = elim h.phase [
      | inl (a, b, d) ↦ inr (
          inl (
            refl,
            c.all_given l f,
            ap is_closed (sym (append_assoc s.batch s.queue (marker none ∷ [])))
                ∙ closes (held s) b,
            d,
          ))
      | inr (inl (a, z, b, d)) ↦ cc (a, e)
      | inr (inr (a, z, b, d)) ↦ absurd (a e)
    ];
  }

  IsClean-join :
      (s : Spec V)
      → s.populating ≡ joining
      → s.queue ≡ []
      → s.batch ≡ []
      → IsClean s
      → IsClean (record s { populating = finished })
  IsClean-join s e f g h = record {
    none_fails = h.none_fails;
    no_raise = h.no_raise;
    phase = elim h.phase [
      | inl (a, b, d) ↦ cc (a, e)
      | inr (inl (a, z, b, d)) ↦ cc (sym b ∙ ap is_closed (ap (λ l. l ++ s.queue) g ∙ f))
      | inr (inr (a, z, b, d)) ↦ inr (inr ((λ n. cc), z, b, d))
    ];
  }

  IsClean-leave :
      (s : Spec V) (c : Consumer)
      → s.consumer ≡ asking
      → Leaves s.populating c
      → IsClean s
      → IsClean (record s { consumer = c })
  IsClean-leave s c e l h =
      let (n, m) = Leaves-past s.populating c l in
      elim h.phase [
        | inl (a, b, d) ↦ absurd (n a)
        | inr (inl (a, z, b, d)) ↦ absurd (m a)
        | inr (inr (a, z, b, d)) ↦ cc (d, e)
      ]

  IsClean-give :
      (s : Spec V) (k : ℕ) (x : V) (xs : List (Put V))
      → s.consumer ≡ handling
      → s.batch ≡ thing k x ∷ xs
      → IsClean s
      → IsClean (record s { batch = xs; yielded = s.yielded ++ thing k x ∷ [] })
  IsClean-give s k x xs e f h =
      let head : held s ≡ thing k x ∷ (xs ++ s.queue) = ap (λ l. l ++ s.queue) f in
      record {
        none_fails = h.none_fails;
        no_raise = h.no_raise;
        phase = elim h.phase [
          | inl (a, b, d) ↦ inl (a, sym (ap (all is_thing) head) ∙ b, d)
          | inr (inl (a, z, b, d)) ↦ inr (inl (a, z, sym (ap is_closed head) ∙ b, d))
          | inr (inr (a, z, b, d)) ↦ cc
        ];
      }

  -- The `_Done` is the last item, and it ends the generator without an exception.
  last_one :
      (exc : Option Exn) (xs q : List (Put V))
      → is_closed (marker exc ∷ (xs ++ q)) ≡ true
      → (end_by (is_empty q) exc ≡ returned) × (xs ++ q ≡ [])
  last_one (some x) xs q e = cc
  last_one none [] [] e = (refl, refl)
  last_one none [] (y ∷ ys) e = cc
  last_one none (x ∷ xs) q e = cc

  IsClean-end :
      (s : Spec V) (exc : Option Exn) (xs : List (Put V))
      → s.consumer ≡ handling
      → s.batch ≡ marker exc ∷ xs
      → IsClean s
      → IsClean (record s { batch = xs; consumer = end_by (is_empty s.queue) exc })
  IsClean-end s exc xs e f h =
      let head : held s ≡ marker exc ∷ (xs ++ s.queue) = ap (λ l. l ++ s.queue) f in
      record {
        none_fails = h.none_fails;
        no_raise = h.no_raise;
        phase = elim h.phase [
          | inl (a, b, d) ↦ cc (sym b ∙ ap (all is_thing) head)
          | inr (inl (a, z, b, d)) ↦
              let (r, n) = last_one exc xs s.queue (sym (ap is_closed head) ∙ b) in
              inr (inr ((λ g. cc (g, a)), z, n, r))
          | inr (inr (a, z, b, d)) ↦ cc (d, e)
        ];
      }

  IsClean-Move : {s t : Spec V} → Move s t → Counts s → IsClean s → IsClean t
  IsClean-Move (put s j src y ys e f g) c h = IsClean-put s j src y ys e f h
  IsClean-Move (stop s j src e f g) c h = IsClean-stop s j src e f h
  IsClean-Move (mark_end s l e f) c h = IsClean-mark s l e f c h
  IsClean-Move (mark_error s x p e f g) c h = absurd (h.no_raise x f)
  IsClean-Move (join s e f g) c h = IsClean-join s e f g h
  IsClean-Move (fetch_all s e f b) c h =
      handed s _ refl refl refl (append-nil s.queue ∙ sym (ap (λ l. l ++ s.queue) b)) refl
        (ap is_ended e) h
  IsClean-Move (wait s e f) c h = handed s _ refl refl refl refl refl (ap is_ended e) h
  IsClean-Move (leave s d e f) c h = IsClean-leave s d e f h
  IsClean-Move (fetch_one s x ys e f b) c h =
      handed s _ refl refl refl (sym f ∙ sym (ap (λ l. l ++ s.queue) b)) refl (ap is_ended e) h
  IsClean-Move (ask_again s e f) c h = handed s _ refl refl refl refl refl (ap is_ended e) h
  IsClean-Move (give s j x ys e f) c h = IsClean-give s j x ys e f h
  IsClean-Move (end s exc ys e f) c h = IsClean-end s exc ys e f h

  pub IsClean-Moves : {s t : Spec V} → Moves s t → Counts s → IsClean s → IsClean t
  IsClean-Moves (here s) c h = h
  IsClean-Moves (next m ms) c h = IsClean-Moves ms (Counts-Move m c) (IsClean-Move m c h)

  -- When the generator has ended, everything has been yielded.
  pub end-IsClean :
      (s : Spec V)
      → IsClean s
      → is_ended s.consumer ≡ true
      → (s.consumer ≡ returned) × (s.batch ++ s.queue ≡ []) × (total is_open s.sources ≡ 0)
  end-IsClean s h e = elim h.phase [
    | inl (a, b, d) ↦ cc (e, d)
    | inr (inl (a, z, b, d)) ↦ cc (e, d)
    | inr (inr (a, z, b, d)) ↦ (d, b, z)
  ]
