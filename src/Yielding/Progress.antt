-- ===== src/Yielding/Progress.antt =====
-- `as_yielded` of a_sync/utils/iterators.py does a bounded amount of work.
use ez_a_sync.Prelude.{
  ℕ, ◌+◌, ◌*◌, ◌≤◌, ◌<◌, ◌≡◌, refl, ap, Bool, true, false, [], ◌∷◌, Option, none, some, Exn, inl,
  inr, List-cases, if◌then◌else◌, length, length-append, is_empty, total, total-set, arith,
}
use ez_a_sync.Yielding.{
  thing, marker, Source, Populating, gathering, joining, Consumer, asking, getting, handling,
  is_ended, end_by,
}
use ez_a_sync.Yielding.Moves.{
  Spec, Move, IsPast, at_join, past_join, when_cancelled, Leaves, by_return, by_raise, put, stop,
  mark_end, mark_error, join, fetch_all, wait, leave, fetch_one, ask_again, give, end,
}
use ez_a_sync.Yielding.Endings.{is_open}

abbrev pub rank : Consumer → ℕ
rank handling = 3
rank asking = 2
rank getting = 1
rank _ = 0

abbrev pub stage : Populating → ℕ
stage gathering = 6
stage joining = 1
stage _ = 0

pub over : (p : Populating) (c : Consumer) → Leaves p c → (rank c ≡ 0) × (is_ended c ≡ true)
over _ _ by_return = (refl, refl)
over _ _ (by_raise x) = (refl, refl)

pub finish_ends :
    (b : Bool) (exc : Option Exn) → (rank (end_by b exc) ≡ 0) × (is_ended (end_by b exc) ≡ true)
finish_ends true none = (refl, refl)
finish_ends true (some x) = (refl, refl)
finish_ends false exc = (refl, refl)

past_stage : (p : Populating) → IsPast p → stage p ≤ 1
past_stage _ at_join = omega arith
past_stage _ past_join = omega arith
past_stage _ (when_cancelled e) = omega arith

module _ {V : Type 0} where
  abbrev pub work : Source V → ℕ
  work src = 5 * length src.left + is_open src

  abbrev pub measure : Spec V → ℕ
  measure s =
      total work s.sources
      + stage s.populating
      + 4 * length s.queue
      + length s.batch
      + rank s.consumer

  pub measure-Move : {s t : Spec V} → Move s t → measure t < measure s
  measure-Move (put s k src x xs e f g) = omega (
    arith,
    total-set work s.sources k (record src { left = xs }) e,
    ap length g,
    length-append s.queue (thing k x ∷ []),
  )
  measure-Move (stop s k src e f g) = omega (
    arith,
    total-set work s.sources k (record src { stopped = true }) e,
    ap {B = ℕ} (λ (b : Bool). if b then 0 else 1) f,
  )
  measure-Move (mark_end s l e f) =
      omega (arith, ap stage e, length-append s.queue (marker none ∷ []))
  measure-Move (mark_error s x p e f g) =
      omega (arith, ap stage e, past_stage p g, length-append s.queue (marker (some x) ∷ []))
  measure-Move (join s e f g) = omega (arith, ap stage e)
  measure-Move (fetch_all s e f b) = elim (List-cases s.queue) [
    | inl n ↦ absurd (f n)
    | inr (y, ys, n) ↦ omega (arith, ap rank e, ap length n, ap length b)
  ]
  measure-Move (wait s e f) = omega (arith, ap rank e)
  measure-Move (leave s c e l) = omega (arith, ap rank e, (over s.populating c l).0)
  measure-Move (fetch_one s x xs e f b) = omega (arith, ap rank e, ap length f, ap length b)
  measure-Move (ask_again s e f) = omega (arith, ap rank e)
  measure-Move (give s k x xs e f) = omega (arith, ap length f)
  measure-Move (end s exc xs e f) =
      omega (arith, ap rank e, ap length f, (finish_ends (is_empty s.queue) exc).0)
