-- ===== src/Yielding/Marked.antt =====
-- `as_yielded` of a_sync/utils/iterators.py: once the iterators have been gathered, a `_Done` is in
-- the queue or in the generator's hands until the generator ends.
use ez_a_sync.Prelude.{
  ◌≡◌, ◌≢◌, refl, sym, ap, ◌∙◌, Bool, true, false, List, [], ◌∷◌, ◌++◌, Option, none, some, Exn,
  any, is_empty, append-nil, append_assoc,
}
use ez_a_sync.Yielding.{Put, thing, marker, gathering, is_ended}
use ez_a_sync.Yielding.Moves.{
  Spec, Move, Moves, here, next, put, stop, mark_end, mark_error, join, fetch_all, wait, leave,
  fetch_one, ask_again, give, end,
}
use ez_a_sync.Yielding.Progress.{over, finish_ends}

module _ {V : Type 0} where
  abbrev pub is_marker : Put V → Bool
  is_marker (thing k x) = false
  is_marker (marker exc) = true

  abbrev held : Spec V → List (Put V)
  held s = s.batch ++ s.queue

  abbrev pub IsMarked : Spec V → Type 0
  IsMarked s =
      s.populating ≢ gathering → is_ended s.consumer ≡ false → any is_marker (held s) ≡ true

  any-append_left :
      (xs ys : List (Put V)) → any is_marker xs ≡ true → any is_marker (xs ++ ys) ≡ true
  any-append_left [] ys e = cc
  any-append_left (thing k x ∷ xs) ys e = any-append_left xs ys e
  any-append_left (marker exc ∷ xs) ys e = refl

  any_last : (xs : List (Put V)) (exc : Option Exn) → any is_marker (xs ++ marker exc ∷ []) ≡ true
  any_last [] exc = refl
  any_last (thing k x ∷ xs) exc = any_last xs exc
  any_last (marker e ∷ xs) exc = refl

  added_last :
      (s : Spec V) (exc : Option Exn)
      → any is_marker (s.batch ++ (s.queue ++ marker exc ∷ [])) ≡ true
  added_last s exc =
      ap (any is_marker) (sym (append_assoc s.batch s.queue (marker exc ∷ [])))
      ∙ any_last (held s) exc

  pub IsMarked-Move : {s t : Spec V} → Move s t → IsMarked s → IsMarked t
  IsMarked-Move (put s k src x xs e f g) h p c =
      ap (any is_marker) (sym (append_assoc s.batch s.queue (thing k x ∷ [])))
      ∙ any-append_left (held s) (thing k x ∷ []) (h p c)
  IsMarked-Move (stop s k src e f g) h p c = h p c
  IsMarked-Move (mark_end s l e f) h p c = added_last s none
  IsMarked-Move (mark_error s x q e f g) h p c = added_last s (some x)
  IsMarked-Move (join s e f g) h p c = h (λ n. cc (n, e)) c
  IsMarked-Move (fetch_all s e f b) h p c =
      ap (any is_marker) (append-nil s.queue ∙ sym (ap (λ l. l ++ s.queue) b)) ∙ h p (ap is_ended e)
  IsMarked-Move (wait s e f) h p c = h p (ap is_ended e)
  IsMarked-Move (leave s d e l) h p c = cc (c, (over s.populating d l).1)
  IsMarked-Move (fetch_one s x xs e f b) h p c =
      ap (any is_marker) (sym f ∙ sym (ap (λ l. l ++ s.queue) b)) ∙ h p (ap is_ended e)
  IsMarked-Move (ask_again s e f) h p c = h p (ap is_ended e)
  IsMarked-Move (give s k x xs e f) h p c =
      sym (ap (λ l. any is_marker (l ++ s.queue)) f) ∙ h p (ap is_ended e)
  IsMarked-Move (end s exc xs e f) h p c = cc (c, (finish_ends (is_empty s.queue) exc).1)

  pub IsMarked-Moves : {s t : Spec V} → Moves s t → IsMarked s → IsMarked t
  IsMarked-Moves (here s) h = h
  IsMarked-Moves (next m ms) h = IsMarked-Moves ms (IsMarked-Move m h)
