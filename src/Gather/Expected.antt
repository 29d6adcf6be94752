-- ===== src/Gather/Expected.antt =====
-- What is asked of the gathering future of a_sync/asyncio/igather.pyx, without its callbacks.
use ez_a_sync.Prelude.{ℕ, ◌≡◌, Bool, true, false, List, [], ◌∷◌, Exn, cancelled_error}
use ez_a_sync.Gather.{
  Outcome, finished, failed, cancelled, Item, value, raised, Outer, gives, raises,
}

-- How the item of an argument tells the end of its future.
pub data Tells {V : Type 0} : Outcome V → Item V → Type 0 where
  tells_result : (v : V) → Tells (finished v) (value v)
  tells_exception : (e : Exn) → Tells (failed e) (raised e)
  tells_cancelled : Tells cancelled (raised cancelled_error)

-- One item for each argument, in the order of the arguments.
pub data AllTold {V : Type 0} (out : ℕ → Outcome V) : List ℕ → List (Item V) → Type 0 where
  none_told : AllTold out [] []
  one_told :
      (a : ℕ) (args : List ℕ) (x : Item V) (items : List (Item V))
      → Tells (out a) x
      → AllTold out args items
      → AllTold out (a ∷ args) (x ∷ items)

-- Every future of the list gives a result.
pub data NoneFails {V : Type 0} (out : ℕ → Outcome V) : List ℕ → Type 0 where
  none_left : NoneFails out []
  one_finished :
      (f : ℕ) (fs : List ℕ) (v : V) → out f ≡ finished v → NoneFails out fs → NoneFails out (f ∷ fs)

-- The first future of the list that gives no result raises the exception, or was cancelled.
pub data FirstFails {V : Type 0} (out : ℕ → Outcome V) : List ℕ → Exn → Type 0 where
  failed_first : (f : ℕ) (fs : List ℕ) (e : Exn) → out f ≡ failed e → FirstFails out (f ∷ fs) e
  cancelled_first :
      (f : ℕ) (fs : List ℕ) → out f ≡ cancelled → FirstFails out (f ∷ fs) cancelled_error
  finished_first :
      (f : ℕ) (fs : List ℕ) (v : V) (e : Exn)
      → out f ≡ finished v
      → FirstFails out fs e
      → FirstFails out (f ∷ fs) e

-- What is asked of the gathering future of some arguments.
pub data Expected {V : Type 0} (out : ℕ → Outcome V) (args order : List ℕ)
    : Bool → Bool → Outer V → Type 0 where
  told_all :
      (items : List (Item V))
      → AllTold out args items
      → Expected out args order true false (gives items)
  told_results :
      (items : List (Item V))
      → NoneFails out order
      → AllTold out args items
      → Expected out args order false false (gives items)
  cancelled_all : Expected out args order true true (raises cancelled_error)
  cancelled_results :
      NoneFails out order → Expected out args order false true (raises cancelled_error)
  first_raised :
      (cancel_requested : Bool) (e : Exn)
      → FirstFails out order e
      → Expected out args order false cancel_requested (raises e)
