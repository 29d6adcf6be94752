-- ===== src/Gather/Laws.antt =====
-- a_sync/asyncio/igather.pyx: what a gathering future gives, for every order of completion.
use ez_a_sync.Prelude.{
  ℕ, suc, ◌+◌, ◌≡◌, refl, sym, subst, map, ap, ◌∙◌, Bool, true, false, List, [], ◌∷◌, Option, none,
  some, Exn, ◌==◌, if◌then◌else◌, length, arith,
}
use ez_a_sync.Gather.{
  Outcome, Outer, waits, gives, raises, distinct, failure, last, unless_failed, done_callback,
  complete, cigather, Item, finished, failed, cancelled, result_or_exc,
}
use ez_a_sync.Gather.Expected.{
  Tells, tells_result, tells_exception, tells_cancelled, AllTold, none_told, one_told, NoneFails,
  none_left, one_finished, FirstFails, failed_first, cancelled_first, finished_first, Expected,
  told_all, told_results, cancelled_all, cancelled_results, first_raised,
}

abbrev or_failure : {V : Type 0} → Option Exn → Outer V → Outer V
or_failure none o = o
or_failure (some e) o = raises e

-- The exceptions of the futures that give no result, the first one first.
abbrev first_of : Option Exn → Option Exn → Option Exn
first_of none o = o
first_of (some e) o = some e

unfoldable first_failure : {V : Type 0} → (ℕ → Outcome V) → List ℕ → Option Exn
first_failure out [] = none
first_failure out (f ∷ fs) = first_of (failure (out f)) (first_failure out fs)

at_last : (n m : ℕ) → n + 1 ≡ m → (suc n == m) ≡ true
at_last n m e = ground (arith, e)

before_last : (n k m : ℕ) → n + suc (suc k) ≡ m → (suc n == m) ≡ false
before_last n k m e = ground (arith, e)

data IsEnded {V : Type 0} : Outer V → Type 0 where
  given : (l : List (Item V)) → IsEnded (gives l)
  ended_by : (e : Exn) → IsEnded (raises e)

last-IsEnded :
    {V : Type 0} (b : Bool) (o p : Outer V) → IsEnded o → IsEnded p → IsEnded (if b then o else p)
last-IsEnded true o p h k = h
last-IsEnded false o p h k = k

module _ {V : Type 0} (out : ℕ → Outcome V) (children : List ℕ) (nfuts : ℕ)
    (cancel_requested : Bool) (return_exceptions : Bool) where
  -- Later callbacks leave the outcome of the gathering future.
  stays :
      (fs : List ℕ) (o : Outer V) (n : ℕ)
      → IsEnded o
      → (complete out children nfuts cancel_requested return_exceptions fs
          (record { outer = o; nfinished = n })).outer
        ≡ o
  unfolding complete done_callback
  stays [] o n h = refl
  stays (f ∷ fs) _ n (given l) = stays fs (gives l) (suc n) (given l)
  stays (f ∷ fs) _ n (ended_by e) = stays fs (raises e) (suc n) (ended_by e)

module _ {V : Type 0} (out : ℕ → Outcome V) (children : List ℕ) (nfuts : ℕ)
    (cancel_requested : Bool) where
  abbrev ended : Outer V
  ended = last out children nfuts cancel_requested

  abbrev counted : Bool → List ℕ → Bool → ℕ → Outer V
  counted return_exceptions fs b n =
      (complete out children nfuts cancel_requested return_exceptions fs
        (record { outer = if b then ended else waits; nfinished = suc n })).outer

  all_wait :
      (f : ℕ) (fs : List ℕ) (n : ℕ)
      → n + suc (length fs) ≡ nfuts
      → (complete out children nfuts cancel_requested true
          (f ∷ fs)
          (record { outer = waits; nfinished = n })).outer
        ≡ ended
  unfolding complete done_callback
  all_wait f [] n e = ap (λ b. counted true [] b n) (at_last n nfuts e)
  all_wait f (g ∷ gs) n e =
      ap (λ b. counted true (g ∷ gs) b n) (before_last n (length gs) nfuts e)
      ∙ all_wait g gs (suc n) (omega (arith, e))

  until_failure :
      (o : Option Exn) (fs : List ℕ) (n : ℕ)
      → n + suc (length fs) ≡ nfuts
      → (complete out children nfuts cancel_requested false fs (
          unless_failed out children nfuts cancel_requested o
            (record { outer = waits; nfinished = n }))).outer
        ≡ or_failure (first_of o (first_failure out fs)) ended
  unfolding complete done_callback first_failure
  until_failure (some x) fs n e =
      stays out children nfuts cancel_requested false fs (raises x) (suc n) (ended_by x)
  until_failure none [] n e = ap (λ b. counted false [] b n) (at_last n nfuts e)
  until_failure none (g ∷ gs) n e =
      ap (λ b. counted false (g ∷ gs) b n) (before_last n (length gs) nfuts e)
      ∙ until_failure (failure (out g)) gs (suc n) (omega (arith, e))

module _ {V : Type 0} (out : ℕ → Outcome V) where
  tells : (o : Outcome V) → Tells o (result_or_exc o)
  unfolding result_or_exc
  tells (finished v) = tells_result v
  tells (failed e) = tells_exception e
  tells cancelled = tells_cancelled

  all_told : (args : List ℕ) → AllTold out args (map (λ f. result_or_exc (out f)) args)
  all_told [] = none_told
  all_told (a ∷ args) = one_told a args _ _ (tells (out a)) (all_told args)

  -- What `first_failure` finds.
  abbrev Finds : List ℕ → Option Exn → Type 0
  Finds fs none = NoneFails out fs
  Finds fs (some e) = FirstFails out fs e

  finished-Finds :
      (f : ℕ) (fs : List ℕ) (v : V) (o : Option Exn)
      → out f ≡ finished v
      → Finds fs o
      → Finds (f ∷ fs) o
  finished-Finds f fs v none e h = one_finished f fs v e h
  finished-Finds f fs v (some x) e h = finished_first f fs v x e h

  failure-Finds :
      (f : ℕ) (fs : List ℕ) (r : Outcome V)
      → out f ≡ r
      → Finds fs (first_failure out fs)
      → Finds (f ∷ fs) (first_of (failure r) (first_failure out fs))
  unfolding failure
  failure-Finds f fs (finished v) e h = finished-Finds f fs v (first_failure out fs) e h
  failure-Finds f fs (failed x) e h = failed_first f fs x e
  failure-Finds f fs cancelled e h = cancelled_first f fs e

  first_failure-Finds : (fs : List ℕ) → Finds fs (first_failure out fs)
  unfolding first_failure
  first_failure-Finds [] = none_left
  first_failure-Finds (f ∷ fs) = failure-Finds f fs (out f) refl (first_failure-Finds fs)

  module _ (args order : List ℕ) (n : ℕ) where
    last-Expected : (c : Bool) → Expected out args order true c (last out args n c)
    unfolding last
    last-Expected true = cancelled_all
    last-Expected false = told_all _ (all_told args)

    failure-Expected :
        (c : Bool) (o : Option Exn)
        → Finds order o
        → Expected out args order false c (or_failure o (last out args n c))
    unfolding last
    failure-Expected c (some e) h = first_raised c e h
    failure-Expected true none h = cancelled_results h
    failure-Expected false none h = told_results _ h (all_told args)

-- For at least one argument, once as many futures have ended as there are distinct arguments, in
-- any order: with `return_exceptions`, or when every future that has ended gave a result, the
-- gathering future gives one item for each argument, in their order, which tells the result, the
-- exception or the cancellation of its future, or it is cancelled if that was asked; otherwise
-- it raises the exception of the first future in the order of their ends that gave no result, or
-- CancelledError if that one was cancelled.
pub cigather_lem :
    {V : Type 0} (out : ℕ → Outcome V) (a : ℕ) (args : List ℕ)
    (return_exceptions cancel_requested : Bool) (f : ℕ) (fs : List ℕ)
    → length (f ∷ fs) ≡ length (distinct (a ∷ args) [])
    → Expected out
        (a ∷ args)
        (f ∷ fs)
        return_exceptions
        cancel_requested
        (cigather out (a ∷ args) return_exceptions cancel_requested (f ∷ fs))
unfolding cigather first_failure complete done_callback
cigather_lem out a args true cancel_requested f fs e =
    let n = length (distinct (a ∷ args) []) in
    subst (Expected out (a ∷ args) (f ∷ fs) true cancel_requested)
      (sym (all_wait out (a ∷ args) n cancel_requested f fs 0 (omega (arith, e))))
      (last-Expected out (a ∷ args) (f ∷ fs) n cancel_requested)
cigather_lem out a args false cancel_requested f fs e =
    let n = length (distinct (a ∷ args) []) in
    subst (Expected out (a ∷ args) (f ∷ fs) false cancel_requested)
      (sym
        (until_failure out (a ∷ args) n cancel_requested (failure (out f)) fs 0 (omega (arith, e))))
      (failure-Expected out (a ∷ args) (f ∷ fs) n cancel_requested _
        (first_failure-Finds out (f ∷ fs)))
