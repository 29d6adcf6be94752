-- ===== src/Gather.antt =====
-- a_sync/asyncio/igather.pyx and gather.pyx: one future for many, and the same for a mapping.
-- Awaitables are numbers, one for each class of equal ones; `out` is how the future of each ends, and
-- `order` the order in which they end.
pub mod Expected
pub mod Laws
pub mod Mapping
pub mod Examples
use ez_a_sync.Prelude.{
  ℕ, zero, suc, Bool, true, false, not, ◌&&◌, List, [], ◌∷◌, map, Option, none, some, Result, ok,
  err, Exn, cancelled_error, key_error, ◌==◌, if◌then◌else◌, length, any,
}

-- How a future ends.
pub data Outcome (V : Type 0) : Type 0 where
  finished : V → Outcome V
  failed : Exn → Outcome V
  cancelled : Outcome V

-- An item of the list that the gathering future gives: a result, or an exception as a value.
pub data Item (V : Type 0) : Type 0 where
  value : V → Item V
  raised : Exn → Item V

pub data Outer (V : Type 0) : Type 0 where
  waits : Outer V
  gives : List (Item V) → Outer V
  raises : Exn → Outer V

pub record Gathering (V : Type 0) : Type 0 where
  pub outer : Outer V
  pub nfinished : ℕ

-- The keys of `arg_to_fut`, after `seen` and the arguments that are left.
unfoldable pub distinct : List ℕ → List ℕ → List ℕ
distinct [] seen = seen
distinct (a ∷ args) seen =
    let known = distinct args seen in
    let new = distinct args (a ∷ seen) in if any (λ b. a == b) seen then known else new

-- `_get_result_or_exc`
unfoldable pub result_or_exc : {V : Type 0} → Outcome V → Item V
result_or_exc (finished v) = value v
result_or_exc (failed e) = raised e
result_or_exc cancelled = raised cancelled_error

-- The exception that ends the gathering future at once.
unfoldable pub failure : {V : Type 0} → Outcome V → Option Exn
failure (finished v) = none
failure (failed e) = some e
failure cancelled = some cancelled_error

module _ {V : Type 0} (out : ℕ → Outcome V) (children : List ℕ) (nfuts : ℕ)
    (cancel_requested : Bool) where
  -- When every future is done.
  unfoldable pub last : Outer V
  last =
      if cancel_requested
      then raises cancelled_error
      else gives (map (λ f. result_or_exc (out f)) children)

  abbrev pub count_done : Outer V → ℕ → Gathering V
  count_done o n = record { outer = o; nfinished = suc n }

  abbrev pub unless_failed : Option Exn → Gathering V → Gathering V
  unless_failed (some e) self = count_done (raises e) self.nfinished
  unless_failed none self =
      count_done (if suc self.nfinished == nfuts then last else waits) self.nfinished

  abbrev pub callback_waiting : Bool → ℕ → Gathering V → Gathering V
  callback_waiting true f self =
      count_done (if suc self.nfinished == nfuts then last else waits) self.nfinished
  callback_waiting false f self = unless_failed (failure (out f)) self

  abbrev pub callback : Outer V → Bool → ℕ → Gathering V → Gathering V
  callback waits return_exceptions f self = callback_waiting return_exceptions f self
  callback (gives l) return_exceptions f self = count_done (gives l) self.nfinished
  callback (raises e) return_exceptions f self = count_done (raises e) self.nfinished

  -- `_done_callback` of the future `f`
  unfoldable pub done_callback : Bool → ℕ → Gathering V → Gathering V
  done_callback return_exceptions f self = callback self.outer return_exceptions f self

  unfoldable pub complete : Bool → List ℕ → Gathering V → Gathering V
  complete return_exceptions [] self = self
  complete return_exceptions (f ∷ fs) self =
      complete return_exceptions fs (done_callback return_exceptions f self)

-- `cigather`, once the futures in `order` have ended.
unfoldable pub cigather : {V : Type 0} → (ℕ → Outcome V) → List ℕ → Bool → Bool → List ℕ → Outer V
cigather out [] return_exceptions cancel_requested order = gives []
cigather out (a ∷ args) return_exceptions cancel_requested order =
    (complete out (a ∷ args) (length (distinct (a ∷ args) [])) cancel_requested return_exceptions
      order (record { outer = waits; nfinished = 0 })).outer

abbrev pub add_item : {A : Type 0} → A → Result (List A) → Result (List A)
add_item x (err e) = err e
add_item x (ok l) = ok (x ∷ l)

module _ {V : Type 0} (out : ℕ → V) (exclude_if : Option (V → Bool)) where
  unfoldable pub is_excluded : V → Bool
  is_excluded v = elim exclude_if [ none ↦ false | some exclude ↦ exclude v ]

  -- `results` of `gather_mapping`, where every awaitable returns.
  unfoldable pub collect : List ℕ → List ℕ
  collect [] = []
  collect (k ∷ ks) = let rest = collect ks in if is_excluded (out k) then rest else k ∷ rest

  -- `{k: results[k] for k in mapping}`
  unfoldable pub lookup_all : List ℕ → List ℕ → Result (List (ℕ × V))
  lookup_all keys [] = ok []
  lookup_all keys (k ∷ ks) =
      let rest = lookup_all keys ks in
      if any (λ j. k == j) keys then add_item (k, out k) rest else err key_error

  unfoldable pub gather_mapping : List ℕ → List ℕ → Result (List (ℕ × V))
  gather_mapping mapping order = lookup_all (collect order) mapping
