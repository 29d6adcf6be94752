-- ===== src/AsyncFuture/Examples.antt =====
-- A store with the futures of two awaitables and of their sum.
use ez_a_sync.Prelude.{
  ℕ, zero, suc, ◌+◌, ◌≡◌, refl, Bool, true, [], ◌∷◌, some, none, Option, Result, ok, err,
  cancelled_error, arith,
}
use ez_a_sync.AsyncFuture.{
  Operand, Operator, add, arithmetic, fut, value, Awaitable, given, compute, Store, nothing_yet,
  operate, await_future, set_done, start,
}
use ez_a_sync.AsyncFuture.Laws.{IsAcyclic, IsCoherent, GivesFut, awaited}
use ez_a_sync.AsyncFuture.Operate.{IsWithin, operated}

abbrev adds : Operator → ℕ → ℕ → Result ℕ
adds op a b = ok (a + b)

abbrev left : ℕ → Bool
left i = true

-- Futures 0 and 1 are given, the others are the sum of those two.
abbrev awaitables : ℕ → Awaitable ℕ
awaitables zero = given (ok 3)
awaitables (suc zero) = given (ok 4)
awaitables (suc (suc n)) = compute (arithmetic add) (fut 0) (fut 1)

abbrev three : Store ℕ
three = record nothing_yet { size = 3; awaitable = awaitables }

three-IsAcyclic : IsAcyclic adds awaitables
three-IsAcyclic zero = tt
three-IsAcyclic (suc zero) = tt
three-IsAcyclic (suc (suc n)) = (omega arith, omega arith)

three-IsCoherent : IsCoherent adds three
three-IsCoherent = record { of_done = λ i r e. cc; of_task = λ i r e. cc }

three-IsWithin : IsWithin adds three
three-IsWithin = ((λ i r e. cc), (λ i r e. cc))

awaited_example : GivesFut adds 2 three (await_future adds left 5 2 three)
awaited_example = awaited adds left 5 2 three (omega arith) three-IsAcyclic three-IsCoherent

-- A task that was cancelled is not run again, and its outcome is not kept in the future.
abbrev gone : Store ℕ
gone = record nothing_yet { size = 1; awaitable = λ i. given (err cancelled_error) }

abbrev state : Option (Result ℕ × Store ℕ) → Store ℕ
state none = gone
state (some (r, s)) = s

cancelled_once :
    ((state (await_future adds left 1 0 (state (await_future adds left 1 0 gone)))).done 0 ≡ none)
    × ((state (await_future adds left 1 0 (state (await_future adds left 1 0 gone)))).runs 0 ≡ 1)
unfolding await_future set_done start
cancelled_once = (refl, refl)

abbrev doubled : Store ℕ
doubled = (operate add 2 (fut 2) three).1

operated_example :
    (doubled.awaitable 3 ≡ compute (arithmetic add) (fut 2) (fut 2))
    × (doubled.dependencies 3 ≡ 2 ∷ 2 ∷ [])
    × IsAcyclic adds doubled.awaitable
    × IsCoherent adds doubled
    × GivesFut adds 3 doubled (await_future adds left 4 3 doubled)
operated_example =
    operated adds left add 2 (fut 2) three (omega arith) (omega arith) three-IsWithin
      three-IsAcyclic three-IsCoherent

abbrev seven : Operand ℕ
seven = value 7
