-- ===== src/Cached/Examples.antt =====
-- A cached property with two callers.
use ez_a_sync.Prelude.{ℕ, ◌≡◌, ◌⊎◌, refl, List, [], ◌∷◌, none, some, Exn, user_error, arith}
use ez_a_sync.Gather.{finished, failed, cancelled}
use ez_a_sync.Cached.{awaiting, Event, call, grant, resume, done, cancel, step, run, init}
use ez_a_sync.Cached.Agreed.{one_value}
use ez_a_sync.Cached.Once.{getter_once, value_dropped}

-- Both call before the getter returns; the second gets the lock when the first has the value.
abbrev both : List (Event ℕ)
both = call 0 ∷ call 1 ∷ grant 0 ∷ done 0 (finished 7) ∷ resume 0 ∷ grant 1 ∷ []

abbrev value : ℕ
value = 7

one_task : (run both init).created ≡ 1
unfolding run step
one_task = refl

one_value_example : (value ≡ value) × ((run both init).cache ≡ some value)
unfolding run step
one_value_example = one_value both 0 1 value value refl refl

-- The getter raises; the second caller runs it again.
abbrev again : List (Event ℕ)
again = call 0 ∷ call 1 ∷ grant 0 ∷ done 0 (failed (user_error 3)) ∷ resume 0 ∷ grant 1 ∷ []

getter_once_example :
    ((e : Exn) × ((run again init).outcome 0 ≡ some (failed e)))
    ⊎ ((run again init).outcome 0 ≡ some cancelled)
unfolding run step
getter_once_example = getter_once again 0 refl (omega arith)

-- The getter has returned when its only caller is cancelled.
abbrev lost : List (Event ℕ)
lost = call 0 ∷ grant 0 ∷ done 0 (finished 7) ∷ []

value_dropped_example :
    ((step (cancel 0) (run lost init)).cache ≡ none)
    × ((step (cancel 0) (run lost init)).task ≡ none)
    × ((step (cancel 0) (run lost init)).owner ≡ none)
unfolding run step
value_dropped_example = value_dropped lost 0 0 7 refl refl

-- The next caller runs the getter a second time.
abbrev redone : List (Event ℕ)
redone = call 0 ∷ grant 0 ∷ done 0 (finished 7) ∷ cancel 0 ∷ call 1 ∷ grant 1 ∷ []

second_task : (run redone init).caller 1 ≡ awaiting 1
unfolding run step
second_task = refl
