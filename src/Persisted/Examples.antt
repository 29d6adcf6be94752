-- ===== src/Persisted/Examples.antt =====
-- Two persisted tasks, one of which is done.
use ez_a_sync.Prelude.{
  ltb, ℕ, suc, ◌≡◌, refl, Bool, true, false, List, [], ◌∷◌, Exn, err, ok, user_error,
}
use ez_a_sync.Gather.{failed}
use ez_a_sync.Persisted.{
  Event, Tasks, create, finish, wake, callback, ccreate_task, step, run, init,
}
use ez_a_sync.Persisted.Held.{persisted_until_done}
use ez_a_sync.Persisted.Raising.{create_task_returns}
use ez_a_sync.Persisted.Poisoned.{create_task_raises}

-- `user_error 0` stands for a KeyboardInterrupt, the others for instances of Exception.
abbrev is_exception : Exn → Bool
is_exception (user_error n) = ltb 0 n
is_exception _ = true

abbrev failing : List (Event ℕ)
failing = create true ∷ finish 0 (failed (user_error 3)) ∷ wake 0 ∷ callback 0 ∷ []

abbrev state : Tasks ℕ
state = run is_exception failing init

reported_once : state.reported ≡ user_error 3 ∷ []
unfolding run step ccreate_task
reported_once = refl

persisted_until_done_example :
    (run is_exception (create false ∷ []) (ccreate_task true state).1).persisted state.created
    ≡ true
unfolding run step ccreate_task
persisted_until_done_example = persisted_until_done is_exception failing (create false ∷ []) refl

create_task_returns_example : (ccreate_task true state).0 ≡ ok state.created
unfolding run step ccreate_task
create_task_returns_example = create_task_returns is_exception failing true refl

abbrev interrupted : List (Event ℕ)
interrupted = create true ∷ finish 0 (failed (user_error 0)) ∷ wake 0 ∷ []

abbrev after : Tasks ℕ
after =
    run is_exception (create false ∷ [])
      (step is_exception (callback 0) (run is_exception interrupted init))

create_task_raises_example :
    ((e : Exn) × ((ccreate_task false after).0 ≡ err e))
    × ((ccreate_task false after).1.created ≡ suc after.created)
unfolding run step ccreate_task
create_task_raises_example =
    create_task_raises is_exception interrupted (create false ∷ []) 0 (user_error 0) false refl
