-- ===== src/Smart/Examples.antt =====
-- A `SmartProcessingQueue` with two keys.
use ez_a_sync.Prelude.{
  ℕ, ◌≡◌, ◌≢◌, ◌⊎◌, refl, List, [], ◌∷◌, none, some, ok, err, user_error, runtime_error,
  cancelled_error, Exn, true, false, arith,
}
use ez_a_sync.Gather.{Outcome, failed, cancelled}
use ez_a_sync.Smart.{
  SmartQueue, itself, shielded, queued, processing, abandoned, notice, Event, put, take, end,
  callback, cancel, step, run, init, put_nowait, shield, get_fut,
}
use ez_a_sync.Smart.Shared.{put_shared, shield_served, outcome_shared, take_processed}

-- Two callers share key 5; one of them cancels; key 6 fails.
abbrev events : List (Event ℕ)
events =
    put 5
    ∷ put 6
    ∷ put 5
    ∷ cancel 2
    ∷ take 1
    ∷ end 1 (err (user_error 4))
    ∷ callback 1
    ∷ take 0
    ∷ []

one_job : (run events init).inners ≡ 2
unfolding run put_nowait
one_job = refl

abbrev state : SmartQueue ℕ
state = run events init

put_shared_example :
    (state.closed ≡ false
      → state.broken ≡ none
      → (put_nowait 5 state ≡ (ok (shielded state.outers), (shield 0 state).1))
        × ((shield 0 state).1.inners ≡ state.inners)
        × ((shield 0 state).1.unfinished ≡ state.unfinished))
    × (state.closed ≡ true → put_nowait 5 state ≡ (err runtime_error, state))
    × ((e : Exn)
        → state.closed ≡ false
        → state.broken ≡ some e
        → put_nowait 5 state ≡ (err e, state))
unfolding run put_nowait
put_shared_example = put_shared events 0 (omega arith) refl refl

shield_served_example :
    (((state.inner (state.outer 0).inner).state ≡ none)
      × (((state.inner (state.outer 0).inner).job ≡ queued)
          ⊎ (((state.inner (state.outer 0).inner).job ≡ processing)
              ⊎ (((state.inner (state.outer 0).inner).job ≡ abandoned)
                  × (state.worker_error ≢ none)))))
    ⊎ ((s : Outcome ℕ) × ((state.inner (state.outer 0).inner).state ≡ some s)
        × (((step (callback 0) state).outer 0).state ≡ some s))
unfolding run put_nowait
shield_served_example = shield_served events 0 refl

-- The function is cancelled: its worker breaks, the shield stays pending, and the next put raises.
abbrev breaking : List (Event ℕ)
breaking = put 5 ∷ take 0 ∷ end 0 (err cancelled_error) ∷ notice ∷ callback 0 ∷ []

never_served :
    (((run breaking init).outer 0).state ≡ none)
    × ((put_nowait 5 (run breaking init)).0 ≡ err cancelled_error)
unfolding run put_nowait
never_served = (refl, refl)

abbrev failure : Outcome ℕ
failure = failed (user_error 4)

outcome_shared_example :
    (failure ≡ cancelled)
    ⊎ (((run events init).inner ((run events init).outer 1).inner).state ≡ some failure)
unfolding run put_nowait
outcome_shared_example = outcome_shared events 1 failure refl

-- The only caller has cancelled.
take_processed_example :
    ((step (take 0) (run (put 5 ∷ cancel 0 ∷ []) (init {V = ℕ}))).inner 0).job ≡ processing
unfolding run put_nowait
take_processed_example = take_processed {V = ℕ} (put 5 ∷ cancel 0 ∷ []) 0 refl refl

-- The future of a job that is done is returned itself, until it has been collected.
again : (put_nowait 5 (run (put 5 ∷ take 0 ∷ end 0 (ok 7) ∷ []) (init {V = ℕ}))).0 ≡ ok (itself 0)
unfolding run put_nowait get_fut
again = refl
