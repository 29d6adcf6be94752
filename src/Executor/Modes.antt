-- ===== src/Executor/Modes.antt =====
-- a_sync/executor.py: `submit` in the caller's thread against `submit` to the pool.
use ez_a_sync.Prelude.{
  ℕ, ◌≡◌, refl, Exn, Bool, true, false, List, [], ◌∷◌, Option, Result, ok, err, ◌==◌, subst, sym,
  Bool-cases, inl, inr, Result-cases, ==_iff,
}
use ez_a_sync.Asyncio.Futures.{Future, pending, cancelled}
use ez_a_sync.Executor.{
  is_exception, Executor, submit, run_item, loop_once, set_future, create_future, super_submit,
  run_calls, copy_future_state, call_copy_future_state, copied,
}

-- What the call raises, if anything, is an `Exception`.
abbrev pub raises_exception : {V : Type 0} → Result V → Bool
raises_exception (ok v) = true
raises_exception (err e) = is_exception e

module _ {A V : Type 0} where
  -- An executor that holds no work: `n` workers, in one of the two modes.
  abbrev pub at_rest : Bool → ℕ → ℕ → (ℕ → Future V) → Executor A V
  at_rest sync n c futs = record {
    max_workers = n;
    sync_mode = sync;
    created = c;
    futs = futs;
    items = [];
    calls = [];
  }

  module _ (convert : Exn → Exn) (call : A → Result V) (fn : A) (n c : ℕ)
      (futs : ℕ → Future V) where
    abbrev pub directly : Result (Option ℕ) × Executor A V
    directly = submit call fn false (at_rest true n c futs)

    abbrev pub threaded : Result (Option ℕ) × Executor A V
    threaded = submit call fn false (at_rest false n c futs)

    -- For a call that returns or raises an `Exception` that `_convert_future_exc` leaves as it
    -- is, on an executor at rest whose next future is pending, `submit` returns the same future
    -- in both modes, and the futures that it leaves in the caller's thread are those of the pool
    -- once the work item has run and the event loop has turned.
    pub modes_agree :
        (i : ℕ)
        → futs c ≡ pending
        → raises_exception (call fn) ≡ true
        → ((e : Exn) → call fn ≡ err e → convert e ≡ e)
        → (directly.0 ≡ threaded.0)
          × (directly.1.futs i ≡ (loop_once convert (run_item call threaded.1)).futs i)
    unfolding submit run_item loop_once set_future create_future super_submit run_calls
        copy_future_state call_copy_future_state
    modes_agree i p e u = elim (Result-cases (call fn)) [
      | inl (v, f) ↦ rw (f, p) (refl, rw p refl)
      | inr (x, f) ↦
          let t = subst (λ r. raises_exception r ≡ true) f e in
          rw (f, p, t) (refl, rw (p, u x f) refl)
    ]

  -- A future that is cancelled before the event loop runs the calls that copy results is still
  -- cancelled after all of them.
  pub run_calls-cancelled :
      (convert : Exn → Exn) (calls : List (ℕ × Result V)) (s : Executor A V) (i : ℕ)
      → s.futs i ≡ cancelled
      → (run_calls convert calls s).futs i ≡ cancelled
  unfolding run_calls copy_future_state set_future
  run_calls-cancelled convert [] s i e = e
  run_calls-cancelled convert ((j, r) ∷ calls) s i e =
      run_calls-cancelled convert calls (copy_future_state convert j r s) i
        (elim (Bool-cases (j == i)) [
          | inl t ↦ rw t (
              subst (λ k. copied convert (s.futs k) r ≡ cancelled) (sym ((==_iff j i).0 t))
                (rw e refl))
          | inr f ↦ rw f e
        ])
