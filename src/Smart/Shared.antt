-- ===== src/Smart/Shared.antt =====
-- What the callers of `put_nowait` of `SmartProcessingQueue` in a_sync/primitives/queue.py get.
use ez_a_sync.Prelude.{
  ℕ, ◌<◌, ◌≡◌, ◌≢◌, ap, ◌∙◌, refl, Bool, true, ok, err, Exn, runtime_error, false, List, Option,
  none, some, Option-cases, ◌⊎◌, inl, inr,
}
use ez_a_sync.Gather.{Outcome, cancelled}
use ez_a_sync.Counter.Heap.{if_false, if_true, eq_refl}
use ez_a_sync.Smart.{
  abandoned, raised_first, ensure_workers, get_fut, put_unless, Given, shielded, Job, Inner, queued,
  processing, begin_job, is_skipped, take, over, Shield, SmartQueue, itself, is_done, copy, shield,
  put_found, put_nowait, Event, callback, step, run, init,
}
use ez_a_sync.Smart.Steps.{IsSound, init-IsSound}
use ez_a_sync.Smart.Broken.{left_broken}
use ez_a_sync.Smart.Runs.{run-IsSound, is_skipped-collected}

module _ {V : Type 0} (es : List (Event V)) where
  abbrev after : SmartQueue V
  after = run es init

  sound : IsSound after
  sound = run-IsSound es init init-IsSound

  put_open :
      (key : ℕ) (self : SmartQueue V)
      → ensure_workers self ≡ none
      → put_nowait key self ≡ (
        ok (put_found key (get_fut key self.futs) self).0,
        (put_found key (get_fut key self.futs) self).1,
      )
  unfolding put_nowait
  put_open key self e = ap (λ (o : Option Exn). put_unless o key self) e

  put_refused :
      (key : ℕ) (e : Exn) (self : SmartQueue V)
      → ensure_workers self ≡ some e
      → put_nowait key self ≡ (err e, self)
  unfolding put_nowait
  put_refused key e self n = ap (λ (o : Option Exn). put_unless o key self) n

  -- After any run, `put_nowait` of the key of a pending future that has not been collected gives
  -- a shield of that future and adds no job and no future, if the queue is open and its main
  -- task is not done; if the queue is closed it raises RuntimeError, and otherwise what broke
  -- the main task, and changes nothing.
  pub put_shared :
      (i : ℕ)
      → i < (run es init).inners
      → ((run es init).inner i).collected ≡ false
      → ((run es init).inner i).state ≡ none
      → ((run es init).closed ≡ false
          → (run es init).broken ≡ none
          → (put_nowait ((run es init).inner i).key (run es init)
              ≡ (ok (shielded (run es init).outers), (shield i (run es init)).1))
            × ((shield i (run es init)).1.inners ≡ (run es init).inners)
            × ((shield i (run es init)).1.unfinished ≡ (run es init).unfinished))
        × ((run es init).closed ≡ true
            → put_nowait ((run es init).inner i).key (run es init)
              ≡ (err runtime_error, run es init))
        × ((e : Exn)
            → (run es init).closed ≡ false
            → (run es init).broken ≡ some e
            → put_nowait ((run es init).inner i).key (run es init) ≡ (err e, run es init))
  unfolding shield
  put_shared i l c e =
      let key = (after.inner i).key in
      (
        λ f g. (
          put_open key after (rw (f, g) refl)
              ∙ ap (λ (p : Given × SmartQueue V). (ok p.0, p.1))
                  (ap (λ (o : Option ℕ). put_found key o after) (sound.waits i l c e).1
                    ∙ if_false (is_done (after.inner i).state) (itself i, after) (shield i after)
                        (ap is_done e)),
          refl,
          refl,
        ),
        λ f. put_refused key runtime_error after (ap (λ (b : Bool). raised_first b after.broken) f),
        λ x f g. put_refused key x after (rw (f, g) refl),
      )

  job_left :
      (i : ℕ) (job : Job)
      → (after.inner i).job ≡ job
      → job ≢ over
      → ((after.inner i).job ≡ queued)
        ⊎ (((after.inner i).job ≡ processing)
            ⊎ (((after.inner i).job ≡ abandoned) × (after.worker_error ≢ none)))
  job_left i queued e n = inl e
  job_left i processing e n = inr (inl e)
  job_left i over e n = absurd (n refl)
  job_left i abandoned e n = inr (inr (e, left_broken es i e))

  -- After any run, a shield that is pending has a pending future whose job is on the heap, or
  -- with a worker, or was left by a worker that broke, and then the queue has a broken worker;
  -- or it has a future that is done, and then its callback gives it the outcome of that future.
  pub shield_served :
      (o : ℕ)
      → ((run es init).outer o).state ≡ none
      → ((((run es init).inner ((run es init).outer o).inner).state ≡ none)
          × ((((run es init).inner ((run es init).outer o).inner).job ≡ queued)
              ⊎ ((((run es init).inner ((run es init).outer o).inner).job ≡ processing)
                  ⊎ ((((run es init).inner ((run es init).outer o).inner).job ≡ abandoned)
                      × ((run es init).worker_error ≢ none)))))
        ⊎ ((s : Outcome V) × (((run es init).inner ((run es init).outer o).inner).state ≡ some s)
            × (((step (callback o) (run es init)).outer o).state ≡ some s))
  unfolding step
  shield_served o e =
      let i = (after.outer o).inner in
      let (l, c) = sound.holds o e in
      elim (Option-cases (after.inner i).state) [
        | inl z ↦ inl (z, job_left i (after.inner i).job refl (sound.waits i l c z).0)
        | inr (s, z) ↦ inr (
          s,
          z,
          ap (λ (x : Shield V). x.state) (if_true _ _ _ (eq_refl o))
              ∙ ap (λ (st : Option (Outcome V)). (copy st (after.outer o)).state) z
              ∙ ap (λ (x : Shield V). x.state) (if_false _ _ _ (ap is_done e)),
        )
      ]

  -- After any run, a shield that is done was cancelled or has the outcome of its future: every
  -- caller of one future that does not cancel gets the same.
  pub outcome_shared :
      (o : ℕ) (s : Outcome V)
      → ((run es init).outer o).state ≡ some s
      → (s ≡ cancelled) ⊎ (((run es init).inner ((run es init).outer o).inner).state ≡ some s)
  outcome_shared o s e = elim (sound.agrees o s e) [ inl c ↦ inl c | inr (l, y) ↦ inr y ]

  -- After any run, a worker that takes the job of a future that has not been collected processes
  -- it, also when every shield of the future has been cancelled.
  pub take_processed :
      (i : ℕ)
      → ((run es init).inner i).job ≡ queued
      → ((run es init).inner i).collected ≡ false
      → ((step (take i) (run es init)).inner i).job ≡ processing
  unfolding step
  take_processed i q c =
      let skip = is_skipped-collected i after sound q ∙ c in
      ap (λ (j : Job). ((begin_job i j after).inner i).job) q
      ∙ ap (λ (self : SmartQueue V). (self.inner i).job)
          (if_false (is_skipped (after.inner i)) _ _ skip)
      ∙ ap (λ (x : Inner V). x.job) (if_true _ _ _ (eq_refl i))
