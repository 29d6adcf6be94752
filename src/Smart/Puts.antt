-- ===== src/Smart/Puts.antt =====
-- `put_nowait` of `SmartProcessingQueue` in a_sync/primitives/queue.py keeps the invariant.
use ez_a_sync.Prelude.{
  ℕ, suc, ◌+◌, ◌<◌, ◌≡◌, ◌≢◌, refl, sym, ap, ◌∙◌, subst, fun_ext, Bool, true, false, List, [], ◌∷◌,
  Option, Exn, none, some, is_empty, ◌==◌, if◌then◌else◌, Bool-cases, inl, inr, ◌⊎◌, arith,
}
use ez_a_sync.Gather.{cancelled}
use ez_a_sync.Counter.Heap.{eq_true, eq_refl, eq_false, if_false, if_true}
use ez_a_sync.Smart.{
  queued, processing, over, Inner, SmartQueue, Given, update, get_fut, pop_fut, is_done, shield,
  new_job, put_found, put_unless, ensure_workers, put_nowait,
}
use ez_a_sync.Smart.Keys.{has_entry, has_entry-get, get_fut-pop, has_entry-pop}
use ez_a_sync.Smart.Steps.{at_update, IsSound}
use ez_a_sync.Smart.Shields.{outer_added, shield-IsSound}

update_twice : {A : Type 0} (f : ℕ → A) (i : ℕ) (v w : A) → update (update f i v) i w ≡ update f i w
update_twice f i v w = fun_ext (λ j. ground arith)

update_self : {A : Type 0} (f : ℕ → A) (i : ℕ) (v : A) → update f i v i ≡ v
update_self f i v = if_true _ _ _ (eq_refl i)

module _ {V : Type 0} where
  -- A new future, which a shield waits for.
  abbrev fresh : ℕ → List ℕ → Inner V
  fresh key waiters = record {
    key = key;
    state = none;
    waiters = waiters;
    collected = false;
    job = queued;
  }

  abbrev added : ℕ → ℕ → SmartQueue V → SmartQueue V
  added key o self = record self {
    inners = suc self.inners;
    inner = update self.inner self.inners (fresh key (o ∷ []));
    futs = (key, self.inners) ∷ pop_fut key self.futs;
    unfinished = self.unfinished + 1;
  }

  entry_other :
      (key k j : ℕ) (self : SmartQueue V)
      → has_entry k j ((key, self.inners) ∷ pop_fut key self.futs) ≡ true
      → j ≢ self.inners
      → has_entry k j self.futs ≡ true
  entry_other key k j self e n = (has_entry-pop k j key self.futs (ground (arith, e, n))).0

  entry_new :
      (key k : ℕ) (self : SmartQueue V)
      → IsSound self
      → has_entry k self.inners ((key, self.inners) ∷ pop_fut key self.futs) ≡ true
      → key ≡ k
  entry_new key k self h e = elim (Bool-cases (k == key)) [
    | inl same ↦ sym (eq_true k key same)
    | inr differs ↦
        let old = (has_entry-pop k self.inners key self.futs (ground (arith, e, differs))).0 in
        absurd (omega (arith, (h.refers k self.inners old).0))
  ]

  added-IsSound :
      (key o : ℕ) (self : SmartQueue V)
      → get_fut key self.futs ≡ none
      → IsSound self
      → IsSound (added key o self)
  unfolding get_fut
  added-IsSound key o self missing h =
      let v = fresh key (o ∷ []) in
      let n = self.inners in
      let futs : List (ℕ × ℕ) = (key, n) ∷ pop_fut key self.futs in
      record {
        born = h.born;
        holds = λ p e.
            at_update (λ j x. (self.outer p).inner ≡ j → (j < suc n) × (x.collected ≡ false))
              self.inner n v (λ eq. (omega arith, refl))
              (λ j ne eq.
                let held =
                  subst (λ (l : ℕ). (l < n) × ((self.inner l).collected ≡ false)) eq
                    (h.holds p e) in
                (omega (arith, held.0), held.1))
              (self.outer p).inner refl;
        agrees = λ p s e.
            at_update
              (λ j x.
                (self.outer p).inner ≡ j → (s ≡ cancelled) ⊎ ((j < suc n) × (x.state ≡ some s)))
              self.inner n v
              (λ eq. elim (h.agrees p s e) [
                | inl y ↦ inl y
                | inr (l, y) ↦ absurd (omega (arith, l, eq))
              ])
              (λ j ne eq. elim (h.agrees p s e) [
                | inl y ↦ inl y
                | inr (l, y) ↦
                    inr
                      (omega (arith, l, eq), subst (λ (l : ℕ). (self.inner l).state ≡ some s) eq y)
              ])
              (self.outer p).inner refl;
        waits =
            at_update
              (λ j x.
                j < suc n
                → x.collected ≡ false
                → x.state ≡ none
                → (x.job ≢ over) × (get_fut x.key futs ≡ some j))
              self.inner n v (λ l c e. ((λ m. cc), if_true _ _ _ (eq_refl key)))
              (λ j ne l c e.
                let (a, b) = h.waits j (omega (arith, l, ne)) c e in
                let other : (self.inner j).key ≢ key =
                  λ m. cc (sym b ∙ ap (λ (k : ℕ). get_fut k self.futs) m ∙ missing) in
                (
                  a,
                  if_false _ _ _ (eq_false _ _ other)
                      ∙ get_fut-pop (self.inner j).key key self.futs
                      ∙ if_false _ _ _ (eq_false _ _ other)
                      ∙ b,
                ));
        wanted =
            at_update (λ j x. j < suc n → is_empty x.waiters ≡ false) self.inner n v (λ l. refl)
              (λ j ne l. h.wanted j (omega (arith, l, ne)));
        works =
            at_update (λ j x. x.job ≢ over → (j < suc n) × (x.state ≡ none)) self.inner n v
              (λ m. (omega arith, refl))
              (λ j ne m. (omega (arith, (h.works j m).0), (h.works j m).1));
        runs =
            at_update (λ j x. x.job ≡ processing → x.collected ≡ false) self.inner n v (λ e. refl)
              (λ j ne. h.runs j);
        refers = λ k.
            at_update
              (λ j x. has_entry k j futs ≡ true → (j < suc n) × (x.key ≡ k) × (x.collected ≡ false))
              self.inner n v (λ e. (omega arith, entry_new key k self h e, refl))
              (λ j ne e.
                let (l, a, b) = h.refers k j (entry_other key k j self e ne) in
                (omega (arith, l), a, b));
      }

  -- A shield of a new future.
  new_shield :
      (key : ℕ) (self : SmartQueue V)
      → (shield self.inners (new_job key self)).1 ≡ record (added key self.outers self) {
        outers = suc self.outers;
        outer = update self.outer self.outers (record { inner = self.inners; state = none });
      }
  unfolding shield new_job
  new_shield key self =
      let n = self.inners in
      ap
        (λ (f : ℕ → Inner V). record (added key self.outers self) {
          outers = suc self.outers;
          outer = update self.outer self.outers (record { inner = self.inners; state = none });
          inner = f;
        })
        (update_twice self.inner n (fresh key []) _
          ∙ ap
              (λ (x : Inner V).
                update self.inner n (record x { waiters = self.outers ∷ x.waiters }))
              (update_self self.inner n (fresh key [])))

  put_found-IsSound :
      (key : ℕ) (o : Option ℕ) (self : SmartQueue V)
      → get_fut key self.futs ≡ o
      → IsSound self
      → IsSound (put_found key o self).1
  put_found-IsSound key none self e h = subst IsSound (sym (new_shield key self)) (
      outer_added self.inners (added key self.outers self) (omega arith)
        (ap (λ (x : Inner V). x.collected)
          (update_self self.inner self.inners (fresh key (self.outers ∷ []))))
        (added-IsSound key self.outers self e h))
  put_found-IsSound key (some i) self e h =
      let (l, _, c) = h.refers key i (has_entry-get key i self.futs e) in
      elim (Bool-cases (is_done (self.inner i).state)) [
        | inl d ↦
            subst (λ (b : Bool). IsSound (if b then (Given.itself i, self) else shield i self).1)
              (sym d) h
        | inr d ↦
            subst (λ (b : Bool). IsSound (if b then (Given.itself i, self) else shield i self).1)
              (sym d) (shield-IsSound i self l c h)
      ]

  put_unless-IsSound :
      (o : Option Exn) (key : ℕ) (self : SmartQueue V)
      → IsSound self
      → IsSound (put_unless o key self).1
  put_unless-IsSound (some e) key self h = h
  put_unless-IsSound none key self h = put_found-IsSound key (get_fut key self.futs) self refl h

  pub put_nowait-IsSound :
      (key : ℕ) (self : SmartQueue V) → IsSound self → IsSound (put_nowait key self).1
  unfolding put_nowait
  put_nowait-IsSound key self h = put_unless-IsSound (ensure_workers self) key self h
