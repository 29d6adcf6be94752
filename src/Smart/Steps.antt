-- ===== src/Smart/Steps.antt =====
-- The invariant of `SmartProcessingQueue` in a_sync/primitives/queue.py.
use ez_a_sync.Prelude.{
  ℕ, ◌<◌, ◌≡◌, ◌≢◌, refl, sym, ap, subst, Bool, true, false, Option, Exn, List, none, some,
  is_empty, ◌==◌, if◌then◌else◌, Bool-cases, inl, inr, ◌⊎◌, arith,
}
use ez_a_sync.Gather.{Outcome, cancelled}
use ez_a_sync.Smart.{processing, over, Inner, SmartQueue, update, get_fut, init}
use ez_a_sync.Counter.Heap.{eq_true, eq_refl}
use ez_a_sync.Smart.Keys.{has_entry}

-- What holds of a new value at `i`, and of the old ones elsewhere.
pub at_update :
    {A : Type 0} (P : ℕ → A → Type 0) (f : ℕ → A) (i : ℕ) (v : A)
    → P i v
    → ((j : ℕ) → j ≢ i → P j (f j))
    → (j : ℕ) → P j (update f i v j)
at_update P f i v h k j = elim (Bool-cases (j == i)) [
  | inl e ↦
      subst (λ (b : Bool). P j (if b then v else f j)) (sym e)
        (subst (λ (l : ℕ). P l v) (sym (eq_true j i e)) h)
  | inr e ↦
      subst (λ (b : Bool). P j (if b then v else f j)) (sym e)
        (k j (λ n. cc (e, ap (λ (l : ℕ). l == i) n, eq_refl i)))
]

module _ {V : Type 0} where
  pub record IsSound (self : SmartQueue V) : Type 0 where
    -- a pending shield holds its future
    pub holds :
        (o : ℕ)
        → (self.outer o).state ≡ none
        → ((self.outer o).inner < self.inners)
          × ((self.inner (self.outer o).inner).collected ≡ false)
    pub born : (o : ℕ) → (self.outer o).state ≡ none → o < self.outers
    -- a shield that is done agrees with its future, or was cancelled
    pub agrees :
        (o : ℕ) (s : Outcome V)
        → (self.outer o).state ≡ some s
        → (s ≡ cancelled)
          ⊎ (((self.outer o).inner < self.inners)
              × ((self.inner (self.outer o).inner).state ≡ some s))
    -- a pending future that has not been collected has a job, and is that of its key
    pub waits :
        (i : ℕ)
        → i < self.inners
        → (self.inner i).collected ≡ false
        → (self.inner i).state ≡ none
        → ((self.inner i).job ≢ over) × (get_fut (self.inner i).key self.futs ≡ some i)
    pub wanted : (i : ℕ) → i < self.inners → is_empty (self.inner i).waiters ≡ false
    pub works :
        (i : ℕ) → (self.inner i).job ≢ over → (i < self.inners) × ((self.inner i).state ≡ none)
    pub runs : (i : ℕ) → (self.inner i).job ≡ processing → (self.inner i).collected ≡ false
    pub refers :
        (k i : ℕ)
        → has_entry k i self.futs ≡ true
        → (i < self.inners) × ((self.inner i).key ≡ k) × ((self.inner i).collected ≡ false)

  -- The workers and the flag of `close` do not matter to it.
  pub same-IsSound :
      (closed : Bool) (error broken : Option Exn) (self : SmartQueue V)
      → IsSound self
      → IsSound (record self { closed = closed; worker_error = error; broken = broken })
  same-IsSound closed error broken self h = record {
    holds = h.holds;
    born = h.born;
    agrees = h.agrees;
    waits = h.waits;
    wanted = h.wanted;
    works = h.works;
    runs = h.runs;
    refers = h.refers;
  }

  pub init-IsSound : IsSound (init {V = V})
  init-IsSound = record {
    holds = λ o e. cc;
    born = λ o e. cc;
    agrees = λ o s e. inl (ground (arith, e));
    waits = λ i h c e. absurd (omega arith);
    wanted = λ i h. absurd (omega arith);
    works = λ i h. absurd (h refl);
    runs = λ i e. cc;
    refers = λ k i e. cc;
  }

  -- What is asked of a new value of future `i`, and of the new entries.
  pub record IsChange (i : ℕ) (v : Inner V) (futs : List (ℕ × ℕ)) (self : SmartQueue V)
      : Type 0 where
    pub live :
        (o : ℕ) → (self.outer o).inner ≡ i → (self.outer o).state ≡ none → v.collected ≡ false
    pub keeps : (s : Outcome V) → (self.inner i).state ≡ some s → v.state ≡ some s
    pub waiting :
        i < self.inners
        → v.collected ≡ false
        → v.state ≡ none
        → (v.job ≢ over) × (get_fut v.key futs ≡ some i)
    pub wanted : i < self.inners → is_empty v.waiters ≡ false
    pub working : v.job ≢ over → (i < self.inners) × (v.state ≡ none)
    pub running : v.job ≡ processing → v.collected ≡ false
    pub referred :
        (k : ℕ)
        → has_entry k i futs ≡ true
        → (i < self.inners) × (v.key ≡ k) × (v.collected ≡ false)
    pub fewer : (k j : ℕ) → has_entry k j futs ≡ true → has_entry k j self.futs ≡ true
    pub found :
        (j : ℕ)
        → j < self.inners
        → j ≢ i
        → (self.inner j).collected ≡ false
        → (self.inner j).state ≡ none
        → get_fut (self.inner j).key futs ≡ some j

  pub changed-IsSound :
      (i : ℕ) (v : Inner V) (futs : List (ℕ × ℕ)) (n : ℕ) (self : SmartQueue V)
      → IsChange i v futs self
      → IsSound self
      → IsSound (record self { inner = update self.inner i v; futs = futs; unfinished = n })
  changed-IsSound i v futs n self c h = record {
    born = h.born;
    holds = λ o e.
        at_update (λ j x. (self.outer o).inner ≡ j → (j < self.inners) × (x.collected ≡ false))
          self.inner i v
          (λ eq. (subst (λ (l : ℕ). l < self.inners) eq (h.holds o e).0, c.live o eq e))
          (λ j n eq.
            subst (λ (l : ℕ). (l < self.inners) × ((self.inner l).collected ≡ false)) eq
              (h.holds o e))
          (self.outer o).inner refl;
    agrees = λ o s e.
        at_update
          (λ j x.
            (self.outer o).inner ≡ j → (s ≡ cancelled) ⊎ ((j < self.inners) × (x.state ≡ some s)))
          self.inner i v
          (λ eq.
            elim (subst
              (λ (l : ℕ). (s ≡ cancelled) ⊎ ((l < self.inners) × ((self.inner l).state ≡ some s)))
              eq (h.agrees o s e)) [ inl y ↦ inl y | inr (l, y) ↦ inr (l, c.keeps s y) ])
          (λ j n eq.
            subst
              (λ (l : ℕ). (s ≡ cancelled) ⊎ ((l < self.inners) × ((self.inner l).state ≡ some s)))
              eq (h.agrees o s e))
          (self.outer o).inner refl;
    waits =
        at_update
          (λ j x.
            j < self.inners
            → x.collected ≡ false
            → x.state ≡ none
            → (x.job ≢ over) × (get_fut x.key futs ≡ some j))
          self.inner i v c.waiting (λ j n l d e. ((h.waits j l d e).0, c.found j l n d e));
    wanted =
        at_update (λ j x. j < self.inners → is_empty x.waiters ≡ false) self.inner i v c.wanted
          (λ j n. h.wanted j);
    works =
        at_update (λ j x. x.job ≢ over → (j < self.inners) × (x.state ≡ none)) self.inner i v
          c.working (λ j n. h.works j);
    runs =
        at_update (λ j x. x.job ≡ processing → x.collected ≡ false) self.inner i v c.running
          (λ j n. h.runs j);
    refers = λ k.
        at_update
          (λ j x.
            has_entry k j futs ≡ true → (j < self.inners) × (x.key ≡ k) × (x.collected ≡ false))
          self.inner i v (c.referred k) (λ j n e. h.refers k j (c.fewer k j e));
  }
