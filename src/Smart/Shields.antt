-- ===== src/Smart/Shields.antt =====
-- `shield` of a_sync/_smart.pyx keeps the invariant of the queue.
use ez_a_sync.Prelude.{ℕ, suc, ◌<◌, ◌≡◌, refl, subst, false, ◌∷◌, none, some, ◌⊎◌, arith}
use ez_a_sync.Gather.{cancelled}
use ez_a_sync.Smart.{SmartQueue, update, shield}
use ez_a_sync.Smart.Steps.{at_update, IsSound, IsChange, changed-IsSound}

module _ {V : Type 0} where
  -- One more shield, of a future that has not been collected.
  pub outer_added :
      (i : ℕ) (self : SmartQueue V)
      → i < self.inners
      → (self.inner i).collected ≡ false
      → IsSound self
      → IsSound (record self {
        outers = suc self.outers;
        outer = update self.outer self.outers (record { inner = i; state = none });
      })
  outer_added i self l c h = record {
    holds =
        at_update
          (λ o x.
            x.state ≡ none → (x.inner < self.inners) × ((self.inner x.inner).collected ≡ false))
          self.outer self.outers (record { inner = i; state = none }) (λ e. (l, c))
          (λ o n. h.holds o);
    agrees = λ o s.
        at_update
          (λ p x.
            x.state ≡ some s
            → (s ≡ cancelled) ⊎ ((x.inner < self.inners) × ((self.inner x.inner).state ≡ some s)))
          self.outer self.outers (record { inner = i; state = none }) (λ e. cc)
          (λ p n. h.agrees p s) o;
    born =
        at_update (λ o x. x.state ≡ none → o < suc self.outers) self.outer self.outers
          (record { inner = i; state = none }) (λ e. omega arith)
          (λ o n e. omega (arith, h.born o e));
    waits = h.waits;
    wanted = h.wanted;
    works = h.works;
    runs = h.runs;
    refers = h.refers;
  }

  waiters-IsChange :
      (i o : ℕ) (self : SmartQueue V)
      → IsSound self
      → IsChange i (record (self.inner i) { waiters = o ∷ (self.inner i).waiters }) self.futs self
  waiters-IsChange i o self h = record {
    live = λ p eq e. subst (λ (l : ℕ). (self.inner l).collected ≡ false) eq (h.holds p e).1;
    keeps = λ s e. e;
    waiting = λ l d e. h.waits i l d e;
    wanted = λ l. refl;
    working = h.works i;
    running = h.runs i;
    referred = λ k. h.refers k i;
    fewer = λ k j e. e;
    found = λ j l n d e. (h.waits j l d e).1;
  }

  pub shield-IsSound :
      (i : ℕ) (self : SmartQueue V)
      → i < self.inners
      → (self.inner i).collected ≡ false
      → IsSound self
      → IsSound (shield i self).1
  unfolding shield
  shield-IsSound i self l c h =
      let v = record (self.inner i) { waiters = self.outers ∷ (self.inner i).waiters } in
      outer_added i (record self { inner = update self.inner i v }) l
        (at_update (λ j x. j ≡ i → x.collected ≡ false) self.inner i v (λ e. c)
          (λ j n e. absurd (n e)) i refl)
        (changed-IsSound i v self.futs self.unfinished self (waiters-IsChange i self.outers self h)
          h)
