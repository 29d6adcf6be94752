-- ===== src/Smart/Changes.antt =====
-- How a future of `SmartProcessingQueue` in a_sync/primitives/queue.py may change.
use ez_a_sync.Prelude.{ℕ, ◌<◌, ◌≡◌, ◌≢◌, refl, sym, ap, ◌∙◌, subst, true, false, none, some}
use ez_a_sync.Gather.{Outcome}
use ez_a_sync.Smart.{queued, processing, over, abandoned, SmartQueue, get_fut, pop_fut, forget_fut}
use ez_a_sync.Counter.Heap.{eq_false, if_false}
use ez_a_sync.Smart.Keys.{get_fut-pop, has_entry-pop, has_entry-forget, get_fut-forget}
use ez_a_sync.Smart.Steps.{IsSound, IsChange}

some_inj : {A : Type 0} {a b : A} → some a ≡ some b → a ≡ b
some_inj e = cc

module _ {V : Type 0} where
  -- A future that holds its state and key, where the entries stay.
  module _ (i : ℕ) (self : SmartQueue V) (h : IsSound self) where
    held_live :
        (o : ℕ)
        → (self.outer o).inner ≡ i
        → (self.outer o).state ≡ none
        → (self.inner i).collected ≡ false
    held_live o eq e = subst (λ (l : ℕ). (self.inner l).collected ≡ false) eq (h.holds o e).1

    pub take-IsChange :
        (self.inner i).job ≡ queued
        → (self.inner i).collected ≡ false
        → IsChange i (record (self.inner i) { job = processing }) self.futs self
    take-IsChange q c = record {
      live = held_live;
      keeps = λ s e. e;
      waiting = λ l d e. ((λ n. cc), (h.waits i l d e).1);
      wanted = h.wanted i;
      working = λ n. h.works i (λ m. cc (m, q));
      running = λ e. c;
      referred = λ k. h.refers k i;
      fewer = λ k j e. e;
      found = λ j l n d e. (h.waits j l d e).1;
    }

    pub abandon-IsChange :
        (self.inner i).job ≡ processing
        → IsChange i (record (self.inner i) { job = abandoned }) self.futs self
    abandon-IsChange q = record {
      live = held_live;
      keeps = λ s e. e;
      waiting = λ l d e. ((λ n. cc), (h.waits i l d e).1);
      wanted = h.wanted i;
      working = λ n. h.works i (λ m. cc (m, q));
      running = λ e. cc;
      referred = λ k. h.refers k i;
      fewer = λ k j e. e;
      found = λ j l n d e. (h.waits j l d e).1;
    }

    pub skip-IsChange :
        (self.inner i).collected ≡ true
        → IsChange i (record (self.inner i) { job = over }) self.futs self
    skip-IsChange c = record {
      live = held_live;
      keeps = λ s e. e;
      waiting = λ l d e. cc (c, d);
      wanted = h.wanted i;
      working = λ n. absurd (n refl);
      running = λ e. cc;
      referred = λ k. h.refers k i;
      fewer = λ k j e. e;
      found = λ j l n d e. (h.waits j l d e).1;
    }

    -- The job of a pending future that has not been collected ends.
    pub end_ok-IsChange :
        (s : Outcome V)
        → (self.inner i).state ≡ none
        → IsChange i (record (self.inner i) { state = some s; job = over }) self.futs self
    end_ok-IsChange s z = record {
      live = held_live;
      keeps = λ x e. cc (z, e);
      waiting = λ l d e. cc;
      wanted = h.wanted i;
      working = λ n. absurd (n refl);
      running = λ e. cc;
      referred = λ k. h.refers k i;
      fewer = λ k j e. e;
      found = λ j l n d e. (h.waits j l d e).1;
    }

    other_key :
        (j : ℕ)
        → j < self.inners
        → i < self.inners
        → j ≢ i
        → (self.inner j).collected ≡ false
        → (self.inner j).state ≡ none
        → (self.inner i).collected ≡ false
        → (self.inner i).state ≡ none
        → (self.inner j).key ≢ (self.inner i).key
    other_key j lj li n cj sj ci si e = n (
        some_inj (
          sym (h.waits j lj cj sj).1
          ∙ ap (λ (k : ℕ). get_fut k self.futs) e
          ∙ (h.waits i li ci si).1))

    pub end_err-IsChange :
        (s : Outcome V)
        → i < self.inners
        → (self.inner i).collected ≡ false
        → (self.inner i).state ≡ none
        → IsChange i
            (record (self.inner i) { state = some s; job = over })
            (pop_fut (self.inner i).key self.futs)
            self
    end_err-IsChange s li ci z = record {
      live = held_live;
      keeps = λ x e. cc (z, e);
      waiting = λ l d e. cc;
      wanted = h.wanted i;
      working = λ n. absurd (n refl);
      running = λ e. cc;
      referred = λ k e. h.refers k i (has_entry-pop k i (self.inner i).key self.futs e).0;
      fewer = λ k j e. (has_entry-pop k j (self.inner i).key self.futs e).0;
      found = λ j l n d e.
          get_fut-pop (self.inner j).key (self.inner i).key self.futs
          ∙ if_false _ none _ (eq_false _ _ (other_key j l li n d e ci z))
          ∙ (h.waits j l d e).1;
    }

    pub collect-IsChange :
        ((o : ℕ) → (self.outer o).inner ≡ i → (self.outer o).state ≢ none)
        → (self.inner i).job ≢ processing
        → IsChange i (record (self.inner i) { collected = true }) (forget_fut i self.futs) self
    collect-IsChange free p = record {
      live = λ o eq e. absurd (free o eq e);
      keeps = λ s e. e;
      waiting = λ l d e. cc;
      wanted = h.wanted i;
      working = h.works i;
      running = λ e. absurd (p e);
      referred = λ k e. absurd ((has_entry-forget k i i self.futs e).1 refl);
      fewer = λ k j e. (has_entry-forget k j i self.futs e).0;
      found = λ j l n d e. get_fut-forget (self.inner j).key j i self.futs n (h.waits j l d e).1;
    }
