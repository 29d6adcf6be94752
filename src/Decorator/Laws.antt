-- ===== src/Decorator/Laws.antt =====
-- `a_sync` in one stage or two, and what becomes of numbers among the modifiers of a class.
use ez_a_sync.Prelude.{
  Result-cases, inl, inr, ℕ, ◌≡◌, ◌≢◌, refl, sym, subst, ◌∙◌, Option, none, some, Result, ok, err,
  Exn, ℤ, inl, inr, Result-cases,
}
use ez_a_sync.Modifiers.{
  Sem, Arg, nothing, number, coro, plain, semaphore, limiter, threadsafe_semaphore,
}
use ez_a_sync.Decorator.{
  update, DefaultMode, sync_default, async_default, no_default, no_fn, word, function, Made, deco,
  decorated, a_sync, Key, semaphore_key, runs_per_minute_key, set_semaphore, set_limiter,
  apply_class_defined_modifiers,
}

-- `deco(fn)`
abbrev pub on : {M : Type 0} → Made M → ℕ → Made M
on (deco d) f = decorated d f
on (decorated d g) f = decorated d g

module _ {M : Type 0} where
  -- Decorating a function by `a_sync(default, **modifiers)` gives what `a_sync(fn, default,
  -- **modifiers)` gives, and the words "sync" and "async" in place of the function are the
  -- default, over another default given besides.
  pub a_sync_stages :
      (f : ℕ) (w d : DefaultMode) (m : M)
      → w ≢ no_default
      → (a_sync (function f) d m ≡ on (a_sync no_fn d m) f)
        × (a_sync (word w) d m ≡ a_sync no_fn w m)
  unfolding a_sync
  a_sync_stages f sync_default d m h = (refl, refl)
  a_sync_stages f async_default d m h = (refl, refl)
  a_sync_stages f no_default d m h = absurd (h refl)

module _ {L : Type 0} where
  -- The value at a key, when there is a dictionary.
  abbrev read : Key → Result (Key → Option (Arg L)) → Option (Arg L)
  read k (ok attrs) = attrs k
  read k (err e) = none

  IsNumber : Option (Arg L) → Type 0
  IsNumber (some (number n)) = Unit
  IsNumber _ = ⊥

  made-IsNumber :
      (r : Result Sem) (attrs : Key → Option (Arg L))
      → ¬ IsNumber (
          read semaphore_key (elim r as (λ _. Result (Key → Option (Arg L))) [
            | err e ↦ err e
            | ok s ↦ ok (update semaphore_key (semaphore s) attrs)
          ]))
  unfolding IsNumber
  made-IsNumber (ok s) attrs = λ h. h
  made-IsNumber (err e) attrs = λ h. h

  set_semaphore-IsNumber :
      (o : Option (Arg L)) (async_limiter : Arg L → L) (attrs : Key → Option (Arg L))
      → o ≡ attrs semaphore_key
      → ¬ IsNumber (read semaphore_key (set_semaphore async_limiter o attrs))
  unfolding set_semaphore threadsafe_semaphore IsNumber
  set_semaphore-IsNumber (some (number z)) lim attrs e =
      made-IsNumber (threadsafe_semaphore z) attrs
  set_semaphore-IsNumber none lim attrs e = subst (λ o. ¬ IsNumber o) e (λ h. h)
  set_semaphore-IsNumber (some nothing) lim attrs e = subst (λ o. ¬ IsNumber o) e (λ h. h)
  set_semaphore-IsNumber (some (coro f)) lim attrs e = subst (λ o. ¬ IsNumber o) e (λ h. h)
  set_semaphore-IsNumber (some (plain n)) lim attrs e = subst (λ o. ¬ IsNumber o) e (λ h. h)
  set_semaphore-IsNumber (some (semaphore s)) lim attrs e = subst (λ o. ¬ IsNumber o) e (λ h. h)
  set_semaphore-IsNumber (some (limiter l)) lim attrs e = subst (λ o. ¬ IsNumber o) e (λ h. h)

  set_limiter-IsNumber :
      (o : Option (Arg L)) (async_limiter : Arg L → L) (attrs : Key → Option (Arg L))
      → o ≡ attrs runs_per_minute_key
      → (¬ IsNumber (set_limiter async_limiter o attrs runs_per_minute_key))
        × (set_limiter async_limiter o attrs semaphore_key ≡ attrs semaphore_key)
  unfolding set_limiter IsNumber
  set_limiter-IsNumber (some (number n)) lim attrs e = (λ h. h, refl)
  set_limiter-IsNumber none lim attrs e = (subst (λ o. ¬ IsNumber o) e (λ h. h), refl)
  set_limiter-IsNumber (some nothing) lim attrs e = (subst (λ o. ¬ IsNumber o) e (λ h. h), refl)
  set_limiter-IsNumber (some (coro f)) lim attrs e = (subst (λ o. ¬ IsNumber o) e (λ h. h), refl)
  set_limiter-IsNumber (some (plain n)) lim attrs e = (subst (λ o. ¬ IsNumber o) e (λ h. h), refl)
  set_limiter-IsNumber (some (semaphore s)) lim attrs e =
      (subst (λ o. ¬ IsNumber o) e (λ h. h), refl)
  set_limiter-IsNumber (some (limiter l)) lim attrs e = (subst (λ o. ¬ IsNumber o) e (λ h. h), refl)

  ok_inj :
      (f g : Key → Option (Arg L)) → ◌≡◌ {A = Result (Key → Option (Arg L))} (ok f) (ok g) → f ≡ g
  ok_inj f g e = cc

  err_ok : (x : Exn) (g : Key → Option (Arg L)) → ¬ (err x ≡ ok g)
  err_ok x g = λ e. cc

  -- Neither modifier is a number.
  abbrev pub NoNumbers : (Key → Option (Arg L)) → Type 0
  NoNumbers f =
      (n : ℤ) → (f semaphore_key ≢ some (number n)) × (f runs_per_minute_key ≢ some (number n))

  limited :
      (lim : Arg L → L) (a : Key → Option (Arg L))
      → ¬ IsNumber (a semaphore_key)
      → NoNumbers (set_limiter lim (a runs_per_minute_key) a)
  unfolding IsNumber
  limited lim a h n =
      let l = set_limiter-IsNumber (a runs_per_minute_key) lim a refl in
      (λ e. h (subst IsNumber (sym (sym l.1 ∙ e)) tt), λ e. l.0 (subst IsNumber (sym e) tt))

  -- When `apply_class_defined_modifiers` succeeds on a dictionary, neither its semaphore nor its
  -- runs per minute is a number any more.
  pub no_numbers :
      (async_limiter : Arg L → L) (attrs attrs' : Key → Option (Arg L))
      → apply_class_defined_modifiers async_limiter attrs ≡ ok attrs'
      → NoNumbers attrs'
  unfolding apply_class_defined_modifiers IsNumber
  no_numbers lim attrs attrs' e =
      elim (Result-cases (set_semaphore lim (attrs semaphore_key) attrs)) [
        | inr (x, f) ↦ absurd (err_ok x attrs' (rw (f, apply_class_defined_modifiers) at e))
        | inl (a, f) ↦
            subst NoNumbers (ok_inj _ attrs' (rw (f, apply_class_defined_modifiers) at e)) (
              limited lim a (
                subst (λ r. ¬ IsNumber (read semaphore_key r)) f
                  (set_semaphore-IsNumber (attrs semaphore_key) lim attrs refl)))
      ]
