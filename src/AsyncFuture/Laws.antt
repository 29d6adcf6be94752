-- ===== src/AsyncFuture/Laws.antt =====
-- a_sync/future.py: what awaiting a future returns, and what it leaves.
use ez_a_sync.Prelude.{
  ℕ, zero, suc, ◌≤◌, ◌<◌, ◌≡◌, ◌≢◌, refl, sym, subst, ap, ◌∙◌, Bool, true, false, Option, none,
  some, Result, ok, err, Exn, ◌==◌, ==_iff, Bool-cases, Option-cases, ◌⊎◌, inl, inr, arith,
}
use ez_a_sync.Executor.{is_exception}
use ez_a_sync.AsyncFuture.{
  Operator, Operand, fut, value, Awaitable, given, compute, Store, put, kept, set_done, start,
  end_task, check_and_materialize, combine, task_result, await_future,
}

-- An outcome that is no cancellation.
abbrev pub is_kept : {V : Type 0} → Result V → Bool
is_kept (ok v) = true
is_kept (err e) = is_exception e

module _ {V : Type 0} (apply : Operator → V → V → Result V) where
  -- The outcome of an operand, by the outcomes of what it was built from: the operator on both
  -- results, the first operand to the left, or the exception of an operand that failed.
  pub data Denotes (awaitable : ℕ → Awaitable V) : Operand V → Result V → Type 0 where
    of_value : (v : V) → Denotes awaitable (value v) (ok v)
    of_given : (i : ℕ) (r : Result V) → awaitable i ≡ given r → Denotes awaitable (fut i) r
    of_results :
        (i : ℕ) (op : Operator) (a b : Operand V) (x y : V)
        → awaitable i ≡ compute op a b
        → Denotes awaitable a (ok x)
        → Denotes awaitable b (ok y)
        → Denotes awaitable (fut i) (apply op x y)
    of_first_failure :
        (i : ℕ) (op : Operator) (a b : Operand V) (e : Exn)
        → awaitable i ≡ compute op a b
        → Denotes awaitable a (err e)
        → Denotes awaitable (fut i) (err e)
    of_second_failure :
        (i : ℕ) (op : Operator) (a b : Operand V) (e : Exn)
        → awaitable i ≡ compute op a b
        → Denotes awaitable b (err e)
        → Denotes awaitable (fut i) (err e)

  -- Operands come before what is built from them.
  abbrev pub Before : ℕ → Operand V → Type 0
  Before i (fut j) = j < i
  Before i (value v) = Unit

  abbrev pub BuiltBefore : ℕ → Awaitable V → Type 0
  BuiltBefore i (given r) = Unit
  BuiltBefore i (compute op a b) = Before i a × Before i b

  abbrev pub IsAcyclic : (ℕ → Awaitable V) → Type 0
  IsAcyclic awaitable = (i : ℕ) → BuiltBefore i (awaitable i)

  -- What is kept, and what a task has ended with, is right.
  pub record IsCoherent (s : Store V) : Type 0 where
    pub of_done : (i : ℕ) (r : Result V) → s.done i ≡ some r → Denotes s.awaitable (fut i) r
    pub of_task : (i : ℕ) (r : Result V) → s.task i ≡ some r → Denotes s.awaitable (fut i) r

  -- An outcome, and a state that differs below `lo` only.
  pub record Gives (lo : ℕ) (o : Operand V) (s : Store V) (out : Option (Result V × Store V))
      : Type 0 where
    pub answer : Result V
    pub next : Store V
    pub returns : out ≡ some (answer, next)
    pub denotes : Denotes s.awaitable o answer
    pub same : next.awaitable ≡ s.awaitable
    pub coherent : IsCoherent next
    pub frame : (k : ℕ) → lo ≤ k → (next.done k ≡ s.done k) × (next.task k ≡ s.task k)

  some_inj : (r r' : Result V) → some r ≡ some r' → r ≡ r'
  some_inj r r' e = cc

  -- The outcome of a future is kept besides, a cancellation in its task only.
  pub record GivesFut (i : ℕ) (s : Store V) (out : Option (Result V × Store V)) : Type 0 where
    pub gives : Gives (suc i) (fut i) s out
    pub remembered : is_kept gives.answer ≡ true → gives.next.done i ≡ some gives.answer
    pub held : (gives.next.done i ≡ some gives.answer) ⊎ (gives.next.task i ≡ some gives.answer)

  lt_ne : (i k : ℕ) → suc i ≤ k → i ≢ k
  lt_ne i k h = λ e. absurd (omega arith)

  pub put_self : {A : Type 0} (i : ℕ) (a : A) (f : ℕ → A) → put i a f i ≡ a
  put_self i a f = rw ((==_iff i i).1 refl) refl

  pub put_other : {A : Type 0} (i j : ℕ) (a : A) (f : ℕ → A) → i ≢ j → put i a f j ≡ f j
  put_other i j a f h = elim (Bool-cases (i == j)) [
    | inl e ↦ absurd (h ((==_iff i j).0 e))
    | inr e ↦ rw e refl
  ]

  -- A right outcome is put at `i`.
  put-Denotes :
      (i : ℕ) (o : Option (Result V)) (f : ℕ → Option (Result V)) (awaitable : ℕ → Awaitable V)
      → ((r : Result V) → o ≡ some r → Denotes awaitable (fut i) r)
      → ((j : ℕ) (r : Result V) → f j ≡ some r → Denotes awaitable (fut j) r)
      → (j : ℕ) (r : Result V) → put i o f j ≡ some r
      → Denotes awaitable (fut j) r
  put-Denotes i o f awaitable new old j r e = elim (Bool-cases (i == j)) [
    | inl b ↦ subst (λ k. Denotes awaitable (fut k) r) ((==_iff i j).0 b) (new r (rw b at e))
    | inr b ↦ old j r (rw b at e)
  ]

  -- The clauses of `kept`.
  kept_new : (r r' : Result V) → kept r none ≡ some r' → r ≡ r'
  kept_new (ok v) r' e = some_inj _ _ e
  kept_new (err x) r' e = elim (Bool-cases (is_exception x)) [
    | inl t ↦ some_inj _ _ (rw t at e)
    | inr t ↦ absurd (none_some r' (rw t at e))
  ]
    where
      none_some : (r : Result V) → ◌≢◌ {A = Option (Result V)} none (some r)
      none_some r n = cc

  kept_if : (r : Result V) → is_kept r ≡ true → kept r none ≡ some r
  kept_if (ok v) e = refl
  kept_if (err x) e = rw e refl

  -- The task of `i` has ended with `r`.
  settled :
      (i : ℕ) (r : Result V) (s : Store V)
      → IsCoherent s
      → s.done i ≡ none
      → s.task i ≡ some r
      → IsCoherent (set_done i r s)
        × (is_kept r ≡ true → (set_done i r s).done i ≡ some r)
        × ((k : ℕ) → suc i ≤ k → (set_done i r s).done k ≡ s.done k)
  unfolding set_done
  settled i r s c e t = (
    record {
      of_done =
          put-Denotes i (kept r (s.done i)) s.done s.awaitable
            (λ r' n.
              subst (λ x. Denotes s.awaitable (fut i) x) (kept_new r r' (sym (ap (kept r) e) ∙ n))
                (c.of_task i r t))
            c.of_done;
      of_task = c.of_task;
    },
    λ k. put_self i (kept r (s.done i)) s.done ∙ ap (kept r) e ∙ kept_if r k,
    λ k l. put_other i k (kept r (s.done i)) s.done (lt_ne i k l),
  )

  -- The clauses of `await_future`.
  module _ (left_first : ℕ → Bool) where
    await_kept :
        (n i : ℕ) (r : Result V) (s : Store V)
        → s.done i ≡ some r
        → await_future apply left_first (suc n) i s ≡ some (r, s)
    unfolding await_future
    await_kept n i r s e = rw (e, await_future) refl

    await_ended :
        (n i : ℕ) (r : Result V) (s : Store V)
        → s.done i ≡ none
        → s.task i ≡ some r
        → await_future apply left_first (suc n) i s ≡ some (r, set_done i r s)
    unfolding await_future
    await_ended n i r s e t = rw (e, await_future) (rw t refl)

    await_run :
        (n i : ℕ) (r : Result V) (s s' : Store V)
        → s.done i ≡ none
        → s.task i ≡ none
        → task_result apply left_first
            (await_future apply left_first n)
            (left_first i)
            (s.awaitable i)
            (start i s)
          ≡ some (r, s')
        → await_future apply left_first (suc n) i s ≡ some (r, set_done i r (end_task i r s'))
    unfolding await_future
    await_run n i r s s' e t f = rw (e, await_future) (rw t (rw f refl))

    -- That awaiting what stands before `i` gives its outcome.
    abbrev Waits : ℕ → ℕ → Type 0
    Waits n i =
        (j : ℕ) (s : Store V)
        → j < i
        → IsAcyclic s.awaitable
        → IsCoherent s
        → Gives (suc j) (fut j) s (await_future apply left_first n j s)

    operand-Gives :
        (n i : ℕ) (o : Operand V) (s : Store V)
        → Waits n i
        → Before i o
        → IsAcyclic s.awaitable
        → IsCoherent s
        → Gives i o s (check_and_materialize (await_future apply left_first n) o s)
    operand-Gives n i (value v) s w b acyclic c = record {
      answer = ok v;
      next = s;
      returns = refl;
      denotes = of_value v;
      same = refl;
      coherent = c;
      frame = λ k h. (refl, refl);
    }
    operand-Gives n i (fut j) s w b acyclic c =
        let g = w j s b acyclic c in
        record {
          answer = g.answer;
          next = g.next;
          returns = g.returns;
          denotes = g.denotes;
          same = g.same;
          coherent = g.coherent;
          frame = λ k h. g.frame k (omega arith);
        }

    task_computes :
        (wait : ℕ → Store V → Option (Result V × Store V)) (left : Bool) (op : Operator)
        (x y : Operand V) (s : Store V) (rx : Result V) (s1 : Store V) (ry : Result V)
        (s2 : Store V)
        → check_and_materialize wait x s ≡ some (rx, s1)
        → check_and_materialize wait y s1 ≡ some (ry, s2)
        → task_result apply left_first wait left (compute op x y) s
          ≡ some (combine apply left_first left op rx ry, s2)
    task_computes wait left op x y s rx s1 ry s2 e f = rw (e, task_result) (rw f refl)

    combined :
        (left : Bool) (i : ℕ) (op : Operator) (a b : Operand V) (ra rb : Result V)
        (f : ℕ → Awaitable V)
        → f i ≡ compute op a b
        → Denotes f a ra
        → Denotes f b rb
        → Denotes f (fut i) (combine apply left_first left op ra rb)
    unfolding combine
    combined left i op a b (ok x) (ok y) f e da db = of_results i op a b x y e da db
    combined left i op a b (err x) (ok y) f e da db = of_first_failure i op a b x e da
    combined left i op a b (ok x) (err y) f e da db = of_second_failure i op a b y e db
    combined true i op a b (err x) (err y) f e da db = of_first_failure i op a b x e da
    combined false i op a b (err x) (err y) f e da db = of_second_failure i op a b y e db

    task-Gives :
        (n i : ℕ) (left : Bool) (a : Awaitable V) (s : Store V)
        → Waits n i
        → s.awaitable i ≡ a
        → BuiltBefore i a
        → IsAcyclic s.awaitable
        → IsCoherent s
        → Gives i
            (fut i)
            s
            (task_result apply left_first (await_future apply left_first n) left a s)
    task-Gives n i left (given r) s w e b acyclic c = record {
      answer = r;
      next = s;
      returns = refl;
      denotes = of_given i r e;
      same = refl;
      coherent = c;
      frame = λ k h. (refl, refl);
    }
    task-Gives n i left (compute op x y) s w e b acyclic c =
        let gx = operand-Gives n i x s w b.0 acyclic c in
        let gy =
          operand-Gives n i y gx.next w b.1 (subst IsAcyclic (sym gx.same) acyclic) gx.coherent in
        record {
          answer = combine apply left_first left op gx.answer gy.answer;
          next = gy.next;
          returns =
              task_computes (await_future apply left_first n) left op x y s _ gx.next _ gy.next
                gx.returns gy.returns;
          denotes =
              combined left i op x y gx.answer gy.answer s.awaitable e gx.denotes
                (subst (λ f. Denotes f y gy.answer) gx.same gy.denotes);
          same = gy.same ∙ gx.same;
          coherent = gy.coherent;
          frame = λ k h. ((gy.frame k h).0 ∙ (gx.frame k h).0, (gy.frame k h).1 ∙ (gx.frame k h).1);
        }

    -- A task that has ended is noted, and its outcome kept.
    run-GivesFut :
        (n i : ℕ) (s : Store V)
        → s.done i ≡ none
        → s.task i ≡ none
        → Gives i (fut i) (start i s) (
            task_result apply left_first
              (await_future apply left_first n)
              (left_first i)
              (s.awaitable i)
              (start i s))
        → GivesFut i s (await_future apply left_first (suc n) i s)
    unfolding start set_done
    run-GivesFut n i s e t g =
        let ended = end_task i g.answer g.next in
        let right = subst (λ f. Denotes f (fut i) g.answer) (sym g.same) g.denotes in
        let c : IsCoherent ended = record {
          of_done = g.coherent.of_done;
          of_task =
              put-Denotes i (some g.answer) g.next.task g.next.awaitable
                (λ r n. subst (λ x. Denotes g.next.awaitable (fut i) x) (some_inj _ _ n) right)
                g.coherent.of_task;
        } in
        let noted = put_self i (some g.answer) g.next.task in
        let open_still : g.next.done i ≡ none = (g.frame i (omega arith)).0 ∙ e in
        let (c', k, f) = settled i g.answer ended c open_still noted in
        record {
          gives = record {
            answer = g.answer;
            next = set_done i g.answer ended;
            returns = await_run n i g.answer s g.next e t g.returns;
            denotes = g.denotes;
            same = g.same;
            coherent = c';
            frame = λ m l. (
              f m l ∙ (g.frame m (omega arith)).0,
              put_other i m (some g.answer) g.next.task (lt_ne i m l) ∙ (g.frame m (omega arith)).1,
            );
          };
          remembered = k;
          held = inr noted;
        }

    -- In a store whose operands come before what is built from them and whose outcomes, kept or
    -- of tasks, are right, with more fuel than its number, awaiting a future returns an outcome
    -- denoted by what it was built from; the future keeps it if it is no cancellation, and it or
    -- its task has it in any case; every later future is left as it was, and the outcomes are
    -- still right.
    pub awaited :
        (n i : ℕ) (s : Store V)
        → i < n
        → IsAcyclic s.awaitable
        → IsCoherent s
        → GivesFut i s (await_future apply left_first n i s)
    unfolding start set_done
    awaited zero i s h acyclic c = absurd (omega arith)
    awaited (suc n) i s h acyclic c = elim (Option-cases (s.done i)) [
      | inr (r, e) ↦ record {
        gives = record {
          answer = r;
          next = s;
          returns = await_kept n i r s e;
          denotes = c.of_done i r e;
          same = refl;
          coherent = c;
          frame = λ k l. (refl, refl);
        };
        remembered = λ k. e;
        held = inl e;
      }
      | inl e ↦ elim (Option-cases (s.task i)) [
        | inr (r, t) ↦
            let (c', k, f) = settled i r s c e t in
            record {
              gives = record {
                answer = r;
                next = set_done i r s;
                returns = await_ended n i r s e t;
                denotes = c.of_task i r t;
                same = refl;
                coherent = c';
                frame = λ m l. (f m l, refl);
              };
              remembered = k;
              held = inr t;
            }
        | inl t ↦
            let w : Waits n i = λ j s' l a k. (awaited n j s' (omega arith) a k).gives in
            run-GivesFut n i s e t (
              task-Gives n i (left_first i) (s.awaitable i) (start i s) w refl (acyclic i) acyclic
                (record { of_done = c.of_done; of_task = c.of_task }))
      ]
    ]
