-- ===== src/AsyncFuture/Operate.antt =====
-- a_sync/future.py: what an operator on a future adds to the store.
use ez_a_sync.Prelude.{
  ℕ, suc, List, ok, Exn, Bool, err, ◌≤◌, ◌<◌, ◌≡◌, sym, subst, ◌∙◌, some, Result, ◌==◌, ==_iff,
  Bool-cases, inl, inr, arith,
}
use ez_a_sync.AsyncFuture.{
  Operator, Arithmetic, Comparison, arithmetic, comparison, Operand, fut, value, Awaitable, compute,
  Store, put, new_future, operate, list_dependencies, await_future,
}
use ez_a_sync.AsyncFuture.Laws.{
  Denotes, of_value, of_given, of_results, of_first_failure, of_second_failure, Before, BuiltBefore,
  IsAcyclic, IsCoherent, GivesFut, awaited, put_self, put_other,
}

module _ {V : Type 0} (apply : Operator → V → V → Result V) where
  -- Only futures of the store have an outcome.
  abbrev pub IsWithin : Store V → Type 0
  IsWithin s =
      ((i : ℕ) (r : Result V) → s.done i ≡ some r → i < s.size)
      × ((i : ℕ) (r : Result V) → s.task i ≡ some r → i < s.size)

  Before-le : (n m : ℕ) (o : Operand V) → n ≤ m → Before apply n o → Before apply m o
  Before-le n m (fut j) h b = omega arith
  Before-le n m (value v) h b = tt

  Denotes-put :
      (n : ℕ) (a : Awaitable V) (f : ℕ → Awaitable V) {o : Operand V} {r : Result V}
      → IsAcyclic apply f
      → Denotes apply f o r
      → Before apply n o
      → Denotes apply (put n a f) o r
  Denotes-put n a f acyclic (of_value v) b = of_value v
  Denotes-put n a f acyclic (of_given i r e) b =
      of_given i r (put_other apply n i a f (λ x. absurd (omega arith)) ∙ e)
  Denotes-put n a f acyclic (of_results i op x y rx ry e dx dy) b =
      let built = subst (BuiltBefore apply i) e (acyclic i) in
      of_results i op x y rx ry (put_other apply n i a f (λ z. absurd (omega arith)) ∙ e)
        (Denotes-put n a f acyclic dx (Before-le i n x (omega arith) built.0))
        (Denotes-put n a f acyclic dy (Before-le i n y (omega arith) built.1))
  Denotes-put n a f acyclic (of_first_failure i op x y r e d) b =
      let built = subst (BuiltBefore apply i) e (acyclic i) in
      of_first_failure i op x y r (put_other apply n i a f (λ z. absurd (omega arith)) ∙ e)
        (Denotes-put n a f acyclic d (Before-le i n x (omega arith) built.0))
  Denotes-put n a f acyclic (of_second_failure i op x y r e d) b =
      let built = subst (BuiltBefore apply i) e (acyclic i) in
      of_second_failure i op x y r (put_other apply n i a f (λ z. absurd (omega arith)) ∙ e)
        (Denotes-put n a f acyclic d (Before-le i n y (omega arith) built.1))

  put-IsAcyclic :
      (n : ℕ) (a : Awaitable V) (f : ℕ → Awaitable V)
      → IsAcyclic apply f
      → BuiltBefore apply n a
      → IsAcyclic apply (put n a f)
  put-IsAcyclic n a f acyclic b i = elim (Bool-cases (n == i)) [
    | inl e ↦
        subst (λ k. BuiltBefore apply k (put n a f k)) ((==_iff n i).0 e)
          (subst (BuiltBefore apply n) (sym (put_self apply n a f)) b)
    | inr e ↦ rw e (acyclic i)
  ]

  -- The outcome of a comparison, by those of its operands.
  pub data Compares (op : Comparison) (awaitable : ℕ → Awaitable V) (i : ℕ) (other : Operand V)
      : Result V → Type 0 where
    of_both :
        (x y : V)
        → Denotes apply awaitable (fut i) (ok x)
        → Denotes apply awaitable other (ok y)
        → Compares op awaitable i other (apply (comparison op) x y)
    of_self :
        (e : Exn) → Denotes apply awaitable (fut i) (err e) → Compares op awaitable i other (err e)
    of_other :
        (e : Exn) → Denotes apply awaitable other (err e) → Compares op awaitable i other (err e)

  -- A future is added that computes an operator on operands of the store.
  module _ (left_first : ℕ → Bool) (op : Operator) (x y : Operand V) (ds : List ℕ) (s : Store V)
      (acyclic : IsAcyclic apply s.awaitable) (c : IsCoherent apply s) (within : IsWithin s) where
    abbrev added : Store V
    added = (new_future (compute op x y) ds s).1

    computed :
        Before apply s.size x
        → Before apply s.size y
        → (added.awaitable s.size ≡ compute op x y)
          × (added.dependencies s.size ≡ ds)
          × IsAcyclic apply added.awaitable
          × IsCoherent apply added
          × GivesFut apply s.size added (await_future apply left_first (suc s.size) s.size added)
    unfolding new_future
    computed bx by =
        let a = compute op x y in
        let acyclic' = put-IsAcyclic s.size a s.awaitable acyclic (bx, by) in
        let c' : IsCoherent apply added = record {
          of_done =
              λ j r e. Denotes-put s.size a s.awaitable acyclic (c.of_done j r e) (within.0 j r e);
          of_task =
              λ j r e. Denotes-put s.size a s.awaitable acyclic (c.of_task j r e) (within.1 j r e);
        } in
        (
          put_self apply s.size a s.awaitable,
          put_self apply s.size ds s.dependencies,
          acyclic',
          c',
          awaited apply left_first (suc s.size) s.size added (omega arith) acyclic' c',
        )

  module _ (left_first : ℕ → Bool) where
    -- In a store whose operands come before what is built from them, and whose outcomes are
    -- right and those of its own futures, when a future of the store is combined by an
    -- arithmetic operator with a value or a future of the store, the new future computes that
    -- operator and has the operands that are futures as dependencies; operands still come before
    -- what is built from them, outcomes are still right, and awaiting the new future ends with
    -- an outcome that it denotes.
    pub operated :
        (op : Arithmetic) (i : ℕ) (other : Operand V) (s : Store V)
        → i < s.size
        → Before apply s.size other
        → IsWithin s
        → IsAcyclic apply s.awaitable
        → IsCoherent apply s
        → ((operate op i other s).1.awaitable s.size ≡ compute (arithmetic op) (fut i) other)
          × ((operate op i other s).1.dependencies s.size ≡ list_dependencies i other)
          × IsAcyclic apply (operate op i other s).1.awaitable
          × IsCoherent apply (operate op i other s).1
          × GivesFut apply s.size
              (operate op i other s).1
              (await_future apply left_first (suc s.size) s.size (operate op i other s).1)
    unfolding operate
    operated op i other s h b within acyclic c =
        computed left_first (arithmetic op) (fut i) other (list_dependencies i other) s acyclic c
          within h b
