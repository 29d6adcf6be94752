-- ===== src/Queue.antt =====
-- a_sync/primitives/queue.py: `Queue`, an `asyncio.Queue` with bulk reads.
pub mod PutBack
pub mod Drain
pub mod Multi
pub mod Waiting
pub mod Examples
use ez_a_sync.Prelude.{
  ℕ, zero, suc, ◌-◌, Bool, true, not, ◌&&◌, List, [], ◌∷◌, ◌++◌, Option, none, some, Result, ok,
  err, queue_empty, type_error, value_error, Exec, and_then, length, is_empty, leb, ltb,
  if◌then◌else◌, Value, is_int, is_bool, to_ℕ, is_true, int, pos, bool,
}
use ez_a_sync.Asyncio.{AsyncQueue, get_nowait, put_nowait}

unfoldable pub validate_args : Value → Value → Result (Unit {0})
validate_args i can_return_less =
    if not (is_int i)
    then err type_error
    else if not (is_bool can_return_less)
    then err type_error
    else if leb (to_ℕ i) 1
    then err value_error
    else ok tt

-- What the other tasks put while a coroutine is suspended, one list for each suspension.
abbrev pub Arrivals {ℓ} : Type ℓ → Type ℓ
Arrivals A = List (List A)

module _ {ℓ} {A : Type ℓ} where
  -- `__len__` and `__bool__`
  unfoldable pub len : AsyncQueue A → ℕ
  len q = length q.queue

  unfoldable pub truth : AsyncQueue A → Bool
  truth q = true

  -- The `while True` of `get_all_nowait`; `none` means that the fuel ran out.
  unfoldable pub drain : ℕ → List A → AsyncQueue A → Option (Result (List A) × AsyncQueue A)
  drain zero values q = none
  drain (suc fuel) values q =
      let (r, q') = get_nowait q in
      elim r [
        | ok x ↦ drain fuel (values ++ x ∷ []) q'
        | err e ↦ some (if is_empty values then (err queue_empty, q') else (ok values, q'))
      ]

  unfoldable pub get_all_nowait : AsyncQueue A → Option (Result (List A) × AsyncQueue A)
  unfolding drain
  get_all_nowait q = drain (suc (length q.queue)) [] q

  -- `for value in items: put_nowait(value)`
  unfoldable pub put_back : List A → Exec (AsyncQueue A) (Unit {0})
  put_back [] q = (ok tt, q)
  put_back (x ∷ xs) q =
      let (r, q') = put_nowait x q in elim r [ ok _ ↦ put_back xs q' | err e ↦ (err e, q') ]

  -- `for _ in range(i)` of `get_multi_nowait`
  unfoldable pub collect : ℕ → Bool → List A → Exec (AsyncQueue A) (List A)
  unfolding put_back
  collect zero less items q = (ok items, q)
  collect (suc n) less items q =
      let (r, q') = get_nowait q in
      elim r [
        | ok x ↦ collect n less (items ++ x ∷ []) q'
        | err e ↦
            if not (is_empty items) && less
            then (ok items, q')
            else and_then (put_back items q') (λ _ q''. (err queue_empty, q''))
      ]

  unfoldable pub get_multi_nowait : Value → Value → Exec (AsyncQueue A) (List A)
  unfolding validate_args collect
  get_multi_nowait i can_return_less q = elim (validate_args i can_return_less) [
    | ok _ ↦ collect (to_ℕ i) (is_true can_return_less) [] q
    | err e ↦ (err e, q)
  ]

  -- `await self.get()`: look again after each suspension; `none` means still waiting.
  unfoldable pub await_get :
      Arrivals A → AsyncQueue A → Option (Result A × Arrivals A × AsyncQueue A)
  await_get [] q = elim q.queue [
    | [] ↦ none
    | x ∷ xs ↦ let (r, q') = get_nowait q in some (r, [], q')
  ]
  await_get (batch ∷ rest) q = elim q.queue [
    | [] ↦ await_get rest (put_back batch q).1
    | x ∷ xs ↦ let (r, q') = get_nowait q in some (r, batch ∷ rest, q')
  ]

  unfoldable pub get_all : Arrivals A → AsyncQueue A → Option (Result (List A) × AsyncQueue A)
  unfolding get_all_nowait await_get
  get_all arrivals q = elim (get_all_nowait q) [
    | none ↦ none
    | some (ok values, q') ↦ some (ok values, q')
    | some (err queue_empty, q') ↦ elim (await_get arrivals q') [
      | none ↦ none
      | some (ok x, _, q'') ↦ some (ok (x ∷ []), q'')
      | some (err e', _, q'') ↦ some (err e', q'')
    ]
    | some (err e, q') ↦ some (err e, q')
  ]

  -- The `while` of `get_multi`. Only `QueueEmpty` is caught, and it replaces the items held.
  unfoldable pub multi_loop :
      ℕ → ℕ → Bool → List A → Arrivals A → AsyncQueue A → Option (Result (List A) × AsyncQueue A)
  unfolding get_multi_nowait await_get
  multi_loop zero i less items arrivals q = none
  multi_loop (suc fuel) i less items arrivals q =
      if ltb (length items) i && not less
      then (let (r, q') = get_multi_nowait (int (pos (i - length items))) (bool true) q in
          elim r [
            | ok more ↦ multi_loop fuel i less (items ++ more) arrivals q'
            | err queue_empty ↦ elim (await_get arrivals q') [
              | none ↦ none
              | some (ok x, arrivals', q'') ↦ multi_loop fuel i less (x ∷ []) arrivals' q''
              | some (err e, _, q'') ↦ some (err e, q'')
            ]
            | err e ↦ some (err e, q')
          ])
      else some (ok items, q)

  unfoldable pub get_multi :
      ℕ → Value → Value → Arrivals A → AsyncQueue A → Option (Result (List A) × AsyncQueue A)
  get_multi fuel i can_return_less arrivals q = elim (validate_args i can_return_less) [
    | ok _ ↦ multi_loop fuel (to_ℕ i) (is_true can_return_less) [] arrivals q
    | err e ↦ some (err e, q)
  ]
