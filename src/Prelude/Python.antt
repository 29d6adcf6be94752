-- ===== src/Prelude/Python.antt =====
-- Values of a dynamic language, and computations that may raise and that change a state.
use Prim.Native.Nat.{ℕ}
use Prim.Native.String.{String}
use mathlib.Core.Path.{◌≡◌, refl}
use mathlib.Core.Logic.{◌⊎◌, inl, inr}
use mathlib.Core.Bool.{Bool, true, false}

-- `negsuc n` is -(n + 1).
pub data ℤ : Type 0 where
  pos : ℕ → ℤ
  negsuc : ℕ → ℤ

-- An argument of any type, as far as the code tells types apart.
pub data Value : Type 0 where
  none_value : Value
  int : ℤ → Value
  bool : Bool → Value
  str : String → Value
  -- an object of another type
  object : ℕ → Value

-- A `bool` is an `int` too.
abbrev pub is_int : Value → Bool
is_int (int n) = true
is_int (bool b) = true
is_int _ = false

abbrev pub is_bool : Value → Bool
is_bool (bool b) = true
is_bool _ = false

-- What an integer counts to in `range(i)`: nothing below 0.
abbrev pub to_ℕ : Value → ℕ
to_ℕ (int (pos n)) = n
to_ℕ (bool true) = 1
to_ℕ _ = 0

-- `bool(v)` of a flag that has been validated.
abbrev pub is_true : Value → Bool
is_true (bool b) = b
is_true _ = false

-- The exceptions that the code raises or handles, without their messages.
pub data Exn : Type 0 where
  queue_empty queue_full value_error type_error runtime_error overflow_error : Exn
  invalid_state_error not_implemented_error key_error assertion_error no_elements : Exn
  function_not_async empty_sequence_error mapping_is_empty mapping_not_empty : Exn
  cancelled_error reference_error attribute_error : Exn
  too_many_flags no_flags_found flag_not_defined invalid_flag invalid_flag_value : Exn
  sync_mode_in_async_context : Exn
  -- an exception of the user's function
  user_error : ℕ → Exn

pub data Result {ℓ} (A : Type ℓ) : Type ℓ where
  -- a value, or the exception that ends the call
  ok : A → Result A
  err : Exn → Result A

-- The state after a call stays, also where the call raised.
abbrev pub Exec {ℓ κ} : Type ℓ → Type κ → Type (ℓ ⊔ κ)
Exec S A = S → Result A × S

abbrev pub and_then {ℓ κ μ} :
    {S : Type ℓ} {A : Type κ} {B : Type μ} → Result A × S → (A → Exec S B) → Result B × S
and_then (ok a, s) f = f a s
and_then (err e, s) f = (err e, s)

pub Result-cases {ℓ} :
    {A : Type ℓ} (r : Result A) → ((a : A) × (r ≡ ok a)) ⊎ ((e : Exn) × (r ≡ err e))
Result-cases (ok a) = inl (a, refl)
Result-cases (err e) = inr (e, refl)
