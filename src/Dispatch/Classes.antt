-- ===== src/Dispatch/Classes.antt =====
-- a_sync/a_sync/base.pyx, abstract.pyx and _meta.py: the mode of an instance, the default mode of a
-- class, and the instances of a singleton class.
use ez_a_sync.Prelude.{
  ◌≡◌, refl, ap, ◌∙◌, Bool, true, false, Option, none, some, Result, ok, err, too_many_flags,
  no_flags_found, key_error, not_implemented_error, if◌then◌else◌, ◌⊎◌, inl, inr,
}
use ez_a_sync.Dispatch.{Flag, sync, asynchronous, negate_if_necessary}

-- For each flag, whether a dictionary has it, and with what.
pub record Flags (A : Type 0) : Type 0 where
  pub sync_entry : Option A
  pub asynchronous_entry : Option A

-- What `__init__` declares for a parameter.
pub data Param : Type 0 where
  empty_default : Param
  default_flag : Bool → Param

-- A class: the flags in its own dictionary, and its bases.
mutual
  pub data ClassDef : Type 0 where
    class_def : Flags Bool → Bases → ClassDef

  pub data Bases : Type 0 where
    no_bases : Bases
    base : ClassDef → Bases → Bases

-- `_parse_flag_name_from_dict_keys`
unfoldable pub parse_flag_name : {A : Type 0} → Flags A → Result Flag
parse_flag_name d = elim d.sync_entry [
  | none ↦ elim d.asynchronous_entry [ none ↦ err no_flags_found | some v ↦ ok asynchronous ]
  | some v ↦ elim d.asynchronous_entry [ none ↦ ok sync | some w ↦ err too_many_flags ]
]

abbrev pub entry : {A : Type 0} → Flag → Flags A → Option A
entry sync d = d.sync_entry
entry asynchronous d = d.asynchronous_entry

-- `try` one, and the other where it raises `NoFlagsFound`.
unfoldable pub or_else : {A : Type 0} → Result A → Result A → Result A
or_else (err no_flags_found) other = other
or_else r other = r

unfoldable mutual
  -- `_get_a_sync_flag_name_from_class_def`
  pub flag_name_of_class : ClassDef → Result Flag
  flag_name_of_class (class_def d bases) = or_else (parse_flag_name d) (flag_name_of_bases bases)

  pub flag_name_of_bases : Bases → Result Flag
  flag_name_of_bases no_bases = err no_flags_found
  flag_name_of_bases (base c cs) = or_else (flag_name_of_class c) (flag_name_of_bases cs)

-- `_get_a_sync_flag_value_from_class_def`: `flag_value` is a C `bint`, so a missing entry is
-- false, which is not `None`, and the loop returns in its first round.
unfoldable pub flag_value_of_class : ClassDef → Flag → Bool
flag_value_of_class (class_def d bases) flag = elim (entry flag d) [ none ↦ false | some b ↦ b ]

-- `_a_sync_flag_default_value_from_signature`; the class that stands for no default is true.
abbrev value_in : Bool → Option Param → Result Bool
value_in debug_logs none = err key_error
value_in debug_logs (some (default_flag b)) = ok b
value_in debug_logs (some empty_default) = if debug_logs then err not_implemented_error else ok true

unfoldable pub flag_value_of_signature : Bool → Flags Param → Flag → Result Bool
flag_value_of_signature debug_logs params flag = value_in debug_logs (entry flag params)

-- `validate_and_negate_if_necessary` of the flag that has been found.
abbrev pub mode_of : Result Flag → (Flag → Result Bool) → Result Bool
mode_of (err e) flag_value = err e
mode_of (ok flag) flag_value = elim (flag_value flag) [
  | ok b ↦ ok (negate_if_necessary flag b)
  | err e ↦ err e
]

-- `__a_sync_default_mode__`, for the parameters of `__init__` that are flags.
unfoldable pub default_mode : Bool → Flags Param → ClassDef → Result Bool
default_mode debug_logs params c =
    or_else (mode_of (parse_flag_name params) (flag_value_of_signature debug_logs params))
      (mode_of (flag_name_of_class c) (λ flag. ok (flag_value_of_class c flag)))

-- The value for a flag in a dictionary, or else the one that the bases have.
abbrev pub first_value : Option Bool → Option Bool → Option Bool
first_value none o = o
first_value (some b) o = some b

-- The value that the class has for a flag by its own dictionary or, in their order, by its bases.
unfoldable mutual
  pub inherited : ClassDef → Flag → Option Bool
  inherited (class_def d bases) flag = first_value (entry flag d) (inherited_bases bases flag)

  pub inherited_bases : Bases → Flag → Option Bool
  inherited_bases no_bases flag = none
  inherited_bases (base c cs) flag = first_value (inherited c flag) (inherited_bases cs flag)

first_of : (o p : Option Bool) (b : Bool) → o ≡ some b → first_value o p ≡ some b
first_of (some c) p b e = e
first_of none p b e = absurd cc

second_of : (o p : Option Bool) (b : Bool) → p ≡ some b → (c : Bool) × (first_value o p ≡ some c)
second_of none p b e = (b, e)
second_of (some c) p b e = (c, refl)

or_else_missing :
    {A : Type 0} (r other : Result A) → r ≡ err no_flags_found → or_else r other ≡ other
unfolding or_else
or_else_missing r other e = rw e refl

own_sync :
    (v : Option Bool)
    → (w : Option Bool) (flag : Flag)
    → parse_flag_name (record { sync_entry = v; asynchronous_entry = w }) ≡ ok flag
    → (b : Bool) × (entry flag (record { sync_entry = v; asynchronous_entry = w }) ≡ some b)
unfolding parse_flag_name
own_sync none none flag e = absurd cc
own_sync none (some b) sync e = absurd cc
own_sync none (some b) asynchronous e = (b, refl)
own_sync (some b) none sync e = (b, refl)
own_sync (some b) none asynchronous e = absurd cc
own_sync (some b) (some c) flag e = absurd cc

missing_entry :
    (v w : Option Bool) (flag : Flag)
    → parse_flag_name (record { sync_entry = v; asynchronous_entry = w }) ≡ err no_flags_found
    → entry flag (record { sync_entry = v; asynchronous_entry = w }) ≡ none
unfolding parse_flag_name
missing_entry none none sync e = refl
missing_entry none none asynchronous e = refl
missing_entry none (some b) flag e = absurd cc
missing_entry (some b) none flag e = absurd cc
missing_entry (some b) (some c) flag e = absurd cc

or_else_ok :
    {A : Type 0} (r other : Result A) {a : A}
    → or_else r other ≡ ok a
    → (r ≡ ok a) ⊎ ((r ≡ err no_flags_found) × (other ≡ ok a))
unfolding or_else
or_else_ok (ok x) other e = inl e
or_else_ok (err no_flags_found) other e = inr (refl, e)
or_else_ok (err _) other e = absurd cc

mutual
  unfolding flag_name_of_class inherited

  -- A flag that is found has a value.
  found_value :
      (c : ClassDef) (flag : Flag)
      → flag_name_of_class c ≡ ok flag
      → (b : Bool) × (inherited c flag ≡ some b)
  found_value (class_def d bases) flag e = elim (or_else_ok _ _ e) [
    | inl own ↦
        let (b, h) = own_sync d.sync_entry d.asynchronous_entry flag own in
        (b, first_of (entry flag d) (inherited_bases bases flag) b h)
    | inr (_, other) ↦
        let (b, h) = found_base_value bases flag other in
        second_of (entry flag d) (inherited_bases bases flag) b h
  ]

  found_base_value :
      (cs : Bases) (flag : Flag)
      → flag_name_of_bases cs ≡ ok flag
      → (b : Bool) × (inherited_bases cs flag ≡ some b)
  found_base_value no_bases flag e = absurd cc
  found_base_value (base c cs) flag e = elim (or_else_ok _ _ e) [
    | inl own ↦
        let (b, h) = found_value c flag own in
        (b, first_of (inherited c flag) (inherited_bases cs flag) b h)
    | inr (_, other) ↦
        let (b, h) = found_base_value cs flag other in
        second_of (inherited c flag) (inherited_bases cs flag) b h
  ]

-- When neither the parameters of `__init__` nor the class itself have a flag, and the bases have
-- one, that flag has a value by inheritance, but the default mode is that of the value false.
pub inherited_mode :
    (debug_logs : Bool) (params : Flags Param) (d : Flags Bool) (bases : Bases) (flag : Flag)
    → parse_flag_name params ≡ err no_flags_found
    → parse_flag_name d ≡ err no_flags_found
    → flag_name_of_bases bases ≡ ok flag
    → ((b : Bool) × (inherited (class_def d bases) flag ≡ some b))
      × (default_mode debug_logs params (class_def d bases) ≡ ok (negate_if_necessary flag false))
unfolding inherited default_mode flag_name_of_class flag_value_of_class
inherited_mode debug_logs params d bases flag p e n = (
  (let (b, h) = found_base_value bases flag n in
      second_of (entry flag d) (inherited_bases bases flag) b h),
  or_else_missing _ _ (ap (λ r. mode_of r (flag_value_of_signature debug_logs params)) p)
      ∙ ap (λ r. mode_of r (λ f. ok (flag_value_of_class (class_def d bases) f)))
          (or_else_missing _ _ e ∙ n)
      ∙ ap (λ o. ok (negate_if_necessary flag (elim o [ none ↦ false | some b ↦ b ])))
          (missing_entry d.sync_entry d.asynchronous_entry flag e),
)

by_signature :
    (debug_logs : Bool) (params : Flags Param) (c : ClassDef) (flag : Flag) (r : Result Bool)
    → parse_flag_name params ≡ ok flag
    → flag_value_of_signature debug_logs params flag ≡ r
    → default_mode debug_logs params c
      ≡ or_else
          (mode_of (ok flag) (λ f. r))
          (mode_of (flag_name_of_class c) (λ f. ok (flag_value_of_class c f)))
unfolding default_mode
by_signature debug_logs params c flag r p e =
    let by_class = mode_of (flag_name_of_class c) (λ f. ok (flag_value_of_class c f)) in
    ap (λ q. or_else (mode_of q (flag_value_of_signature debug_logs params)) by_class) p
    ∙ ap (λ v. or_else (mode_of (ok flag) (λ f. v)) by_class) e

-- A flag among the parameters of `__init__`.
pub signature_mode :
    (debug_logs : Bool) (params : Flags Param) (c : ClassDef) (flag : Flag) (b : Bool)
    → parse_flag_name params ≡ ok flag
    → entry flag params ≡ some (default_flag b)
    → default_mode debug_logs params c ≡ ok (negate_if_necessary flag b)
unfolding or_else flag_value_of_signature
signature_mode debug_logs params c flag b p e =
    by_signature debug_logs params c flag (ok b) p (ap (value_in debug_logs) e)

-- When the one flag among the parameters of `__init__` has no default, the default mode of the
-- class raises `NotImplementedError` with debug logs on, and is that of the value true with
-- debug logs off.
pub no_default_mode :
    (params : Flags Param) (c : ClassDef) (flag : Flag)
    → parse_flag_name params ≡ ok flag
    → entry flag params ≡ some empty_default
    → (default_mode true params c ≡ err not_implemented_error)
      × (default_mode false params c ≡ ok (negate_if_necessary flag true))
unfolding or_else flag_value_of_signature
no_default_mode params c flag p e = (
  by_signature true params c flag (err not_implemented_error) p (ap (value_in true) e),
  by_signature false params c flag (ok true) p (ap (value_in false) e),
)
