-- ===== src/Dispatch/Instances.antt =====
-- a_sync/a_sync/abstract.pyx and _meta.py: the mode of an instance, which is read once, and the
-- instances of a class of `ASyncSingletonMeta`.
use ez_a_sync.Prelude.{
  ◌≡◌, refl, ap, ◌∙◌, Bool, true, false, List, [], ◌∷◌, Option, none, some, Result, ok, err,
  invalid_flag_value, Exec, Value, bool,
}
use ez_a_sync.Dispatch.{Flag, negate_if_necessary}

-- `cache` is `__a_sync_should_await_cache__`, `flag_value` the attribute that the flag names.
pub record Instance : Type 0 where
  pub flag : Flag
  pub flag_value : Value
  pub cache : Option Bool

unfoldable pub validate_flag_value : Value → Result Bool
validate_flag_value (bool b) = ok b
validate_flag_value _ = err invalid_flag_value

abbrev pub store_mode : Instance → Result Bool → Result Bool × Instance
store_mode self (err e) = (err e, self)
store_mode self (ok b) = (
  ok (negate_if_necessary self.flag b),
  record self { cache = some (negate_if_necessary self.flag b) },
)

abbrev read_mode : Option Bool → Exec Instance Bool
read_mode (some b) self = (ok b, self)
read_mode none self = store_mode self (validate_flag_value self.flag_value)

-- `__a_sync_instance_should_await__`
unfoldable pub instance_should_await : Exec Instance Bool
instance_should_await self = read_mode self.cache self

ok_inj : {A : Type 0} (x y : A) → ◌≡◌ {A = Result A} (ok x) (ok y) → x ≡ y
ok_inj x y e = cc

-- The instances of a class, by their mode.
pub record Instances (I : Type 0) : Type 0 where
  pub sync_instance : Option I
  pub async_instance : Option I

module _ {I : Type 0} where
  abbrev pub instance_of : Bool → Instances I → Option I
  instance_of true s = s.sync_instance
  instance_of false s = s.async_instance

  abbrev pub store_instance : Bool → I → Instances I → Instances I
  store_instance true i s = record s { sync_instance = some i }
  store_instance false i s = record s { async_instance = some i }

  abbrev keep_or_store : Option I → Bool → Result I → Exec (Instances I) I
  keep_or_store (some i) is_sync made s = (ok i, s)
  keep_or_store none is_sync (err e) s = (err e, s)
  keep_or_store none is_sync (ok i) s = (ok i, store_instance is_sync i s)

  -- `ASyncSingletonMeta.__call__`, where `made` is what `ASyncMeta.__call__` gives if it is
  -- called, for what `__a_sync_instance_will_be_sync__` gives; the lock makes
  -- the second look and the store one step.
  unfoldable pub call_singleton : Result Bool → Result I → Exec (Instances I) I
  call_singleton (err e) made s = (err e, s)
  call_singleton (ok is_sync) made s = keep_or_store (instance_of is_sync s) is_sync made s

  -- A sequence of calls of the class.
  unfoldable pub call_all : List (Result Bool × Result I) → Instances I → Instances I
  call_all [] s = s
  call_all ((mode, made) ∷ calls) s = call_all calls (call_singleton mode made s).1

  store_keeps :
      (b c : Bool) (i j : I) (s : Instances I)
      → instance_of b s ≡ none
      → instance_of c s ≡ some j
      → instance_of c (store_instance b i s) ≡ some j
  store_keeps true true i j s n e = absurd cc
  store_keeps true false i j s n e = e
  store_keeps false true i j s n e = e
  store_keeps false false i j s n e = absurd cc

  make_keeps :
      (o : Option I) (b c : Bool) (made : Result I) (j : I) (s : Instances I)
      → instance_of b s ≡ o
      → instance_of c s ≡ some j
      → instance_of c (keep_or_store o b made s).1 ≡ some j
  make_keeps (some i) b c made j s h e = e
  make_keeps none b c (err x) j s h e = e
  make_keeps none b c (ok i) j s h e = store_keeps b c i j s h e

  call_keeps :
      (mode : Result Bool) (made : Result I) (c : Bool) (j : I) (s : Instances I)
      → instance_of c s ≡ some j
      → instance_of c (call_singleton mode made s).1 ≡ some j
  unfolding call_singleton
  call_keeps (err x) made c j s e = e
  call_keeps (ok b) made c j s e = make_keeps (instance_of b s) b c made j s refl e

  calls_keep :
      (calls : List (Result Bool × Result I)) (c : Bool) (j : I) (s : Instances I)
      → instance_of c s ≡ some j
      → instance_of c (call_all calls s) ≡ some j
  unfolding call_all
  calls_keep [] c j s e = e
  calls_keep ((mode, made) ∷ calls) c j s e =
      calls_keep calls c j (call_singleton mode made s).1 (call_keeps mode made c j s e)

  returned :
      (o : Option I) (b : Bool) (made : Result I) (i : I) (s : Instances I)
      → instance_of b s ≡ o
      → (keep_or_store o b made s).0 ≡ ok i
      → instance_of b (keep_or_store o b made s).1 ≡ some i
  returned (some j) b made i s h e = h ∙ ap some (ok_inj j i e)
  returned none b (err x) i s h e = absurd cc
  returned none true (ok j) i s h e = ap some (ok_inj j i e)
  returned none false (ok j) i s h e = ap some (ok_inj j i e)

  -- Once a call of a singleton class for a mode has returned an instance, then after any further
  -- calls, for either mode and failing ones included, a call for that mode returns the same
  -- instance.
  pub one_instance :
      (b : Bool) (made made' : Result I) (s : Instances I) (i : I)
      (calls : List (Result Bool × Result I))
      → (call_singleton (ok b) made s).0 ≡ ok i
      → (call_singleton (ok b) made' (call_all calls (call_singleton (ok b) made s).1)).0 ≡ ok i
  unfolding call_singleton
  one_instance b made made' s i calls e =
      let later = call_all calls (call_singleton (ok b) made s).1 in
      ap (λ o. (keep_or_store o b made' later).0)
        (calls_keep calls b i (call_singleton (ok b) made s).1
          (returned (instance_of b s) b made i s refl e))

store_caches :
    (self : Instance) (r : Result Bool) (b : Bool)
    → (store_mode self r).0 ≡ ok b
    → (store_mode self r).1.cache ≡ some b
store_caches self (err e) b h = absurd cc
store_caches self (ok c) b h = ap some (ok_inj (negate_if_necessary self.flag c) b h)

read_caches :
    (o : Option Bool) (self : Instance) (b : Bool)
    → self.cache ≡ o
    → (read_mode o self).0 ≡ ok b
    → (read_mode o self).1.cache ≡ some b
read_caches (some c) self b e h = e ∙ ap some (ok_inj c b h)
read_caches none self b e h = store_caches self (validate_flag_value self.flag_value) b h

-- Once the mode of an instance has been read, it stays, whatever is assigned to the attribute of
-- its flag.
pub mode_stays :
    (self : Instance) (v : Value) (b : Bool)
    → (instance_should_await self).0 ≡ ok b
    → (instance_should_await (record (instance_should_await self).1 { flag_value = v })).0 ≡ ok b
unfolding instance_should_await
mode_stays self v b e =
    ap (λ o. (read_mode o (record (instance_should_await self).1 { flag_value = v })).0)
      (read_caches self.cache self b refl e)
