-- ===== src/Decorator.antt =====
-- a_sync/a_sync/decorator.py: `a_sync`, which makes a decorator or decorates at once;
-- a_sync/a_sync/modifiers/__init__.py: the modifiers that a class or a dictionary defines;
-- a_sync/a_sync/config.py: `get_default_executor`.
pub mod Laws
pub mod Examples
use ez_a_sync.Prelude.{
  ℕ, zero, suc, ◌+◌, Bool, true, false, ◌&&◌, List, [], ◌∷◌, Option, none, some, Result, ok, err,
  value_error, leb, ◌==◌, if◌then◌else◌,
}
use ez_a_sync.Modifiers.{Arg, number, semaphore, limiter, threadsafe_semaphore}

pub data DefaultMode : Type 0 where
  sync_default async_default no_default : DefaultMode

-- The first argument of `a_sync`: nothing, the word for a mode, or a function.
pub data CoroFn : Type 0 where
  no_fn : CoroFn
  word : DefaultMode → CoroFn
  function : ℕ → CoroFn

pub data DecoClass : Type 0 where
  sync_default_class async_default_class plain_class : DecoClass

-- An instance of a decorator class with its modifiers, and a function it has decorated.
pub record Deco (M : Type 0) : Type 0 where
  pub cls : DecoClass
  pub default : DefaultMode
  pub modifiers : M

pub data Made (M : Type 0) : Type 0 where
  deco : Deco M → Made M
  decorated : Deco M → ℕ → Made M

abbrev pub class_of : DefaultMode → DecoClass
class_of sync_default = sync_default_class
class_of async_default = async_default_class
class_of no_default = plain_class

module _ {M : Type 0} where
  abbrev pub make : DefaultMode → M → Deco M
  make d m = record { cls = class_of d; default = d; modifiers = m }

  -- `@a_sync("sync")` passes the default as the function. `None` is no such word.
  unfoldable pub a_sync : CoroFn → DefaultMode → M → Made M
  a_sync no_fn d m = deco (make d m)
  a_sync (word no_default) d m = deco (make d m)
  a_sync (word w) d m = deco (make w m)
  a_sync (function f) d m = decorated (make d m) f

-- The keys of a dictionary of attributes; `other_key` are those that are no modifiers.
pub data Key : Type 0 where
  default_key cache_type_key cache_typed_key ram_cache_maxsize_key ram_cache_ttl_key : Key
  runs_per_minute_key semaphore_key executor_key : Key
  other_key : ℕ → Key

abbrev pub key_number : Key → ℕ
key_number default_key = 0
key_number cache_type_key = 1
key_number cache_typed_key = 2
key_number ram_cache_maxsize_key = 3
key_number ram_cache_ttl_key = 4
key_number runs_per_minute_key = 5
key_number semaphore_key = 6
key_number executor_key = 7
key_number (other_key n) = n + 8

abbrev pub valid_modifiers : List Key
valid_modifiers =
    cache_type_key ∷ cache_typed_key ∷ ram_cache_maxsize_key ∷ ram_cache_ttl_key
    ∷ runs_per_minute_key ∷ semaphore_key ∷ executor_key ∷ default_key ∷ []

module _ {L : Type 0} where
  -- A dictionary is a function from keys; a write, by the keys' numbers.
  abbrev pub update : Key → Arg L → (Key → Option (Arg L)) → Key → Option (Arg L)
  update k a attrs k' = if key_number k == key_number k' then some a else attrs k'

  module _ (async_limiter : Arg L → L) where
    -- `attrs["semaphore"] = ThreadsafeSemaphore(val)` for an `int`.
    unfoldable pub set_semaphore :
        Option (Arg L) → (Key → Option (Arg L)) → Result (Key → Option (Arg L))
    set_semaphore (some (number n)) attrs = elim (threadsafe_semaphore n) [
      | err e ↦ err e
      | ok s ↦ ok (update semaphore_key (semaphore s) attrs)
    ]
    set_semaphore _ attrs = ok attrs

    unfoldable pub set_limiter : Option (Arg L) → (Key → Option (Arg L)) → Key → Option (Arg L)
    set_limiter (some (number n)) attrs =
        update runs_per_minute_key (limiter (async_limiter (number n))) attrs
    set_limiter _ attrs = attrs

    unfoldable pub apply_class_defined_modifiers :
        (Key → Option (Arg L)) → Result (Key → Option (Arg L))
    apply_class_defined_modifiers attrs = elim (set_semaphore (attrs semaphore_key) attrs) [
      | err e ↦ err e
      | ok attrs' ↦ ok (set_limiter (attrs' runs_per_minute_key) attrs')
    ]

  -- `(modifier, thing[modifier]) for modifier in valid_modifiers if modifier in thing`
  abbrev pub with_key : Key → Option (Arg L) → List (Key × Arg L) → List (Key × Arg L)
  with_key k none rest = rest
  with_key k (some a) rest = (k, a) ∷ rest

  unfoldable pub chosen : List Key → (Key → Option (Arg L)) → List (Key × Arg L)
  chosen [] attrs = []
  chosen (k ∷ ks) attrs = with_key k (attrs k) (chosen ks attrs)

  -- Of a dictionary, and of a class or an object, whose attributes stay as they are.
  unfoldable pub get_modifiers_from :
      (Arg L → L) → Bool → (Key → Option (Arg L)) → Result (List (Key × Arg L))
  get_modifiers_from async_limiter false thing = ok (chosen valid_modifiers thing)
  get_modifiers_from async_limiter true thing =
      elim (apply_class_defined_modifiers async_limiter thing) [
        | err e ↦ err e
        | ok attrs ↦ ok (chosen valid_modifiers attrs)
      ]

-- `str.lower` on code points of ASCII, and the kinds of executors.
abbrev pub lower : ℕ → ℕ
lower c = if leb 65 c && leb c 90 then c + 32 else c

pub data ExecutorKind : Type 0 where
  processes threads : ExecutorKind

unfoldable pub get_default_executor : List ℕ → Result ExecutorKind
get_default_executor [] = err value_error
get_default_executor (c ∷ cs) =
    if lower c == 112
    then ok processes
    else (if lower c == 116 then ok threads else err value_error)
