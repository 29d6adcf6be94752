-- ===== src/Dispatch/Examples.antt =====
-- Calls of functions and methods, and the modes of classes, at concrete inputs.
use ez_a_sync.Prelude.{
  ℕ, ◌≡◌, refl, Bool, true, false, [], ◌∷◌, none, some, ok, err, not_implemented_error, negsuc,
  bool,
}
use ez_a_sync.Decorator.{no_default}
use ez_a_sync.Modifiers.{
  own, by_sem, call, nothing, number, coro, semaphore, within, make_semaphore,
}
use ez_a_sync.Modifiers.Manager.{Modifiers, uses_cache}
use ez_a_sync.Dispatch.{
  sync, asynchronous, Kwargs, value, coroutine, AFunction, call_function, async_wrap, run_sync,
  get_flag_name, is_sync, await_now,
}
use ez_a_sync.Dispatch.Calls.{
  finish, is_awaitable, with_asynchronous, same_outcome, awaitable_by_mode,
}
use ez_a_sync.Dispatch.Methods.{
  BoundMethod, async_object, call_method, default_should_await, no_flag, method_by_mode,
  plain_method_is_sync,
}
use ez_a_sync.Dispatch.Modified.{bound_modified_fn, semaphore_twice}
use ez_a_sync.Dispatch.Classes.{
  Flags, class_def, no_bases, base, Bases, Param, empty_default, default_mode, inherited,
  inherited_mode, parse_flag_name, flag_name_of_class, no_default_mode, or_else,
}
use ez_a_sync.Dispatch.Instances.{
  Instance, instance_should_await, validate_flag_value, Instances, call_singleton, call_all,
  one_instance, mode_stays,
}

abbrev coroutine_function : AFunction Bool ℕ ℕ
coroutine_function = record { async_def = true; default = no_default; body = λ args rest. ok true }

abbrev with_flag : Kwargs Bool ℕ
with_flag = record { sync_value = none; asynchronous_value = some false; rest = 4 }

same_outcome_example :
    finish (call_function (λ b. b) false coroutine_function 3 with_flag) ≡ ok true
same_outcome_example =
    same_outcome (λ b. b) coroutine_function 3 with_flag true (with_asynchronous false 4)

awaitable_by_mode_example : is_awaitable {V = Bool} (value true) ≡ false
unfolding call_function async_wrap run_sync get_flag_name is_sync await_now
awaitable_by_mode_example =
    awaitable_by_mode (λ b. b) coroutine_function false 3 with_flag true (value true)
      (with_asynchronous false 4) refl

abbrev async_method : BoundMethod Bool ℕ ℕ
async_method = record { fn = coroutine_function; is_async = true; owner = async_object (ok false) }

method_by_mode_example :
    call_method (λ b. b) true async_method 3 (no_flag 4) ≡ ok (coroutine (ok true))
unfolding default_should_await
method_by_mode_example = method_by_mode (λ b. b) true async_method 3 4 false refl

plain_method_is_sync_example :
    call_method
      (λ b. b)
      true
      (record {
        fn = record {
          async_def = false;
          default = no_default;
          body = λ (args : ℕ) (rest : ℕ). ok true;
        };
        is_async = false;
        owner = async_object (ok false);
      })
      3
      (no_flag 4)
    ≡ ok (value true)
plain_method_is_sync_example =
    plain_method_is_sync (λ b. b) true (λ args rest. ok true) false (async_object (ok false)) 3 4

abbrev guarded_class : Modifiers ℕ
guarded_class = record {
  cache_type = none;
  cache_typed = false;
  ram_cache_maxsize = number (negsuc 0);
  ram_cache_ttl = nothing;
  runs_per_minute = nothing;
  semaphore_spec = semaphore (own 7);
}

semaphore_twice_example :
    bound_modified_fn {L = ℕ} (λ rate. 0) (λ size ttl typed fn. fn) guarded_class (call 5 ∷ [])
    ≡ ok (coro (within (by_sem (own 7)) (within (by_sem (own 7)) (call 5 ∷ []))))
unfolding make_semaphore uses_cache
semaphore_twice_example =
    semaphore_twice (λ rate. 0) (λ size ttl typed fn. fn) guarded_class (call 5 ∷ []) (own 7) refl
      refl refl refl

abbrev no_entries : {A : Type 0} → Flags A
no_entries = record { sync_entry = none; asynchronous_entry = none }

-- A base with `sync = True`.
abbrev sync_base : Bases
sync_base =
    base (class_def (record { sync_entry = some true; asynchronous_entry = none }) no_bases)
      no_bases

inherited_mode_example :
    ((b : Bool) × (inherited (class_def no_entries sync_base) sync ≡ some b))
    × (default_mode false no_entries (class_def no_entries sync_base) ≡ ok false)
unfolding parse_flag_name flag_name_of_class or_else
inherited_mode_example = inherited_mode false no_entries no_entries sync_base sync refl refl refl

base_is_sync : inherited (class_def no_entries sync_base) sync ≡ some true
unfolding inherited
base_is_sync = refl

abbrev positional : Flags Param
positional = record { sync_entry = some empty_default; asynchronous_entry = none }

no_default_mode_example :
    (default_mode true positional (class_def no_entries no_bases) ≡ err not_implemented_error)
    × (default_mode false positional (class_def no_entries no_bases) ≡ ok true)
unfolding parse_flag_name
no_default_mode_example = no_default_mode positional (class_def no_entries no_bases) sync refl refl

abbrev new_instance : Instance
new_instance = record { flag = asynchronous; flag_value = bool true; cache = none }

mode_stays_example :
    (instance_should_await
      (record (instance_should_await new_instance).1 { flag_value = bool false })).0
    ≡ ok false
unfolding instance_should_await validate_flag_value
mode_stays_example = mode_stays new_instance (bool false) false refl

abbrev no_instances : Instances ℕ
no_instances = record { sync_instance = none; async_instance = none }

one_instance_example :
    (call_singleton (ok true) (ok 9) (
      call_all
        ((ok false, ok 8) ∷ (ok true, ok 7) ∷ [])
        (call_singleton (ok true) (ok 6) no_instances).1)).0
    ≡ ok 6
unfolding call_singleton
one_instance_example =
    one_instance true (ok 6) (ok 9) no_instances 6 ((ok false, ok 8) ∷ (ok true, ok 7) ∷ []) refl
