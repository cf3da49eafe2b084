-- ===== src/Base/Exceptions.antt =====
-- Python's exceptions as values: the classes that the program raises or catches, with their
-- places in the hierarchy, and the results of calls that may raise.
use Prim.Native.String.{String}
use mathlib.Core.Path.{◌≡◌}
use mathlib.Core.Logic.{◌↔◌}
use native.Mathlib.Omega.{arith}
use pc_platform_validation_t.Base.Lists.{All}
use mathlib.Core.Bool.{Bool, true, false}
use mathlib.Core.List.{List, [], ◌∷◌}

pub data ExceptionClass : Type 0 where
  os_error value_error runtime_error type_error key_error : ExceptionClass
  evaluation_error plan_load_error : ExceptionClass
  safety_limit_error workload_cancelled workload_timeout : ExceptionClass
  persistence_error run_not_found_error baseline_not_found_error : ExceptionClass
  baseline_exists_error baseline_source_error schema_version_error artifact_error : ExceptionClass
  keyboard_interrupt stop_iteration attribute_error psutil_error : ExceptionClass

pub record Exception : Type 0 where
  pub class : ExceptionClass
  pub message : String

-- `isinstance(exc, ValueError)`
abbrev pub is_value_error : ExceptionClass → Bool
is_value_error value_error = true
is_value_error evaluation_error = true
is_value_error plan_load_error = true
is_value_error _ = false

-- `isinstance(exc, PersistenceError)`
abbrev pub is_persistence_error : ExceptionClass → Bool
is_persistence_error persistence_error = true
is_persistence_error run_not_found_error = true
is_persistence_error baseline_not_found_error = true
is_persistence_error baseline_exists_error = true
is_persistence_error baseline_source_error = true
is_persistence_error schema_version_error = true
is_persistence_error _ = false

-- `isinstance(exc, RuntimeError)`
abbrev pub is_runtime_error : ExceptionClass → Bool
is_runtime_error runtime_error = true
is_runtime_error safety_limit_error = true
is_runtime_error workload_cancelled = true
is_runtime_error workload_timeout = true
is_runtime_error artifact_error = true
is_runtime_error c = is_persistence_error c

-- `isinstance(exc, OSError)`
abbrev pub is_os_error : ExceptionClass → Bool
is_os_error os_error = true
is_os_error _ = false

pub data Result {ℓ} (A : Type ℓ) : Type ℓ where
  ok : A → Result A
  raised : Exception → Result A

abbrev pub raise {ℓ} : {A : Type ℓ} → ExceptionClass → String → Result A
raise c m = raised (record { class = c; message = m })

infixl 5 ◌>>=◌ ◌>>◌
abbrev pub ◌>>=◌ {ℓ κ} : {A : Type ℓ} {B : Type κ} → Result A → (A → Result B) → Result B
ok a >>= f = f a
raised e >>= f = raised e

abbrev pub ◌>>◌ {ℓ} : {B : Type ℓ} → Result (Unit {0}) → Result B → Result B
m >> k = m >>= λ _. k

-- `if b: raise c(m)`
abbrev pub raise_if : Bool → ExceptionClass → String → Result (Unit {0})
raise_if true c m = raise c m
raise_if false c m = ok tt

-- A list comprehension whose body may raise: the first exception ends it.
abbrev pub map_result {ℓ κ} : {A : Type ℓ} {B : Type κ} → (A → Result B) → List A → Result (List B)
map_result f [] = ok []
map_result f (x ∷ xs) = do y ← f x; ys ← map_result f xs; ok (y ∷ ys)

-- The call returns.
abbrev pub succeeds {ℓ} : {A : Type ℓ} → Result A → Bool
succeeds (ok a) = true
succeeds (raised e) = false

-- A comprehension returns exactly when its body returns on every member.
pub succeeds-map_result {ℓ κ μ} :
    {A : Type ℓ} {B : Type κ} (P : A → Type μ) (f : A → Result B)
    → ((x : A) → (succeeds (f x) ≡ true) ↔ P x)
    → (xs : List A) → (succeeds (map_result f xs) ≡ true) ↔ All P xs
succeeds-map_result P f h [] = ground arith
succeeds-map_result P f h (x ∷ xs) = ground (arith, h x, succeeds-map_result P f h xs)

pub ok_injective {ℓ} : {A : Type ℓ} {a b : A} → ok a ≡ ok b → a ≡ b
ok_injective h = cc
