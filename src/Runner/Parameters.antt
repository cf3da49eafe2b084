-- ===== src/Runner/Parameters.antt =====
-- Typed parameters of a test, and the safety policy of its case.
use pc_platform_validation_t.Base.{
  if◌then◌else◌, nat_eq, string_eq, option_eq, value_error, Result, ok, raise, ℕ, ◌≤◌, ◌<◌, min,
  String, ◌≡◌, refl, false, Option, none, some, zero, suc, arith,
}
use pc_platform_validation_t.Base.Int.{ℤ}
use pc_platform_validation_t.Base.Floats.{Floats, IsOrdered, float_lt, float, lt_asymm, lt_irrefl}
use pc_platform_validation_t.Base.Dict.{lookup_or}
use pc_platform_validation_t.Models.Scalar.{Scalar, null, integer, real, text}
use pc_platform_validation_t.Models.Plan.{TestDefinition}
use pc_platform_validation_t.Workloads.Safety.{SafetyPolicy, or_default, detected}

module _ {F : Type 0} where
  unfoldable pub parameter : TestDefinition F → String → Scalar F → Scalar F
  parameter t name default = lookup_or name default t.parameters

  abbrev as_integer : Scalar F → Result ℤ
  as_integer (integer n) = ok n
  as_integer _ = raise value_error "parameter must be an integer"

  unfoldable pub int_parameter : TestDefinition F → String → ℤ → Result ℤ
  unfolding parameter
  int_parameter t name default = as_integer (parameter t name (integer default))

  abbrev as_optional_text : Scalar F → Result (Option String)
  as_optional_text null = ok none
  as_optional_text (text s) = ok (some s)
  as_optional_text _ = raise value_error "parameter must be a string"

  unfoldable pub string_parameter : TestDefinition F → String → Result (Option String)
  unfolding parameter
  string_parameter t name = as_optional_text (parameter t name null)

  -- The `allocation_bytes` of MEM-001, which may be absent.
  abbrev as_optional_integer : Scalar F → Result (Option ℤ)
  as_optional_integer null = ok none
  as_optional_integer (integer n) = ok (some n)
  as_optional_integer _ = raise value_error "parameter 'allocation_bytes' must be an integer"

  unfoldable pub allocation_parameter : TestDefinition F → Result (Option ℤ)
  unfolding parameter
  allocation_parameter t = as_optional_integer (parameter t "allocation_bytes" null)

-- A limit that a test sets.
abbrev pub Respects : Option ℕ → ℕ → Type 0
Respects none n = Unit
Respects (some limit) n = 0 < limit → n ≤ limit

Respects-min : (limit : Option ℕ) (n : ℕ) → Respects limit (min n (or_default limit n))
Respects-min none n = tt
Respects-min (some zero) n = omega arith
Respects-min (some (suc k)) n = ground arith

module _ {F : Type 0} ⦃o : Floats F⦄ where
  abbrev as_float : Scalar F → Result F
  as_float (integer n) = ok (o.of_int n)
  as_float (real x) = ok x
  as_float _ = raise value_error "parameter must be numeric"

  unfoldable pub float_parameter : TestDefinition F → String → F → Result F
  unfolding parameter
  float_parameter t name default = as_float (parameter t name (real default))

  -- Python's `min(a, b)` on floats: `b` only if it is less.
  abbrev pub float_min : F → F → F
  float_min a b = if float_lt b a then b else a

  unfoldable pub case_policy : TestDefinition F → SafetyPolicy F → SafetyPolicy F
  case_policy t detected =
      let limits = t.safety_limits in
      record {
        max_workers = min detected.max_workers (or_default limits.max_workers detected.max_workers);
        max_memory_bytes =
            min detected.max_memory_bytes
              (or_default limits.max_memory_bytes detected.max_memory_bytes);
        max_temporary_file_bytes =
            min detected.max_temporary_file_bytes
              (or_default limits.max_temporary_file_bytes detected.max_temporary_file_bytes);
        max_duration_seconds = float_min detected.max_duration_seconds t.timeout_seconds;
        minimum_disk_reserve_bytes = detected.minimum_disk_reserve_bytes;
      }

  -- A test can only tighten the detected limits, and every positive limit that it sets holds, its
  -- timeout among them; the disk reserve stays.
  pub case_policy_tightens :
      (order : IsOrdered F) (t : TestDefinition F) (detected : SafetyPolicy F)
      → let p = case_policy t detected in
        (p.max_workers ≤ detected.max_workers)
        × (p.max_memory_bytes ≤ detected.max_memory_bytes)
        × (p.max_temporary_file_bytes ≤ detected.max_temporary_file_bytes)
        × (float_lt detected.max_duration_seconds p.max_duration_seconds ≡ false)
        × (float_lt t.timeout_seconds p.max_duration_seconds ≡ false)
        × Respects t.safety_limits.max_workers p.max_workers
        × Respects t.safety_limits.max_memory_bytes p.max_memory_bytes
        × Respects t.safety_limits.max_temporary_file_bytes p.max_temporary_file_bytes
        × (p.minimum_disk_reserve_bytes ≡ detected.minimum_disk_reserve_bytes)
  unfolding case_policy
  case_policy_tightens order t detected =
      let a = float detected.max_duration_seconds in
      let b = float t.timeout_seconds in
      (
        omega arith,
        omega arith,
        omega arith,
        ground (arith, lt_asymm order b a, lt_irrefl order a),
        ground (arith, lt_irrefl order b),
        Respects-min _ _,
        Respects-min _ _,
        Respects-min _ _,
        refl,
      )
