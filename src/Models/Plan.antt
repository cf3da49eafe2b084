-- ===== src/Models/Plan.antt =====
-- Test plans and their validators (src/platval/models/plan.py).
pub mod Validation
use pc_platform_validation_t.Base.{
  nat_eq, string_eq, option_eq, ◌>>=◌, ◌>>◌, ltb, leb, ◌+◌, none, some,
}
use pc_platform_validation_t.Base.{
  if◌then◌else◌, is_some, ◌==◌, member, length, value_error, Result, ok, raise, raise_if,
  map_result, ℕ, String, Bool, true, false, not, ◌&&◌, ◌||◌, Option, List, [], ◌∷◌, map,
}
use pc_platform_validation_t.Base.Dict.{Dict, values}
use pc_platform_validation_t.Models.Scalar.{Scalar, null, ExpectedValue, one, many}
use pc_platform_validation_t.Base.Floats.{Floats, float_lt, float_le, zero_float}
use pc_platform_validation_t.Base.Int.{pos}

pub data RequirementOperator : Type 0 where
  equals not_equals greater_than greater_than_or_equal : RequirementOperator
  less_than less_than_or_equal between present contains : RequirementOperator

pub data TestCategory : Type 0 where
  inventory cpu memory storage telemetry stability configuration regression : TestCategory

pub data Severity : Type 0 where
  info warning critical : Severity

pub data FaultInjection : Type 0 where
  checksum_mismatch : FaultInjection

pub record Requirement (F : Type 0) : Type 0 where
  pub metric : String
  pub operator : RequirementOperator
  pub expected : ExpectedValue F
  pub unit : Option String

pub record SafetyLimits (F : Type 0) : Type 0 where
  pub max_workers : Option ℕ
  pub max_memory_bytes : Option ℕ
  pub max_temporary_file_bytes : Option ℕ
  pub thermal_stop_celsius : Option F

pub record TestDefinition (F : Type 0) : Type 0 where
  pub id : String
  pub name : String
  pub description : String
  pub category : TestCategory
  pub enabled : Bool
  pub timeout_seconds : F
  pub iterations : ℕ
  pub parameters : Dict String (Scalar F)
  pub requirements : List (Requirement F)
  pub severity : Severity
  pub tags : List String
  pub safety_limits : SafetyLimits F
  pub fault_injection : Option FaultInjection

pub record TestPlan (F : Type 0) : Type 0 where
  pub schema_version : ℕ
  pub name : String
  pub description : String
  pub sampling_interval_seconds : F
  pub extended : Bool
  pub tests : List (TestDefinition F)

abbrev pub plan_schema_version : ℕ
plan_schema_version = 1

-- `set(xs)`
unfoldable pub to_set : List String → List String
to_set [] = []
to_set (x ∷ xs) = let rest = to_set xs in if member x rest then rest else x ∷ rest

unfoldable pub schema_is_supported : ℕ → Result ℕ
schema_is_supported v = do
  raise_if (not (v == plan_schema_version)) value_error "unexpected plan schema"
  ok v

module _ {F : Type 0} where
  abbrev pub is_pair : ExpectedValue F → Bool
  is_pair (many (a ∷ b ∷ [])) = true
  is_pair _ = false

  -- `self.expected is None`
  abbrev pub is_absent : ExpectedValue F → Bool
  is_absent (one null) = true
  is_absent _ = false

  unfoldable pub validate_expected_shape : Requirement F → Result (Requirement F)
  validate_expected_shape r = elim r.operator [
    | between ↦
        if is_pair r.expected
        then ok r
        else raise value_error "between requires exactly two expected boundary values"
    | present ↦
        if is_absent r.expected
        then ok r
        else raise value_error "present does not accept an expected value"
    | _ ↦
        if is_absent r.expected
        then raise value_error "the operator requires an expected value"
        else ok r
  ]

  unfoldable pub fault_is_supported_by_test : TestDefinition F → Result (TestDefinition F)
  fault_is_supported_by_test t = do
    raise_if (is_some t.fault_injection && not t.enabled) value_error
        "fault injection cannot be configured on a disabled test"
    raise_if (is_some t.fault_injection && not (t.id == "CPU-001" || t.id == "CPU-003")) value_error
        "checksum fault injection is supported only by CPU-001 or CPU-003"
    ok t

  abbrev pub test_ids : TestPlan F → List String
  test_ids p = map (λ (t : TestDefinition F). t.id) p.tests

  unfoldable pub test_ids_are_unique : TestPlan F → Result (TestPlan F)
  unfolding to_set
  test_ids_are_unique p = do
    raise_if (not (length (test_ids p) == length (to_set (test_ids p)))) value_error
        "test IDs must be unique within a plan"
    ok p

-- `len(s)`
unfoldable pub text_length : String → ℕ
text_length String.[] = 0
text_length (String.◌∷◌ c s) = text_length s + 1

-- `min_length=low, max_length=high`
abbrev pub has_length : ℕ → ℕ → String → Bool
has_length low high s = leb low (text_length s) && leb (text_length s) high

-- `default=None` with a bound on what is given.
abbrev fits : {A : Type 0} → (A → Bool) → Option A → Bool
fits p none = true
fits p (some a) = p a

abbrev is_empty_list : {A : Type 0} → List A → Bool
is_empty_list [] = true
is_empty_list (x ∷ xs) = false

unfoldable pub require_fields : Bool → Result (Unit {0})
require_fields b = raise_if (not b) value_error "a field is out of its bounds"

module _ {F : Type 0} where
  unfoldable pub requirement_fields : Requirement F → Bool
  requirement_fields r = has_length 1 128 r.metric && fits (has_length 0 32) r.unit

  unfoldable pub validate_requirement : Requirement F → Result (Requirement F)
  unfolding require_fields validate_expected_shape
  validate_requirement r = do require_fields (requirement_fields r); validate_expected_shape r

-- The bounds of the fields, where `is_test_id` stands for the match of `^[A-Z]{3}-\d{3}$`, and the
-- validators in pydantic's order: the fields from the inside out, then the model.
module _ {F : Type 0} ⦃o : Floats F⦄ (is_test_id : String → Bool) where
  abbrev limit_fields : SafetyLimits F → Bool
  limit_fields l =
      fits (ltb 0) l.max_workers
      && fits (ltb 0) l.max_memory_bytes
      && fits (ltb 0) l.max_temporary_file_bytes
      && fits (λ x. float_lt zero_float x && float_le x (o.of_int (pos 125))) l.thermal_stop_celsius

  unfoldable pub test_fields : TestDefinition F → Bool
  test_fields t =
      is_test_id t.id
      && has_length 1 160 t.name
      && has_length 0 1000 t.description
      && float_lt zero_float t.timeout_seconds
      && float_le t.timeout_seconds (o.of_int (pos 3600))
      && leb 1 t.iterations
      && leb t.iterations 1000
      && limit_fields t.safety_limits

  unfoldable pub plan_fields : TestPlan F → Bool
  plan_fields p =
      has_length 1 128 p.name
      && has_length 0 1000 p.description
      && float_le (o.literal 5 2) p.sampling_interval_seconds
      && float_le p.sampling_interval_seconds (o.of_int (pos 60))
      && not (is_empty_list p.tests)

  unfoldable pub validate_test : TestDefinition F → Result (TestDefinition F)
  unfolding require_fields validate_requirement fault_is_supported_by_test
  validate_test t = do
    require_fields (test_fields t)
    _ ← map_result validate_requirement t.requirements
    fault_is_supported_by_test t

  unfoldable pub validate_plan : TestPlan F → Result (TestPlan F)
  unfolding require_fields validate_test schema_is_supported test_ids_are_unique
  validate_plan p = do
    require_fields (plan_fields p)
    _ ← schema_is_supported p.schema_version
    _ ← map_result validate_test p.tests
    test_ids_are_unique p
