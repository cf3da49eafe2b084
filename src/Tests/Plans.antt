-- ===== src/Tests/Plans.antt =====
-- Plans: one that is loaded, a file that is no UTF-8, and the demonstration's.
use pc_platform_validation_t.Tests.Numbers.{whole_floats}
use pc_platform_validation_t.Base.{
  if◌then◌else◌, ◌==◌, nat_eq, string_eq, option_eq, value_error, ok, raise, String, ◌≡◌, refl, inr,
  Bool, ◌||◌, [],
}
use pc_platform_validation_t.Base.Action.{pure, lift}
use pc_platform_validation_t.Base.Int.{ℤ}
use pc_platform_validation_t.Models.Plan.{
  to_set, schema_is_supported, validate_expected_shape, fault_is_supported_by_test,
  test_ids_are_unique, text_length, require_fields, requirement_fields, validate_requirement,
  test_fields, plan_fields, validate_test, validate_plan,
}
use pc_platform_validation_t.Runner.PlanLoader.{
  mapping, PlanSource, read_bounded, unreadable, validated, converted, parse_plan, read_plan,
  load_test_plan,
}
use pc_platform_validation_t.Tests.Fixtures.{demo_plan}
use pc_platform_validation_t.Demo.{synthetic_plan, failure_demo_plan}

abbrev ids : String → Bool
ids id = id == "INV-001" || id == "CPU-002" || id == "CPU-001"

abbrev plans : PlanSource (Unit {0}) (Unit {0}) ℤ
plans = record {
  file_size = λ path. pure 100;
  read_text = λ path.
      if path == "latin.yaml" then lift (raise value_error "invalid start byte") else pure "plan";
  safe_load = λ text. mapping tt;
  convert = λ raw. inr demo_plan;
  errors_of = λ e. [];
  is_test_id = ids;
  decimal = λ n. "n";
}

loaded : load_test_plan plans "plan.yaml" tt ≡ (ok demo_plan, tt)
unfolding load_test_plan read_plan read_bounded unreadable parse_plan converted validated
    validate_plan validate_test schema_is_supported test_ids_are_unique to_set
    validate_expected_shape fault_is_supported_by_test validate_requirement require_fields
    requirement_fields test_fields plan_fields text_length
loaded = refl

-- A text that is not UTF-8 is no PlanLoadError: the exception is the decoder's.
undecodable : load_test_plan plans "latin.yaml" tt ≡ (raise value_error "invalid start byte", tt)
unfolding load_test_plan read_plan read_bounded unreadable
undecodable = refl

abbrev readable : PlanSource (Unit {0}) (Unit {0}) ℤ
readable = record plans { read_text = λ path. pure "plan" }

demo_is_valid : failure_demo_plan {F = ℤ} ids ≡ ok synthetic_plan
unfolding failure_demo_plan synthetic_plan validate_plan validate_test schema_is_supported
    test_ids_are_unique to_set validate_expected_shape fault_is_supported_by_test
    validate_requirement require_fields requirement_fields test_fields plan_fields text_length
demo_is_valid = refl
