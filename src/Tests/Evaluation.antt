-- ===== src/Tests/Evaluation.antt =====
-- Requirements, results and plans.
use pc_platform_validation_t.Base.{
  nat_eq, string_eq, option_eq, ok, String, ◌≡◌, refl, ◌↔◌, [], ◌∷◌, arith, ◌==◌, Bool, ◌||◌,
}
use pc_platform_validation_t.Base.Int.{ℤ, pos}
use pc_platform_validation_t.Base.Dict.{Dict}
use pc_platform_validation_t.Models.Status.{pass, warn, skip, status_eq}
use pc_platform_validation_t.Models.Scalar.{Scalar, integer}
use pc_platform_validation_t.Models.Plan.{
  to_set, schema_is_supported, validate_expected_shape, fault_is_supported_by_test,
  test_ids_are_unique, validate_test, validate_plan, text_length, require_fields,
  requirement_fields, validate_requirement, test_fields, plan_fields,
}
use pc_platform_validation_t.Models.Results.{aggregate_status, count_into, make_run_result}
use pc_platform_validation_t.Models.Results.Aggregate.{
  worst, aggregate_status-eq-worst, make_run_result_computed,
}
use pc_platform_validation_t.Models.Plan.Validation.{IsValidPlan, validate_plan-IsValidPlan}
use pc_platform_validation_t.Evaluation.{evaluate_requirement}
use pc_platform_validation_t.Evaluation.Laws.{Reports, evaluate_requirement-Reports}
use pc_platform_validation_t.Tests.Fixtures.{two_processors, demo_plan, no_result}
use pc_platform_validation_t.Tests.Numbers.{whole_floats}

abbrev measured_processors : Dict String (Scalar ℤ)
measured_processors = ("logical_cpu_count", integer (pos 8)) ∷ []

evaluate_requirement-Reports_example :
    Reports two_processors measured_processors
      (evaluate_requirement two_processors measured_processors)
evaluate_requirement-Reports_example =
    evaluate_requirement-Reports two_processors measured_processors

aggregate_status-eq-worst_example :
    aggregate_status (skip ∷ warn ∷ pass ∷ []) ≡ worst (skip ∷ warn ∷ pass ∷ [])
aggregate_status-eq-worst_example = aggregate_status-eq-worst (skip ∷ warn ∷ pass ∷ [])

make_run_result_computed_example : make_run_result no_result ≡ ok no_result
unfolding aggregate_status count_into
make_run_result_computed_example =
    (make_run_result_computed no_result refl refl).1 (refl, refl, omega arith)

abbrev demo_ids : String → Bool
demo_ids id = id == "INV-001" || id == "CPU-002"

validate_plan-IsValidPlan_example :
    (validate_plan demo_ids demo_plan ≡ ok demo_plan)
    ↔ ((demo_plan ≡ demo_plan) × IsValidPlan demo_ids demo_plan)
validate_plan-IsValidPlan_example = validate_plan-IsValidPlan demo_ids demo_plan demo_plan

validate_plan_run : validate_plan demo_ids demo_plan ≡ ok demo_plan
unfolding validate_plan validate_test schema_is_supported test_ids_are_unique to_set
    validate_expected_shape fault_is_supported_by_test validate_requirement require_fields
    requirement_fields test_fields plan_fields text_length
validate_plan_run = refl
