-- ===== src/Tests/Runner.antt =====
-- A run of a small plan, and single verdicts.
use pc_platform_validation_t.Base.{
  nat_eq, string_eq, option_eq, Exception, Result, ok, raised, succeeds, ℕ, String, ◌≡◌, refl, ◌↔◌,
  true, false, none, some, List, [],
}
use pc_platform_validation_t.Base.Int.{ℤ, pos}
use pc_platform_validation_t.Models.Status.{pass, fail, skip, status_eq}
use pc_platform_validation_t.Models.Plan.{TestPlan}
use pc_platform_validation_t.Models.Results.{
  TestResult, aggregate_status, count_into, nonzero, require_aware_timestamp, end_follows_start,
  make_test_result, summary_matches_results, make_run_result,
}
use pc_platform_validation_t.Models.Telemetry.{TelemetrySample}
use pc_platform_validation_t.Evaluation.{compare_numbers, satisfies, evaluate_requirement, numeric}
use pc_platform_validation_t.Runner.Cases.{CaseExecution, default_case, inventory_case}
use pc_platform_validation_t.Runner.Execute.{execute_case}
use pc_platform_validation_t.Runner.Test.{
  handle_case, Verdict, decide_status, settle, disabled_verdict, evaluate_all, assess, judge,
  finish, run_enabled_test, run_test,
}
use pc_platform_validation_t.Runner.Test.Verdicts.{
  HasPassed, verdict_status, Handles, judge_total, judge-pass_iff,
}
use pc_platform_validation_t.Runner.Test.Outcome.{IsOutcome, run_test-IsOutcome}
use pc_platform_validation_t.Runner.Run.{
  RunExecution, Preparation, run_tests, prepare_run, finish_run, run_validation_plan,
}
use pc_platform_validation_t.Runner.Run.Results.{
  IsRunOf, run_validation_plan-IsRunOf, AllPassed, run_validation_plan-pass,
}
use pc_platform_validation_t.Tests.Numbers.{whole_floats}
use pc_platform_validation_t.Tests.Fixtures.{
  demo_snapshot, at_time, demo_policy, inventory_test, injected_test, demo_plan, demo_machine,
  no_execution, returned,
}
use pc_platform_validation_t.Runner.Telemetry.{telemetry_summary}

abbrev demo_hash : TestPlan ℤ → String
demo_hash plan = "h0"

abbrev demo_outcome : Result (RunExecution ℤ) × ℕ
demo_outcome = run_validation_plan demo_machine demo_hash demo_plan "runtime" none none 0

abbrev demo_execution : RunExecution ℤ
demo_execution = returned no_execution demo_outcome.0

demo_run :
    run_validation_plan demo_machine demo_hash demo_plan "runtime" none none 0
    ≡ (ok demo_execution, demo_outcome.1)
unfolding run_validation_plan prepare_run run_tests run_test run_enabled_test execute_case
    inventory_case judge handle_case assess settle evaluate_all evaluate_requirement numeric
    satisfies compare_numbers decide_status finish finish_run make_test_result make_run_result
    require_aware_timestamp end_follows_start summary_matches_results aggregate_status count_into
    nonzero telemetry_summary
demo_run = refl

demo_run-pass : demo_execution.run.overall_status ≡ pass
unfolding run_validation_plan prepare_run run_tests run_test run_enabled_test execute_case
    inventory_case judge handle_case assess settle evaluate_all evaluate_requirement numeric
    satisfies compare_numbers decide_status finish finish_run make_test_result make_run_result
    require_aware_timestamp end_follows_start summary_matches_results aggregate_status count_into
    nonzero telemetry_summary
demo_run-pass = refl

run_validation_plan-IsRunOf_example : IsRunOf demo_machine demo_hash demo_plan demo_execution
run_validation_plan-IsRunOf_example =
    run_validation_plan-IsRunOf demo_machine demo_hash demo_plan "runtime" none none 0 demo_run

run_validation_plan-pass_example :
    (p : Preparation ℤ) × AllPassed demo_machine p.snapshot p.selected_storage p.temporary_root
      demo_plan.sampling_interval_seconds p.detected_policy demo_plan.tests
      demo_execution.run.test_results
run_validation_plan-pass_example =
    run_validation_plan-pass demo_machine demo_hash demo_plan "runtime" none none 0 demo_run
      demo_run-pass

abbrev no_test_result : TestResult ℤ × List (TelemetrySample ℤ)
no_test_result = (
  record {
    test_id = "INV-001";
    started_at = at_time 0;
    ended_at = at_time 1;
    duration_seconds = pos 1;
    status = skip;
    measured_values = [];
    requirements = [];
    failure_reason = none;
    evidence_references = [];
    exception_summary = none;
    telemetry_summary = none;
    injected = false;
  },
  [],
)

abbrev demo_test_outcome : Result (TestResult ℤ × List (TelemetrySample ℤ)) × ℕ
demo_test_outcome =
    run_test demo_machine inventory_test demo_snapshot "runtime" "runtime/tmp" (pos 1) demo_policy 0

abbrev demo_test_result : TestResult ℤ × List (TelemetrySample ℤ)
demo_test_result = returned no_test_result demo_test_outcome.0

demo_test_run :
    run_test demo_machine inventory_test demo_snapshot "runtime" "runtime/tmp" (pos 1) demo_policy 0
    ≡ (ok demo_test_result, demo_test_outcome.1)
unfolding run_test run_enabled_test execute_case inventory_case judge handle_case assess settle
    evaluate_all evaluate_requirement numeric satisfies compare_numbers decide_status finish
    make_test_result require_aware_timestamp end_follows_start telemetry_summary
demo_test_run = refl

run_test-IsOutcome_example :
    IsOutcome demo_machine demo_snapshot "runtime" "runtime/tmp"
      (pos 1)
      demo_policy
      inventory_test
      demo_test_result
run_test-IsOutcome_example =
    run_test-IsOutcome demo_machine demo_snapshot "runtime" "runtime/tmp" (pos 1) demo_policy
      inventory_test 0 demo_test_run

abbrev passed_verdict : Verdict ℤ
passed_verdict = record disabled_verdict { status = pass; reason = none }

passed_judgement :
    judge (record inventory_test { requirements = [] }) (ok default_case) ≡ ok passed_verdict
unfolding judge handle_case assess settle decide_status evaluate_all
passed_judgement = refl

judge-pass_iff_example :
    (passed_verdict.status ≡ pass)
    ↔ HasPassed (record inventory_test { requirements = [] }) (ok default_case)
judge-pass_iff_example =
    judge-pass_iff (record inventory_test { requirements = [] }) (ok default_case) passed_verdict
      passed_judgement

judge_total_example :
    ((c : CaseExecution ℤ)
      → (v : Verdict ℤ) × (judge inventory_test (ok c) ≡ ok v)
        × (v.status ≡ verdict_status inventory_test c))
    × ((e : Exception) → Handles e (judge inventory_test (raised e)))
judge_total_example = judge_total inventory_test

abbrev wrong_case : CaseExecution ℤ
wrong_case = record default_case { correct = false }

abbrev injected_verdict : Verdict ℤ
injected_verdict = record disabled_verdict {
  status = fail;
  reason = some "opt-in injected checksum mismatch produced the expected failure";
}

injected_judgement : judge injected_test (ok wrong_case) ≡ ok injected_verdict
unfolding judge handle_case assess settle decide_status evaluate_all
injected_judgement = refl

no_requirements : succeeds (evaluate_all injected_test.requirements wrong_case.measurements) ≡ true
unfolding evaluate_all
no_requirements = refl
