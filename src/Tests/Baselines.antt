-- ===== src/Tests/Baselines.antt =====
-- Reports on small runs.
use pc_platform_validation_t.Base.{
  ==_iff, nat_eq, string_eq, option_eq, All, ◌≤◌, ◌≡◌, refl, ◌↔◌, ◌⊎◌, false, none, some, [], ◌∷◌,
  String,
}
use pc_platform_validation_t.Base.Int.{ℤ, pos}
use pc_platform_validation_t.Models.Status.{pass, fail, skip, status_eq}
use pc_platform_validation_t.Models.Scalar.{integer}
use pc_platform_validation_t.Models.Results.{MetricValue, TestResult}
use pc_platform_validation_t.Persistence.Records.{StoredRun, BaselineRecord}
use pc_platform_validation_t.Persistence.Repository.{order_by}
use pc_platform_validation_t.Baselines.{
  ComparisonReport, key_beq, key_leq, key_eq, add_metrics, numeric_metrics, classify,
  percent_difference, outcome, compare_metric,
}
use pc_platform_validation_t.Baselines.Outcome.{severity, classify_monotone}
use pc_platform_validation_t.Baselines.Service.{compare_key, compare_metrics, overall, report}
use pc_platform_validation_t.Baselines.Service.Report.{IsAcceptable, report-pass, report-withheld}
use pc_platform_validation_t.Tests.Numbers.{whole_floats, whole_IsOrdered}
use pc_platform_validation_t.Tests.Fixtures.{at_time, no_result, no_execution}

abbrev processor_time : MetricValue ℤ
processor_time = record { value = integer (pos 4); unit = some "s"; source = "integer" }

abbrev timed_result : TestResult ℤ
timed_result = record {
  test_id = "CPU-001";
  started_at = at_time 1;
  ended_at = at_time 2;
  duration_seconds = pos 1;
  status = pass;
  measured_values = ("measured_duration", processor_time) ∷ [];
  requirements = [];
  failure_reason = none;
  evidence_references = [];
  exception_summary = none;
  telemetry_summary = none;
  injected = false;
}

abbrev timed_run : StoredRun ℤ
timed_run = record {
  execution = record no_execution {
    run = record no_result {
      run_id = "run-2";
      overall_status = pass;
      result_counts = (pass, 1) ∷ [];
      test_results = timed_result ∷ [];
    };
  };
  artifacts = [];
}

abbrev demo_baseline : BaselineRecord
demo_baseline = record {
  name = "good";
  source_run_id = "run-1";
  created_at = at_time 6;
  platform_fingerprint = "f0";
  plan_hash = "h0";
  plan_name = "demo";
}

abbrev demo_report : ComparisonReport ℤ
demo_report = report (λ s. s) demo_baseline timed_run timed_run "run-2" (pos 10) (pos 20)

demo_report-pass : demo_report.overall_status ≡ pass
unfolding report overall compare_metrics compare_key compare_metric outcome percent_difference
    classify numeric_metrics add_metrics key_beq key_leq order_by
demo_report-pass = refl

report-pass_example :
    let run = timed_run.execution.run in
    ((run.overall_status ≡ pass) ⊎ (run.overall_status ≡ skip))
    × ¬ (demo_baseline.source_run_id ≡ "run-2")
    × (demo_baseline.platform_fingerprint ≡ run.platform_fingerprint)
    × (demo_baseline.plan_hash ≡ run.plan_hash)
    × (timed_run.execution.platform.power_plan_name ≡ timed_run.execution.platform.power_plan_name)
    × All IsAcceptable demo_report.comparisons
    × ¬ (demo_report.comparisons ≡ [])
    × (demo_report.warnings ≡ [])
report-pass_example =
    report-pass (λ s. s) demo_baseline timed_run timed_run "run-2" (pos 10) (pos 20)
      demo_report-pass

abbrev other_baseline : BaselineRecord
other_baseline = record demo_baseline { plan_hash = "h1" }

abbrev withheld_report : ComparisonReport ℤ
withheld_report = report (λ s. s) other_baseline timed_run timed_run "run-2" (pos 10) (pos 20)

other_plan : ¬ (
    (other_baseline.platform_fingerprint ≡ timed_run.execution.run.platform_fingerprint)
    × (other_baseline.plan_hash ≡ timed_run.execution.run.plan_hash))
other_plan h = cc ((==_iff {A = String} "h1" "h0").1 (h.1))

report-withheld_example :
    (withheld_report.comparisons ≡ [])
    × ¬ (withheld_report.overall_status ≡ pass)
    × ((withheld_report.overall_status ≡ fail) ↔ (timed_run.execution.run.overall_status ≡ fail))
report-withheld_example =
    report-withheld (λ s. s) other_baseline timed_run timed_run "run-2" (pos 10) (pos 20) other_plan

classify_monotone_example :
    severity (classify (pos 12) (pos 10) (pos 20)) ≤ severity (classify (pos 25) (pos 10) (pos 20))
classify_monotone_example =
    classify_monotone whole_IsOrdered (pos 10) (pos 20) (pos 12) (pos 25) refl refl refl
