-- ===== src/Reporting/View/Build.antt =====
-- `build_report_view` (src/platval/reporting/view.py).
pub mod Honest
-- How a measured value of a test was come by.
use pc_platform_validation_t.Base.{
  if◌then◌else◌, any, nat_eq, string_eq, option_eq, member, ℕ, String, Bool, not, Option, none,
  some, List, [], ◌∷◌, map,
}
use pc_platform_validation_t.Base.Floats.{Floats}
use pc_platform_validation_t.Base.Dict.{Dict, lookup_or}
use pc_platform_validation_t.Models.Status.{ResultStatus, pass, fail, warn, skip, error, status_eq}
use pc_platform_validation_t.Models.Scalar.{Scalar, is_null}
use pc_platform_validation_t.Models.Results.{
  MetricValue, RequirementEvaluation, TelemetrySummary, TestResult,
}
use pc_platform_validation_t.Models.Telemetry.{TelemetrySample}
use pc_platform_validation_t.Persistence.Records.{StoredRun}
use pc_platform_validation_t.Persistence.Repository.{order_by, text_leb}
use pc_platform_validation_t.Runner.Run.{tool_version}
use pc_platform_validation_t.Reporting.View.{
  ValueClass, measured, configured, derived, unavailable, simulated, ReportValue, ReportRequirement,
  ReportTest, ReportView, Formats, display, display_expected, derived_metrics,
}
use pc_platform_validation_t.Reporting.View.Telemetry.{telemetry_values}
use pc_platform_validation_t.Reporting.View.Chart.{cpu_chart}
use pc_platform_validation_t.Reporting.View.Platform.{platform_values}

unfoldable pub classify_metric : Bool → String → ValueClass
unfolding derived_metrics
classify_metric injected name =
    if injected then simulated else if member name derived_metrics then derived else measured

unfoldable pub classify_actual : {F : Type 0} → Bool → String → Scalar F → ValueClass
unfolding classify_metric
classify_actual injected metric actual =
    if is_null actual then unavailable else classify_metric injected metric

module _ {F : Type 0} (formats : Formats F) where
  unfoldable pub metric_view : Bool → String × MetricValue F → ReportValue
  unfolding classify_metric display
  metric_view injected (name, metric) = record {
    name = name;
    display_value = display formats metric.value;
    unit = metric.unit;
    classification = classify_metric injected name;
    source = some metric.source;
  }

  unfoldable pub requirement_view : Bool → RequirementEvaluation F → ReportRequirement F
  unfolding classify_actual display display_expected
  requirement_view injected e = record {
    metric = e.metric;
    operator = e.operator;
    expected = display_expected formats e.expected;
    actual = display formats e.actual;
    unit = e.unit;
    passed = e.passed;
    explanation = e.explanation;
    expected_classification = configured;
    actual_classification = classify_actual injected e.metric e.actual;
  }

-- `sorted(result.measured_values.items())`, whose names do not repeat.
unfoldable pub sorted_metrics :
    {F : Type 0} → Dict String (MetricValue F) → List (String × MetricValue F)
unfolding order_by text_leb
sorted_metrics = order_by (λ a b. text_leb a.0 b.0)

unfoldable pub unavailable_of : Option TelemetrySummary → List String
unavailable_of none = []
unavailable_of (some summary) = summary.unavailable_metrics

module _ {F : Type 0} ⦃o : Floats F⦄ (formats : Formats F) where
  unfoldable pub test_view : Dict String (List (TelemetrySample F)) → TestResult F → ReportTest F
  unfolding metric_view requirement_view sorted_metrics telemetry_values unavailable_of cpu_chart
  test_view telemetry_samples r =
      let samples = lookup_or r.test_id [] telemetry_samples in
      record {
        test_id = r.test_id;
        status = r.status;
        duration_seconds = r.duration_seconds;
        failure_reason = r.failure_reason;
        exception_summary = r.exception_summary;
        injected = r.injected;
        metrics = map (metric_view formats r.injected) (sorted_metrics r.measured_values);
        requirements = map (requirement_view formats r.injected) r.requirements;
        telemetry_values = telemetry_values formats samples;
        unavailable_telemetry = unavailable_of r.telemetry_summary;
        telemetry_chart_svg = cpu_chart formats samples r.test_id;
        evidence_references = r.evidence_references;
      }

  -- `{status.value: run.result_counts.get(status, 0) for status in ResultStatus}`
  unfoldable pub counts_view : Dict ResultStatus ℕ → Dict ResultStatus ℕ
  counts_view counts =
      map (λ status. (status, lookup_or status 0 counts)) (pass ∷ fail ∷ warn ∷ skip ∷ error ∷ [])

  unfoldable pub build_report_view : StoredRun F → ReportView F
  unfolding test_view counts_view platform_values
  build_report_view stored =
      let run = stored.execution.run in
      record {
        run_id = run.run_id;
        plan_name = run.plan_name;
        plan_hash = run.plan_hash;
        tool_version = run.tool_version;
        started_at = formats.isoformat run.started_at;
        ended_at = formats.isoformat run.ended_at;
        overall_status = run.overall_status;
        result_counts = counts_view run.result_counts;
        platform_values = platform_values formats stored.execution.platform;
        tests = map (test_view stored.execution.telemetry_samples) run.test_results;
        warnings = run.warnings;
        limitations = run.limitations;
        contains_simulated_data = any (λ (r : TestResult F). r.injected) run.test_results;
      }
