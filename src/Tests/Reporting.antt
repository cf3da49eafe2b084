-- ===== src/Tests/Reporting.antt =====
-- The view of a run with an injected test and one that was measured.
use pc_platform_validation_t.Base.{
  nat_eq, string_eq, option_eq, concat, String, Bool, true, false, none, List, [], ◌∷◌, map,
}
use pc_platform_validation_t.Base.Int.{ℤ, pos}
use pc_platform_validation_t.Base.Dict.{Dict}
use pc_platform_validation_t.Models.Scalar.{Scalar, null, bool, integer, one}
use pc_platform_validation_t.Models.Status.{fail, status_eq}
use pc_platform_validation_t.Models.Plan.{equals}
use pc_platform_validation_t.Models.Results.{
  MetricValue, unavailable, RequirementEvaluation, TestResult,
}
use pc_platform_validation_t.Persistence.Records.{StoredRun}
use pc_platform_validation_t.Reporting.View.{ValueClass, ReportValue, ReportTest, Formats}
use pc_platform_validation_t.Reporting.View.Build.{build_report_view}
use pc_platform_validation_t.Tests.Numbers.{whole_floats}
use pc_platform_validation_t.Tests.Fixtures.{at_time, no_result, no_execution}

abbrev pub test_formats : Formats ℤ
test_formats = record {
  decimal = λ n. "n";
  general = λ x. "x";
  fixed = λ n x. "f";
  isoformat = λ t. "t";
  escape = λ s. s;
  mean = λ xs. pos 0;
}

abbrev metrics_of : String → Dict String (MetricValue ℤ)
metrics_of name = (name, record { value = integer (pos 4); unit = none; source = "workload" }) ∷ []

abbrev requirement_on : Scalar ℤ → RequirementEvaluation ℤ
requirement_on actual = record {
  metric = "checksum_valid";
  operator = equals;
  expected = one (bool true);
  actual = actual;
  unit = none;
  passed = false;
  explanation = unavailable "checksum_valid";
}

abbrev result_of : String → Bool → Dict String (MetricValue ℤ) → Scalar ℤ → TestResult ℤ
result_of test_id injected measured_values actual = record {
  test_id = test_id;
  started_at = at_time 1;
  ended_at = at_time 2;
  duration_seconds = pos 1;
  status = fail;
  measured_values = measured_values;
  requirements = requirement_on actual ∷ [];
  failure_reason = none;
  evidence_references = [];
  exception_summary = none;
  telemetry_summary = none;
  injected = injected;
}

abbrev reported_run : StoredRun ℤ
reported_run = record {
  execution = record no_execution {
    run = record no_result {
      test_results =
          result_of "CPU-001" true (metrics_of "checksum_valid") (bool false)
          ∷ result_of "CPU-002" false (metrics_of "throughput") null
          ∷ [];
    };
  };
  artifacts = [];
}

abbrev classes : List ValueClass
classes = concat (
    map (λ (t : ReportTest ℤ). map (λ (v : ReportValue). v.classification) t.metrics)
      (build_report_view test_formats reported_run).tests)
