-- ===== src/Cli/Tables.antt =====
-- The tables of the command line (src/platval/cli.py), with Rich's markup.
use pc_platform_validation_t.Base.{
  if◌then◌else◌, ◌==◌, nat_eq, string_eq, option_eq, ℕ, String, ◌<>◌, Option, none, some, List, [],
  ◌∷◌, map,
}
use pc_platform_validation_t.Base.Int.{ℤ, pos}
use pc_platform_validation_t.Doctor.{DoctorStatus, DoctorCheck, DoctorReport}
use pc_platform_validation_t.Models.Platform.{PlatformIdentity}
use pc_platform_validation_t.Models.Status.{ResultStatus, status_eq}
use pc_platform_validation_t.Models.Results.{TestResult, RunResult}
use pc_platform_validation_t.Persistence.Records.{RunSummary, BaselineRecord}
use pc_platform_validation_t.Reporting.Names.{status_value, or_else}
use pc_platform_validation_t.Baselines.{
  ComparisonOutcome, improved, unchanged, warned, failed, MetricComparison, ComparisonReport,
  key_eq,
}
use pc_platform_validation_t.Cli.{Table, Services}

abbrev pub text_or : String → Option String → String
text_or default o = or_else o default

-- `platform.physical_processor_count or 'UNAVAILABLE'`, where 0 is false.
abbrev pub count_or_unavailable : (ℤ → String) → Option ℕ → String
count_or_unavailable decimal none = "UNAVAILABLE"
count_or_unavailable decimal (some n) = if n == 0 then "UNAVAILABLE" else decimal (pos n)

unfoldable pub doctor_value : DoctorStatus → String
doctor_value DoctorStatus.pass = "PASS"
doctor_value DoctorStatus.warn = "WARN"
doctor_value DoctorStatus.fail = "FAIL"

unfoldable pub doctor_style : DoctorStatus → String
doctor_style DoctorStatus.pass = "green"
doctor_style DoctorStatus.warn = "yellow"
doctor_style DoctorStatus.fail = "red"

abbrev pub styled : String → String → String
styled style text = "[" <> style <> "]" <> text <> "[/" <> style <> "]"

unfoldable pub doctor_table : DoctorReport → Table
unfolding doctor_value doctor_style
doctor_table report = record {
  title = "platval doctor: " <> doctor_value report.overall_status;
  headers = "Status" ∷ "Check" ∷ "Detail" ∷ [];
  rows =
      map
        (λ (c : DoctorCheck).
          styled (doctor_style c.status) (doctor_value c.status) ∷ c.name ∷ c.detail ∷ [])
        report.checks;
}

unfoldable pub status_style : ResultStatus → String
status_style ResultStatus.pass = "green"
status_style ResultStatus.fail = "red"
status_style ResultStatus.warn = "yellow"
status_style ResultStatus.skip = "cyan"
status_style ResultStatus.error = "red bold"

unfoldable pub outcome_value : ComparisonOutcome → String
outcome_value improved = "IMPROVED"
outcome_value unchanged = "UNCHANGED"
outcome_value warned = "WARN"
outcome_value failed = "FAIL"
outcome_value ComparisonOutcome.unavailable = "UNAVAILABLE"

module _ {W F : Type 0} (services : Services W F) where
  unfoldable pub platform_table : PlatformIdentity → Table
  platform_table platform = record {
    title = "Sanitized platform inventory";
    headers = [];
    rows =
        ("Operating system"
          ∷ (platform.operating_system <> " " <> platform.operating_system_version)
          ∷ [])
        ∷ ("Architecture" ∷ platform.architecture ∷ [])
        ∷ ("CPU" ∷ text_or "UNAVAILABLE" platform.cpu_brand ∷ [])
        ∷ ("Processors"
            ∷ (count_or_unavailable services.formats.decimal platform.physical_processor_count
                <> " physical / "
                <> services.formats.decimal (pos platform.logical_processor_count)
                <> " logical")
            ∷ [])
        ∷ ("Memory" ∷ (services.gib_text platform.total_memory_bytes <> " GiB") ∷ [])
        ∷ ("Power plan" ∷ text_or "UNAVAILABLE" platform.power_plan_name ∷ [])
        ∷ ("Native probe" ∷ text_or "UNAVAILABLE" platform.native_probe_version ∷ [])
        ∷ ("Fingerprint" ∷ platform.sanitized_platform_fingerprint ∷ [])
        ∷ [];
  }

  abbrev pub result_row : (ResultStatus → String) → TestResult F → List String
  result_row show r =
      show r.status
      ∷ r.test_id
      ∷ (services.formats.fixed 3 r.duration_seconds <> "s")
      ∷ text_or "" r.failure_reason
      ∷ []

  abbrev pub result_headers : List String
  result_headers = "Status" ∷ "Test ID" ∷ "Duration" ∷ "Reason" ∷ []

  unfoldable pub run_table : RunResult F → Table
  unfolding status_value status_style
  run_table run = record {
    title = "Validation run: " <> status_value run.overall_status;
    headers = result_headers;
    rows = map (result_row (λ s. styled (status_style s) (status_value s))) run.test_results;
  }

  unfoldable pub stored_table : String → RunResult F → Table
  unfolding status_value
  stored_table run_id run = record {
    title = "Run " <> run_id;
    headers = result_headers;
    rows = map (result_row status_value) run.test_results;
  }

  unfoldable pub baselines_table : List BaselineRecord → Table
  baselines_table baselines = record {
    title = "Known-good baselines";
    headers = "Name" ∷ "Source run" ∷ "Plan" ∷ "Created" ∷ [];
    rows =
        map
          (λ (b : BaselineRecord).
            b.name ∷ b.source_run_id ∷ b.plan_name ∷ services.formats.isoformat b.created_at ∷ [])
          baselines;
  }

  unfoldable pub baseline_table : BaselineRecord → Table
  baseline_table b = record {
    title = "Baseline " <> b.name;
    headers = [];
    rows =
        ("Source run" ∷ b.source_run_id ∷ [])
        ∷ ("Plan" ∷ b.plan_name ∷ [])
        ∷ ("Plan hash" ∷ b.plan_hash ∷ [])
        ∷ ("Platform fingerprint" ∷ b.platform_fingerprint ∷ [])
        ∷ ("Created" ∷ services.formats.isoformat b.created_at ∷ [])
        ∷ [];
  }

  abbrev pub difference_text : Option F → String
  difference_text none = "UNAVAILABLE"
  difference_text (some x) = services.signed x <> "%"

  unfoldable pub comparison_table : ComparisonReport F → Table
  unfolding status_value outcome_value
  comparison_table report = record {
    title = "Comparison: " <> status_value report.overall_status;
    headers = "Outcome" ∷ "Test" ∷ "Metric" ∷ "Baseline" ∷ "Current" ∷ "Difference" ∷ [];
    rows =
        map
          (λ (c : MetricComparison F).
            outcome_value c.outcome
            ∷ c.test_id
            ∷ c.metric
            ∷ services.formats.general c.baseline_value
            ∷ services.formats.general c.current_value
            ∷ difference_text c.percent_difference
            ∷ [])
          report.comparisons;
  }

  unfoldable pub summaries_table : List RunSummary → Table
  unfolding status_value
  summaries_table summaries = record {
    title = "Persisted validation runs";
    headers = "Run ID" ∷ "Plan" ∷ "Started" ∷ "Status" ∷ [];
    rows =
        map
          (λ (s : RunSummary).
            s.run_id
            ∷ s.plan_name
            ∷ services.formats.isoformat s.started_at
            ∷ status_value s.overall_status
            ∷ [])
          summaries;
  }
