-- ===== src/Models/Results.antt =====
-- Test and run results with their validators (src/platval/models/results.py, telemetry.py).
pub mod Aggregate
use pc_platform_validation_t.Base.{
  ltb, if◌then◌else◌, ◌==◌, nat_eq, string_eq, option_eq, member, value_error, Result, ok, ◌>>=◌,
  ◌>>◌, raise_if, ℕ, ◌+◌, String, Bool, not, Option, List, [], ◌∷◌, map,
}
use pc_platform_validation_t.Base.Dict.{Dict, insert, lookup_or, dict_beq}
use pc_platform_validation_t.Models.Status.{ResultStatus, pass, fail, warn, skip, error, status_eq}
use pc_platform_validation_t.Models.Scalar.{Scalar, text, ExpectedValue}
use pc_platform_validation_t.Models.Plan.{RequirementOperator, telemetry}

-- A `datetime`: its instant in microseconds, and whether it carries a UTC offset.
pub record Timestamp : Type 0 where
  pub instant : ℕ
  pub has_offset : Bool

pub record MetricValue (F : Type 0) : Type 0 where
  pub value : Scalar F
  pub unit : Option String
  pub source : String

-- The text of an evaluation's explanation, by its parts.
pub data Explanation (F : Type 0) : Type 0 where
  unavailable : String → Explanation F
  satisfied : Scalar F → RequirementOperator → ExpectedValue F → Explanation F
  not_satisfied : Scalar F → RequirementOperator → ExpectedValue F → Explanation F

pub record RequirementEvaluation (F : Type 0) : Type 0 where
  pub metric : String
  pub operator : RequirementOperator
  pub expected : ExpectedValue F
  pub actual : Scalar F
  pub unit : Option String
  pub passed : Bool
  pub explanation : Explanation F

pub record TelemetrySummary : Type 0 where
  pub sample_count : ℕ
  pub available_metrics : List String
  pub unavailable_metrics : List String
  pub collector_error_count : ℕ

pub record TestResult (F : Type 0) : Type 0 where
  pub test_id : String
  pub started_at : Timestamp
  pub ended_at : Timestamp
  pub duration_seconds : F
  pub status : ResultStatus
  pub measured_values : Dict String (MetricValue F)
  pub requirements : List (RequirementEvaluation F)
  pub failure_reason : Option String
  pub evidence_references : List String
  pub exception_summary : Option String
  pub telemetry_summary : Option TelemetrySummary
  pub injected : Bool

pub record RunResult (F : Type 0) : Type 0 where
  pub run_id : String
  pub plan_name : String
  pub plan_hash : String
  pub tool_version : String
  pub platform_fingerprint : String
  pub started_at : Timestamp
  pub ended_at : Timestamp
  pub overall_status : ResultStatus
  pub result_counts : Dict ResultStatus ℕ
  pub test_results : List (TestResult F)
  pub warnings : List String
  pub limitations : List String

unfoldable pub aggregate_status : List ResultStatus → ResultStatus
aggregate_status statuses =
    if member error statuses
    then error
    else if member fail statuses
    then fail
    else if member warn statuses
    then warn
    else if member pass statuses
    then pass
    else skip

-- `dict(Counter(statuses))`
unfoldable pub count_into : Dict ResultStatus ℕ → List ResultStatus → Dict ResultStatus ℕ
count_into counts [] = counts
count_into counts (s ∷ ss) = count_into (insert s (lookup_or s 0 counts + 1) counts) ss

abbrev pub counter : List ResultStatus → Dict ResultStatus ℕ
counter = count_into []

-- `{status: count for status, count in counts.items() if count}`
unfoldable pub nonzero : Dict ResultStatus ℕ → Dict ResultStatus ℕ
nonzero [] = []
nonzero ((s, n) ∷ counts) = let rest = nonzero counts in if n == 0 then rest else (s, n) ∷ rest

unfoldable pub require_aware_timestamp : Timestamp → Result Timestamp
require_aware_timestamp t = do
  raise_if (not t.has_offset) value_error "timestamp must include a UTC offset"
  ok t

module _ {F : Type 0} where
  abbrev pub statuses : List (TestResult F) → List ResultStatus
  statuses = map (λ (r : TestResult F). r.status)

  unfoldable pub end_follows_start : TestResult F → Result (TestResult F)
  end_follows_start r = do
    raise_if (ltb r.ended_at.instant r.started_at.instant) value_error
        "ended_at must not precede started_at"
    ok r

  -- `TestResult(...)`: the validators of the timestamps, then the model's. The bounds of the
  -- other fields are left out.
  unfoldable pub make_test_result : TestResult F → Result (TestResult F)
  unfolding require_aware_timestamp end_follows_start
  make_test_result r = do
    _ ← require_aware_timestamp r.started_at
    _ ← require_aware_timestamp r.ended_at
    end_follows_start r

  unfoldable pub summary_matches_results : RunResult F → Result (RunResult F)
  summary_matches_results run = do
    raise_if (ltb run.ended_at.instant run.started_at.instant) value_error
        "ended_at must not precede started_at"
    raise_if (not (run.overall_status == aggregate_status (statuses run.test_results))) value_error
        "overall_status does not match test result statuses"
    raise_if (not (dict_beq (nonzero run.result_counts) (counter (statuses run.test_results))))
        value_error "result_counts does not match test results"
    ok run

  -- `RunResult(...)`, in the same way. The manifest of artifacts is empty here.
  unfoldable pub make_run_result : RunResult F → Result (RunResult F)
  unfolding require_aware_timestamp summary_matches_results
  make_run_result run = do
    _ ← require_aware_timestamp run.started_at
    _ ← require_aware_timestamp run.ended_at
    summary_matches_results run
