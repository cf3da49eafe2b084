-- ===== src/Reporting/View.antt =====
-- The view of a report, derived from the stored evidence (src/platval/reporting/view.py).
pub mod Platform
pub mod Telemetry
pub mod Chart
pub mod Build
use pc_platform_validation_t.Base.{
  if◌then◌else◌, nat_eq, string_eq, option_eq, ℕ, String, ◌<>◌, Bool, true, false, Option, List, [],
  ◌∷◌, ◌>>=◌, ◌>>◌,
}
use pc_platform_validation_t.Base.Int.{ℤ}
use pc_platform_validation_t.Models.Scalar.{
  Scalar, null, bool, integer, real, text, ExpectedValue, one, many,
}
use pc_platform_validation_t.Models.Status.{ResultStatus, status_eq}
use pc_platform_validation_t.Models.Results.{Timestamp, Explanation}
use pc_platform_validation_t.Models.Plan.{RequirementOperator}
use pc_platform_validation_t.Base.Dict.{Dict}

pub data ValueClass : Type 0 where
  measured configured derived unavailable simulated : ValueClass

pub record ReportValue : Type 0 where
  pub name : String
  pub display_value : String
  pub unit : Option String
  pub classification : ValueClass
  pub source : Option String

-- With the explanation by its parts.
pub record ReportRequirement (F : Type 0) : Type 0 where
  pub metric : String
  pub operator : RequirementOperator
  pub expected : String
  pub actual : String
  pub unit : Option String
  pub passed : Bool
  pub explanation : Explanation F
  pub expected_classification : ValueClass
  pub actual_classification : ValueClass

pub record ReportTest (F : Type 0) : Type 0 where
  pub test_id : String
  pub status : ResultStatus
  pub duration_seconds : F
  pub failure_reason : Option String
  pub exception_summary : Option String
  pub injected : Bool
  pub metrics : List ReportValue
  pub requirements : List (ReportRequirement F)
  pub telemetry_values : List ReportValue
  pub unavailable_telemetry : List String
  pub telemetry_chart_svg : Option String
  pub evidence_references : List String

pub record ReportView (F : Type 0) : Type 0 where
  pub run_id : String
  pub plan_name : String
  pub plan_hash : String
  pub tool_version : String
  pub started_at : String
  pub ended_at : String
  pub overall_status : ResultStatus
  pub result_counts : Dict ResultStatus ℕ
  pub platform_values : List ReportValue
  pub tests : List (ReportTest F)
  pub warnings : List String
  pub limitations : List String
  pub contains_simulated_data : Bool

-- What the view calls of Python's library: `str` of an int, `format` of a float with `.8g` and
-- `.nf`, `isoformat`, `html.escape` and `statistics.fmean`.
pub record Formats (F : Type 0) : Type 0 where
  pub decimal : ℤ → String
  pub general : F → String
  pub fixed : ℕ → F → String
  pub isoformat : Timestamp → String
  pub escape : String → String
  pub mean : List F → F

module _ {F : Type 0} (formats : Formats F) where
  -- `_display` of a scalar and of a list of them.
  unfoldable pub display : Scalar F → String
  display null = "UNAVAILABLE"
  display (bool true) = "true"
  display (bool false) = "false"
  display (real x) = formats.general x
  display (integer n) = formats.decimal n
  display (text s) = s

  abbrev pub comma_separated : List (Scalar F) → String
  comma_separated [] = ""
  comma_separated (x ∷ []) = display x
  comma_separated (x ∷ (y ∷ xs)) = display x <> ", " <> comma_separated (y ∷ xs)

  unfoldable pub display_expected : ExpectedValue F → String
  unfolding display
  display_expected (one x) = display x
  display_expected (many xs) = "[" <> comma_separated xs <> "]"

unfoldable pub derived_metrics : List String
derived_metrics =
    "absolute_error" ∷ "median_absolute_deviation" ∷ "median_duration" ∷ "operations_per_second"
    ∷ "read_throughput" ∷ "robust_variability" ∷ "throughput" ∷ "write_throughput" ∷ []
