-- ===== src/Baselines.antt =====
-- Regression analysis against a baseline (src/platval/baselines/models.py, service.py). The
-- report is a function of what the repository returns; `lower` stands for `str.lower`.
pub mod Service
pub mod Outcome
use pc_platform_validation_t.Base.{
  if◌then◌else◌, is_some, Eq, ◌==◌, ==_iff, nat_eq, string_eq, option_eq, String, ◌≡◌, ◌↔◌, Bool,
  true, not, ◌&&◌, Option, none, some, List, [], ◌∷◌, arith,
}
use pc_platform_validation_t.Base.Dict.{Dict, lookup, insert, keys, values}
use pc_platform_validation_t.Base.Floats.{
  int, float, Floats, float_le, float_eq, zero_float, hundred_float,
}
use pc_platform_validation_t.Models.Scalar.{Scalar, bool, integer, real, one}
use pc_platform_validation_t.Models.Status.{ResultStatus, status_eq}
use pc_platform_validation_t.Models.Results.{MetricValue, TestResult}
use pc_platform_validation_t.Persistence.Records.{BaselineRecord}
use pc_platform_validation_t.Persistence.Repository.{text_leb}

pub data MetricDirection : Type 0 where
  higher_is_better lower_is_better : MetricDirection

-- `WARN` and `FAIL` are spelled apart from the states of a run.
pub data ComparisonOutcome : Type 0 where
  improved unchanged warned failed unavailable : ComparisonOutcome

pub record MetricComparison (F : Type 0) : Type 0 where
  pub test_id : String
  pub metric : String
  pub unit : Option String
  pub direction : MetricDirection
  pub baseline_value : F
  pub current_value : F
  pub absolute_difference : F
  pub percent_difference : Option F
  pub warning_threshold_percent : F
  pub failure_threshold_percent : F
  pub outcome : ComparisonOutcome

pub data ComparisonWarning : Type 0 where
  self_comparison power_plans_differ platforms_differ plans_differ : ComparisonWarning
  units_differ : String × String → ComparisonWarning
  no_metrics temperature_unavailable : ComparisonWarning

pub record ComparisonReport (F : Type 0) : Type 0 where
  pub baseline : BaselineRecord
  pub run_id : String
  pub platform_compatible : Bool
  pub plan_compatible : Bool
  pub overall_status : ResultStatus
  pub warning_threshold_percent : F
  pub failure_threshold_percent : F
  pub comparisons : List (MetricComparison F)
  pub warnings : List ComparisonWarning

abbrev pub policies : Dict String MetricDirection
policies =
    ("absolute_error", lower_is_better)
    ∷ ("measured_duration", lower_is_better)
    ∷ ("median_absolute_deviation", lower_is_better)
    ∷ ("median_duration", lower_is_better)
    ∷ ("operations_per_second", higher_is_better)
    ∷ ("read_throughput", higher_is_better)
    ∷ ("robust_variability", lower_is_better)
    ∷ ("throughput", higher_is_better)
    ∷ ("write_throughput", higher_is_better)
    ∷ []

-- The pairs of texts as keys.
unfoldable pub key_beq : String × String → String × String → Bool
key_beq (a, b) (c, d) = a == c && b == d

unfoldable pub key_leq : String × String → String × String → Bool
key_leq (a, b) (c, d) = if a == c then text_leb b d else text_leb a c

pub key_beq_iff : (k j : String × String) → (key_beq k j ≡ true) ↔ (k ≡ j)
unfolding key_beq
key_beq_iff (a, b) (c, d) = ground (arith, ==_iff a c, ==_iff b d)

instance abbrev pub key_eq : Eq (String × String)
key_eq = record { same = key_beq; same_iff = key_beq_iff }

abbrev pub Metrics : Type 0 → Type 0
Metrics F = Dict (String × String) (F × Option String)

module _ {F : Type 0} ⦃o : Floats F⦄ where
  -- `float(value)` of an int or a float that is not a bool
  abbrev pub number_of : Scalar F → Option F
  number_of (integer n) = some (o.of_int n)
  number_of (real x) = some x
  number_of _ = none

  -- The values of one test that have a policy, added to the metrics of the tests before.
  unfoldable pub add_metrics : String → Dict String (MetricValue F) → Metrics F → Metrics F
  add_metrics test_id [] metrics = metrics
  add_metrics test_id ((name, m) ∷ ms) metrics = add_metrics test_id ms (elim (number_of m.value) [
    | none ↦ metrics
    | some x ↦
        if is_some (lookup name policies)
        then insert (test_id, name) (x, m.unit) metrics
        else metrics
  ])

  unfoldable pub numeric_metrics : Metrics F → List (TestResult F) → Metrics F
  numeric_metrics metrics [] = metrics
  numeric_metrics metrics (r ∷ rs) =
      numeric_metrics (add_metrics r.test_id r.measured_values metrics) rs

  abbrev pub adverse_change : MetricDirection → F → F
  adverse_change higher_is_better percent = o.neg percent
  adverse_change lower_is_better percent = percent

  unfoldable pub classify : F → F → F → ComparisonOutcome
  classify adverse warning failure =
      if float_eq adverse zero_float
      then unchanged
      else if float_le failure adverse
      then failed
      else if float_le warning adverse
      then warned
      else if float_le adverse (o.neg warning)
      then improved
      else unchanged

  unfoldable pub percent_difference : F → F → F
  percent_difference baseline current =
      o.mul (o.div (o.sub current baseline) (o.abs baseline)) hundred_float

  unfoldable pub outcome : F → F → MetricDirection → F → F → Option F × ComparisonOutcome
  outcome baseline current direction warning failure =
      if float_eq baseline zero_float
      then (none, if float_eq current zero_float then unchanged else unavailable)
      else let percent = percent_difference baseline current in
        (some percent, classify (adverse_change direction percent) warning failure)

  unfoldable pub compare_metric :
      String × String → MetricDirection → Option String → F → F → F → F → MetricComparison F
  unfolding outcome
  compare_metric (test_id, metric) direction unit baseline current warning failure =
      let (percent, result) = outcome baseline current direction warning failure in
      record {
        test_id = test_id;
        metric = metric;
        unit = unit;
        direction = direction;
        baseline_value = baseline;
        current_value = current;
        absolute_difference = o.sub current baseline;
        percent_difference = percent;
        warning_threshold_percent = warning;
        failure_threshold_percent = failure;
        outcome = result;
      }
