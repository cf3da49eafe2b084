-- ===== src/Baselines/Service.antt =====
-- The service over the repository (src/platval/baselines/service.py): the lifecycle of baselines
-- and the report on a run. `is_name` stands for the match of `_BASELINE_NAME`.
pub mod Report
use package.text.Mathlib.Text.{find?}
use pc_platform_validation_t.Base.{
  if◌then◌else◌, is_some, any, ◌==◌, nat_eq, string_eq, option_eq, member, value_error, raise_if,
  ◌<◌, String, Bool, true, false, not, ◌&&◌, ◌||◌, some, List, [], ◌∷◌, ◌++◌, Option,
}
use pc_platform_validation_t.Base.Action.{◌>>=◌, ◌>>◌, pure, lift}
use pc_platform_validation_t.Base.Dict.{lookup, keys, values, Dict}
use pc_platform_validation_t.Base.Floats.{Floats, float_lt, float_le, zero_float}
use pc_platform_validation_t.Models.Status.{ResultStatus, pass, fail, warn, error, status_eq}
use pc_platform_validation_t.Models.Results.{Timestamp, TestResult}
use pc_platform_validation_t.Persistence.Records.{StoredRun, BaselineRecord}
use pc_platform_validation_t.Persistence.Database.{select}
use pc_platform_validation_t.Persistence.Repository.{Codec, order_by, Query}
use pc_platform_validation_t.Persistence.Repository.Reads.{get_run}
use pc_platform_validation_t.Persistence.Repository.Baselines.{create_baseline, get_baseline}
use pc_platform_validation_t.Baselines.{
  ComparisonOutcome, key_eq, unavailable, warned, failed, MetricComparison, ComparisonWarning,
  self_comparison, power_plans_differ, platforms_differ, plans_differ, units_differ, no_metrics,
  temperature_unavailable, ComparisonReport, policies, key_leq, Metrics, numeric_metrics, outcome,
  compare_metric, MetricDirection,
}

abbrev pub is_empty : {A : Type 0} → List A → Bool
is_empty [] = true
is_empty (x ∷ xs) = false

-- `outcome is ComparisonOutcome.FAIL`, and `outcome in {WARN, UNAVAILABLE}`
abbrev pub is_failed : ComparisonOutcome → Bool
is_failed failed = true
is_failed _ = false

abbrev pub is_inconclusive : ComparisonOutcome → Bool
is_inconclusive warned = true
is_inconclusive unavailable = true
is_inconclusive _ = false

abbrev pub warn_if : Bool → ComparisonWarning → List ComparisonWarning
warn_if b w = if b then w ∷ [] else []

module _ {F : Type 0} ⦃o : Floats F⦄ where
  -- One iteration of the loop over the keys that both runs have.
  unfoldable pub compare_key :
      F
      → F
      → String × String
      → Option (F × Option String)
      → Option (F × Option String)
      → Option MetricDirection
      → List (MetricComparison F) × List ComparisonWarning
  unfolding compare_metric
  compare_key warning failure key (some (x, unit)) (some (y, other)) (some direction) =
      if unit == other
      then (compare_metric key direction unit x y warning failure ∷ [], [])
      else ([], units_differ key ∷ [])
  compare_key warning failure key _ _ _ = ([], [])

  unfoldable pub compare_metrics :
      F
      → F
      → Metrics F
      → Metrics F
      → List (String × String)
      → List (MetricComparison F) × List ComparisonWarning
  unfolding compare_key
  compare_metrics warning failure before after [] = ([], [])
  compare_metrics warning failure before after (key ∷ ks) =
      let (first, first_warnings) =
        compare_key warning failure key (lookup key before) (lookup key after)
          (lookup key.1 policies) in
      let (rest, warnings) = compare_metrics warning failure before after ks in
      (first ++ rest, first_warnings ++ warnings)

  abbrev pub shared_keys : Metrics F → Metrics F → List (String × String)
  shared_keys before after = order_by key_leq (select (λ k. is_some (lookup k after)) (keys before))

  abbrev pub comparisons_of :
      F
      → F
      → List (TestResult F)
      → List (TestResult F)
      → List (MetricComparison F) × List ComparisonWarning
  comparisons_of warning failure source current =
      let before = numeric_metrics [] source in
      let after = numeric_metrics [] current in
      let (comparisons, warnings) =
        compare_metrics warning failure before after (shared_keys before after) in
      (comparisons, warnings ++ (if is_empty comparisons then no_metrics ∷ [] else []))

module _ {F : Type 0} where
  abbrev has_outcome : (ComparisonOutcome → Bool) → List (MetricComparison F) → Bool
  has_outcome p = any (λ (c : MetricComparison F). p c.outcome)

  unfoldable pub overall :
      ResultStatus → Bool → List (MetricComparison F) → List ComparisonWarning → ResultStatus
  overall status comparable comparisons warnings =
      if status == error
      then error
      else if status == fail
      then fail
      else if not comparable
      then warn
      else if has_outcome is_failed comparisons
      then fail
      else if status == warn || not (is_empty warnings) || has_outcome is_inconclusive comparisons
      then warn
      else pass

module _ {F : Type 0} ⦃o : Floats F⦄ (lower : String → String) where
  unfoldable pub report :
      BaselineRecord → StoredRun F → StoredRun F → String → F → F → ComparisonReport F
  unfolding overall
  report baseline source current run_id warning failure =
      let run = current.execution.run in
      let same_platform = baseline.platform_fingerprint == run.platform_fingerprint in
      let same_plan = baseline.plan_hash == run.plan_hash in
      let (comparisons, metric_warnings) =
        if same_platform && same_plan
        then comparisons_of warning failure source.execution.run.test_results run.test_results
        else ([], []) in
      let warnings =
        warn_if (baseline.source_run_id == run_id) self_comparison
        ++ warn_if
            (not (
              source.execution.platform.power_plan_name
              == current.execution.platform.power_plan_name))
            power_plans_differ
        ++ warn_if (not same_platform) platforms_differ
        ++ warn_if (not same_plan) plans_differ
        ++ metric_warnings
        ++ warn_if (any (λ item. is_some (find? (lower item) "temperature")) run.limitations)
            temperature_unavailable in
      record {
        baseline = baseline;
        run_id = run_id;
        platform_compatible = same_platform;
        plan_compatible = same_plan;
        overall_status =
            overall run.overall_status (same_platform && same_plan) comparisons warnings;
        warning_threshold_percent = warning;
        failure_threshold_percent = failure;
        comparisons = comparisons;
        warnings = warnings;
      }

  abbrev bad_thresholds : F → F → Bool
  bad_thresholds warning failure =
      not (o.is_finite warning)
      || not (o.is_finite failure)
      || float_lt warning zero_float
      || float_le failure warning

  unfoldable pub compare_run :
      {J : Type 0} → Codec J F → String → String → F → F → Query J F (ComparisonReport F)
  unfolding report
  compare_run codec baseline_name run_id warning failure = do
    lift (
        raise_if (bad_thresholds warning failure) value_error
          "thresholds require finite values with 0 <= warning < failure")
    baseline ← get_baseline baseline_name
    source ← get_run codec baseline.source_run_id
    current ← get_run codec run_id
    pure (report baseline source current run_id warning failure)

module _ {J F : Type 0} (codec : Codec J F) (is_name : String → Bool) where
  unfoldable pub register_baseline : Timestamp → String → String → Query J F BaselineRecord
  register_baseline now name source_run_id = do
    lift (raise_if (not (is_name name)) value_error "baseline name is malformed")
    stored ← get_run codec source_run_id
    lift (
        raise_if (member stored.execution.run.overall_status (fail ∷ error ∷ [])) value_error
          "a failed or errored run cannot be registered as known-good")
    create_baseline now name source_run_id
