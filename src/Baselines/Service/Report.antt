-- ===== src/Baselines/Service/Report.antt =====
-- What the overall state of a comparison report says (src/platval/baselines/service.py).
use package.text.Mathlib.Text.{find?}
use pc_platform_validation_t.Base.{
  any, nat_eq, string_eq, option_eq, All, ◌≡◌, ◌⊎◌, Bool, true, false, List, [], ◌∷◌, arith,
  if◌then◌else◌, ==_iff, String, refl, ◌↔◌, not, ◌++◌, ◌==◌, ◌&&◌, is_some,
}
use pc_platform_validation_t.Models.Status.{ResultStatus, pass, skip, status_eq, fail}
use pc_platform_validation_t.Baselines.{
  improved, unchanged, MetricComparison, ComparisonWarning, no_metrics, numeric_metrics,
  self_comparison, power_plans_differ, platforms_differ, plans_differ, temperature_unavailable,
}
use pc_platform_validation_t.Baselines.Service.{
  is_failed, is_inconclusive, overall, compare_metrics, report, is_empty, warn_if, shared_keys,
  comparisons_of,
}
use pc_platform_validation_t.Models.Results.{TestResult}
use pc_platform_validation_t.Persistence.Records.{StoredRun, BaselineRecord}
use pc_platform_validation_t.Base.Floats.{Floats}

pub any-All :
    {A : Type 0} (p : A → Bool) (xs : List A) → any p xs ≡ false → All (λ x. p x ≡ false) xs
any-All p [] h = tt
any-All p (x ∷ xs) h = (ground arith, any-All p xs (ground arith))

module _ {F : Type 0} where
  -- The outcomes that a passing report may have.
  abbrev pub IsAcceptable : MetricComparison F → Type 0
  IsAcceptable c = (c.outcome ≡ improved) ⊎ (c.outcome ≡ unchanged)

  acceptable :
      (c : MetricComparison F)
      → is_failed c.outcome ≡ false
      → is_inconclusive c.outcome ≡ false
      → IsAcceptable c
  acceptable c h g = ground arith

  All-IsAcceptable :
      (cs : List (MetricComparison F))
      → All (λ c. is_failed c.outcome ≡ false) cs
      → All (λ c. is_inconclusive c.outcome ≡ false) cs
      → All IsAcceptable cs
  All-IsAcceptable [] h g = tt
  All-IsAcceptable (c ∷ cs) h g = (acceptable c h.0 g.0, All-IsAcceptable cs h.1 g.1)

  overall-pass :
      (status : ResultStatus) (comparable : Bool) (cs : List (MetricComparison F))
      (ws : List ComparisonWarning)
      → overall status comparable cs ws ≡ pass
      → ((status ≡ pass) ⊎ (status ≡ skip)) × (comparable ≡ true) × All IsAcceptable cs × (ws ≡ [])
  unfolding overall
  overall-pass status comparable cs ws h = ground (
    arith,
    All-IsAcceptable cs,
    any-All (λ (c : MetricComparison F). is_failed c.outcome) cs,
    any-All (λ (c : MetricComparison F). is_inconclusive c.outcome) cs,
  )

++-empty : {A : Type 0} (xs ys : List A) → xs ++ ys ≡ [] → (xs ≡ []) × (ys ≡ [])
++-empty [] ys h = (refl, h)
++-empty (x ∷ xs) ys h = ground arith

warn_if-empty : (b : Bool) (w : ComparisonWarning) → warn_if b w ≡ [] → b ≡ false
warn_if-empty true w h = ground arith
warn_if-empty false w h = refl

all_warnings-empty :
    (a b c d : Bool) (ws vs : List ComparisonWarning)
    → warn_if a self_comparison
        ++ warn_if b power_plans_differ
        ++ warn_if c platforms_differ
        ++ warn_if d plans_differ
        ++ ws
        ++ vs
      ≡ []
    → (a ≡ false) × (b ≡ false) × (ws ≡ [])
all_warnings-empty a b c d ws vs h =
    let (h₅, _) = ++-empty _ vs h in
    let (h₄, hws) = ++-empty _ ws h₅ in
    let (h₃, _) = ++-empty _ (warn_if d plans_differ) h₄ in
    let (h₂, _) = ++-empty _ (warn_if c platforms_differ) h₃ in
    let (ha, hb) = ++-empty (warn_if a self_comparison) (warn_if b power_plans_differ) h₂ in
    (warn_if-empty a self_comparison ha, warn_if-empty b power_plans_differ hb, hws)

module _ {F : Type 0} ⦃o : Floats F⦄ where
  comparisons_of-empty :
      (warning failure : F) (source current : List (TestResult F))
      → (comparisons_of warning failure source current).1 ≡ []
      → is_empty (comparisons_of warning failure source current).0 ≡ false
  comparisons_of-empty warning failure source current h =
      let before = numeric_metrics [] source in
      let after = numeric_metrics [] current in
      let metrics = compare_metrics warning failure before after (shared_keys before after) in
      ground (arith, ++-empty metrics.1 (if is_empty metrics.0 then no_metrics ∷ [] else []))

module _ {F : Type 0} ⦃o : Floats F⦄ (lower : String → String) where
  -- A report that passes is of a run that passed or was skipped, of another run than the baseline's,
  -- on the platform and under the plan and the power plan of the baseline; it compares at least one
  -- metric, each improved or unchanged, and has no warnings.
  pub report-pass :
      (baseline : BaselineRecord) (source current : StoredRun F) (run_id : String)
      (warning failure : F)
      → (report lower baseline source current run_id warning failure).overall_status ≡ pass
      → let r = report lower baseline source current run_id warning failure in
        let run = current.execution.run in
        ((run.overall_status ≡ pass) ⊎ (run.overall_status ≡ skip))
        × ¬ (baseline.source_run_id ≡ run_id)
        × (baseline.platform_fingerprint ≡ run.platform_fingerprint)
        × (baseline.plan_hash ≡ run.plan_hash)
        × (source.execution.platform.power_plan_name ≡ current.execution.platform.power_plan_name)
        × All IsAcceptable r.comparisons
        × ¬ (r.comparisons ≡ [])
        × (r.warnings ≡ [])
  unfolding report
  report-pass baseline source current run_id warning failure h =
      let r = report lower baseline source current run_id warning failure in
      let run = current.execution.run in
      let same = baseline.platform_fingerprint == run.platform_fingerprint in
      let same_plan = baseline.plan_hash == run.plan_hash in
      let power = source.execution.platform.power_plan_name in
      let power' = current.execution.platform.power_plan_name in
      let passed = overall-pass run.overall_status (same && same_plan) r.comparisons r.warnings h in
      let metrics =
        if same && same_plan
        then comparisons_of warning failure source.execution.run.test_results run.test_results
        else ([], []) in
      let temperature = any (λ item. is_some (find? (lower item) "temperature")) run.limitations in
      let quiet =
        all_warnings-empty (baseline.source_run_id == run_id) (not (power == power')) (not same)
          (not same_plan) metrics.1 (warn_if temperature temperature_unavailable) passed.3 in
      ground (
        arith,
        ==_iff baseline.source_run_id run_id,
        ==_iff power power',
        ==_iff baseline.platform_fingerprint run.platform_fingerprint,
        ==_iff baseline.plan_hash run.plan_hash,
        comparisons_of-empty warning failure source.execution.run.test_results run.test_results,
      )

  -- When the platform or the plan is not the baseline's, the report compares no metric and does not
  -- pass; it fails only for a run that failed itself.
  pub report-withheld :
      (baseline : BaselineRecord) (source current : StoredRun F) (run_id : String)
      (warning failure : F)
      → ¬ (
          (baseline.platform_fingerprint ≡ current.execution.run.platform_fingerprint)
          × (baseline.plan_hash ≡ current.execution.run.plan_hash))
      → let r = report lower baseline source current run_id warning failure in
        (r.comparisons ≡ [])
        × ¬ (r.overall_status ≡ pass)
        × ((r.overall_status ≡ fail) ↔ (current.execution.run.overall_status ≡ fail))
  unfolding report overall
  report-withheld baseline source current run_id warning failure h = ground (
    arith,
    ==_iff baseline.platform_fingerprint current.execution.run.platform_fingerprint,
    ==_iff baseline.plan_hash current.execution.run.plan_hash,
  )
