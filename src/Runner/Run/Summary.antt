-- ===== src/Runner/Run/Summary.antt =====
-- What the summary of a run says of its results (src/platval/runner/engine.py).
use mathlib.Core.List.{append-nil}
use pc_platform_validation_t.Base.{
  any, nat_eq, string_eq, option_eq, String, ◌≡◌, sym, ap, ◌∙◌, true, false, List, [], ◌∷◌, ◌++◌,
}
use pc_platform_validation_t.Models.Status.{ResultStatus, status_eq}
use pc_platform_validation_t.Models.Results.{
  TestResult, RunResult, aggregate_status, counter, statuses,
}
use pc_platform_validation_t.Models.Results.Aggregate.{
  worst, aggregate_status-eq-worst, count, lookup_or-counter,
}
use pc_platform_validation_t.Base.Dict.{lookup_or}
use pc_platform_validation_t.Runner.Run.{injected_warning, run_warnings}

module _ {F : Type 0} where
  run_warnings-injected :
      (limitations : List String) (results : List (TestResult F))
      → any (λ (r : TestResult F). r.injected) results ≡ true
      → run_warnings limitations results ≡ limitations ++ injected_warning ∷ []
  run_warnings-injected limitations results h = rw h

  run_warnings-genuine :
      (limitations : List String) (results : List (TestResult F))
      → any (λ (r : TestResult F). r.injected) results ≡ false
      → run_warnings limitations results ≡ limitations
  run_warnings-genuine limitations results h = rw h (append-nil limitations)

  -- The summary of a run agrees with its results. The warnings are the limitations, and after them
  -- that of synthetic evidence where a result is injected.
  pub record IsSummary (run : RunResult F) : Type 0 where
    pub overall : run.overall_status ≡ worst (statuses run.test_results)
    pub counts :
        (s : ResultStatus) → lookup_or s 0 run.result_counts ≡ count s (statuses run.test_results)
    pub synthetic :
        any (λ (r : TestResult F). r.injected) run.test_results ≡ true
        → run.warnings ≡ run.limitations ++ injected_warning ∷ []
    pub genuine :
        any (λ (r : TestResult F). r.injected) run.test_results ≡ false
        → run.warnings ≡ run.limitations

  pub results-IsSummary :
      (run : RunResult F) (results : List (TestResult F))
      → run.test_results ≡ results
      → run.overall_status ≡ aggregate_status (statuses results)
      → run.result_counts ≡ counter (statuses results)
      → run.warnings ≡ run_warnings run.limitations results
      → IsSummary run
  results-IsSummary run results same overall counts warnings = record {
    overall = overall ∙ aggregate_status-eq-worst _ ∙ ap (λ rs. worst (statuses rs)) (sym same);
    counts = λ s.
        ap (lookup_or s 0) counts
        ∙ lookup_or-counter s (statuses results)
        ∙ ap (λ rs. count s (statuses rs)) (sym same);
    synthetic = λ injected.
        warnings
        ∙ ap (run_warnings run.limitations) (sym same)
        ∙ run_warnings-injected run.limitations run.test_results injected;
    genuine = λ genuine.
        warnings
        ∙ ap (run_warnings run.limitations) (sym same)
        ∙ run_warnings-genuine run.limitations run.test_results genuine;
  }
