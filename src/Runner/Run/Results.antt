-- ===== src/Runner/Run/Results.antt =====
-- What a completed run holds.
use mathlib.Core.Path.{subst}
use pc_platform_validation_t.Base.{
  nat_eq, string_eq, option_eq, workload_cancelled, ok, raise_if, String, ◌≡◌, List, [], ◌∷◌, arith,
  All, Result, sym, ◌∙◌, ◌⊎◌, inl, inr, true, false, Option,
}
use pc_platform_validation_t.Base.Action.{◌>>=◌, pure, lift, >>=-eq-ok, pure-eq-ok}
use pc_platform_validation_t.Base.Floats.{Floats}
use pc_platform_validation_t.Models.Plan.{TestDefinition, TestPlan}
use pc_platform_validation_t.Models.Results.{TestResult, aggregate_status, counter, statuses}
use pc_platform_validation_t.Models.Telemetry.{TelemetrySample}
use pc_platform_validation_t.Inventory.{InventorySnapshot}
use pc_platform_validation_t.Workloads.Safety.{SafetyPolicy}
use pc_platform_validation_t.Runner.Machine.{Machine}
use pc_platform_validation_t.Runner.Test.{run_test}
use pc_platform_validation_t.Runner.Test.Outcome.{IsOutcome, run_test-IsOutcome}
use pc_platform_validation_t.Runner.Run.{
  run_tests, RunExecution, Preparation, results_of, run_warnings, finish_run, prepare_run,
  run_validation_plan,
}
use pc_platform_validation_t.Models.Status.{status_eq, pass, skip}
use pc_platform_validation_t.Models.Results.Aggregate.{worst-pass}
use pc_platform_validation_t.Runner.Parameters.{case_policy}
use pc_platform_validation_t.Runner.Cases.{CaseExecution}
use pc_platform_validation_t.Runner.Execute.{execute_case}
use pc_platform_validation_t.Runner.Test.Verdicts.{
  HasPassed, judge-pass_iff, HasSkipped, judge-skip,
}
use pc_platform_validation_t.Runner.Run.Summary.{IsSummary, results-IsSummary}

module _ {F W : Type 0} ⦃o : Floats F⦄ (machine : Machine F W) (snapshot : InventorySnapshot)
    (selected_storage temporary_root : String) (interval : F) (policy : SafetyPolicy F) where
  -- One outcome for each test, in order.
  abbrev pub AreOutcomes :
      List (TestDefinition F) → List (TestResult F × List (TelemetrySample F)) → Type 0
  AreOutcomes [] [] = Unit
  AreOutcomes (t ∷ ts) (x ∷ xs) =
      IsOutcome machine snapshot selected_storage temporary_root interval policy t x
      × AreOutcomes ts xs
  AreOutcomes _ _ = ⊥

  run_tests-AreOutcomes :
      (tests : List (TestDefinition F)) (w : W)
      {xs : List (TestResult F × List (TelemetrySample F))} {w' : W}
      → run_tests machine snapshot selected_storage temporary_root interval policy tests w
        ≡ (ok xs, w')
      → AreOutcomes tests xs
  unfolding run_tests
  run_tests-AreOutcomes [] w h = subst (AreOutcomes []) (pure-eq-ok [] w h) tt
  run_tests-AreOutcomes (t ∷ ts) w h =
      let rest = run_tests machine snapshot selected_storage temporary_root interval policy ts in
      let run = run_test machine t snapshot selected_storage temporary_root interval policy in
      let collect = λ (x : TestResult F × List (TelemetrySample F)). rest >>= λ ys. pure (x ∷ ys) in
      let (stop, w₀) = machine.run_cancelled w in
      let check = raise_if stop workload_cancelled "validation run cancellation was requested" in
      let (_, w₁, _, h₁) = >>=-eq-ok (lift check) (λ _. run >>= collect) w₀ h in
      let (x, w₂, e, h₂) = >>=-eq-ok run collect w₁ h₁ in
      let (ys, w₃, f, h₃) = >>=-eq-ok rest (λ ys. pure (x ∷ ys)) w₂ h₂ in
      subst (AreOutcomes (t ∷ ts)) (pure-eq-ok (x ∷ ys) w₃ h₃) (
        run_test-IsOutcome machine snapshot selected_storage temporary_root interval policy t w₁ e,
        run_tests-AreOutcomes ts w₂ f,
      )

module _ {F W : Type 0} ⦃o : Floats F⦄ (machine : Machine F W) where
  finish_run-eq :
      (hash : TestPlan F → String) (plan : TestPlan F) (p : Preparation F)
      (xs : List (TestResult F × List (TelemetrySample F))) (w : W) {e : RunExecution F} {w' : W}
      → finish_run machine hash plan p xs w ≡ (ok e, w')
      → (e.run.test_results ≡ results_of xs)
        × (e.run.overall_status ≡ aggregate_status (statuses (results_of xs)))
        × (e.run.result_counts ≡ counter (statuses (results_of xs)))
        × (e.run.warnings ≡ run_warnings e.run.limitations (results_of xs))
        × (e.run.plan_hash ≡ hash plan)
  unfolding finish_run
  finish_run-eq hash plan p xs w h = ground arith

  module _ (hash : TestPlan F → String) (plan : TestPlan F) where
    -- The results of a run: one for each test of the plan, in order, each that of an execution of
    -- the test, and a summary that agrees with them.
    abbrev pub IsRunOf : RunExecution F → Type 0
    IsRunOf e =
        (p : Preparation F) × (xs : List (TestResult F × List (TelemetrySample F))) × AreOutcomes
          machine p.snapshot p.selected_storage p.temporary_root plan.sampling_interval_seconds
          p.detected_policy plan.tests xs
        × (e.run.test_results ≡ results_of xs)
        × (e.run.plan_hash ≡ hash plan)
        × IsSummary e.run

    -- A run that returns holds one result for each test of the plan, in the order of the plan: a
    -- SKIP for a disabled test, else what the execution of the test's case was judged to be. Its
    -- overall status is the worst of theirs, its counts count them, its hash is the plan's, and its
    -- warnings are its limitations, followed by that of synthetic evidence exactly when a result is
    -- injected.
    pub run_validation_plan-IsRunOf :
        (runtime_directory : String) (storage_path probe : Option String) (w : W)
        {e : RunExecution F} {w' : W}
        → run_validation_plan machine hash plan runtime_directory storage_path probe w ≡ (ok e, w')
        → IsRunOf e
    unfolding run_validation_plan
    run_validation_plan-IsRunOf runtime_directory storage_path probe w {e} h =
        let prepare = prepare_run machine runtime_directory storage_path probe in
        let test = λ (p : Preparation F).
          run_tests machine p.snapshot p.selected_storage p.temporary_root
            plan.sampling_interval_seconds p.detected_policy plan.tests in
        let (p, w₁, _, h₁) =
          >>=-eq-ok prepare (λ p. test p >>= finish_run machine hash plan p) w h in
        let (xs, w₂, f, h₂) = >>=-eq-ok (test p) (finish_run machine hash plan p) w₁ h₁ in
        let (same, overall, counts, warnings, hashed) = finish_run-eq hash plan p xs w₂ h₂ in
        (
          p,
          xs,
          run_tests-AreOutcomes machine p.snapshot p.selected_storage p.temporary_root
              plan.sampling_interval_seconds p.detected_policy plan.tests w₁ f,
          same,
          hashed,
          results-IsSummary e.run (results_of xs) same overall counts warnings,
        )

  module _ (snapshot : InventorySnapshot) (selected_storage temporary_root : String) (interval : F)
      (policy : SafetyPolicy F) where
    -- A disabled test is a SKIP. An enabled one was executed: its case has passed, or it returned
    -- with the hint SKIP and the result is a SKIP.
    abbrev pub Passed : TestDefinition F → TestResult F → Type 0
    Passed t r =
        ((t.enabled ≡ false) × (r.status ≡ skip))
        ⊎ ((t.enabled ≡ true)
            × ((w₁ : W) × (w₂ : W) × (outcome : Result (CaseExecution F)) × (execute_case machine t
                    snapshot temporary_root (case_policy t policy) w₁
                  ≡ (outcome, w₂))
                × (((r.status ≡ pass) × HasPassed t outcome)
                    ⊎ ((r.status ≡ skip) × HasSkipped outcome))))

    IsOutcome-Passed :
        (t : TestDefinition F) (x : TestResult F × List (TelemetrySample F))
        → IsOutcome machine snapshot selected_storage temporary_root interval policy t x
        → (x.0.status ≡ pass) ⊎ (x.0.status ≡ skip)
        → Passed t x.0
    IsOutcome-Passed t x (inr (disabled, skipped)) s = inl (disabled, skipped.1)
    IsOutcome-Passed t x (inl (enabled, (w₁, w₂, outcome, v, run, judged, result))) s = inr (
      enabled,
      (
        w₁,
        w₂,
        outcome,
        run,
        elim s [
          | inl p ↦ inl (p, (judge-pass_iff t outcome v judged).0 (sym (result.1) ∙ p))
          | inr k ↦ inr (k, judge-skip t outcome v judged (sym (result.1) ∙ k))
        ],
      ),
    )

    abbrev pub AllPassed : List (TestDefinition F) → List (TestResult F) → Type 0
    AllPassed [] [] = Unit
    AllPassed (t ∷ ts) (r ∷ rs) = Passed t r × AllPassed ts rs
    AllPassed _ _ = ⊥

    AreOutcomes-AllPassed :
        (ts : List (TestDefinition F)) (xs : List (TestResult F × List (TelemetrySample F)))
        → AreOutcomes machine snapshot selected_storage temporary_root interval policy ts xs
        → All (λ s. (s ≡ pass) ⊎ (s ≡ skip)) (statuses (results_of xs))
        → AllPassed ts (results_of xs)
    AreOutcomes-AllPassed [] [] h mild = tt
    AreOutcomes-AllPassed [] (x ∷ xs) h mild = elim h [ ]
    AreOutcomes-AllPassed (t ∷ ts) [] h mild = elim h [ ]
    AreOutcomes-AllPassed (t ∷ ts) (x ∷ xs) (h, hs) (m, ms) =
        (IsOutcome-Passed t x h m, AreOutcomes-AllPassed ts xs hs ms)

  -- If a run that returns is a PASS, it has one result for each test of its plan, in order: a
  -- SKIP for a disabled test. The case of each enabled test was executed, and it returned either
  -- with the hint SKIP, and then the result is a SKIP, or with the hint PASS, a correct workload
  -- and measurements that meet each of the test's requirements, and then the result is a PASS.
  pub run_validation_plan-pass :
      (hash : TestPlan F → String) (plan : TestPlan F) (runtime_directory : String)
      (storage_path probe : Option String) (w : W) {e : RunExecution F} {w' : W}
      → run_validation_plan machine hash plan runtime_directory storage_path probe w ≡ (ok e, w')
      → e.run.overall_status ≡ pass
      → (p : Preparation F) × AllPassed p.snapshot p.selected_storage p.temporary_root
          plan.sampling_interval_seconds p.detected_policy plan.tests e.run.test_results
  run_validation_plan-pass hash plan runtime_directory storage_path probe w {e} h passed =
      let (p, xs, outcomes, same, hashed, summary) =
        run_validation_plan-IsRunOf hash plan runtime_directory storage_path probe w h in
      let mild = worst-pass (statuses e.run.test_results) (sym summary.overall ∙ passed) in
      (
        p,
        subst
            (AllPassed p.snapshot p.selected_storage p.temporary_root plan.sampling_interval_seconds
              p.detected_policy plan.tests)
            (sym same)
            (AreOutcomes-AllPassed p.snapshot p.selected_storage p.temporary_root
              plan.sampling_interval_seconds p.detected_policy plan.tests xs outcomes
              (subst (λ rs. All (λ s. (s ≡ pass) ⊎ (s ≡ skip)) (statuses rs)) same mild)),
      )
