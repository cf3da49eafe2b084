-- ===== src/Runner/Test/Outcome.antt =====
-- What a run of one test leaves in its result.
use pc_platform_validation_t.Base.{
  is_some, nat_eq, string_eq, option_eq, ok, ◌≤◌, ◌≡◌, List, arith, Result, String, ◌⊎◌, true,
  false, none, some, [], inl, inr,
}
use pc_platform_validation_t.Base.Action.{
  ◌>>=◌, lift, attempt, >>=-eq-ok, attempt-eq-ok, lift-eq-ok, if_cases,
}
use pc_platform_validation_t.Base.Floats.{Floats}
use pc_platform_validation_t.Models.Plan.{TestDefinition}
use pc_platform_validation_t.Models.Results.{Timestamp, TestResult, make_test_result}
use pc_platform_validation_t.Models.Status.{skip}
use pc_platform_validation_t.Models.Telemetry.{TelemetrySample}
use pc_platform_validation_t.Runner.Machine.{Machine}
use pc_platform_validation_t.Runner.Test.{
  Verdict, finish, judge, run_enabled_test, disabled_verdict, run_test, max_samples,
}
use pc_platform_validation_t.Inventory.{InventorySnapshot}
use pc_platform_validation_t.Workloads.Safety.{SafetyPolicy}
use pc_platform_validation_t.Runner.Parameters.{case_policy}
use pc_platform_validation_t.Runner.Cases.{CaseExecution}
use pc_platform_validation_t.Runner.Execute.{execute_case}

module _ {F : Type 0} where
  make_test_result-eq :
      (r r' : TestResult F)
      → make_test_result r ≡ ok r'
      → (r' ≡ r) × (r.started_at.instant ≤ r.ended_at.instant)
  unfolding make_test_result
  make_test_result-eq r r' h = ground arith

  -- The parts of a result that come from the test and its verdict.
  abbrev pub IsResultOf : TestDefinition F → Verdict F → TestResult F → Type 0
  IsResultOf t v r =
      (r.test_id ≡ t.id)
      × (r.status ≡ v.status)
      × (r.measured_values ≡ v.measurements)
      × (r.requirements ≡ v.evaluations)
      × (r.failure_reason ≡ v.reason)
      × (r.exception_summary ≡ v.exception_summary)
      × (r.injected ≡ is_some t.fault_injection)
      × (r.started_at.instant ≤ r.ended_at.instant)

module _ {F W : Type 0} ⦃o : Floats F⦄ (machine : Machine F W) where
  finish-IsResultOf :
      (t : TestDefinition F) (s : Timestamp) (started : F) (v : Verdict F)
      (samples : List (TelemetrySample F)) (w : W) {x : TestResult F × List (TelemetrySample F)}
      {w' : W}
      → finish machine t s started v samples w ≡ (ok x, w')
      → IsResultOf t v x.0 × (x.1 ≡ samples)
  unfolding finish
  finish-IsResultOf t s started v samples w h = ground arith

  module _ (snapshot : InventorySnapshot) (storage_path temporary_root : String) (interval : F)
      (policy : SafetyPolicy F) where
    -- The case of the test was executed in some world and came to the verdict.
    abbrev pub IsExecuted : TestDefinition F → TestResult F → Type 0
    IsExecuted t r =
        (w₁ : W) × (w₂ : W) × (outcome : Result (CaseExecution F)) × (v : Verdict F) × (execute_case
            machine t snapshot temporary_root (case_policy t policy) w₁
          ≡ (outcome, w₂))
        × (judge t outcome ≡ ok v)
        × IsResultOf t v r

    run_enabled_test-IsExecuted :
        (t : TestDefinition F) (s : Timestamp) (started : F) (w : W)
        {x : TestResult F × List (TelemetrySample F)} {w' : W}
        → run_enabled_test machine t snapshot storage_path temporary_root interval policy s started
            w
          ≡ (ok x, w')
        → IsExecuted t x.0
    unfolding run_enabled_test
    run_enabled_test-IsExecuted t s started w h =
        let case = execute_case machine t snapshot temporary_root (case_policy t policy) in
        let conclude = λ (outcome : Result (CaseExecution F)) (samples : List (TelemetrySample F)).
          lift (judge t outcome) >>= λ v. finish machine t s started v samples in
        let stop =
          λ (outcome : Result (CaseExecution F)). machine.sampler_stop >>= conclude outcome in
        let start =
          machine.sampler_start interval storage_path (max_samples t.timeout_seconds interval) in
        let (_, w₁, _, h₁) = >>=-eq-ok start (λ _. attempt case >>= stop) w h in
        let (outcome, w₂, e, h₂) = >>=-eq-ok (attempt case) stop w₁ h₁ in
        let (samples, w₃, _, h₃) = >>=-eq-ok machine.sampler_stop (conclude outcome) w₂ h₂ in
        let (v, w₄, j, h₄) =
          >>=-eq-ok (lift (judge t outcome)) (λ v. finish machine t s started v samples) w₃ h₃ in
        (
          w₁,
          w₂,
          outcome,
          v,
          attempt-eq-ok case w₁ e,
          lift-eq-ok (judge t outcome) w₃ j,
          (finish-IsResultOf t s started v samples w₄ h₄).0,
        )

    -- A SKIP with no measurements, no evaluations, no exception and no samples.
    abbrev pub IsSkipped : TestDefinition F → TestResult F × List (TelemetrySample F) → Type 0
    IsSkipped t (r, samples) =
        (r.test_id ≡ t.id)
        × (r.status ≡ skip)
        × (r.measured_values ≡ [])
        × (r.requirements ≡ [])
        × (r.failure_reason ≡ some "test is disabled in the plan")
        × (r.exception_summary ≡ none)
        × (r.injected ≡ false)
        × (samples ≡ [])

    -- An enabled test was executed; a disabled one was skipped.
    abbrev pub IsOutcome : TestDefinition F → TestResult F × List (TelemetrySample F) → Type 0
    IsOutcome t x = ((t.enabled ≡ true) × IsExecuted t x.0) ⊎ ((t.enabled ≡ false) × IsSkipped t x)

    finish-IsSkipped :
        (t : TestDefinition F) (s : Timestamp) (started : F) (w : W)
        {x : TestResult F × List (TelemetrySample F)} {w' : W}
        → finish machine (record t { fault_injection = none }) s started disabled_verdict [] w
          ≡ (ok x, w')
        → IsSkipped t x
    finish-IsSkipped t s started w h =
        let ((id, status, measured, evaluated, reason, exception, injected, _), unsampled) =
          finish-IsResultOf (record t { fault_injection = none }) s started disabled_verdict [] w
            h in
        (id, status, measured, evaluated, reason, exception, injected, unsampled)

    -- The result of a test is that of the verdict on an execution of its case, under its own policy,
    -- if it is enabled. Else its status is SKIP, its reason says that the test is disabled, it has no
    -- measurements, evaluations, exception or samples, and it is not injected.
    pub run_test-IsOutcome :
        (t : TestDefinition F) (w : W) {x : TestResult F × List (TelemetrySample F)} {w' : W}
        → run_test machine t snapshot storage_path temporary_root interval policy w ≡ (ok x, w')
        → IsOutcome t x
    unfolding run_test
    run_test-IsOutcome t w h =
        let (s, w₁) = machine.utc_now w in
        let (started, w₂) = machine.perf_counter w₁ in
        let enabled_run =
          run_enabled_test machine t snapshot storage_path temporary_root interval policy s
            started in
        let untested = record t { fault_injection = none } in
        let disabled_run = finish machine untested s started disabled_verdict [] in
        elim (if_cases t.enabled enabled_run disabled_run w₂ h) [
          | inl (enabled, e) ↦ inl (enabled, run_enabled_test-IsExecuted t s started w₂ e)
          | inr (disabled, e) ↦ inr (disabled, finish-IsSkipped t s started w₂ e)
        ]
