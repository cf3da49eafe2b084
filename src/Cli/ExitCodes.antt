-- ===== src/Cli/ExitCodes.antt =====
-- What the exit codes of the command line (src/platval/cli.py) say.
use pc_platform_validation_t.Base.{
  if◌then◌else◌, nat_eq, string_eq, option_eq, ExceptionClass, Exception, Result, ok, raised, ℕ,
  String, ◌≡◌, refl, ap, ◌⊎◌, inl, inr, Bool, true, Option, List, arith, ◌<>◌, ◌∙◌, ◌≢◌, ◌||◌, [],
  ◌∷◌,
}
use pc_platform_validation_t.Base.Action.{Action, ◌>>◌, if_cases, query}
use pc_platform_validation_t.Models.Plan.{TestPlan}
use pc_platform_validation_t.Models.Status.{ResultStatus, status_eq}
use pc_platform_validation_t.Runner.Run.{RunExecution}
use pc_platform_validation_t.Persistence.Records.{ArtifactRecord}
use pc_platform_validation_t.Cli.{
  Line, Ended, Command, Services, finish, catching, echo_error, fail_with, os_value_or_runtime,
}
use pc_platform_validation_t.Cli.Runs.{
  status_exit_code, execute_and_persist, run_plan, is_plan_load_error, is_cancellation, run_output,
  run_command,
}

module _ {W F A : Type 0} where
  caught_cases :
      (r : Result A × W) (caught : ExceptionClass → Bool) (handler : Exception → Command W F)
      (continue : A → Command W F) {b : Ended F} {w' : W}
      → catching (λ _. r) caught handler continue r.1 ≡ (ok b, w')
      → ((a : A) × (w₁ : W) × (r ≡ (ok a, w₁)) × (continue a w₁ ≡ (ok b, w')))
        ⊎ ((e : Exception) × (w₁ : W) × (r ≡ (raised e, w₁))
            × (caught e.class ≡ true)
            × (handler e w₁ ≡ (ok b, w')))
  caught_cases (ok a, w) caught handler continue h = inl (a, w, refl, h)
  caught_cases (raised e, w) caught handler continue h =
      inr (e, w, refl, ground arith, ground arith)

  -- A `try` that ended returned from its body, or from the handler of what it caught.
  pub catching-eq-ok :
      (call : Action W A) (caught : ExceptionClass → Bool) (handler : Exception → Command W F)
      (continue : A → Command W F) (w : W) {b : Ended F} {w' : W}
      → catching call caught handler continue w ≡ (ok b, w')
      → ((a : A) × (w₁ : W) × (call w ≡ (ok a, w₁)) × (continue a w₁ ≡ (ok b, w')))
        ⊎ ((e : Exception) × (w₁ : W) × (call w ≡ (raised e, w₁))
            × (caught e.class ≡ true)
            × (handler e w₁ ≡ (ok b, w')))
  catching-eq-ok call caught handler continue w h = caught_cases (call w) caught handler continue h

module _ {W F : Type 0} where
  finish-exit_code :
      (code : ℕ) (lines : List (Line F)) (w w' : W) {b : Ended F}
      → finish code lines w ≡ (ok b, w')
      → (b.exit_code ≡ code) × (w ≡ w')
  finish-exit_code code lines w w' h = ground arith

  fail_with-exit_code :
      (label : String) (e : Exception) (w w' : W) {b : Ended F}
      → fail_with label e w ≡ (ok b, w')
      → b.exit_code ≡ 2
  unfolding fail_with
  fail_with-exit_code label e w w' h = (finish-exit_code 2 _ w w' h).0

exit_code_cases :
    (s : ResultStatus) (code : ℕ)
    → code ≡ status_exit_code s
    → ((code ≡ 0) × ((s ≢ ResultStatus.fail) × (s ≢ ResultStatus.error)))
      ⊎ (((code ≡ 1) × (s ≡ ResultStatus.fail)) ⊎ (code ≡ 2))
unfolding status_exit_code
exit_code_cases s code h = ground arith

module _ {W F : Type 0} (services : Services W F) where
  -- A run that was executed and stored, or cancelled, or failed with an error.
  abbrev RunEnding : TestPlan F → String → Option String → W → W → ℕ → Type 0
  RunEnding plan runtime_directory native_probe w w' code =
      ((execution : RunExecution F) × (artifact : ArtifactRecord) × (execute_and_persist services
            plan runtime_directory native_probe w
          ≡ (ok (execution, artifact), w'))
        × (code ≡ status_exit_code execution.run.overall_status))
      ⊎ (((e : Exception) × (w₁ : W) × (execute_and_persist services plan runtime_directory
                native_probe w
              ≡ (raised e, w₁))
            × (is_cancellation e.class ≡ true)
            × (code ≡ 130))
          ⊎ (code ≡ 2))

  run_plan-ended :
      (plan : TestPlan F) (json_output : Bool) (runtime_directory : String)
      (native_probe : Option String) (w w' : W) {b : Ended F}
      → run_plan services plan json_output runtime_directory native_probe w ≡ (ok b, w')
      → RunEnding plan runtime_directory native_probe w w' b.exit_code
  unfolding run_plan
  run_plan-ended plan json_output runtime_directory native_probe w w' {b = b} h =
      let cancelled : Command W F =
        query services.cancel_token
        >> finish 130 (echo_error "Validation cancelled; workload cleanup completed." ∷ []) in
      let handler : Exception → Command W F =
        λ e. if is_cancellation e.class then cancelled else fail_with "Run error" e in
      let show : RunExecution F × ArtifactRecord → Command W F = λ outcome.
        finish (status_exit_code outcome.0.run.overall_status)
          (run_output services json_output runtime_directory (outcome.0) (outcome.1)) in
      elim (catching-eq-ok (execute_and_persist services plan runtime_directory native_probe)
        (λ c. is_cancellation c || os_value_or_runtime c) handler show w h) [
          | inl (outcome, w₁, h₁, h₂) ↦
              let (code, same) = finish-exit_code _ _ w₁ w' h₂ in
              inl (outcome.0, outcome.1, h₁ ∙ ap (λ v. (ok outcome, v)) same, code)
          | inr (e, w₁, h₁, c, h₂) ↦
              elim (if_cases (is_cancellation e.class) cancelled (fail_with "Run error" e) w₁ h₂) [
                | inl (told, k) ↦ inr (inl (e, w₁, h₁, told, (finish-exit_code 130 _ _ w' k).0))
                | inr (other, k) ↦ inr (inr (fail_with-exit_code "Run error" e w₁ w' k))
              ]
        ]

  -- The plan at the path was loaded, and its run was executed and stored, with a status of which
  -- the predicate holds.
  abbrev pub StoredWith : String → String → Option String → W → W → (ResultStatus → Type 0) → Type 0
  StoredWith plan_path runtime_directory native_probe w w' P =
      (plan : TestPlan F) × (w₁ : W) × (execution : RunExecution F) × (artifact : ArtifactRecord)
      × (services.load_test_plan plan_path w ≡ (ok plan, w₁))
      × (execute_and_persist services plan runtime_directory native_probe w₁
          ≡ (ok (execution, artifact), w'))
      × P execution.run.overall_status

  -- The plan at the path was loaded, and its run was cancelled.
  abbrev pub Cancelled : String → String → Option String → W → Type 0
  Cancelled plan_path runtime_directory native_probe w =
      (plan : TestPlan F) × (w₁ w₂ : W) × (e : Exception) × (services.load_test_plan plan_path w
        ≡ (ok plan, w₁))
      × (execute_and_persist services plan runtime_directory native_probe w₁ ≡ (raised e, w₂))
      × (is_cancellation e.class ≡ true)

  -- Where the command ends: its exit code is 0, 1, 2 or 130; after 0 the run is stored and its
  -- status is neither FAIL nor ERROR, after 1 it is stored with status FAIL, and after 130 the
  -- plan was loaded and its run was interrupted or cancelled.
  pub run_command-exit_code :
      (plan_path : String) (json_output : Bool) (runtime_directory : String)
      (native_probe : Option String) (w w' : W) {b : Ended F}
      → run_command services plan_path json_output runtime_directory native_probe w ≡ (ok b, w')
      → ((b.exit_code ≡ 0)
          × StoredWith plan_path runtime_directory native_probe w w'
              (λ s. (s ≢ ResultStatus.fail) × (s ≢ ResultStatus.error)))
        ⊎ (((b.exit_code ≡ 1)
              × StoredWith plan_path runtime_directory native_probe w w'
                  (λ s. s ≡ ResultStatus.fail))
            ⊎ ((b.exit_code ≡ 2)
                ⊎ ((b.exit_code ≡ 130) × Cancelled plan_path runtime_directory native_probe w)))
  unfolding run_command
  run_command-exit_code plan_path json_output runtime_directory native_probe w w' {b = b} h =
      let handler : Exception → Command W F =
        λ e. finish 2 (echo_error ("Plan error: " <> e.message) ∷ []) in
      let next : TestPlan F → Command W F =
        λ plan. run_plan services plan json_output runtime_directory native_probe in
      elim (catching-eq-ok (services.load_test_plan plan_path) is_plan_load_error handler next w
        h) [
          | inr (e, w₁, _, _, h₂) ↦ inr (inr (inl (finish-exit_code 2 _ w₁ w' h₂).0))
          | inl (plan, w₁, h₁, h₂) ↦
              elim (run_plan-ended plan json_output runtime_directory native_probe w₁ w' h₂) [
                | inl (execution, artifact, stored, code) ↦
                    elim (exit_code_cases execution.run.overall_status b.exit_code code) [
                      | inl (code0, good) ↦
                          inl (code0, (plan, w₁, execution, artifact, h₁, stored, good))
                      | inr (inl (code1, bad)) ↦
                          inr (inl (code1, (plan, w₁, execution, artifact, h₁, stored, bad)))
                      | inr (inr code2) ↦ inr (inr (inl code2))
                    ]
                | inr (inl (e, w₂, k, told, code)) ↦
                    inr (inr (inr (code, (plan, w₁, w₂, e, h₁, k, told))))
                | inr (inr code2) ↦ inr (inr (inl code2))
              ]
        ]
