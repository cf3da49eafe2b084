-- ===== src/Cli/Runs.antt =====
-- `run`, `report`, `demo failure` and the commands on stored runs (src/platval/cli.py).
use pc_platform_validation_t.Base.{
  if◌then◌else◌, nat_eq, string_eq, option_eq, ExceptionClass, plan_load_error, workload_cancelled,
  run_not_found_error, baseline_source_error, artifact_error, keyboard_interrupt, is_os_error, ℕ,
  String, ◌<>◌, Bool, true, false, ◌||◌, Option, none, some, List, [], ◌∷◌, map,
}
use pc_platform_validation_t.Base.Action.{Action, ◌>>=◌, ◌>>◌, pure, query}
use pc_platform_validation_t.Base.Int.{ℤ}
use pc_platform_validation_t.Models.Plan.{TestPlan}
use pc_platform_validation_t.Models.Status.{ResultStatus, fail, error, status_eq}
use pc_platform_validation_t.Runner.Run.{RunExecution}
use pc_platform_validation_t.Persistence.Files.{FilePath}
use pc_platform_validation_t.Persistence.Records.{ArtifactRecord}
use pc_platform_validation_t.Reporting.Service.{ReportFormat, json, markdown, html, GeneratedReport}
use pc_platform_validation_t.Cli.{
  stored_json, report_json, summaries_json, Line, echo, echo_error, printed, printed_table,
  printed_json, Command, Services, finish, fail_with, catching, os_value_or_runtime,
  os_or_persistence, os_value_or_persistence,
}
use pc_platform_validation_t.Cli.Tables.{run_table, stored_table, summaries_table}

-- The exit code of a run or a comparison with this status.
unfoldable pub status_exit_code : ResultStatus → ℕ
status_exit_code error = 2
status_exit_code fail = 1
status_exit_code _ = 0

unfoldable pub is_plan_load_error : ExceptionClass → Bool
is_plan_load_error plan_load_error = true
is_plan_load_error _ = false

-- `(KeyboardInterrupt, WorkloadCancelled)`
unfoldable pub is_cancellation : ExceptionClass → Bool
is_cancellation keyboard_interrupt = true
is_cancellation workload_cancelled = true
is_cancellation _ = false

-- `(ArtifactError, BaselineSourceError, RunNotFoundError, OSError)`
unfoldable pub is_delete_error : ExceptionClass → Bool
is_delete_error artifact_error = true
is_delete_error baseline_source_error = true
is_delete_error run_not_found_error = true
is_delete_error c = is_os_error c

-- `(ArtifactError, PersistenceError, OSError, ValueError)`
unfoldable pub is_report_error : ExceptionClass → Bool
is_report_error artifact_error = true
is_report_error c = os_value_or_persistence c

module _ {W F : Type 0} (services : Services W F) where
  unfoldable pub run_output : Bool → String → RunExecution F → ArtifactRecord → List (Line F)
  unfolding run_table
  run_output json_output runtime_directory execution artifact =
      if json_output
      then printed_json (stored_json (record { execution = execution; artifacts = artifact ∷ [] }))
        ∷ []
      else printed_table (run_table services execution.run)
        ∷ printed ("Run ID: " <> execution.run.run_id)
        ∷ printed ("Artifact: " <> services.resolved_under runtime_directory artifact.relative_path)
        ∷ []

  unfoldable pub execute_and_persist :
      TestPlan F → String → Option String → Action W (RunExecution F × ArtifactRecord)
  execute_and_persist plan runtime_directory native_probe = do
    probe ← query (services.locate_native_probe native_probe)
    execution ← services.run_validation_plan plan runtime_directory probe
    artifact ← services.persist_execution execution runtime_directory
    pure (execution, artifact)

  unfoldable pub run_plan : TestPlan F → Bool → String → Option String → Command W F
  unfolding run_output execute_and_persist is_cancellation fail_with status_exit_code
  run_plan plan json_output runtime_directory native_probe =
      catching (execute_and_persist plan runtime_directory native_probe)
        (λ c. is_cancellation c || os_value_or_runtime c)
        (λ e.
          if is_cancellation e.class
          then query services.cancel_token
            >> finish 130 (echo_error "Validation cancelled; workload cleanup completed." ∷ [])
          else fail_with "Run error" e)
        (λ outcome.
          finish (status_exit_code outcome.0.run.overall_status)
            (run_output json_output runtime_directory (outcome.0) (outcome.1)))

  unfoldable pub run_command : String → Bool → String → Option String → Command W F
  unfolding run_plan is_plan_load_error
  run_command plan_path json_output runtime_directory native_probe =
      catching (services.load_test_plan plan_path) is_plan_load_error
        (λ e. finish 2 (echo_error ("Plan error: " <> e.message) ∷ []))
        (λ plan. run_plan plan json_output runtime_directory native_probe)

  unfoldable pub format_value : ReportFormat → String
  format_value json = "json"
  format_value markdown = "markdown"
  format_value html = "html"

  unfoldable pub report_command : String → ReportFormat → Bool → String → Command W F
  unfolding is_report_error fail_with format_value
  report_command run_id report_format json_output runtime_directory =
      catching (services.generate_report run_id runtime_directory report_format) is_report_error
        (fail_with "Report error")
        (λ generated. finish 0 (
          (if json_output
            then printed_json (report_json generated)
            else echo (
                (if generated.reused then "Using" else "Created")
                <> " "
                <> format_value generated.format
                <> " report: "
                <> services.path_text generated.path))
          ∷ []))

  unfoldable pub demonstrate :
      TestPlan F
      → String
      → Action W (RunExecution F × ArtifactRecord × GeneratedReport × GeneratedReport)
  demonstrate plan runtime_directory = do
    execution ← services.run_validation_plan plan runtime_directory none
    canonical ← services.persist_execution execution runtime_directory
    html_report ← services.generate_report execution.run.run_id runtime_directory html
    markdown_report ← services.generate_report execution.run.run_id runtime_directory markdown
    pure (execution, canonical, html_report, markdown_report)

  abbrev pub demo_output :
      Bool → RunExecution F → ArtifactRecord → GeneratedReport → GeneratedReport → List (Line F)
  demo_output json_output execution canonical html_report markdown_report =
      if json_output
      then printed_json (
          stored_json (record {
            execution = execution;
            artifacts = canonical ∷ html_report.artifact ∷ markdown_report.artifact ∷ [];
          }))
        ∷ []
      else echo "Synthetic failure demonstration completed as intended: FAIL"
        ∷ echo ("Run ID: " <> execution.run.run_id)
        ∷ echo ("HTML report: " <> services.path_text html_report.path)
        ∷ echo ("Markdown report: " <> services.path_text markdown_report.path)
        ∷ []

  unfoldable pub demo_failure_command : TestPlan F → Bool → String → Command W F
  unfolding demonstrate fail_with
  demo_failure_command plan json_output runtime_directory =
      catching (demonstrate plan runtime_directory) os_value_or_runtime (fail_with "Demo error")
        (λ (execution, canonical, html_report, markdown_report).
          finish 0 (demo_output json_output execution canonical html_report markdown_report))

  unfoldable pub runs_list_command : Bool → ℤ → String → Command W F
  unfolding fail_with summaries_table
  runs_list_command json_output limit runtime_directory =
      catching (services.list_runs runtime_directory limit) os_value_or_persistence
        (fail_with "Repository error")
        (λ summaries. finish 0 (
          (if json_output
            then printed_json (summaries_json summaries)
            else printed_table (summaries_table services summaries))
          ∷ []))

  unfoldable pub runs_show_command : String → Bool → String → Command W F
  unfolding fail_with stored_table
  runs_show_command run_id json_output runtime_directory =
      catching (services.load_stored_run run_id runtime_directory) os_or_persistence
        (fail_with "Repository error")
        (λ stored. finish 0 (
          if json_output
          then printed_json (stored_json stored) ∷ []
          else printed_table (stored_table services run_id stored.execution.run)
            ∷ map
                (λ (a : ArtifactRecord).
                  printed ("Artifact: " <> a.relative_path <> " (" <> a.sha256 <> ")"))
                stored.artifacts))

  abbrev pub deletion_text : Option FilePath → String
  deletion_text none = "Run deleted; no artifact directory was present."
  deletion_text (some archived) = "Run deleted; artifacts moved to " <> services.path_text archived

  unfoldable pub delete_confirmed : String → String → Command W F
  unfolding is_delete_error fail_with
  delete_confirmed run_id runtime_directory =
      catching (services.delete_run_recoverably run_id runtime_directory) is_delete_error
        (fail_with "Delete error") (λ archived. finish 0 (echo (deletion_text archived) ∷ []))

  unfoldable pub runs_delete_command : String → Bool → String → Command W F
  unfolding delete_confirmed
  runs_delete_command run_id true runtime_directory = delete_confirmed run_id runtime_directory
  runs_delete_command run_id false runtime_directory = do
    confirmed ← services.confirm ("Delete run " <> run_id <> "? Artifacts will be moved to trash")
    if confirmed
        then delete_confirmed run_id runtime_directory
        else finish 0 (echo "Deletion cancelled." ∷ [])
