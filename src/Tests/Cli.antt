-- ===== src/Tests/Cli.antt =====
-- A run from the command line, over services that answer at once.
use pc_platform_validation_t.Base.{
  nat_eq, string_eq, option_eq, os_error, run_not_found_error, baseline_not_found_error,
  baseline_exists_error, Result, ok, raise, ◌≡◌, refl, ◌≢◌, ◌⊎◌, true, false, none, [], ◌∷◌,
}
use pc_platform_validation_t.Base.Action.{pure, lift}
use pc_platform_validation_t.Base.Int.{ℤ}
use pc_platform_validation_t.Models.Status.{ResultStatus, status_eq}
use pc_platform_validation_t.Persistence.Records.{ArtifactRecord}
use pc_platform_validation_t.Cli.{stored_json, echo, printed_json, Ended, Services}
use pc_platform_validation_t.Cli.Runs.{
  status_exit_code, execute_and_persist, run_plan, run_command, runs_delete_command, run_output,
}
use pc_platform_validation_t.Cli.ExitCodes.{StoredWith, Cancelled, run_command-exit_code}
use pc_platform_validation_t.Tests.Fixtures.{demo_snapshot, demo_plan, no_execution}
use pc_platform_validation_t.Tests.Reporting.{test_formats}

abbrev stored_artifact : ArtifactRecord
stored_artifact = record {
  kind = "run_json";
  relative_path = "runs";
  sha256 = "00";
  size_bytes = 2;
}

-- Services without a world.
abbrev answers : Services (Unit {0}) ℤ
answers = record {
  locate_native_probe = λ path w. (path, w);
  collect_platform_inventory = λ path probe. pure demo_snapshot;
  run_doctor = λ path probe. lift (raise os_error "no directory");
  load_test_plan = λ path. pure demo_plan;
  run_validation_plan = λ plan path probe. pure no_execution;
  cancel_token = λ w. (tt, w);
  persist_execution = λ execution path. pure stored_artifact;
  generate_report = λ run_id path format. lift (raise os_error "no report");
  create_baseline = λ name run path. lift (raise baseline_exists_error "exists");
  list_baselines = λ path. pure [];
  get_baseline = λ name path. lift (raise baseline_not_found_error "none");
  compare_run = λ name run path a b. lift (raise baseline_not_found_error "none");
  list_runs = λ path limit. pure [];
  load_stored_run = λ run path. lift (raise run_not_found_error "none");
  delete_run_recoverably = λ run path. pure none;
  confirm = λ question. pure false;
  path_text = λ path. "path";
  resolved_under = λ path text. text;
  signed = λ x. "x";
  gib_text = λ n. "n";
  repr = λ s. s;
  formats = test_formats;
}

abbrev ran : Result (Ended ℤ) × Unit {0}
ran = run_command answers "plan.yaml" true ".platval" none tt

abbrev ended : Ended ℤ
ended = record {
  exit_code = 0;
  lines =
      printed_json
        (stored_json (record { execution = no_execution; artifacts = stored_artifact ∷ [] }))
      ∷ [];
}

ran_returns : ran ≡ (ok ended, tt)
unfolding run_command run_plan execute_and_persist status_exit_code run_output
ran_returns = refl

run_command-exit_code_example :
    ((ended.exit_code ≡ 0)
      × StoredWith answers "plan.yaml" ".platval" none tt tt
          (λ s. (s ≢ ResultStatus.fail) × (s ≢ ResultStatus.error)))
    ⊎ (((ended.exit_code ≡ 1)
          × StoredWith answers "plan.yaml" ".platval" none tt tt (λ s. s ≡ ResultStatus.fail))
        ⊎ ((ended.exit_code ≡ 2)
            ⊎ ((ended.exit_code ≡ 130) × Cancelled answers "plan.yaml" ".platval" none tt)))
run_command-exit_code_example =
    run_command-exit_code answers "plan.yaml" true ".platval" none tt tt {b = ended} ran_returns

-- A deletion that is not confirmed leaves the run alone.
deletion_cancelled :
    runs_delete_command answers "run-1" false ".platval" tt
    ≡ (ok (record { exit_code = 0; lines = echo "Deletion cancelled." ∷ [] }), tt)
unfolding runs_delete_command
deletion_cancelled = refl
