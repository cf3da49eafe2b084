-- ===== src/Cli.antt =====
-- The commands of the command line (src/platval/cli.py): each is a function of its parsed arguments,
-- and returns the exit code and what it printed, or raises what escaped it. Typer's parsing and
-- Rich's layout are not modelled.
pub mod Tables
pub mod Inspect
pub mod Runs
pub mod Compare
pub mod ExitCodes
use pc_platform_validation_t.Base.{
  if◌then◌else◌, nat_eq, string_eq, option_eq, ExceptionClass, Exception, is_value_error,
  is_persistence_error, is_runtime_error, is_os_error, ok, raised, ℕ, ◌/◌, String, ◌<>◌, Bool, not,
  ◌||◌, Option, List, [], ◌∷◌,
}
use pc_platform_validation_t.Base.Action.{Action, ◌>>=◌, ◌>>◌, pure}
use pc_platform_validation_t.Base.Int.{ℤ}
use pc_platform_validation_t.Inventory.{InventorySnapshot}
use pc_platform_validation_t.Doctor.{DoctorReport}
use pc_platform_validation_t.Models.Plan.{TestPlan}
use pc_platform_validation_t.Runner.Run.{RunExecution}
use pc_platform_validation_t.Runner.Test.{class_name}
use pc_platform_validation_t.Persistence.Files.{FilePath}
use pc_platform_validation_t.Persistence.Records.{
  ArtifactRecord, RunSummary, StoredRun, BaselineRecord,
}
use pc_platform_validation_t.Reporting.Service.{ReportFormat, GeneratedReport}
use pc_platform_validation_t.Reporting.View.{Formats}
use pc_platform_validation_t.Baselines.{ComparisonReport, key_eq}

-- A table of Rich, whose columns have no headers where `show_header=False`.
pub record Table : Type 0 where
  pub title : String
  pub headers : List String
  pub rows : List (List String)

-- What is printed as JSON.
pub data Document (F : Type 0) : Type 0 where
  snapshot_json : InventorySnapshot → Document F
  doctor_json : DoctorReport → Document F
  stored_json : StoredRun F → Document F
  report_json : GeneratedReport → Document F
  baseline_json : BaselineRecord → Document F
  baselines_json : List BaselineRecord → Document F
  comparison_json : ComparisonReport F → Document F
  summaries_json : List RunSummary → Document F

-- `typer.echo`, with `err=True`, and `Console().print` of a text or a table.
pub data Line (F : Type 0) : Type 0 where
  echo echo_error printed : String → Line F
  printed_table : Table → Line F
  printed_json : Document F → Line F

pub record Ended (F : Type 0) : Type 0 where
  pub exit_code : ℕ
  pub lines : List (Line F)

abbrev pub Command : Type 0 → Type 0 → Type 0
Command W F = Action W (Ended F)

-- What the commands call. Paths are the texts that were given.
pub record Services (W F : Type 0) : Type 0 where
  pub locate_native_probe : Option String → W → Option String × W
  pub collect_platform_inventory : String → Option String → Action W InventorySnapshot
  pub run_doctor : String → Option String → Action W DoctorReport
  pub load_test_plan : String → Action W (TestPlan F)
  pub run_validation_plan : TestPlan F → String → Option String → Action W (RunExecution F)
  pub cancel_token : W → Unit {0} × W
  pub persist_execution : RunExecution F → String → Action W ArtifactRecord
  pub generate_report : String → String → ReportFormat → Action W GeneratedReport
  pub create_baseline : String → String → String → Action W BaselineRecord
  pub list_baselines : String → Action W (List BaselineRecord)
  pub get_baseline : String → String → Action W BaselineRecord
  pub compare_run : String → String → String → F → F → Action W (ComparisonReport F)
  pub list_runs : String → ℤ → Action W (List RunSummary)
  pub load_stored_run : String → String → Action W (StoredRun F)
  pub delete_run_recoverably : String → String → Action W (Option FilePath)
  pub confirm : String → Action W Bool
  -- `str` of a path, and `runtime_directory.resolve() / relative_path`
  pub path_text : FilePath → String
  pub resolved_under : String → String → String
  -- `:+.2f`, and `n / 1024**3` with two digits
  pub signed : F → String
  pub gib_text : ℕ → String
  pub repr : String → String
  pub formats : Formats F

module _ {W F : Type 0} where
  abbrev pub finish : ℕ → List (Line F) → Command W F
  finish code lines = pure (record { exit_code = code; lines = lines })

  -- `f"{label}: {type(exc).__name__}: {exc}"` on stderr, and exit code 2.
  unfoldable pub fail_with : String → Exception → Command W F
  unfolding class_name
  fail_with label e =
      finish 2 (echo_error (label <> ": " <> class_name e.class <> ": " <> e.message) ∷ [])

  -- `try: call() except classes as exc: ...`, and what follows where the call returned.
  abbrev pub catching :
      {A : Type 0}
      → Action W A
      → (ExceptionClass → Bool)
      → (Exception → Command W F)
      → (A → Command W F)
      → Command W F
  catching call caught handler continue w = elim (call w).0 [
    | ok a ↦ continue a (call w).1
    | raised e ↦ if caught e.class then handler e (call w).1 else (raised e, (call w).1)
  ]

-- The classes of the commands' `except` clauses.
abbrev pub os_or_value : ExceptionClass → Bool
os_or_value c = is_os_error c || is_value_error c

abbrev pub os_value_or_runtime : ExceptionClass → Bool
os_value_or_runtime c = is_os_error c || is_value_error c || is_runtime_error c

abbrev pub os_or_persistence : ExceptionClass → Bool
os_or_persistence c = is_os_error c || is_persistence_error c

abbrev pub os_value_or_persistence : ExceptionClass → Bool
os_value_or_persistence c = is_os_error c || is_value_error c || is_persistence_error c
