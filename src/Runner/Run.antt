-- ===== src/Runner/Run.antt =====
-- `run_validation_plan`: every test of a plan in order, and the canonical result of the run.
pub mod Summary
pub mod Results
use pc_platform_validation_t.Base
use pc_platform_validation_t.Base.{
  if◌then◌else◌, any, nat_eq, string_eq, option_eq, value_error, workload_cancelled, raise_if,
  String, ◌<>◌, not, Option, none, some, List, [], ◌∷◌, ◌++◌, map,
}
use pc_platform_validation_t.Base.Floats.{Floats}
use pc_platform_validation_t.Base.Dict.{Dict, insert}
use pc_platform_validation_t.Base.Action.{Action, ◌>>=◌, ◌>>◌, pure, lift, query}
use pc_platform_validation_t.Models.Status.{status_eq}
use pc_platform_validation_t.Models.Plan.{TestDefinition, TestPlan, storage, inventory}
use pc_platform_validation_t.Models.Results.{
  TestResult, RunResult, aggregate_status, counter, statuses, make_run_result, Timestamp,
}
use pc_platform_validation_t.Models.Telemetry.{TelemetrySample}
use pc_platform_validation_t.Models.Platform.{PlatformIdentity}
use pc_platform_validation_t.Inventory.{InventorySnapshot}
use pc_platform_validation_t.Workloads.Safety.{SafetyPolicy, detected}
use pc_platform_validation_t.Runner.Machine.{Machine}
use pc_platform_validation_t.Runner.Test.{run_test}

pub record RunExecution (F : Type 0) : Type 0 where
  pub run : RunResult F
  pub platform : PlatformIdentity
  pub telemetry_samples : Dict String (List (TelemetrySample F))

-- What every test of a run is given.
pub record Preparation (F : Type 0) : Type 0 where
  pub selected_storage : String
  pub temporary_root : String
  pub run_started_at : Timestamp
  pub snapshot : InventorySnapshot
  pub detected_policy : SafetyPolicy F

abbrev pub tool_version : String
tool_version = "0.1.0.dev0"

abbrev pub injected_warning : String
injected_warning =
    "Synthetic fault injection was enabled; injected results are not hardware evidence."

abbrev path_or : Option String → String → String
path_or none default = default
path_or (some path) default = path

module _ {F : Type 0} where
  abbrev pub results_of : List (TestResult F × List (TelemetrySample F)) → List (TestResult F)
  results_of = map (λ (outcome : TestResult F × List (TelemetrySample F)). outcome.0)

  -- `telemetry[test.id] = samples` for each test
  abbrev telemetry_of :
      Dict String (List (TelemetrySample F))
      → List (TestResult F × List (TelemetrySample F))
      → Dict String (List (TelemetrySample F))
  telemetry_of d [] = d
  telemetry_of d ((result, samples) ∷ outcomes) =
      telemetry_of (insert result.test_id samples d) outcomes

  abbrev pub run_warnings : List String → List (TestResult F) → List String
  run_warnings limitations results =
      limitations
      ++ (if any (λ (r : TestResult F). r.injected) results then injected_warning ∷ [] else [])

module _ {F W : Type 0} ⦃o : Floats F⦄ (machine : Machine F W) where
  -- `storage_path or runtime_directory`, after the check that a given path is a directory
  abbrev require_storage : Option String → Action W (Unit {0})
  require_storage none = pure tt
  require_storage (some path) = do
    found ← query (machine.is_dir path)
    lift (raise_if (not found) value_error "storage path must be an existing directory")

  -- The loop over the tests, with what each is given in the same way.
  unfoldable pub run_tests :
      InventorySnapshot
      → String
      → String
      → F
      → SafetyPolicy F
      → List (TestDefinition F)
      → Action W (List (TestResult F × List (TelemetrySample F)))
  run_tests snapshot selected_storage temporary_root interval policy [] = pure []
  run_tests snapshot selected_storage temporary_root interval policy (t ∷ tests) = do
    stop ← query machine.run_cancelled
    lift (raise_if stop workload_cancelled "validation run cancellation was requested")
    outcome ← run_test machine t snapshot selected_storage temporary_root interval policy
    outcomes ← run_tests snapshot selected_storage temporary_root interval policy tests
    pure (outcome ∷ outcomes)

  -- The directories, the inventory and the detected limits, before the first test.
  unfoldable pub prepare_run : String → Option String → Option String → Action W (Preparation F)
  prepare_run runtime_directory storage_path native_probe_path = do
    machine.mkdir runtime_directory
    require_storage storage_path
    selected_storage ← query (machine.resolve (path_or storage_path runtime_directory))
    let temporary_root = runtime_directory <> "/tmp"
    machine.mkdir temporary_root
    run_started_at ← query machine.utc_now
    snapshot ← machine.collect_inventory selected_storage native_probe_path
    available ← query machine.available_memory
    counts ← query machine.cpu_counts
    pure (record {
      selected_storage = selected_storage;
      temporary_root = temporary_root;
      run_started_at = run_started_at;
      snapshot = snapshot;
      detected_policy = detected available counts.0 counts.1;
    })

  -- The canonical result, once every test has run.
  unfoldable pub finish_run :
      (TestPlan F → String)
      → TestPlan F
      → Preparation F
      → List (TestResult F × List (TelemetrySample F))
      → Action W (RunExecution F)
  unfolding make_run_result
  finish_run canonical_plan_hash plan p outcomes = do
    run_ended_at ← query machine.utc_now
    run_id ← query machine.new_run_id
    let results = results_of outcomes
    run ← lift (
        make_run_result (record {
          run_id = run_id;
          plan_name = plan.name;
          plan_hash = canonical_plan_hash plan;
          tool_version = tool_version;
          platform_fingerprint = p.snapshot.platform.sanitized_platform_fingerprint;
          started_at = p.run_started_at;
          ended_at = run_ended_at;
          overall_status = aggregate_status (statuses results);
          result_counts = counter (statuses results);
          test_results = results;
          warnings = run_warnings p.snapshot.limitations results;
          limitations = p.snapshot.limitations;
        }))
    pure (record {
      run = run;
      platform = p.snapshot.platform;
      telemetry_samples = telemetry_of [] outcomes;
    })

  unfoldable pub run_validation_plan :
      (TestPlan F → String)
      → TestPlan F
      → String
      → Option String
      → Option String
      → Action W (RunExecution F)
  run_validation_plan canonical_plan_hash plan runtime_directory storage_path native_probe_path = do
    p ← prepare_run runtime_directory storage_path native_probe_path
    outcomes ←
        run_tests p.snapshot p.selected_storage p.temporary_root plan.sampling_interval_seconds
          p.detected_policy plan.tests
    finish_run canonical_plan_hash plan p outcomes
