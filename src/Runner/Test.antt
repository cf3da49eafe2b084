-- ===== src/Runner/Test.antt =====
-- `_run_test` and `_telemetry_summary`: one test, from its case to its validated result.
pub mod Verdicts
pub mod Outcome
use pc_platform_validation_t.Base
use pc_platform_validation_t.Base.{
  if◌then◌else◌, is_some, any, ◌==◌, nat_eq, string_eq, option_eq, length, sum, ExceptionClass,
  os_error, value_error, runtime_error, type_error, key_error, evaluation_error, plan_load_error,
  safety_limit_error, workload_cancelled, workload_timeout, persistence_error, run_not_found_error,
  baseline_not_found_error, baseline_exists_error, baseline_source_error, schema_version_error,
  artifact_error, keyboard_interrupt, stop_iteration, Exception, is_value_error, is_runtime_error,
  is_os_error, Result, ok, raised, map_result, ℕ, ◌+◌, ◌/◌, min, max, String, ◌<>◌, Bool, true,
  false, not, ◌&&◌, ◌||◌, Option, none, some, List, [], ◌∷◌, map, attribute_error, psutil_error,
}
use pc_platform_validation_t.Base.Int.{negsuc, pos_part, ◌-ℤ◌}
use pc_platform_validation_t.Base.Floats.{int, Floats}
use pc_platform_validation_t.Base.Dict.{Dict}
use pc_platform_validation_t.Base.Action.{Action, ◌>>=◌, ◌>>◌, pure, lift, attempt, query}
use pc_platform_validation_t.Models.Status.{ResultStatus, fail, skip, error, status_eq}
use pc_platform_validation_t.Models.Scalar.{Scalar, text, one}
use pc_platform_validation_t.Models.Plan.{
  configuration, FaultInjection, checksum_mismatch, Requirement, TestDefinition,
}
use pc_platform_validation_t.Models.Results.{
  Timestamp, MetricValue, RequirementEvaluation, TelemetrySummary, TestResult, make_test_result,
}
use pc_platform_validation_t.Models.Telemetry.{TelemetrySample}
use pc_platform_validation_t.Evaluation.{evaluate_requirement}
use pc_platform_validation_t.Inventory.{InventorySnapshot}
use pc_platform_validation_t.Workloads.Safety.{SafetyPolicy, detected}
use pc_platform_validation_t.Runner.Parameters.{case_policy}
use pc_platform_validation_t.Runner.Machine.{Machine}
use pc_platform_validation_t.Runner.Cases.{CaseExecution, error_case}
use pc_platform_validation_t.Runner.Execute.{is_injected, execute_case}
use pc_platform_validation_t.Runner.Telemetry.{telemetry_summary}

-- `type(exc).__name__`
unfoldable pub class_name : ExceptionClass → String
class_name os_error = "OSError"
class_name value_error = "ValueError"
class_name runtime_error = "RuntimeError"
class_name type_error = "TypeError"
class_name key_error = "KeyError"
class_name evaluation_error = "EvaluationError"
class_name plan_load_error = "PlanLoadError"
class_name safety_limit_error = "SafetyLimitError"
class_name workload_cancelled = "WorkloadCancelled"
class_name workload_timeout = "WorkloadTimeout"
class_name persistence_error = "PersistenceError"
class_name run_not_found_error = "RunNotFoundError"
class_name baseline_not_found_error = "BaselineNotFoundError"
class_name baseline_exists_error = "BaselineExistsError"
class_name baseline_source_error = "BaselineSourceError"
class_name schema_version_error = "SchemaVersionError"
class_name artifact_error = "ArtifactError"
class_name keyboard_interrupt = "KeyboardInterrupt"
class_name stop_iteration = "StopIteration"
class_name attribute_error = "AttributeError"
class_name psutil_error = "Error"

-- `f"{type(exc).__name__}: {exc}"`
abbrev pub summarize : Exception → String
summarize e = class_name e.class <> ": " <> e.message

module _ {F : Type 0} where
  -- The `except` clauses around the case: its execution and the exception's summary, or the
  -- exception that escapes them.
  unfoldable pub handle_case :
      TestDefinition F → Result (CaseExecution F) → Result (CaseExecution F × Option String)
  handle_case t (ok c) = ok (
    if is_injected t.fault_injection && not c.correct
        then record c {
          reason = some "opt-in injected checksum mismatch produced the expected failure";
        }
        else c,
    none,
  )
  handle_case t (raised e) = elim e.class [
    | workload_cancelled ↦ raised e
    | workload_timeout ↦ ok (error_case e.message, some (class_name e.class))
    | other ↦
        if is_os_error other || is_value_error other || is_runtime_error other
        then ok (
          error_case "test execution failed before producing valid measurements",
          some (summarize e),
        )
        else raised e
  ]

abbrev evidence : Option FaultInjection → List String
evidence none = []
evidence (some checksum_mismatch) = "fault-injection:checksum_mismatch" ∷ []

-- What the measurements, the status and the explanations of a result will be.
pub record Verdict (F : Type 0) : Type 0 where
  pub status : ResultStatus
  pub measurements : Dict String (MetricValue F)
  pub evaluations : List (RequirementEvaluation F)
  pub reason : Option String
  pub exception_summary : Option String

-- `reason or text`: None and the empty text are false.
abbrev or_text : Option String → String → String
or_text none t = t
or_text (some s) t = if s == "" then t else s

-- `{name: measurement.value for ...}`
abbrev pub metric_values : {F : Type 0} → Dict String (MetricValue F) → Dict String (Scalar F)
metric_values [] = []
metric_values ((name, m) ∷ ms) = (name, m.value) ∷ metric_values ms

module _ {F : Type 0} where
  -- After the evaluations: the explicit requirements decide.
  unfoldable pub decide_status :
      CaseExecution F → Option String → List (RequirementEvaluation F) → Verdict F
  decide_status c summary evaluations =
      if not c.correct || any (λ (e : RequirementEvaluation F). not e.passed) evaluations
      then record {
        status = fail;
        measurements = c.measurements;
        evaluations = evaluations;
        reason = some (or_text c.reason "one or more explicit requirements were not met");
        exception_summary = summary;
      }
      else record {
        status = c.status_hint;
        measurements = c.measurements;
        evaluations = evaluations;
        reason = c.reason;
        exception_summary = summary;
      }

  -- `except EvaluationError` around the evaluations
  unfoldable pub settle :
      CaseExecution F → Option String → Result (List (RequirementEvaluation F)) → Result (Verdict F)
  unfolding decide_status
  settle c summary (ok evaluations) = ok (decide_status c summary evaluations)
  settle c summary (raised e) = elim e.class [
    | evaluation_error ↦ ok (record {
      status = error;
      measurements = c.measurements;
      evaluations = [];
      reason = some "requirement evaluation configuration is invalid";
      exception_summary = some (summarize e);
    })
    | _ ↦ raised e
  ]

  abbrev pub disabled_verdict : Verdict F
  disabled_verdict = record {
    status = skip;
    measurements = [];
    evaluations = [];
    reason = some "test is disabled in the plan";
    exception_summary = none;
  }

module _ {F : Type 0} ⦃o : Floats F⦄ where
  unfoldable pub evaluate_all :
      List (Requirement F) → Dict String (MetricValue F) → Result (List (RequirementEvaluation F))
  unfolding evaluate_requirement
  evaluate_all requirements measurements =
      map_result (λ r. evaluate_requirement r (metric_values measurements)) requirements

  unfoldable pub assess : TestDefinition F → CaseExecution F → Option String → Result (Verdict F)
  unfolding settle
  assess t c summary =
      if c.status_hint == skip || c.status_hint == error
      then ok (record {
        status = c.status_hint;
        measurements = c.measurements;
        evaluations = [];
        reason = c.reason;
        exception_summary = summary;
      })
      else settle c summary (evaluate_all t.requirements c.measurements)

  -- From the outcome of the case to the verdict, or the exception that leaves the test.
  unfoldable pub judge : TestDefinition F → Result (CaseExecution F) → Result (Verdict F)
  unfolding handle_case assess
  judge t outcome = Base.◌>>=◌ (handle_case t outcome) λ (c, summary). assess t c summary

  -- `min(10_000, max(1, int(timeout / interval) + 2))`
  abbrev pub max_samples : F → F → ℕ
  max_samples timeout interval =
      min 10_000 (max 1 (pos_part (o.truncate (o.div timeout interval) -ℤ negsuc 1)))

module _ {F W : Type 0} ⦃o : Floats F⦄ (machine : Machine F W) where
  -- The result of a verdict, once the clocks are read again.
  unfoldable pub finish :
      TestDefinition F
      → Timestamp
      → F
      → Verdict F
      → List (TelemetrySample F)
      → Action W (TestResult F × List (TelemetrySample F))
  unfolding telemetry_summary make_test_result
  finish t started_at started v samples = do
    ended_at ← query machine.utc_now
    now ← query machine.perf_counter
    result ← lift (
        make_test_result (record {
          test_id = t.id;
          started_at = started_at;
          ended_at = ended_at;
          duration_seconds = o.sub now started;
          status = v.status;
          measured_values = v.measurements;
          requirements = v.evaluations;
          failure_reason = v.reason;
          evidence_references = evidence t.fault_injection;
          exception_summary = v.exception_summary;
          telemetry_summary = some (telemetry_summary samples);
          injected = is_some t.fault_injection;
        }))
    pure (result, samples)

  unfoldable pub run_enabled_test :
      TestDefinition F
      → InventorySnapshot
      → String
      → String
      → F
      → SafetyPolicy F
      → Timestamp
      → F
      → Action W (TestResult F × List (TelemetrySample F))
  run_enabled_test t snapshot storage_path temporary_root interval policy started_at started = do
    machine.sampler_start interval storage_path (max_samples t.timeout_seconds interval)
    outcome ← attempt (execute_case machine t snapshot temporary_root (case_policy t policy))
    samples ← machine.sampler_stop
    v ← lift (judge t outcome)
    finish t started_at started v samples

  -- A disabled test never has a fault (its validator), so its result is not injected.
  unfoldable pub run_test :
      TestDefinition F
      → InventorySnapshot
      → String
      → String
      → F
      → SafetyPolicy F
      → Action W (TestResult F × List (TelemetrySample F))
  run_test t snapshot storage_path temporary_root interval policy = do
    started_at ← query machine.utc_now
    started ← query machine.perf_counter
    if t.enabled
        then run_enabled_test t snapshot storage_path temporary_root interval policy started_at
            started
        else finish (record t { fault_injection = none }) started_at started disabled_verdict []
