-- ===== src/Runner/Cases.antt =====
-- What a test's case produces: measurements, a hint of its status and a reason.
use package.text.Mathlib.Text.{starts_with}
use pc_platform_validation_t.Base.{
  if◌then◌else◌, nat_eq, string_eq, option_eq, key_error, Result, ok, raise, ◌>>=◌, ℕ, String, ◌<>◌,
  Bool, true, false, not, Option, none, some, List, [], ◌∷◌,
}
use pc_platform_validation_t.Base.Int.{pos}
use pc_platform_validation_t.Base.Floats.{Number, float, Floats}
use pc_platform_validation_t.Base.Dict.{Dict, lookup, insert, lookup_or}
use pc_platform_validation_t.Models.Scalar.{Scalar, null, bool, integer, text, is_null, as_number}
use pc_platform_validation_t.Models.Status.{ResultStatus, pass, warn, skip, error, status_eq}
use pc_platform_validation_t.Models.Results.{MetricValue}
use pc_platform_validation_t.Collectors.{CollectorCapability}
use pc_platform_validation_t.Inventory.{InventorySnapshot}
use pc_platform_validation_t.Workloads.Output.{WorkloadMeasurement, WorkloadResult}

pub record CaseExecution (F : Type 0) : Type 0 where
  pub correct : Bool
  pub measurements : Dict String (MetricValue F)
  pub status_hint : ResultStatus
  pub reason : Option String

module _ {F : Type 0} where
  -- `_CaseExecution()`
  abbrev pub default_case : CaseExecution F
  default_case = record { correct = true; measurements = []; status_hint = pass; reason = none }

  abbrev pub skip_case : String → CaseExecution F
  skip_case reason = record default_case { status_hint = skip; reason = some reason }

  -- The case that stands in for a failed execution.
  abbrev pub error_case : String → CaseExecution F
  error_case reason = record {
    correct = false;
    measurements = [];
    status_hint = error;
    reason = some reason;
  }

  abbrev convert : String → Dict String (WorkloadMeasurement F) → Dict String (MetricValue F)
  convert source [] = []
  convert source ((name, m) ∷ ms) =
      (name, record { value = m.value; unit = m.unit; source = source }) ∷ convert source ms

  unfoldable pub workload_case : WorkloadResult F → CaseExecution F
  workload_case result = record {
    correct = result.correct;
    measurements = convert result.workload result.measurements;
    status_hint = pass;
    reason = if result.correct then none else some "workload correctness verification failed";
  }

  abbrev observed : Scalar F → Option String → MetricValue F
  observed value unit = record { value = value; unit = unit; source = "inventory" }

  abbrev optional_count : Option ℕ → Scalar F
  optional_count none = null
  optional_count (some n) = integer (pos n)

  unfoldable pub inventory_case : InventorySnapshot → CaseExecution F
  inventory_case snapshot =
      let platform = snapshot.platform in
      record default_case {
        measurements =
            (
              "logical_cpu_count",
              observed (integer (pos platform.logical_processor_count)) (some "processors"),
            )
            ∷ (
              "physical_cpu_count",
              observed (optional_count platform.physical_processor_count) (some "processors"),
            )
            ∷ (
              "total_memory_bytes",
              observed (integer (pos platform.total_memory_bytes)) (some "bytes"),
            )
            ∷ (
              "storage_free_bytes",
              observed (integer (pos platform.storage_volume.free_bytes)) (some "bytes"),
            )
            ∷ ("architecture", observed (text platform.architecture) none)
            ∷ [];
      }

  -- The dict comprehension over the capabilities: a later one replaces an earlier.
  unfoldable pub availability_measurements :
      Dict String (MetricValue F) → List CollectorCapability → Dict String (MetricValue F)
  availability_measurements d [] = d
  availability_measurements d (c ∷ cs) =
      availability_measurements
        (insert (c.metric <> "_available")
          (record { value = bool c.available; unit = none; source = c.source }) d)
        cs

  -- `bool(x)` on the scalars that the runner stores there
  abbrev is_true : Scalar F → Bool
  is_true (bool b) = b
  is_true _ = false

  unfoldable pub telemetry_case : InventorySnapshot → Result (CaseExecution F)
  unfolding availability_measurements
  telemetry_case snapshot =
      let measurements = availability_measurements [] snapshot.capabilities in
      elim (lookup "temperature_available" measurements) [
        | none ↦ raise key_error "temperature_available"
        | some m ↦ ok (record {
          correct = true;
          measurements = measurements;
          status_hint = if is_true m.value then pass else warn;
          reason = if is_true m.value then none else some "temperature telemetry is unavailable";
        })
      ]

  abbrev cpu_flags : Dict String Bool → Dict String (MetricValue F)
  cpu_flags [] = []
  cpu_flags ((name, value) ∷ flags) =
      if starts_with name "cpu."
      then (name, record { value = bool value; unit = none; source = "native_cpuid_probe" })
        ∷ cpu_flags flags
      else cpu_flags flags

  unfoldable pub configuration_case : InventorySnapshot → CaseExecution F
  configuration_case snapshot =
      if not (lookup_or "native_cpuid_probe" false snapshot.platform.capability_flags)
      then skip_case
          "native CPUID probe is unavailable; CPU feature requirements were not evaluated"
      else record default_case { measurements = cpu_flags snapshot.platform.capability_flags }

module _ {F : Type 0} ⦃o : Floats F⦄ where
  -- `isinstance(x, (int, float)) and x > threshold`: a bool is an int here.
  abbrev exceeds : Option (Number F) → F → Bool
  exceeds none threshold = false
  exceeds (some x) threshold = o.lt (float threshold) x

  -- The soft timing check of STB-001.
  unfoldable pub stability_case : CaseExecution F → Result F → Result (CaseExecution F)
  stability_case c threshold = elim (lookup "robust_variability" c.measurements) [
    | none ↦ raise key_error "robust_variability"
    | some m ↦ threshold >>= λ limit. ok (
        if is_null m.value
        then record c {
          status_hint = warn;
          reason = some "timing variability is unavailable because duration could not be measured";
        }
        else if exceeds (as_number m.value) limit
        then record c {
          status_hint = warn;
          reason = some "timing variability exceeded the configured soft threshold";
        }
        else c)
  ]
