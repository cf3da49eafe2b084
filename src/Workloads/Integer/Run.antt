-- ===== src/Workloads/Integer/Run.antt =====
-- `run_integer_workload` (src/platval/workloads/cpu.py), with the policy and the token that the
-- runner gives it.
pub mod Correct
use pc_platform_validation_t.Base
use pc_platform_validation_t.Base.{
  if◌then◌else◌, ◌==◌, nat_eq, string_eq, option_eq, Result, ◌*◌, String, false, Option, none, some,
  [], ◌∷◌,
}
use pc_platform_validation_t.Base.Action.{Action, ◌>>=◌, ◌>>◌, pure, lift}
use pc_platform_validation_t.Base.Int.{pos}
use pc_platform_validation_t.Base.Floats.{Floats}
use pc_platform_validation_t.Models.Scalar.{Scalar, null, bool, integer, real, text, one}
use pc_platform_validation_t.Models.Results.{Timestamp}
use pc_platform_validation_t.Workloads.Safety.{
  SafetyPolicy, require_workers, require_memory, require_timeout,
}
use pc_platform_validation_t.Workloads.Timing.{rate_per_second}
use pc_platform_validation_t.Workloads.Output.{
  WorkloadMeasurement, WorkloadResult, make_workload_result,
}
use pc_platform_validation_t.Workloads.Host.{Digests, Host, Session, ask, begin}
use pc_platform_validation_t.Workloads.Counts.{operation_counts}
use pc_platform_validation_t.Workloads.Config.{IntegerWorkloadConfig}
use pc_platform_validation_t.Workloads.Integer.{
  combine_worker_digests, submit, reference_checksum, run_pool,
}

abbrev pub measured : {F : Type 0} → Scalar F → Option String → WorkloadMeasurement F
measured value unit = record { value = value; unit = unit }

abbrev pub optional_real : {F : Type 0} → Option F → Scalar F
optional_real none = null
optional_real (some x) = real x

-- What the clocks showed of a workload.
pub record Timing (F : Type 0) : Type 0 where
  pub started_at : Timestamp
  pub ended_at : Timestamp
  pub duration : F
  pub measured_seconds : F

module _ {F : Type 0} ⦃o : Floats F⦄ where
  unfoldable pub integer_result :
      IntegerWorkloadConfig → String → String → Timing F → WorkloadResult F
  integer_result config expected checksum t = record {
    workload = "cpu_integer";
    started_at = t.started_at;
    ended_at = t.ended_at;
    duration_seconds = t.duration;
    correct = checksum == expected;
    checksum = some checksum;
    measurements =
        ("checksum_valid", measured (bool (checksum == expected)) none)
        ∷ ("operations", measured (integer (pos config.operations)) (some "blocks"))
        ∷ ("workers", measured (integer (pos config.workers)) (some "workers"))
        ∷ ("measured_duration", measured (real t.measured_seconds) (some "seconds"))
        ∷ (
          "operations_per_second",
          measured
              (optional_real
                (rate_per_second (o.of_int (pos config.operations)) t.measured_seconds))
              (some "blocks/s"),
        )
        ∷ [];
    notes = [];
  }

module _ {F : Type 0} ⦃o : Floats F⦄ where
  abbrev pub require_limits : IntegerWorkloadConfig → F → SafetyPolicy F → Result (Unit {0})
  require_limits config timeout_seconds policy = Base.◌>>◌ (require_workers policy config.workers) (
      Base.◌>>◌ (require_memory policy (config.workers * config.block_size_bytes))
        (require_timeout policy timeout_seconds))

module _ {F W : Type 0} ⦃o : Floats F⦄ (host : Host F W) (d : Digests) where
  -- `config.expected_checksum or _reference_checksum(config, context)`
  abbrev pub given_or_reference :
      F → IntegerWorkloadConfig → Option String → Action (Session W) String
  given_or_reference deadline config none = reference_checksum host d deadline config
  given_or_reference deadline config (some s) =
      if s == "" then reference_checksum host d deadline config else pure s

  -- The workers, in the order of the host's schedule, and their combined checksum.
  unfoldable pub concurrent_checksum : F → IntegerWorkloadConfig → Action (Session W) String
  unfolding run_pool submit combine_worker_digests operation_counts
  concurrent_checksum deadline config = do
    schedule ← ask host.schedule
    digests ←
        run_pool host d deadline schedule
          (submit d config.block_size_bytes 0 (operation_counts config.operations config.workers))
    pure (combine_worker_digests d digests)

  -- The workers and the result, once there is an expected checksum.
  unfoldable pub run_and_compare :
      IntegerWorkloadConfig → F × (Timestamp × F) → String → Action (Session W) (WorkloadResult F)
  unfolding concurrent_checksum integer_result
  run_and_compare config (deadline, (started_at, total_start)) expected = do
    measured_start ← ask host.perf_counter
    checksum ← concurrent_checksum deadline config
    measured_end ← ask host.perf_counter
    ended_at ← ask host.utc_now
    total_end ← ask host.perf_counter
    lift (
        make_workload_result (
          integer_result config expected checksum (record {
            started_at = started_at;
            ended_at = ended_at;
            duration = o.sub total_end total_start;
            measured_seconds = o.sub measured_end measured_start;
          })))

  unfoldable pub integer_body :
      IntegerWorkloadConfig → F × (Timestamp × F) → Action (Session W) (WorkloadResult F)
  unfolding run_and_compare
  integer_body config (deadline, clocks) = do
    expected ← given_or_reference deadline config config.expected_checksum
    run_and_compare config (deadline, clocks) expected

  unfoldable pub run_integer_workload :
      IntegerWorkloadConfig → F → SafetyPolicy F → Action (Session W) (WorkloadResult F)
  unfolding begin integer_body
  run_integer_workload config timeout_seconds policy = do
    lift (require_limits config timeout_seconds policy)
    clocks ← begin host timeout_seconds
    integer_body config clocks
