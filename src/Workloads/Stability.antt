-- ===== src/Workloads/Stability.antt =====
-- `run_stability_workload` (src/platval/workloads/cpu.py): the integer workload again and again,
-- each time against the checksum of the time before.
pub mod Correct
-- What the loop carries: the checksum to expect, whether all was correct so far, the durations.
use pc_platform_validation_t.Base.{
  if◌then◌else◌, all, nat_eq, string_eq, option_eq, type_error, key_error, Result, ok, raise, ℕ,
  zero, suc, ◌%◌, String, Bool, true, false, not, ◌&&◌, Option, none, some, List, [], ◌∷◌, ◌++◌,
  map,
}
use pc_platform_validation_t.Base.Action.{Action, ◌>>=◌, ◌>>◌, pure, lift}
use pc_platform_validation_t.Base.Dict.{lookup}
use pc_platform_validation_t.Base.Int.{pos}
use pc_platform_validation_t.Base.Floats.{int, float, Floats, float_lt, zero_float}
use pc_platform_validation_t.Models.Scalar.{Scalar, bool, integer, real}
use pc_platform_validation_t.Models.Results.{Timestamp}
use pc_platform_validation_t.Workloads.Control.{remaining_seconds}
use pc_platform_validation_t.Workloads.Safety.{SafetyPolicy, require_timeout}
use pc_platform_validation_t.Workloads.Timing.{rate_per_second}
use pc_platform_validation_t.Workloads.Output.{WorkloadResult, make_workload_result}
use pc_platform_validation_t.Workloads.Host.{Digests, Host, Session, ask, tick}
use pc_platform_validation_t.Workloads.Config.{IntegerWorkloadConfig, StabilityWorkloadConfig}
use pc_platform_validation_t.Workloads.Integer.Run.{
  measured, optional_real, Timing, run_integer_workload,
}

pub record Repeated (F : Type 0) : Type 0 where
  pub expected_checksum : Option String
  pub correct : Bool
  pub durations : List F

module _ {F : Type 0} ⦃o : Floats F⦄ where
  -- `float(value)` where `isinstance(value, (int, float))`, which a bool is too.
  unfoldable pub as_float : Scalar F → Result F
  as_float (integer n) = ok (o.of_int n)
  as_float (real x) = ok x
  as_float (bool false) = ok (o.of_int (pos 0))
  as_float (bool true) = ok (o.of_int (pos 1))
  as_float _ = raise type_error "integer workload returned a non-numeric duration"

  unfoldable pub measured_duration : WorkloadResult F → Result F
  unfolding as_float
  measured_duration r = elim (lookup "measured_duration" r.measurements) [
    | none ↦ raise key_error "measured_duration"
    | some m ↦ as_float m.value
  ]

  unfoldable pub stability_result :
      StabilityWorkloadConfig → Repeated F → F → F → Timing F → WorkloadResult F
  stability_result config repeated median mad t = record {
    workload = "scheduler_stability";
    started_at = t.started_at;
    ended_at = t.ended_at;
    duration_seconds = t.duration;
    correct = repeated.correct;
    checksum = repeated.expected_checksum;
    measurements =
        ("repetitions", measured (integer (pos config.repetitions)) (some "runs"))
        ∷ ("median_duration", measured (real median) (some "seconds"))
        ∷ ("median_absolute_deviation", measured (real mad) (some "seconds"))
        ∷ (
          "robust_variability",
          measured (optional_real (rate_per_second (o.mul (o.literal 100 0) mad) median))
              (some "%"),
        )
        ∷ [];
    notes = "High timing variability is evidence for a WARN, not proof of a hardware defect." ∷ [];
  }

module _ {F W : Type 0} ⦃o : Floats F⦄ (host : Host F W) where
  -- `context.remaining_seconds()`
  unfoldable pub remaining : F → Action (Session W) F
  unfolding tick
  remaining deadline = do
    tick host deadline
    now ← ask host.monotonic
    let left = o.sub deadline now
    pure (if float_lt zero_float left then left else zero_float)

  -- What follows the loop, with `statistics.median`, which raises on no data.
  unfoldable pub summarize_runs :
      (List F → Result F)
      → StabilityWorkloadConfig
      → Timestamp × F
      → Repeated F
      → Action (Session W) (WorkloadResult F)
  unfolding stability_result
  summarize_runs median config (started_at, started) repeated = do
    middle ← lift (median repeated.durations)
    mad ← lift (median (map (λ value. o.abs (o.sub value middle)) repeated.durations))
    ended_at ← ask host.utc_now
    ended ← ask host.perf_counter
    lift (
        make_workload_result (
          stability_result config repeated middle mad (record {
            started_at = started_at;
            ended_at = ended_at;
            duration = o.sub ended started;
            measured_seconds = o.sub ended started;
          })))

  module _ (d : Digests) where
    unfoldable pub repeat_once :
        IntegerWorkloadConfig → SafetyPolicy F → F → Repeated F → Action (Session W) (Repeated F)
    unfolding remaining run_integer_workload measured_duration
    repeat_once config policy deadline repeated = do
      left ← remaining deadline
      result ←
          run_integer_workload host d
            (record config { expected_checksum = repeated.expected_checksum }) left policy
      duration ← lift (measured_duration result)
      pure (record {
        expected_checksum = result.checksum;
        correct = repeated.correct && result.correct;
        durations = repeated.durations ++ (duration ∷ []);
      })

    unfoldable pub repeat_workload :
        IntegerWorkloadConfig
        → SafetyPolicy F
        → F
        → ℕ
        → Repeated F
        → Action (Session W) (Repeated F)
    unfolding repeat_once
    repeat_workload config policy deadline zero repeated = pure repeated
    repeat_workload config policy deadline (suc n) repeated = do
      repeated' ← repeat_once config policy deadline repeated
      repeat_workload config policy deadline n repeated'

    unfoldable pub run_stability_workload :
        (List F → Result F)
        → StabilityWorkloadConfig
        → F
        → SafetyPolicy F
        → Action (Session W) (WorkloadResult F)
    unfolding repeat_workload summarize_runs
    run_stability_workload median config timeout_seconds policy = do
      lift (require_timeout policy timeout_seconds)
      now ← ask host.monotonic
      started_at ← ask host.utc_now
      started ← ask host.perf_counter
      repeated ←
          repeat_workload config.integer policy (o.add now timeout_seconds) config.repetitions
            (record {
              expected_checksum = config.integer.expected_checksum;
              correct = true;
              durations = [];
            })
      summarize_runs median config (started_at, started) repeated
