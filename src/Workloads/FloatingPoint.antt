-- ===== src/Workloads/FloatingPoint.antt =====
-- `run_floating_point_workload` (src/platval/workloads/cpu.py): a telescoping series with
-- compensated summation.
-- The total and its compensation.
use pc_platform_validation_t.Base.{
  if◌then◌else◌, ◌==◌, nat_eq, string_eq, option_eq, ℕ, zero, suc, ◌+◌, ◌*◌, ◌%◌, none, some, [],
  ◌∷◌,
}
use pc_platform_validation_t.Base.Action.{Action, ◌>>=◌, ◌>>◌, pure, lift}
use pc_platform_validation_t.Base.Int.{pos}
use pc_platform_validation_t.Base.Floats.{Floats, float_le, zero_float}
use pc_platform_validation_t.Models.Scalar.{real}
use pc_platform_validation_t.Models.Results.{Timestamp}
use pc_platform_validation_t.Workloads.Safety.{SafetyPolicy, require_timeout}
use pc_platform_validation_t.Workloads.Timing.{rate_per_second}
use pc_platform_validation_t.Workloads.Output.{WorkloadResult, make_workload_result}
use pc_platform_validation_t.Workloads.Host.{Host, Session, ask, tick, begin}
use pc_platform_validation_t.Workloads.Config.{FloatingPointWorkloadConfig}
use pc_platform_validation_t.Workloads.Integer.Run.{measured, optional_real, Timing}

pub record Summation (F : Type 0) : Type 0 where
  pub total : F
  pub compensation : F

module _ {F : Type 0} ⦃o : Floats F⦄ where
  -- A term of the series; `1.0 / n` takes the int as a float.
  unfoldable pub add_term : ℕ → Summation F → Summation F
  add_term index s =
      let term = o.div (o.literal 1 0) (o.of_int (pos (index * (index + 1)))) in
      let adjusted = o.sub term s.compensation in
      let updated = o.add s.total adjusted in
      record { total = updated; compensation = o.sub (o.sub updated s.total) adjusted }

  unfoldable pub floating_point_result :
      FloatingPointWorkloadConfig F → F → Timing F → WorkloadResult F
  floating_point_result config total t =
      let expected =
        o.div (o.of_int (pos config.iterations)) (o.of_int (pos (config.iterations + 1))) in
      let absolute_error = o.abs (o.sub total expected) in
      record {
        workload = "cpu_floating_point";
        started_at = t.started_at;
        ended_at = t.ended_at;
        duration_seconds = t.duration;
        correct = float_le absolute_error config.tolerance;
        checksum = none;
        measurements =
            ("actual", measured (real total) none)
            ∷ ("expected", measured (real expected) none)
            ∷ ("absolute_error", measured (real absolute_error) none)
            ∷ ("tolerance", measured (real config.tolerance) none)
            ∷ (
              "operations_per_second",
              measured
                  (optional_real (rate_per_second (o.of_int (pos config.iterations)) t.duration))
                  (some "terms/s"),
            )
            ∷ [];
        notes =
            "Floating-point results are evaluated against a local tolerance, not ranked across platforms."
            ∷ [];
      }

  module _ {W : Type 0} (host : Host F W) where
    -- The loop, which looks at its context at every multiple of 4096.
    unfoldable pub sum_loop : F → ℕ → ℕ → Summation F → Action (Session W) (Summation F)
    unfolding add_term
    sum_loop deadline index zero s = pure s
    sum_loop deadline index (suc n) s = do
      if index % 4096 == 0 then tick host deadline else pure tt
      sum_loop deadline (index + 1) n (add_term index s)

    unfoldable pub floating_point_body :
        FloatingPointWorkloadConfig F → F × (Timestamp × F) → Action (Session W) (WorkloadResult F)
    unfolding sum_loop floating_point_result
    floating_point_body config (deadline, (started_at, started)) = do
      s ←
          sum_loop deadline 1 config.iterations
            (record { total = zero_float; compensation = zero_float })
      tick host deadline
      ended ← ask host.perf_counter
      ended_at ← ask host.utc_now
      lift (
          make_workload_result (
            floating_point_result config s.total (record {
              started_at = started_at;
              ended_at = ended_at;
              duration = o.sub ended started;
              measured_seconds = o.sub ended started;
            })))

    unfoldable pub run_floating_point_workload :
        FloatingPointWorkloadConfig F → F → SafetyPolicy F → Action (Session W) (WorkloadResult F)
    unfolding begin floating_point_body
    run_floating_point_workload config timeout_seconds policy = do
      lift (require_timeout policy timeout_seconds)
      clocks ← begin host timeout_seconds
      floating_point_body config clocks
