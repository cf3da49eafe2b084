-- ===== src/Workloads/Output.antt =====
-- Workload output (src/platval/workloads/models.py).
use pc_platform_validation_t.Base.{
  nat_eq, string_eq, option_eq, String, Bool, Option, List, ltb, value_error, Result, ok, ◌>>=◌,
  ◌>>◌, raise_if, ◌≡◌, arith,
}
use pc_platform_validation_t.Base.Dict.{Dict}
use pc_platform_validation_t.Models.Scalar.{Scalar}
use pc_platform_validation_t.Models.Results.{Timestamp, require_aware_timestamp}

pub record WorkloadMeasurement (F : Type 0) : Type 0 where
  pub value : Scalar F
  pub unit : Option String

pub record WorkloadResult (F : Type 0) : Type 0 where
  pub workload : String
  pub started_at : Timestamp
  pub ended_at : Timestamp
  pub duration_seconds : F
  pub correct : Bool
  pub checksum : Option String
  pub measurements : Dict String (WorkloadMeasurement F)
  pub notes : List String

-- `WorkloadResult(...)`: the validators of the timestamps, then the model's.
unfoldable pub make_workload_result : {F : Type 0} → WorkloadResult F → Result (WorkloadResult F)
unfolding require_aware_timestamp
make_workload_result r = do
  _ ← require_aware_timestamp r.started_at
  _ ← require_aware_timestamp r.ended_at
  raise_if (ltb r.ended_at.instant r.started_at.instant) value_error
      "ended_at must not precede started_at"
  ok r

-- A result that was made is the one that was given.
pub make_workload_result-eq :
    {F : Type 0} (r r' : WorkloadResult F) → make_workload_result r ≡ ok r' → r' ≡ r
unfolding make_workload_result
make_workload_result-eq r r' h = ground arith
