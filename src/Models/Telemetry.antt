-- ===== src/Models/Telemetry.antt =====
-- Telemetry samples (src/platval/models/telemetry.py): absent readings stay absent.
use pc_platform_validation_t.Base.{
  any, nat_eq, string_eq, option_eq, value_error, Result, ok, ◌>>◌, raise_if, ℕ, String, ◌||◌,
  Option, none, some, List,
}
use pc_platform_validation_t.Base.Floats.{Floats, float_lt, zero_float, hundred_float}
use pc_platform_validation_t.Models.Results.{Timestamp}

pub record SensorReading (F : Type 0) : Type 0 where
  pub name : String
  pub value : F
  pub unit : String
  pub source : String

pub record TelemetrySample (F : Type 0) : Type 0 where
  pub elapsed_seconds : F
  pub timestamp : Timestamp
  pub cpu_utilization_percent : Option F
  pub per_core_utilization_percent : Option (List F)
  pub cpu_frequency_mhz : Option F
  pub process_cpu_percent : Option F
  pub process_memory_bytes : Option ℕ
  pub available_memory_bytes : Option ℕ
  pub disk_free_bytes : Option ℕ
  pub temperatures : List (SensorReading F)
  pub collector_errors : List String

unfoldable pub core_utilization_is_percentage :
    {F : Type 0} ⦃o : Floats F⦄ → Option (List F) → Result (Option (List F))
core_utilization_is_percentage none = ok none
core_utilization_is_percentage (some items) = do
  raise_if (any (λ x. float_lt x zero_float || float_lt hundred_float x) items) value_error
      "per-core utilization values must be between 0 and 100"
  ok (some items)
