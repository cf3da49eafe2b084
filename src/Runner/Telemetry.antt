-- ===== src/Runner/Telemetry.antt =====
-- The summary of a test's telemetry (src/platval/runner/engine.py).
use pc_platform_validation_t.Base.{
  if◌then◌else◌, is_some, any, ◌==◌, nat_eq, string_eq, option_eq, length, sum, String, Bool, true,
  false, not, List, [], ◌∷◌, map,
}
use pc_platform_validation_t.Base.Dict.{Dict}
use pc_platform_validation_t.Models.Results.{TelemetrySummary}
use pc_platform_validation_t.Models.Telemetry.{TelemetrySample}

abbrev selected : Bool → Dict String Bool → List String
selected wanted [] = []
selected wanted ((name, b) ∷ d) =
    if (if wanted then b else not b) then name ∷ selected wanted d else selected wanted d

module _ {F : Type 0} where
  abbrev availability : List (TelemetrySample F) → Dict String Bool
  availability samples =
      (
        "cpu_utilization",
        any (λ (s : TelemetrySample F). is_some s.cpu_utilization_percent) samples,
      )
      ∷ (
        "per_core_utilization",
        any (λ (s : TelemetrySample F). is_some s.per_core_utilization_percent) samples,
      )
      ∷ ("cpu_frequency", any (λ (s : TelemetrySample F). is_some s.cpu_frequency_mhz) samples)
      ∷ ("process_cpu", any (λ (s : TelemetrySample F). is_some s.process_cpu_percent) samples)
      ∷ ("process_memory", any (λ (s : TelemetrySample F). is_some s.process_memory_bytes) samples)
      ∷ (
        "available_memory",
        any (λ (s : TelemetrySample F). is_some s.available_memory_bytes) samples,
      )
      ∷ ("disk_free", any (λ (s : TelemetrySample F). is_some s.disk_free_bytes) samples)
      ∷ ("temperature", any (λ (s : TelemetrySample F). not (length s.temperatures == 0)) samples)
      ∷ []

  -- The names are distinct, so "not in available" is the complement.
  unfoldable pub telemetry_summary : List (TelemetrySample F) → TelemetrySummary
  telemetry_summary samples = record {
    sample_count = length samples;
    available_metrics = selected true (availability samples);
    unavailable_metrics = selected false (availability samples);
    collector_error_count =
        sum (map (λ (s : TelemetrySample F). length s.collector_errors) samples);
  }
