-- ===== src/Collectors.antt =====
-- Capability discovery (src/platval/collectors/capabilities.py). Whether psutil exposes the CPU
-- frequency and a temperature source is read outside; the rest is fixed.
pub mod Sampler
use pc_platform_validation_t.Base.{
  if◌then◌else◌, nat_eq, string_eq, option_eq, String, Bool, true, Option, none, some, List, [],
  ◌∷◌,
}

pub record CollectorCapability : Type 0 where
  pub metric : String
  pub available : Bool
  pub source : String
  pub unit : Option String
  pub limitation : Option String

abbrev measured : String → String → CollectorCapability
measured metric unit = record {
  metric = metric;
  available = true;
  source = "psutil";
  unit = some unit;
  limitation = none;
}

abbrev optional : String → String → Bool → String → CollectorCapability
optional metric unit available limitation = record {
  metric = metric;
  available = available;
  source = "psutil";
  unit = some unit;
  limitation = if available then none else some limitation;
}

unfoldable pub discover_psutil_capabilities : Bool → Bool → List CollectorCapability
discover_psutil_capabilities frequency_available temperature_available =
    measured "cpu_utilization" "%"
    ∷ measured "per_core_utilization" "%"
    ∷ optional "cpu_frequency" "MHz" frequency_available "CPU frequency is not exposed by psutil."
    ∷ measured "process_cpu" "%"
    ∷ measured "process_memory" "bytes"
    ∷ measured "available_memory" "bytes"
    ∷ measured "disk_free" "bytes"
    ∷ optional "temperature" "degC" temperature_available
        "A trustworthy temperature source is unavailable; runtime limits remain conservative."
    ∷ []
