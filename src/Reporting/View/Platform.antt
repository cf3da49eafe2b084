-- ===== src/Reporting/View/Platform.antt =====
-- What the view shows of the platform (src/platval/reporting/view.py).
-- `a or default` on an optional text, and whether it is there.
use pc_platform_validation_t.Base.{
  if◌then◌else◌, ◌==◌, nat_eq, string_eq, option_eq, ℕ, zero, suc, String, ◌<>◌, Bool, false, not,
  Option, none, some, List, [], ◌∷◌,
}
use pc_platform_validation_t.Base.Int.{pos}
use pc_platform_validation_t.Base.Floats.{Floats}
use pc_platform_validation_t.Models.Platform.{PlatformIdentity}
use pc_platform_validation_t.Reporting.View.{
  ValueClass, measured, derived, unavailable, ReportValue, Formats,
}

abbrev text_or : Option String → String → String
text_or none default = default
text_or (some s) default = if s == "" then default else s

abbrev is_given : Option String → Bool
is_given none = false
is_given (some s) = not (s == "")

abbrev value_of : String → String → Option String → ValueClass → Option String → ReportValue
value_of name display_value unit classification source = record {
  name = name;
  display_value = display_value;
  unit = unit;
  classification = classification;
  source = source;
}

-- A value that the platform may not have.
unfoldable pub optional_value : String → Option String → Option String → Option String → ReportValue
optional_value name value source absent_source =
    if is_given value
    then value_of name (text_or value "UNAVAILABLE") none measured source
    else value_of name (text_or value "UNAVAILABLE") none unavailable absent_source

module _ {F : Type 0} ⦃o : Floats F⦄ (formats : Formats F) where
  -- `f"{value / (1024**3):.2f}"`
  unfoldable pub gib : ℕ → String
  gib value = formats.fixed 2 (o.div (o.of_int (pos value)) (o.of_int (pos 1_073_741_824)))

  -- `platform.physical_processor_count or "UNAVAILABLE"`
  abbrev count_or : Option ℕ → String
  count_or none = "UNAVAILABLE"
  count_or (some zero) = "UNAVAILABLE"
  count_or (some (suc n)) = formats.decimal (pos (suc n))

  unfoldable pub platform_values : PlatformIdentity → List ReportValue
  unfolding optional_value gib
  platform_values p =
      let probe = p.native_probe_version in
      let cpu_source = if is_given probe then "native probe" else "operating system" in
      value_of "Operating system" (p.operating_system <> " " <> p.operating_system_version) none
        measured (some "inventory")
      ∷ value_of "Architecture" p.architecture none measured (some "inventory")
      ∷ optional_value "CPU" p.cpu_brand (some cpu_source) (some cpu_source)
      ∷ value_of "Processors"
          (count_or p.physical_processor_count
            <> " physical / "
            <> formats.decimal (pos p.logical_processor_count)
            <> " logical")
          none measured (some "psutil")
      ∷ value_of "Memory capacity" (gib p.total_memory_bytes) (some "GiB") measured (some "psutil")
      ∷ value_of "Storage capacity" (gib p.storage_volume.capacity_bytes) (some "GiB") measured
          (some "psutil")
      ∷ value_of "Storage free at inventory" (gib p.storage_volume.free_bytes) (some "GiB") measured
          (some "psutil")
      ∷ optional_value "Power plan" p.power_plan_name (some "powercfg") none
      ∷ optional_value "Native probe" probe (some "cpuid_probe") none
      ∷ value_of "Sanitized fingerprint" p.sanitized_platform_fingerprint none derived
          (some "SHA-256 configuration allowlist")
      ∷ []
