-- ===== src/Reporting/View/Telemetry.antt =====
-- What the view shows of a test's telemetry (src/platval/reporting/view.py).
-- The readings that are there, in the order of the samples.
use pc_platform_validation_t.Base.{
  if◌then◌else◌, nat_eq, string_eq, option_eq, length, ℕ, max, String, Option, none, some, List, [],
  ◌∷◌, ◌++◌, map,
}
use pc_platform_validation_t.Base.Int.{pos}
use pc_platform_validation_t.Base.Floats.{Floats, float_lt}
use pc_platform_validation_t.Models.Scalar.{real}
use pc_platform_validation_t.Models.Telemetry.{TelemetrySample}
use pc_platform_validation_t.Reporting.View.{derived, ReportValue, Formats, display}

unfoldable pub present : {A B : Type 0} → (A → Option B) → List A → List B
present f [] = []
present f (x ∷ xs) = elim (f x) [ none ↦ present f xs | some y ↦ y ∷ present f xs ]

abbrev series_value : String → String → String → ReportValue
series_value name display_value unit = record {
  name = name;
  display_value = display_value;
  unit = some unit;
  classification = derived;
  source = some "telemetry series";
}

module _ {F : Type 0} ⦃o : Floats F⦄ where
  -- `max` and `min` of a list that starts with `x`; the first of equal values wins.
  unfoldable pub maximum : F → List F → F
  maximum x [] = x
  maximum x (y ∷ ys) = maximum (if float_lt x y then y else x) ys

  unfoldable pub minimum : F → List F → F
  minimum x [] = x
  minimum x (y ∷ ys) = minimum (if float_lt y x then y else x) ys

unfoldable pub largest : ℕ → List ℕ → ℕ
largest n [] = n
largest n (m ∷ ms) = largest (max n m) ms

unfoldable pub temperatures_of : {F : Type 0} → List (TelemetrySample F) → List F
temperatures_of [] = []
temperatures_of (s ∷ ss) = map (λ r. r.value) s.temperatures ++ temperatures_of ss

module _ {F : Type 0} ⦃o : Floats F⦄ (formats : Formats F) where
  unfoldable pub cpu_values : List F → List ReportValue
  unfolding maximum minimum display
  cpu_values [] = []
  cpu_values (x ∷ xs) =
      series_value "CPU utilization minimum" (display formats (real (minimum x xs))) "%"
      ∷ series_value "CPU utilization average" (display formats (real (formats.mean (x ∷ xs)))) "%"
      ∷ series_value "CPU utilization maximum" (display formats (real (maximum x xs))) "%"
      ∷ []

  unfoldable pub memory_values : List ℕ → List ReportValue
  unfolding largest
  memory_values [] = []
  memory_values (n ∷ ns) =
      series_value "Peak process memory"
        (formats.fixed 2 (o.div (o.of_int (pos (largest n ns))) (o.of_int (pos 1_048_576)))) "MiB"
      ∷ []

  unfoldable pub temperature_values : List F → List ReportValue
  unfolding maximum display
  temperature_values [] = []
  temperature_values (x ∷ xs) =
      series_value "Maximum reported temperature" (display formats (real (maximum x xs))) "degC"
      ∷ []

  unfoldable pub telemetry_values : List (TelemetrySample F) → List ReportValue
  unfolding present cpu_values memory_values temperature_values temperatures_of
  telemetry_values samples =
      series_value "Sample count" (formats.decimal (pos (length samples))) "samples"
        ∷ cpu_values (present (λ s. s.cpu_utilization_percent) samples)
      ++ memory_values (present (λ s. s.process_memory_bytes) samples)
      ++ temperature_values (temperatures_of samples)
