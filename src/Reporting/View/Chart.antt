-- ===== src/Reporting/View/Chart.antt =====
-- The chart of CPU utilization over time (src/platval/reporting/view.py).
-- The elapsed time and the utilization of the samples that have one.
use pc_platform_validation_t.Base.{
  if◌then◌else◌, nat_eq, string_eq, option_eq, ℕ, String, ◌<>◌, Option, none, some, List, [], ◌∷◌,
  map,
}
use pc_platform_validation_t.Base.Int.{pos}
use pc_platform_validation_t.Base.Floats.{Floats, float_lt, float_eq, zero_float, hundred_float}
use pc_platform_validation_t.Models.Telemetry.{TelemetrySample}
use pc_platform_validation_t.Reporting.View.{Formats}
use pc_platform_validation_t.Reporting.View.Telemetry.{maximum}

unfoldable pub points_of : {F : Type 0} → List (TelemetrySample F) → List (F × F)
points_of [] = []
points_of (s ∷ ss) = elim s.cpu_utilization_percent [
  | none ↦ points_of ss
  | some utilization ↦ (s.elapsed_seconds, utilization) ∷ points_of ss
]

module _ {F : Type 0} ⦃o : Floats F⦄ where
  -- `max(...) or 1.0`
  unfoldable pub max_elapsed_of : F → List (F × F) → F
  unfolding maximum
  max_elapsed_of x points =
      let longest = maximum x (map (λ p. p.0) points) in
      if float_eq longest zero_float then o.literal 1 0 else longest

  -- `max(0.0, min(100.0, utilization))`
  unfoldable pub clamp : F → F
  clamp utilization =
      let below = if float_lt utilization hundred_float then utilization else hundred_float in
      if float_lt zero_float below then below else zero_float

  -- The chart is 648 wide and 166 high, from 54 on the left and 22 at the top.
  unfoldable pub x_of : F → F → F
  x_of max_elapsed elapsed =
      o.add (o.of_int (pos 54)) (o.mul (o.div elapsed max_elapsed) (o.of_int (pos 648)))

  unfoldable pub y_of : F → F
  unfolding clamp
  y_of utilization =
      o.add (o.of_int (pos 22)) (
        o.mul (o.sub (o.literal 1 0) (o.div (clamp utilization) hundred_float))
          (o.of_int (pos 166)))

  module _ (formats : Formats F) where
    unfoldable pub encode_points : F → List (F × F) → String
    unfolding x_of y_of
    encode_points max_elapsed [] = ""
    encode_points max_elapsed ((elapsed, utilization) ∷ []) =
        formats.fixed 2 (x_of max_elapsed elapsed) <> "," <> formats.fixed 2 (y_of utilization)
    encode_points max_elapsed ((elapsed, utilization) ∷ (p ∷ points)) =
        formats.fixed 2 (x_of max_elapsed elapsed)
        <> ","
        <> formats.fixed 2 (y_of utilization)
        <> " "
        <> encode_points max_elapsed (p ∷ points)

    -- A single point is a circle, more of them are a line.
    unfoldable pub series_element : F → List (F × F) → String
    unfolding x_of y_of encode_points
    series_element max_elapsed ((elapsed, utilization) ∷ []) =
        "<circle cx=\""
        <> formats.fixed 2 (x_of max_elapsed elapsed)
        <> "\" cy=\""
        <> formats.fixed 2 (y_of utilization)
        <> "\" r=\"4\" class=\"chart-point\" />"
    series_element max_elapsed points =
        "<polyline points=\"" <> encode_points max_elapsed points <> "\" class=\"chart-line\" />"

    unfoldable pub grid_line : ℕ → String
    unfolding y_of
    grid_line value =
        let y = y_of (o.of_int (pos value)) in
        "<line x1=\"54\" y1=\""
        <> formats.fixed 2 y
        <> "\" x2=\"702\" y2=\""
        <> formats.fixed 2 y
        <> "\" class=\"chart-grid\" /><text x=\"46\" y=\""
        <> formats.fixed 2 (o.add y (o.of_int (pos 4)))
        <> "\" text-anchor=\"end\" class=\"chart-label\">"
        <> formats.decimal (pos value)
        <> "</text>"

    unfoldable pub chart_frame : String
    chart_frame =
        "<line x1=\"54\" y1=\"22\" x2=\"54\" y2=\"188\" class=\"chart-axis\" />"
        <> "<line x1=\"54\" y1=\"188\" x2=\"702\" y2=\"188\" class=\"chart-axis\" />"

    unfoldable pub chart_labels : F → String
    chart_labels max_elapsed =
        let half : ℕ → F = λ n. o.div (o.of_int (pos n)) (o.of_int (pos 2)) in
        "<text x=\""
        <> formats.fixed 1 (half 720)
        <> "\" y=\"222\" text-anchor=\"middle\" class=\"chart-label\">Elapsed time (seconds)</text>"
        <> "<text x=\"14\" y=\""
        <> formats.fixed 1 (half 230)
        <> "\" text-anchor=\"middle\" transform=\"rotate(-90 14 115)\" class=\"chart-label\">"
        <> "CPU utilization (%)</text>"
        <> "<text x=\"702\" y=\"206\" text-anchor=\"end\" class=\"chart-label\">"
        <> formats.fixed 3 max_elapsed
        <> "s</text></svg>"

    unfoldable pub chart_title : String → String
    chart_title test_id =
        let safe_id = formats.escape test_id in
        "<svg viewBox=\"0 0 720 230\" role=\"img\" aria-labelledby=\"chart-title-" <> safe_id
        <> " chart-desc-" <> safe_id <> "\"><title id=\"chart-title-" <> safe_id <> "\">" <> safe_id
        <> " CPU utilization</title><desc id=\"chart-desc-" <> safe_id
        <> "\">CPU utilization percent over elapsed seconds.</desc>"

    unfoldable pub chart_of : String → List (F × F) → Option String
    unfolding max_elapsed_of chart_title grid_line chart_frame series_element chart_labels
    chart_of test_id [] = none
    chart_of test_id ((elapsed, utilization) ∷ points) =
        let max_elapsed = max_elapsed_of elapsed points in
        some (
          chart_title test_id
          <> grid_line 0
          <> grid_line 50
          <> grid_line 100
          <> chart_frame
          <> series_element max_elapsed ((elapsed, utilization) ∷ points)
          <> chart_labels max_elapsed)

    unfoldable pub cpu_chart : List (TelemetrySample F) → String → Option String
    unfolding points_of chart_of
    cpu_chart samples test_id = chart_of test_id (points_of samples)
