-- ===== src/Reporting/Markdown.antt =====
-- The Markdown report (src/platval/reporting/renderers.py).
use Prim.Native.Char.{code}
use pc_platform_validation_t.Base.{
  if◌then◌else◌, ◌==◌, nat_eq, string_eq, option_eq, ℕ, String, ◌<>◌, List, [], ◌∷◌, ◌++◌, map,
}
use pc_platform_validation_t.Base.Int.{pos}
use pc_platform_validation_t.Models.Status.{ResultStatus, pass, fail, warn, skip, error, status_eq}
use pc_platform_validation_t.Reporting.View.{
  ReportValue, ReportRequirement, ReportTest, ReportView, Formats,
}
use pc_platform_validation_t.Reporting.Names.{
  status_value, operator_value, class_value, or_else, if_filled, join,
}

-- `s.replace(c, t)` for a single character.
unfoldable pub replace_character : ℕ → String → String → String
replace_character c t String.[] = ""
replace_character c t (String.◌∷◌ d s) =
    let rest = replace_character c t s in if code d == c then t <> rest else String.◌∷◌ d rest

unfoldable pub markdown_escape : String → String
unfolding replace_character
markdown_escape s = replace_character b'\n' " " (replace_character b'|' "\\|" s)

abbrev pub table_line : List String → String
table_line cells = "| " <> join " | " cells <> " |"

unfoldable pub markdown_row : List String → String
unfolding markdown_escape
markdown_row row = table_line (map markdown_escape row)

unfoldable pub markdown_table : List String → List (List String) → List String
unfolding markdown_row
markdown_table headers rows =
    table_line headers ∷ table_line (map (λ _. "---") headers) ∷ map markdown_row rows

-- `_STATUS_SYMBOLS`
unfoldable pub status_symbol : ResultStatus → String
status_symbol pass = "✓"
status_symbol fail = "✗"
status_symbol warn = "!"
status_symbol skip = "↷"
status_symbol error = "x"

unfoldable pub value_row : ReportValue → List String
unfolding class_value
value_row v =
    v.name
    ∷ v.display_value
    ∷ or_else v.unit "—"
    ∷ class_value v.classification
    ∷ or_else v.source "—"
    ∷ []

abbrev pub statistic_row : ReportValue → List String
statistic_row v = v.name ∷ v.display_value ∷ or_else v.unit "—" ∷ or_else v.source "—" ∷ []

unfoldable pub requirement_row : {F : Type 0} → ReportRequirement F → List String
unfolding class_value operator_value
requirement_row r =
    (if r.passed then "PASS" else "FAIL")
    ∷ r.metric
    ∷ operator_value r.operator
    ∷ (r.expected <> " [" <> class_value r.expected_classification <> "]")
    ∷ (r.actual <> " [" <> class_value r.actual_classification <> "]")
    ∷ or_else r.unit "—"
    ∷ []

module _ {F : Type 0} (formats : Formats F) where
  unfoldable pub identity_lines : ReportView F → List String
  unfolding markdown_table status_value
  identity_lines view =
      ("# PC Platform Validation Report — " <> status_value view.overall_status)
        ∷ ""
        ∷ "## Run identity"
        ∷ ""
        ∷ markdown_table ("Field" ∷ "Value" ∷ []) (
            ("Run ID" ∷ view.run_id ∷ [])
            ∷ ("Plan" ∷ view.plan_name ∷ [])
            ∷ ("Plan hash" ∷ view.plan_hash ∷ [])
            ∷ ("Tool version" ∷ view.tool_version ∷ [])
            ∷ ("Started" ∷ view.started_at ∷ [])
            ∷ ("Ended" ∷ view.ended_at ∷ [])
            ∷ [])
      ++ "" ∷ []

  unfoldable pub summary_lines : ReportView F → List String
  unfolding markdown_table status_value
  summary_lines view =
      "## Result summary"
        ∷ ""
        ∷ markdown_table ("Status" ∷ "Count" ∷ []) (
            map
              (λ (entry : ResultStatus × ℕ).
                status_value (entry.0) ∷ formats.decimal (pos (entry.1)) ∷ [])
              view.result_counts)
      ++ "" ∷ []

  unfoldable pub platform_lines : ReportView F → List String
  unfolding value_row markdown_table
  platform_lines view =
      "## Sanitized platform"
        ∷ ""
        ∷ markdown_table ("Field" ∷ "Value" ∷ "Unit" ∷ "Classification" ∷ "Source" ∷ [])
            (map value_row view.platform_values)
      ++ "" ∷ []

  unfoldable pub synthetic_lines : ReportView F → List String
  synthetic_lines view =
      if view.contains_simulated_data
      then "> **Synthetic evidence present.** Injected results are labelled per test and must not be interpreted as hardware observations."
        ∷ "" ∷ []
      else []

  unfoldable pub heading_lines : ReportTest F → List String
  unfolding status_symbol status_value
  heading_lines t =
      ("## " <> t.test_id <> " — " <> status_symbol t.status <> " " <> status_value t.status)
        ∷ ""
        ∷ ("Duration: " <> formats.fixed 6 t.duration_seconds <> " seconds")
        ∷ ("Injected: " <> (if t.injected then "yes" else "no"))
        ∷ ""
        ∷ if_filled t.failure_reason (λ reason. ("Reason: " <> reason) ∷ "" ∷ [])
      ++ if_filled t.exception_summary (λ s. ("Exception summary: `" <> s <> "`") ∷ "" ∷ [])

  -- A table of the rows, or a sentence if there are none.
  unfoldable pub table_or : String → List String → List (List String) → List String
  unfolding markdown_table
  table_or sentence headers [] = sentence ∷ []
  table_or sentence headers (row ∷ rows) = markdown_table headers (row ∷ rows)

  unfoldable pub evidence_lines : ReportTest F → List String
  unfolding table_or requirement_row value_row markdown_table
  evidence_lines t =
      "### Measurements"
        ∷ ""
        ∷ table_or "No workload measurements were recorded."
            ("Metric" ∷ "Value" ∷ "Unit" ∷ "Classification" ∷ "Source" ∷ [])
            (map value_row t.metrics)
      ++ ""
        ∷ "### Requirements"
        ∷ ""
        ∷ table_or "No explicit requirements were configured."
            ("Result" ∷ "Metric" ∷ "Operator" ∷ "Configured expected" ∷ "Measured actual" ∷ "Unit"
              ∷ [])
            (map requirement_row t.requirements)

  abbrev pub listed_or : String → List String → String
  listed_or default [] = default
  listed_or default (s ∷ ss) = join ", " (s ∷ ss)

  abbrev pub unavailable_lines : List String → List String
  unavailable_lines [] = []
  unavailable_lines (s ∷ ss) = "" ∷ ("Unavailable telemetry: " <> join ", " (s ∷ ss) <> ".") ∷ []

  unfoldable pub telemetry_lines : ReportTest F → List String
  unfolding markdown_table
  telemetry_lines t =
      ""
        ∷ "### Telemetry"
        ∷ ""
        ∷ markdown_table ("Derived statistic" ∷ "Value" ∷ "Unit" ∷ "Source" ∷ [])
            (map statistic_row t.telemetry_values)
      ++ unavailable_lines t.unavailable_telemetry
      ++ if_filled t.telemetry_chart_svg (λ chart. "" ∷ chart ∷ [])
      ++ "" ∷ ("Evidence references: " <> listed_or "none recorded" t.evidence_references) ∷ "" ∷ []

  unfoldable pub test_lines : List (ReportTest F) → List String
  unfolding heading_lines evidence_lines telemetry_lines
  test_lines [] = []
  test_lines (t ∷ ts) = heading_lines t ++ evidence_lines t ++ telemetry_lines t ++ test_lines ts

  abbrev pub items_or_none : List String → List String
  items_or_none [] = "- None recorded." ∷ []
  items_or_none (s ∷ ss) = map (λ item. "- " <> item) (s ∷ ss)

  unfoldable pub closing_lines : ReportView F → List String
  closing_lines view =
      "## Warnings" ∷ "" ∷ items_or_none view.warnings
      ++ "" ∷ "## Limitations" ∷ "" ∷ items_or_none view.limitations
      ++ "" ∷ "## Interpretation notes" ∷ ""
        ∷ "- Results are local software observations, not hardware certification."
        ∷ "- A failed test supports further diagnosis but does not alone prove defective hardware."
        ∷ "- Timing can be influenced by scheduler activity, power policy, background load, and unavailable thermal data."
        ∷ "- Missing telemetry is reported as unavailable and is never represented as numeric zero."
        ∷ "" ∷ []

  unfoldable pub report_lines : ReportView F → List String
  unfolding identity_lines summary_lines platform_lines synthetic_lines test_lines closing_lines
  report_lines view =
      identity_lines view
      ++ summary_lines view
      ++ platform_lines view
      ++ synthetic_lines view
      ++ test_lines view.tests
      ++ closing_lines view

  unfoldable pub render_markdown : ReportView F → String
  unfolding report_lines
  render_markdown view = join "\n" (report_lines view)
