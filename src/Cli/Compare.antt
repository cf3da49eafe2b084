-- ===== src/Cli/Compare.antt =====
-- The commands on baselines (src/platval/cli.py), with the texts of a comparison's warnings
-- (src/platval/baselines/service.py).
use pc_platform_validation_t.Base.{
  if◌then◌else◌, nat_eq, string_eq, option_eq, String, ◌<>◌, Bool, List, [], ◌∷◌, ◌++◌, map,
}
use pc_platform_validation_t.Models.Status.{status_eq}
use pc_platform_validation_t.Baselines.{
  ComparisonWarning, self_comparison, power_plans_differ, platforms_differ, plans_differ,
  units_differ, no_metrics, temperature_unavailable, ComparisonReport, key_eq,
}
use pc_platform_validation_t.Cli.{
  baseline_json, baselines_json, comparison_json, Line, echo, printed, printed_table, printed_json,
  Command, Services, finish, fail_with, catching, os_or_persistence, os_value_or_persistence,
}
use pc_platform_validation_t.Cli.Tables.{baselines_table, baseline_table, comparison_table}
use pc_platform_validation_t.Cli.Runs.{status_exit_code}

unfoldable pub warning_text : ComparisonWarning → String
warning_text self_comparison =
    "The baseline source and current run are identical; this is a self-comparison, not independent regression evidence."
warning_text power_plans_differ =
    "Recorded power plans differ; timing comparisons are not controlled for power policy."
warning_text platforms_differ =
    "Platform fingerprints differ; numeric regression conclusions were withheld."
warning_text plans_differ = "Plan hashes differ; numeric regression conclusions were withheld."
warning_text (units_differ (test_id, metric)) =
    test_id <> " " <> metric <> " units differ; that metric was not compared."
warning_text no_metrics = "No compatible registered performance metrics were available."
warning_text temperature_unavailable =
    "Temperature evidence is unavailable; thermal conditions cannot be excluded."

unfoldable pub interpretation : String
interpretation =
    "Performance differences are correlations, not proof of a hardware cause; background load, scheduling, power policy, caching, and thermal state may contribute."

module _ {W F : Type 0} (services : Services W F) where
  unfoldable pub baseline_create_command : String → String → Bool → String → Command W F
  unfolding fail_with
  baseline_create_command from_run name json_output runtime_directory =
      catching (services.create_baseline name from_run runtime_directory) os_value_or_persistence
        (fail_with "Baseline error")
        (λ baseline. finish 0 (
          (if json_output
            then printed_json (baseline_json baseline)
            else echo (
                "Created baseline "
                <> services.repr baseline.name
                <> " from run "
                <> baseline.source_run_id))
          ∷ []))

  unfoldable pub baseline_list_command : Bool → String → Command W F
  unfolding fail_with baselines_table
  baseline_list_command json_output runtime_directory =
      catching (services.list_baselines runtime_directory) os_or_persistence
        (fail_with "Baseline error")
        (λ baselines. finish 0 (
          (if json_output
            then printed_json (baselines_json baselines)
            else printed_table (baselines_table services baselines))
          ∷ []))

  unfoldable pub baseline_show_command : String → Bool → String → Command W F
  unfolding fail_with baseline_table
  baseline_show_command name json_output runtime_directory =
      catching (services.get_baseline name runtime_directory) os_or_persistence
        (fail_with "Baseline error")
        (λ baseline. finish 0 (
          (if json_output
            then printed_json (baseline_json baseline)
            else printed_table (baseline_table services baseline))
          ∷ []))

  unfoldable pub comparison_output : Bool → ComparisonReport F → List (Line F)
  unfolding comparison_table warning_text interpretation
  comparison_output json_output report =
      if json_output
      then printed_json (comparison_json report) ∷ []
      else printed_table (comparison_table services report)
          ∷ map (λ w. printed ("[yellow]WARN[/yellow] " <> warning_text w)) report.warnings
        ++ printed interpretation ∷ []

  unfoldable pub compare_command : String → String → F → F → Bool → String → Command W F
  unfolding comparison_output fail_with status_exit_code
  compare_command baseline_name run_id warning_threshold failure_threshold json_output
        runtime_directory =
      catching
        (services.compare_run baseline_name run_id runtime_directory warning_threshold
          failure_threshold)
        os_value_or_persistence (fail_with "Comparison error")
        (λ report.
          finish (status_exit_code report.overall_status) (comparison_output json_output report))
