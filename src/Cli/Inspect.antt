-- ===== src/Cli/Inspect.antt =====
-- `version`, `inventory` and `doctor` (src/platval/cli.py).
use pc_platform_validation_t.Base.{
  if◌then◌else◌, nat_eq, string_eq, option_eq, ℕ, String, ◌<>◌, Bool, true, false, Option, none,
  some, List, [], ◌∷◌, map,
}
use pc_platform_validation_t.Base.Action.{◌>>=◌, query}
use pc_platform_validation_t.Doctor.{DoctorStatus}
use pc_platform_validation_t.Runner.Run.{tool_version}
use pc_platform_validation_t.Cli.{
  snapshot_json, doctor_json, Line, echo, echo_error, printed, printed_table, printed_json, Ended,
  Command, Services, finish, catching, os_or_value,
}
use pc_platform_validation_t.Cli.Tables.{doctor_table, platform_table}

unfoldable pub limitation_lines : {F : Type 0} → List String → List (Line F)
limitation_lines = map (λ limitation. printed ("[yellow]WARN[/yellow] " <> limitation))

module _ {W F : Type 0} (services : Services W F) where
  unfoldable pub inventory_command : Bool → String → Option String → Command W F
  unfolding limitation_lines platform_table
  inventory_command json_output storage_path native_probe = do
    probe ← query (services.locate_native_probe native_probe)
    catching (services.collect_platform_inventory storage_path probe) os_or_value
        (λ e. finish 2 (echo_error ("Inventory failed: " <> e.message) ∷ []))
        (λ snapshot. finish 0 (
          if json_output
          then printed_json (snapshot_json snapshot) ∷ []
          else printed_table (platform_table services snapshot.platform)
            ∷ limitation_lines snapshot.limitations))

  unfoldable pub doctor_exit_code : DoctorStatus → ℕ
  doctor_exit_code DoctorStatus.fail = 3
  doctor_exit_code _ = 0

  unfoldable pub doctor_command : Bool → String → Option String → Command W F
  unfolding doctor_exit_code doctor_table
  doctor_command json_output runtime_directory native_probe = do
    probe ← query (services.locate_native_probe native_probe)
    report ← services.run_doctor runtime_directory probe
    finish (doctor_exit_code report.overall_status) (
        (if json_output
          then printed_json (doctor_json report)
          else printed_table (doctor_table report))
        ∷ [])

-- `--version`: the text, and the end of the command.
unfoldable pub version_callback : {F : Type 0} → Bool → Option (Ended F)
version_callback true =
    some (record { exit_code = 0; lines = echo ("platval " <> tool_version) ∷ [] })
version_callback false = none
