-- ===== src/Runner/Execute.antt =====
-- `_execute_case`: which workload a test id stands for, and with which parameters.
use pc_platform_validation_t.Base.Action
use pc_platform_validation_t.Base.{
  if◌then◌else◌, ◌==◌, nat_eq, string_eq, option_eq, Result, ok, ◌>>=◌, ℕ, ◌*◌, min, String, ◌<>◌,
  Bool, true, false, ◌||◌, Option, none, some,
}
use pc_platform_validation_t.Base.Int.{pos}
use pc_platform_validation_t.Base.Action.{Action, pure, lift}
use pc_platform_validation_t.Base.Floats.{Floats}
use pc_platform_validation_t.Models.Plan.{FaultInjection, checksum_mismatch, TestDefinition}
use pc_platform_validation_t.Inventory.{InventorySnapshot}
use pc_platform_validation_t.Workloads.Safety.{SafetyPolicy}
use pc_platform_validation_t.Workloads.Output.{WorkloadResult}
use pc_platform_validation_t.Workloads.Config.{
  IntegerWorkloadConfig, FloatingPointWorkloadConfig, MemoryWorkloadConfig, StorageWorkloadConfig,
  StabilityWorkloadConfig, make_integer_config, make_floating_point_config, make_memory_config,
  make_storage_config, make_stability_config,
}
use pc_platform_validation_t.Runner.Parameters.{
  int_parameter, string_parameter, allocation_parameter, float_parameter,
}
use pc_platform_validation_t.Runner.Machine.{Machine}
use pc_platform_validation_t.Runner.Cases.{
  CaseExecution, skip_case, workload_case, inventory_case, telemetry_case, configuration_case,
  stability_case,
}

-- `"0" * 64`: the checksum that the injected fault expects.
abbrev pub injected_checksum : String
injected_checksum = "0000000000000000000000000000000000000000000000000000000000000000"

-- `test.fault_injection is FaultInjection.CHECKSUM_MISMATCH`
abbrev pub is_injected : Option FaultInjection → Bool
is_injected (some checksum_mismatch) = true
is_injected none = false

module _ {F : Type 0} where
  unfoldable pub expected_checksum : TestDefinition F → Result (Option String)
  unfolding string_parameter
  expected_checksum t =
      if is_injected t.fault_injection
      then ok (some injected_checksum)
      else string_parameter t "expected_checksum"

  unfoldable pub integer_config : TestDefinition F → ℕ → Result IntegerWorkloadConfig
  unfolding expected_checksum int_parameter make_integer_config
  integer_config t max_workers = do
    let workers_default = if t.id == "CPU-001" then 1 else min 2 max_workers
    expected ← expected_checksum t
    workers ← int_parameter t "workers" (pos workers_default)
    operations ← int_parameter t "workload_size" (pos 256)
    block_size_bytes ← int_parameter t "block_size_bytes" (pos (64 * 1024))
    make_integer_config workers operations block_size_bytes expected

  unfoldable pub memory_config : TestDefinition F → Result MemoryWorkloadConfig
  unfolding allocation_parameter make_memory_config
  memory_config t = do allocation ← allocation_parameter t; make_memory_config allocation

  unfoldable pub storage_config : TestDefinition F → Result StorageWorkloadConfig
  unfolding int_parameter make_storage_config
  storage_config t = do
    size_bytes ← int_parameter t "size_bytes" (pos (64 * 1024 * 1024))
    block_size_bytes ← int_parameter t "block_size_bytes" (pos (1024 * 1024))
    make_storage_config size_bytes block_size_bytes

  unfoldable pub stability_config : TestDefinition F → Result StabilityWorkloadConfig
  unfolding int_parameter make_integer_config make_stability_config
  stability_config t = do
    repetitions ← int_parameter t "repetitions" (pos 5)
    workers ← int_parameter t "workers" (pos 1)
    operations ← int_parameter t "workload_size" (pos 64)
    block_size_bytes ← int_parameter t "block_size_bytes" (pos (16 * 1024))
    config ← make_integer_config workers operations block_size_bytes none
    make_stability_config repetitions config

module _ {F : Type 0} ⦃o : Floats F⦄ where
  unfoldable pub floating_point_config : TestDefinition F → Result (FloatingPointWorkloadConfig F)
  unfolding int_parameter float_parameter make_floating_point_config
  floating_point_config t = do
    iterations ← int_parameter t "iterations" (pos 1_000_000)
    tolerance ← float_parameter t "tolerance" (o.literal 1 12)
    make_floating_point_config iterations tolerance

module _ {F W : Type 0} ⦃o : Floats F⦄ (machine : Machine F W) where
  -- Configure, run, and take the workload's case.
  abbrev run_workload :
      {C : Type 0} → Result C → (C → Action W (WorkloadResult F)) → Action W (CaseExecution F)
  run_workload config run =
      Action.◌>>=◌ (lift config) λ c. Action.◌>>=◌ (run c) λ result. pure (workload_case result)

  -- The stability case with its soft check, which reads the threshold only then.
  abbrev soft_check : Result F → Action W (CaseExecution F) → Action W (CaseExecution F)
  soft_check threshold m = Action.◌>>=◌ m λ c. lift (stability_case c threshold)

  unfoldable pub execute_case :
      TestDefinition F → InventorySnapshot → String → SafetyPolicy F → Action W (CaseExecution F)
  unfolding inventory_case workload_case telemetry_case stability_case configuration_case
      integer_config floating_point_config memory_config storage_config stability_config
      float_parameter
  execute_case t snapshot storage_root policy =
      let timeout = t.timeout_seconds in
      if t.id == "INV-001"
      then pure (inventory_case snapshot)
      else if t.id == "CPU-001" || t.id == "CPU-003"
      then run_workload (integer_config t policy.max_workers)
          (λ c. machine.run_integer c timeout policy)
      else if t.id == "CPU-002"
      then run_workload (floating_point_config t) (λ c. machine.run_floating_point c timeout policy)
      else if t.id == "MEM-001"
      then run_workload (memory_config t) (λ c. machine.run_memory c timeout policy)
      else if t.id == "STO-001"
      then run_workload (storage_config t) (λ c. machine.run_storage c storage_root timeout policy)
      else if t.id == "TEL-001"
      then lift (telemetry_case snapshot)
      else if t.id == "STB-001"
      then soft_check (float_parameter t "warn_variability_percent" (o.of_int (pos 50)))
          (run_workload (stability_config t) (λ c. machine.run_stability c timeout policy))
      else if t.id == "CFG-001"
      then pure (configuration_case snapshot)
      else if t.id == "REG-001"
      then pure (skip_case "baseline comparison is not available until Milestone 8")
      else pure (skip_case ("no workload implementation is registered for " <> t.id))
