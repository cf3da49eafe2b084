-- ===== src/Runner/Machine.antt =====
-- What the runner calls and does not implement itself: the clocks, the file system, inventory
-- collection, the workloads and the telemetry sampler, over a world `W`.
use pc_platform_validation_t.Base.{nat_eq, string_eq, option_eq, ℕ, String, Bool, Option, List}
use pc_platform_validation_t.Base.Action.{Action}
use pc_platform_validation_t.Models.Results.{Timestamp}
use pc_platform_validation_t.Models.Telemetry.{TelemetrySample}
use pc_platform_validation_t.Inventory.{InventorySnapshot}
use pc_platform_validation_t.Workloads.Safety.{SafetyPolicy}
use pc_platform_validation_t.Workloads.Output.{WorkloadResult}
use pc_platform_validation_t.Workloads.Config.{
  IntegerWorkloadConfig, FloatingPointWorkloadConfig, MemoryWorkloadConfig, StorageWorkloadConfig,
  StabilityWorkloadConfig,
}

pub record Machine (F W : Type 0) : Type 0 where
  -- `datetime.now(UTC)` and `time.perf_counter()`
  pub utc_now : W → Timestamp × W
  pub perf_counter : W → F × W
  -- `str(uuid.uuid4())`
  pub new_run_id : W → String × W
  pub mkdir : String → Action W (Unit {0})
  pub is_dir : String → W → Bool × W
  pub resolve : String → W → String × W
  -- `collect_platform_inventory` for a storage path and an optional probe
  pub collect_inventory : String → Option String → Action W InventorySnapshot
  -- available memory and the processor counts that `SafetyPolicy.detected` reads
  pub available_memory : W → ℕ × W
  pub cpu_counts : W → (Option ℕ × Option ℕ) × W
  -- whether the token of the run is cancelled
  pub run_cancelled : W → Bool × W
  -- the workloads, with a timeout, a policy and a child of the run's token
  pub run_integer : IntegerWorkloadConfig → F → SafetyPolicy F → Action W (WorkloadResult F)
  pub run_floating_point :
      FloatingPointWorkloadConfig F → F → SafetyPolicy F → Action W (WorkloadResult F)
  pub run_memory : MemoryWorkloadConfig → F → SafetyPolicy F → Action W (WorkloadResult F)
  pub run_storage :
      StorageWorkloadConfig → String → F → SafetyPolicy F → Action W (WorkloadResult F)
  pub run_stability : StabilityWorkloadConfig → F → SafetyPolicy F → Action W (WorkloadResult F)
  -- the sampler: its construction and start, with the interval, the storage path and the most
  -- samples, and its stop
  pub sampler_start : F → String → ℕ → Action W (Unit {0})
  pub sampler_stop : Action W (List (TelemetrySample F))
