-- ===== src/Tests/Fixtures.antt =====
-- A small platform, plan, machine and database.
use pc_platform_validation_t.Base.{
  nat_eq, string_eq, option_eq, value_error, Result, ok, raised, raise, ℕ, ◌+◌, true, false, none,
  some, [], ◌∷◌,
}
use pc_platform_validation_t.Base.Int.{ℤ, pos}
use pc_platform_validation_t.Models.Status.{skip, status_eq}
use pc_platform_validation_t.Models.Scalar.{integer, one}
use pc_platform_validation_t.Models.Plan.{
  greater_than_or_equal, inventory, info, checksum_mismatch, Requirement, SafetyLimits,
  TestDefinition, TestPlan,
}
use pc_platform_validation_t.Models.Results.{Timestamp, TestResult, RunResult}
use pc_platform_validation_t.Models.Telemetry.{TelemetrySample}
use pc_platform_validation_t.Models.Platform.{PlatformIdentity}
use pc_platform_validation_t.Inventory.{InventorySnapshot}
use pc_platform_validation_t.Workloads.Safety.{SafetyPolicy}
use pc_platform_validation_t.Workloads.Output.{WorkloadResult}
use pc_platform_validation_t.Runner.Machine.{Machine}
use pc_platform_validation_t.Runner.Run.{RunExecution}
use pc_platform_validation_t.Persistence.Repository.{Codec}
use pc_platform_validation_t.Persistence.Database.{absent, Database}

abbrev pub demo_platform : PlatformIdentity
demo_platform = record {
  tool_version = "0.1.0.dev0";
  operating_system = "Windows";
  operating_system_version = "10";
  operating_system_build = none;
  python_version = "3.12";
  architecture = "AMD64";
  cpu_vendor = none;
  cpu_brand = none;
  logical_processor_count = 8;
  physical_processor_count = some 4;
  caches = [];
  total_memory_bytes = 1024;
  storage_volume = record { filesystem = none; capacity_bytes = 64; free_bytes = 32 };
  power_plan_name = some "Balanced";
  native_probe_version = none;
  capability_flags = [];
  sanitized_platform_fingerprint = "f0";
}

abbrev pub demo_snapshot : InventorySnapshot
demo_snapshot = record { platform = demo_platform; capabilities = []; limitations = [] }

abbrev pub at_time : ℕ → Timestamp
at_time n = record { instant = n; has_offset = true }

abbrev pub demo_policy : SafetyPolicy ℤ
demo_policy = record {
  max_workers = 4;
  max_memory_bytes = 4096;
  max_temporary_file_bytes = 4096;
  max_duration_seconds = pos 300;
  minimum_disk_reserve_bytes = 64;
}

abbrev pub no_limits : SafetyLimits ℤ
no_limits = record {
  max_workers = none;
  max_memory_bytes = none;
  max_temporary_file_bytes = none;
  thermal_stop_celsius = none;
}

abbrev pub two_processors : Requirement ℤ
two_processors = record {
  metric = "logical_cpu_count";
  operator = greater_than_or_equal;
  expected = one (integer (pos 2));
  unit = none;
}

abbrev pub inventory_test : TestDefinition ℤ
inventory_test = record {
  id = "INV-001";
  name = "Inventory";
  description = "";
  category = inventory;
  enabled = true;
  timeout_seconds = pos 30;
  iterations = 1;
  parameters = [];
  requirements = two_processors ∷ [];
  severity = info;
  tags = [];
  safety_limits = no_limits;
  fault_injection = none;
}

abbrev pub disabled_test : TestDefinition ℤ
disabled_test = record inventory_test { id = "CPU-002"; enabled = false }

abbrev pub injected_test : TestDefinition ℤ
injected_test = record inventory_test {
  id = "CPU-001";
  requirements = [];
  safety_limits = record no_limits { max_workers = some 2 };
  fault_injection = some checksum_mismatch;
}

abbrev pub demo_plan : TestPlan ℤ
demo_plan = record {
  schema_version = 1;
  name = "demo";
  description = "";
  sampling_interval_seconds = pos 1;
  extended = false;
  tests = inventory_test ∷ disabled_test ∷ [];
}

abbrev demo_workload : WorkloadResult ℤ
demo_workload = record {
  workload = "integer";
  started_at = at_time 0;
  ended_at = at_time 1;
  duration_seconds = pos 1;
  correct = true;
  checksum = none;
  measurements = [];
  notes = [];
}

-- The world is the clock; each reading moves it on.
abbrev pub demo_machine : Machine ℤ ℕ
demo_machine = record {
  utc_now = λ w. (at_time w, w + 1);
  perf_counter = λ w. (pos w, w + 1);
  new_run_id = λ w. ("run-1", w);
  mkdir = λ path w. (ok tt, w);
  is_dir = λ path w. (true, w);
  resolve = λ path w. (path, w);
  collect_inventory = λ path probe w. (ok demo_snapshot, w);
  available_memory = λ w. (4096, w);
  cpu_counts = λ w. ((some 8, some 8), w);
  run_cancelled = λ w. (false, w);
  run_integer = λ c timeout policy w. (ok demo_workload, w);
  run_floating_point = λ c timeout policy w. (ok demo_workload, w);
  run_memory = λ c timeout policy w. (ok demo_workload, w);
  run_storage = λ c path timeout policy w. (ok demo_workload, w);
  run_stability = λ c timeout policy w. (ok demo_workload, w);
  sampler_start = λ interval path n w. (ok tt, w);
  sampler_stop = λ w. (ok [], w);
}

abbrev pub no_result : RunResult ℤ
no_result = record {
  run_id = "run-1";
  plan_name = "demo";
  plan_hash = "h0";
  tool_version = "0.1.0.dev0";
  platform_fingerprint = "f0";
  started_at = at_time 1;
  ended_at = at_time 2;
  overall_status = skip;
  result_counts = [];
  test_results = [];
  warnings = [];
  limitations = [];
}

abbrev pub no_execution : RunExecution ℤ
no_execution = record { run = no_result; platform = demo_platform; telemetry_samples = [] }

-- The value of a call that returned.
abbrev pub returned : {A : Type 0} → A → Result A → A
returned default (ok a) = a
returned default (raised e) = default

-- The texts of the `*_json` columns, by what they hold.
pub data Document : Type 0 where
  run_document : RunResult ℤ → Document
  test_document : TestResult ℤ → Document
  platform_document : PlatformIdentity → Document
  sample_document : TelemetrySample ℤ → Document

abbrev unreadable : {A : Type 0} → Result A
unreadable = raise value_error "another document"

abbrev read_run : Document → Result (RunResult ℤ)
read_run (run_document r) = ok r
read_run _ = unreadable

abbrev read_platform : Document → Result PlatformIdentity
read_platform (platform_document p) = ok p
read_platform _ = unreadable

abbrev read_sample : Document → Result (TelemetrySample ℤ)
read_sample (sample_document s) = ok s
read_sample _ = unreadable

abbrev pub demo_codec : Codec Document ℤ
demo_codec = record {
  dump_run = run_document;
  load_run = read_run;
  dump_test = test_document;
  dump_platform = platform_document;
  load_platform = read_platform;
  dump_sample = sample_document;
  load_sample = read_sample;
}

abbrev pub empty_database : Database Document ℤ
empty_database = record {
  schema_version = absent;
  platforms = [];
  last_snapshot_id = 0;
  runs = [];
  test_results = [];
  metrics = [];
  evaluations = [];
  telemetry = [];
  artifacts = [];
  baselines = [];
}
