-- ===== src/Tests/Hosts.antt =====
-- Runs of the workloads on a small host.
use pc_platform_validation_t.Base.{
  if◌then◌else◌, ◌==◌, nat_eq, string_eq, option_eq, length, sum, Result, ℕ, ◌+◌, ◌*◌, ◌%◌, true,
  false, none, [], ◌∷◌, value_error, ok, raise, refl, some, List, ◌≡◌, arith,
}
use pc_platform_validation_t.Base.Int.{ℤ, pos}
use pc_platform_validation_t.Workloads.Host.{Digests, Host, Session, tick, begin}
use pc_platform_validation_t.Workloads.Control.{root, cancelled}
use pc_platform_validation_t.Workloads.Config.{
  IntegerWorkloadConfig, FloatingPointWorkloadConfig, MemoryWorkloadConfig, StabilityWorkloadConfig,
}
use pc_platform_validation_t.Workloads.Output.{WorkloadResult, make_workload_result}
use pc_platform_validation_t.Workloads.Integer.Run.{
  integer_result, run_integer_workload, concurrent_checksum, run_and_compare, integer_body, Timing,
}
use pc_platform_validation_t.Tests.Numbers.{whole_floats}
use pc_platform_validation_t.Tests.Fixtures.{demo_policy}
use pc_platform_validation_t.Workloads.Integer.{submit, run_pool, reference_checksum}
use pc_platform_validation_t.Workloads.Integer.Run.Correct.{
  IsVerified, run_integer_workload-IsVerified,
}
use pc_platform_validation_t.Workloads.Memory.{
  run_memory_workload, memory_loops, memory_result, memory_body,
}
use pc_platform_validation_t.Workloads.Stability.{run_stability_workload, stability_result}
use pc_platform_validation_t.Workloads.FloatingPoint.{
  run_floating_point_workload, floating_point_result, floating_point_body,
}
use pc_platform_validation_t.Workloads.Integer.Pool.{worker_digests}
use pc_platform_validation_t.Workloads.Integer.Pool.Returns.{run_pool_returns}
use pc_platform_validation_t.Workloads.Memory.Correct.{run_memory_workload-correct}
use pc_platform_validation_t.Workloads.Stability.Correct.{run_stability_workload-IsVerified}
use pc_platform_validation_t.Workloads.Safety.{require_workers, require_memory, require_timeout}

abbrev test_digests : Digests
test_digests = record {
  sha256 = λ b. (sum b + 7 * length b) % 251 ∷ [];
  hex = λ b. if sum b % 2 == 0 then "even" else "odd";
  encode = λ s. 7 ∷ [];
  decimal = λ n. "n";
}

-- The state counts the readings of the clock `perf_counter`; the other clocks stand still.
abbrev test_host : Host ℤ ℕ
test_host = record {
  monotonic = λ w. (pos 0, w);
  perf_counter = λ w. (pos w, w + 1);
  utc_now = λ w. (record { instant = w; has_offset = true }, w);
  parent_cancelled = λ w. (false, w);
  schedule = λ w. (1 ∷ 0 ∷ 1 ∷ 5 ∷ [], w);
}

abbrev integer_config : IntegerWorkloadConfig
integer_config = record {
  workers = 2;
  operations = 3;
  block_size_bytes = 4;
  expected_checksum = none;
}

abbrev memory_config : MemoryWorkloadConfig
memory_config = record { allocation_bytes = some 5; chunk_size_bytes = 2 }

abbrev floating_point_config : FloatingPointWorkloadConfig ℤ
floating_point_config = record { iterations = 3; tolerance = pos 1 }

abbrev small_config : IntegerWorkloadConfig
small_config = record integer_config {
  workers = 1;
  operations = 1;
  expected_checksum = some "even";
}

abbrev stability_config : StabilityWorkloadConfig
stability_config = record { repetitions = 2; integer = small_config }

-- The first element, for a median of data that are all the same.
abbrev first_of : List ℤ → Result ℤ
first_of [] = raise value_error "no median for empty data"
first_of (x ∷ xs) = ok x

abbrev start_state : Session ℕ
start_state = (0, root false)

abbrev timing : ℕ → ℕ → ℕ → Timing ℤ
timing ended_at duration seconds = record {
  started_at = record { instant = 0; has_offset = true };
  ended_at = record { instant = ended_at; has_offset = true };
  duration = pos duration;
  measured_seconds = pos seconds;
}

abbrev integer_outcome : WorkloadResult ℤ
integer_outcome = integer_result integer_config "odd" "odd" (timing 3 3 1)

abbrev memory_outcome : WorkloadResult ℤ
memory_outcome = memory_result 5 "odd" "odd" (timing 2 1 1)

abbrev floating_point_outcome : WorkloadResult ℤ
floating_point_outcome = floating_point_result floating_point_config (pos 0) (timing 2 1 1)

abbrev stability_outcome : WorkloadResult ℤ
stability_outcome =
    stability_result stability_config
      (record { expected_checksum = some "even"; correct = true; durations = pos 1 ∷ pos 1 ∷ [] })
      (pos 1) (pos 0) (timing 9 9 9)

run_pool_returns_example :
    (w' : ℕ) × (run_pool test_host test_digests
        (pos 5)
        (1 ∷ 0 ∷ 1 ∷ [])
        (submit test_digests 4 0 (2 ∷ 1 ∷ []))
        start_state
      ≡ (ok (worker_digests test_digests 4 0 (2 ∷ 1 ∷ [])), (w', root false)))
unfolding cancelled
run_pool_returns_example =
    run_pool_returns test_host (pos 5) (λ w. (refl, refl)) test_digests (1 ∷ 0 ∷ 1 ∷ []) 4
      (2 ∷ 1 ∷ []) 0 (root false) refl

run_integer_workload-IsVerified_example : IsVerified test_digests integer_config integer_outcome
unfolding run_integer_workload begin tick integer_body run_and_compare concurrent_checksum run_pool
    submit require_workers require_memory require_timeout cancelled reference_checksum
    make_workload_result
run_integer_workload-IsVerified_example =
    run_integer_workload-IsVerified test_digests test_host integer_config (pos 5) demo_policy
      start_state refl

run_memory_workload-correct_example : memory_outcome.correct ≡ true
unfolding run_memory_workload begin tick memory_body memory_loops require_memory require_timeout
    cancelled make_workload_result
run_memory_workload-correct_example =
    run_memory_workload-correct test_host test_digests (λ w. (0, w)) memory_config (pos 5)
      demo_policy start_state {r = memory_outcome} refl

floating_point_returns :
    (run_floating_point_workload test_host floating_point_config (pos 5) demo_policy start_state).0
    ≡ ok floating_point_outcome
unfolding run_floating_point_workload begin tick floating_point_body require_timeout cancelled
    make_workload_result
floating_point_returns = refl

abbrev stability_run : Result (WorkloadResult ℤ) × Session ℕ
stability_run =
    run_stability_workload test_host test_digests first_of stability_config (pos 5) demo_policy
      start_state

stability_run_returns : stability_run ≡ (ok stability_outcome, (10, root false))
unfolding run_stability_workload run_integer_workload begin tick integer_body run_and_compare
    concurrent_checksum run_pool submit require_workers require_memory require_timeout cancelled
    reference_checksum make_workload_result
stability_run_returns = refl

run_stability_workload-IsVerified_example :
    IsVerified test_digests stability_config.integer stability_outcome
run_stability_workload-IsVerified_example =
    run_stability_workload-IsVerified test_host test_digests first_of stability_config (pos 5)
      demo_policy start_state {r = stability_outcome} {s' = (10, root false)} (omega arith)
      stability_run_returns
