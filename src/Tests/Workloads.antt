-- ===== src/Tests/Workloads.antt =====
-- Limits, tokens, rates and policies.
use pc_platform_validation_t.Base.{nat_eq, string_eq, option_eq}
use pc_platform_validation_t.Tests.Numbers.{whole_floats}
use pc_platform_validation_t.Base.{
  workload_cancelled, workload_timeout, ok, raise, ◌≤◌, ◌≡◌, ◌↔◌, true, false, length, All, sum,
  ◌/◌, arith,
}
use pc_platform_validation_t.Base.Int.{ℤ, pos}
use pc_platform_validation_t.Base.Floats.{float_lt, float_le}
use pc_platform_validation_t.Workloads.Control.{root, child, cancelled, WorkloadContext, checkpoint}
use pc_platform_validation_t.Workloads.Control.Laws.{parent, checkpoint_outcomes}
use pc_platform_validation_t.Runner.Parameters.{Respects, case_policy, case_policy_tightens}
use pc_platform_validation_t.Tests.Numbers.{whole_IsOrdered}
use pc_platform_validation_t.Tests.Fixtures.{demo_policy, injected_test}
use pc_platform_validation_t.Workloads.Counts.{operation_counts, IsNear, sum-operation_counts}

abbrev demo_context : WorkloadContext ℤ
demo_context = record { token = child false (root false); deadline_monotonic = pos 10 }

checkpoint_outcomes_example :
    let (r, c') = checkpoint (pos 12) demo_context in
    let late = float_le demo_context.deadline_monotonic (pos 12) in
    ((r ≡ ok tt) ↔ ((cancelled demo_context.token ≡ false) × (late ≡ false)))
    × ((cancelled demo_context.token ≡ true)
        → r ≡ raise workload_cancelled "workload cancellation was requested")
    × (cancelled demo_context.token ≡ false
        → late ≡ true
        → (r ≡ raise workload_timeout "workload exceeded its monotonic deadline")
          × ((checkpoint (pos 13) c').0
              ≡ raise workload_cancelled "workload cancellation was requested"))
    × (c'.deadline_monotonic ≡ demo_context.deadline_monotonic)
    × (parent c'.token ≡ parent demo_context.token)
checkpoint_outcomes_example = checkpoint_outcomes (pos 12) (pos 13) demo_context

case_policy_tightens_example :
    let p = case_policy injected_test demo_policy in
    (p.max_workers ≤ demo_policy.max_workers)
    × (p.max_memory_bytes ≤ demo_policy.max_memory_bytes)
    × (p.max_temporary_file_bytes ≤ demo_policy.max_temporary_file_bytes)
    × (float_lt demo_policy.max_duration_seconds p.max_duration_seconds ≡ false)
    × (float_lt injected_test.timeout_seconds p.max_duration_seconds ≡ false)
    × Respects injected_test.safety_limits.max_workers p.max_workers
    × Respects injected_test.safety_limits.max_memory_bytes p.max_memory_bytes
    × Respects injected_test.safety_limits.max_temporary_file_bytes p.max_temporary_file_bytes
    × (p.minimum_disk_reserve_bytes ≡ demo_policy.minimum_disk_reserve_bytes)
case_policy_tightens_example = case_policy_tightens whole_IsOrdered injected_test demo_policy

sum-operation_counts_example :
    (sum (operation_counts 10 3) ≡ 10)
    × (length (operation_counts 10 3) ≡ 3)
    × All (IsNear (10 / 3)) (operation_counts 10 3)
sum-operation_counts_example = sum-operation_counts 10 3 (omega arith)
