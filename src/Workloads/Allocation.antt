-- ===== src/Workloads/Allocation.antt =====
-- The memory that a memory test takes by default (src/platval/workloads/memory.py).
-- With the available memory and the limit of the policy.
use pc_platform_validation_t.Base.{nat_eq, string_eq, option_eq, ℕ, ◌*◌, ◌/◌, ◌≤◌, min, max, arith}
use pc_platform_validation_t.Workloads.Safety.{mib}

unfoldable pub default_memory_allocation : ℕ → ℕ → ℕ
default_memory_allocation available max_memory_bytes =
    max 4096 (min (256 * mib) (min (available / 10) max_memory_bytes))

-- By default at least 4096 bytes are allocated and at most 256 MiB; where the policy allows the
-- 4096 bytes, never more than it allows, and of 40960 available bytes and more never more than a
-- tenth.
pub default_memory_allocation_bounds :
    (available limit : ℕ)
    → let n = default_memory_allocation available limit in
      (4096 ≤ n)
      × (n ≤ 256 * mib)
      × (4096 ≤ limit → n ≤ limit)
      × (40_960 ≤ available → n * 10 ≤ available)
unfolding default_memory_allocation
default_memory_allocation_bounds available limit =
    (omega arith, omega arith, λ h. omega arith, λ h. omega arith)
