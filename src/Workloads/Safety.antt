-- ===== src/Workloads/Safety.antt =====
-- Resource limits (src/platval/workloads/safety.py).
use pc_platform_validation_t.Base.{
  ltb, if◌then◌else◌, ◌==◌, nat_eq, string_eq, option_eq, safety_limit_error, Result, ◌>>◌,
  raise_if, ℕ, ◌*◌, ◌/◌, ◌≤◌, ◌<◌, min, max, Option, none, some, arith,
}
use pc_platform_validation_t.Base.Int.{pos}
use pc_platform_validation_t.Base.Floats.{Floats, float_lt, float_le, zero_float}

abbrev pub mib : ℕ
mib = 1024 * 1024

pub record SafetyPolicy (F : Type 0) : Type 0 where
  pub max_workers : ℕ
  pub max_memory_bytes : ℕ
  pub max_temporary_file_bytes : ℕ
  pub max_duration_seconds : F
  pub minimum_disk_reserve_bytes : ℕ

-- `x or default` on an optional count: None and 0 are false.
abbrev pub or_default : Option ℕ → ℕ → ℕ
or_default none d = d
or_default (some n) d = if n == 0 then d else n

module _ {F : Type 0} where
  unfoldable pub require_workers : SafetyPolicy F → ℕ → Result (Unit {0})
  require_workers p workers =
      raise_if (ltb p.max_workers workers) safety_limit_error
        "requested workers exceed the safety limit"

  unfoldable pub require_memory : SafetyPolicy F → ℕ → Result (Unit {0})
  require_memory p allocation_bytes =
      raise_if (ltb p.max_memory_bytes allocation_bytes) safety_limit_error
        "requested memory exceeds the safety limit"

  unfoldable pub require_temporary_file : SafetyPolicy F → ℕ → Result (Unit {0})
  require_temporary_file p size_bytes =
      raise_if (ltb p.max_temporary_file_bytes size_bytes) safety_limit_error
        "requested temporary file exceeds the safety limit"

module _ {F : Type 0} ⦃o : Floats F⦄ where
  -- What psutil and os report of the machine: available memory and the two processor counts.
  unfoldable pub detected : ℕ → Option ℕ → Option ℕ → SafetyPolicy F
  detected available psutil_count os_count = record {
    max_workers = or_default psutil_count (or_default os_count 1);
    max_memory_bytes = max mib (min (512 * mib) (available / 4));
    max_temporary_file_bytes = 256 * mib;
    max_duration_seconds = o.of_int (pos 300);
    minimum_disk_reserve_bytes = 64 * mib;
  }

  unfoldable pub require_timeout : SafetyPolicy F → F → Result (Unit {0})
  require_timeout p timeout_seconds = do
    raise_if (float_le timeout_seconds zero_float) safety_limit_error
        "workload timeout must be greater than zero"
    raise_if (float_lt p.max_duration_seconds timeout_seconds) safety_limit_error
        "requested timeout exceeds the safety limit"

-- The detected limits lie in their ranges, whatever the machine reports: at least one worker,
-- between 1 MiB and 512 MiB of memory, and beyond 1 MiB never more than a quarter of what is
-- available.
pub detected_bounds :
    (F : Type 0) ⦃o : Floats F⦄ (available : ℕ) (psutil_count os_count : Option ℕ)
    → let p = detected {F = F} available psutil_count os_count in
      (1 ≤ p.max_workers)
      × (mib ≤ p.max_memory_bytes)
      × (p.max_memory_bytes ≤ 512 * mib)
      × (mib < p.max_memory_bytes → p.max_memory_bytes * 4 ≤ available)
unfolding detected
detected_bounds F available psutil_count os_count =
    (ground arith, omega arith, omega arith, λ h. omega arith)
