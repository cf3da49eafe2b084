-- ===== src/Workloads/Counts.antt =====
-- How the integer workload divides its operations (src/platval/workloads/cpu.py,
-- `_operation_counts`).
use native.Mathlib.Omega.{div_any}
use native.Mathlib.Nat.{mod-lt}
use pc_platform_validation_t.Base.{
  ltb, if◌then◌else◌, nat_eq, string_eq, option_eq, length, All, sum, ℕ, zero, suc, ◌+◌, ◌-◌, ◌*◌,
  ◌/◌, ◌%◌, ◌≤◌, ◌<◌, min, ◌≡◌, refl, List, [], ◌∷◌, map, arith,
}

abbrev share : ℕ → ℕ → ℕ → ℕ
share base remainder index = base + (if ltb index remainder then 1 else 0)

-- `range(first, first + n)`
abbrev pub range : ℕ → ℕ → List ℕ
range first zero = []
range first (suc n) = first ∷ range (first + 1) n

unfoldable pub operation_counts : ℕ → ℕ → List ℕ
operation_counts total workers = map (share (total / workers) (total % workers)) (range 0 workers)

-- The counts of the workers from `first` on, `n` of them.
sum-share :
    (base remainder first n : ℕ)
    → sum (map (share base remainder) (range first n)) ≡ n * base + min n (remainder - first)
sum-share base remainder first zero = ground arith
sum-share base remainder first (suc n) = ground (arith, sum-share base remainder (first + 1) n)

length-share :
    (base remainder first n : ℕ) → length (map (share base remainder) (range first n)) ≡ n
length-share base remainder first zero = refl
length-share base remainder first (suc n) =
    ground (arith, length-share base remainder (first + 1) n)

-- Counts that are the given number or one more.
abbrev pub IsNear : ℕ → ℕ → Type 0
IsNear base n = (base ≤ n) × (n ≤ base + 1)

share-IsNear :
    (base remainder first n : ℕ) → All (IsNear base) (map (share base remainder) (range first n))
share-IsNear base remainder first zero = tt
share-IsNear base remainder first (suc n) =
    (ground arith, share-IsNear base remainder (first + 1) n)

-- With at least one worker, the operations are divided among all workers: one count for each,
-- which add up to the total, each the rounded-down share or one more.
pub sum-operation_counts :
    (total workers : ℕ)
    → 0 < workers
    → (sum (operation_counts total workers) ≡ total)
      × (length (operation_counts total workers) ≡ workers)
      × All (IsNear (total / workers)) (operation_counts total workers)
unfolding operation_counts
sum-operation_counts total workers h = (
  omega (
    arith,
    sum-share (total / workers) (total % workers) 0 workers,
    div_any total workers,
    mod-lt total h,
  ),
  length-share _ _ 0 workers,
  share-IsNear _ _ 0 workers,
)
