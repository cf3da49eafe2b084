-- ===== src/Workloads/Config.antt =====
-- Workload configurations with the bounds of their fields (src/platval/workloads/cpu.py,
-- memory.py, storage.py). A value outside its bounds is pydantic's ValidationError, a ValueError.
use Prim.Native.Char.{code}
use Prim.Native.String.{String}
use pc_platform_validation_t.Base.{
  ltb, leb, if◌then◌else◌, ◌==◌, nat_eq, string_eq, option_eq, value_error, Result, ok, raise,
  ◌>>=◌, ◌>>◌, raise_if, ℕ, ◌+◌, ◌*◌, Bool, false, not, ◌&&◌, ◌||◌, Option, none, some,
}
use pc_platform_validation_t.Base.Int.{ℤ, pos, negsuc}
use pc_platform_validation_t.Base.Floats.{Floats, float_lt, float_le, zero_float}
use pc_platform_validation_t.Workloads.Safety.{mib}

pub record IntegerWorkloadConfig : Type 0 where
  pub workers : ℕ
  pub operations : ℕ
  pub block_size_bytes : ℕ
  pub expected_checksum : Option String

pub record FloatingPointWorkloadConfig (F : Type 0) : Type 0 where
  pub iterations : ℕ
  pub tolerance : F

pub record MemoryWorkloadConfig : Type 0 where
  pub allocation_bytes : Option ℕ
  pub chunk_size_bytes : ℕ

pub record StorageWorkloadConfig : Type 0 where
  pub size_bytes : ℕ
  pub block_size_bytes : ℕ

pub record StabilityWorkloadConfig : Type 0 where
  pub repetitions : ℕ
  pub integer : IntegerWorkloadConfig

-- A field with `ge=low, le=high`.
unfoldable pub bounded : ℕ → ℕ → ℤ → Result ℕ
bounded low high (pos n) =
    if leb low n && leb n high then ok n else raise value_error "value is out of bounds"
bounded low high (negsuc n) = raise value_error "value is out of bounds"

-- A field with `ge=low`.
unfoldable pub at_least : ℕ → ℤ → Result ℕ
at_least low (pos n) = if leb low n then ok n else raise value_error "value is out of bounds"
at_least low (negsuc n) = raise value_error "value is out of bounds"

abbrev is_hex : ℕ → Bool
is_hex c = (leb b'0' c && leb c b'9') || (leb b'a' c && leb c b'f')

abbrev hex_digits : String → Option ℕ
hex_digits String.[] = some 0
hex_digits (String.◌∷◌ c s) = elim (hex_digits s) [
  | none ↦ none
  | some n ↦ if is_hex (code c) then some (n + 1) else none
]

-- `^[0-9a-f]{64}$`
unfoldable pub is_sha256 : String → Bool
is_sha256 s = elim (hex_digits s) [ none ↦ false | some n ↦ n == 64 ]

unfoldable pub checksum_field : Option String → Result (Option String)
unfolding is_sha256
checksum_field none = ok none
checksum_field (some s) =
    if is_sha256 s then ok (some s) else raise value_error "checksum is no SHA-256 digest"

unfoldable pub make_integer_config : ℤ → ℤ → ℤ → Option String → Result IntegerWorkloadConfig
unfolding at_least bounded checksum_field
make_integer_config workers operations block_size_bytes expected_checksum = do
  w ← at_least 1 workers
  n ← bounded 1 1_000_000 operations
  b ← bounded 4096 mib block_size_bytes
  c ← checksum_field expected_checksum
  raise_if (ltb n w) value_error "operations must be at least the worker count"
  ok (record { workers = w; operations = n; block_size_bytes = b; expected_checksum = c })

unfoldable pub make_floating_point_config :
    {F : Type 0} ⦃o : Floats F⦄ → ℤ → F → Result (FloatingPointWorkloadConfig F)
unfolding bounded
make_floating_point_config ⦃o⦄ iterations tolerance = do
  n ← bounded 1 20_000_000 iterations
  raise_if (not (float_lt zero_float tolerance && float_le tolerance (o.literal 1 6))) value_error
      "tolerance is out of bounds"
  ok (record { iterations = n; tolerance = tolerance })

unfoldable pub make_memory_config : Option ℤ → Result MemoryWorkloadConfig
unfolding at_least
make_memory_config none = ok (record { allocation_bytes = none; chunk_size_bytes = mib })
make_memory_config (some allocation) = do
  n ← at_least 4096 allocation
  ok (record { allocation_bytes = some n; chunk_size_bytes = mib })

unfoldable pub make_storage_config : ℤ → ℤ → Result StorageWorkloadConfig
unfolding bounded
make_storage_config size_bytes block_size_bytes = do
  n ← bounded 4096 (1024 * mib) size_bytes
  b ← bounded 4096 (8 * mib) block_size_bytes
  ok (record { size_bytes = n; block_size_bytes = b })

unfoldable pub make_stability_config : ℤ → IntegerWorkloadConfig → Result StabilityWorkloadConfig
unfolding bounded
make_stability_config repetitions integer = do
  n ← bounded 3 20 repetitions
  ok (record { repetitions = n; integer = integer })
