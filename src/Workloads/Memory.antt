-- ===== src/Workloads/Memory.antt =====
-- The memory workload (src/platval/workloads/memory.py): a buffer is filled with a pattern,
-- transformed in place and read back, a chunk at a time, with a digest of what was expected and
-- one of what was read.
pub mod Correct
pub mod Slices
use Prim.Native.Nat.{bit_xor}
use pc_platform_validation_t.Base.{
  ltb, if◌then◌else◌, ◌==◌, nat_eq, string_eq, option_eq, length, value_error, Result, ok, raise, ℕ,
  zero, suc, ◌+◌, ◌-◌, ◌*◌, ◌%◌, min, String, Bool, true, false, not, Option, none, some, List, [],
  ◌∷◌, ◌++◌, map,
}
use pc_platform_validation_t.Base.Action.{Action, ◌>>=◌, ◌>>◌, pure, lift}
use pc_platform_validation_t.Base.Int.{pos}
use pc_platform_validation_t.Base.Floats.{Floats}
use pc_platform_validation_t.Models.Scalar.{bool, integer, one}
use pc_platform_validation_t.Models.Results.{Timestamp}
use pc_platform_validation_t.Workloads.Safety.{SafetyPolicy, require_memory, require_timeout}
use pc_platform_validation_t.Workloads.Timing.{rate_per_second}
use pc_platform_validation_t.Workloads.Output.{WorkloadResult, make_workload_result}
use pc_platform_validation_t.Workloads.Host.{
  Bytes, Digests, Host, Session, ask, tick, begin, repeat, take, drop, fill_to,
}
use pc_platform_validation_t.Workloads.Config.{MemoryWorkloadConfig}
use pc_platform_validation_t.Workloads.Allocation.{default_memory_allocation}
use pc_platform_validation_t.Workloads.Integer.Run.{measured, optional_real, Timing}

abbrev pub transform : ℕ → ℕ
transform byte = bit_xor byte 165

abbrev pub indices : ℕ → ℕ → List ℕ
indices start zero = []
indices start (suc n) = start ∷ indices (start + 1) n

unfoldable pub pattern : Bytes
pattern = map (λ index. (index * 131 + 17) % 256) (indices 0 256)

-- `b.translate(_TRANSFORM_TABLE)`
unfoldable pub translate : Bytes → Bytes
translate = map transform

unfoldable pub pattern_chunk : ℕ → Bool → Bytes
unfolding fill_to pattern translate
pattern_chunk size transformed = fill_to size (if transformed then translate pattern else pattern)

-- `range(start, stop, step)`, on fuel.
unfoldable pub range_from : ℕ → ℕ → ℕ → ℕ → List ℕ
range_from zero start stop step = []
range_from (suc fuel) start stop step = elim (ltb start stop) [
  | true ↦ start ∷ range_from fuel (start + step) stop step
  | false ↦ []
]

-- `range(0, stop, step)`: a positive step takes at most `stop` of them.
unfoldable pub range : ℕ → ℕ → Result (List ℕ)
unfolding range_from
range stop step =
    if step == 0
    then raise value_error "range() arg 3 must not be zero"
    else ok (range_from stop 0 stop step)

-- `buffer[offset : offset + length]`
abbrev pub slice : ℕ → ℕ → Bytes → Bytes
slice offset length buffer = take length (drop offset buffer)

-- `buffer[offset : offset + length] = chunk`
abbrev pub set_slice : ℕ → ℕ → Bytes → Bytes → Bytes
set_slice offset length chunk buffer =
    take offset buffer ++ (chunk ++ drop (offset + length) buffer)

module _ {F W : Type 0} ⦃o : Floats F⦄ (host : Host F W) (deadline : F) where
  unfoldable pub fill_loop : ℕ → ℕ → Bytes → List ℕ → Bytes → Action (Session W) Bytes
  fill_loop allocation chunk_size chunk [] buffer = pure buffer
  fill_loop allocation chunk_size chunk (offset ∷ offsets) buffer =
      let length = min chunk_size (allocation - offset) in
      tick host deadline
      >> fill_loop allocation chunk_size chunk offsets
          (set_slice offset length (take length chunk) buffer)

  -- With the bytes that the hasher of the expected checksum has been given.
  unfoldable pub transform_loop :
      ℕ → ℕ → Bytes → List ℕ → Bytes → Bytes → Action (Session W) (Bytes × Bytes)
  unfolding translate
  transform_loop allocation chunk_size chunk [] buffer hashed = pure (buffer, hashed)
  transform_loop allocation chunk_size chunk (offset ∷ offsets) buffer hashed =
      let length = min chunk_size (allocation - offset) in
      tick host deadline
      >> transform_loop allocation chunk_size chunk offsets
          (set_slice offset length (translate (slice offset length buffer)) buffer)
          (hashed ++ take length chunk)

  -- With the bytes that the hasher of the actual checksum has been given.
  unfoldable pub read_loop : ℕ → ℕ → Bytes → List ℕ → Bytes → Action (Session W) Bytes
  read_loop allocation chunk_size buffer [] hashed = pure hashed
  read_loop allocation chunk_size buffer (offset ∷ offsets) hashed =
      tick host deadline
      >> read_loop allocation chunk_size buffer offsets
          (hashed ++ slice offset (min chunk_size (allocation - offset)) buffer)

  -- The last two loops, and what the hashers of the expected and of the actual checksum are given.
  unfoldable pub transform_and_read : ℕ → ℕ → List ℕ → Bytes → Action (Session W) (Bytes × Bytes)
  unfolding pattern_chunk transform_loop read_loop
  transform_and_read allocation chunk_size offsets filled = do
    p ← transform_loop allocation chunk_size (pattern_chunk chunk_size true) offsets filled []
    actual ← read_loop allocation chunk_size p.0 offsets []
    pure (p.1, actual)

  unfoldable pub memory_loops : ℕ → ℕ → Action (Session W) (Bytes × Bytes)
  unfolding pattern_chunk range fill_loop transform_and_read
  memory_loops allocation chunk_size = do
    offsets ← lift (range allocation chunk_size)
    filled ←
        fill_loop allocation chunk_size (pattern_chunk chunk_size false) offsets
          (repeat allocation (0 ∷ []))
    transform_and_read allocation chunk_size offsets filled

module _ {F : Type 0} ⦃o : Floats F⦄ where
  unfoldable pub memory_result : ℕ → String → String → Timing F → WorkloadResult F
  memory_result allocation expected actual t = record {
    workload = "memory_pattern";
    started_at = t.started_at;
    ended_at = t.ended_at;
    duration_seconds = t.duration;
    correct = actual == expected;
    checksum = some actual;
    measurements =
        ("checksum_valid", measured (bool (actual == expected)) none)
        ∷ ("allocation", measured (integer (pos allocation)) (some "bytes"))
        ∷ ("processed_bytes", measured (integer (pos (allocation * 3))) (some "bytes"))
        ∷ (
          "throughput",
          measured (optional_real (rate_per_second (o.of_int (pos (allocation * 3))) t.duration))
              (some "bytes/s"),
        )
        ∷ [];
    notes = "This verifies application-visible memory, not physical DRAM in isolation." ∷ [];
  }

module _ {F W : Type 0} where
  -- `config.allocation_bytes or default_memory_allocation(active_policy)`, where the default asks
  -- `psutil.virtual_memory().available`.
  abbrev pub allocation_or_default : (W → ℕ × W) → Option ℕ → SafetyPolicy F → Action (Session W) ℕ
  allocation_or_default available_memory none policy = do
    available ← ask available_memory
    pure (default_memory_allocation available policy.max_memory_bytes)
  allocation_or_default available_memory (some zero) policy = do
    available ← ask available_memory
    pure (default_memory_allocation available policy.max_memory_bytes)
  allocation_or_default available_memory (some (suc n)) policy = pure (suc n)

module _ {F W : Type 0} ⦃o : Floats F⦄ (host : Host F W) (d : Digests) where
  unfoldable pub memory_body :
      MemoryWorkloadConfig → ℕ → F × (Timestamp × F) → Action (Session W) (WorkloadResult F)
  unfolding memory_loops memory_result
  memory_body config allocation (deadline, (started_at, started)) = do
    (expected, actual) ←
        memory_loops host deadline allocation (min config.chunk_size_bytes allocation)
    ended ← ask host.perf_counter
    ended_at ← ask host.utc_now
    lift (
        make_workload_result (
          memory_result allocation (d.hex (d.sha256 expected)) (d.hex (d.sha256 actual)) (record {
            started_at = started_at;
            ended_at = ended_at;
            duration = o.sub ended started;
            measured_seconds = o.sub ended started;
          })))

  unfoldable pub run_memory_workload :
      (W → ℕ × W)
      → MemoryWorkloadConfig
      → F
      → SafetyPolicy F
      → Action (Session W) (WorkloadResult F)
  unfolding begin memory_body default_memory_allocation
  run_memory_workload available_memory config timeout_seconds policy = do
    lift (require_timeout policy timeout_seconds)
    allocation ← allocation_or_default available_memory config.allocation_bytes policy
    lift (require_memory policy allocation)
    clocks ← begin host timeout_seconds
    memory_body config allocation clocks
