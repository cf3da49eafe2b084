-- ===== src/Workloads/Storage.antt =====
-- The storage workload (src/platval/workloads/storage.py): a file of blocks is written in a
-- directory of its own, read back with a digest of what was written and one of what was read, and
-- removed.
pub mod ReadBack
pub mod Correct
pub mod Lengths
pub mod Returns
use pc_platform_validation_t.Base.{
  ltb, if◌then◌else◌, ◌==◌, nat_eq, string_eq, option_eq, length, value_error, runtime_error,
  safety_limit_error, raise, raise_if, ℕ, zero, suc, ◌+◌, ◌-◌, min, String, ◌<>◌, Bool, not, none,
  some, List, [], ◌∷◌, ◌++◌,
}
use pc_platform_validation_t.Base.Action.{Action, ◌>>=◌, ◌>>◌, pure, lift}
use pc_platform_validation_t.Base.Int.{pos}
use pc_platform_validation_t.Base.Floats.{Floats}
use pc_platform_validation_t.Models.Scalar.{bool, integer, one, many}
use pc_platform_validation_t.Models.Results.{Timestamp}
use pc_platform_validation_t.Workloads.Safety.{
  SafetyPolicy, require_temporary_file, require_timeout,
}
use pc_platform_validation_t.Workloads.Timing.{rate_per_second}
use pc_platform_validation_t.Workloads.Output.{WorkloadResult, make_workload_result}
use pc_platform_validation_t.Workloads.Host.{
  Bytes, Digests, Host, Session, ask, tick, begin, fill_to,
}
use pc_platform_validation_t.Workloads.Config.{StorageWorkloadConfig}
use pc_platform_validation_t.Workloads.Integer.Run.{measured, optional_real}

-- What the workload calls of the disk: `resolve`, `is_dir`, psutil's free space, `mkdtemp`, the
-- handles of the one file that it writes and reads, and `rmtree`.
pub record Disk (W : Type 0) : Type 0 where
  pub resolve : String → Action W String
  pub is_dir : String → W → Bool × W
  pub free_bytes : String → Action W ℕ
  pub mkdtemp : String → Action W String
  pub open_new : String → Action W (Unit {0})
  pub write : String → Bytes → Action W (Unit {0})
  pub sync : String → Action W (Unit {0})
  pub open_read : String → Action W (Unit {0})
  pub read : String → ℕ → Action W Bytes
  pub rmtree : String → Action W (Unit {0})

module _ {W : Type 0} where
  abbrev pub on_disk : {A : Type 0} → Action W A → Action (Session W) A
  on_disk m s = ((m s.0).0, ((m s.0).1, s.1))

  -- `try: m finally: cleanup`
  abbrev pub finally : {A : Type 0} → Action W A → Action W (Unit {0}) → Action W A
  finally m cleanup w = (cleanup >>= λ _ w'. ((m w).0, w')) (m w).1

  -- What follows a block: the end, or the other blocks.
  abbrev pub continue_reading : Action (Session W) Bytes → Bytes → Action (Session W) Bytes
  continue_reading loop [] = pure []
  continue_reading loop (x ∷ xs) = do rest ← loop; pure ((x ∷ xs) ++ rest)

-- `_deterministic_block`
unfoldable pub deterministic_block : Digests → ℕ → ℕ → Bytes
unfolding fill_to
deterministic_block d index size =
    fill_to size (d.sha256 (d.encode ("platval-storage-block-" <> d.decimal index)))

-- The lengths of the blocks, on fuel.
unfoldable pub block_lengths_from : ℕ → ℕ → ℕ → List ℕ
block_lengths_from zero remaining block_size = []
block_lengths_from (suc fuel) remaining block_size =
    let length = min block_size remaining in
    let rest = block_lengths_from fuel (remaining - length) block_size in
    if remaining == 0 then [] else length ∷ rest

-- A positive block size takes at most `size` blocks.
unfoldable pub block_lengths : ℕ → ℕ → List ℕ
unfolding block_lengths_from
block_lengths size block_size = block_lengths_from size size block_size

-- What was measured of a round trip: the bytes of the two hashers and the two times.
pub record RoundTrip (F : Type 0) : Type 0 where
  pub expected : Bytes
  pub actual : Bytes
  pub write_seconds : F
  pub read_seconds : F

module _ {F W : Type 0} ⦃o : Floats F⦄ (host : Host F W) (d : Digests) (disk : Disk W) where
  -- The `while remaining` loop, with the bytes that its hasher is given.
  unfoldable pub write_loop : F → String → ℕ → List ℕ → Action (Session W) Bytes
  unfolding tick deterministic_block
  write_loop deadline test_file index [] = pure []
  write_loop deadline test_file index (length ∷ lengths) = do
    tick host deadline
    on_disk (disk.write test_file (deterministic_block d index length))
    rest ← write_loop deadline test_file (index + 1) lengths
    pure (deterministic_block d index length ++ rest)

  -- The `while True` loop that reads until a block is empty, on fuel. Without fuel it raises.
  unfoldable pub read_loop : ℕ → F → String → ℕ → Action (Session W) Bytes
  unfolding tick
  read_loop zero deadline test_file block_size = lift (raise runtime_error "out of fuel")
  read_loop (suc fuel) deadline test_file block_size = do
    tick host deadline
    block ← on_disk (disk.read test_file block_size)
    continue_reading (read_loop fuel deadline test_file block_size) block

  unfoldable pub write_file : F → String → StorageWorkloadConfig → Action (Session W) (Bytes × F)
  unfolding write_loop block_lengths
  write_file deadline test_file config = do
    write_started ← ask host.perf_counter
    on_disk (disk.open_new test_file)
    expected ←
        write_loop deadline test_file 0 (block_lengths config.size_bytes config.block_size_bytes)
    on_disk (disk.sync test_file)
    write_ended ← ask host.perf_counter
    pure (expected, o.sub write_ended write_started)

  -- A file of `size_bytes` is read in as many blocks at most, and one that is empty.
  unfoldable pub read_file : F → String → StorageWorkloadConfig → Action (Session W) (Bytes × F)
  unfolding read_loop
  read_file deadline test_file config = do
    read_started ← ask host.perf_counter
    on_disk (disk.open_read test_file)
    actual ← read_loop (config.size_bytes + 1) deadline test_file config.block_size_bytes
    read_ended ← ask host.perf_counter
    pure (actual, o.sub read_ended read_started)

  unfoldable pub write_and_read :
      F → String → StorageWorkloadConfig → Action (Session W) (RoundTrip F)
  unfolding write_file read_file
  write_and_read deadline test_file config = do
    wrote ← write_file deadline test_file config
    got ← read_file deadline test_file config
    pure (record {
      expected = wrote.0;
      actual = got.0;
      write_seconds = wrote.1;
      read_seconds = got.1;
    })

  unfoldable pub round_trip : F → String → StorageWorkloadConfig → Action (Session W) (RoundTrip F)
  unfolding write_and_read
  round_trip deadline root config = do
    test_directory ← on_disk (disk.mkdtemp root)
    finally (write_and_read deadline (test_directory <> "/round-trip.bin") config)
        (on_disk (disk.rmtree test_directory))

module _ {F : Type 0} ⦃o : Floats F⦄ (d : Digests) where
  unfoldable pub storage_result : ℕ → RoundTrip F → Timestamp → Timestamp → F → WorkloadResult F
  storage_result size_bytes trip started_at ended_at duration =
      let expected_checksum = d.hex (d.sha256 trip.expected) in
      let actual_checksum = d.hex (d.sha256 trip.actual) in
      record {
        workload = "temporary_storage_round_trip";
        started_at = started_at;
        ended_at = ended_at;
        duration_seconds = duration;
        correct = actual_checksum == expected_checksum;
        checksum = some actual_checksum;
        measurements =
            ("checksum_valid", measured (bool (actual_checksum == expected_checksum)) none)
            ∷ ("file_size", measured (integer (pos size_bytes)) (some "bytes"))
            ∷ (
              "write_throughput",
              measured
                  (optional_real (rate_per_second (o.of_int (pos size_bytes)) trip.write_seconds))
                  (some "bytes/s"),
            )
            ∷ (
              "read_throughput",
              measured
                  (optional_real (rate_per_second (o.of_int (pos size_bytes)) trip.read_seconds))
                  (some "bytes/s"),
            )
            ∷ [];
        notes = "This is a local functional sample, not a universal storage benchmark." ∷ [];
      }

module _ {F W : Type 0} ⦃o : Floats F⦄ (host : Host F W) (d : Digests) (disk : Disk W) where
  -- The checks before the clocks start.
  unfoldable pub require_space : SafetyPolicy F → String → ℕ → Action (Session W) String
  require_space policy temporary_root size_bytes = do
    root ← on_disk (disk.resolve temporary_root)
    there ← ask (disk.is_dir root)
    lift (raise_if (not there) value_error "temporary root must be an existing directory")
    free ← on_disk (disk.free_bytes root)
    lift (
        raise_if (ltb free (size_bytes + policy.minimum_disk_reserve_bytes)) safety_limit_error
          "insufficient free space after preserving the configured disk reserve")
    pure root

  unfoldable pub storage_body :
      StorageWorkloadConfig → String → F × (Timestamp × F) → Action (Session W) (WorkloadResult F)
  unfolding round_trip storage_result
  storage_body config root (deadline, (started_at, started)) = do
    trip ← round_trip host d disk deadline root config
    ended ← ask host.perf_counter
    ended_at ← ask host.utc_now
    lift (
        make_workload_result
          (storage_result d config.size_bytes trip started_at ended_at (o.sub ended started)))

  unfoldable pub run_storage_workload :
      StorageWorkloadConfig → String → F → SafetyPolicy F → Action (Session W) (WorkloadResult F)
  unfolding require_space begin storage_body
  run_storage_workload config temporary_root timeout_seconds policy = do
    lift (require_timeout policy timeout_seconds)
    lift (require_temporary_file policy config.size_bytes)
    root ← require_space policy temporary_root config.size_bytes
    clocks ← begin host timeout_seconds
    storage_body config root clocks
