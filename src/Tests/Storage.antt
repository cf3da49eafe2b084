-- ===== src/Tests/Storage.antt =====
-- The storage workload on a disk of one file: the world is what the file holds and what its handle
-- has left to read.
use pc_platform_validation_t.Tests.Numbers.{whole_floats}
use pc_platform_validation_t.Base.{
  if◌then◌else◌, ◌==◌, nat_eq, string_eq, option_eq, length, sum, Result, ok, ◌+◌, ◌*◌, ◌%◌, ◌≡◌,
  refl, sym, ap, true, false, [], ◌∷◌, ◌++◌, arith, none,
}
use pc_platform_validation_t.Base.Action.{pure}
use pc_platform_validation_t.Base.Int.{ℤ, pos}
use pc_platform_validation_t.Workloads.Host.{
  Bytes, Digests, Host, see_parent, Session, tick, begin, take, drop, fill_to, repeat,
}
use pc_platform_validation_t.Workloads.Control.{root, checkpoint, cancelled}
use pc_platform_validation_t.Workloads.Config.{StorageWorkloadConfig}
use pc_platform_validation_t.Workloads.Output.{WorkloadResult, make_workload_result}
use pc_platform_validation_t.Workloads.Safety.{require_temporary_file, require_timeout}
use pc_platform_validation_t.Workloads.Storage.{
  Disk, deterministic_block, block_lengths_from, block_lengths, write_loop, read_loop, write_file,
  read_file, write_and_read, round_trip, storage_result, require_space, storage_body,
  run_storage_workload,
}
use pc_platform_validation_t.Workloads.Storage.ReadBack.{IsDisk}
use pc_platform_validation_t.Workloads.Storage.Correct.{run_storage_workload-correct}
use pc_platform_validation_t.Tests.Fixtures.{at_time, demo_policy, returned}
use pc_platform_validation_t.Workloads.Integer.Pool.Returns.{Returns, IsQuiet}
use pc_platform_validation_t.Workloads.Storage.Returns.{read_file-Returns}

abbrev Single : Type 0
Single = Bytes × Bytes

abbrev single_disk : Disk Single
single_disk = record {
  resolve = λ path. pure path;
  is_dir = λ path w. (true, w);
  free_bytes = λ path. pure 4096;
  mkdtemp = λ path. pure "owned";
  open_new = λ f w. (ok tt, ([], w.1));
  write = λ f b w. (ok tt, (w.0 ++ b, w.1));
  sync = λ f. pure tt;
  open_read = λ f w. (ok tt, (w.0, w.0));
  read = λ f n w. (ok (take n w.1), (w.0, drop n w.1));
  rmtree = λ path. pure tt;
}

abbrev still_host : Host ℤ Single
still_host = record {
  monotonic = λ w. (pos 0, w);
  perf_counter = λ w. (pos 1, w);
  utc_now = λ w. (at_time 0, w);
  parent_cancelled = λ w. (false, w);
  schedule = λ w. ([], w);
}

single_disk-IsDisk : IsDisk still_host single_disk
single_disk-IsDisk = record {
  content = λ w f. w.0;
  unread = λ w f. w.1;
  open_new-empty = λ f w w' h. sym (ap (λ p. p.1.0) h);
  write-written = λ f b w w' h. sym (ap (λ p. p.1.0) h);
  sync-kept = λ f w w' h. sym (ap (λ p. p.1.0) h);
  open_read-start = λ f w w' h. sym (ap (λ p. p.1.1) h);
  read-next = λ f n w w' h. (ground arith, sym (ap (λ p. p.1.1) h));
  perf_counter-kept = λ w f. refl;
  monotonic-kept = λ w f. (refl, refl);
  parent_cancelled-kept = λ w f. (refl, refl);
}

abbrev digests : Digests
digests = record {
  sha256 = λ b. (sum b + 7 * length b) % 251 ∷ repeat 31 (3 ∷ []);
  hex = λ b. if sum b % 2 == 0 then "even" else "odd";
  encode = λ s. 7 ∷ [];
  decimal = λ n. "n";
}

abbrev storage_config : StorageWorkloadConfig
storage_config = record { size_bytes = 5; block_size_bytes = 2 }

abbrev storage_run : Result (WorkloadResult ℤ) × Session Single
storage_run =
    run_storage_workload still_host digests single_disk storage_config "root" (pos 9) demo_policy
      (([], []), root false)

abbrev no_outcome : WorkloadResult ℤ
no_outcome = record {
  workload = "temporary_storage_round_trip";
  started_at = at_time 0;
  ended_at = at_time 0;
  duration_seconds = pos 0;
  correct = false;
  checksum = none;
  measurements = [];
  notes = [];
}

abbrev storage_outcome : WorkloadResult ℤ
storage_outcome = returned no_outcome storage_run.0

storage_run_returns : storage_run ≡ (ok storage_outcome, storage_run.1)
unfolding run_storage_workload require_space begin storage_body round_trip storage_result
    write_and_read write_file read_file write_loop read_loop block_lengths block_lengths_from
    deterministic_block fill_to tick checkpoint see_parent cancelled require_timeout
    require_temporary_file make_workload_result
storage_run_returns = refl

run_storage_workload-correct_example : storage_outcome.correct ≡ true
run_storage_workload-correct_example =
    run_storage_workload-correct still_host digests single_disk single_disk-IsDisk storage_config
      "root" (pos 9) demo_policy (([], []), root false) (storage_run.1) {r = storage_outcome}
      (omega arith) storage_run_returns

abbrev written : Result (Bytes × ℤ) × Session Single
written =
    write_file still_host digests single_disk (pos 9) "file" storage_config (([], []), root false)

abbrev written_file : Bytes × ℤ
written_file = returned ([], pos 0) written.0

written_returns : written ≡ (ok written_file, (written.1.0, root false))
unfolding write_file write_loop block_lengths block_lengths_from deterministic_block fill_to tick
    checkpoint see_parent cancelled
written_returns = refl

still_IsQuiet : IsQuiet still_host (pos 9)
still_IsQuiet w = (refl, refl)

not_cancelled : cancelled (root false) ≡ false
unfolding cancelled
not_cancelled = refl

read_file-Returns_example : Returns (root false) (
    read_file still_host digests single_disk
      (pos 9)
      "file"
      storage_config
      (written.1.0, root false))
read_file-Returns_example =
    read_file-Returns still_host digests single_disk single_disk-IsDisk (pos 9) still_IsQuiet "file"
      storage_config (([], []), root false) written.1.0 (root false) {r = written_file} (λ b. refl)
      (λ v. refl) (λ n v. refl) not_cancelled (omega arith) written_returns
