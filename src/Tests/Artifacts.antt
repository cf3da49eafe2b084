-- ===== src/Tests/Artifacts.antt =====
-- Artifacts of a small run on a disk in memory.
use pc_platform_validation_t.Base.{
  Result, ok, ◌≡◌, refl, some, [], ◌∷◌, persistence_error, raise, Option,
}
use pc_platform_validation_t.Base.Int.{ℤ}
use pc_platform_validation_t.Workloads.Config.{is_sha256}
use pc_platform_validation_t.Models.Plan.{text_length}
use pc_platform_validation_t.Persistence.Files.{FilePath, nothing, file, Texts}
use pc_platform_validation_t.Persistence.Locations.{
  make_artifact, validated_run_id, run_directory, locate,
}
use pc_platform_validation_t.Persistence.Records.{ArtifactRecord}
use pc_platform_validation_t.Persistence.Database.{insert_platform, insert_run, insert_artifact}
use pc_platform_validation_t.Persistence.Repository.{
  transaction, initialize, save_rows, save_execution,
}
use pc_platform_validation_t.Persistence.Artifacts.{
  Store, create_run_directory, save_with_artifact, register_run, persist_payload,
  fill_run_directory, persist_at, persist_execution, write_derived_artifact, delete_run_recoverably,
}
use pc_platform_validation_t.Persistence.Artifacts.Stored.{persist_execution-IsStored}
use pc_platform_validation_t.Tests.Fixtures.{
  at_time, no_execution, Document, demo_codec, empty_database,
}
use pc_platform_validation_t.Tests.Disk.{Disk, disk_files, disk_files-IsFileSystem, rmtree-removes}
use pc_platform_validation_t.Persistence.Artifacts.Persist.{persist_execution-atomic}

abbrev texts : Texts ℤ
texts = record {
  uuid_text = some;
  path_name = λ s. s;
  hexdigest = λ b. "aaaaaaaaaaaaaaaaaaaaaaaaaaaaaaaaaaaaaaaaaaaaaaaaaaaaaaaaaaaaaaaa";
  encode = λ s. ok (7 ∷ []);
  dump_execution = λ e. ok (1 ∷ 2 ∷ []);
}

abbrev runtime : FilePath
runtime = "rt" ∷ []

abbrev run_dir : FilePath
run_dir = "run-1" ∷ "runs" ∷ runtime

abbrev fresh : Store Disk Document ℤ
fresh = ((λ p. nothing), empty_database)

abbrev persisted : Result ArtifactRecord × Store Disk Document ℤ
persisted = persist_execution disk_files texts demo_codec runtime (at_time 5) no_execution fresh

abbrev artifact : ArtifactRecord
artifact = record {
  kind = "run_json";
  relative_path = "runs/run-1/run.json";
  sha256 = "aaaaaaaaaaaaaaaaaaaaaaaaaaaaaaaaaaaaaaaaaaaaaaaaaaaaaaaaaaaaaaaa";
  size_bytes = 2;
}

located : locate disk_files texts runtime "run-1" (λ p. nothing) ≡ ok (runtime, run_dir)
unfolding locate run_directory validated_run_id
located = refl

persisted_returns : persisted ≡ (ok artifact, persisted.1)
unfolding persist_execution locate persist_at create_run_directory fill_run_directory
    persist_payload register_run save_with_artifact make_artifact is_sha256 save_execution
    text_length initialize transaction insert_platform insert_run run_directory validated_run_id
    insert_artifact save_rows
persisted_returns = refl

persist_execution-IsStored_example : persisted.1.0 ("run.json" ∷ run_dir) ≡ file (1 ∷ 2 ∷ [])
persist_execution-IsStored_example =
    (persist_execution-IsStored disk_files texts demo_codec runtime (at_time 5) no_execution
      (1 ∷ 2 ∷ []) runtime run_dir fresh persisted.1 {a = artifact} disk_files-IsFileSystem refl
      located persisted_returns).1.0

-- The run is in the database, and not on the disk.
abbrev half : Store Disk Document ℤ
half = ((λ p. nothing), persisted.1.1)

abbrev again : Result ArtifactRecord × Store Disk Document ℤ
again = persist_execution disk_files texts demo_codec runtime (at_time 6) no_execution half

again_raises : again ≡ (raise persistence_error "SQLite operation failed (IntegrityError)", again.1)
unfolding persist_execution locate persist_at create_run_directory fill_run_directory
    persist_payload register_run save_with_artifact make_artifact is_sha256 save_execution
    text_length initialize transaction insert_platform insert_run run_directory validated_run_id
    insert_artifact save_rows
again_raises = refl

persist_execution-atomic_example : again.1.0 run_dir ≡ nothing
persist_execution-atomic_example =
    (persist_execution-atomic disk_files texts demo_codec runtime (at_time 6) no_execution
      (1 ∷ 2 ∷ []) runtime run_dir half again.1 disk_files-IsFileSystem (rmtree-removes run_dir)
      refl located again_raises).0

-- A report whose record is invalid, for want of a kind.
abbrev derived : Result ArtifactRecord × Store Disk Document ℤ
derived =
    write_derived_artifact disk_files texts demo_codec runtime "run-1" "report.md" "" "" persisted.1

abbrev removal : Result (Option FilePath) × Store Disk Document ℤ
removal = delete_run_recoverably disk_files texts demo_codec "run-1" runtime "now" persisted.1

abbrev trash : FilePath
trash = "run-1-now" ∷ "trash" ∷ runtime
