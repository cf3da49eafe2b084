-- ===== src/Tests/Persistence.antt =====
-- Baselines and deletion in a small database.
use pc_platform_validation_t.Tests.Numbers.{whole_floats}
use pc_platform_validation_t.Base.{
  any, ◌==◌, nat_eq, string_eq, option_eq, ok, succeeds, ◌≡◌, refl, ◌⊎◌, true, false, [], length,
  List, ◌∷◌,
}
use pc_platform_validation_t.Persistence.Records.{BaselineRecord}
use pc_platform_validation_t.Persistence.Database.{
  BaselineRow, Database, has_run, insert_platform, insert_run, insert_baseline, delete_run_rows,
  delete_platform, number,
}
use pc_platform_validation_t.Persistence.Repository.{
  transaction, initialize, save_execution, save_rows,
}
use pc_platform_validation_t.Persistence.Repository.Baselines.{
  create_baseline, get_baseline, delete_run,
}
use pc_platform_validation_t.Persistence.Repository.Lifecycle.{
  migrated, create_baseline-get_baseline, delete_run-deleted, delete_run-refused,
}
use pc_platform_validation_t.Tests.Fixtures.{
  at_time, no_execution, Document, demo_codec, empty_database,
}
use pc_platform_validation_t.Base.Int.{ℤ, pos}
use pc_platform_validation_t.Persistence.Repository.Writes.{
  Write, save, register, remove, Keeps, perform_all, perform_all-Keeps, HasSources, perform,
}
use pc_platform_validation_t.Persistence.Repository.Listing.{completes, perform_atomic}

abbrev saved : Database Document ℤ
saved = (save_execution demo_codec (at_time 5) no_execution [] empty_database).1

abbrev good_baseline : BaselineRecord
good_baseline = record {
  name = "good";
  source_run_id = "run-1";
  created_at = at_time 6;
  platform_fingerprint = "f0";
  plan_hash = "h0";
  plan_name = "demo";
}

abbrev with_baseline : Database Document ℤ
with_baseline = (create_baseline (at_time 6) "good" "run-1" saved).1

demo_create : create_baseline (at_time 6) "good" "run-1" saved ≡ (ok good_baseline, with_baseline)
unfolding create_baseline save_execution initialize transaction insert_platform insert_run
    insert_baseline
demo_create = refl

create_baseline-get_baseline_example :
    get_baseline "good" with_baseline ≡ (ok good_baseline, with_baseline)
create_baseline-get_baseline_example =
    create_baseline-get_baseline (at_time 6) "good" "run-1" saved with_baseline demo_create

abbrev deleted : Database Document ℤ
deleted = (delete_run "run-1" saved).1

demo_delete : delete_run "run-1" saved ≡ (ok tt, deleted)
unfolding delete_run save_execution initialize transaction insert_platform insert_run
    delete_run_rows delete_platform
demo_delete = refl

delete_run-deleted_example :
    (has_run "run-1" deleted ≡ false) × (deleted.baselines ≡ saved.baselines)
delete_run-deleted_example = delete_run-deleted "run-1" saved deleted demo_delete

demo_source : any (λ (b : BaselineRow). b.source_run_id == "run-1") with_baseline.baselines ≡ true
unfolding create_baseline save_execution initialize transaction insert_platform insert_run
    insert_baseline
demo_source = refl

delete_run-refused_example :
    (succeeds (delete_run "run-1" with_baseline).0 ≡ false)
    × (((delete_run "run-1" with_baseline).1 ≡ with_baseline)
        ⊎ ((delete_run "run-1" with_baseline).1 ≡ migrated with_baseline))
delete_run-refused_example = delete_run-refused "run-1" with_baseline demo_source

abbrev demo_writes : List (Write ℤ)
demo_writes =
    save (at_time 5) no_execution [] ∷ register (at_time 6) "good" "run-1" ∷ remove "run-1" ∷ []

perform_all-Keeps_example : Keeps empty_database (perform_all demo_codec demo_writes empty_database)
perform_all-Keeps_example = perform_all-Keeps demo_codec demo_writes empty_database tt

-- The deletion is refused, and the baseline stays.
demo_writes_kept : length (perform_all demo_codec demo_writes empty_database).baselines ≡ 1
unfolding create_baseline save_execution save_rows delete_run initialize transaction insert_platform
    insert_run insert_baseline delete_run_rows delete_platform
demo_writes_kept = refl

unsaved_fails : completes demo_codec (remove "run-9") saved ≡ false
unfolding create_baseline save_execution save_rows delete_run initialize transaction insert_platform
    insert_run insert_baseline delete_run_rows delete_platform
unsaved_fails = refl

perform_atomic_example :
    (perform demo_codec (remove "run-9") saved ≡ saved)
    ⊎ (perform demo_codec (remove "run-9") saved ≡ migrated saved)
perform_atomic_example = perform_atomic demo_codec (remove "run-9") saved unsaved_fails

saved_version : with_baseline.schema_version ≡ number (pos 1)
unfolding create_baseline save_execution save_rows initialize transaction insert_platform insert_run
    insert_baseline
saved_version = refl

saved_sources : HasSources with_baseline
unfolding create_baseline save_execution save_rows initialize transaction insert_platform insert_run
    insert_baseline
saved_sources = (refl, tt)
