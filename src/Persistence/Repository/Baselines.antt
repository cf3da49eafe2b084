-- ===== src/Persistence/Repository/Baselines.antt =====
-- Baselines and deletion in `SQLiteRepository` (src/platval/persistence/repository.py).
use pc_platform_validation_t.Base.{
  is_some, ◌==◌, nat_eq, string_eq, option_eq, run_not_found_error, baseline_not_found_error,
  baseline_exists_error, baseline_source_error, ok, raise_if, String, Option, none, some, List, [],
  ◌∷◌, length, persistence_error, not,
}
use pc_platform_validation_t.Base.Action.{◌>>=◌, ◌>>◌, pure, lift, query}
use pc_platform_validation_t.Models.Results.{Timestamp}
use pc_platform_validation_t.Persistence.Records.{BaselineRecord}
use pc_platform_validation_t.Persistence.Database.{
  RunRow, BaselineRow, Database, find, insert_baseline, delete_run_rows, delete_platform, select,
}
use pc_platform_validation_t.Persistence.Repository.{
  text_leb, order_by, Query, transaction, initialize, after_initialize, execute, require_found,
}

module _ {J : Type 0} where
  abbrev pub baseline_record : BaselineRow → RunRow J → BaselineRecord
  baseline_record b r = record {
    name = b.name;
    source_run_id = b.source_run_id;
    created_at = b.created_at;
    platform_fingerprint = r.platform_fingerprint;
    plan_hash = r.plan_hash;
    plan_name = r.plan_name;
  }

module _ {J F : Type 0} where
  abbrev named : String → Database J F → Option BaselineRow
  named name db = find (λ (b : BaselineRow). b.name == name) db.baselines

  abbrev source_of : String → Database J F → Option (RunRow J)
  source_of run_id db = find (λ (r : RunRow J). r.run_id == run_id) db.runs

  unfoldable pub create_baseline : Timestamp → String → String → Query J F BaselineRecord
  create_baseline created_at name source_run_id = do
    initialize
    transaction do
      existing ← query λ db. (named name db, db)
      lift (
          raise_if (is_some existing) baseline_exists_error
            "baseline already exists and was not replaced")
      row ← query λ db. (source_of source_run_id db, db)
      source ← require_found row run_not_found_error "run was not found"
      let b : BaselineRow = record {
        name = name;
        source_run_id = source_run_id;
        created_at = created_at;
      }
      execute (insert_baseline b)
      pure (baseline_record b source)

  -- The rows of the join: a baseline whose source run is missing has none.
  abbrev pub joined : Database J F → List BaselineRow → List BaselineRecord
  joined db [] = []
  joined db (b ∷ bs) = elim (source_of b.source_run_id db) [
    | none ↦ joined db bs
    | some r ↦ baseline_record b r ∷ joined db bs
  ]

  unfoldable pub get_baseline : String → Query J F BaselineRecord
  get_baseline name = do
    initialize
    row ← query λ db. (find (λ (b : BaselineRecord). b.name == name) (joined db db.baselines), db)
    require_found row baseline_not_found_error "baseline was not found"

  unfoldable pub list_baselines : Query J F (List BaselineRecord)
  list_baselines =
      after_initialize λ db. ok (order_by (λ a b. text_leb a.name b.name) (joined db db.baselines))

  unfoldable pub delete_run : String → Query J F (Unit {0})
  delete_run run_id = do
    initialize
    transaction do
      row ← query λ db. (source_of run_id db, db)
      run ← require_found row run_not_found_error "run was not found"
      baseline ←
          query λ db. (find (λ (b : BaselineRow). b.source_run_id == run_id) db.baselines, db)
      lift (
          raise_if (is_some baseline) baseline_source_error
            "run is the source of a baseline and was not deleted")
      rowcount ← query λ db. (length (select (λ (r : RunRow J). r.run_id == run_id) db.runs), db)
      execute (delete_run_rows run_id)
      lift (
          raise_if (not (rowcount == 1)) persistence_error
            "run deletion affected an unexpected number of rows")
      execute (delete_platform run.platform_snapshot_id)
