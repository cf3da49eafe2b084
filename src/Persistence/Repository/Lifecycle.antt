-- ===== src/Persistence/Repository/Lifecycle.antt =====
-- The lifecycle of baselines and runs in `SQLiteRepository`
-- (src/platval/persistence/repository.py).
use pc_platform_validation_t.Base.{
  nat_eq, string_eq, option_eq, ok, String, ◌≡◌, false, arith, any, ◌==◌, ==_iff, refl, Bool, not,
  List, [], ◌∷◌, ◌⊎◌, true, is_some, succeeds,
}
use pc_platform_validation_t.Base.Int.{pos, beq_ℤ_iff}
use pc_platform_validation_t.Models.Results.{Timestamp}
use pc_platform_validation_t.Persistence.Records.{BaselineRecord}
use pc_platform_validation_t.Persistence.Database.{
  number, Database, has_run, insert_baseline, delete_run_rows, delete_platform, RunRow, BaselineRow,
  find, select,
}
use pc_platform_validation_t.Persistence.Repository.{transaction, initialize}
use pc_platform_validation_t.Persistence.Repository.Baselines.{
  create_baseline, get_baseline, delete_run,
}

any-select : {A : Type 0} (p : A → Bool) (xs : List A) → any p (select (λ x. not (p x)) xs) ≡ false
any-select p [] = refl
any-select p (x ∷ xs) = ground (arith, any-select p xs)

pub is_some-find : {A : Type 0} (p : A → Bool) (xs : List A) → is_some (find p xs) ≡ any p xs
is_some-find p [] = refl
is_some-find p (x ∷ xs) = ground (arith, is_some-find p xs)

module _ {J F : Type 0} where
  -- The database with the schema's version written.
  abbrev pub migrated : Database J F → Database J F
  migrated db = record db { schema_version = number (pos 1) }

  initialize-eq-ok : (db db' : Database J F) → initialize db ≡ (ok tt, db') → db' ≡ migrated db
  unfolding initialize
  initialize-eq-ok db db' h = grind (arith, beq_ℤ_iff)

  -- A baseline that was created is what is read under its name.
  pub create_baseline-get_baseline :
      (now : Timestamp) (name run_id : String) (db db' : Database J F) {b : BaselineRecord}
      → create_baseline now name run_id db ≡ (ok b, db')
      → get_baseline name db' ≡ (ok b, db')
  unfolding create_baseline get_baseline initialize transaction insert_baseline
  create_baseline-get_baseline now name run_id db db' h = ground (arith, ==_iff name name)

  -- A run is gone from the database after its deletion, which leaves every baseline.
  pub delete_run-deleted :
      (run_id : String) (db db' : Database J F)
      → delete_run run_id db ≡ (ok tt, db')
      → (has_run run_id db' ≡ false) × (db'.baselines ≡ db.baselines)
  unfolding delete_run initialize transaction delete_run_rows delete_platform
  delete_run-deleted run_id db db' h =
      ground (arith, any-select (λ (r : RunRow J). r.run_id == run_id) db.runs)

  -- The run that a baseline points to is never deleted: the call raises, and the database keeps its
  -- tables.
  pub delete_run-refused :
      (run_id : String) (db : Database J F)
      → any (λ (b : BaselineRow). b.source_run_id == run_id) db.baselines ≡ true
      → (succeeds (delete_run run_id db).0 ≡ false)
        × (((delete_run run_id db).1 ≡ db) ⊎ ((delete_run run_id db).1 ≡ migrated db))
  unfolding delete_run initialize transaction delete_run_rows delete_platform
  delete_run-refused run_id db h =
      ground (arith, is_some-find (λ (b : BaselineRow). b.source_run_id == run_id) db.baselines)
