-- ===== src/Persistence/Database.antt =====
-- The SQLite schema (src/platval/persistence/schema.py): tables as lists of rows, and inserts that
-- check the primary and foreign keys. A violated constraint is SQLite's IntegrityError, which the
-- repository's connection turns into a PersistenceError. `J` is the type of JSON texts.
use pc_platform_validation_t.Base.{
  if◌then◌else◌, any, ◌==◌, nat_eq, string_eq, option_eq, persistence_error, Result, ok, raise, ℕ,
  ◌+◌, String, Bool, not, ◌&&◌, ◌||◌, Option, none, some, List, [], ◌∷◌,
}
use pc_platform_validation_t.Base.Int.{ℤ}
use pc_platform_validation_t.Models.Status.{ResultStatus, status_eq}
use pc_platform_validation_t.Models.Scalar.{Scalar}
use pc_platform_validation_t.Models.Results.{Timestamp, RequirementEvaluation}
use pc_platform_validation_t.Persistence.Records.{ArtifactRecord}

pub record PlatformRow (J : Type 0) : Type 0 where
  pub snapshot_id : ℕ
  pub fingerprint : String
  pub snapshot_json : J
  pub captured_at : Timestamp

pub record RunRow (J : Type 0) : Type 0 where
  pub run_id : String
  pub plan_name : String
  pub plan_hash : String
  pub tool_version : String
  pub platform_snapshot_id : ℕ
  pub platform_fingerprint : String
  pub started_at : Timestamp
  pub ended_at : Timestamp
  pub overall_status : ResultStatus
  pub result_json : J
  pub created_at : Timestamp

pub record TestRow (J F : Type 0) : Type 0 where
  pub run_id : String
  pub test_id : String
  pub status : ResultStatus
  pub started_at : Timestamp
  pub ended_at : Timestamp
  pub duration_seconds : F
  pub failure_reason : Option String
  pub exception_summary : Option String
  pub injected : Bool
  pub result_json : J

pub record MetricRow (F : Type 0) : Type 0 where
  pub run_id : String
  pub test_id : String
  pub name : String
  pub value : Scalar F
  pub unit : Option String
  pub source : String

pub record EvaluationRow (F : Type 0) : Type 0 where
  pub run_id : String
  pub test_id : String
  pub evaluation_index : ℕ
  pub evaluation : RequirementEvaluation F

pub record SampleRow (J F : Type 0) : Type 0 where
  pub run_id : String
  pub test_id : String
  pub sample_index : ℕ
  pub elapsed_seconds : F
  pub timestamp : Timestamp
  pub sample_json : J

pub record ArtifactRow : Type 0 where
  pub run_id : String
  pub artifact : ArtifactRecord

pub record BaselineRow : Type 0 where
  pub name : String
  pub source_run_id : String
  pub created_at : Timestamp

-- The value under `schema_version`, if the metadata has one.
pub data StoredVersion : Type 0 where
  absent : StoredVersion
  number : ℤ → StoredVersion
  not_a_number : StoredVersion

pub record Database (J F : Type 0) : Type 0 where
  pub schema_version : StoredVersion
  pub platforms : List (PlatformRow J)
  -- the last id that AUTOINCREMENT gave out
  pub last_snapshot_id : ℕ
  pub runs : List (RunRow J)
  pub test_results : List (TestRow J F)
  pub metrics : List (MetricRow F)
  pub evaluations : List (EvaluationRow F)
  pub telemetry : List (SampleRow J F)
  pub artifacts : List ArtifactRow
  pub baselines : List BaselineRow

-- The first row that a test selects, and the rows that it does not.
module _ {A : Type 0} where
  abbrev pub find : (A → Bool) → List A → Option A
  find p [] = none
  find p (x ∷ xs) = if p x then some x else find p xs

  abbrev pub select : (A → Bool) → List A → List A
  select p [] = []
  select p (x ∷ xs) = if p x then x ∷ select p xs else select p xs

abbrev integrity_error : {A : Type 0} → Result A
integrity_error = raise persistence_error "SQLite operation failed (IntegrityError)"

module _ {J F : Type 0} where
  abbrev pub has_run : String → Database J F → Bool
  has_run id db = any (λ (r : RunRow J). r.run_id == id) db.runs

  abbrev pub has_test : String → String → Database J F → Bool
  has_test run_id test_id db =
      any (λ (r : TestRow J F). r.run_id == run_id && r.test_id == test_id) db.test_results

  -- AUTOINCREMENT: an id above every one given out before.
  unfoldable pub insert_platform : String → J → Timestamp → Database J F → Database J F
  insert_platform fingerprint snapshot_json captured_at db =
      let id = db.last_snapshot_id + 1 in
      record db {
        last_snapshot_id = id;
        platforms =
            record {
              snapshot_id = id;
              fingerprint = fingerprint;
              snapshot_json = snapshot_json;
              captured_at = captured_at;
            }
            ∷ db.platforms;
      }

  unfoldable pub insert_run : RunRow J → Database J F → Result (Database J F)
  insert_run row db =
      if has_run row.run_id db
        || not (any (λ (p : PlatformRow J). p.snapshot_id == row.platform_snapshot_id) db.platforms)
      then integrity_error
      else ok (record db { runs = row ∷ db.runs })

  unfoldable pub insert_test : TestRow J F → Database J F → Result (Database J F)
  insert_test row db =
      if has_test row.run_id row.test_id db || not (has_run row.run_id db)
      then integrity_error
      else ok (record db { test_results = row ∷ db.test_results })

  unfoldable pub insert_metric : MetricRow F → Database J F → Result (Database J F)
  insert_metric row db =
      if any
          (λ (m : MetricRow F).
            m.run_id == row.run_id && m.test_id == row.test_id && m.name == row.name)
          db.metrics
        || not (has_test row.run_id row.test_id db)
      then integrity_error
      else ok (record db { metrics = row ∷ db.metrics })

  unfoldable pub insert_evaluation : EvaluationRow F → Database J F → Result (Database J F)
  insert_evaluation row db =
      if any
          (λ (e : EvaluationRow F).
            e.run_id == row.run_id
            && e.test_id == row.test_id
            && e.evaluation_index == row.evaluation_index)
          db.evaluations
        || not (has_test row.run_id row.test_id db)
      then integrity_error
      else ok (record db { evaluations = row ∷ db.evaluations })

  unfoldable pub insert_sample : SampleRow J F → Database J F → Result (Database J F)
  insert_sample row db =
      if any
          (λ (s : SampleRow J F).
            s.run_id == row.run_id
            && s.test_id == row.test_id
            && s.sample_index == row.sample_index)
          db.telemetry
        || not (has_test row.run_id row.test_id db)
      then integrity_error
      else ok (record db { telemetry = row ∷ db.telemetry })

  unfoldable pub insert_artifact : ArtifactRow → Database J F → Result (Database J F)
  insert_artifact row db =
      if any
          (λ (a : ArtifactRow).
            a.run_id == row.run_id && a.artifact.relative_path == row.artifact.relative_path)
          db.artifacts
        || not (has_run row.run_id db)
      then integrity_error
      else ok (record db { artifacts = row ∷ db.artifacts })

  unfoldable pub insert_baseline : BaselineRow → Database J F → Result (Database J F)
  insert_baseline row db =
      if any (λ (b : BaselineRow). b.name == row.name) db.baselines
        || not (has_run row.source_run_id db)
      then integrity_error
      else ok (record db { baselines = row ∷ db.baselines })

  -- `DELETE FROM runs WHERE run_id = ?`: restricted by baselines, cascading to the tables below.
  unfoldable pub delete_run_rows : String → Database J F → Result (Database J F)
  delete_run_rows id db =
      if any (λ (b : BaselineRow). b.source_run_id == id) db.baselines
      then integrity_error
      else ok (record db {
        runs = select (λ (r : RunRow J). not (r.run_id == id)) db.runs;
        test_results = select (λ (r : TestRow J F). not (r.run_id == id)) db.test_results;
        metrics = select (λ (r : MetricRow F). not (r.run_id == id)) db.metrics;
        evaluations = select (λ (r : EvaluationRow F). not (r.run_id == id)) db.evaluations;
        telemetry = select (λ (r : SampleRow J F). not (r.run_id == id)) db.telemetry;
        artifacts = select (λ (r : ArtifactRow). not (r.run_id == id)) db.artifacts;
      })

  -- `DELETE FROM platforms WHERE snapshot_id = ?`: refused while a run refers to it.
  unfoldable pub delete_platform : ℕ → Database J F → Result (Database J F)
  delete_platform id db =
      if any (λ (r : RunRow J). r.platform_snapshot_id == id) db.runs
        && any (λ (p : PlatformRow J). p.snapshot_id == id) db.platforms
      then integrity_error
      else ok (record db {
        platforms = select (λ (p : PlatformRow J). not (p.snapshot_id == id)) db.platforms;
      })
