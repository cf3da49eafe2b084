-- ===== src/Persistence/Repository/Reads.antt =====
-- The queries of `SQLiteRepository` (src/platval/persistence/repository.py): a block that only
-- reads is a function of the database, with what it returns or raises. Rows that an `ORDER BY`
-- leaves tied come in any order; the model keeps the one of the table.
use pc_platform_validation_t.Base.{
  leb, if◌then◌else◌, ◌==◌, nat_eq, string_eq, option_eq, ExceptionClass, value_error,
  persistence_error, run_not_found_error, Result, ok, raise, ◌>>=◌, ℕ, ◌+◌, String, Bool, ◌||◌,
  Option, none, some, List, [], ◌∷◌, ◌++◌, map,
}
use pc_platform_validation_t.Base.Int.{ℤ, pos, negsuc, ltb_ℤ}
use pc_platform_validation_t.Base.Dict.{Dict, insert, lookup_or}
use pc_platform_validation_t.Models.Results.{TestResult}
use pc_platform_validation_t.Models.Telemetry.{TelemetrySample}
use pc_platform_validation_t.Persistence.Records.{ArtifactRecord, RunSummary, StoredRun}
use pc_platform_validation_t.Persistence.Database.{
  PlatformRow, RunRow, SampleRow, ArtifactRow, Database, find, select,
}
use pc_platform_validation_t.Persistence.Repository.{
  Codec, text_leb, order_by, take, Query, after_initialize,
}

unfoldable pub magnitude : ℤ → ℕ
magnitude (pos n) = n
magnitude (negsuc n) = n + 1

abbrev found : {A : Type 0} → Option A → ExceptionClass → String → Result A
found none c m = raise c m
found (some a) c m = ok a

module _ {J F : Type 0} where
  abbrev sample_leq : SampleRow J F → SampleRow J F → Bool
  sample_leq a b =
      if a.test_id == b.test_id
      then leb a.sample_index b.sample_index
      else text_leb a.test_id b.test_id

  abbrev pub samples_of : String → Database J F → List (SampleRow J F)
  samples_of run_id db =
      order_by sample_leq (select (λ (s : SampleRow J F). s.run_id == run_id) db.telemetry)

  abbrev pub artifacts_of : String → Database J F → List ArtifactRecord
  artifacts_of run_id db =
      order_by (λ a b. text_leb a.relative_path b.relative_path)
        (map (λ (a : ArtifactRow). a.artifact)
          (select (λ (a : ArtifactRow). a.run_id == run_id) db.artifacts))

module _ {F : Type 0} where
  -- `{result.test_id: [] for result in run_result.test_results}`
  abbrev empty_telemetry :
      Dict String (List (TelemetrySample F))
      → List (TestResult F)
      → Dict String (List (TelemetrySample F))
  empty_telemetry d [] = d
  empty_telemetry d (r ∷ rs) = empty_telemetry (insert r.test_id [] d) rs

module _ {J F : Type 0} (codec : Codec J F) where
  -- `telemetry.setdefault(test_id, []).append(...)` for each row
  abbrev load_telemetry :
      Dict String (List (TelemetrySample F))
      → List (SampleRow J F)
      → Result (Dict String (List (TelemetrySample F)))
  load_telemetry d [] = ok d
  load_telemetry d (row ∷ rows) = codec.load_sample row.sample_json >>= λ sample.
      load_telemetry (insert row.test_id (lookup_or row.test_id [] d ++ sample ∷ []) d) rows

  unfoldable pub stored_run : String → Database J F → Result (StoredRun F)
  stored_run run_id db = do
    row ←
        found (find (λ (r : RunRow J). r.run_id == run_id) db.runs) run_not_found_error
          "run was not found"
    platform_row ←
        found (find (λ (p : PlatformRow J). p.snapshot_id == row.platform_snapshot_id) db.platforms)
          persistence_error "run references a missing platform snapshot"
    run ← codec.load_run row.result_json
    telemetry ← load_telemetry (empty_telemetry [] run.test_results) (samples_of run_id db)
    platform ← codec.load_platform platform_row.snapshot_json
    ok (record {
      execution = record { run = run; platform = platform; telemetry_samples = telemetry };
      artifacts = artifacts_of run_id db;
    })

  unfoldable pub get_run : String → Query J F (StoredRun F)
  get_run run_id = after_initialize (stored_run run_id)

module _ {J : Type 0} where
  abbrev summary : RunRow J → RunSummary
  summary row = record {
    run_id = row.run_id;
    plan_name = row.plan_name;
    started_at = row.started_at;
    overall_status = row.overall_status;
    platform_fingerprint = row.platform_fingerprint;
  }

module _ {J F : Type 0} where
  -- ISO texts with one offset order as their instants.
  abbrev summaries : ℕ → Database J F → List RunSummary
  summaries limit db =
      map summary
        (take limit (order_by (λ a b. leb b.started_at.instant a.started_at.instant) db.runs))

  unfoldable pub list_runs : ℤ → Query J F (List RunSummary)
  list_runs limit db =
      if ltb_ℤ limit (pos 1) || ltb_ℤ (pos 1000) limit
      then (raise value_error "run list limit must be between 1 and 1000", db)
      else after_initialize (λ db. ok (summaries (magnitude limit) db)) db
