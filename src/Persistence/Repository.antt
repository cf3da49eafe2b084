-- ===== src/Persistence/Repository.antt =====
-- `SQLiteRepository` (src/platval/persistence/repository.py): each method is a function of the
-- database, which may raise; the clock's reading is an argument.
pub mod Reads
pub mod Baselines
pub mod Lifecycle
pub mod Integrity
pub mod Writes
pub mod Listing
pub mod Rows
pub mod Saved
use Prim.Native.Char.{code}
use pc_platform_validation_t.Base.{
  ltb, nat_beq, if◌then◌else◌, nat_eq, string_eq, option_eq, ExceptionClass, run_not_found_error,
  schema_version_error, Result, ok, raised, raise, raise_if, ℕ, zero, suc, ◌+◌, String, ◌≡◌, Bool,
  true, false, not, Option, none, some, List, [], ◌∷◌,
}
use pc_platform_validation_t.Base.Int.{pos, beq_ℤ}
use pc_platform_validation_t.Base.Action.{Action, ◌>>=◌, ◌>>◌, pure, lift, query}
use pc_platform_validation_t.Models.Results.{
  Timestamp, TestResult, RunResult, MetricValue, RequirementEvaluation,
}
use pc_platform_validation_t.Models.Telemetry.{TelemetrySample}
use pc_platform_validation_t.Models.Platform.{PlatformIdentity}
use pc_platform_validation_t.Runner.Run.{RunExecution, tool_version}
use pc_platform_validation_t.Persistence.Records.{ArtifactRecord}
use pc_platform_validation_t.Persistence.Database.{
  RunRow, absent, number, not_a_number, Database, has_run, insert_platform, insert_run, insert_test,
  insert_metric, insert_evaluation, insert_sample, insert_artifact, TestRow, MetricRow,
  EvaluationRow, SampleRow, ArtifactRow,
}

-- pydantic's and json's texts: what the program writes into `*_json` columns, and how it is read.
pub record Codec (J F : Type 0) : Type 0 where
  pub dump_run : RunResult F → J
  pub load_run : J → Result (RunResult F)
  pub dump_test : TestResult F → J
  pub dump_platform : PlatformIdentity → J
  pub load_platform : J → Result PlatformIdentity
  pub dump_sample : TelemetrySample F → J
  pub load_sample : J → Result (TelemetrySample F)

-- Every value that is dumped is loaded again.
pub record RoundTrips {J F : Type 0} (codec : Codec J F) : Type 0 where
  pub run : (r : RunResult F) → codec.load_run (codec.dump_run r) ≡ ok r
  pub platform : (p : PlatformIdentity) → codec.load_platform (codec.dump_platform p) ≡ ok p
  pub sample : (s : TelemetrySample F) → codec.load_sample (codec.dump_sample s) ≡ ok s

-- The order of `ORDER BY` on texts: by code points.
unfoldable pub text_leb : String → String → Bool
text_leb String.[] t = true
text_leb (String.◌∷◌ c s) String.[] = false
text_leb (String.◌∷◌ c s) (String.◌∷◌ d t) =
    let rest = text_leb s t in
    if ltb (code c) (code d) then true else if nat_beq (code c) (code d) then rest else false

module _ {A : Type 0} (leq : A → A → Bool) where
  abbrev pub insert_sorted : A → List A → List A
  insert_sorted a [] = a ∷ []
  insert_sorted a (x ∷ xs) = if leq a x then a ∷ x ∷ xs else x ∷ insert_sorted a xs

  unfoldable pub order_by : List A → List A
  order_by [] = []
  order_by (x ∷ xs) = insert_sorted x (order_by xs)

abbrev pub take {ℓ} : {A : Type ℓ} → ℕ → List A → List A
take zero xs = []
take (suc n) [] = []
take (suc n) (x ∷ xs) = x ∷ take n xs

abbrev pub Query : Type 0 → Type 0 → Type 0 → Type 0
Query J F A = Action (Database J F) A

module _ {J F : Type 0} where
  -- `_connection`: an exception rolls back what the block did.
  unfoldable pub transaction : {A : Type 0} → Query J F A → Query J F A
  transaction m db =
      let (r, db') = m db in elim r [ ok a ↦ (ok a, db') | raised e ↦ (raised e, db) ]

  unfoldable pub initialize : Query J F (Unit {0})
  initialize db = elim db.schema_version [
    | absent ↦ (ok tt, record db { schema_version = number (pos 1) })
    | number v ↦ (
      raise_if (not (beq_ℤ v (pos 1))) schema_version_error "database schema is incompatible",
      db,
    )
    | not_a_number ↦ (raise schema_version_error "database schema version is not an integer", db)
  ]

  -- A block of queries, after `initialize`.
  abbrev pub after_initialize : {A : Type 0} → (Database J F → Result A) → Query J F A
  after_initialize read = initialize >>= λ _ db. (read db, db)

  -- One statement that changes the database.
  abbrev pub execute : (Database J F → Result (Database J F)) → Query J F (Unit {0})
  execute change db = elim (change db) [ ok db' ↦ (ok tt, db') | raised e ↦ (raised e, db) ]

  abbrev pub require_found : {A : Type 0} → Option A → ExceptionClass → String → Query J F A
  require_found none c m = lift (raise c m)
  require_found (some a) c m = pure a

  -- A loop of statements over the items of a list, with their indices.
  abbrev pub for_each :
      {A : Type 0} → (ℕ → A → Query J F (Unit {0})) → ℕ → List A → Query J F (Unit {0})
  for_each f i [] = pure tt
  for_each f i (x ∷ xs) = f i x >> for_each f (i + 1) xs

abbrev pub artifact_row : String → ArtifactRecord → ArtifactRow
artifact_row run_id artifact = record { run_id = run_id; artifact = artifact }

module _ {F : Type 0} where
  abbrev pub metric_row : String → String → String × MetricValue F → MetricRow F
  metric_row run_id test_id (name, m) = record {
    run_id = run_id;
    test_id = test_id;
    name = name;
    value = m.value;
    unit = m.unit;
    source = m.source;
  }

  abbrev pub evaluation_row : String → String → ℕ → RequirementEvaluation F → EvaluationRow F
  evaluation_row run_id test_id i e = record {
    run_id = run_id;
    test_id = test_id;
    evaluation_index = i;
    evaluation = e;
  }

module _ {J F : Type 0} where
  unfoldable pub add_artifact : String → ArtifactRecord → Query J F (Unit {0})
  unfolding initialize transaction
  add_artifact run_id artifact = do
    initialize
    transaction do
      found ← query λ db. (has_run run_id db, db)
      lift (raise_if (not found) run_not_found_error "run was not found")
      execute (insert_artifact (artifact_row run_id artifact))

module _ {J F : Type 0} (codec : Codec J F) where
  abbrev pub test_row : String → TestResult F → TestRow J F
  test_row run_id r = record {
    run_id = run_id;
    test_id = r.test_id;
    status = r.status;
    started_at = r.started_at;
    ended_at = r.ended_at;
    duration_seconds = r.duration_seconds;
    failure_reason = r.failure_reason;
    exception_summary = r.exception_summary;
    injected = r.injected;
    result_json = codec.dump_test r;
  }

  abbrev pub sample_row : String → String → ℕ → TelemetrySample F → SampleRow J F
  sample_row run_id test_id i s = record {
    run_id = run_id;
    test_id = test_id;
    sample_index = i;
    elapsed_seconds = s.elapsed_seconds;
    timestamp = s.timestamp;
    sample_json = codec.dump_sample s;
  }

  abbrev pub run_row : RunResult F → ℕ → Timestamp → RunRow J
  run_row run snapshot_id now = record {
    run_id = run.run_id;
    plan_name = run.plan_name;
    plan_hash = run.plan_hash;
    tool_version = run.tool_version;
    platform_snapshot_id = snapshot_id;
    platform_fingerprint = run.platform_fingerprint;
    started_at = run.started_at;
    ended_at = run.ended_at;
    overall_status = run.overall_status;
    result_json = codec.dump_run run;
    created_at = now;
  }

  unfoldable pub save_test : String → TestResult F → Query J F (Unit {0})
  save_test run_id r = do
    execute (insert_test (test_row run_id r))
    for_each (λ i m. execute (insert_metric (metric_row run_id r.test_id m))) 0 r.measured_values
    for_each (λ i e. execute (insert_evaluation (evaluation_row run_id r.test_id i e))) 0
        r.requirements

  unfoldable pub save_samples : String → String × List (TelemetrySample F) → Query J F (Unit {0})
  save_samples run_id (test_id, samples) =
      for_each (λ i s. execute (insert_sample (sample_row run_id test_id i s))) 0 samples

  -- The rows of a run, once its platform is there.
  unfoldable pub save_rows : Timestamp → RunExecution F → List ArtifactRecord → Query J F (Unit {0})
  unfolding save_test save_samples
  save_rows now execution artifacts = do
    let run = execution.run
    execute λ db. insert_run (run_row run db.last_snapshot_id now) db
    for_each (λ i r. save_test run.run_id r) 0 run.test_results
    for_each (λ i entry. save_samples run.run_id entry) 0 execution.telemetry_samples
    for_each (λ i a. execute (insert_artifact (artifact_row run.run_id a))) 0 artifacts

  abbrev pub save_platform : Timestamp → PlatformIdentity → Database J F → Result (Database J F)
  save_platform now platform db = ok (
      insert_platform platform.sanitized_platform_fingerprint (codec.dump_platform platform) now db)

  unfoldable pub save_execution :
      Timestamp → RunExecution F → List ArtifactRecord → Query J F (Unit {0})
  unfolding initialize transaction insert_platform save_rows
  save_execution now execution artifacts = do
    initialize
    transaction do execute (save_platform now execution.platform); save_rows now execution artifacts
