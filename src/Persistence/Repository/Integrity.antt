-- ===== src/Persistence/Repository/Integrity.antt =====
-- Referential integrity of baselines over any sequence of writes
-- (src/platval/persistence/repository.py).
use pc_platform_validation_t.Base.{
  nat_eq, string_eq, option_eq, Result, ok, raised, ℕ, ◌+◌, String, ◌≡◌, refl, ◌∙◌, true, List, [],
  ◌∷◌, arith,
}
use pc_platform_validation_t.Base.Action.{◌>>=◌, ◌>>◌}
use pc_platform_validation_t.Persistence.Database.{
  TestRow, Database, has_run, insert_test, RunRow, MetricRow, EvaluationRow, SampleRow, ArtifactRow,
  insert_platform, insert_run, insert_metric, insert_evaluation, insert_sample, insert_artifact,
}
use pc_platform_validation_t.Persistence.Repository.{
  Query, transaction, initialize, execute, for_each, Codec, artifact_row, metric_row,
  evaluation_row, test_row, sample_row, run_row, save_test, save_samples, save_rows, save_platform,
  save_execution,
}
use pc_platform_validation_t.Models.Results.{
  Timestamp, MetricValue, RequirementEvaluation, TestResult,
}
use pc_platform_validation_t.Models.Telemetry.{TelemetrySample}
use pc_platform_validation_t.Models.Platform.{PlatformIdentity}
use pc_platform_validation_t.Runner.Run.{RunExecution}
use pc_platform_validation_t.Persistence.Records.{ArtifactRecord}

module _ {J F : Type 0} where
  -- The second database has the baselines of the first, and at least its runs.
  pub record Extends (db db' : Database J F) : Type 0 where
    pub runs : (id : String) → has_run id db ≡ true → has_run id db' ≡ true
    pub baselines : db'.baselines ≡ db.baselines

  Extends-refl : (db : Database J F) → Extends db db
  Extends-refl db = record { runs = λ id h. h; baselines = refl }

  Extends-trans : (a b c : Database J F) → Extends a b → Extends b c → Extends a c
  Extends-trans a b c h g = record {
    runs = λ id p. g.runs id (h.runs id p);
    baselines = g.baselines ∙ h.baselines;
  }

  -- Whatever a call returns or raises, it extends the database.
  pub record IsExtending {A : Type 0} (m : Query J F A) : Type 0 where
    pub extends : (db : Database J F) → Extends db (m db).1

  >>=-IsExtending :
      {A B : Type 0} (m : Query J F A) (f : A → Query J F B)
      → IsExtending m
      → ((a : A) → IsExtending (f a))
      → IsExtending (m >>= f)
  >>=-IsExtending {A = A} {B = B} m f h g = record {
    extends = λ db.
        let next : Result A → Result B × Database J F =
          λ r. elim r [ ok a ↦ f a (m db).1 | raised e ↦ (raised e, (m db).1) ] in
        elim (m db).0 as (λ r. Extends db (next r).1) [
          | ok a ↦ Extends-trans db (m db).1 _ (h.extends db) ((g a).extends (m db).1)
          | raised e ↦ h.extends db
        ];
  }

  for_each-IsExtending :
      {A : Type 0} (f : ℕ → A → Query J F (Unit {0}))
      → ((i : ℕ) (a : A) → IsExtending (f i a))
      → (i : ℕ) (xs : List A) → IsExtending (for_each f i xs)
  for_each-IsExtending f h i [] = record { extends = Extends-refl }
  for_each-IsExtending f h i (x ∷ xs) =
      >>=-IsExtending (f i x) (λ _. for_each f (i + 1) xs) (h i x)
        (λ _. for_each-IsExtending f h (i + 1) xs)

  transaction-IsExtending :
      {A : Type 0} (m : Query J F A) → IsExtending m → IsExtending (transaction m)
  unfolding transaction
  transaction-IsExtending {A = A} m h = record {
    extends = λ db.
        let next : Result A → Result A × Database J F =
          λ r. elim r [ ok a ↦ (ok a, (m db).1) | raised e ↦ (raised e, db) ] in
        elim (m db).0 as (λ r. Extends db (next r).1) [
          | ok a ↦ h.extends db
          | raised e ↦ Extends-refl db
        ];
  }

  initialize-IsExtending : IsExtending initialize
  unfolding initialize
  initialize-IsExtending = record {
    extends = λ db. record { runs = λ id h. ground arith; baselines = ground arith };
  }

  insert_run-IsExtending :
      (row : Database J F → RunRow J) → IsExtending (execute λ db. insert_run (row db) db)
  unfolding insert_run
  insert_run-IsExtending row = record {
    extends = λ db. record { runs = λ id h. ground arith; baselines = ground arith };
  }

  insert_test-IsExtending : (row : TestRow J F) → IsExtending (execute (insert_test row))
  unfolding insert_test
  insert_test-IsExtending row = record {
    extends = λ db. record { runs = λ id h. ground arith; baselines = ground arith };
  }

  insert_metric-IsExtending : (row : MetricRow F) → IsExtending (execute (insert_metric row))
  unfolding insert_metric
  insert_metric-IsExtending row = record {
    extends = λ db. record { runs = λ id h. ground arith; baselines = ground arith };
  }

  insert_evaluation-IsExtending :
      (row : EvaluationRow F) → IsExtending (execute (insert_evaluation row))
  unfolding insert_evaluation
  insert_evaluation-IsExtending row = record {
    extends = λ db. record { runs = λ id h. ground arith; baselines = ground arith };
  }

  insert_sample-IsExtending : (row : SampleRow J F) → IsExtending (execute (insert_sample row))
  unfolding insert_sample
  insert_sample-IsExtending row = record {
    extends = λ db. record { runs = λ id h. ground arith; baselines = ground arith };
  }

  insert_artifact-IsExtending : (row : ArtifactRow) → IsExtending (execute (insert_artifact row))
  unfolding insert_artifact
  insert_artifact-IsExtending row = record {
    extends = λ db. record { runs = λ id h. ground arith; baselines = ground arith };
  }

module _ {J F : Type 0} (codec : Codec J F) where
  save_platform-IsExtending :
      (now : Timestamp) (platform : PlatformIdentity)
      → IsExtending (execute (save_platform codec now platform))
  unfolding insert_platform
  save_platform-IsExtending now platform = record {
    extends = λ db. record { runs = λ id h. h; baselines = refl };
  }

  save_test-IsExtending :
      (run_id : String) (r : TestResult F) → IsExtending (save_test codec run_id r)
  unfolding save_test
  save_test-IsExtending run_id r =
      let metrics = λ (i : ℕ) (m : String × MetricValue F).
        execute (insert_metric {J = J} (metric_row run_id r.test_id m)) in
      let evaluations = λ (i : ℕ) (e : RequirementEvaluation F).
        execute (insert_evaluation {J = J} (evaluation_row run_id r.test_id i e)) in
      let second = for_each evaluations 0 r.requirements in
      >>=-IsExtending (execute (insert_test (test_row codec run_id r)))
        (λ _. for_each metrics 0 r.measured_values >> second) (insert_test-IsExtending _)
        (λ _.
          >>=-IsExtending (for_each metrics 0 r.measured_values) (λ _. second)
            (for_each-IsExtending metrics (λ i m. insert_metric-IsExtending _) 0 r.measured_values)
            (λ _.
              for_each-IsExtending evaluations (λ i e. insert_evaluation-IsExtending _) 0
                r.requirements))

  save_samples-IsExtending :
      (run_id : String) (entry : String × List (TelemetrySample F))
      → IsExtending (save_samples codec run_id entry)
  unfolding save_samples
  save_samples-IsExtending run_id (test_id, samples) =
      for_each-IsExtending (λ i s. execute (insert_sample (sample_row codec run_id test_id i s)))
        (λ i s. insert_sample-IsExtending _) 0 samples

  save_rows-IsExtending :
      (now : Timestamp) (execution : RunExecution F) (artifacts : List ArtifactRecord)
      → IsExtending (save_rows codec now execution artifacts)
  unfolding save_rows
  save_rows-IsExtending now execution artifacts =
      let run = execution.run in
      let row = λ (db : Database J F). run_row codec run db.last_snapshot_id now in
      let tests = λ (i : ℕ) (r : TestResult F). save_test codec run.run_id r in
      let samples = λ (i : ℕ) (entry : String × List (TelemetrySample F)).
        save_samples codec run.run_id entry in
      let files = λ (i : ℕ) (a : ArtifactRecord).
        execute (insert_artifact {J = J} {F = F} (artifact_row run.run_id a)) in
      let third = for_each files 0 artifacts in
      let second = for_each samples 0 execution.telemetry_samples in
      let first = for_each tests 0 run.test_results in
      >>=-IsExtending (execute λ db. insert_run (row db) db) (λ _. first >> (second >> third))
        (insert_run-IsExtending row)
        (λ _.
          >>=-IsExtending first (λ _. second >> third)
            (for_each-IsExtending tests (λ i r. save_test-IsExtending run.run_id r) 0
              run.test_results)
            (λ _.
              >>=-IsExtending second (λ _. third)
                (for_each-IsExtending samples (λ i e. save_samples-IsExtending run.run_id e) 0
                  execution.telemetry_samples)
                (λ _.
                  for_each-IsExtending files (λ i a. insert_artifact-IsExtending _) 0 artifacts)))

  pub save_execution-IsExtending :
      (now : Timestamp) (execution : RunExecution F) (artifacts : List ArtifactRecord)
      → IsExtending (save_execution codec now execution artifacts)
  unfolding save_execution
  save_execution-IsExtending now execution artifacts =
      let start = execute (save_platform codec now execution.platform) in
      let rows = save_rows codec now execution artifacts in
      >>=-IsExtending initialize (λ _. transaction (start >> rows)) initialize-IsExtending
        (λ _. transaction-IsExtending (start >> rows) (
          >>=-IsExtending start (λ _. rows) (save_platform-IsExtending now execution.platform)
            (λ _. save_rows-IsExtending now execution artifacts)))
