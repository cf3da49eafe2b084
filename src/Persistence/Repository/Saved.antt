-- ===== src/Persistence/Repository/Saved.antt =====
-- The rows that `save_execution` (src/platval/persistence/repository.py) leaves.
use mathlib.Core.Path.{subst}
use pc_platform_validation_t.Base.{
  nat_eq, string_eq, option_eq, All, ok, String, ◌≡◌, refl, sym, ap, ◌∙◌, List, [], ◌∷◌, arith,
}
use pc_platform_validation_t.Base.Action.{◌>>◌, pure, >>=-eq-ok}
use pc_platform_validation_t.Models.Results.{Timestamp, TestResult}
use pc_platform_validation_t.Models.Platform.{PlatformIdentity}
use pc_platform_validation_t.Runner.Run.{RunExecution}
use pc_platform_validation_t.Persistence.Records.{ArtifactRecord}
use pc_platform_validation_t.Persistence.Database.{
  RunRow, TestRow, ArtifactRow, Database, insert_platform, insert_run, insert_artifact,
}
use pc_platform_validation_t.Persistence.Repository.{
  Codec, Query, transaction, initialize, execute, for_each, artifact_row, run_row, save_test,
  save_samples, save_rows, save_platform, save_execution,
}
use pc_platform_validation_t.Persistence.Repository.Rows.{
  Exists, Same, Same-trans, for_each-IsLocal, initialize-IsLocal, transaction-eq-ok, IsTestRow,
  save_samples-IsLocal, saved_tests,
}

module _ {J F : Type 0} (codec : Codec J F) where
  insert_run-added :
      (row : RunRow J) (db db' : Database J F)
      → execute (insert_run row) db ≡ (ok tt, db')
      → (db'.runs ≡ row ∷ db.runs) × (db'.artifacts ≡ db.artifacts)
  unfolding insert_run
  insert_run-added row db db' h = ground arith

  insert_artifact-added :
      (row : ArtifactRow) (db db' : Database J F)
      → execute (insert_artifact row) db ≡ (ok tt, db')
      → (db'.artifacts ≡ row ∷ db.artifacts)
        × (db'.runs ≡ db.runs)
        × (db'.test_results ≡ db.test_results)
  unfolding insert_artifact
  insert_artifact-added row db db' h = ground arith

  -- What the tables hold of an execution: a new row of the run, one of its artifact, and a row of
  -- each of its tests.
  pub record IsRecorded (execution : RunExecution F) (a : ArtifactRecord) (db db' : Database J F)
      : Type 0 where
    pub run :
        (row : RunRow J) × (db'.runs ≡ row ∷ db.runs)
        × (row.run_id ≡ execution.run.run_id)
        × (row.overall_status ≡ execution.run.overall_status)
        × (row.result_json ≡ codec.dump_run execution.run)
    pub artifact :
        (row : ArtifactRow) × (db'.artifacts ≡ row ∷ db.artifacts)
        × (row.run_id ≡ execution.run.run_id)
        × (row.artifact ≡ a)
    pub tests :
        All
          (λ r. Exists (IsTestRow codec execution.run.run_id r) db'.test_results)
          execution.run.test_results

  rows_moved :
      (run_id : String) (rows rows' : List (TestRow J F)) (rs : List (TestResult F))
      → rows' ≡ rows
      → All (λ r. Exists (IsTestRow codec run_id r) rows) rs
      → All (λ r. Exists (IsTestRow codec run_id r) rows') rs
  rows_moved run_id rows rows' rs e h =
      subst (λ x. All (λ r. Exists (IsTestRow codec run_id r) x) rs) (sym e) h

  save_rows-IsRecorded :
      (now : Timestamp) (execution : RunExecution F) (a : ArtifactRecord) (db db' : Database J F)
      → save_rows codec now execution (a ∷ []) db ≡ (ok tt, db')
      → IsRecorded execution a db db'
  unfolding save_rows
  save_rows-IsRecorded now execution a db db' h =
      let run = execution.run in
      let tests = for_each (λ i r. save_test codec run.run_id r) 0 run.test_results in
      let samples =
        for_each (λ i entry. save_samples codec run.run_id entry) 0 execution.telemetry_samples in
      let artifacts =
        for_each (λ i a. execute (insert_artifact (artifact_row run.run_id a))) 0 (a ∷ []) in
      let insert : Query J F (Unit {0}) =
        execute (λ db. insert_run (run_row codec run db.last_snapshot_id now) db) in
      let (_, db₁, h₁, k₁) = >>=-eq-ok insert (λ _. tests >> (samples >> artifacts)) db h in
      let (_, db₂, h₂, k₂) = >>=-eq-ok tests (λ _. samples >> artifacts) db₁ k₁ in
      let (_, db₃, h₃, k₃) = >>=-eq-ok samples (λ _. artifacts) db₂ k₂ in
      let artifact = execute (insert_artifact (artifact_row run.run_id a)) in
      let (_, db₄, h₄, k₄) = >>=-eq-ok artifact (λ _. pure tt) db₃ k₃ in
      let last = sym (ap (λ p. p.1) k₄) in
      let (runs, old) = insert_run-added (run_row codec run db.last_snapshot_id now) db db₁ h₁ in
      let (runs₂, old₂, _, saved) = saved_tests codec run.run_id 0 run.test_results db₁ db₂ h₂ in
      let (runs₃, old₃, same₃) =
        for_each-IsLocal (λ i entry. save_samples codec run.run_id entry)
          (λ i entry. save_samples-IsLocal codec run.run_id entry) 0 execution.telemetry_samples db₂
          db₃ h₃ in
      let (new, runs₄, same₄) = insert_artifact-added (artifact_row run.run_id a) db₃ db₄ h₄ in
      record {
        run = (
          run_row codec run db.last_snapshot_id now,
          ap (λ d. d.runs) last ∙ runs₄ ∙ runs₃ ∙ runs₂ ∙ runs,
          refl,
          refl,
          refl,
        );
        artifact = (
          artifact_row run.run_id a,
          ap (λ d. d.artifacts) last
              ∙ new
              ∙ ap (λ rows. artifact_row run.run_id a ∷ rows) (old₃ ∙ old₂ ∙ old),
          refl,
          refl,
        );
        tests =
            rows_moved run.run_id db₂.test_results db'.test_results run.test_results
              (ap (λ d. d.test_results) last ∙ same₄ ∙ same₃) saved;
      }

  save_platform-added :
      (now : Timestamp) (platform : PlatformIdentity) (db db' : Database J F)
      → execute (save_platform codec now platform) db ≡ (ok tt, db')
      → Same db db'
  unfolding insert_platform
  save_platform-added now platform db db' h = ground arith

  after-IsRecorded :
      (execution : RunExecution F) (a : ArtifactRecord) (db db₁ db' : Database J F)
      → Same db db₁
      → IsRecorded execution a db₁ db'
      → IsRecorded execution a db db'
  after-IsRecorded execution a db db₁ db' (runs, artifacts, _) recorded =
      let (row, added, id, status, json) = recorded.run in
      let (row', added', id', is_artifact) = recorded.artifact in
      record {
        run = (row, added ∙ ap (λ rows. row ∷ rows) runs, id, status, json);
        artifact = (row', added' ∙ ap (λ rows. row' ∷ rows) artifacts, id', is_artifact);
        tests = recorded.tests;
      }

  -- What a call of `save_execution` that returns has added to the tables.
  pub save_execution-IsRecorded :
      (now : Timestamp) (execution : RunExecution F) (a : ArtifactRecord) (db db' : Database J F)
      → save_execution codec now execution (a ∷ []) db ≡ (ok tt, db')
      → IsRecorded execution a db db'
  unfolding save_execution
  save_execution-IsRecorded now execution a db db' h =
      let start = execute (save_platform codec now execution.platform) in
      let rows = save_rows codec now execution (a ∷ []) in
      let (_, db₁, h₁, k₁) = >>=-eq-ok initialize (λ _. transaction (start >> rows)) db h in
      let (_, db₂, h₂, k₂) =
        >>=-eq-ok start (λ _. rows) db₁ (transaction-eq-ok (start >> rows) db₁ db' k₁) in
      after-IsRecorded execution a db db₂ db'
        (Same-trans db db₁ db₂ (initialize-IsLocal J db db₁ h₁)
          (save_platform-added now execution.platform db₁ db₂ h₂))
        (save_rows-IsRecorded now execution a db₂ db' k₂)
