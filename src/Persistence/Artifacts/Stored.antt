-- ===== src/Persistence/Artifacts/Stored.antt =====
-- What `persist_execution` stores where it returns (src/platval/persistence/artifacts.py).
use mathlib.Core.Path.{subst}
use pc_platform_validation_t.Base.{length, ok, String, ◌≡◌, [], ◌∷◌, arith, sym, ap, ◌∙◌, ◌≢◌}
use pc_platform_validation_t.Base.Action.{
  Action, lift, on_raise, >>=-eq-ok, >>=-after, on_raise-eq-ok,
}
use pc_platform_validation_t.Persistence.Files.{FilePath, nothing, file, Files, Texts, IsFileSystem}
use pc_platform_validation_t.Persistence.Records.{ArtifactRecord}
use pc_platform_validation_t.Persistence.Repository.{Codec, save_execution}
use pc_platform_validation_t.Persistence.Repository.Saved.{IsRecorded, save_execution-IsRecorded}
use pc_platform_validation_t.Persistence.Locations.{describe, make_artifact, locate}
use pc_platform_validation_t.Persistence.Artifacts.{
  Store, write_atomically, save_with_artifact, on_files, ask, remove_if_there, create_run_directory,
  register_run, persist_payload, fill_run_directory, persist_at, persist_execution,
}
use pc_platform_validation_t.Models.Results.{Timestamp}
use pc_platform_validation_t.Workloads.Host.{Bytes}
use pc_platform_validation_t.Runner.Run.{RunExecution}
use pc_platform_validation_t.Persistence.Artifacts.Persist.{create_run_directory-created}
use pc_platform_validation_t.Persistence.Artifacts.Names.{temporary_ne}

module _ {W J F : Type 0} (fs : Files W) where
  pub write_atomically-written :
      (temporary path : FilePath) (payload : Bytes) (s s' : Store W J F)
      → IsFileSystem fs
      → temporary ≢ path
      → write_atomically fs temporary path payload s ≡ (ok tt, s')
      → (fs.entry s'.0 path ≡ file payload) × (fs.entry s'.0 temporary ≡ nothing) × (s'.1 ≡ s.1)
  write_atomically-written temporary path payload s s' laws ne h =
      let write = on_files (fs.write_new temporary payload) in
      let (_, s₁, h₁, h₂) = >>=-eq-ok write (λ _. on_files (fs.replace temporary path)) s h in
      let wrote = laws.write_new-written temporary payload s.0 s₁.0 (ap (λ p. (p.0, p.1.0)) h₁) in
      let (moved, gone) =
        laws.replace-replaced temporary path s₁.0 s'.0 ne (ap (λ p. (p.0, p.1.0)) h₂) in
      (moved ∙ wrote, gone, sym (ap (λ p. p.1.1) h₂) ∙ sym (ap (λ p. p.1.1) h₁))

module _ {F : Type 0} (texts : Texts F) where
  describe-described :
      (runtime path : FilePath) (kind : String) (payload : Bytes) {a : ArtifactRecord}
      → describe texts runtime kind path payload ≡ ok a
      → (a.kind ≡ kind) × (a.sha256 ≡ texts.hexdigest payload) × (a.size_bytes ≡ length payload)
  unfolding make_artifact
  describe-described runtime path kind payload h = ground arith

module _ {W J F : Type 0} (fs : Files W) (texts : Texts F) (codec : Codec J F) where
  -- What a stored run has: its payload on disk, and its rows in the database, that of the artifact
  -- with the kind, the digest and the size of the payload.
  abbrev pub IsStored :
      FilePath → RunExecution F → Bytes → Store W J F → ArtifactRecord → Store W J F → Type 0
  IsStored run_dir execution payload s a s' =
      (fs.entry s'.0 ("run.json" ∷ run_dir) ≡ file payload)
      × (fs.entry s'.0 ("run.json.tmp" ∷ run_dir) ≡ nothing)
      × (a.kind ≡ "run_json")
      × (a.sha256 ≡ texts.hexdigest payload)
      × (a.size_bytes ≡ length payload)
      × IsRecorded codec execution a s.1 s'.1

  save_with_artifact-saved :
      (runtime : FilePath) (now : Timestamp) (execution : RunExecution F)
      (artifact : ArtifactRecord) (s s' : Store W J F) {a : ArtifactRecord}
      → save_with_artifact fs texts codec runtime now execution artifact s ≡ (ok a, s')
      → (artifact ≡ a)
        × (s'.0 ≡ s.0)
        × (save_execution codec now execution (artifact ∷ []) s.1 ≡ (ok tt, s'.1))
  unfolding save_with_artifact
  save_with_artifact-saved runtime now execution artifact s s' h = ground arith

  register_run-registered :
      (runtime path : FilePath) (payload : Bytes) (now : Timestamp) (execution : RunExecution F)
      (s s' : Store W J F) {a : ArtifactRecord}
      → register_run fs texts codec runtime path payload now execution s ≡ (ok a, s')
      → (describe texts runtime "run_json" path payload ≡ ok a)
        × (s'.0 ≡ s.0)
        × (save_execution codec now execution (a ∷ []) s.1 ≡ (ok tt, s'.1))
  unfolding register_run
  register_run-registered runtime path payload now execution s s' {a = a} h =
      let described = describe texts runtime "run_json" path payload in
      let next = save_with_artifact fs texts codec runtime now execution in
      let (b, s₁, h₁, h₂) = >>=-eq-ok (lift described) next s h in
      let (same, there, saved) = save_with_artifact-saved runtime now execution b s₁ s' h₂ in
      let before = ap (λ p. p.1) h₁ in
      (
        ap (λ p. p.0) h₁ ∙ ap (λ x. ok x) same,
        there ∙ sym (ap (λ t. t.0) before),
        subst (λ x. save_execution codec now execution (x ∷ []) s.1 ≡ (ok tt, s'.1)) same
            (subst (λ t. save_execution codec now execution (b ∷ []) t.1 ≡ (ok tt, s'.1))
              (sym before) saved),
      )

  fill_run_directory-IsStored :
      (runtime run_dir : FilePath) (now : Timestamp) (execution : RunExecution F) (payload : Bytes)
      (s s' : Store W J F) {a : ArtifactRecord}
      → IsFileSystem fs
      → texts.dump_execution execution ≡ ok payload
      → fill_run_directory fs texts codec runtime run_dir now execution s ≡ (ok a, s')
      → IsStored run_dir execution payload s a s'
  unfolding fill_run_directory persist_payload
  fill_run_directory-IsStored runtime run_dir now execution payload s s' {a = a} laws d h =
      let cleanup = remove_if_there fs run_dir fs.rmtree in
      let next : Bytes → Action (Store W J F) ArtifactRecord =
        λ b. on_raise (persist_payload fs texts codec runtime run_dir b now execution) cleanup in
      let encoded = >>=-after (lift (texts.dump_execution execution)) next s (ap (λ r. (r, s)) d) in
      let body = persist_payload fs texts codec runtime run_dir payload now execution in
      let returned = on_raise-eq-ok body cleanup s (sym encoded ∙ h) in
      let path = "run.json" ∷ run_dir in
      let temporary = "run.json.tmp" ∷ run_dir in
      let ne = temporary_ne "run.json" run_dir in
      let write = write_atomically fs temporary path payload in
      let (_, s₁, h₁, h₂) =
        >>=-eq-ok write (λ _. register_run fs texts codec runtime path payload now execution) s
          returned in
      let (there, gone, same) =
        write_atomically-written fs temporary path payload s s₁ laws ne h₁ in
      let (described, kept, saved) =
        register_run-registered runtime path payload now execution s₁ s' h₂ in
      let (kind, sha256, size) =
        describe-described texts runtime path "run_json" payload described in
      (
        ap (λ w. fs.entry w path) kept ∙ there,
        ap (λ w. fs.entry w temporary) kept ∙ gone,
        kind,
        sha256,
        size,
        save_execution-IsRecorded codec now execution a s.1 s'.1 (
            subst (λ db. save_execution codec now execution (a ∷ []) db ≡ (ok tt, s'.1)) same
              saved),
      )

  -- Where the execution can be encoded and the path of the run's directory is found: a call that
  -- returns found nothing at that path. It leaves the payload in run.json and no temporary file, and
  -- it has added to the database a row of the run with its id, status and JSON, a row of the run's
  -- artifact with the kind, the digest and the size of the payload, and for each test's result a row
  -- with its ids, status and JSON.
  pub persist_execution-IsStored :
      (runtime_directory : FilePath) (now : Timestamp) (execution : RunExecution F)
      (payload : Bytes) (runtime run_dir : FilePath) (s s' : Store W J F) {a : ArtifactRecord}
      → IsFileSystem fs
      → texts.dump_execution execution ≡ ok payload
      → locate fs texts runtime_directory execution.run.run_id s.0 ≡ ok (runtime, run_dir)
      → persist_execution fs texts codec runtime_directory now execution s ≡ (ok a, s')
      → (fs.entry s.0 run_dir ≡ nothing) × IsStored run_dir execution payload s a s'
  unfolding persist_execution persist_at
  persist_execution-IsStored runtime_directory now execution payload runtime run_dir s s' {a = a}
        laws d l h =
      let next : FilePath × FilePath → Action (Store W J F) ArtifactRecord =
        λ found. persist_at fs texts codec (found.0) (found.1) now execution in
      let located =
        >>=-after (ask (locate fs texts runtime_directory execution.run.run_id)) next s
          (ap (λ r. (r, s)) l) in
      let (_, s₁, h₁, h₂) =
        >>=-eq-ok (create_run_directory fs run_dir)
          (λ _. fill_run_directory fs texts codec runtime run_dir now execution) s
          (sym located ∙ h) in
      let (new, same) = create_run_directory-created fs run_dir s s₁ h₁ in
      let stored =
        fill_run_directory-IsStored runtime run_dir now execution payload s₁ s' laws d h₂ in
      (new, subst (λ db. IsStored run_dir execution payload (s.0, db) a s') same stored)
