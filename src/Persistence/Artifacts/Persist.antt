-- ===== src/Persistence/Artifacts/Persist.antt =====
-- What `persist_execution` leaves where it raises (src/platval/persistence/artifacts.py).
use pc_platform_validation_t.Base.{
  Exception, ok, raised, succeeds, ◌≡◌, sym, ap, inl, inr, true, ◌∷◌, refl, ◌∙◌, [], arith, ◌≢◌,
}
use pc_platform_validation_t.Base.Action.{
  ◌>>=◌, >>=-eq-raised, Action, >>=-after, lift, on_raise-eq-raised, pure, on_raise,
}
use pc_platform_validation_t.Persistence.Files.{
  FilePath, nothing, directory, Files, Texts, IsFileSystem,
}
use pc_platform_validation_t.Persistence.Repository.{Codec, save_execution}
use pc_platform_validation_t.Persistence.Locations.{locate, open_repository, describe}
use pc_platform_validation_t.Persistence.Artifacts.{
  Store, on_files, persist_payload, persist_execution, ask, write_atomically, remove_if_there,
  create_run_directory, fill_run_directory, on_database, save_with_artifact, register_run,
  persist_at,
}
use pc_platform_validation_t.Models.Results.{Timestamp}
use pc_platform_validation_t.Workloads.Host.{Bytes}
use pc_platform_validation_t.Runner.Run.{RunExecution}
use pc_platform_validation_t.Persistence.Artifacts.Tables.{
  KeepsTables, IsReading, IsCareful, >>=-IsCareful, on_database-IsCareful, >>=-IsReading,
  on_files-IsReading,
}
use pc_platform_validation_t.Persistence.Repository.Listing.{perform_atomic}
use pc_platform_validation_t.Persistence.Repository.Writes.{save}
use pc_platform_validation_t.Persistence.Artifacts.Names.{temporary_ne, parent_ne}
use pc_platform_validation_t.Persistence.Artifacts.Undo.{
  write_atomically-raised, write_atomically-others,
}
use mathlib.Core.Path.{subst}
use pc_platform_validation_t.Persistence.Records.{ArtifactRecord}

module _ {W J F : Type 0} (fs : Files W) where
  write_atomically-IsReading :
      (temporary path : FilePath) (payload : Bytes)
      → IsReading {J = J} {F = F} (write_atomically fs temporary path payload)
  write_atomically-IsReading temporary path payload =
      >>=-IsReading (on_files (fs.write_new temporary payload))
        (λ _. on_files (fs.replace temporary path))
        (on_files-IsReading (fs.write_new temporary payload))
        (λ _. on_files-IsReading (fs.replace temporary path))

  create_run_directory-raised :
      (run_dir : FilePath) (s s' : Store W J F) {e : Exception}
      → IsFileSystem fs
      → create_run_directory fs run_dir s ≡ (raised e, s')
      → (fs.entry s'.0 run_dir ≡ fs.entry s.0 run_dir) × (s'.1 ≡ s.1)
  unfolding create_run_directory
  create_run_directory-raised run_dir s s' laws h = ground (arith, laws.mkdir-refused run_dir s.0)

  pub create_run_directory-created :
      (run_dir : FilePath) (s s' : Store W J F)
      → create_run_directory fs run_dir s ≡ (ok tt, s')
      → (fs.entry s.0 run_dir ≡ nothing) × (s'.1 ≡ s.1)
  unfolding create_run_directory
  create_run_directory-created run_dir s s' h = ground arith

  create_run_directory-made :
      (run_dir : FilePath) (s s' : Store W J F)
      → IsFileSystem fs
      → create_run_directory fs run_dir s ≡ (ok tt, s')
      → fs.entry s'.0 run_dir ≡ directory
  unfolding create_run_directory
  create_run_directory-made run_dir s s' laws h = ground (arith, laws.mkdir-made run_dir s.0 s'.0)

  remove_if_there-returns :
      (path : FilePath) (s : Store W J F)
      → (fs.entry s.0 path ≡ directory → succeeds (fs.rmtree path s.0).0 ≡ true)
      → fs.entry s.0 path ≡ directory
      → succeeds (remove_if_there fs path fs.rmtree s).0 ≡ true
  remove_if_there-returns path s removes made = rw made (removes made)

  remove_if_there-gone :
      (path : FilePath) (s s' : Store W J F)
      → IsFileSystem fs
      → remove_if_there fs path fs.rmtree s ≡ (ok tt, s')
      → (fs.entry s'.0 path ≡ nothing) × (s'.1 ≡ s.1)
  remove_if_there-gone path s s' laws h = ground (arith, laws.rmtree-gone path s.0 s'.0)

module _ {W J F : Type 0} (fs : Files W) (texts : Texts F) (codec : Codec J F) where
  save_with_artifact-IsCareful :
      (runtime : FilePath) (now : Timestamp) (execution : RunExecution F)
      (artifact : ArtifactRecord)
      → IsCareful (save_with_artifact fs texts codec runtime now execution artifact)
  unfolding save_with_artifact
  save_with_artifact-IsCareful runtime now execution artifact =
      let save_it = save_execution codec now execution (artifact ∷ []) in
      >>=-IsCareful (ask (open_repository fs runtime))
        (λ _. on_database save_it >>= λ _. pure artifact) (λ s. inl refl)
        (λ _.
          on_database-IsCareful W save_it (λ _. artifact)
            (perform_atomic codec (save now execution (artifact ∷ []))))

  register_run-IsCareful :
      (runtime path : FilePath) (payload : Bytes) (now : Timestamp) (execution : RunExecution F)
      → IsCareful (register_run fs texts codec runtime path payload now execution)
  unfolding register_run
  register_run-IsCareful runtime path payload now execution =
      >>=-IsCareful (lift (describe texts runtime "run_json" path payload))
        (save_with_artifact fs texts codec runtime now execution) (λ s. inl refl)
        (save_with_artifact-IsCareful runtime now execution)

  -- Whatever is raised in the `try`, the tables are as they were.
  persist_payload-IsCareful :
      (runtime run_dir : FilePath) (payload : Bytes) (now : Timestamp) (execution : RunExecution F)
      → IsCareful (persist_payload fs texts codec runtime run_dir payload now execution)
  unfolding persist_payload
  persist_payload-IsCareful runtime run_dir payload now execution =
      let path = "run.json" ∷ run_dir in
      let temporary = "run.json.tmp" ∷ run_dir in
      >>=-IsCareful (write_atomically fs temporary path payload)
        (λ _. register_run fs texts codec runtime path payload now execution)
        (write_atomically-IsReading fs temporary path payload)
        (λ _. register_run-IsCareful runtime path payload now execution)

  register_run-files :
      (runtime path : FilePath) (payload : Bytes) (now : Timestamp) (execution : RunExecution F)
      (s s' : Store W J F) {e : Exception}
      → register_run fs texts codec runtime path payload now execution s ≡ (raised e, s')
      → s'.0 ≡ s.0
  unfolding register_run save_with_artifact
  register_run-files runtime path payload now execution s s' h = ground arith

  -- The `try` does not touch the directory's own entry.
  persist_payload-directory :
      (runtime run_dir : FilePath) (payload : Bytes) (now : Timestamp) (execution : RunExecution F)
      (s s' : Store W J F) {e : Exception}
      → IsFileSystem fs
      → persist_payload fs texts codec runtime run_dir payload now execution s ≡ (raised e, s')
      → fs.entry s'.0 run_dir ≡ fs.entry s.0 run_dir
  unfolding persist_payload
  persist_payload-directory runtime run_dir payload now execution s s' laws h =
      let path = "run.json" ∷ run_dir in
      let temporary = "run.json.tmp" ∷ run_dir in
      let write = write_atomically fs temporary path payload in
      let other : path ≢ temporary = λ same. temporary_ne "run.json" run_dir (sym same) in
      elim (>>=-eq-raised write
        (λ _. register_run fs texts codec runtime path payload now execution) s h) [
          | inl h₁ ↦
              (write_atomically-raised fs temporary path payload s s' laws other h₁).0 run_dir
                (parent_ne "run.json.tmp" run_dir)
          | inr (_, s₁, h₁, h₂) ↦
              ap (λ w. fs.entry w run_dir)
                (register_run-files runtime path payload now execution s₁ s' h₂)
              ∙ write_atomically-others fs temporary path run_dir payload s s₁ laws
                  (parent_ne "run.json.tmp" run_dir) (parent_ne "run.json" run_dir) h₁
        ]

  fill_run_directory-raised :
      (runtime run_dir : FilePath) (now : Timestamp) (execution : RunExecution F) (payload : Bytes)
      (s s' : Store W J F) {e : Exception}
      → IsFileSystem fs
      → ((w : W) → fs.entry w run_dir ≡ directory → succeeds (fs.rmtree run_dir w).0 ≡ true)
      → texts.dump_execution execution ≡ ok payload
      → fs.entry s.0 run_dir ≡ directory
      → fill_run_directory fs texts codec runtime run_dir now execution s ≡ (raised e, s')
      → (fs.entry s'.0 run_dir ≡ nothing) × KeepsTables s.1 s'.1
  unfolding fill_run_directory
  fill_run_directory-raised runtime run_dir now execution payload s s' {e = e} laws removes d made
        h =
      let body : Action (Store W J F) ArtifactRecord =
        persist_payload fs texts codec runtime run_dir payload now execution in
      let cleanup = remove_if_there fs run_dir fs.rmtree in
      let continue : Bytes → Action (Store W J F) ArtifactRecord =
        λ b. on_raise (persist_payload fs texts codec runtime run_dir b now execution) cleanup in
      let encoded =
        sym (>>=-after (lift (texts.dump_execution execution)) continue s (ap (λ r. (r, s)) d)) in
      let (s₁, h₁, h₂) =
        on_raise-eq-raised body cleanup s
          (λ x v k.
            remove_if_there-returns fs run_dir v (removes v.0)
              (persist_payload-directory runtime run_dir payload now execution s v laws k ∙ made))
          (encoded ∙ h) in
      let (gone, same) = remove_if_there-gone fs run_dir s₁ s' laws h₂ in
      let kept = persist_payload-IsCareful runtime run_dir payload now execution s s₁ _ h₁ in
      (gone, subst (KeepsTables s.1) (sym same) kept)

  persist_at-raised :
      (runtime run_dir : FilePath) (now : Timestamp) (execution : RunExecution F) (payload : Bytes)
      (s s' : Store W J F) {e : Exception}
      → IsFileSystem fs
      → ((w : W) → fs.entry w run_dir ≡ directory → succeeds (fs.rmtree run_dir w).0 ≡ true)
      → texts.dump_execution execution ≡ ok payload
      → persist_at fs texts codec runtime run_dir now execution s ≡ (raised e, s')
      → (fs.entry s'.0 run_dir ≡ fs.entry s.0 run_dir) × KeepsTables s.1 s'.1
  unfolding persist_at
  persist_at-raised runtime run_dir now execution payload s s' laws removes d h =
      elim (>>=-eq-raised (create_run_directory fs run_dir)
        (λ _. fill_run_directory fs texts codec runtime run_dir now execution) s h) [
          | inl h₁ ↦
              let (there, tables) = create_run_directory-raised fs run_dir s s' laws h₁ in
              (there, inl tables)
          | inr (_, s₁, h₁, h₂) ↦
              let (new, same) = create_run_directory-created fs run_dir s s₁ h₁ in
              let (gone, kept) =
                fill_run_directory-raised runtime run_dir now execution payload s₁ s' laws removes d
                  (create_run_directory-made fs run_dir s s₁ laws h₁) h₂ in
              (gone ∙ sym new, subst (λ db. KeepsTables db s'.1) same kept)
        ]

  -- Where the execution can be encoded, the path of the run's directory is found, and rmtree removes
  -- that directory while it is there: a call that raises leaves what is at that path, and the tables
  -- but for the schema's version, as they were.
  pub persist_execution-atomic :
      (runtime_directory : FilePath) (now : Timestamp) (execution : RunExecution F)
      (payload : Bytes) (runtime run_dir : FilePath) (s s' : Store W J F) {e : Exception}
      → IsFileSystem fs
      → ((w : W) → fs.entry w run_dir ≡ directory → succeeds (fs.rmtree run_dir w).0 ≡ true)
      → texts.dump_execution execution ≡ ok payload
      → locate fs texts runtime_directory execution.run.run_id s.0 ≡ ok (runtime, run_dir)
      → persist_execution fs texts codec runtime_directory now execution s ≡ (raised e, s')
      → (fs.entry s'.0 run_dir ≡ fs.entry s.0 run_dir) × KeepsTables s.1 s'.1
  unfolding persist_execution
  persist_execution-atomic runtime_directory now execution payload runtime run_dir s s' laws removes
        d l h =
      let next : FilePath × FilePath → Action (Store W J F) ArtifactRecord =
        λ found. persist_at fs texts codec (found.0) (found.1) now execution in
      let located =
        >>=-after (ask (locate fs texts runtime_directory execution.run.run_id)) next s
          (ap (λ r. (r, s)) l) in
      persist_at-raised runtime run_dir now execution payload s s' laws removes d (sym located ∙ h)
