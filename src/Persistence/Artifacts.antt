-- ===== src/Persistence/Artifacts.antt =====
-- Canonical JSON artifacts and recoverable deletion (src/platval/persistence/artifacts.py). The
-- state is the world of the files and the repository's database; the clock's reading and its text
-- are arguments. The `repository` argument is left at its default.
pub mod Names
pub mod Tables
pub mod Persist
pub mod Stored
pub mod Undo
pub mod Derived
pub mod Trash
use pc_platform_validation_t.Persistence.Files.{FilePath, directory, exists, Files, Texts}
use pc_platform_validation_t.Base.{
  if◌then◌else◌, artifact_error, Result, ok, raise_if, String, ◌<>◌, Option, none, some, [], ◌∷◌,
  nat_eq, string_eq, option_eq,
}
use pc_platform_validation_t.Base.Action.{Action, ◌>>◌, pure, lift, on_raise, query, ◌>>=◌}
use pc_platform_validation_t.Persistence.Records.{ArtifactRecord, StoredRun}
use pc_platform_validation_t.Persistence.Database.{Database}
use pc_platform_validation_t.Persistence.Repository.{Codec, Query, add_artifact, save_execution}
use pc_platform_validation_t.Persistence.Repository.Reads.{get_run}
use pc_platform_validation_t.Persistence.Repository.Baselines.{delete_run}
use pc_platform_validation_t.Persistence.Locations.{
  make_artifact, locate, open_repository, require_new, describe, require_safe_name,
  trash_destination,
}
use pc_platform_validation_t.Models.Results.{Timestamp}
use pc_platform_validation_t.Workloads.Host.{Bytes}
use pc_platform_validation_t.Runner.Run.{RunExecution}

abbrev pub Store : Type 0 → Type 0 → Type 0 → Type 0
Store W J F = W × Database J F

module _ {W J F : Type 0} where
  abbrev pub on_files : {A : Type 0} → Action W A → Action (Store W J F) A
  on_files m s = ((m s.0).0, ((m s.0).1, s.1))

  abbrev pub on_database : {A : Type 0} → Query J F A → Action (Store W J F) A
  on_database q s = ((q s.1).0, (s.0, (q s.1).1))

  -- What the file system is asked.
  abbrev pub ask : {A : Type 0} → (W → Result A) → Action (Store W J F) A
  ask f s = (f s.0, s)

module _ {W J F : Type 0} (fs : Files W) where
  -- The file, written beside its place and then moved there.
  abbrev pub write_atomically : FilePath → FilePath → Bytes → Action (Store W J F) (Unit {0})
  write_atomically temporary path payload =
      on_files (fs.write_new temporary payload) >> on_files (fs.replace temporary path)

  abbrev pub remove_if_there :
      FilePath → (FilePath → Action W (Unit {0})) → Action (Store W J F) (Unit {0})
  remove_if_there path remove s =
      if exists (fs.entry s.0 path) then on_files (remove path) s else (ok tt, s)

  unfoldable pub create_run_directory : FilePath → Action (Store W J F) (Unit {0})
  create_run_directory run_dir = do
    there ← query λ s. (exists (fs.entry s.0 run_dir), s)
    lift (
        raise_if there artifact_error
          "run artifact directory already exists; refusing to overwrite it")
    on_files (fs.mkdir_parents run_dir)

  abbrev pub move_and_return : FilePath → FilePath → Action (Store W J F) FilePath
  move_and_return source destination = on_files (fs.move source destination) >> pure destination

  abbrev pub move_below : FilePath → FilePath → String → String → Action (Store W J F) FilePath
  move_below source trash_root run_id stamp = do
    on_files (fs.ensure_directory trash_root)
    destination ← ask (trash_destination fs trash_root run_id stamp)
    move_and_return source destination

  -- The move of a deleted run's directory into the trash.
  unfoldable pub move_to_trash :
      FilePath → FilePath → String → String → Action (Store W J F) FilePath
  unfolding trash_destination
  move_to_trash runtime source run_id stamp = do
    trash_root ← ask λ w. fs.resolve w ("trash" ∷ runtime)
    move_below source trash_root run_id stamp

  unfoldable pub archive :
      FilePath → FilePath → String → String → Action (Store W J F) (Option FilePath)
  unfolding move_to_trash
  archive runtime source run_id stamp = do
    there ← query λ s. (exists (fs.entry s.0 source), s)
    if there
        then (do destination ← move_to_trash runtime source run_id stamp; pure (some destination))
        else pure none

module _ {W J F : Type 0} (fs : Files W) (texts : Texts F) (codec : Codec J F) where
  unfoldable pub save_with_artifact :
      FilePath → Timestamp → RunExecution F → ArtifactRecord → Action (Store W J F) ArtifactRecord
  unfolding save_execution
  save_with_artifact runtime now execution artifact = do
    ask (open_repository fs runtime)
    on_database (save_execution codec now execution (artifact ∷ []))
    pure artifact

  unfoldable pub register_run :
      FilePath → FilePath → Bytes → Timestamp → RunExecution F → Action (Store W J F) ArtifactRecord
  unfolding make_artifact save_with_artifact
  register_run runtime path payload now execution = do
    artifact ← lift (describe texts runtime "run_json" path payload)
    save_with_artifact runtime now execution artifact

  -- The body of the `try` of `persist_execution`.
  unfoldable pub persist_payload :
      FilePath → FilePath → Bytes → Timestamp → RunExecution F → Action (Store W J F) ArtifactRecord
  unfolding register_run
  persist_payload runtime run_dir payload now execution = do
    write_atomically fs ("run.json.tmp" ∷ run_dir) ("run.json" ∷ run_dir) payload
    register_run runtime ("run.json" ∷ run_dir) payload now execution

  -- The evidence of a run whose directory is new.
  unfoldable pub fill_run_directory :
      FilePath → FilePath → Timestamp → RunExecution F → Action (Store W J F) ArtifactRecord
  fill_run_directory runtime run_dir now execution = do
    payload ← lift (texts.dump_execution execution)
    on_raise (persist_payload runtime run_dir payload now execution)
        (remove_if_there fs run_dir fs.rmtree)

  unfoldable pub persist_at :
      FilePath → FilePath → Timestamp → RunExecution F → Action (Store W J F) ArtifactRecord
  unfolding create_run_directory fill_run_directory
  persist_at runtime run_dir now execution = do
    create_run_directory fs run_dir
    fill_run_directory runtime run_dir now execution

  unfoldable pub persist_execution :
      FilePath → Timestamp → RunExecution F → Action (Store W J F) ArtifactRecord
  unfolding locate persist_at
  persist_execution runtime_directory now execution = do
    found ← ask (locate fs texts runtime_directory execution.run.run_id)
    persist_at found.0 found.1 now execution

  unfoldable pub register_artifact :
      FilePath → String → String → FilePath → Bytes → Action (Store W J F) ArtifactRecord
  unfolding make_artifact add_artifact
  register_artifact runtime run_id kind path payload = do
    artifact ← lift (describe texts runtime kind path payload)
    on_database (add_artifact run_id artifact)
    pure artifact

  -- The `try` of `write_derived_artifact`, before `created_artifact` is set and after.
  unfoldable pub write_payload :
      FilePath → FilePath → String → String → FilePath → Bytes → Action (Store W J F) ArtifactRecord
  unfolding register_artifact
  write_payload runtime temporary run_id kind path payload = do
    on_raise (write_atomically fs temporary path payload) (remove_if_there fs temporary fs.unlink)
    on_raise (register_artifact runtime run_id kind path payload)
        (remove_if_there fs temporary fs.unlink >> remove_if_there fs path fs.unlink)

  unfoldable pub write_into :
      FilePath → FilePath → String → String → String → String → Action (Store W J F) ArtifactRecord
  unfolding require_new write_payload
  write_into runtime run_dir run_id filename kind content = do
    let path = filename ∷ run_dir
    let temporary = (filename <> ".tmp") ∷ run_dir
    ask (require_new fs run_dir path temporary)
    payload ← lift (texts.encode content)
    write_payload runtime temporary run_id kind path payload

  unfoldable pub require_run : FilePath → String → Action (Store W J F) (StoredRun F)
  unfolding get_run
  require_run runtime run_id =
      ask (open_repository fs runtime) >> on_database (get_run codec run_id)

  unfoldable pub write_derived_artifact :
      FilePath → String → String → String → String → Action (Store W J F) ArtifactRecord
  unfolding require_safe_name locate require_run write_into
  write_derived_artifact runtime_directory run_id filename kind content = do
    lift (require_safe_name texts filename)
    found ← ask (locate fs texts runtime_directory run_id)
    stored ← require_run (found.0) run_id
    write_into (found.0) (found.1) run_id filename kind content

  unfoldable pub load_stored_run : String → FilePath → Action (Store W J F) (StoredRun F)
  unfolding require_run
  load_stored_run run_id runtime_directory = do
    runtime ← ask λ w. fs.resolve w runtime_directory
    require_run runtime run_id

  unfoldable pub delete_run_recoverably :
      String → FilePath → String → Action (Store W J F) (Option FilePath)
  unfolding locate delete_run archive
  delete_run_recoverably run_id runtime_directory stamp = do
    found ← ask (locate fs texts runtime_directory run_id)
    ask (open_repository fs (found.0))
    on_database (delete_run run_id)
    archive fs (found.0) (found.1) run_id stamp
