-- ===== src/Persistence/Locations.antt =====
-- Names and places of artifacts, and their records (src/platval/persistence/artifacts.py).
use Prim.Native.Char.{code}
use pc_platform_validation_t.Persistence.Files.{
  path_eq, FilePath, Files, Texts, parent, relative_to, as_posix, exists, is_dir,
}
use pc_platform_validation_t.Base.{
  leb, if◌then◌else◌, ◌==◌, nat_eq, string_eq, option_eq, length, value_error, artifact_error,
  Result, ok, raise, raise_if, ℕ, String, Bool, true, false, not, ◌&&◌, ◌||◌, none, some, ◌∷◌, ◌<>◌,
  ◌>>=◌, ◌>>◌,
}
use pc_platform_validation_t.Persistence.Records.{ArtifactRecord}
use pc_platform_validation_t.Models.Plan.{text_length, has_length}
use pc_platform_validation_t.Workloads.Host.{Bytes}
use pc_platform_validation_t.Workloads.Config.{is_sha256}

-- A text within bounds, the first character a letter or a digit, the others also `.`, `_` and `-`.
abbrev is_alphanumeric : ℕ → Bool
is_alphanumeric c =
    (leb b'A' c && leb c b'Z') || (leb b'a' c && leb c b'z') || (leb b'0' c && leb c b'9')

abbrev is_name_character : ℕ → Bool
is_name_character c = is_alphanumeric c || c == b'.' || c == b'_' || c == b'-'

abbrev all_characters : (ℕ → Bool) → String → Bool
all_characters p String.[] = true
all_characters p (String.◌∷◌ c s) = p (code c) && all_characters p s

-- `_SAFE_ARTIFACT_NAME`
unfoldable pub is_safe_artifact_name : String → Bool
is_safe_artifact_name String.[] = false
is_safe_artifact_name (String.◌∷◌ c s) =
    is_alphanumeric (code c) && all_characters is_name_character s && leb (text_length s) 127

unfoldable pub make_artifact : String → String → String → ℕ → Result ArtifactRecord
make_artifact kind relative_path sha256 size_bytes =
    if has_length 1 64 kind && has_length 1 500 relative_path && is_sha256 sha256
    then ok (record {
      kind = kind;
      relative_path = relative_path;
      sha256 = sha256;
      size_bytes = size_bytes;
    })
    else raise value_error "artifact record is invalid"

module _ {W : Type 0} (fs : Files W) where
  unfoldable pub trash_destination : FilePath → String → String → W → Result FilePath
  trash_destination trash_root run_id stamp w = do
    destination ← fs.resolve w ((run_id <> "-" <> stamp) ∷ trash_root)
    raise_if (not (parent destination == trash_root)) artifact_error
        "resolved trash path escaped the runtime trash directory"
    ok destination

  -- `SQLiteRepository(runtime / "platval.db")` resolves its path.
  abbrev pub open_repository : FilePath → W → Result (Unit {0})
  open_repository runtime w = do _ ← fs.resolve w ("platval.db" ∷ runtime); ok tt

  unfoldable pub require_new : FilePath → FilePath → FilePath → W → Result (Unit {0})
  require_new run_dir path temporary w = do
    raise_if (not (is_dir (fs.entry w run_dir))) artifact_error "run artifact run_dir is missing"
    raise_if (exists (fs.entry w path) || exists (fs.entry w temporary)) artifact_error
        "artifact already exists; refusing to overwrite it"

module _ {W F : Type 0} (fs : Files W) (texts : Texts F) where
  unfoldable pub validated_run_id : String → Result String
  validated_run_id run_id = elim (texts.uuid_text run_id) [
    | none ↦ raise artifact_error "run ID is not a canonical UUID"
    | some canonical ↦
        if canonical == run_id
        then ok canonical
        else raise artifact_error "run ID is not a canonical UUID"
  ]

  unfoldable pub run_directory : FilePath → String → W → Result FilePath
  unfolding validated_run_id
  run_directory runtime_directory run_id w = do
    safe_id ← validated_run_id run_id
    runtime ← fs.resolve w runtime_directory
    runs_root ← fs.resolve w ("runs" ∷ runtime)
    candidate ← fs.resolve w (safe_id ∷ runs_root)
    raise_if (not (parent candidate == runs_root)) artifact_error
        "resolved run directory escaped the runtime runs directory"
    ok candidate

  -- `runtime_directory.resolve()`, and the run's directory in it.
  unfoldable pub locate : FilePath → String → W → Result (FilePath × FilePath)
  unfolding run_directory
  locate runtime_directory run_id w = do
    runtime ← fs.resolve w runtime_directory
    run_dir ← run_directory runtime run_id w
    ok (runtime, run_dir)

module _ {F : Type 0} (texts : Texts F) where
  unfoldable pub require_safe_name : String → Result (Unit {0})
  unfolding is_safe_artifact_name
  require_safe_name filename =
      raise_if (not (texts.path_name filename == filename) || not (is_safe_artifact_name filename))
        artifact_error "artifact filename must be a safe basename"

  -- The record of the file at a path that holds the payload.
  abbrev pub describe : FilePath → String → FilePath → Bytes → Result ArtifactRecord
  describe runtime kind path payload = do
    relative ← relative_to path runtime
    make_artifact kind (as_posix relative) (texts.hexdigest payload) (length payload)
