-- ===== src/Persistence/Files.antt =====
-- What the artifact store (src/platval/persistence/artifacts.py) calls of the file system, of the
-- naming of runs and of texts and digests. A path (`Path`) is the list of its names, the last one first.
use pc_platform_validation_t.Base.{
  if◌then◌else◌, Eq, ◌==◌, ==_iff, nat_eq, string_eq, option_eq, value_error, Result, ok, raise,
  ◌>>=◌, String, ◌<>◌, ◌≡◌, ◌≢◌, ◌↔◌, Bool, true, false, ◌&&◌, Option, List, [], ◌∷◌, arith,
  succeeds, ◌⊎◌, ◌++◌,
}
use pc_platform_validation_t.Base.Action.{Action}
use pc_platform_validation_t.Workloads.Host.{Bytes}
use pc_platform_validation_t.Runner.Run.{RunExecution}

abbrev pub FilePath : Type 0
FilePath = List String

pub data Entry : Type 0 where
  nothing directory : Entry
  file : Bytes → Entry

abbrev pub exists : Entry → Bool
exists nothing = false
exists _ = true

abbrev pub is_dir : Entry → Bool
is_dir directory = true
is_dir _ = false

abbrev pub is_file : Entry → Bool
is_file (file b) = true
is_file _ = false

-- `pathlib` and `os` over a world. `write_new` opens with "xb", writes, flushes and syncs.
pub record Files (W : Type 0) : Type 0 where
  pub entry : W → FilePath → Entry
  pub resolve : W → FilePath → Result FilePath
  pub mkdir_parents : FilePath → Action W (Unit {0})
  pub ensure_directory : FilePath → Action W (Unit {0})
  pub write_new : FilePath → Bytes → Action W (Unit {0})
  pub replace : FilePath → FilePath → Action W (Unit {0})
  pub unlink : FilePath → Action W (Unit {0})
  pub rmtree : FilePath → Action W (Unit {0})
  pub move : FilePath → FilePath → Action W (Unit {0})

-- `uuid.UUID` printed again, `Path(s).name`, `hashlib.sha256(b).hexdigest()`, `str.encode`, and
-- the JSON of an execution with a newline, encoded.
pub record Texts (F : Type 0) : Type 0 where
  pub uuid_text : String → Option String
  pub path_name : String → String
  pub hexdigest : Bytes → String
  pub encode : String → Result Bytes
  pub dump_execution : RunExecution F → Result Bytes

-- What a call does to the entry that it names, and to the others.
pub record IsFileSystem {W : Type 0} (fs : Files W) : Type 0 where
  pub mkdir-refused :
      (p : FilePath) (w : W)
      → succeeds (fs.mkdir_parents p w).0 ≡ false
      → fs.entry (fs.mkdir_parents p w).1 p ≡ fs.entry w p
  pub mkdir-made :
      (p : FilePath) (w w' : W) → fs.mkdir_parents p w ≡ (ok tt, w') → fs.entry w' p ≡ directory
  -- No call makes a directory of a path that it writes.
  pub write_new-plain :
      (p : FilePath) (b : Bytes) (w : W)
      → is_dir (fs.entry w p) ≡ false
      → is_dir (fs.entry (fs.write_new p b w).1 p) ≡ false
  pub replace-plain :
      (p q : FilePath) (w : W)
      → is_dir (fs.entry w p) ≡ false
      → is_dir (fs.entry (fs.replace p q w).1 p) ≡ false
  pub write_new-written :
      (p : FilePath) (b : Bytes) (w w' : W)
      → fs.write_new p b w ≡ (ok tt, w')
      → fs.entry w' p ≡ file b
  pub write_new-others :
      (p q : FilePath) (b : Bytes) (w : W)
      → q ≢ p
      → fs.entry (fs.write_new p b w).1 q ≡ fs.entry w q
  pub replace-replaced :
      (p q : FilePath) (w w' : W)
      → p ≢ q
      → fs.replace p q w ≡ (ok tt, w')
      → (fs.entry w' q ≡ fs.entry w p) × (fs.entry w' p ≡ nothing)
  pub replace-others :
      (p q r : FilePath) (w : W) → r ≢ p → r ≢ q → fs.entry (fs.replace p q w).1 r ≡ fs.entry w r
  pub replace-refused :
      (p q : FilePath) (w : W)
      → succeeds (fs.replace p q w).0 ≡ false
      → fs.entry (fs.replace p q w).1 q ≡ fs.entry w q
  pub unlink-gone :
      (p : FilePath) (w w' : W) → fs.unlink p w ≡ (ok tt, w') → fs.entry w' p ≡ nothing
  pub unlink-others : (p q : FilePath) (w : W) → q ≢ p → fs.entry (fs.unlink p w).1 q ≡ fs.entry w q
  pub rmtree-gone :
      (p : FilePath) (w w' : W) → fs.rmtree p w ≡ (ok tt, w') → fs.entry w' p ≡ nothing
  -- Existing entries stay, whatever directories are made.
  pub ensure_directory-kept :
      (p q : FilePath) (w : W)
      → exists (fs.entry w q) ≡ true
      → fs.entry (fs.ensure_directory p w).1 q ≡ fs.entry w q
  -- `shutil.move` moves a tree to its target, or into it where that is a directory.
  pub move-moved :
      (n : String) (p q : FilePath) (w w' : W)
      → fs.move (n ∷ p) q w ≡ (ok tt, w')
      → ((names : FilePath) → fs.entry w' (names ++ q) ≡ fs.entry w (names ++ n ∷ p))
        ⊎ ((names : FilePath) → fs.entry w' (names ++ n ∷ q) ≡ fs.entry w (names ++ n ∷ p))

-- `Path.parent`
abbrev pub parent : FilePath → FilePath
parent [] = []
parent (_ ∷ p) = p

abbrev path_beq : FilePath → FilePath → Bool
path_beq [] [] = true
path_beq [] (_ ∷ q) = false
path_beq (_ ∷ p) [] = false
path_beq (a ∷ p) (b ∷ q) = a == b && path_beq p q

pub path_beq_iff : (p q : FilePath) → (path_beq p q ≡ true) ↔ (p ≡ q)
path_beq_iff [] [] = ground arith
path_beq_iff [] (_ ∷ q) = ground arith
path_beq_iff (_ ∷ p) [] = ground arith
path_beq_iff (a ∷ p) (b ∷ q) = ground (arith, ==_iff a b, path_beq_iff p q)

instance abbrev pub path_eq : Eq FilePath
path_eq = record { same = path_beq; same_iff = path_beq_iff }

-- `path.relative_to(root)`
abbrev pub relative_to : FilePath → FilePath → Result FilePath
relative_to [] root =
    if [] == root then ok [] else raise value_error "path is not in the subpath of the root"
relative_to (n ∷ p) root =
    let rest = relative_to p root in
    if (n ∷ p) == root then ok [] else rest >>= λ names. ok (n ∷ names)

-- `path.as_posix()` of a relative path.
abbrev pub as_posix : FilePath → String
as_posix [] = "."
as_posix (n ∷ []) = n
as_posix (n ∷ p) = as_posix p <> "/" <> n
