-- ===== src/Tests/Disk.antt =====
-- A file system in memory: a function from paths to entries.
use mathlib.Core.Bool.{false≢true}
use pc_platform_validation_t.Persistence.Files.{
  path_eq, FilePath, Entry, nothing, directory, file, exists, is_dir, is_file, Files, IsFileSystem,
}
use pc_platform_validation_t.Workloads.Host.{Bytes}
use pc_platform_validation_t.Base.{
  if◌then◌else◌, ◌==◌, ==_iff, nat_eq, string_eq, option_eq, length, os_error, Result, ok, raise, ℕ,
  zero, suc, ◌-◌, ◌≡◌, refl, ap, ◌≢◌, inl, [], ◌∷◌, ◌++◌, arith, length-append, succeeds, sym, ◌∙◌,
  Bool, true, false,
}

abbrev pub Disk : Type 0
Disk = FilePath → Entry

abbrev pub set : FilePath → Entry → Disk → Disk
set p e disk q = if q == p then e else disk q

abbrev take_names : ℕ → FilePath → FilePath
take_names zero p = []
take_names (suc n) [] = []
take_names (suc n) (x ∷ p) = x ∷ take_names n p

abbrev drop_names : ℕ → FilePath → FilePath
drop_names zero p = p
drop_names (suc n) [] = []
drop_names (suc n) (x ∷ p) = drop_names n p

-- The tree below the first path, seen below the second.
abbrev moved : FilePath → FilePath → Disk → Disk
moved p q disk r =
    let depth = length r - length q in
    if drop_names depth r == q then disk (take_names depth r ++ p) else disk r

abbrev refuse : Disk → Result (Unit {0}) × Disk
refuse disk = (raise os_error "refused", disk)

-- A new entry, or a refusal.
abbrev create : Bool → Entry → FilePath → Disk → Result (Unit {0}) × Disk
create true e p disk = refuse disk
create false e p disk = (ok tt, set p e disk)

abbrev rename : Bool → FilePath → FilePath → Disk → Result (Unit {0}) × Disk
rename true p q disk = (ok tt, set p nothing (set q (disk p) disk))
rename false p q disk = refuse disk

abbrev ensure : Bool → FilePath → Disk → Result (Unit {0}) × Disk
ensure true p disk = (ok tt, disk)
ensure false p disk = (ok tt, set p directory disk)

-- `unlink` removes a file, `rmtree` a directory.
abbrev remove : Bool → FilePath → Disk → Result (Unit {0}) × Disk
remove true p disk = (ok tt, set p nothing disk)
remove false p disk = refuse disk

abbrev pub disk_files : Files Disk
disk_files = record {
  entry = λ disk p. disk p;
  resolve = λ disk p. ok p;
  mkdir_parents = λ p disk. create (exists (disk p)) directory p disk;
  ensure_directory = λ p disk. ensure (exists (disk p)) p disk;
  write_new = λ p b disk. create (exists (disk p)) (file b) p disk;
  replace = λ p q disk. rename (exists (disk p)) p q disk;
  unlink = λ p disk. remove (is_file (disk p)) p disk;
  rmtree = λ p disk. remove (is_dir (disk p)) p disk;
  move = λ p q disk. (ok tt, moved p q disk);
}

set-same : (p : FilePath) (e : Entry) (disk : Disk) → set p e disk p ≡ e
set-same p e disk = ground (arith, ==_iff p p)

set-other : (p q : FilePath) (e : Entry) (disk : Disk) → q ≢ p → set p e disk q ≡ disk q
set-other p q e disk ne = ground (arith, ==_iff q p, ne)

take_names-append : (names q : FilePath) → take_names (length names) (names ++ q) ≡ names
take_names-append [] q = refl
take_names-append (n ∷ names) q = ap (λ p. n ∷ p) (take_names-append names q)

drop_names-append : (names q : FilePath) → drop_names (length names) (names ++ q) ≡ q
drop_names-append [] q = refl
drop_names-append (n ∷ names) q = drop_names-append names q

moved-moved :
    (p q : FilePath) (disk : Disk) (names : FilePath)
    → moved p q disk (names ++ q) ≡ disk (names ++ p)
moved-moved p q disk names =
    let depth : length (names ++ q) - length q ≡ length names =
      omega (arith, length-append names q) in
    let here : (drop_names (length (names ++ q) - length q) (names ++ q) == q) ≡ true =
      (==_iff (drop_names (length (names ++ q) - length q) (names ++ q)) q).1
        (ap (λ n. drop_names n (names ++ q)) depth ∙ drop_names-append names q) in
    ap
      (λ b.
        if b
        then disk (take_names (length (names ++ q) - length q) (names ++ q) ++ p)
        else disk (names ++ q))
      here
    ∙ ap (λ n. disk (take_names n (names ++ q) ++ p)) depth
    ∙ ap (λ r. disk (r ++ p)) (take_names-append names q)

create-refused :
    (b : Bool) (e : Entry) (p : FilePath) (disk : Disk)
    → succeeds (create b e p disk).0 ≡ false
    → (create b e p disk).1 p ≡ disk p
create-refused true e p disk h = refl
create-refused false e p disk h = ground arith

create-created :
    (b : Bool) (e : Entry) (p : FilePath) (disk disk' : Disk)
    → create b e p disk ≡ (ok tt, disk')
    → disk' p ≡ e
create-created true e p disk disk' h = absurd (false≢true (ap (λ r. succeeds r.0) h))
create-created false e p disk disk' h = sym (ap (λ r. r.1 p) h) ∙ set-same p e disk

create-others :
    (b : Bool) (e : Entry) (p q : FilePath) (disk : Disk) → q ≢ p → (create b e p disk).1 q ≡ disk q
create-others true e p q disk ne = refl
create-others false e p q disk ne = set-other p q e disk ne

rename-renamed :
    (b : Bool) (p q : FilePath) (disk disk' : Disk)
    → p ≢ q
    → rename b p q disk ≡ (ok tt, disk')
    → (disk' q ≡ disk p) × (disk' p ≡ nothing)
rename-renamed true p q disk disk' ne h =
    let target = set q (disk p) disk in
    (
      sym (ap (λ r. r.1 q) h)
          ∙ set-other p q nothing target (λ same. ne (sym same))
          ∙ set-same q (disk p) disk,
      sym (ap (λ r. r.1 p) h) ∙ set-same p nothing target,
    )
rename-renamed false p q disk disk' ne h = absurd (false≢true (ap (λ r. succeeds r.0) h))

rename-others :
    (b : Bool) (p q r : FilePath) (disk : Disk) → r ≢ p → r ≢ q → (rename b p q disk).1 r ≡ disk r
rename-others true p q r disk n m =
    set-other p r nothing (set q (disk p) disk) n ∙ set-other q r (disk p) disk m
rename-others false p q r disk n m = refl

rename-refused :
    (b : Bool) (p q : FilePath) (disk : Disk)
    → succeeds (rename b p q disk).0 ≡ false
    → (rename b p q disk).1 q ≡ disk q
rename-refused true p q disk h = ground arith
rename-refused false p q disk h = refl

create-plain :
    (b : Bool) (p : FilePath) (content : Bytes) (disk : Disk)
    → is_dir (disk p) ≡ false
    → is_dir ((create b (file content) p disk).1 p) ≡ false
create-plain true p content disk h = h
create-plain false p content disk h = ap is_dir (set-same p (file content) disk)

rename-plain :
    (b : Bool) (p q : FilePath) (disk : Disk)
    → is_dir (disk p) ≡ false
    → is_dir ((rename b p q disk).1 p) ≡ false
rename-plain true p q disk h = ap is_dir (set-same p nothing (set q (disk p) disk))
rename-plain false p q disk h = h

remove-removed :
    (b : Bool) (p : FilePath) (disk disk' : Disk)
    → remove b p disk ≡ (ok tt, disk')
    → disk' p ≡ nothing
remove-removed true p disk disk' h = sym (ap (λ r. r.1 p) h) ∙ set-same p nothing disk
remove-removed false p disk disk' h = absurd (false≢true (ap (λ r. succeeds r.0) h))

remove-others : (b : Bool) (p q : FilePath) (disk : Disk) → q ≢ p → (remove b p disk).1 q ≡ disk q
remove-others true p q disk ne = set-other p q nothing disk ne
remove-others false p q disk ne = refl

-- What is there is removed.
pub unlink-removes :
    (p : FilePath) (b : Bytes) (disk : Disk)
    → disk p ≡ file b
    → succeeds (disk_files.unlink p disk).0 ≡ true
unlink-removes p b disk h = rw h refl

pub rmtree-removes :
    (p : FilePath) (disk : Disk) → disk p ≡ directory → succeeds (disk_files.rmtree p disk).0 ≡ true
rmtree-removes p disk h = rw h refl

ensure-kept :
    (b : Bool) (p q : FilePath) (disk : Disk)
    → exists (disk p) ≡ b
    → exists (disk q) ≡ true
    → (ensure b p disk).1 q ≡ disk q
ensure-kept true p q disk e h = refl
ensure-kept false p q disk e h =
    set-other p q directory disk
      (λ same. false≢true (sym e ∙ sym (ap (λ r. exists (disk r)) same) ∙ h))

pub disk_files-IsFileSystem : IsFileSystem disk_files
disk_files-IsFileSystem = record {
  mkdir-refused = λ p w h. create-refused (exists (w p)) directory p w h;
  write_new-written = λ p b w w' h. create-created (exists (w p)) (file b) p w w' h;
  write_new-others = λ p q b w n. create-others (exists (w p)) (file b) p q w n;
  replace-replaced = λ p q w w' n h. rename-renamed (exists (w p)) p q w w' n h;
  replace-others = λ p q r w n m. rename-others (exists (w p)) p q r w n m;
  replace-refused = λ p q w h. rename-refused (exists (w p)) p q w h;
  mkdir-made = λ p w w' h. create-created (exists (w p)) directory p w w' h;
  write_new-plain = λ p b w h. create-plain (exists (w p)) p b w h;
  replace-plain = λ p q w h. rename-plain (exists (w p)) p q w h;
  unlink-gone = λ p w w' h. remove-removed (is_file (w p)) p w w' h;
  unlink-others = λ p q w n. remove-others (is_file (w p)) p q w n;
  rmtree-gone = λ p w w' h. remove-removed (is_dir (w p)) p w w' h;
  ensure_directory-kept = λ p q w h. ensure-kept (exists (w p)) p q w refl h;
  move-moved = λ n p q w w' h.
      inl (λ names. sym (ap (λ r. r.1 (names ++ q)) h) ∙ moved-moved (n ∷ p) q w names);
}
