-- ===== src/Persistence/Artifacts/Undo.antt =====
-- What `write_derived_artifact` (src/platval/persistence/artifacts.py) undoes where it raises.
use mathlib.Core.Path.{subst}
use pc_platform_validation_t.Base.{
  nat_eq, string_eq, option_eq, Exception, Result, ok, raised, ◌≡◌, ap, ◌∙◌, ◌≢◌, inl, inr, arith,
  Bool-cases, ◌==◌, ==_iff, succeeds, sym, false, ◌⊎◌, true, refl,
}
use pc_platform_validation_t.Base.Action.{
  Action, ◌>>=◌, >>=-eq-raised, >>=-eq-ok, ◌>>◌, >>=-returns,
}
use pc_platform_validation_t.Persistence.Files.{
  FilePath, Entry, nothing, directory, file, is_dir, Files, IsFileSystem,
}
use pc_platform_validation_t.Persistence.Artifacts.{
  Store, remove_if_there, on_files, write_atomically,
}
use pc_platform_validation_t.Persistence.Artifacts.Tables.{KeepsTables, KeepsTables-trans}
use mathlib.Core.Bool.{false≢true}
use pc_platform_validation_t.Persistence.Files.{path_eq}
use pc_platform_validation_t.Workloads.Host.{Bytes}

pub same_or_not : (p q : FilePath) → (p ≡ q) ⊎ (p ≢ q)
same_or_not p q = elim (Bool-cases (p == q)) [
  | inl e ↦ inl ((==_iff p q).0 e)
  | inr e ↦ inr (λ same. false≢true (sym e ∙ (==_iff p q).1 same))
]

module _ {W : Type 0} (fs : Files W) where
  -- By what an entry is: one of two paths, or another.
  pub by_entry :
      (temporary path : FilePath) (w w' : W)
      → fs.entry w' temporary ≡ fs.entry w temporary
      → fs.entry w' path ≡ fs.entry w path
      → ((q : FilePath) → q ≢ temporary → q ≢ path → fs.entry w' q ≡ fs.entry w q)
      → (q : FilePath) → fs.entry w' q ≡ fs.entry w q
  by_entry temporary path w w' t p others q = elim (same_or_not q temporary) [
    | inl e ↦ subst (λ x. fs.entry w' x ≡ fs.entry w x) (sym e) t
    | inr n ↦ elim (same_or_not q path) [
      | inl e ↦ subst (λ x. fs.entry w' x ≡ fs.entry w x) (sym e) p
      | inr m ↦ others q n m
    ]
  ]

  -- A `replace` that raises touches its source at most.
  refused :
      (temporary path q : FilePath) (w : W)
      → IsFileSystem fs
      → succeeds (fs.replace temporary path w).0 ≡ false
      → q ≢ temporary
      → fs.entry (fs.replace temporary path w).1 q ≡ fs.entry w q
  refused temporary path q w laws h other = elim (same_or_not q path) [
    | inl e ↦
        subst (λ p. fs.entry (fs.replace temporary path w).1 p ≡ fs.entry w p) (sym e)
          (laws.replace-refused temporary path w h)
    | inr n ↦ laws.replace-others temporary path q w other n
  ]

plain_cases : (e : Entry) → is_dir e ≡ false → (e ≡ nothing) ⊎ ((b : Bytes) × (e ≡ file b))
plain_cases nothing h = inl refl
plain_cases directory h = absurd (false≢true (sym h))
plain_cases (file b) h = inr (b, refl)

-- `Path.unlink` removes a file that is there.
abbrev pub Unlinks : {W : Type 0} → Files W → Type 0
Unlinks {W} fs =
    (p : FilePath) (b : Bytes) (w : W) → fs.entry w p ≡ file b → succeeds (fs.unlink p w).0 ≡ true

module _ {W J F : Type 0} (fs : Files W) where
  -- Every entry is as it was, and so are the tables.
  abbrev pub Unchanged : Store W J F → Store W J F → Type 0
  Unchanged s s' = ((q : FilePath) → fs.entry s'.0 q ≡ fs.entry s.0 q) × KeepsTables s.1 s'.1

  pub Unchanged-trans : (s t u : Store W J F) → Unchanged s t → Unchanged t u → Unchanged s u
  Unchanged-trans s t u (f, k) (g, l) = (λ q. g q ∙ f q, KeepsTables-trans s.1 t.1 u.1 k l)

  -- A call that reads the files, and at most writes the schema's version.
  abbrev pub IsQuiet : {A : Type 0} → Action (Store W J F) A → Type 0
  IsQuiet m = (s : Store W J F) → Unchanged s (m s).1

  pub quiet_then :
      {A B : Type 0} (m : Action (Store W J F) A) (f : A → Action (Store W J F) B)
      (s s' : Store W J F) {e : Exception}
      → IsQuiet m
      → ((a : A) (s₁ : Store W J F) → m s ≡ (ok a, s₁) → f a s₁ ≡ (raised e, s') → Unchanged s₁ s')
      → (m >>= f) s ≡ (raised e, s')
      → Unchanged s s'
  quiet_then {A = A} m f s s' q next h = elim (>>=-eq-raised m f s h) [
    | inl h₁ ↦ subst (λ (p : Result A × Store W J F). Unchanged s p.1) h₁ (q s)
    | inr (a, s₁, h₁, h₂) ↦
        Unchanged-trans s s₁ s' (subst (λ (p : Result A × Store W J F). Unchanged s p.1) h₁ (q s))
          (next a s₁ h₁ h₂)
  ]

  quiet_after :
      {A B : Type 0} (s : Store W J F) (r : Result A × Store W J F) (f : A → Action (Store W J F) B)
      → Unchanged s r.1
      → ((a : A) → IsQuiet (f a))
      → Unchanged s (((λ _. r) >>= f) r.1).1
  quiet_after s (ok a, t) f u q = Unchanged-trans s t (f a t).1 u (q a t)
  quiet_after s (raised e, t) f u q = u

  pub >>=-IsQuiet :
      {A B : Type 0} (m : Action (Store W J F) A) (f : A → Action (Store W J F) B)
      → IsQuiet m
      → ((a : A) → IsQuiet (f a))
      → IsQuiet (m >>= f)
  >>=-IsQuiet m f u q s = quiet_after s (m s) f (u s) q

  -- After `unlink` where the entry is there.
  pub unlink-undone :
      (path : FilePath) (s s' : Store W J F)
      → IsFileSystem fs
      → remove_if_there fs path fs.unlink s ≡ (ok tt, s')
      → (fs.entry s'.0 path ≡ nothing)
        × ((q : FilePath) → q ≢ path → fs.entry s'.0 q ≡ fs.entry s.0 q)
        × (s'.1 ≡ s.1)
  unlink-undone path s s' laws h = (
    ground (arith, laws.unlink-gone path s.0 s'.0),
    (λ q ne. ground (arith, laws.unlink-others path q s.0 ne)),
    ground arith,
  )

  pub write_atomically-raised :
      (temporary path : FilePath) (payload : Bytes) (s s' : Store W J F) {e : Exception}
      → IsFileSystem fs
      → path ≢ temporary
      → write_atomically fs temporary path payload s ≡ (raised e, s')
      → ((q : FilePath) → q ≢ temporary → fs.entry s'.0 q ≡ fs.entry s.0 q) × (s'.1 ≡ s.1)
  write_atomically-raised temporary path payload s s' laws ne h =
      elim (>>=-eq-raised (on_files (fs.write_new temporary payload))
        (λ _. on_files (fs.replace temporary path)) s h) [
          | inl h₁ ↦ (
            λ q other.
                sym (ap (λ p. fs.entry p.1.0 q) h₁)
                ∙ laws.write_new-others temporary q payload s.0 other,
            sym (ap (λ p. p.1.1) h₁),
          )
          | inr (_, s₁, h₁, h₂) ↦ (
            λ q other.
                sym (ap (λ p. fs.entry p.1.0 q) h₂)
                ∙ refused fs temporary path q s₁.0 laws (ap (λ p. succeeds p.0) h₂) other
                ∙ sym (ap (λ p. fs.entry p.1.0 q) h₁)
                ∙ laws.write_new-others temporary q payload s.0 other,
            sym (ap (λ p. p.1.1) h₂) ∙ sym (ap (λ p. p.1.1) h₁),
          )
        ]

  pub write_atomically-others :
      (temporary path q : FilePath) (payload : Bytes) (s s' : Store W J F)
      → IsFileSystem fs
      → q ≢ temporary
      → q ≢ path
      → write_atomically fs temporary path payload s ≡ (ok tt, s')
      → fs.entry s'.0 q ≡ fs.entry s.0 q
  write_atomically-others temporary path q payload s s' laws other ne h =
      let write = on_files (fs.write_new temporary payload) in
      let (_, s₁, h₁, h₂) = >>=-eq-ok write (λ _. on_files (fs.replace temporary path)) s h in
      sym (ap (λ p. fs.entry p.1.0 q) h₂)
      ∙ laws.replace-others temporary path q s₁.0 other ne
      ∙ sym (ap (λ p. fs.entry p.1.0 q) h₁)
      ∙ laws.write_new-others temporary q payload s.0 other

  -- What the two cleanups of `write_payload` leave.
  pub second_cleanup :
      (temporary path : FilePath) (s s' : Store W J F)
      → IsFileSystem fs
      → path ≢ temporary
      → (remove_if_there fs temporary fs.unlink >> remove_if_there fs path fs.unlink) s
        ≡ (ok tt, s')
      → (fs.entry s'.0 path ≡ nothing)
        × (fs.entry s'.0 temporary ≡ nothing)
        × ((q : FilePath) → q ≢ temporary → q ≢ path → fs.entry s'.0 q ≡ fs.entry s.0 q)
        × (s'.1 ≡ s.1)
  second_cleanup temporary path s s' laws ne h =
      let first = remove_if_there fs temporary fs.unlink in
      let (_, s₁, h₁, h₂) = >>=-eq-ok first (λ _. remove_if_there fs path fs.unlink) s h in
      let (gone, others, same) = unlink-undone temporary s s₁ laws h₁ in
      let (gone', others', same') = unlink-undone path s₁ s' laws h₂ in
      (
        gone',
        others' temporary (λ e. ne (sym e)) ∙ gone,
        (λ q n m. others' q m ∙ others q n),
        same' ∙ same,
      )

  -- A path that names no directory: `unlink` removes what is there.
  pub remove_if_there-returns :
      (path : FilePath) (s : Store W J F)
      → Unlinks fs
      → is_dir (fs.entry s.0 path) ≡ false
      → succeeds (remove_if_there fs path fs.unlink s).0 ≡ true
  remove_if_there-returns path s removes plain = elim (plain_cases (fs.entry s.0 path) plain) [
    | inl e ↦ rw e refl
    | inr (b, e) ↦ rw e (removes path b s.0 e)
  ]

  pub write_atomically-plain :
      (temporary path : FilePath) (payload : Bytes) (s s' : Store W J F) {e : Exception}
      → IsFileSystem fs
      → is_dir (fs.entry s.0 temporary) ≡ false
      → write_atomically fs temporary path payload s ≡ (raised e, s')
      → is_dir (fs.entry s'.0 temporary) ≡ false
  write_atomically-plain temporary path payload s s' laws plain h =
      let wrote = laws.write_new-plain temporary payload s.0 plain in
      elim (>>=-eq-raised (on_files (fs.write_new temporary payload))
        (λ _. on_files (fs.replace temporary path)) s h) [
          | inl h₁ ↦ sym (ap (λ p. is_dir (fs.entry p.1.0 temporary)) h₁) ∙ wrote
          | inr (_, s₁, h₁, h₂) ↦
              sym (ap (λ p. is_dir (fs.entry p.1.0 temporary)) h₂)
              ∙ laws.replace-plain temporary path s₁.0
                  (sym (ap (λ p. is_dir (fs.entry p.1.0 temporary)) h₁) ∙ wrote)
        ]

  pub second_cleanup-returns :
      (temporary path : FilePath) (s : Store W J F)
      → IsFileSystem fs
      → Unlinks fs
      → path ≢ temporary
      → is_dir (fs.entry s.0 temporary) ≡ false
      → is_dir (fs.entry s.0 path) ≡ false
      → succeeds ((remove_if_there fs temporary fs.unlink >> remove_if_there fs path fs.unlink) s).0
        ≡ true
  second_cleanup-returns temporary path s laws removes ne t p =
      >>=-returns (remove_if_there fs temporary fs.unlink) (λ _. remove_if_there fs path fs.unlink)
        s (remove_if_there-returns temporary s removes t)
        (λ _ v h.
          remove_if_there-returns path v removes
            (ap is_dir ((unlink-undone temporary s v laws h).1 path ne) ∙ p))
