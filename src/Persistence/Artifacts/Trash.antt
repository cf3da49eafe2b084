-- ===== src/Persistence/Artifacts/Trash.antt =====
-- What `delete_run_recoverably` leaves (src/platval/persistence/artifacts.py).
use mathlib.Core.Path.{subst}
use pc_platform_validation_t.Base.{
  ok, String, ◌≡◌, ◌⊎◌, true, Option, none, some, ◌∷◌, ◌++◌, sym, ap, ◌∙◌, inl, inr, refl, false,
  arith,
}
use pc_platform_validation_t.Base.Action.{◌>>=◌, Action, pure, >>=-eq-ok, pure-eq-ok, if_cases}
use pc_platform_validation_t.Persistence.Files.{
  FilePath, nothing, exists, Files, IsFileSystem, Entry,
}
use pc_platform_validation_t.Persistence.Artifacts.{
  Store, move_to_trash, on_files, ask, move_and_return, move_below, archive,
}
use pc_platform_validation_t.Persistence.Locations.{trash_destination}

module _ {W : Type 0} (fs : Files W) where
  -- The entries under the first path in the first world are those under the second in the second.
  abbrev pub HasMoved : W → FilePath → W → FilePath → Type 0
  HasMoved w p w' q =
      (names : FilePath)
      → exists (fs.entry w (names ++ p)) ≡ true
      → fs.entry w' (names ++ q) ≡ fs.entry w (names ++ p)

  -- Either the run had no directory and the files are as they were, or its entries are at the
  -- destination, or in it.
  abbrev pub IsArchived : W → String → FilePath → W → Option FilePath → Type 0
  IsArchived w n p w' none = (fs.entry w (n ∷ p) ≡ nothing) × (w' ≡ w)
  IsArchived w n p w' (some d) = HasMoved w (n ∷ p) w' d ⊎ HasMoved w (n ∷ p) w' (n ∷ d)

  HasMoved-kept :
      (w v w' : W) (p q : FilePath)
      → ((r : FilePath) → exists (fs.entry w r) ≡ true → fs.entry v r ≡ fs.entry w r)
      → HasMoved v p w' q
      → HasMoved w p w' q
  HasMoved-kept w v w' p q kept moved names x =
      let same = kept (names ++ p) x in moved names (ap exists same ∙ x) ∙ same

no_entry : (e : Entry) → exists e ≡ false → e ≡ nothing
no_entry e h = ground arith

module _ {W J F : Type 0} (fs : Files W) where
  move_and_return-moved :
      (n : String) (p q : FilePath) (s s' : Store W J F) {d : FilePath}
      → IsFileSystem fs
      → move_and_return fs (n ∷ p) q s ≡ (ok d, s')
      → IsArchived fs s.0 n p s'.0 (some d) × (s'.1 ≡ s.1)
  move_and_return-moved n p q s s' {d = d} laws h =
      let (_, s₁, h₁, h₂) = >>=-eq-ok (on_files (fs.move (n ∷ p) q)) (λ _. pure q) s h in
      let same_place : q ≡ d = pure-eq-ok q s₁ h₂ in
      let same : s₁ ≡ s' = ap (λ p. p.1) h₂ in
      let moved = laws.move-moved n p q s.0 s₁.0 (ap (λ p. (p.0, p.1.0)) h₁) in
      let there =
        subst (λ x. IsArchived fs s.0 n p s₁.0 (some x)) same_place
          (elim moved [ inl f ↦ inl (λ names _. f names) | inr f ↦ inr (λ names _. f names) ]) in
      (
        subst (λ (t : Store W J F). IsArchived fs s.0 n p t.0 (some d)) same there,
        sym (ap (λ t. t.1) same) ∙ sym (ap (λ p. p.1.1) h₁),
      )

  move_below-IsArchived :
      (trash_root : FilePath) (n : String) (p : FilePath) (run_id stamp : String)
      (s s' : Store W J F) {d : FilePath}
      → IsFileSystem fs
      → move_below fs (n ∷ p) trash_root run_id stamp s ≡ (ok d, s')
      → IsArchived fs s.0 n p s'.0 (some d) × (s'.1 ≡ s.1)
  move_below-IsArchived trash_root n p run_id stamp s s' {d = d} laws h =
      let place = ask (trash_destination fs trash_root run_id stamp) in
      let move = move_and_return fs (n ∷ p) in
      let (_, s₁, h₁, h₂) =
        >>=-eq-ok (on_files (fs.ensure_directory trash_root)) (λ _. place >>= move) s h in
      let (q, s₂, k₁, k₂) = >>=-eq-ok place move s₁ h₂ in
      let kept : (r : FilePath)
          → exists (fs.entry s.0 r) ≡ true
          → fs.entry s₂.0 r ≡ fs.entry s.0 r =
        λ r x.
          sym (ap (λ p. fs.entry p.1.0 r) k₁)
          ∙ sym (ap (λ p. fs.entry p.1.0 r) h₁)
          ∙ laws.ensure_directory-kept trash_root r s.0 x in
      let (there, same) = move_and_return-moved n p q s₂ s' laws k₂ in
      (
        elim there [
          | inl f ↦ inl (HasMoved-kept fs s.0 s₂.0 s'.0 (n ∷ p) d kept f)
          | inr f ↦ inr (HasMoved-kept fs s.0 s₂.0 s'.0 (n ∷ p) (n ∷ d) kept f)
        ],
        same ∙ sym (ap (λ p. p.1.1) k₁) ∙ sym (ap (λ p. p.1.1) h₁),
      )

  -- What an archived directory's call leaves, with the tables as they were.
  abbrev Archived : Store W J F → String → FilePath → Option FilePath → Store W J F → Type 0
  Archived s n p o s' = IsArchived fs s.0 n p s'.0 o × (s'.1 ≡ s.1)

  pub archive-IsArchived :
      (runtime : FilePath) (n : String) (p : FilePath) (run_id stamp : String) (s s' : Store W J F)
      {o : Option FilePath}
      → IsFileSystem fs
      → archive fs runtime (n ∷ p) run_id stamp s ≡ (ok o, s')
      → IsArchived fs s.0 n p s'.0 o × (s'.1 ≡ s.1)
  unfolding archive move_to_trash
  archive-IsArchived runtime n p run_id stamp s s' {o = o} laws h =
      let move : Action (Store W J F) FilePath = move_to_trash fs runtime (n ∷ p) run_id stamp in
      let done : FilePath → Action (Store W J F) (Option FilePath) = λ d. pure (some d) in
      elim (if_cases (exists (fs.entry s.0 (n ∷ p))) (move >>= done) (pure none) s h) [
        | inl (_, h₁) ↦
            let (d, s₁, k₁, k₂) = >>=-eq-ok move done s h₁ in
            let (trash_root, s₂, m₁, m₂) =
              >>=-eq-ok (ask λ w. fs.resolve w ("trash" ∷ runtime))
                (λ t. move_below fs (n ∷ p) t run_id stamp) s k₁ in
            let (there, same) = move_below-IsArchived trash_root n p run_id stamp s₂ s₁ laws m₂ in
            let came : s ≡ s₂ = ap (λ q. q.1) m₁ in
            let went : s₁ ≡ s' = ap (λ q. q.1) k₂ in
            let which : some d ≡ o = pure-eq-ok (some d) s₁ k₂ in
            subst (λ t. Archived t n p o s') (sym came)
              (subst (λ x. Archived s₂ n p x s') which
                (subst (λ t. Archived s₂ n p (some d) t) went (there, same)))
        | inr (e, h₁) ↦
            subst (λ x. Archived s n p x s') (pure-eq-ok none s h₁)
              (subst (λ t. Archived s n p none t) (ap (λ q. q.1) h₁)
                ((no_entry (fs.entry s.0 (n ∷ p)) e, refl), refl))
      ]
