-- ===== src/Persistence/Artifacts/Tables.antt =====
-- What the calls of the artifact store (src/platval/persistence/artifacts.py) that raise leave of the
-- tables.
use pc_platform_validation_t.Base.{
  Exception, raised, succeeds, ◌≡◌, refl, ap, ◌∙◌, ◌⊎◌, inl, inr, false, arith, Result, ok,
}
use pc_platform_validation_t.Base.Action.{Action, ◌>>=◌, pure, >>=-eq-raised}
use pc_platform_validation_t.Persistence.Database.{Database}
use pc_platform_validation_t.Persistence.Repository.{Query}
use pc_platform_validation_t.Persistence.Repository.Lifecycle.{migrated}
use pc_platform_validation_t.Persistence.Artifacts.{Store, on_files, on_database}
use mathlib.Core.Path.{subst}

module _ {J F : Type 0} where
  -- The tables are as they were, but for the schema's version, which may have been written.
  abbrev pub KeepsTables : Database J F → Database J F → Type 0
  KeepsTables db db' = (db' ≡ db) ⊎ (db' ≡ migrated db)

  pub KeepsTables-trans :
      (a b c : Database J F) → KeepsTables a b → KeepsTables b c → KeepsTables a c
  KeepsTables-trans a b c (inl p) (inl q) = inl (q ∙ p)
  KeepsTables-trans a b c (inl p) (inr q) = inr (q ∙ ap migrated p)
  KeepsTables-trans a b c (inr p) (inl q) = inr (q ∙ p)
  KeepsTables-trans a b c (inr p) (inr q) = inr (q ∙ ap migrated p)

module _ {W J F : Type 0} where
  -- Whatever the call returns or raises, the tables are as they were.
  abbrev pub IsReading : {A : Type 0} → Action (Store W J F) A → Type 0
  IsReading m = (s : Store W J F) → KeepsTables s.1 (m s).1.1

  -- Where the call raises, the tables are as they were.
  abbrev pub IsCareful : {A : Type 0} → Action (Store W J F) A → Type 0
  IsCareful m = (s s' : Store W J F) (e : Exception) → m s ≡ (raised e, s') → KeepsTables s.1 s'.1

  pub IsReading-IsCareful : {A : Type 0} (m : Action (Store W J F) A) → IsReading m → IsCareful m
  IsReading-IsCareful {A = A} m r s s' e h =
      subst (λ (p : Result A × Store W J F). KeepsTables s.1 p.1.1) h (r s)

  pub >>=-IsCareful :
      {A B : Type 0} (m : Action (Store W J F) A) (f : A → Action (Store W J F) B)
      → IsReading m
      → ((a : A) → IsCareful (f a))
      → IsCareful (m >>= f)
  >>=-IsCareful {A = A} m f r c s s' e h = elim (>>=-eq-raised m f s h) [
    | inl h₁ ↦ IsReading-IsCareful m r s s' e h₁
    | inr (a, s₁, h₁, h₂) ↦
        KeepsTables-trans s.1 s₁.1 s'.1
          (subst (λ (p : Result A × Store W J F). KeepsTables s.1 p.1.1) h₁ (r s)) (c a s₁ s' e h₂)
  ]

  reading-after :
      {A B : Type 0} (db : Database J F) (r : Result A × Store W J F)
      (f : A → Action (Store W J F) B)
      → KeepsTables db r.1.1
      → ((a : A) → IsReading (f a))
      → KeepsTables db (((λ _. r) >>= f) r.1).1.1
  reading-after db (ok a, s) f k c = KeepsTables-trans db s.1 (f a s).1.1 k (c a s)
  reading-after db (raised e, s) f k c = k

  pub >>=-IsReading :
      {A B : Type 0} (m : Action (Store W J F) A) (f : A → Action (Store W J F) B)
      → IsReading m
      → ((a : A) → IsReading (f a))
      → IsReading (m >>= f)
  >>=-IsReading m f r c s = reading-after s.1 (m s) f (r s) c

  pub on_files-IsReading : {A : Type 0} (m : Action W A) → IsReading (on_files m)
  on_files-IsReading m s = inl refl

module _ {J F : Type 0} where
  -- A write of the repository that keeps the tables where it raises, followed by a return.
  pub on_database-IsCareful :
      {A B : Type 0} (W : Type 0) (q : Query J F A) (b : A → B)
      → ((db : Database J F) → succeeds (q db).0 ≡ false → KeepsTables db (q db).1)
      → IsCareful {W = W} (on_database q >>= λ a. pure (b a))
  on_database-IsCareful {A = A} W q b c s s' e h =
      elim (>>=-eq-raised (on_database q) (λ a. pure (b a)) s h) [
        | inl h₁ ↦
            subst (λ (p : Result A × Store W J F). KeepsTables s.1 p.1.1) h₁
              (c s.1 (ap (λ p. succeeds p.0) h₁))
        | inr (a, s₁, h₁, h₂) ↦ ground arith
      ]
