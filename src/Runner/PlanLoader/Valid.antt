-- ===== src/Runner/PlanLoader/Valid.antt =====
-- What a loaded plan is, and what loading raises (src/platval/runner/plan_loader.py).
use pc_platform_validation_t.Base.{
  nat_eq, string_eq, option_eq, ok, ◌≡◌, plan_load_error, Exception, is_os_error, Result, raised, ℕ,
  ◌≤◌, String, ◌⊎◌, true,
}
use pc_platform_validation_t.Base.Action.{Action}
use pc_platform_validation_t.Base.Floats.{Floats}
use pc_platform_validation_t.Models.Plan.{TestPlan}
use pc_platform_validation_t.Models.Plan.Validation.{IsValidPlan}
use pc_platform_validation_t.Runner.PlanLoader.{PlanSource, escaped, max_plan_bytes, read_bounded}

-- What is raised is an OSError.
abbrev pub OnlyOs : {A : Type 0} → Result A → Type 0
OnlyOs (ok a) = Unit
OnlyOs (raised e) = is_os_error e.class ≡ true

module _ {W M F : Type 0} ⦃o : Floats F⦄ (source : PlanSource W M F) where
  -- A plan is valid, and from a file within the limit; an exception is a PlanLoadError, or it is
  -- what YAML raised on some text and is no YAMLError.
  abbrev pub Loaded : Result (TestPlan F) → String → W → Type 0
  Loaded (raised e) path w =
      (e.class ≡ plan_load_error)
      ⊎ ((text : String) × (w₁ : W) × (read_bounded source path w ≡ (ok text, w₁))
          × (source.safe_load text ≡ escaped e))
  Loaded (ok p) path w =
      IsValidPlan source.is_test_id p
      × (size : ℕ) × (w₁ : W) × (source.file_size path w ≡ (ok size, w₁))
      × (size ≤ max_plan_bytes)

  -- An exception that is an OSError or a PlanLoadError.
  abbrev Expected : Exception → Type 0
  Expected e = (is_os_error e.class ≡ true) ⊎ (e.class ≡ plan_load_error)
