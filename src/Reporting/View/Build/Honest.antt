-- ===== src/Reporting/View/Build/Honest.antt =====
-- A report says which of its values are simulated (src/platval/reporting/view.py).
use pc_platform_validation_t.Base.{
  nat_eq, string_eq, option_eq, All, ◌≡◌, ◌≢◌, ◌↔◌, Bool, true, false, List, [], ◌∷◌,
}
use pc_platform_validation_t.Base.Dict.{Dict}
use pc_platform_validation_t.Models.Results.{TestResult, RequirementEvaluation}
use pc_platform_validation_t.Persistence.Records.{StoredRun}
use pc_platform_validation_t.Persistence.Repository.Rows.{Exists}
use pc_platform_validation_t.Reporting.View.{
  unavailable, simulated, ReportTest, ReportRequirement, ReportView,
}
use pc_platform_validation_t.Base.Floats.{Floats}
use pc_platform_validation_t.Models.Scalar.{Scalar, null}

-- What is shown of each element of a list, in order.
abbrev pub Shows : {A B : Type 0} → (A → B → Type 0) → List A → List B → Type 0
Shows P [] [] = Unit
Shows P (x ∷ xs) (y ∷ ys) = P x y × Shows P xs ys
Shows P _ _ = ⊥

-- The actual value of an evaluation is shown as unavailable where there is none, and as simulated
-- where there is one and the test was injected.
abbrev pub IsHonestRequirement :
    {F : Type 0} → Bool → RequirementEvaluation F → ReportRequirement F → Type 0
IsHonestRequirement injected e r =
    (r.metric ≡ e.metric)
    × (r.passed ≡ e.passed)
    × ((r.actual_classification ≡ unavailable) ↔ (e.actual ≡ null))
    × ((r.actual_classification ≡ simulated) ↔ ((injected ≡ true) × (e.actual ≢ null)))

-- Every measured value of a test is shown, and each metric as simulated exactly when the test was
-- injected.
abbrev pub IsHonestTest : {F : Type 0} → TestResult F → ReportTest F → Type 0
IsHonestTest result t =
    (t.test_id ≡ result.test_id)
    × (t.status ≡ result.status)
    × (t.injected ≡ result.injected)
    × All (λ m. Exists (λ v. (v.name ≡ m.0) × (v.unit ≡ m.1.unit)) t.metrics) result.measured_values
    × All (λ m. (m.classification ≡ simulated) ↔ (result.injected ≡ true)) t.metrics
    × Shows (IsHonestRequirement result.injected) result.requirements t.requirements

abbrev pub IsHonest : {F : Type 0} → StoredRun F → ReportView F → Type 0
IsHonest stored v =
    let results = stored.execution.run.test_results in
    Shows IsHonestTest results v.tests
    × ((v.contains_simulated_data ≡ false) ↔ All (λ r. r.injected ≡ false) results)
