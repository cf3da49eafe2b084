-- ===== src/Persistence/Repository/Rows.antt =====
-- What the loops of `save_execution` (src/platval/persistence/repository.py) add to the tables.
use mathlib.Core.Path.{subst}
use pc_platform_validation_t.Base.{
  nat_eq, string_eq, option_eq, All, ok, ℕ, ◌+◌, String, ◌≡◌, refl, sym, ap, ◌∙◌, ◌⊎◌, inl, inr,
  List, [], ◌∷◌, arith,
}
use pc_platform_validation_t.Base.Action.{◌>>◌, >>=-eq-ok}
use pc_platform_validation_t.Models.Results.{MetricValue, RequirementEvaluation, TestResult}
use pc_platform_validation_t.Models.Telemetry.{TelemetrySample}
use pc_platform_validation_t.Persistence.Database.{
  TestRow, MetricRow, EvaluationRow, SampleRow, Database, insert_test, insert_metric,
  insert_evaluation, insert_sample,
}
use pc_platform_validation_t.Persistence.Repository.{
  Codec, Query, transaction, initialize, execute, for_each, metric_row, evaluation_row, test_row,
  sample_row, save_test, save_samples,
}

-- Some element of a list has a property.
abbrev pub Exists : {A : Type 0} → (A → Type 0) → List A → Type 0
Exists P [] = ⊥
Exists P (x ∷ xs) = P x ⊎ Exists P xs

module _ {J F : Type 0} where
  -- Rows are added to other tables only.
  abbrev pub Same : Database J F → Database J F → Type 0
  Same db db' =
      (db'.runs ≡ db.runs) × (db'.artifacts ≡ db.artifacts) × (db'.test_results ≡ db.test_results)

  pub Same-trans : (a b c : Database J F) → Same a b → Same b c → Same a c
  Same-trans a b c (r, s, t) (r', s', t') = (r' ∙ r, s' ∙ s, t' ∙ t)

  Same-refl : (a b : Database J F) → a ≡ b → Same a b
  Same-refl a b e =
      (sym (ap (λ d. d.runs) e), sym (ap (λ d. d.artifacts) e), sym (ap (λ d. d.test_results) e))

  abbrev pub IsLocal : Query J F (Unit {0}) → Type 0
  IsLocal m = (db db' : Database J F) → m db ≡ (ok tt, db') → Same db db'

  pub for_each-IsLocal :
      {A : Type 0} (f : ℕ → A → Query J F (Unit {0}))
      → ((i : ℕ) (a : A) → IsLocal (f i a))
      → (i : ℕ) (xs : List A) → IsLocal (for_each f i xs)
  for_each-IsLocal f local i [] db db' h = Same-refl db db' (ap (λ p. p.1) h)
  for_each-IsLocal f local i (x ∷ xs) db db' h =
      let (_, db₁, h₁, h₂) = >>=-eq-ok (f i x) (λ _. for_each f (i + 1) xs) db h in
      Same-trans db db₁ db' (local i x db db₁ h₁) (for_each-IsLocal f local (i + 1) xs db₁ db' h₂)

module _ (J : Type 0) {F : Type 0} where
  insert_metric-IsLocal : (row : MetricRow F) → IsLocal {J = J} (execute (insert_metric row))
  unfolding insert_metric
  insert_metric-IsLocal row db db' h = ground arith

  insert_evaluation-IsLocal :
      (row : EvaluationRow F) → IsLocal {J = J} (execute (insert_evaluation row))
  unfolding insert_evaluation
  insert_evaluation-IsLocal row db db' h = ground arith

  insert_sample-IsLocal : (row : SampleRow J F) → IsLocal (execute (insert_sample row))
  unfolding insert_sample
  insert_sample-IsLocal row db db' h = ground arith

  pub initialize-IsLocal : IsLocal {J = J} {F = F} initialize
  unfolding initialize
  initialize-IsLocal db db' h = ground arith

module _ {J F : Type 0} where
  pub transaction-eq-ok :
      (m : Query J F (Unit {0})) (db db' : Database J F)
      → transaction m db ≡ (ok tt, db')
      → m db ≡ (ok tt, db')
  unfolding transaction
  transaction-eq-ok m db db' h = ground arith

module _ {J F : Type 0} (codec : Codec J F) where
  -- The row of a test's result.
  abbrev pub IsTestRow : String → TestResult F → TestRow J F → Type 0
  IsTestRow run_id r row =
      (row.run_id ≡ run_id)
      × (row.test_id ≡ r.test_id)
      × (row.status ≡ r.status)
      × (row.result_json ≡ codec.dump_test r)

  insert_test-added :
      (run_id : String) (r : TestResult F) (db db' : Database J F)
      → execute (insert_test (test_row codec run_id r)) db ≡ (ok tt, db')
      → (db'.runs ≡ db.runs)
        × (db'.artifacts ≡ db.artifacts)
        × (db'.test_results ≡ test_row codec run_id r ∷ db.test_results)
  unfolding insert_test
  insert_test-added run_id r db db' h = ground arith

  save_test-added :
      (run_id : String) (r : TestResult F) (db db' : Database J F)
      → save_test codec run_id r db ≡ (ok tt, db')
      → (db'.runs ≡ db.runs)
        × (db'.artifacts ≡ db.artifacts)
        × (db'.test_results ≡ test_row codec run_id r ∷ db.test_results)
  unfolding save_test
  save_test-added run_id r db db' h =
      let metric : ℕ → String × MetricValue F → Query J F (Unit {0}) =
        λ i m. execute (insert_metric (metric_row run_id r.test_id m)) in
      let evaluation : ℕ → RequirementEvaluation F → Query J F (Unit {0}) =
        λ i e. execute (insert_evaluation (evaluation_row run_id r.test_id i e)) in
      let metrics = for_each metric 0 r.measured_values in
      let evaluations = for_each evaluation 0 r.requirements in
      let (_, db₁, h₁, rest) =
        >>=-eq-ok (execute (insert_test (test_row codec run_id r))) (λ _. metrics >> evaluations) db
          h in
      let (_, db₂, h₂, h₃) = >>=-eq-ok metrics (λ _. evaluations) db₁ rest in
      let (runs, artifacts, tests) = insert_test-added run_id r db db₁ h₁ in
      let (runs', artifacts', tests') =
        Same-trans db₁ db₂ db'
          (for_each-IsLocal metric (λ i m. insert_metric-IsLocal J (metric_row run_id r.test_id m))
            0 r.measured_values db₁ db₂ h₂)
          (for_each-IsLocal evaluation
            (λ i e. insert_evaluation-IsLocal J (evaluation_row run_id r.test_id i e)) 0
            r.requirements db₂ db' h₃) in
      (runs' ∙ runs, artifacts' ∙ artifacts, tests' ∙ tests)

  pub save_samples-IsLocal :
      (run_id : String) (entry : String × List (TelemetrySample F))
      → IsLocal (save_samples codec run_id entry)
  unfolding save_samples
  save_samples-IsLocal run_id (test_id, samples) =
      for_each-IsLocal (λ i s. execute (insert_sample (sample_row codec run_id test_id i s)))
        (λ i s. insert_sample-IsLocal J (sample_row codec run_id test_id i s)) 0 samples

  -- After the loop over the tests, each has its row, and every row that was there is.
  pub saved_tests :
      (run_id : String) (i : ℕ) (rs : List (TestResult F)) (db db' : Database J F)
      → for_each (λ i r. save_test codec run_id r) i rs db ≡ (ok tt, db')
      → (db'.runs ≡ db.runs)
        × (db'.artifacts ≡ db.artifacts)
        × ((P : TestRow J F → Type 0) → Exists P db.test_results → Exists P db'.test_results)
        × All (λ r. Exists (IsTestRow run_id r) db'.test_results) rs
  saved_tests run_id i [] db db' h =
      let (runs, artifacts, tests) = Same-refl db db' (ap (λ p. p.1) h) in
      (runs, artifacts, (λ P. subst (Exists P) (sym tests)), tt)
  saved_tests run_id i (r ∷ rs) db db' h =
      let next = for_each (λ i r. save_test codec run_id r) (i + 1) rs in
      let (_, db₁, h₁, h₂) = >>=-eq-ok (save_test codec run_id r) (λ _. next) db h in
      let (runs, artifacts, tests) = save_test-added run_id r db db₁ h₁ in
      let (runs', artifacts', keep, saved) = saved_tests run_id (i + 1) rs db₁ db' h₂ in
      (
        runs' ∙ runs,
        artifacts' ∙ artifacts,
        (λ P there. keep P (subst (Exists P) (sym tests) (inr there))),
        (
          keep (IsTestRow run_id r)
              (subst (Exists (IsTestRow run_id r)) (sym tests) (inl (refl, refl, refl, refl))),
          saved,
        ),
      )
