-- ===== src/Evaluation/Met.antt =====
-- Requirements that are met, one and all.
use pc_platform_validation_t.Base
use pc_platform_validation_t.Base.{
  if◌then◌else◌, any, all, nat_eq, string_eq, option_eq, All, evaluation_error, Exception, Result,
  ok, raised, ◌>>=◌, ◌>>◌, map_result, String, ◌≡◌, ◌≢◌, ◌↔◌, Bool, true, false, not, ◌&&◌, List,
  [], ◌∷◌, arith, and_iff, refl,
}
use pc_platform_validation_t.Base.Dict.{Dict}
use pc_platform_validation_t.Base.Floats.{Floats}
use pc_platform_validation_t.Models.Scalar.{Scalar, null, text, ExpectedValue, one}
use pc_platform_validation_t.Models.Plan.{
  RequirementOperator, equals, not_equals, greater_than, greater_than_or_equal, less_than,
  less_than_or_equal, between, present, contains, Requirement,
}
use pc_platform_validation_t.Models.Results.{RequirementEvaluation}
use pc_platform_validation_t.Evaluation.{metric_value, evaluate_requirement}
use pc_platform_validation_t.Evaluation.Spec.{IsEvaluable, Meets}
use pc_platform_validation_t.Evaluation.Laws.{Reports, evaluate_requirement-Reports}

module _ {F : Type 0} ⦃o : Floats F⦄ where
  -- The metric is available and has the meaning that the operator asks for.
  abbrev pub IsMet : Dict String (Scalar F) → Requirement F → Type 0
  IsMet metrics r =
      (metric_value r.metric metrics ≢ null)
      × Meets r.operator (metric_value r.metric metrics) r.expected

  Meets-IsEvaluable :
      (op : RequirementOperator) (a : Scalar F) (e : ExpectedValue F)
      → Meets op a e
      → IsEvaluable op a e
  Meets-IsEvaluable equals a e h = tt
  Meets-IsEvaluable not_equals a e h = tt
  Meets-IsEvaluable present a e h = tt
  Meets-IsEvaluable greater_than a e (x, y, p, q, h) = (x, y, p, q, tt)
  Meets-IsEvaluable greater_than_or_equal a e (x, y, p, q, h) = (x, y, p, q, tt)
  Meets-IsEvaluable less_than a e (x, y, p, q, h) = (x, y, p, q, tt)
  Meets-IsEvaluable less_than_or_equal a e (x, y, p, q, h) = (x, y, p, q, tt)
  Meets-IsEvaluable between a e (x, l, u, p, q, h, k) = (x, l, u, p, q, h, tt)
  Meets-IsEvaluable contains (text s) (one (text t)) h = tt
  Meets-IsEvaluable contains a e h = elim h [ ]

  abbrev passes : Result (RequirementEvaluation F) → Bool
  passes (ok e) = e.passed
  passes (raised e) = false

  Reports-IsMet :
      (r : Requirement F) (metrics : Dict String (Scalar F))
      (outcome : Result (RequirementEvaluation F))
      → Reports r metrics outcome
      → (passes outcome ≡ true) ↔ IsMet metrics r
  Reports-IsMet r metrics (ok e) reports = reports.3
  Reports-IsMet r metrics (raised e) reports =
      ((λ h. cc), λ met. absurd (reports.2 (Meets-IsEvaluable r.operator _ r.expected met.1)))

  passes-IsMet :
      (r : Requirement F) (metrics : Dict String (Scalar F))
      → (passes (evaluate_requirement r metrics) ≡ true) ↔ IsMet metrics r
  passes-IsMet r metrics = Reports-IsMet r metrics _ (evaluate_requirement-Reports r metrics)

  abbrev pub all_pass : Result (List (RequirementEvaluation F)) → Bool
  all_pass (ok es) = not (any (λ (e : RequirementEvaluation F). not e.passed) es)
  all_pass (raised e) = false

  all_pass-cons :
      (head : Result (RequirementEvaluation F)) (tail : Result (List (RequirementEvaluation F)))
      → all_pass (Base.◌>>=◌ head λ e. Base.◌>>=◌ tail λ es. ok (e ∷ es))
        ≡ (passes head && all_pass tail)
  all_pass-cons (ok e) (ok es) = ground arith
  all_pass-cons (ok e) (raised f) = ground arith
  all_pass-cons (raised f) tail = ground arith

  -- Every evaluation of a list of requirements passes exactly when all of them are met.
  pub all_pass-IsMet :
      (rs : List (Requirement F)) (metrics : Dict String (Scalar F))
      → (all_pass (map_result (λ r. evaluate_requirement r metrics) rs) ≡ true)
        ↔ All (IsMet metrics) rs
  all_pass-IsMet [] metrics = ground arith
  all_pass-IsMet (r ∷ rs) metrics =
      let tail = map_result (λ r. evaluate_requirement r metrics) rs in
      rw (all_pass-cons (evaluate_requirement r metrics) tail)
        (and_iff (passes-IsMet r metrics) (all_pass-IsMet rs metrics))

  cons-class :
      (r : Requirement F) (metrics : Dict String (Scalar F))
      (head : Result (RequirementEvaluation F)) (tail : Result (List (RequirementEvaluation F)))
      (e : Exception)
      → Reports r metrics head
      → ((f : Exception) → tail ≡ raised f → f.class ≡ evaluation_error)
      → (Base.◌>>=◌ head λ x. Base.◌>>=◌ tail λ xs. ok (x ∷ xs)) ≡ raised e
      → e.class ≡ evaluation_error
  cons-class r metrics (ok x) (ok xs) e reports later h = cc
  cons-class r metrics (ok x) (raised f) e reports later h = cc (later f refl)
  cons-class r metrics (raised f) tail e reports later h = cc (reports.0)

  -- Evaluating raises nothing but EvaluationErrors.
  pub map_result-class :
      (rs : List (Requirement F)) (metrics : Dict String (Scalar F)) (e : Exception)
      → map_result (λ r. evaluate_requirement r metrics) rs ≡ raised e
      → e.class ≡ evaluation_error
  map_result-class [] metrics e h = cc
  map_result-class (r ∷ rs) metrics e h =
      cons-class r metrics (evaluate_requirement r metrics) _ e
        (evaluate_requirement-Reports r metrics) (map_result-class rs metrics) h
