-- ===== src/Evaluation/Laws.antt =====
-- The evaluator decides what each operator means, and raises only where it has no meaning.
use mathlib.Core.Path.{subst}
use pc_platform_validation_t.Base.{
  Option-cases, nat_eq, string_eq, option_eq, evaluation_error, Result, ok, raised, raise, String,
  ◌<>◌, ◌≡◌, refl, ◌↔◌, inl, inr, Bool, true, none, some, arith, [], ◌∷◌, Bool-cases, ◌>>=◌, ◌≢◌,
  if◌then◌else◌, sym, ap, false,
}
use pc_platform_validation_t.Base.Floats.{Number, Floats}
use pc_platform_validation_t.Models.Scalar.{Scalar, null, text, ExpectedValue, one, many, is_null}
use pc_platform_validation_t.Models.Plan.{
  contains, between, RequirementOperator, equals, not_equals, greater_than, greater_than_or_equal,
  less_than, less_than_or_equal, present, Requirement,
}
use pc_platform_validation_t.Evaluation.{
  numeric, text_contains, compare_numbers, is_between, expected_scalar, metric_value, explain,
  satisfies, evaluate_requirement, report,
}
use pc_platform_validation_t.Evaluation.Spec.{number_of, Numbers, IsEvaluable, Meets}
use pc_platform_validation_t.Base.Dict.{Dict}
use pc_platform_validation_t.Models.Results.{RequirementEvaluation}

-- What an outcome says of a value and an expectation: `ok b` decides `Met`, and an exception
-- is an EvaluationError where the requirement cannot be evaluated.
abbrev Decides : Type 0 → Type 0 → Result Bool → Type 0
Decides Evaluable Met (ok b) = Evaluable × ((b ≡ true) ↔ Met)
Decides Evaluable Met (raised e) = (e.class ≡ evaluation_error) × ¬ Evaluable

module _ {F : Type 0} ⦃o : Floats F⦄ where
  numeric-number_of :
      (s : Scalar F) (label : String)
      → numeric s label ≡ elim (number_of s) [
        | none ↦ raise evaluation_error (label <> " must be numeric")
        | some x ↦ ok x
      ]
  unfolding numeric
  numeric-number_of null label = refl
  numeric-number_of s label = refl

  numeric_of_some :
      (s : Scalar F) (label : String) {x : Number F} → number_of s ≡ some x → numeric s label ≡ ok x
  numeric_of_some s label h = ground (arith, numeric-number_of s label)

  compare_numbers-Decides :
      (test : Number F → Number F → Bool) (a : Scalar F) (e : ExpectedValue F)
      → Decides
          (Numbers (λ x y. Unit) a e)
          (Numbers (λ x y. test x y ≡ true) a e)
          (compare_numbers test a e)
  unfolding compare_numbers
  compare_numbers-Decides test a (many vs) = elim (Option-cases (number_of a)) [
    | inl e ↦ ground (arith, numeric-number_of a "actual")
    | inr (x, e) ↦ ground (arith, numeric-number_of a "actual")
  ]
  compare_numbers-Decides test a (one b) = elim (Option-cases (number_of a)) [
    | inl e ↦ ground (arith, numeric-number_of a "actual")
    | inr (x, e) ↦ elim (Option-cases (number_of b)) [
      | inl f ↦ ground (arith, numeric-number_of a "actual", numeric-number_of b "expected")
      | inr (y, f) ↦
          rw (numeric_of_some a "actual" e, expected_scalar, numeric_of_some b "expected" f)
            ((x, y, e, f, tt), ((λ h. (x, y, e, f, h)), (λ h. ground arith)))
    ]
  ]

  pair-Decides :
      (a first second : Scalar F)
      → let e = many (first ∷ second ∷ []) in
        Decides (IsEvaluable between a e) (Meets between a e) (is_between a e)
  unfolding is_between
  pair-Decides a first second = elim (Option-cases (number_of first)) [
    | inl f ↦ ground (arith, numeric-number_of first "lower boundary")
    | inr (x, f) ↦ elim (Option-cases (number_of second)) [
      | inl g ↦ ground (
        arith,
        numeric-number_of first "lower boundary",
        numeric-number_of second "upper boundary",
      )
      | inr (y, g) ↦
          rw (numeric_of_some first "lower boundary" f, numeric_of_some second "upper boundary" g)
            (elim (Bool-cases (o.lt y x)) [
              | inl bad ↦ ground arith
              | inr fine ↦ elim (Option-cases (number_of a)) [
                | inl e ↦ rw fine (ground (arith, numeric-number_of a "actual"))
                | inr (z, e) ↦
                    rw (fine, numeric_of_some a "actual" e)
                      (
                        (z, x, y, e, (f, g), fine, tt),
                        ((λ h. (z, x, y, e, (f, g), fine, ground arith)), (λ h. ground arith)),
                      )
              ]
            ])
    ]
  ]

  is_between-Decides :
      (a : Scalar F) (e : ExpectedValue F)
      → Decides (IsEvaluable between a e) (Meets between a e) (is_between a e)
  unfolding is_between
  is_between-Decides a (many (first ∷ second ∷ [])) = pair-Decides a first second
  is_between-Decides a e = ground (arith)

  text_contains-Decides :
      (a : Scalar F) (e : ExpectedValue F)
      → Decides (IsEvaluable contains a e) (Meets contains a e) (text_contains a e)
  unfolding text_contains
  text_contains-Decides (text s) (one (text t)) = ground arith
  text_contains-Decides a e = ground arith

  satisfies-Decides :
      (op : RequirementOperator) (a : Scalar F) (e : ExpectedValue F)
      → Decides (IsEvaluable op a e) (Meets op a e) (satisfies op a e)
  unfolding satisfies
  satisfies-Decides equals a e = ground arith
  satisfies-Decides not_equals a e = ground arith
  satisfies-Decides greater_than a e = compare_numbers-Decides (λ a b. o.lt b a) a e
  satisfies-Decides greater_than_or_equal a e = compare_numbers-Decides (λ a b. o.le b a) a e
  satisfies-Decides less_than a e = compare_numbers-Decides o.lt a e
  satisfies-Decides less_than_or_equal a e = compare_numbers-Decides o.le a e
  satisfies-Decides between a e = is_between-Decides a e
  satisfies-Decides present a e = ground arith
  satisfies-Decides contains a e = text_contains-Decides a e

  -- What an evaluation of the requirement `r` on the metrics reports.
  abbrev pub Reports :
      Requirement F → Dict String (Scalar F) → Result (RequirementEvaluation F) → Type 0
  Reports r metrics (ok evaluation) =
      let actual = metric_value r.metric metrics in
      (evaluation.actual ≡ actual)
      × (evaluation.expected ≡ r.expected)
      × (evaluation.explanation ≡ explain r actual evaluation.passed)
      × ((evaluation.passed ≡ true) ↔ ((actual ≢ null) × Meets r.operator actual r.expected))
  Reports r metrics (raised e) =
      let actual = metric_value r.metric metrics in
      (e.class ≡ evaluation_error) × (actual ≢ null) × ¬ IsEvaluable r.operator actual r.expected

  null_iff : (s : Scalar F) → (is_null s ≡ true) ↔ (s ≡ null)
  null_iff null = ground arith
  null_iff s = ground arith

  report-Reports :
      (r : Requirement F) (metrics : Dict String (Scalar F)) (outcome : Result Bool)
      → let actual = metric_value r.metric metrics in
        actual ≢ null
        → Decides
            (IsEvaluable r.operator actual r.expected)
            (Meets r.operator actual r.expected)
            outcome
        → Reports r metrics (outcome >>= λ passed. ok (report r actual passed))
  report-Reports r metrics (ok passed) available (can, agrees) =
      (refl, refl, refl, ((λ h. (available, agrees.0 h)), λ h. agrees.1 h.1))
  report-Reports r metrics (raised e) available (class, cannot) = (class, available, cannot)

  evaluate_requirement_of_available :
      (r : Requirement F) (metrics : Dict String (Scalar F))
      → let actual = metric_value r.metric metrics in
        is_null actual ≡ false
        → evaluate_requirement r metrics
          ≡ (satisfies r.operator actual r.expected >>= λ passed. ok (report r actual passed))
  unfolding evaluate_requirement
  evaluate_requirement_of_available r metrics h =
      let actual = metric_value r.metric metrics in
      ap
        (λ missing.
          (if missing then ok false else satisfies r.operator actual r.expected) >>= λ passed.
          ok (report r actual passed))
        h

  -- An evaluation passes exactly when the metric is available and meets the operator's meaning,
  -- and it reports the values that it compared. It raises only an EvaluationError, and only for
  -- an available metric to which the operator does not apply.
  pub evaluate_requirement-Reports :
      (r : Requirement F) (metrics : Dict String (Scalar F))
      → Reports r metrics (evaluate_requirement r metrics)
  unfolding evaluate_requirement
  evaluate_requirement-Reports r metrics =
      let actual = metric_value r.metric metrics in
      elim (Bool-cases (is_null actual)) [
        | inl missing ↦ rw missing (
          refl,
          refl,
          ground arith,
          ((λ h. ground arith), λ h. absurd (h.0 ((null_iff actual).0 missing))),
        )
        | inr available ↦
            subst (Reports r metrics) (sym (evaluate_requirement_of_available r metrics available))
              (report-Reports r metrics (satisfies r.operator actual r.expected)
                (λ e. ground (arith, null_iff actual))
                (satisfies-Decides r.operator actual r.expected))
      ]
