-- ===== src/Evaluation.antt =====
-- The evaluation of one requirement (src/platval/evaluation/evaluator.py).
pub mod Spec
pub mod Laws
pub mod Met
use package.text.Mathlib.Text.{find?}
use pc_platform_validation_t.Base.{
  if◌then◌else◌, is_some, nat_eq, string_eq, option_eq, evaluation_error, Result, ok, raise, ◌>>=◌,
  ◌>>◌, raise_if, String, ◌<>◌, Bool, true, false, not, ◌&&◌, [], ◌∷◌,
}
use pc_platform_validation_t.Base.Dict.{Dict, lookup_or}
use pc_platform_validation_t.Base.Floats.{Number, int, float, Floats}
use pc_platform_validation_t.Models.Scalar.{
  Scalar, null, integer, real, text, ExpectedValue, one, many, is_null, equals_expected,
}
use pc_platform_validation_t.Models.Plan.{
  RequirementOperator, equals, not_equals, greater_than, greater_than_or_equal, less_than,
  less_than_or_equal, between, present, contains, Requirement,
}
use pc_platform_validation_t.Models.Results.{
  Explanation, unavailable, satisfied, not_satisfied, RequirementEvaluation,
}

module _ {F : Type 0} where
  -- `_numeric`: bools are refused, although they are ints.
  unfoldable pub numeric : Scalar F → String → Result (Number F)
  numeric (integer n) label = ok (int n)
  numeric (real x) label = ok (float x)
  numeric _ label = raise evaluation_error (label <> " must be numeric")

  unfoldable pub expected_scalar : ExpectedValue F → Result (Scalar F)
  expected_scalar (one v) = ok v
  expected_scalar (many vs) =
      raise evaluation_error "expected value must be scalar for this operator"

  -- `metrics.get(requirement.metric)`: a missing metric reads as None.
  abbrev pub metric_value : String → Dict String (Scalar F) → Scalar F
  metric_value name metrics = lookup_or name null metrics

  -- `expected in actual` on texts
  unfoldable pub text_contains : Scalar F → ExpectedValue F → Result Bool
  text_contains (text actual) (one (text expected)) = ok (is_some (find? actual expected))
  text_contains _ _ = raise evaluation_error "contains requires string operands"

  abbrev pub explain : Requirement F → Scalar F → Bool → Explanation F
  explain r actual passed =
      if is_null actual
      then unavailable r.metric
      else if passed
      then satisfied actual r.operator r.expected
      else not_satisfied actual r.operator r.expected

  abbrev pub report : Requirement F → Scalar F → Bool → RequirementEvaluation F
  report r actual passed = record {
    metric = r.metric;
    operator = r.operator;
    expected = r.expected;
    actual = actual;
    unit = r.unit;
    passed = passed;
    explanation = explain r actual passed;
  }

module _ {F : Type 0} ⦃o : Floats F⦄ where
  -- Both operands are checked to be numeric, the actual one first.
  unfoldable pub compare_numbers :
      (Number F → Number F → Bool) → Scalar F → ExpectedValue F → Result Bool
  unfolding expected_scalar
  compare_numbers test actual expected = do
    a ← numeric actual "actual"
    scalar ← expected_scalar expected
    b ← numeric scalar "expected"
    ok (test a b)

  unfoldable pub is_between : Scalar F → ExpectedValue F → Result Bool
  is_between actual (many (first ∷ second ∷ [])) = do
    lower ← numeric first "lower boundary"
    upper ← numeric second "upper boundary"
    raise_if (o.lt upper lower) evaluation_error "between boundaries must be ordered"
    a ← numeric actual "actual"
    ok (o.le lower a && o.le a upper)
  is_between actual _ = raise evaluation_error "between requires two numeric boundaries"

  -- The branches on the operator, for an actual value that is not None.
  unfoldable pub satisfies : RequirementOperator → Scalar F → ExpectedValue F → Result Bool
  unfolding compare_numbers is_between text_contains
  satisfies present actual expected = ok true
  satisfies equals actual expected = ok (equals_expected actual expected)
  satisfies not_equals actual expected = ok (not (equals_expected actual expected))
  satisfies greater_than actual expected = compare_numbers (λ a b. o.lt b a) actual expected
  satisfies greater_than_or_equal actual expected =
      compare_numbers (λ a b. o.le b a) actual expected
  satisfies less_than actual expected = compare_numbers o.lt actual expected
  satisfies less_than_or_equal actual expected = compare_numbers o.le actual expected
  satisfies between actual expected = is_between actual expected
  satisfies contains actual expected = text_contains actual expected

  unfoldable pub evaluate_requirement :
      Requirement F → Dict String (Scalar F) → Result (RequirementEvaluation F)
  evaluate_requirement r metrics = do
    let actual = metric_value r.metric metrics
    passed ← if is_null actual then ok false else satisfies r.operator actual r.expected
    ok (report r actual passed)
