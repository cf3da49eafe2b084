-- ===== src/Evaluation/Spec.antt =====
-- What each operator means, apart from the evaluator: when a requirement can be evaluated at
-- all, and when an available value meets it.
use package.text.Mathlib.Text.{find?}
use pc_platform_validation_t.Base.{
  nat_eq, string_eq, option_eq, String, ◌≡◌, ◌≢◌, true, false, Option, none, some, [], ◌∷◌,
}
use pc_platform_validation_t.Base.Floats.{Number, int, float, Floats}
use pc_platform_validation_t.Models.Scalar.{
  Scalar, integer, real, text, ExpectedValue, one, many, equals_expected,
}
use pc_platform_validation_t.Models.Plan.{
  RequirementOperator, equals, not_equals, greater_than, greater_than_or_equal, less_than,
  less_than_or_equal, between, present, contains,
}

module _ {F : Type 0} where
  -- The scalars that count as numbers: ints and floats, and no bools.
  abbrev pub number_of : Scalar F → Option (Number F)
  number_of (integer n) = some (int n)
  number_of (real x) = some (float x)
  number_of _ = none

  abbrev pub expected_number : ExpectedValue F → Option (Number F)
  expected_number (one s) = number_of s
  expected_number (many _) = none

  -- A list of two numbers.
  abbrev pub Bounds : ExpectedValue F → Number F → Number F → Type 0
  Bounds (many (a ∷ b ∷ [])) lower upper = (number_of a ≡ some lower) × (number_of b ≡ some upper)
  Bounds _ lower upper = ⊥

  -- Two numbers, in the given relation.
  abbrev pub Numbers : (Number F → Number F → Type 0) → Scalar F → ExpectedValue F → Type 0
  Numbers R a e =
      (x : Number F) × (y : Number F) × (number_of a ≡ some x)
      × (expected_number e ≡ some y)
      × R x y

  abbrev pub Contains : (String → String → Type 0) → Scalar F → ExpectedValue F → Type 0
  Contains R (text s) (one (text t)) = R s t
  Contains R _ _ = ⊥

module _ {F : Type 0} ⦃o : Floats F⦄ where
  abbrev pub Between :
      (Number F → Number F → Number F → Type 0) → Scalar F → ExpectedValue F → Type 0
  Between R a e =
      (x : Number F) × (lower : Number F) × (upper : Number F) × (number_of a ≡ some x)
      × Bounds e lower upper
      × (o.lt upper lower ≡ false)
      × R x lower upper

  -- The operands have the types that the operator works on, and boundaries are ordered.
  abbrev pub IsEvaluable : RequirementOperator → Scalar F → ExpectedValue F → Type 0
  IsEvaluable present a e = Unit
  IsEvaluable equals a e = Unit
  IsEvaluable not_equals a e = Unit
  IsEvaluable between a e = Between (λ x lower upper. Unit) a e
  IsEvaluable contains a e = Contains (λ s t. Unit) a e
  IsEvaluable _ a e = Numbers (λ x y. Unit) a e

  -- What the operator says of an available value.
  abbrev pub Meets : RequirementOperator → Scalar F → ExpectedValue F → Type 0
  Meets present a e = Unit
  Meets equals a e = equals_expected a e ≡ true
  Meets not_equals a e = equals_expected a e ≢ true
  Meets greater_than a e = Numbers (λ x y. o.lt y x ≡ true) a e
  Meets greater_than_or_equal a e = Numbers (λ x y. o.le y x ≡ true) a e
  Meets less_than a e = Numbers (λ x y. o.lt x y ≡ true) a e
  Meets less_than_or_equal a e = Numbers (λ x y. o.le x y ≡ true) a e
  Meets between a e = Between (λ x lower upper. (o.le lower x ≡ true) × (o.le x upper ≡ true)) a e
  Meets contains a e = Contains (λ s t. find? s t ≢ none) a e
