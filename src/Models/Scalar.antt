-- ===== src/Models/Scalar.antt =====
-- Scalars of plans and measurements (src/platval/models/common.py), with Python's `==` on them.
use pc_platform_validation_t.Base.{nat_eq, string_eq, option_eq}
use pc_platform_validation_t.Base.{◌==◌, String, Bool, true, false, Option, none, some, List}
use pc_platform_validation_t.Base.Int.{ℤ, pos}
use pc_platform_validation_t.Base.Floats.{Number, int, float, Floats}

-- `bool | int | float | str | None`
pub data Scalar (F : Type 0) : Type 0 where
  null : Scalar F
  bool : Bool → Scalar F
  integer : ℤ → Scalar F
  real : F → Scalar F
  text : String → Scalar F

-- `Scalar | list[Scalar]`
pub data ExpectedValue (F : Type 0) : Type 0 where
  one : Scalar F → ExpectedValue F
  many : List (Scalar F) → ExpectedValue F

module _ {F : Type 0} where
  -- `x is None`
  abbrev pub is_null : Scalar F → Bool
  is_null null = true
  is_null _ = false

  -- The number that Python compares: a bool is the int 0 or 1.
  abbrev pub as_number : Scalar F → Option (Number F)
  as_number (bool true) = some (int (pos 1))
  as_number (bool false) = some (int (pos 0))
  as_number (integer n) = some (int n)
  as_number (real x) = some (float x)
  as_number _ = none

module _ {F : Type 0} ⦃o : Floats F⦄ where
  abbrev number_eq : Option (Number F) → Option (Number F) → Bool
  number_eq (some a) (some b) = o.eq a b
  number_eq _ _ = false

  -- `a == b` on scalars
  abbrev pub scalar_eq : Scalar F → Scalar F → Bool
  scalar_eq null null = true
  scalar_eq (text s) (text t) = s == t
  scalar_eq a b = number_eq (as_number a) (as_number b)

  -- `actual == expected`: no scalar equals a list.
  abbrev pub equals_expected : Scalar F → ExpectedValue F → Bool
  equals_expected a (one b) = scalar_eq a b
  equals_expected a (many bs) = false
