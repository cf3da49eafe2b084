-- ===== src/Base/Floats.antt =====
-- Python's numbers. The floats and the comparisons that involve them are a parameter: a type
-- with the operations that the program uses, and the laws of IEEE 754 that it relies on.
use native.Mathlib.Omega.{arith}
use Prim.Native.Nat.{ℕ}
use mathlib.Core.Path.{◌≡◌}
use mathlib.Core.Bool.{Bool, true, false}
use pc_platform_validation_t.Base.Int.{ℤ, pos, ltb_ℤ, leb_ℤ, beq_ℤ}

-- `int | float`
pub data Number (F : Type 0) : Type 0 where
  int : ℤ → Number F
  float : F → Number F

pub record Floats (F : Type 0) : Type 0 where
  -- `<`, `<=` and `==` between ints and floats in any mix
  pub lt : Number F → Number F → Bool
  pub le : Number F → Number F → Bool
  pub eq : Number F → Number F → Bool
  -- `float(n)`
  pub of_int : ℤ → F
  -- `int(x)`
  pub truncate : F → ℤ
  -- the literal n * 10^-k
  pub literal : ℕ → ℕ → F
  pub add : F → F → F
  pub sub : F → F → F
  pub mul : F → F → F
  pub div : F → F → F
  pub neg : F → F
  pub abs : F → F
  -- `math.isfinite(x)`
  pub is_finite : F → Bool

-- Two ints compare as integers, `<` implies `<=`, and what is `<` is not `>=`; `<=` is transitive
-- and antisymmetric, and the negation of what is not below zero is not above it.
pub record IsOrdered (F : Type 0) ⦃o : Floats F⦄ : Type 0 where
  pub int_lt : (a b : ℤ) → o.lt (int a) (int b) ≡ ltb_ℤ a b
  pub int_le : (a b : ℤ) → o.le (int a) (int b) ≡ leb_ℤ a b
  pub int_eq : (a b : ℤ) → o.eq (int a) (int b) ≡ beq_ℤ a b
  pub le_of_lt : (x y : Number F) → o.lt x y ≡ true → o.le x y ≡ true
  pub not-le_of_lt : (x y : Number F) → o.lt x y ≡ true → o.le y x ≡ false
  pub le_trans : (x y z : Number F) → o.le x y ≡ true → o.le y z ≡ true → o.le x z ≡ true
  pub le_antisym : (x y : Number F) → o.le x y ≡ true → o.le y x ≡ true → o.eq x y ≡ true
  pub le_of_eq : (x y : Number F) → o.eq x y ≡ true → o.le x y ≡ true
  pub eq_sym : (x y : Number F) → o.eq x y ≡ true → o.eq y x ≡ true
  pub neg_nonpositive :
      (x : F)
      → o.le (float (o.of_int (pos 0))) (float x) ≡ true
      → o.le (float (o.neg x)) (float (o.of_int (pos 0))) ≡ true

-- Comparisons of two floats, and the float constants 0.0 and 100.0.
module _ {F : Type 0} ⦃o : Floats F⦄ where
  abbrev pub float_lt : F → F → Bool
  float_lt x y = o.lt (float x) (float y)

  abbrev pub float_le : F → F → Bool
  float_le x y = o.le (float x) (float y)

  abbrev pub float_eq : F → F → Bool
  float_eq x y = o.eq (float x) (float y)

  abbrev pub zero_float : F
  zero_float = o.of_int (pos 0)

  abbrev pub hundred_float : F
  hundred_float = o.of_int (pos 100)

module _ {F : Type 0} ⦃o : Floats F⦄ (order : IsOrdered F) where
  pub lt_asymm : (x y : Number F) → o.lt x y ≡ true → o.lt y x ≡ false
  lt_asymm x y h = ground (arith, order.le_of_lt y x, order.not-le_of_lt x y h)

  pub lt_irrefl : (x : Number F) → o.lt x x ≡ false
  lt_irrefl x = ground (arith, lt_asymm x x)
