-- ===== src/Tests/Numbers.antt =====
-- Whole numbers in place of floats.
use pc_platform_validation_t.Base.{
  nat_eq, string_eq, option_eq, ◌+◌, ◌*◌, ◌/◌, ◌≡◌, refl, true, false, arith, ◌^◌,
}
use pc_platform_validation_t.Base.Int.{ℤ, pos, pos_part, neg_part, sub_ℕ, ◌-ℤ◌, ltb_ℤ, leb_ℤ, beq_ℤ}
use pc_platform_validation_t.Base.Floats.{Number, int, float, Floats, IsOrdered}

abbrev mul_ℤ : ℤ → ℤ → ℤ
mul_ℤ a b =
    sub_ℕ (pos_part a * pos_part b + neg_part a * neg_part b)
      (pos_part a * neg_part b + neg_part a * pos_part b)

abbrev neg_ℤ : ℤ → ℤ
neg_ℤ a = pos 0 -ℤ a

-- Truncated towards zero, and 0 on division by 0.
abbrev div_ℤ : ℤ → ℤ → ℤ
div_ℤ a b =
    sub_ℕ (pos_part a / pos_part b + neg_part a / neg_part b)
      (neg_part a / pos_part b + pos_part a / neg_part b)

abbrev value : Number ℤ → ℤ
value (int n) = n
value (float n) = n

instance abbrev pub whole_floats : Floats ℤ
whole_floats = record {
  lt = λ a b. ltb_ℤ (value a) (value b);
  le = λ a b. leb_ℤ (value a) (value b);
  eq = λ a b. beq_ℤ (value a) (value b);
  of_int = λ n. n;
  truncate = λ n. n;
  literal = λ n k. pos (n / 10 ^ k);
  add = λ a b. a -ℤ neg_ℤ b;
  sub = ◌-ℤ◌;
  mul = mul_ℤ;
  div = div_ℤ;
  neg = neg_ℤ;
  abs = λ n. pos (pos_part n + neg_part n);
  is_finite = λ n. true;
}

leb_of_ltb : (a b : ℤ) → ltb_ℤ a b ≡ true → leb_ℤ a b ≡ true
leb_of_ltb a b h = ground arith

not_leb_of_ltb : (a b : ℤ) → ltb_ℤ a b ≡ true → leb_ℤ b a ≡ false
not_leb_of_ltb a b h = ground arith

leb_trans : (a b c : ℤ) → leb_ℤ a b ≡ true → leb_ℤ b c ≡ true → leb_ℤ a c ≡ true
leb_trans a b c h g = ground arith

leb_antisym : (a b : ℤ) → leb_ℤ a b ≡ true → leb_ℤ b a ≡ true → beq_ℤ a b ≡ true
leb_antisym a b h g = ground arith

leb_of_beq : (a b : ℤ) → beq_ℤ a b ≡ true → leb_ℤ a b ≡ true
leb_of_beq a b h = ground arith

beq_sym : (a b : ℤ) → beq_ℤ a b ≡ true → beq_ℤ b a ≡ true
beq_sym a b h = ground arith

neg_ℤ_nonpositive : (a : ℤ) → leb_ℤ (pos 0) a ≡ true → leb_ℤ (neg_ℤ a) (pos 0) ≡ true
neg_ℤ_nonpositive a h = ground arith

pub whole_IsOrdered : IsOrdered ℤ
whole_IsOrdered = record {
  int_lt = λ a b. refl;
  int_le = λ a b. refl;
  int_eq = λ a b. refl;
  le_of_lt = λ x y. leb_of_ltb (value x) (value y);
  not-le_of_lt = λ x y. not_leb_of_ltb (value x) (value y);
  le_trans = λ x y z. leb_trans (value x) (value y) (value z);
  le_antisym = λ x y. leb_antisym (value x) (value y);
  le_of_eq = λ x y. leb_of_beq (value x) (value y);
  eq_sym = λ x y. beq_sym (value x) (value y);
  neg_nonpositive = neg_ℤ_nonpositive;
}
