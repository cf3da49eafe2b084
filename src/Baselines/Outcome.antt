-- ===== src/Baselines/Outcome.antt =====
-- The classification of one metric's change (src/platval/baselines/service.py, `_outcome`).
-- How bad an outcome is, for those that a change is classified as.
use pc_platform_validation_t.Base.{nat_eq, string_eq, option_eq, ℕ, ◌≤◌, ◌≡◌, true, arith}
use pc_platform_validation_t.Base.Floats.{
  float, Floats, IsOrdered, float_lt, float_le, float_eq, zero_float,
}
use pc_platform_validation_t.Baselines.{
  ComparisonOutcome, improved, unchanged, warned, failed, unavailable, classify,
}

abbrev pub severity : ComparisonOutcome → ℕ
severity improved = 0
severity unchanged = 1
severity warned = 2
severity failed = 3
severity unavailable = 4

module _ {F : Type 0} ⦃o : Floats F⦄ (order : IsOrdered F) where
  -- With 0 <= warning < failure, a change that is at least as adverse as another is never classified
  -- as a milder outcome.
  pub classify_monotone :
      (warning failure before after : F)
      → float_le zero_float warning ≡ true
      → float_lt warning failure ≡ true
      → float_le before after ≡ true
      → severity (classify before warning failure) ≤ severity (classify after warning failure)
  unfolding classify
  classify_monotone warning failure before after hw hf h =
      let trans : (x y z : F) → float_le x y ≡ true → float_le y z ≡ true → float_le x z ≡ true =
        λ x y z. order.le_trans (float x) (float y) (float z) in
      let antisym : (x y : F) → float_le x y ≡ true → float_le y x ≡ true → float_eq x y ≡ true =
        λ x y. order.le_antisym (float x) (float y) in
      let of_eq : (x y : F) → float_eq x y ≡ true → float_le x y ≡ true =
        λ x y. order.le_of_eq (float x) (float y) in
      let sym : (x y : F) → float_eq x y ≡ true → float_eq y x ≡ true =
        λ x y. order.eq_sym (float x) (float y) in
      let bound = order.le_of_lt (float warning) (float failure) hf in
      let zero : F = zero_float in
      ground (
        arith,
        bound,
        order.neg_nonpositive warning hw,
        of_eq before zero,
        of_eq after zero,
        sym before zero,
        sym after zero,
        of_eq zero before,
        of_eq zero after,
        trans warning failure before,
        trans warning before after,
        trans failure before after,
        trans zero warning before,
        trans zero warning after,
        trans before after zero,
        trans zero before after,
        trans before after (o.neg warning),
        trans before (o.neg warning) zero,
        trans after (o.neg warning) zero,
        antisym before zero,
        antisym after zero,
      )
