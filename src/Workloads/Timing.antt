-- ===== src/Workloads/Timing.antt =====
-- Rates that are unavailable rather than invented (src/platval/workloads/timing.py).
use pc_platform_validation_t.Base.{
  if◌then◌else◌, nat_eq, string_eq, option_eq, ◌≡◌, ◌↔◌, true, false, not, ◌||◌, Option, none, some,
  arith,
}
use pc_platform_validation_t.Base.Floats.{Floats, float_le, zero_float}

module _ {F : Type 0} ⦃o : Floats F⦄ where
  unfoldable pub rate_per_second : F → F → Option F
  rate_per_second amount duration_seconds =
      if float_le duration_seconds zero_float || not (o.is_finite duration_seconds)
      then none
      else let rate = o.div amount duration_seconds in if o.is_finite rate then some rate else none

  -- A rate is reported exactly when the duration is positive and finite and the quotient is
  -- finite, and it is then the quotient.
  pub rate_per_second_iff :
      (amount duration rate : F)
      → (rate_per_second amount duration ≡ some rate) ↔ (
          (float_le duration zero_float ≡ false)
          × (o.is_finite duration ≡ true)
          × (o.is_finite rate ≡ true)
          × (rate ≡ o.div amount duration))
  unfolding rate_per_second
  rate_per_second_iff amount duration rate = ground arith
