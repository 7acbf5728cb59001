-- ===== src/Yield/Accrued.antt =====
-- src/bond_accounting/yield_calc/accrued_coupon.py and current_yield.py
use stocktaking.Prelude.{ℕ, ◌-◌, ltb, leb, ◌==◌, if◌then◌else◌}
use stocktaking.Prelude.Int.{ℤ, pos, negsuc, leb_ℤ}
use stocktaking.Prelude.Outcome.{ok, err, raise_if, ◌>>◌}
use stocktaking.Floats.{FloatOps, ◌⊗◌, ◌⊘◌}
use stocktaking.Yield.Dates.{Result, value_error, ytm_error}
use stocktaking.Yield.Schedule.{coupon_per_period}

module _ {W : Type 0} ⦃fl : FloatOps W⦄ where
  -- From the day count on, for a bond with coupons.
  unfoldable pub accrued_since : W → ℕ → ℕ → ℕ → W
  accrued_since coupon period last today =
      if ltb today last
      then fl.zero_float
      else if leb period (today - last)
      then coupon
      else coupon ⊗ fl.of_int (pos (today - last)) ⊘ fl.of_int (pos period)

  unfoldable pub calculate_accrued_coupon : W → ℤ → ℕ → ℕ → ℤ → Result W
  unfolding accrued_since coupon_per_period
  calculate_accrued_coupon rate (negsuc _) last today nominal = err value_error
  calculate_accrued_coupon rate (pos period) last today nominal = do
    raise_if (fl.lt rate fl.zero_float) value_error
    raise_if (leb_ℤ nominal (pos 0)) value_error
    if period == 0
        then ok fl.zero_float
        else ok (accrued_since (coupon_per_period rate period nominal) period last today)

  unfoldable pub calculate_current_yield : W → W → ℤ → Result W
  calculate_current_yield price rate nominal = do
    raise_if (fl.le price fl.zero_float) ytm_error
    raise_if (leb_ℤ nominal (pos 0)) ytm_error
    raise_if (fl.lt rate fl.zero_float) ytm_error
    ok ((fl.of_int nominal ⊗ rate ⊘ fl.of_int (pos 100)) ⊘ price)
