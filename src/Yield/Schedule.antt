-- ===== src/Yield/Schedule.antt =====
-- src/bond_accounting/yield_calc/coupon_schedule.py
pub mod Ladder
pub mod Dates
pub mod Payments
use stocktaking.Prelude.{
  ℕ, zero, suc, ◌-◌, Bool, true, false, ◌&&◌, Option, none, some, List, [], ◌∷◌, map, ltb, leb,
  ◌==◌, if◌then◌else◌,
}
use stocktaking.Prelude.Int.{ℤ, pos, negsuc, ltb_ℤ, leb_ℤ}
use stocktaking.Prelude.Outcome.{ok, err, raise_if, ◌>>=◌, ◌>>◌}
use stocktaking.Floats.{FloatOps, ◌⊕◌, ◌⊗◌, ◌⊘◌}
use stocktaking.Yield.Dates.{
  Result, value_error, out_of_rounds, timedelta, minus_days, days_per_year, min_coupon_date,
}

pub record CouponPayment (W : Type 0) : Type 0 where
  pub payment_date : ℕ
  pub amount : W
  pub is_final : Bool

-- The `while` loop, with the dates found so far, the earliest first: what the source appends and
-- then reverses.
unfoldable pub grid_loop : ℕ → ℕ → ℕ → ℕ → List ℕ → Result (List ℕ)
unfolding minus_days
grid_loop zero period first current grid = err out_of_rounds
grid_loop (suc rounds) period first current grid =
    elim (ltb first current && leb min_coupon_date current) [
      | true ↦ minus_days current period >>= λ previous.
          grid_loop rounds period first previous (current ∷ grid)
      | false ↦ ok grid
    ]

-- The payment dates, from the first coupon date on. Each round goes back by a day or more, so the
-- ordinal of the maturity date is enough rounds.
unfoldable pub payment_dates : ℕ → ℕ → ℕ → Result (List ℕ)
unfolding minus_days grid_loop
payment_dates period first maturity = do
  current ← minus_days maturity period
  grid ← grid_loop maturity period first current (maturity ∷ [])
  ok (first ∷ grid)

unfoldable pub first_coupon : ℕ → ℕ → Option ℕ → Result ℕ
unfolding minus_days
first_coupon period maturity none = minus_days maturity period
first_coupon period maturity (some start) = ok start

module _ {W : Type 0} ⦃fl : FloatOps W⦄ where
  -- `nominal * coupon_rate / 100 * (coupon_period_days / 365)`
  unfoldable pub coupon_per_period : W → ℕ → ℤ → W
  coupon_per_period rate period nominal =
      (fl.of_int nominal ⊗ rate ⊘ fl.of_int (pos 100)) ⊗ fl.ratio (pos period) (pos days_per_year)

  unfoldable pub payment_on : W → ℤ → ℕ → ℕ → CouponPayment W
  payment_on coupon nominal maturity d = record {
    payment_date = d;
    amount = coupon ⊕ (if d == maturity then fl.of_int nominal else fl.zero_float);
    is_final = d == maturity;
  }

  -- The bond with coupons, its arguments checked.
  unfoldable pub build_coupons : W → ℕ → ℕ → ℤ → Option ℕ → Result (List (CouponPayment W))
  unfolding timedelta first_coupon payment_dates coupon_per_period payment_on
  build_coupons rate period maturity nominal start = do
    step ← timedelta period
    first ← first_coupon step maturity start
    raise_if (leb maturity first) value_error
    dates ← payment_dates step first maturity
    ok (map (payment_on (coupon_per_period rate period nominal) nominal maturity) dates)

  unfoldable pub build_coupon_schedule : W → ℤ → ℕ → ℤ → Option ℕ → Result (List (CouponPayment W))
  unfolding build_coupons
  build_coupon_schedule rate (negsuc _) maturity nominal start = err value_error
  build_coupon_schedule rate (pos period) maturity nominal start = do
    raise_if (fl.lt rate fl.zero_float) value_error
    raise_if (leb_ℤ nominal (pos 0)) value_error
    if period == 0
        then ok
            (record { payment_date = maturity; amount = fl.of_int nominal; is_final = true } ∷ [])
        else build_coupons rate period maturity nominal start
