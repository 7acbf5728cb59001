-- ===== src/Analytics/Positions.antt =====
-- `_build_position_analytics` of src/bond_accounting/analytics/service.py.
use stocktaking.Prelude.{ℕ, Option, none, some, List, [], ◌∷◌, leb, if◌then◌else◌}
use stocktaking.Prelude.Int.{ℤ, pos}
use stocktaking.Prelude.Outcome.{ok, err, ◌>>=◌}
use stocktaking.Floats.{FloatOps, ◌⊗◌}
use stocktaking.Portfolio.Transaction.{Transaction}
use stocktaking.Portfolio.Netting.{net_position}
use stocktaking.Yield.Dates.{Error, Result, value_error, ytm_error}
use stocktaking.Yield.Schedule.{CouponPayment}
use stocktaking.Yield.Ytm.{calculate_ytm}
use stocktaking.Yield.Accrued.{calculate_accrued_coupon, calculate_current_yield}
use stocktaking.Registry.Rows.{Bond}
use stocktaking.Analytics.Dto.{PositionAnalytics}
use stocktaking.Analytics.Grid.{last_coupon_date}
use stocktaking.Analytics.Flows.{dates_left}

-- `except YtmCalculationError`
abbrev pub catch_ytm : {A : Type 0} → A → Error → Result A
catch_ytm a ytm_error = ok a
catch_ytm a e = err e

-- `except ValueError`, which a `YtmCalculationError` is not
abbrev pub catch_value : {A : Type 0} → A → Error → Result A
catch_value a value_error = ok a
catch_value a e = err e

abbrev pub first_date : List ℕ → Option ℕ
first_date [] = none
first_date (d ∷ _) = some d

module _ {W : Type 0} ⦃fl : FloatOps W⦄ where
  -- The second half of the `try` block: the yield to maturity is there already.
  unfoldable pub with_current_yield : Bond W → W → Option W → Result (Option W × Option W)
  with_current_yield bond price ytm =
      elim (calculate_current_yield price bond.coupon_rate (pos bond.nominal)) [
        | ok current ↦ ok (ytm, some current)
        | err e ↦ catch_ytm (ytm, none) e
      ]

  -- The `try` block: the yield to maturity and the current yield of a bond that has not matured.
  unfoldable pub yields_of :
      Bond W → W → ℕ → Option (List (CouponPayment W)) → Result (Option W × Option W)
  unfolding with_current_yield
  yields_of bond price today cashflows =
      elim (calculate_ytm price bond.coupon_rate (pos bond.coupon_period_days) bond.maturity_date
        (pos bond.nominal) today cashflows) [
          | ok ytm ↦ with_current_yield bond price ytm
          | err e ↦ catch_ytm (none, none) e
        ]

  unfoldable pub accrued_of : Bond W → ℕ → Option ℕ → Result W
  accrued_of bond today none = ok fl.zero_float
  accrued_of bond today (some last) =
      elim (calculate_accrued_coupon bond.coupon_rate (pos bond.coupon_period_days) last today
        (pos bond.nominal)) [ ok accrued ↦ ok accrued | err e ↦ catch_value fl.zero_float e ]

  -- The function from the price on.
  unfoldable pub priced :
      Bond W → ℤ → W → ℕ → Option (List (CouponPayment W)) → Result (PositionAnalytics W)
  unfolding yields_of accrued_of
  priced bond quantity price today cashflows = do
    dates ← dates_left bond today
    yields ←
        if leb bond.maturity_date today
        then ok (none, none)
        else yields_of bond price today cashflows
    last ← last_coupon_date bond.maturity_date bond.coupon_period_days today
    accrued ← accrued_of bond today last
    ok (record {
      bond_id = bond.id;
      isin = bond.isin;
      name = bond.name;
      quantity = quantity;
      avg_buy_price = price;
      total_invested = price ⊗ fl.of_int quantity;
      ytm = yields.0;
      current_yield = yields.1;
      accrued_coupon = accrued;
      next_coupon_date = first_date dates;
      maturity_date = bond.maturity_date;
    })

  -- `_build_position_analytics`
  unfoldable pub build_position_analytics :
      Bond W
      → List (Transaction W)
      → ℕ
      → Option (List (CouponPayment W))
      → Result (PositionAnalytics W)
  unfolding priced
  build_position_analytics bond txns today cashflows =
      let (quantity, price) = net_position txns in
      elim price [ none ↦ err value_error | some avg ↦ priced bond quantity avg today cashflows ]
