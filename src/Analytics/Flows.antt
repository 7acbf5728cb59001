-- ===== src/Analytics/Flows.antt =====
-- What a bond is going to pay (src/bond_accounting/analytics/service.py).
pub mod Principal
use stocktaking.Prelude.{
  ℕ, ◌+◌, ◌-◌, ◌*◌, suc, Bool, true, false, not, ◌||◌, Option, none, some, List, [], ◌∷◌, ◌++◌, map,
  any, keep_if, ltb, leb, ◌==◌, if◌then◌else◌,
}
use stocktaking.Prelude.Int.{ℤ, pos, negsuc, sub_ℕ}
use stocktaking.Prelude.Outcome.{ok, ◌>>=◌}
use stocktaking.Floats.{FloatOps, ◌⊕◌, ◌⊗◌, ◌⊘◌}
use stocktaking.Yield.Dates.{Result, days_per_year}
use stocktaking.Yield.Schedule.{CouponPayment}
use stocktaking.Registry.Rows.{Bond, BondCoupon}
use stocktaking.Analytics.Dto.{CouponDue, Cashflow, coupon, maturity}
use stocktaking.Analytics.Grid.{future_coupon_dates}

-- a number of bonds times a nominal
abbrev pub times : ℕ → ℤ → ℤ
times n (pos k) = pos (n * k)
times n (negsuc k) = sub_ℕ 0 (n * suc k)

module _ {W : Type 0} ⦃fl : FloatOps W⦄ where
  -- `_coupon_per_period`
  unfoldable pub coupon_per_period : Bond W → W
  coupon_per_period bond =
      if bond.coupon_period_days == 0
      then fl.zero_float
      else (fl.of_int (pos bond.nominal) ⊗ bond.coupon_rate ⊘ fl.of_int (pos 100))
        ⊗ fl.ratio (pos bond.coupon_period_days) (pos days_per_year)

  -- a row of the stored schedule
  unfoldable pub stored_payment : Bond W → BondCoupon W → CouponPayment W
  stored_payment bond row = record {
    payment_date = row.coupon_date;
    amount =
        row.coupon_amount
        ⊕ (if row.coupon_date == bond.maturity_date
            then fl.of_int (pos bond.nominal)
            else fl.zero_float);
    is_final = row.coupon_date == bond.maturity_date;
  }

  -- the nominal on its own, if no row is on the maturity date
  unfoldable pub principal_on_its_own : Bond W → List (BondCoupon W) → List (CouponPayment W)
  principal_on_its_own bond rows =
      if any (λ (r : BondCoupon W). r.coupon_date == bond.maturity_date) rows
      then []
      else record {
        payment_date = bond.maturity_date;
        amount = fl.of_int (pos bond.nominal);
        is_final = true;
      }
        ∷ []

  -- `_bond_position_cashflows`
  unfoldable pub bond_position_cashflows :
      List (BondCoupon W) → Bond W → Option (List (CouponPayment W))
  unfolding stored_payment principal_on_its_own
  bond_position_cashflows [] bond = none
  bond_position_cashflows (r ∷ rows) bond =
      some (map (stored_payment bond) (r ∷ rows) ++ principal_on_its_own bond (r ∷ rows))

  unfoldable pub coupon_due : Bond W → ℤ → ℕ → CouponDue W
  unfolding coupon_per_period
  coupon_due bond quantity d = record {
    bond_id = bond.id;
    isin = bond.isin;
    name = bond.name;
    date = d;
    amount = coupon_per_period bond ⊗ fl.of_int quantity;
  }

  unfoldable pub coupon_flow : Bond W → ℤ → ℕ → Cashflow W
  unfolding coupon_per_period
  coupon_flow bond quantity d = record {
    date = d;
    bond_id = bond.id;
    isin = bond.isin;
    kind = coupon;
    amount = coupon_per_period bond ⊗ fl.of_int quantity;
  }

  unfoldable pub maturity_flow : Bond W → ℤ → Cashflow W
  maturity_flow bond quantity = record {
    date = bond.maturity_date;
    bond_id = bond.id;
    isin = bond.isin;
    kind = maturity;
    amount = fl.of_int (times bond.nominal quantity);
  }

  -- the dates that are left of a bond that has not matured
  unfoldable pub dates_left : Bond W → ℕ → Result (List ℕ)
  dates_left bond today =
      if ltb today bond.maturity_date
      then future_coupon_dates bond.maturity_date bond.coupon_period_days today
      else ok []

  -- `_future_bond_cashflows`
  unfoldable pub future_bond_cashflows :
      Bond W → ℤ → ℕ → ℕ → Result (List (CouponDue W) × List (Cashflow W))
  unfolding coupon_due coupon_flow maturity_flow dates_left
  future_bond_cashflows bond quantity today horizon_end = do
    dates ← dates_left bond today
    ok (
      map (coupon_due bond quantity) (keep_if (λ d. leb d horizon_end) dates),
      map (coupon_flow bond quantity) dates
          ++ (if ltb today bond.maturity_date then maturity_flow bond quantity ∷ [] else []),
    )
