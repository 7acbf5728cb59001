-- ===== src/Examples/YieldRuns.antt =====
use stocktaking.Prelude.{
  ℕ, ◌≡◌, ◌↔◌, ◌<◌, ◌-◌, refl, Bool, true, false, some, none, List, [], ◌∷◌, map, keep_if, arith,
}
use stocktaking.Prelude.Int.{ℤ, pos, negsuc, ◌+ℤ◌, ◌-ℤ◌}
use stocktaking.Prelude.Outcome.{ok, err}
use stocktaking.Yield.Dates.{ytm_error}
use stocktaking.Yield.Schedule.{CouponPayment, coupon_per_period, build_coupon_schedule}
use stocktaking.Yield.Schedule.Ladder.{StopsAt}
use stocktaking.Yield.Schedule.Dates.{CouponDates}
use stocktaking.Yield.Schedule.Payments.{schedule_dates, schedule_final, schedule_total}
use stocktaking.Yield.Ytm.{
  price_in_bounds, newton_loop, newton_raphson, bisect_loop, bisect, mispricing,
  future_payment_dates, cash_flows, calculate_ytm, validate_inputs, ytm_of, solve, initial_guess,
  present_value, present_value_derivative,
}
use stocktaking.Yield.Ytm.Solvers.{
  newton_raphson-some, bisect-result, BisectionResult, InDomain, IsSolution,
}
use stocktaking.Yield.Ytm.Inputs.{
  future_payment_dates_lem, IsInvalid, calculate_ytm-error_iff, calculate_ytm-IsSolution,
}
use stocktaking.Examples.Whole.{whole}

-- 2030-01-01, with a half-yearly coupon of 10%
abbrev maturity : ℕ
maturity = 741_070

abbrev payment : ℕ → ℤ → Bool → CouponPayment ℤ
payment d a f = record { payment_date = d; amount = a; is_final = f }

abbrev three_payments : List (CouponPayment ℤ)
three_payments =
    payment (maturity - 400) (pos 0) false
    ∷ payment (maturity - 364) (pos 0) false
    ∷ payment (maturity - 182) (pos 0) false
    ∷ payment maturity (pos 1000) true
    ∷ []

schedule_run :
    build_coupon_schedule (pos 10) (pos 182) maturity (pos 1000) (some (maturity - 400))
    ≡ ok three_payments
unfolding build_coupon_schedule ◌+ℤ◌ ◌-ℤ◌
schedule_run = refl

schedule_dates_example :
    (maturity - 400 < maturity)
    × CouponDates 182 maturity
        (maturity - 400)
        (map (λ (x : CouponPayment ℤ). x.payment_date) three_payments)
schedule_dates_example =
    schedule_dates (pos 10) 182 maturity (pos 1000) (some (maturity - 400)) three_payments
      (omega arith) schedule_run

schedule_final_example :
    keep_if (λ (x : CouponPayment ℤ). x.is_final) three_payments
    ≡ record {
      payment_date = maturity;
      amount = coupon_per_period (pos 10) 182 (pos 1000) +ℤ pos 1000;
      is_final = true;
    }
      ∷ []
schedule_final_example =
    schedule_final (pos 10) 182 maturity (pos 1000) (some (maturity - 400)) three_payments
      (omega arith) schedule_run

schedule_total_example :
    (out : List (CouponPayment ℤ)) × (build_coupon_schedule
        (pos 10)
        (pos 182)
        maturity
        (pos 1000)
        none
      ≡ ok out)
schedule_total_example =
    schedule_total (pos 10) 182 maturity (pos 1000) none (omega arith) (omega arith) (omega arith)
      (omega arith) refl refl

future_payment_dates_lem_example :
    (out : List ℕ) × (future_payment_dates maturity 182 740_000 ≡ ok out)
    × StopsAt maturity 182 740_000 0 out
future_payment_dates_lem_example =
    future_payment_dates_lem 182 740_000 maturity (omega arith) (omega arith) (omega arith)

-- a function with a root at the low end of the bracket
abbrev shifted : ℤ → ℤ
shifted r = r +ℤ pos 5

newton_raphson-some_example :
    (whole.lt (whole.abs (shifted (negsuc 4))) (pos 1) ≡ true) × InDomain (negsuc 4)
unfolding newton_raphson newton_loop ◌+ℤ◌ ◌-ℤ◌
newton_raphson-some_example =
    newton_raphson-some shifted (negsuc 4) (negsuc 4) [] (pos 1) (refl, refl) refl

bisect-result_example : BisectionResult shifted (pos 19)
unfolding bisect bisect_loop ◌+ℤ◌ ◌-ℤ◌
bisect-result_example = bisect-result shifted (pos 19) refl

calculate_ytm-error_iff_example :
    (calculate_ytm (pos 900) (pos 10) (negsuc 0) maturity (pos 1000) 740_000 none ≡ err ytm_error)
    ↔ IsInvalid (pos 900) (pos 10) maturity 740_000 (pos 1000) (negsuc 0)
calculate_ytm-error_iff_example =
    calculate_ytm-error_iff (pos 900) (pos 10) maturity 740_000 (pos 1000) (negsuc 0) none

abbrev flows : List (ℕ × ℤ)
flows = (170, pos 1000) ∷ []

flows_run :
    cash_flows maturity 182 740_900
      (coupon_per_period (pos 10) 182 (pos 1000))
      (pos 1000)
      (some three_payments)
    ≡ ok flows
unfolding cash_flows
flows_run = refl

ytm_run :
    calculate_ytm (pos 100) (pos 10) (pos 182) maturity (pos 1000) 740_900 (some three_payments)
    ≡ ok (some (pos 0))
unfolding ◌+ℤ◌ ◌-ℤ◌ calculate_ytm validate_inputs price_in_bounds ytm_of cash_flows solve
    newton_raphson newton_loop bisect bisect_loop initial_guess present_value
    present_value_derivative coupon_per_period
ytm_run = refl

calculate_ytm-IsSolution_example : IsSolution (mispricing (pos 100) flows (pos 2)) (pos 0)
unfolding price_in_bounds
calculate_ytm-IsSolution_example =
    calculate_ytm-IsSolution (pos 100) (pos 10) maturity 740_900 (pos 1000) 182
      (some three_payments) flows (pos 0) (omega arith) (ground arith) refl flows_run ytm_run
