-- ===== src/Yield/Ytm.antt =====
-- src/bond_accounting/yield_calc/ytm.py. A float operation that raises in Python (a division by 0.0,
-- an overflow of `**`) has a value here, whatever the parameter gives it.
pub mod Solvers
pub mod Inputs
use stocktaking.Prelude.{
  ℕ, zero, suc, ◌-◌, Bool, true, false, not, ◌&&◌, ◌||◌, Option, none, some, List, [], ◌∷◌, map,
  keep_if, ltb, leb, ◌==◌, if◌then◌else◌,
}
use stocktaking.Prelude.Int.{ℤ, pos, negsuc, leb_ℤ}
use stocktaking.Prelude.Outcome.{ok, err, raise_if, ◌>>=◌, ◌>>◌}
use stocktaking.Floats.{FloatOps, ◌⊕◌, ◌⊖◌, ◌⊗◌, ◌⊘◌, larger, smaller}
use stocktaking.Yield.Dates.{
  Result, ytm_error, zero_division, out_of_rounds, minus_days, days_per_year,
}
use stocktaking.Yield.Schedule.{CouponPayment, coupon_per_period}

-- The loop of `_future_payment_dates`, with the dates found so far, the earliest first.
unfoldable pub future_loop : ℕ → ℕ → ℕ → ℕ → List ℕ → Result (List ℕ)
unfolding minus_days
future_loop zero period today current dates = err out_of_rounds
future_loop (suc rounds) period today current dates = elim (ltb today current) [
  | true ↦ minus_days current period >>= λ previous.
      future_loop rounds period today previous (current ∷ dates)
  | false ↦ ok dates
]

-- `_future_payment_dates`; each round goes back by a day or more.
unfoldable pub future_payment_dates : ℕ → ℕ → ℕ → Result (List ℕ)
future_payment_dates maturity period today = future_loop (suc maturity) period today maturity []

abbrev pub max_iterations : ℕ
max_iterations = 100

module _ {W : Type 0} ⦃fl : FloatOps W⦄ where
  abbrev pub tolerance : W
  tolerance = fl.literal (pos 1) 8

  abbrev pub bisection_low : W
  bisection_low = fl.literal (negsuc 4) 1

  abbrev pub bisection_high : W
  bisection_high = fl.literal (pos 20) 1

  abbrev pub one : W
  one = fl.literal (pos 10) 1

  -- `_price_bounds`
  unfoldable pub price_in_bounds : W → ℤ → Bool
  price_in_bounds price nominal =
      fl.le (fl.literal (pos 10) 1) price
      && fl.le price (fl.literal (pos 100) 1 ⊗ fl.of_int nominal)

  -- `_validate_inputs`
  unfoldable pub validate_inputs : W → W → ℤ → ℕ → ℤ → ℕ → Result (Unit {0})
  validate_inputs price rate (negsuc _) maturity nominal today = err ytm_error
  validate_inputs price rate (pos _) maturity nominal today = do
    raise_if (fl.lt rate fl.zero_float) ytm_error
    raise_if (leb_ℤ nominal (pos 0)) ytm_error
    raise_if (not (price_in_bounds price nominal)) ytm_error
    raise_if (leb maturity today) ytm_error

  -- `_cash_flows`: days from today, and amounts
  unfoldable pub cash_flows :
      ℕ → ℕ → ℕ → W → ℤ → Option (List (CouponPayment W)) → Result (List (ℕ × W))
  cash_flows maturity period today coupon nominal (some payments) = ok (
      map (λ (x : CouponPayment W). (x.payment_date - today, x.amount))
        (keep_if (λ (x : CouponPayment W). ltb today x.payment_date) payments))
  cash_flows maturity period today coupon nominal none = do
    dates ← future_payment_dates maturity period today
    ok (
        map
          (λ (d : ℕ).
            (d - today, coupon ⊕ (if d == maturity then fl.of_int nominal else fl.zero_float)))
          dates)

  -- `days * periods_per_year / 365`
  unfoldable pub periods_of : ℕ → W → W
  periods_of days ppy = fl.of_int (pos days) ⊗ ppy ⊘ fl.of_int (pos days_per_year)

  unfoldable pub value_from : W → W → W → List (ℕ × W) → W
  unfolding periods_of
  value_from pv factor ppy [] = pv
  value_from pv factor ppy ((days, amount) ∷ flows) =
      value_from (pv ⊕ amount ⊘ fl.pow factor (periods_of days ppy)) factor ppy flows

  unfoldable pub present_value : W → List (ℕ × W) → W → W
  unfolding value_from
  present_value r flows ppy = value_from fl.zero_float (one ⊕ r ⊘ ppy) ppy flows

  unfoldable pub derivative_from : W → W → W → List (ℕ × W) → W
  unfolding periods_of
  derivative_from d factor ppy [] = d
  derivative_from d factor ppy ((days, amount) ∷ flows) =
      let periods = periods_of days ppy in
      derivative_from
        (d ⊕ (fl.neg amount ⊗ periods) ⊘ (ppy ⊗ fl.pow factor (periods ⊕ fl.of_int (pos 1)))) factor
        ppy flows

  unfoldable pub present_value_derivative : W → List (ℕ × W) → W → W
  unfolding derivative_from
  present_value_derivative r flows ppy = derivative_from fl.zero_float (one ⊕ r ⊘ ppy) ppy flows

  -- The loop of `_newton_raphson` over the pricing function and its derivative.
  unfoldable pub newton_loop : ℕ → (W → W) → (W → W) → W → Option W
  newton_loop zero f f' r = none
  newton_loop (suc rounds) f f' r =
      let value = f r in
      let derivative = f' r in
      let next = r ⊖ value ⊘ derivative in
      let rest = newton_loop rounds f f' next in
      if fl.lt (fl.abs value) tolerance
      then some r
      else if fl.eq derivative fl.zero_float || not (fl.is_finite derivative)
      then none
      else if not (fl.is_finite next) || (fl.lt next bisection_low || fl.lt one (fl.abs next))
      then none
      else if fl.eq next r
      then none
      else rest

  unfoldable pub newton_raphson : (W → W) → W → List (ℕ × W) → W → Option W
  newton_raphson f guess flows ppy =
      newton_loop max_iterations f (λ r. present_value_derivative r flows ppy) guess

  abbrev pub middle : W → W → W
  middle low high = (low ⊕ high) ⊘ fl.of_int (pos 2)

  -- The loop of `_bisect`, with the values of the function at both ends.
  unfoldable pub bisect_loop : ℕ → (W → W) → W → W → W → W → W
  bisect_loop zero f low high f_low f_high = middle low high
  bisect_loop (suc rounds) f low high f_low f_high =
      let mid = middle low high in
      let f_mid = f mid in
      let left = bisect_loop rounds f low mid f_low f_mid in
      let right = bisect_loop rounds f mid high f_mid f_high in
      if fl.lt (fl.abs f_mid) tolerance || fl.lt (high ⊖ low) (fl.literal (pos 1) 12)
      then mid
      else if fl.lt (f_low ⊗ f_mid) fl.zero_float
      then left
      else right

  unfoldable pub bisect : (W → W) → Option W
  bisect f =
      let f_low = f bisection_low in
      let f_high = f bisection_high in
      if fl.lt fl.zero_float (f_low ⊗ f_high)
      then none
      else some (bisect_loop 200 f bisection_low bisection_high f_low f_high)

  -- the closed form of a bond without coupons
  unfoldable pub zero_coupon_ytm : W → ℕ → ℤ → ℕ → W
  zero_coupon_ytm price period nominal days =
      let ppy = if period == 0 then one else fl.ratio (pos days_per_year) (pos period) in
      ppy
      ⊗ (fl.pow (fl.of_int nominal ⊘ price)
            (fl.of_int (pos days_per_year) ⊘ (fl.of_int (pos days) ⊗ ppy))
          ⊖ fl.of_int (pos 1))

  -- the "total yield" guess, inside the bracket
  unfoldable pub initial_guess : W → W → ℤ → ℕ → W
  initial_guess price rate nominal days =
      let annual = fl.of_int nominal ⊗ rate ⊘ fl.of_int (pos 100) in
      let years = fl.ratio (pos days) (pos days_per_year) in
      let n = fl.of_int nominal in
      let guess = (annual ⊕ (n ⊖ price) ⊘ years) ⊘ ((n ⊕ price) ⊘ fl.of_int (pos 2)) in
      smaller (larger guess bisection_low) one

  -- the two solvers, one after the other
  unfoldable pub solve : (W → W) → W → List (ℕ × W) → W → Option W
  solve f guess flows ppy = elim (newton_raphson f guess flows ppy) [
    | some r ↦ some r
    | none ↦ bisect f
  ]

  abbrev pub is_empty : Option (List (CouponPayment W)) → Bool
  is_empty none = true
  is_empty (some []) = true
  is_empty (some _) = false

  -- `pv - price`
  abbrev pub mispricing : W → List (ℕ × W) → W → W → W
  mispricing price flows ppy r = present_value r flows ppy ⊖ price

  -- from the test for the closed form on
  unfoldable pub ytm_of :
      W → W → ℕ → ℕ → ℤ → ℕ → Option (List (CouponPayment W)) → Result (Option W)
  ytm_of price rate period maturity nominal today schedule =
      if (period == 0 || fl.eq rate fl.zero_float) && is_empty schedule
      then ok (some (zero_coupon_ytm price period nominal (maturity - today)))
      else if period == 0
      then err zero_division
      else do
        let ppy = fl.ratio (pos days_per_year) (pos period)
        flows ←
            cash_flows maturity period today (coupon_per_period rate period nominal) nominal
              schedule
        ok (
            solve (mispricing price flows ppy) (initial_guess price rate nominal (maturity - today))
              flows ppy)

  unfoldable pub calculate_ytm :
      W → W → ℤ → ℕ → ℤ → ℕ → Option (List (CouponPayment W)) → Result (Option W)
  calculate_ytm price rate period maturity nominal today schedule = do
    validate_inputs price rate period maturity nominal today
    elim period [
      | pos p ↦ ytm_of price rate p maturity nominal today schedule
      | negsuc _ ↦ err ytm_error
    ]
