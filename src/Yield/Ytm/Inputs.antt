-- ===== src/Yield/Ytm/Inputs.antt =====
-- When `calculate_ytm` raises, and which payments it discounts.
use stocktaking.Prelude.{
  ℕ, zero, suc, ◌+◌, ◌-◌, ◌*◌, ◌≤◌, ◌<◌, ◌≡◌, ◌≢◌, ◌↔◌, refl, sym, ◌∙◌, ◌⊎◌, inl, inr, true, false,
  ◌&&◌, Option, none, some, List, [], ◌∷◌, arith, Bool-cases, ltb,
}
use stocktaking.Prelude.Int.{ℤ, pos, negsuc, leb_ℤ, ltb_ℤ}
use stocktaking.Prelude.Outcome.{ok-injective, ok, err}
use stocktaking.Floats.{FloatOps}
use stocktaking.Yield.Dates.{days_per_year, ytm_error, minus_days}
use stocktaking.Yield.Schedule.{CouponPayment, coupon_per_period}
use stocktaking.Yield.Schedule.Ladder.{ladder, StopsAt}
use stocktaking.Yield.Ytm.Solvers.{IsSolution, solve-IsSolution}
use stocktaking.Yield.Ytm.{
  mispricing, initial_guess, solve, future_loop, future_payment_dates, price_in_bounds,
  validate_inputs, cash_flows, is_empty, ytm_of, calculate_ytm,
}

module _ (p today m : ℕ) where
  future_loop-dates :
      (rounds k current : ℕ) {out : List ℕ}
      → current + suc k * p ≡ m
      → today < current + p
      → future_loop rounds p today current (ladder m p k) ≡ ok out
      → StopsAt m p today 0 out
  unfolding future_loop minus_days
  future_loop-dates zero k current e a h = cc
  future_loop-dates (suc rounds) k current e a h = elim (Bool-cases (ltb today current)) [
    | inl on ↦
        future_loop-dates rounds (suc k) (current - p) (ground (arith, e, on, h))
          (ground (arith, on, h)) (ground (arith, on, h, e))
    | inr off ↦ record {
      steps = k;
      next = current;
      dates_lem = ground (arith, off, h);
      next_lem = e;
      above = a;
      stopped = ground (arith, off);
    }
  ]

  future_loop_total :
      (rounds current : ℕ) (dates : List ℕ)
      → 0 < p
      → p ≤ today
      → current < rounds
      → (out : List ℕ) × (future_loop rounds p today current dates ≡ ok out)
  unfolding future_loop minus_days
  future_loop_total zero current dates h q r = absurd (omega arith)
  future_loop_total (suc rounds) current dates h q r = elim (Bool-cases (ltb today current)) [
    | inl on ↦
        let (out, e) =
          future_loop_total rounds (current - p) (current ∷ dates) h q (ground (arith, on)) in
        (out, ground (arith, e, on))
    | inr off ↦ (dates, ground (arith, off))
  ]

future_loop-first :
    (p today m : ℕ)
    → today < m
    → p < m
    → future_loop (suc m) p today m [] ≡ future_loop m p today (m - p) (m ∷ [])
unfolding future_loop minus_days
future_loop-first p today m h q = ground arith

-- For a bond that matures after today and a period of one day or more that is no longer than the
-- calendar up to today, the
-- coupon dates are found, and they are exactly the dates after today that lie a whole number of
-- periods before maturity, in order, the maturity date included.
pub future_payment_dates_lem :
    (p today m : ℕ)
    → 0 < p
    → p ≤ today
    → today < m
    → (out : List ℕ) × (future_payment_dates m p today ≡ ok out) × StopsAt m p today 0 out
unfolding future_payment_dates
future_payment_dates_lem p today m h q r =
    let (out, e) = future_loop_total p today m (suc m) m [] h q (omega arith) in
    (
      out,
      e,
      future_loop-dates p today m m 0 (m - p) (omega arith) (omega arith)
          (sym (future_loop-first p today m r (omega arith)) ∙ e),
    )

future_loop-not_error :
    (rounds p today current : ℕ) (dates : List ℕ)
    → future_loop rounds p today current dates ≢ err ytm_error
unfolding future_loop minus_days
future_loop-not_error zero p today current dates e = cc
future_loop-not_error (suc rounds) p today current dates e =
    ground (arith, future_loop-not_error rounds p today (current - p) (current ∷ dates))

dates-not_error : (p today m : ℕ) → future_payment_dates m p today ≢ err ytm_error
unfolding future_payment_dates
dates-not_error p today m = future_loop-not_error (suc m) p today m []

module _ {W : Type 0} ⦃fl : FloatOps W⦄ (price rate : W) (m today : ℕ) (nominal : ℤ) where
  -- The conditions that the source lists for its own error.
  abbrev pub IsInvalid : ℤ → Type 0
  IsInvalid period =
      (ltb_ℤ period (pos 0) ≡ true)
      ⊎ (fl.lt rate fl.zero_float ≡ true)
      ⊎ (leb_ℤ nominal (pos 0) ≡ true)
      ⊎ (price_in_bounds price nominal ≡ false)
      ⊎ (m ≤ today)

  flows-not_error :
      (p : ℕ) (coupon : W) (schedule : Option (List (CouponPayment W)))
      → cash_flows m p today coupon nominal schedule ≢ err ytm_error
  unfolding cash_flows
  flows-not_error p coupon none e = ground (arith, dates-not_error p today m)
  flows-not_error p coupon (some payments) e = cc

  ytm_of-not_error :
      (p : ℕ) (schedule : Option (List (CouponPayment W)))
      → ytm_of price rate p m nominal today schedule ≢ err ytm_error
  unfolding ytm_of
  ytm_of-not_error p schedule e =
      ground (arith, flows-not_error p (coupon_per_period rate p nominal) schedule)

  validate-cases :
      (p : ℕ)
      → ((validate_inputs price rate (pos p) m nominal today ≡ err ytm_error) × IsInvalid (pos p))
        ⊎ ((validate_inputs price rate (pos p) m nominal today ≡ ok tt) × ¬ IsInvalid (pos p))
  unfolding validate_inputs
  validate-cases p = ground arith

  calculate_ytm-invalid :
      (period : ℤ) (schedule : Option (List (CouponPayment W)))
      → validate_inputs price rate period m nominal today ≡ err ytm_error
      → calculate_ytm price rate period m nominal today schedule ≡ err ytm_error
  unfolding calculate_ytm
  calculate_ytm-invalid period schedule e = rw e refl

  calculate_ytm-valid :
      (p : ℕ) (schedule : Option (List (CouponPayment W)))
      → validate_inputs price rate (pos p) m nominal today ≡ ok tt
      → calculate_ytm price rate (pos p) m nominal today schedule
        ≡ ytm_of price rate p m nominal today schedule
  unfolding calculate_ytm
  calculate_ytm-valid p schedule e = rw e refl

  -- `YtmCalculationError` is raised exactly for the inputs that are listed: a negative period, a
  -- negative rate, a nominal that is not positive, a price out of bounds, or a maturity that is not
  -- after the valuation date.
  pub calculate_ytm-error_iff :
      (period : ℤ) (schedule : Option (List (CouponPayment W)))
      → (calculate_ytm price rate period m nominal today schedule ≡ err ytm_error)
        ↔ IsInvalid period
  calculate_ytm-error_iff (negsuc n) schedule = (
    (λ _. inl (ground arith)),
    (λ _. calculate_ytm-invalid (negsuc n) schedule (unfold validate_inputs in refl)),
  )
  calculate_ytm-error_iff (pos p) schedule = elim (validate-cases p) [
    | inl (e, bad) ↦ ((λ _. bad), (λ _. calculate_ytm-invalid (pos p) schedule e))
    | inr (e, good) ↦ (
      (λ h. absurd (ytm_of-not_error p schedule (sym (calculate_ytm-valid p schedule e) ∙ h))),
      (λ bad. absurd (good bad)),
    )
  ]

  ytm_of-coupons :
      (p : ℕ) (schedule : Option (List (CouponPayment W))) (flows : List (ℕ × W))
      → 0 < p
      → (fl.eq rate fl.zero_float && is_empty schedule) ≡ false
      → cash_flows m p today (coupon_per_period rate p nominal) nominal schedule ≡ ok flows
      → ytm_of price rate p m nominal today schedule
        ≡ ok (
            solve
              (mispricing price flows (fl.ratio (pos days_per_year) (pos p)))
              (initial_guess price rate nominal (m - today))
              flows
              (fl.ratio (pos days_per_year) (pos p)))
  unfolding ytm_of
  ytm_of-coupons p schedule flows h q e = ground arith

  -- For a valid bond with coupons, whether from a given schedule or from its period, a returned rate
  -- solves the pricing equation of its cash flows: the present value is within the tolerance of the
  -- price, or the rate is a result of bisection.
  pub calculate_ytm-IsSolution :
      (p : ℕ) (schedule : Option (List (CouponPayment W))) (flows : List (ℕ × W)) (r : W)
      → 0 < p
      → ¬ IsInvalid (pos p)
      → (fl.eq rate fl.zero_float && is_empty schedule) ≡ false
      → cash_flows m p today (coupon_per_period rate p nominal) nominal schedule ≡ ok flows
      → calculate_ytm price rate (pos p) m nominal today schedule ≡ ok (some r)
      → IsSolution (mispricing price flows (fl.ratio (pos days_per_year) (pos p))) r
  calculate_ytm-IsSolution p schedule flows r h valid q e found = elim (validate-cases p) [
    | inl (_, bad) ↦ absurd (valid bad)
    | inr (v, _) ↦
        solve-IsSolution (mispricing price flows (fl.ratio (pos days_per_year) (pos p)))
          (initial_guess price rate nominal (m - today)) r flows
          (fl.ratio (pos days_per_year) (pos p))
          (ok-injective (
            sym (ytm_of-coupons p schedule flows h q e)
            ∙ sym (calculate_ytm-valid p schedule v)
            ∙ found))
  ]
