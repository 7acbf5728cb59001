-- ===== src/Yield/Schedule/Dates.antt =====
-- Which dates a schedule has.
use stocktaking.Prelude.{
  ℕ, zero, suc, ◌+◌, ◌-◌, ◌*◌, ◌<◌, ◌≡◌, inl, inr, List, [], ◌∷◌, arith, Bool-cases, ltb, leb, ◌&&◌,
}
use stocktaking.Prelude.Outcome.{>>=-eq-ok, ok}
use stocktaking.Yield.Dates.{minus_days, min_coupon_date}
use stocktaking.Yield.Schedule.{grid_loop, payment_dates}
use stocktaking.Yield.Schedule.Ladder.{ladder, IsRising, ladder-IsRising, StopsAt}

module _ (p first m : ℕ) where
  grid_loop-StopsAt :
      (rounds k current : ℕ) {out : List ℕ}
      → current + suc k * p ≡ m
      → first < current + p
      → grid_loop rounds p first current (ladder m p k) ≡ ok out
      → StopsAt m p first min_coupon_date out
  unfolding grid_loop minus_days
  grid_loop-StopsAt zero k current e a h = cc
  grid_loop-StopsAt (suc rounds) k current e a h =
      elim (Bool-cases (ltb first current && leb min_coupon_date current)) [
        | inl on ↦
            grid_loop-StopsAt rounds (suc k) (current - p) (ground (arith, e)) (ground (arith, on))
              (ground (arith, on, h, e))
        | inr off ↦ record {
          steps = k;
          next = current;
          dates_lem = ground (arith, off, h);
          next_lem = e;
          above = a;
          stopped = ground (arith, off);
        }
      ]

  -- With as many rounds as the ordinal of the date the loop ends, if a step cannot pass the calendar.
  pub grid_loop_total :
      (rounds current : ℕ) (grid : List ℕ)
      → 0 < p
      → p < min_coupon_date
      → current < rounds
      → (out : List ℕ) × (grid_loop rounds p first current grid ≡ ok out)
  unfolding grid_loop minus_days
  grid_loop_total zero current grid h q r = absurd (omega arith)
  grid_loop_total (suc rounds) current grid h q r =
      elim (Bool-cases (ltb first current && leb min_coupon_date current)) [
        | inl on ↦
            let (out, e) =
              grid_loop_total rounds (current - p) (current ∷ grid) h q (ground (arith, on)) in
            (out, ground (arith, e, on))
        | inr off ↦ (grid, ground (arith, off))
      ]

pub minus_days-ok : (d p r : ℕ) → minus_days d p ≡ ok r → (p < d) × (r ≡ d - p)
unfolding minus_days
minus_days-ok d p r e = ground arith

pub minus_days_lem : (d p : ℕ) → p < d → minus_days d p ≡ ok (d - p)
unfolding minus_days
minus_days_lem d p h = ground arith

-- The dates of a schedule: the first coupon date, then the maturity date and every date a whole
-- number of periods before it, down to the first coupon date or to 1900.
pub record CouponDates (p m first : ℕ) (dates : List ℕ) : Type 0 where
  pub grid : List ℕ
  pub begins : dates ≡ first ∷ grid
  pub rises : IsRising first grid
  pub stops : StopsAt m p first min_coupon_date grid

pub payment_dates-CouponDates :
    (p first m : ℕ) (dates : List ℕ)
    → 0 < p
    → first < m
    → payment_dates p first m ≡ ok dates
    → CouponDates p m first dates
unfolding payment_dates
payment_dates-CouponDates p first m dates h r e =
    let (current, e1, rest) = >>=-eq-ok (minus_days m p) _ e in
    let (grid, e2, e3) = >>=-eq-ok (grid_loop m p first current (m ∷ [])) _ rest in
    let (low, is_current) = minus_days-ok m p current e1 in
    let stops = grid_loop-StopsAt p first m m 0 current (omega arith) (omega arith) e2 in
    record {
      grid = grid;
      begins = ground arith;
      rises = rw stops.dates_lem (
          ladder-IsRising m p stops.steps first h (omega (arith, stops.next_lem))
            (omega (arith, stops.next_lem, stops.above)));
      stops = stops;
    }
