-- ===== src/Yield/Schedule/Payments.antt =====
-- What `build_coupon_schedule` returns.
use mathlib.Core.Path.{ap, ap₂}
use stocktaking.Prelude.{
  ℕ, zero, suc, ◌-◌, ◌*◌, ◌≤◌, ◌<◌, ◌≡◌, refl, sym, ◌∙◌, Bool, true, false, List, [], ◌∷◌, map,
  arith, keep_if, leb, some, none, Option,
}
use stocktaking.Prelude.Int.{ℤ, pos, leb_ℤ}
use stocktaking.Prelude.Outcome.{ok-injective, >>=-eq-ok, >>-eq-ok, ok, raise_if}
use stocktaking.Floats.{FloatOps, ◌⊕◌}
use stocktaking.Yield.Dates.{value_error, timedelta, min_coupon_date}
use stocktaking.Yield.Schedule.{
  CouponPayment, payment_dates, first_coupon, coupon_per_period, payment_on, build_coupons,
  build_coupon_schedule,
}
use stocktaking.Yield.Schedule.Ladder.{ladder}
use stocktaking.Yield.Schedule.Dates.{
  CouponDates, payment_dates-CouponDates, grid_loop_total, minus_days-ok, minus_days_lem,
}

-- `start_date`, or one period before maturity
abbrev pub first_date : ℕ → ℕ → Option ℕ → ℕ
first_date p m none = m - p
first_date p m (some d) = d

first_coupon-ok :
    (p m : ℕ) (start : Option ℕ) (first : ℕ)
    → first_coupon p m start ≡ ok first
    → first ≡ first_date p m start
unfolding first_coupon
first_coupon-ok p m none first e = (minus_days-ok m p first e).1
first_coupon-ok p m (some d) first e = ground arith

first_coupon_lem :
    (p m : ℕ) (start : Option ℕ) → p < m → first_coupon p m start ≡ ok (first_date p m start)
unfolding first_coupon
first_coupon_lem p m none q = minus_days_lem m p q
first_coupon_lem p m (some d) q = refl

timedelta_lem : (p : ℕ) → p < min_coupon_date → timedelta p ≡ ok p
unfolding timedelta
timedelta_lem p q = ground arith

leb_lt : (m d : ℕ) → d < m → leb m d ≡ false
leb_lt m d h = ground arith

module _ {W : Type 0} ⦃fl : FloatOps W⦄ (rate : W) (p m : ℕ) (nominal : ℤ) (start : Option ℕ) where
  abbrev pay : ℕ → CouponPayment W
  pay = payment_on (coupon_per_period rate p nominal) nominal m

  timedelta-ok : (r : ℕ) → timedelta p ≡ ok r → r ≡ p
  unfolding timedelta
  timedelta-ok r e = ground arith

  -- The parts of a schedule that was built.
  record Built (out : List (CouponPayment W)) : Type 0 where
    dates : List ℕ
    early : first_date p m start < m
    out_lem : out ≡ map pay dates
    shape : CouponDates p m (first_date p m start) dates

  build_coupons-Built :
      (out : List (CouponPayment W))
      → 0 < p
      → build_coupons rate p m nominal start ≡ ok out
      → Built out
  unfolding build_coupons
  build_coupons-Built out h e =
      let (step, e1, r1) = >>=-eq-ok (timedelta p) _ e in
      let is_p = timedelta-ok step e1 in
      let (first, e2, r2) = >>=-eq-ok (first_coupon step m start) _ r1 in
      let (e3, r3) = >>-eq-ok (raise_if (leb m first) value_error) _ r2 in
      let (dates, e4, e5) = >>=-eq-ok (payment_dates step first m) _ r3 in
      let is_first =
        first_coupon-ok p m start first (ap (λ (s : ℕ). first_coupon s m start) (sym is_p) ∙ e2) in
      let early : first_date p m start < m = rw (← is_first) (ground (arith, e3)) in
      let found = ap₂ (λ (s f : ℕ). payment_dates s f m) (sym is_p) (sym is_first) ∙ e4 in
      record {
        dates = dates;
        early = early;
        out_lem = sym (ok-injective e5);
        shape = payment_dates-CouponDates p (first_date p m start) m dates h early found;
      }

  build-Built :
      (out : List (CouponPayment W))
      → 0 < p
      → build_coupon_schedule rate (pos p) m nominal start ≡ ok out
      → Built out
  unfolding build_coupon_schedule
  build-Built out h e = build_coupons-Built out h (ground (arith, e))

  dates-pay : (ds : List ℕ) → map (λ (x : CouponPayment W). x.payment_date) (map pay ds) ≡ ds
  unfolding payment_on
  dates-pay [] = refl
  dates-pay (d ∷ ds) = ap (λ (r : List ℕ). d ∷ r) (dates-pay ds)

  -- A schedule of a bond with coupons, of a period of one day or more, pays first on the first coupon date, which lies before
  -- maturity, and then exactly on the dates a whole number of periods before maturity, in order, down
  -- to the first coupon date or to 1900, the maturity date included.
  pub schedule_dates :
      (out : List (CouponPayment W))
      → 0 < p
      → build_coupon_schedule rate (pos p) m nominal start ≡ ok out
      → (first_date p m start < m)
        × CouponDates p m (first_date p m start) (map (λ (x : CouponPayment W). x.payment_date) out)
  schedule_dates out h e =
      let built = build-Built out h e in (built.early, rw (built.out_lem, dates-pay) built.shape)

  abbrev final : CouponPayment W → Bool
  final x = x.is_final

  next-final :
      (k : ℕ)
      → 0 < p
      → suc k * p < m
      → keep_if final (map pay (ladder m p (suc k))) ≡ keep_if final (map pay (ladder m p k))
  unfolding payment_on
  next-final k h q = ground (arith, h, q)

  ladder-final : (k : ℕ) → 0 < p → k * p < m → keep_if final (map pay (ladder m p k)) ≡ pay m ∷ []
  unfolding payment_on
  ladder-final zero h q = ground arith
  ladder-final (suc k) h q = next-final k h q ∙ ladder-final k h (omega arith)

  first_not_final :
      (ds : List ℕ)
      → first_date p m start < m
      → keep_if final (map pay (first_date p m start ∷ ds)) ≡ keep_if final (map pay ds)
  unfolding payment_on
  first_not_final ds q = ground arith

  pay_last :
      pay m ∷ []
      ≡ record {
        payment_date = m;
        amount = coupon_per_period rate p nominal ⊕ fl.of_int nominal;
        is_final = true;
      }
        ∷ []
  unfolding payment_on
  pay_last = ground arith

  -- Exactly one payment of a schedule of a bond with coupons, of a period of one day or more, is
  -- final: that at maturity, and it repays the nominal beside the
  -- coupon.
  pub schedule_final :
      (out : List (CouponPayment W))
      → 0 < p
      → build_coupon_schedule rate (pos p) m nominal start ≡ ok out
      → keep_if (λ x. x.is_final) out
        ≡ record {
          payment_date = m;
          amount = coupon_per_period rate p nominal ⊕ fl.of_int nominal;
          is_final = true;
        }
          ∷ []
  schedule_final out h e =
      let built = build-Built out h e in
      let stops = built.shape.stops in
      rw (built.out_lem, built.shape.begins, stops.dates_lem)
        (first_not_final (ladder m p stops.steps) built.early
          ∙ ladder-final stops.steps h (omega (arith, stops.next_lem, stops.above))
          ∙ pay_last)

  first_coupon_total : p < m → first_coupon p m start ≡ ok (first_date p m start)
  first_coupon_total q = first_coupon_lem p m start q

  payment_dates_total :
      (first : ℕ)
      → 0 < p
      → p < min_coupon_date
      → min_coupon_date ≤ m
      → (dates : List ℕ) × (payment_dates p first m ≡ ok dates)
  unfolding payment_dates
  payment_dates_total first h q r =
      let (grid, e) = grid_loop_total p first m m (m - p) (m ∷ []) h q (omega arith) in
      (first ∷ grid, rw (minus_days_lem m p (omega arith), e) refl)

  build_coupons_total :
      0 < p
      → p < min_coupon_date
      → min_coupon_date ≤ m
      → first_date p m start < m
      → (out : List (CouponPayment W)) × (build_coupons rate p m nominal start ≡ ok out)
  unfolding build_coupons
  build_coupons_total h q r early =
      let (dates, e) = payment_dates_total (first_date p m start) h q r in
      (
        map pay dates,
        rw
            (
              timedelta_lem p (omega arith),
              first_coupon_total (omega arith),
              leb_lt m (first_date p m start) early,
              e,
            )
            refl,
      )

  -- A schedule is built for every bond with coupons whose rate is not negative, whose nominal is
  -- positive, whose period is one day or more and shorter than the span from the first day of the calendar to 1900, and whose maturity
  -- lies after the first coupon date and not before 1900: no loop runs out and no date passes the
  -- calendar.
  pub schedule_total :
      0 < p
      → p < min_coupon_date
      → min_coupon_date ≤ m
      → first_date p m start < m
      → fl.lt rate fl.zero_float ≡ false
      → leb_ℤ nominal (pos 0) ≡ false
      → (out : List (CouponPayment W)) × (build_coupon_schedule rate (pos p) m nominal start
          ≡ ok out)
  unfolding build_coupon_schedule
  schedule_total h q r early fine positive =
      let (out, e) = build_coupons_total h q r early in (out, ground (arith, e))
