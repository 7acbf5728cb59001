-- ===== src/Analytics/Grid/Dates.antt =====
-- `_future_coupon_dates` of src/bond_accounting/analytics/service.py against `_future_payment_dates`
-- of yield_calc/ytm.py, which it mirrors.
use mathlib.Core.List.{append_assoc, append-nil}
use stocktaking.Prelude.{
  ℕ, zero, suc, ◌-◌, ◌<◌, ◌≡◌, refl, sym, ◌∙◌, ap, inl, inr, Bool-cases, List, [], ◌∷◌, ◌++◌, ltb,
  arith,
}
use stocktaking.Prelude.Outcome.{ok, err, ◌>>=◌}
use stocktaking.Yield.Dates.{Result, minus_days}
use stocktaking.Yield.Ytm.{future_loop, future_payment_dates}
use stocktaking.Analytics.Grid.{coupon_loop, future_coupon_dates}

-- The dates that a loop finds, in front of others.
abbrev before : List ℕ → Result (List ℕ) → Result (List ℕ)
before ds found = found >>= λ earlier. ok (earlier ++ ds)

before-before :
    (d : ℕ) (ds : List ℕ) (found : Result (List ℕ))
    → before ds (before (d ∷ []) found) ≡ before (d ∷ ds) found
before-before d ds (ok xs) = ap ok (append_assoc xs (d ∷ []) ds)
before-before d ds (err e) = refl

before-nil : (found : Result (List ℕ)) → before [] found ≡ found
before-nil (ok xs) = ap ok (append-nil xs)
before-nil (err e) = refl

future_loop-coupon_loop :
    (rounds p today current : ℕ) (ds : List ℕ)
    → future_loop rounds p today current ds ≡ before ds (coupon_loop rounds p today current)
unfolding future_loop coupon_loop minus_days
future_loop-coupon_loop zero p today current ds = refl
future_loop-coupon_loop (suc rounds) p today current ds = elim (Bool-cases (ltb today current)) [
  | inl on ↦ elim (Bool-cases (ltb p current)) [
    | inl fits ↦ ground (
      arith,
      on,
      fits,
      future_loop-coupon_loop rounds p today (current - p) (current ∷ ds),
      before-before current ds (coupon_loop rounds p today (current - p)),
    )
    | inr past ↦ ground (arith, on, past)
  ]
  | inr off ↦ ground (arith, off)
]

-- For a bond with coupons, the dates are those of `_future_payment_dates`, and so are the
-- exceptions.
pub future_coupon_dates-future_payment_dates :
    (maturity period today : ℕ)
    → 0 < period
    → future_coupon_dates maturity period today ≡ future_payment_dates maturity period today
unfolding future_coupon_dates future_payment_dates
future_coupon_dates-future_payment_dates maturity zero today h = absurd (omega arith)
future_coupon_dates-future_payment_dates maturity (suc p) today h = sym (
    future_loop-coupon_loop (suc maturity) (suc p) today maturity []
    ∙ before-nil (coupon_loop (suc maturity) (suc p) today maturity))
