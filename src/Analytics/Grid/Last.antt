-- ===== src/Analytics/Grid/Last.antt =====
-- `_last_coupon_date` of src/bond_accounting/analytics/service.py.
use stocktaking.Prelude.{
  ℕ, zero, suc, ◌+◌, ◌-◌, ◌*◌, ◌≤◌, ◌<◌, ◌≡◌, refl, ◌⊎◌, inl, inr, Bool-cases, Option, none, some,
  ltb, leb, arith,
}
use stocktaking.Prelude.Outcome.{ok}
use stocktaking.Yield.Dates.{minus_days, min_coupon_date}
use stocktaking.Analytics.Grid.{last_loop, last_coupon_date}

-- d is the last date before today that lies a whole number of periods before maturity; there is none
-- from 1900 on if the first one before today lies before 1900.
abbrev pub IsLastBefore : ℕ → ℕ → ℕ → Option ℕ → Type 0
IsLastBefore maturity period today (some d) =
    (k : ℕ) × (d + k * period ≡ maturity) × (d < today) × ((k ≡ 0) ⊎ (today ≤ d + period))
IsLastBefore maturity period today none =
    (k : ℕ) × (d : ℕ) × (d + k * period ≡ maturity) × (d < min_coupon_date) × (today ≤ d + period)

module _ (m p today : ℕ) (moves : 0 < p) (bound : p < min_coupon_date) where
  last_loop-total :
      (rounds k current : ℕ)
      → current < rounds
      → current + k * p ≡ m
      → min_coupon_date ≤ current
      → (k ≡ 0) ⊎ (today ≤ current + p)
      → (found : Option ℕ) × (last_loop rounds p today current ≡ ok found)
        × IsLastBefore m p today found
  unfolding last_loop minus_days
  last_loop-total zero k current r e f g = absurd (omega arith)
  last_loop-total (suc rounds) k current r e f g = elim (Bool-cases (leb today current)) [
    | inl on ↦ elim (Bool-cases (ltb (current - p) min_coupon_date)) [
      | inl old ↦ (
        none,
        ground (arith, on, old),
        (suc k, current - p, ground (arith, e), ground (arith, old), ground (arith, on)),
      )
      | inr new ↦
          let (found, q, s) =
            last_loop-total rounds (suc k) (current - p) (ground arith) (ground (arith, e))
              (ground (arith, new)) (inr (ground (arith, on))) in
          (found, ground (arith, q, on, new), s)
    ]
    | inr off ↦ (some current, ground (arith, off), (k, e, ground (arith, off), g))
  ]

-- For a bond with coupons that matures in 1900 or later, with a period of one day or more and below
-- 1900 years, the loop stops; the
-- date that it returns lies before today and a whole number of periods before maturity, with no
-- such date in between or the maturity date itself; it returns none only if the last such date
-- lies before 1900.
pub last_coupon_date_lem :
    (m p today : ℕ)
    → 0 < p
    → p < min_coupon_date
    → min_coupon_date ≤ m
    → (found : Option ℕ) × (last_coupon_date m p today ≡ ok found) × IsLastBefore m p today found
unfolding last_coupon_date
last_coupon_date_lem m zero today moves bound f = absurd (omega arith)
last_coupon_date_lem m (suc p) today moves bound f =
    last_loop-total m (suc p) today moves bound (suc m) 0 m (omega arith) (omega arith) f (inl refl)
