-- ===== src/Yield/Dates.antt =====
-- `datetime.date` as its ordinal, and the exceptions of the yield module.
use stocktaking.Prelude.{ℕ, ◌-◌, ltb, if◌then◌else◌}
use stocktaking.Prelude.Outcome.{Outcome, ok, err}

-- `out_of_rounds` is not an exception: it marks a loop that was given too few rounds.
pub data Error : Type 0 where
  value_error overflow_error zero_division ytm_error out_of_rounds : Error

abbrev pub Result : Type 0 → Type 0
Result = Outcome Error

-- `timedelta(days=p)` has a bound of its own.
unfoldable pub timedelta : ℕ → Result ℕ
timedelta p = if ltb 999_999_999 p then err overflow_error else ok p

-- `d - timedelta(days=p)`; the first date has the ordinal 1
unfoldable pub minus_days : ℕ → ℕ → Result ℕ
minus_days d p = if ltb p d then ok (d - p) else err overflow_error

abbrev pub days_per_year : ℕ
days_per_year = 365

-- `date(1900, 1, 1)`
abbrev pub min_coupon_date : ℕ
min_coupon_date = 693_596
