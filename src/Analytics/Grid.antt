-- ===== src/Analytics/Grid.antt =====
-- The coupon dates of src/bond_accounting/analytics/service.py.
pub mod Dates
pub mod Last
use stocktaking.Prelude.{
  ℕ, zero, suc, ◌+◌, Option, none, some, List, [], ◌∷◌, ◌++◌, ltb, leb, ◌==◌, true, false,
  if◌then◌else◌,
}
use stocktaking.Prelude.Outcome.{ok, err, ◌>>=◌}
use stocktaking.Yield.Dates.{Result, overflow_error, out_of_rounds, minus_days, min_coupon_date}

-- `date.max`
abbrev pub last_day : ℕ
last_day = 3_652_059

-- `d + timedelta(days=n)`
unfoldable pub plus_days : ℕ → ℕ → Result ℕ
plus_days d n = if leb (d + n) last_day then ok (d + n) else err overflow_error

-- The `while` loop: what it appends, in reverse.
unfoldable pub coupon_loop : ℕ → ℕ → ℕ → ℕ → Result (List ℕ)
unfolding minus_days
coupon_loop zero period today current = err out_of_rounds
coupon_loop (suc rounds) period today current = elim (ltb today current) [
  | true ↦ do
    previous ← minus_days current period
    earlier ← coupon_loop rounds period today previous
    ok (earlier ++ current ∷ [])
  | false ↦ ok []
]

-- `_future_coupon_dates`; each round goes back by a day or more.
unfoldable pub future_coupon_dates : ℕ → ℕ → ℕ → Result (List ℕ)
unfolding coupon_loop
future_coupon_dates maturity zero today = ok []
future_coupon_dates maturity (suc p) today = coupon_loop (suc maturity) (suc p) today maturity

unfoldable pub last_loop : ℕ → ℕ → ℕ → ℕ → Result (Option ℕ)
unfolding minus_days
last_loop zero period today current = err out_of_rounds
last_loop (suc rounds) period today current = elim (leb today current) [
  | true ↦ minus_days current period >>= λ previous. elim (ltb previous min_coupon_date) [
    | true ↦ ok none
    | false ↦ last_loop rounds period today previous
  ]
  | false ↦ ok (some current)
]

-- `_last_coupon_date`
unfoldable pub last_coupon_date : ℕ → ℕ → ℕ → Result (Option ℕ)
unfolding last_loop
last_coupon_date maturity zero today = ok none
last_coupon_date maturity (suc p) today = last_loop (suc maturity) (suc p) today maturity
