-- ===== src/Examples/AnalyticsRuns.antt =====
-- Runs of the analytics service, with whole numbers for floats.
use stocktaking.Prelude.{ℕ, ap, ◌≡◌, refl, none, some, Option, List, [], ◌∷◌, All, length, arith}
use stocktaking.Prelude.Int.{ℤ, pos, ◌+ℤ◌, ◌-ℤ◌}
use stocktaking.Prelude.Outcome.{ok, err}
use stocktaking.Portfolio.Transaction.{buy}
use stocktaking.Yield.Dates.{overflow_error, minus_days}
use stocktaking.Yield.Schedule.{coupon_per_period as yearly_share, CouponPayment}
use stocktaking.Registry.Rows.{Bond, BondCoupon, Tables}
use stocktaking.Analytics.Dto.{
  PortfolioSummary, PositionAnalytics, Cashflow, CouponDue, coupon, maturity,
  next_coupons_horizon_days_default, next_coupons_limit_default,
}
use stocktaking.Analytics.Grid.{
  plus_days, future_coupon_dates, coupon_loop, last_loop, last_coupon_date,
}
use stocktaking.Analytics.Grid.Last.{IsLastBefore, last_coupon_date_lem}
use stocktaking.Analytics.Flows.{
  dates_left, future_bond_cashflows, coupon_due, coupon_flow, coupon_per_period, maturity_flow,
  principal_on_its_own, stored_payment, bond_position_cashflows,
}
use stocktaking.Analytics.Flows.Principal.{finals, IsMarked, bond_position_cashflows-finals}
use stocktaking.Analytics.Sections.{
  due_of, name_in, cashflows_from_summary, next_coupons_from_summary,
}
use stocktaking.Analytics.Summary.{
  add_bond, add_group, add_groups, add_position, add_results, invested_from, load_summary_inputs,
  no_totals, summary_of, compute_summary,
}
use stocktaking.Analytics.Summary.Derived.{compute_summary-next_coupons}
use stocktaking.Analytics.Service.{
  cached_or_fresh, store, compute, check_query, cut, Query, Moment, full_summary,
  get_portfolio_summary, cached,
}
use stocktaking.Analytics.Service.Sections.{IsAnswer, get_portfolio_summary-IsAnswer}
use stocktaking.Analytics.Service.Freshness.{
  hold, store_held, load_next, conclude, compute_at, Process, passes, begins, reads, computes,
  stores, happen, opened, happened,
}
use stocktaking.Analytics.Service.Freshness.Sources.{IsSourced, Reachable-cached}
use stocktaking.Sort.{sort_by, insert}
use stocktaking.Portfolio.Queries.{group_from, add_to_group}
use stocktaking.Portfolio.Netting.{net_position, netting, step, bought, realized_pnl, start, walk}
use stocktaking.Analytics.Positions.{build_position_analytics, accrued_of, priced, yields_of}
use stocktaking.Yield.Ytm.{calculate_ytm, validate_inputs, price_in_bounds}
use stocktaking.Yield.Accrued.{calculate_accrued_coupon, accrued_since}
use stocktaking.Examples.Whole.{sort, insert_sorted, whole, memory, row}

abbrev note : Bond ℤ
note = record {
  id = 3;
  owner_id = 7;
  isin = "RU0000000003";
  name = "note";
  nominal = 1000;
  coupon_rate = pos 10;
  coupon_period_days = 365;
  maturity_date = 741_070;
  issuer = none;
}

abbrev holdings : Tables ℤ
holdings = record {
  users = 7 ∷ [];
  brokers = [];
  accounts = [];
  bonds = note ∷ [];
  coupons = [];
  transactions = row 1 buy 10 5 740_000 ∷ [];
  operations = [];
}

abbrev nothing_held : Tables ℤ
nothing_held = record {
  users = 7 ∷ [];
  brokers = [];
  accounts = [];
  bonds = [];
  coupons = [];
  transactions = [];
  operations = [];
}

abbrev position : PositionAnalytics ℤ
position = record {
  bond_id = 3;
  isin = "RU0000000003";
  name = "note";
  quantity = pos 10;
  avg_buy_price = pos 5;
  total_invested = pos 50;
  ytm = none;
  current_yield = none;
  accrued_coupon = pos 90;
  next_coupon_date = some 740_705;
  maturity_date = 741_070;
}

abbrev flow : ℕ → Cashflow ℤ
flow d = record { date = d; bond_id = 3; isin = "RU0000000003"; kind = coupon; amount = pos 1000 }

abbrev due : ℕ → CouponDue ℤ
due d = record { bond_id = 3; isin = "RU0000000003"; name = "note"; date = d; amount = pos 1000 }

abbrev principal : Cashflow ℤ
principal = record {
  date = 741_070;
  bond_id = 3;
  isin = "RU0000000003";
  kind = maturity;
  amount = pos 10_000;
}

abbrev summary : PortfolioSummary ℤ
summary = record {
  user_id = 7;
  generated_at = 1;
  positions = position ∷ [];
  total_invested = pos 50;
  next_coupons = due 740_705 ∷ due 741_070 ∷ [];
  realized_pnl = record { sells = pos 0; maturities = pos 0; commissions = pos 0; total = pos 0 };
  upcoming_cashflows = flow 740_705 ∷ flow 741_070 ∷ principal ∷ [];
}

computed : compute_summary memory holdings 1 7 740_670 none ≡ ok summary
unfolding compute_summary plus_days sort_by group_from sort net_position netting step ◌+ℤ◌
    build_position_analytics dates_left future_coupon_dates calculate_ytm validate_inputs
    price_in_bounds last_coupon_date calculate_accrued_coupon future_bond_cashflows coupon_due
    coupon_flow coupon_per_period maturity_flow principal_on_its_own stored_payment coupon_loop
    last_loop accrued_of priced yields_of insert add_bond add_group add_groups add_position
    add_results invested_from load_summary_inputs no_totals summary_of insert_sorted bought
    realized_pnl start walk add_to_group ◌-ℤ◌ accrued_since minus_days yearly_share
    bond_position_cashflows
computed = refl

compute_summary-next_coupons_example :
    next_coupons_from_summary summary 740_670 next_coupons_horizon_days_default
      next_coupons_limit_default
    ≡ ok (due 740_705 ∷ due 741_070 ∷ [])
compute_summary-next_coupons_example =
    compute_summary-next_coupons memory holdings 1 7 740_670 none summary computed

abbrev moment : Moment ℤ
moment = record { engine = memory; tables = holdings; day = 740_670; now = 1 }

-- one coupon in the first 100 days
abbrev short_query : Query
short_query = record {
  today = none;
  horizon_days = pos 100;
  limit = pos 5;
  cashflows_horizon_days = pos 7300;
  cashflows_limit = pos 2;
  broker_account_id = none;
}

abbrev answer : PortfolioSummary ℤ
answer = record summary {
  next_coupons = due 740_705 ∷ [];
  upcoming_cashflows = flow 740_705 ∷ flow 741_070 ∷ [];
}

answered : (get_portfolio_summary moment 7 short_query []).0 ≡ ok answer
unfolding get_portfolio_summary full_summary cached_or_fresh compute cached check_query cut
    next_coupons_from_summary cashflows_from_summary plus_days sort_by insert due_of name_in
answered = rw computed refl

get_portfolio_summary-IsAnswer_example :
    (full : PortfolioSummary ℤ) × ((full_summary moment 7 none none []).0 ≡ ok full)
    × IsAnswer short_query 740_670 full answer
get_portfolio_summary-IsAnswer_example =
    get_portfolio_summary-IsAnswer moment 7 short_query [] answer answered

abbrev at_start : Process ℤ
at_start = record { moment = moment; cache = []; readers = []; held = [] }

abbrev begun : Process ℤ
begun = happen (begins 7) at_start

abbrev loaded : Process ℤ
loaded = happen (reads 0) (happen (reads 0) (happen (reads 0) begun))

abbrev computed_state : Process ℤ
computed_state = happen (computes 0) loaded

abbrev filled : Process ℤ
filled = happen (stores 0) computed_state

abbrev holding : Process ℤ
holding = record { moment = moment; cache = []; readers = []; held = (7, summary) ∷ [] }

computed_state_lem : computed_state ≡ holding
unfolding happen compute_at conclude load_next hold compute_summary load_summary_inputs
computed_state_lem = ap (λ o. hold 0 7 o loaded) computed

filled-cached : cached 7 filled.cache ≡ some summary
unfolding happen store_held store cached
filled-cached = ap (λ p. cached 7 (happen (stores 0) p).cache) computed_state_lem

abbrev seen : List (Moment ℤ)
seen =
    filled.moment
    ∷ computed_state.moment
    ∷ loaded.moment
    ∷ (happen (reads 0) (happen (reads 0) begun)).moment
    ∷ (happen (reads 0) begun).moment
    ∷ begun.moment
    ∷ moment
    ∷ []

Reachable-cached_example : IsSourced seen (7, summary)
Reachable-cached_example =
    Reachable-cached moment seen filled 7 summary
      (happened (stores 0) (
        happened (computes 0) (
          happened (reads 0)
            (happened (reads 0) (happened (reads 0) (happened (begins 7) opened))))))
      filled-cached

-- A reader computes; the bond is sold out of the tables; the handler computes and stores; the reader
-- stores. The cache then has what was so before the change.
abbrev handled : Process ℤ → Process ℤ
handled p = happen (stores 0) (
    happen (computes 0)
      (happen (reads 0) (happen (reads 0) (happen (reads 0) (happen (begins 7) p)))))

abbrev raced : Process ℤ
raced = happen (stores 0) (handled (happen (passes nothing_held 740_670 2) computed_state))

stale_summary_stays : cached 7 raced.cache ≡ some summary
unfolding happen compute_at conclude load_next hold store_held store cached plus_days sort_by insert
    group_from add_groups summary_of no_totals invested_from sort
stale_summary_stays =
    ap
      (λ p. cached 7 (happen (stores 0) (handled (happen (passes nothing_held 740_670 2) p))).cache)
      computed_state_lem

abbrev stored : ℕ → ℤ → BondCoupon ℤ
stored d a = record { id = d; bond_id = 3; coupon_date = d; coupon_amount = a }

-- the principal on its own, since no row is on the maturity date
bond_position_cashflows-finals_example :
    (payments : List (CouponPayment ℤ)) × (bond_position_cashflows
        (stored 740_700 (pos 100) ∷ [])
        note
      ≡ some payments)
    × (length (finals payments) ≡ 1)
    × All (IsMarked note) payments
bond_position_cashflows-finals_example =
    bond_position_cashflows-finals (stored 740_700 (pos 100)) [] note (omega arith)

last_coupon_date_lem_example :
    (found : Option ℕ) × (last_coupon_date 741_070 365 740_670 ≡ ok found)
    × IsLastBefore 741_070 365 740_670 found
last_coupon_date_lem_example =
    last_coupon_date_lem 741_070 365 740_670 (omega arith) (omega arith) (omega arith)

-- A period of more than 2000 years: `timedelta` goes below the first day of the calendar.
long_period : last_coupon_date 741_070 800_000 740_670 ≡ err overflow_error
unfolding last_coupon_date last_loop minus_days
long_period = refl
