-- ===== src/Analytics/Summary.antt =====
-- `_load_summary_inputs` and `_compute_summary` of src/bond_accounting/analytics/service.py.
pub mod Names
pub mod Owned
pub mod Groups
pub mod Derived
use stocktaking.Prelude.{
  ℕ, Bool, true, false, Option, none, some, List, [], ◌∷◌, ◌++◌, any, find, keep_if, ◌==◌,
  if◌then◌else◌,
}
use stocktaking.Prelude.Int.{ℤ, pos, ltb_ℤ}
use stocktaking.Prelude.Outcome.{ok, ◌>>=◌}
use stocktaking.Floats.{FloatOps, ◌⊕◌, ◌⊖◌}
use stocktaking.Portfolio.Transaction.{Transaction}
use stocktaking.Portfolio.Store.{Engine}
use stocktaking.Portfolio.Queries.{selects, group_from}
use stocktaking.Portfolio.Netting.{net_position, realized_pnl}
use stocktaking.Yield.Dates.{Result}
use stocktaking.Registry.Rows.{Bond, BondCoupon, Tables}
use stocktaking.Registry.Table.{get}
use stocktaking.Analytics.Dto.{
  CouponDue, Cashflow, PositionAnalytics, PortfolioSummary, next_coupons_horizon_days_default,
  next_coupons_limit_default,
}
use stocktaking.Sort.{sort_by, first}
use stocktaking.Analytics.Grid.{plus_days}
use stocktaking.Analytics.Flows.{bond_position_cashflows, future_bond_cashflows}
use stocktaking.Analytics.Positions.{build_position_analytics}
use stocktaking.Analytics.Sections.{due_key, flow_key}

pub record Inputs (W : Type 0) : Type 0 where
  pub txns : List (Transaction W)
  pub bonds : List (Bond W)
  pub coupons : List (BondCoupon W)

-- The totals and lists that the loop over the bonds builds up.
pub record Totals (W : Type 0) : Type 0 where
  pub sells : W
  pub maturities : W
  pub commissions : W
  pub positions : List (PositionAnalytics W)
  pub next_coupons : List (CouponDue W)
  pub cashflows : List (Cashflow W)

module _ {W : Type 0} where
  -- the three queries of `_load_summary_inputs`; the coupons are read by bond and date
  abbrev pub read_txns : Engine W → Tables W → ℕ → Option ℕ → List (Transaction W)
  read_txns eng t user account = eng.order (keep_if (selects user none account) t.transactions)

  abbrev pub read_bonds : Tables W → List (Transaction W) → List (Bond W)
  read_bonds t txns =
      keep_if (λ (b : Bond W). any (λ (x : Transaction W). x.bond_id == b.id) txns) t.bonds

  abbrev pub read_coupons : Tables W → List (Bond W) → List (BondCoupon W)
  read_coupons t bonds =
      sort_by (λ (c : BondCoupon W). (c.bond_id, c.coupon_date))
        (keep_if (λ (c : BondCoupon W). any (λ (b : Bond W). b.id == c.bond_id) bonds) t.coupons)

  -- `_load_summary_inputs`, when the tables do not change between its queries
  unfoldable pub load_summary_inputs : Engine W → Tables W → ℕ → Option ℕ → Inputs W
  load_summary_inputs eng t user account =
      let txns = read_txns eng t user account in
      let bonds = read_bonds t txns in
      record { txns = txns; bonds = bonds; coupons = read_coupons t bonds }

module _ {W : Type 0} ⦃fl : FloatOps W⦄ where
  unfoldable pub no_totals : Totals W
  no_totals = record {
    sells = fl.zero_float;
    maturities = fl.zero_float;
    commissions = fl.zero_float;
    positions = [];
    next_coupons = [];
    cashflows = [];
  }

  unfoldable pub add_results : Totals W → List (Transaction W) → Totals W
  add_results s rows =
      let (sells, maturities, commissions) = realized_pnl rows in
      record s {
        sells = s.sells ⊕ sells;
        maturities = s.maturities ⊕ maturities;
        commissions = s.commissions ⊕ commissions;
      }

  -- an open position
  unfoldable pub add_position :
      Inputs W → ℕ → ℕ → Totals W → Bond W → List (Transaction W) → ℤ → Result (Totals W)
  add_position inputs today horizon_end s bond rows quantity = do
    let stored = keep_if (λ (c : BondCoupon W). c.bond_id == bond.id) inputs.coupons
    position ← build_position_analytics bond rows today (bond_position_cashflows stored bond)
    flows ← future_bond_cashflows bond quantity today horizon_end
    ok (record s {
      positions = s.positions ++ position ∷ [];
      next_coupons = s.next_coupons ++ flows.0;
      cashflows = s.cashflows ++ flows.1;
    })

  -- a bond that exists, if the user holds some of it
  unfoldable pub add_bond :
      Inputs W → ℕ → ℕ → Totals W → Bond W → List (Transaction W) → Result (Totals W)
  unfolding add_position
  add_bond inputs today horizon_end s bond rows =
      let quantity = (net_position rows).0 in
      if ltb_ℤ (pos 0) quantity
      then add_position inputs today horizon_end s bond rows quantity
      else ok s

  -- one round of the loop
  unfoldable pub add_group :
      Inputs W → ℕ → ℕ → Totals W → ℕ × List (Transaction W) → Result (Totals W)
  unfolding add_results add_bond
  add_group inputs today horizon_end s (i, rows) = elim (get (λ b. b.id) i inputs.bonds) [
    | none ↦ ok (add_results s rows)
    | some bond ↦ add_bond inputs today horizon_end (add_results s rows) bond rows
  ]

  unfoldable pub add_groups :
      Inputs W → ℕ → ℕ → Totals W → List (ℕ × List (Transaction W)) → Result (Totals W)
  unfolding add_group
  add_groups inputs today horizon_end s [] = ok s
  add_groups inputs today horizon_end s (g ∷ gs) =
      add_group inputs today horizon_end s g >>= λ next. add_groups inputs today horizon_end next gs

  -- `sum(…, start=0.0)`
  unfoldable pub invested_from : W → List (PositionAnalytics W) → W
  invested_from total [] = total
  invested_from total (p ∷ ps) = invested_from (total ⊕ p.total_invested) ps

  unfoldable pub summary_of : ℕ → ℕ → Totals W → PortfolioSummary W
  unfolding invested_from
  summary_of user now s = record {
    user_id = user;
    generated_at = now;
    positions = s.positions;
    total_invested = invested_from fl.zero_float s.positions;
    next_coupons = first next_coupons_limit_default (sort_by due_key s.next_coupons);
    realized_pnl = record {
      sells = s.sells;
      maturities = s.maturities;
      commissions = s.commissions;
      total = s.sells ⊕ s.maturities ⊖ s.commissions;
    };
    upcoming_cashflows = sort_by flow_key s.cashflows;
  }

  -- `_compute_summary` after its queries, at a time `now` on the clock
  abbrev pub summary_from : Inputs W → ℕ → ℕ → ℕ → Result (PortfolioSummary W)
  summary_from inputs now user today = do
    horizon_end ← plus_days today next_coupons_horizon_days_default
    s ←
        add_groups inputs today horizon_end no_totals
          (sort_by (λ (g : ℕ × List (Transaction W)). (g.0, 0)) (group_from [] inputs.txns))
    ok (summary_of user now s)

  unfoldable pub compute_summary :
      Engine W → Tables W → ℕ → ℕ → ℕ → Option ℕ → Result (PortfolioSummary W)
  unfolding load_summary_inputs no_totals add_groups summary_of
  compute_summary eng t now user today account =
      summary_from (load_summary_inputs eng t user account) now user today
