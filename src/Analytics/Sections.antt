-- ===== src/Analytics/Sections.antt =====
-- The sections of a summary that a query cuts to size (src/bond_accounting/analytics/service.py).
pub mod Cut
use Prim.Native.String.{String}
use stocktaking.Prelude.{
  ℕ, Bool, ◌&&◌, Option, none, some, List, [], ◌∷◌, map, keep_if, leb, ◌==◌, if◌then◌else◌,
}
use stocktaking.Prelude.Outcome.{ok, ◌>>=◌}
use stocktaking.Yield.Dates.{Result}
use stocktaking.Analytics.Dto.{CouponDue, Cashflow, PositionAnalytics, PortfolioSummary, is_coupon}
use stocktaking.Sort.{sort_by, first}
use stocktaking.Analytics.Grid.{plus_days}

module _ {W : Type 0} where
  -- `names.get(bond_id, isin)`: the last position of the bond counts.
  unfoldable pub name_in : List (PositionAnalytics W) → ℕ → String → String
  name_in [] i isin = isin
  name_in (p ∷ ps) i isin = name_in ps i (if p.bond_id == i then p.name else isin)

  unfoldable pub due_of : List (PositionAnalytics W) → Cashflow W → CouponDue W
  due_of positions flow = record {
    bond_id = flow.bond_id;
    isin = flow.isin;
    name = name_in positions flow.bond_id flow.isin;
    date = flow.date;
    amount = flow.amount;
  }

  abbrev pub due_key : CouponDue W → ℕ × ℕ
  due_key due = (due.date, due.bond_id)

  abbrev pub flow_key : Cashflow W → ℕ × ℕ
  flow_key flow = (flow.date, flow.bond_id)

  abbrev pub flows_within : ℕ → List (Cashflow W) → List (Cashflow W)
  flows_within horizon_end flows = keep_if (λ (f : Cashflow W). leb f.date horizon_end) flows

  abbrev pub coupons_within :
      ℕ → List (PositionAnalytics W) → List (Cashflow W) → List (CouponDue W)
  coupons_within horizon_end positions flows =
      map (due_of positions)
        (keep_if (λ (f : Cashflow W). is_coupon f.kind && leb f.date horizon_end) flows)

  -- `_next_coupons_from_summary`
  unfoldable pub next_coupons_from_summary :
      PortfolioSummary W → ℕ → ℕ → ℕ → Result (List (CouponDue W))
  unfolding due_of
  next_coupons_from_summary summary base horizon_days limit = do
    horizon_end ← plus_days base horizon_days
    ok (
        first limit (
          sort_by due_key
            (coupons_within horizon_end summary.positions summary.upcoming_cashflows)))

  -- `_cashflows_from_summary`
  unfoldable pub cashflows_from_summary :
      PortfolioSummary W → ℕ → ℕ → ℕ → Result (List (Cashflow W))
  cashflows_from_summary summary base horizon_days limit = do
    horizon_end ← plus_days base horizon_days
    ok (first limit (sort_by flow_key (flows_within horizon_end summary.upcoming_cashflows)))
