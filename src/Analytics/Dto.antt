-- ===== src/Analytics/Dto.antt =====
-- src/bond_accounting/analytics/dto.py
use Prim.Native.String.{String}
use stocktaking.Prelude.{ℕ, Bool, true, false, Option, List}
use stocktaking.Prelude.Int.{ℤ}

-- `next_coupons`: 1 to 3650 days and 1 to 1000 events; `upcoming_cashflows`: 1 to 7300 days and 1 to
-- 5000 events
abbrev pub next_coupons_horizon_days_max : ℕ
next_coupons_horizon_days_max = 3650

abbrev pub next_coupons_horizon_days_default : ℕ
next_coupons_horizon_days_default = 730

abbrev pub next_coupons_limit_max : ℕ
next_coupons_limit_max = 1000

abbrev pub next_coupons_limit_default : ℕ
next_coupons_limit_default = 100

abbrev pub cashflows_horizon_days_max : ℕ
cashflows_horizon_days_max = 7300

abbrev pub cashflows_horizon_days_default : ℕ
cashflows_horizon_days_default = 3650

abbrev pub cashflows_limit_max : ℕ
cashflows_limit_max = 5000

abbrev pub cashflows_limit_default : ℕ
cashflows_limit_default = 500

pub record CouponDue (W : Type 0) : Type 0 where
  pub bond_id : ℕ
  pub isin : String
  pub name : String
  pub date : ℕ
  pub amount : W

pub record RealizedPnl (W : Type 0) : Type 0 where
  pub sells : W
  pub maturities : W
  pub commissions : W
  pub total : W

-- `"COUPON"` and `"MATURITY"`
pub data FlowKind : Type 0 where
  coupon maturity : FlowKind

abbrev pub is_coupon : FlowKind → Bool
is_coupon coupon = true
is_coupon maturity = false

pub record Cashflow (W : Type 0) : Type 0 where
  pub date : ℕ
  pub bond_id : ℕ
  pub isin : String
  pub kind : FlowKind
  pub amount : W

pub record PositionAnalytics (W : Type 0) : Type 0 where
  pub bond_id : ℕ
  pub isin : String
  pub name : String
  pub quantity : ℤ
  pub avg_buy_price : W
  pub total_invested : W
  pub ytm : Option W
  pub current_yield : Option W
  pub accrued_coupon : W
  pub next_coupon_date : Option ℕ
  pub maturity_date : ℕ

pub record PortfolioSummary (W : Type 0) : Type 0 where
  pub user_id : ℕ
  pub generated_at : ℕ
  pub positions : List (PositionAnalytics W)
  pub total_invested : W
  pub next_coupons : List (CouponDue W)
  pub realized_pnl : RealizedPnl W
  pub upcoming_cashflows : List (Cashflow W)
