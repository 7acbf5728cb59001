-- ===== src/Registry/Rows.antt =====
-- The rows of src/bond_accounting/db/models.py that these services keep. A `...DTO` has the fields of
-- its row, so it is the row.
use Prim.Native.String.{String}
use stocktaking.Prelude.{ℕ, ◌≢◌, Option, List, All}
use stocktaking.Portfolio.Transaction.{Transaction}

-- `MIN_COMMISSION_TYPES`
pub data MinCommissionType : Type 0 where
  percent rubles : MinCommissionType

-- `BROKER_ACCOUNT_TYPES`
pub data BrokerAccountType : Type 0 where
  standard iis ltd : BrokerAccountType

-- `ACCOUNT_OPERATION_TYPES`
pub data AccountOperationType : Type 0 where
  deposit withdrawal tax : AccountOperationType

pub record Broker (W : Type 0) : Type 0 where
  pub id : ℕ
  pub name : String
  pub commission : W
  pub min_commission : Option W
  pub min_commission_type : MinCommissionType
  pub description : Option String
  pub created_at : ℕ

pub record BrokerAccount : Type 0 where
  pub id : ℕ
  pub user_id : ℕ
  pub broker_id : ℕ
  pub name : String
  pub account_number : Option String
  pub account_type : BrokerAccountType
  pub opened_at : Option ℕ
  pub closed_at : Option ℕ
  pub created_at : ℕ

-- The payloads validate that the nominal is positive and the period is not negative.
pub record Bond (W : Type 0) : Type 0 where
  pub id : ℕ
  pub owner_id : ℕ
  pub isin : String
  pub name : String
  pub nominal : ℕ
  pub coupon_rate : W
  pub coupon_period_days : ℕ
  pub maturity_date : ℕ
  pub issuer : Option String

pub record BondCoupon (W : Type 0) : Type 0 where
  pub id : ℕ
  pub bond_id : ℕ
  pub coupon_date : ℕ
  pub coupon_amount : W

pub record AccountOperation (W : Type 0) : Type 0 where
  pub id : ℕ
  pub user_id : ℕ
  pub broker_account_id : ℕ
  pub kind : AccountOperationType
  pub amount : W
  pub date : ℕ
  pub note : Option String
  pub created_at : ℕ

pub record Tables (W : Type 0) : Type 0 where
  pub users : List ℕ
  pub brokers : List (Broker W)
  pub accounts : List BrokerAccount
  pub bonds : List (Bond W)
  pub coupons : List (BondCoupon W)
  pub transactions : List (Transaction W)
  pub operations : List (AccountOperation W)

-- What the services leave to the database: the key of a new row, and its timestamp.
pub record Keys : Type 0 where
  pub fresh : List ℕ → ℕ
  pub fresh_new : (used : List ℕ) → All (λ (k : ℕ). k ≢ fresh used) used
  pub now : ℕ
