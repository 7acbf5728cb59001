-- ===== src/Registry/Payloads.antt =====
-- The inputs of src/bond_accounting/brokers/dto.py, bonds/dto.py and account_operations/dto.py. In an
-- update a field is `none` if it is unset, or an explicit `null` that the service drops; a nullable
-- field is `some none` if it is an explicit `null`, which clears the column.
use Prim.Native.String.{String}
use stocktaking.Prelude.{ℕ, Option, none, some}
use stocktaking.Registry.Rows.{
  MinCommissionType, BrokerAccountType, AccountOperationType, Broker, BrokerAccount, Bond,
  AccountOperation,
}

-- `setattr` if the field is among the changes
abbrev pub or_old : {A : Type 0} → Option A → A → A
or_old none old = old
or_old (some new) old = new

pub record BrokerCreate (W : Type 0) : Type 0 where
  pub name : String
  pub commission : W
  pub min_commission : Option W
  pub min_commission_type : MinCommissionType
  pub description : Option String

pub record BrokerUpdate (W : Type 0) : Type 0 where
  pub name : Option String
  pub commission : Option W
  pub min_commission : Option (Option W)
  pub min_commission_type : Option MinCommissionType
  pub description : Option (Option String)

pub record BrokerAccountCreate : Type 0 where
  pub broker_id : ℕ
  pub name : String
  pub account_number : Option String
  pub account_type : BrokerAccountType
  pub opened_at : Option ℕ

pub record BrokerAccountUpdate : Type 0 where
  pub name : Option String
  pub account_number : Option (Option String)
  pub account_type : Option BrokerAccountType
  pub opened_at : Option (Option ℕ)
  pub closed_at : Option (Option ℕ)

pub record BondCreate (W : Type 0) : Type 0 where
  pub isin : String
  pub name : String
  pub nominal : ℕ
  pub coupon_rate : W
  pub coupon_period_days : ℕ
  pub maturity_date : ℕ
  pub issuer : Option String

pub record BondUpdate (W : Type 0) : Type 0 where
  pub name : Option String
  pub nominal : Option ℕ
  pub coupon_rate : Option W
  pub coupon_period_days : Option ℕ
  pub maturity_date : Option ℕ
  pub issuer : Option (Option String)

pub record AccountOperationCreate (W : Type 0) : Type 0 where
  pub broker_account_id : ℕ
  pub kind : AccountOperationType
  pub amount : W
  pub date : ℕ
  pub note : Option String

pub record AccountOperationUpdate (W : Type 0) : Type 0 where
  pub broker_account_id : Option ℕ
  pub kind : Option AccountOperationType
  pub amount : Option W
  pub date : Option ℕ
  pub note : Option (Option String)

module _ {W : Type 0} where
  unfoldable pub changed_broker : BrokerUpdate W → Broker W → Broker W
  changed_broker d b = record b {
    name = or_old d.name b.name;
    commission = or_old d.commission b.commission;
    min_commission = or_old d.min_commission b.min_commission;
    min_commission_type = or_old d.min_commission_type b.min_commission_type;
    description = or_old d.description b.description;
  }

  unfoldable pub changed_bond : BondUpdate W → Bond W → Bond W
  changed_bond d b = record b {
    name = or_old d.name b.name;
    nominal = or_old d.nominal b.nominal;
    coupon_rate = or_old d.coupon_rate b.coupon_rate;
    coupon_period_days = or_old d.coupon_period_days b.coupon_period_days;
    maturity_date = or_old d.maturity_date b.maturity_date;
    issuer = or_old d.issuer b.issuer;
  }

  unfoldable pub changed_operation :
      AccountOperationUpdate W → AccountOperation W → AccountOperation W
  changed_operation d o = record o {
    broker_account_id = or_old d.broker_account_id o.broker_account_id;
    kind = or_old d.kind o.kind;
    amount = or_old d.amount o.amount;
    date = or_old d.date o.date;
    note = or_old d.note o.note;
  }

unfoldable pub changed_account : BrokerAccountUpdate → BrokerAccount → BrokerAccount
changed_account d a = record a {
  name = or_old d.name a.name;
  account_number = or_old d.account_number a.account_number;
  account_type = or_old d.account_type a.account_type;
  opened_at = or_old d.opened_at a.opened_at;
  closed_at = or_old d.closed_at a.closed_at;
}
