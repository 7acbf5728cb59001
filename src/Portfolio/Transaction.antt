-- ===== src/Portfolio/Transaction.antt =====
-- `Transaction` of src/bond_accounting/db/models.py. A date is its proleptic ordinal, a timestamp a
-- number, and a quantity a natural number: `TransactionCreate` and `TransactionUpdate` validate
-- `quantity > 0`, and no other code writes the column.
use stocktaking.Prelude.{ℕ, ◌<◌, Bool, true, false}

-- `TRANSACTION_TYPES`
pub data Kind : Type 0 where
  buy sell mature : Kind

abbrev pub is_buy : Kind → Bool
is_buy buy = true
is_buy _ = false

pub record Transaction (W : Type 0) : Type 0 where
  pub id : ℕ
  pub user_id : ℕ
  pub bond_id : ℕ
  pub broker_account_id : ℕ
  pub kind : Kind
  pub quantity : ℕ
  pub price : W
  pub date : ℕ
  pub commission : W
  pub created_at : ℕ

-- Every row that the service records has at least one unit.
abbrev pub IsPositive : {W : Type 0} → Transaction W → Type 0
IsPositive t = 0 < t.quantity
