-- ===== src/Portfolio/Dto.antt =====
-- src/bond_accounting/portfolio/dto.py: the payloads of the service. A `TransactionDTO` has the
-- fields of the row, so it is the row.
use stocktaking.Prelude.{ℕ, Bool, true, ◌&&◌, Option, none, some, ltb}
use stocktaking.Prelude.Int.{ℤ}
use stocktaking.Floats.{FloatOps}
use stocktaking.Portfolio.Transaction.{Kind, Transaction}

pub record TransactionCreate (W : Type 0) : Type 0 where
  pub bond_id : ℕ
  pub broker_account_id : ℕ
  pub kind : Kind
  pub quantity : ℕ
  pub price : W
  pub date : ℕ
  pub commission : W

-- A field that is unset, or an explicit `null`, is `none`: the service drops both.
pub record TransactionUpdate (W : Type 0) : Type 0 where
  pub bond_id : Option ℕ
  pub broker_account_id : Option ℕ
  pub kind : Option Kind
  pub quantity : Option ℕ
  pub price : Option W
  pub date : Option ℕ
  pub commission : Option W

pub record PositionDto (W : Type 0) : Type 0 where
  pub user_id : ℕ
  pub bond_id : ℕ
  pub quantity : ℤ
  pub avg_buy_price : Option W
  pub total_invested : W

abbrev pub TransactionDto : Type 0 → Type 0
TransactionDto = Transaction

-- `Field(gt=0)` on an optional field
abbrev pub gt_zero : Option ℕ → Bool
gt_zero none = true
gt_zero (some n) = ltb 0 n

module _ {W : Type 0} ⦃fl : FloatOps W⦄ where
  -- the constraints that Pydantic checks before the service is called
  unfoldable pub create_valid : TransactionCreate W → Bool
  create_valid d = ltb 0 d.broker_account_id && (ltb 0 d.quantity && fl.lt fl.zero_float d.price)

  unfoldable pub update_valid : TransactionUpdate W → Bool
  update_valid d =
      gt_zero d.broker_account_id
      && (gt_zero d.quantity && elim d.price [ none ↦ true | some p ↦ fl.lt fl.zero_float p ])
