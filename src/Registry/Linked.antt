-- ===== src/Registry/Linked.antt =====
-- Referential integrity of the tables that brokers/service.py, bonds/service.py and
-- account_operations/service.py of src/bond_accounting write.
pub mod Shapes
pub mod Brokers
pub mod Accounts
pub mod Bonds
pub mod Operations
use stocktaking.Prelude.{ℕ, ◌≡◌, Bool, true, ◌&&◌, any, ◌==◌, List, All}
use stocktaking.Portfolio.Transaction.{Transaction}
use stocktaking.Registry.Table.{has}
use stocktaking.Registry.Table.Laws.{Distinct}
use stocktaking.Registry.Table.Texts.{DistinctTexts}
use stocktaking.Registry.Rows.{Broker, BrokerAccount, Bond, BondCoupon, AccountOperation, Tables}
use stocktaking.Registry.Accounts.{is_user}
use stocktaking.Registry.Operations.{owns}

module _ {W : Type 0} where
  -- Brokers have keys and names of their own.
  abbrev pub BrokersOk : List (Broker W) → Type 0
  BrokersOk bs = Distinct (λ b. b.id) bs × DistinctTexts (λ b. b.id) (λ b. b.name) bs

  -- An account belongs to a user and to a broker that exist.
  abbrev pub AccountsOk : List ℕ → List (Broker W) → List BrokerAccount → Type 0
  AccountsOk us bs as_ =
      Distinct (λ a. a.id) as_
      × All
          (λ (a : BrokerAccount).
            (is_user a.user_id us ≡ true) × (has (λ b. b.id) a.broker_id bs ≡ true))
          as_

  -- A bond has an ISIN of its own and an owner that exists.
  abbrev pub BondsOk : List ℕ → List (Bond W) → Type 0
  BondsOk us bs =
      Distinct (λ b. b.id) bs
      × DistinctTexts (λ b. b.id) (λ b. b.isin) bs
      × All (λ (b : Bond W). is_user b.owner_id us ≡ true) bs

  abbrev pub CouponsOk : List (Bond W) → List (BondCoupon W) → Type 0
  CouponsOk bs cs = All (λ (c : BondCoupon W). has (λ b. b.id) c.bond_id bs ≡ true) cs

  -- A transaction is on a bond that exists and on an account of its user.
  abbrev pub TransactionsOk : List (Bond W) → List BrokerAccount → List (Transaction W) → Type 0
  TransactionsOk bs as_ xs =
      All
        (λ (x : Transaction W).
          (has (λ b. b.id) x.bond_id bs ≡ true) × (owns x.user_id x.broker_account_id as_ ≡ true))
        xs

  -- An operation is on an account of its user.
  abbrev pub OperationsOk : List BrokerAccount → List (AccountOperation W) → Type 0
  OperationsOk as_ os =
      Distinct (λ o. o.id) os
      × All (λ (o : AccountOperation W). owns o.user_id o.broker_account_id as_ ≡ true) os

  pub record IsLinked (t : Tables W) : Type 0 where
    pub brokers : BrokersOk t.brokers
    pub accounts : AccountsOk t.users t.brokers t.accounts
    pub bonds : BondsOk t.users t.bonds
    pub coupons : CouponsOk t.bonds t.coupons
    pub transactions : TransactionsOk t.bonds t.accounts t.transactions
    pub operations : OperationsOk t.accounts t.operations
