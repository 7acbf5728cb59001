-- ===== src/Portfolio/Service.antt =====
-- The commands of `PortfolioService` (src/bond_accounting/portfolio/service.py): the committed block,
-- then the events.
use stocktaking.Prelude.{ℕ, Bool, true, false, Option, none, some, ◌==◌, if◌then◌else◌}
use stocktaking.Floats.{FloatOps}
use stocktaking.Portfolio.Transaction.{Transaction}
use stocktaking.Portfolio.Dto.{TransactionCreate, TransactionUpdate, TransactionDto}
use stocktaking.Portfolio.Store.{Engine}
use stocktaking.Portfolio.Queries.{get_position}
use stocktaking.Portfolio.Bodies.{add_body, update_body, delete_body}
use stocktaking.Portfolio.Action.{
  transaction_created, transaction_updated, transaction_deleted, position_updated, Action, ◌>>=◌,
  ◌>>◌, pure, session, publish,
}

module _ {W : Type 0} ⦃fl : FloatOps W⦄ (eng : Engine W) where
  -- One round of the loop of `_publish_positions`; the position is over all accounts.
  unfoldable pub publish_position : ℕ → ℕ → Action W (Unit {0})
  publish_position u b w = publish (position_updated (get_position eng w.db u b none)) w

  -- `_publish_positions(user_id, old, new)`: a repeated bond is published once
  unfoldable pub publish_positions : ℕ → ℕ → ℕ → Action W (Unit {0})
  publish_positions u old new =
      if old == new
      then publish_position u old
      else publish_position u old >> publish_position u new

  -- What `add_transaction` does after the block.
  unfoldable pub after_add : ℕ → ℕ → Transaction W → Action W (TransactionDto W)
  after_add u bond dto = do publish (transaction_created dto); publish_position u bond; pure dto

  unfoldable pub add_transaction : ℕ → TransactionCreate W → Action W (TransactionDto W)
  add_transaction u d = do row ← session (add_body eng u d); after_add u d.bond_id row

  -- What `update_transaction` does after the block; `none` is its early `return None`.
  unfoldable pub after_update :
      ℕ → Option (ℕ × Transaction W) → Action W (Option (TransactionDto W))
  after_update u none = pure none
  after_update u (some (old, dto)) = do
    publish_positions u old dto.bond_id
    publish (transaction_updated dto)
    pure (some dto)

  unfoldable pub update_transaction :
      ℕ → TransactionUpdate W → ℕ → Action W (Option (TransactionDto W))
  update_transaction i d u = do found ← session (update_body eng i d u); after_update u found

  unfoldable pub after_delete : ℕ → ℕ → Option ℕ → Action W Bool
  after_delete i u none = pure false
  after_delete i u (some bond) = do
    publish_position u bond
    publish (transaction_deleted i)
    pure true

  unfoldable pub delete_transaction : ℕ → ℕ → Action W Bool
  delete_transaction i u = do found ← session (delete_body eng i u); after_delete i u found
