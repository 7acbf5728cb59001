-- ===== src/Portfolio/Invariant.antt =====
-- What every command of the service keeps true of the tables.
pub mod Rows
pub mod Blocks
pub mod Changes
use stocktaking.Prelude.{ℕ, ◌≡◌, ◌≢◌, none, All}
use stocktaking.Prelude.Int.{pos, ◌≤ℤ◌}
use stocktaking.Portfolio.Transaction.{Transaction, IsPositive}
use stocktaking.Portfolio.Store.{Database, Engine, owned_account}
use stocktaking.Portfolio.Bodies.{held}
use stocktaking.Portfolio.Counting.{UniqueIds}

-- The broker account of the row belongs to the user of the row.
abbrev pub IsOwned : {W : Type 0} → Database W → Transaction W → Type 0
IsOwned db t = owned_account db t.broker_account_id t.user_id ≢ none

-- No two rows share a key, every row has units and stands on an account of its user, and nobody
-- holds less than nothing of a bond on an account.
pub record IsSound {W : Type 0} (eng : Engine W) (db : Database W) : Type 0 where
  pub unique : UniqueIds db.transactions
  pub positive : All IsPositive db.transactions
  pub owned : All (IsOwned db) db.transactions
  pub covered : (u b a : ℕ) → pos 0 ≤ℤ held eng db u b a
