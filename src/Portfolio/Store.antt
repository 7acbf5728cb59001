-- ===== src/Portfolio/Store.antt =====
-- The tables that the service reads and writes (src/bond_accounting/db/models.py), and the part of
-- the database that the repository does not implement.
use mathlib.Core.List.{Perm}
use stocktaking.Prelude.{
  ℕ, Bool, ◌&&◌, not, List, All, any, find, keep_if, ◌==◌, Option, ◌≢◌, if◌then◌else◌, map,
}
use stocktaking.Portfolio.Transaction.{Transaction}

-- `BrokerAccount`: the columns that the service looks at.
pub record Account : Type 0 where
  pub id : ℕ
  pub user_id : ℕ

pub record Database (W : Type 0) : Type 0 where
  pub users : List ℕ
  pub bonds : List ℕ
  pub accounts : List Account
  pub transactions : List (Transaction W)

-- What the service leaves to the database: the order of `ORDER BY date, id`, the key of a new row
-- and its timestamp.
pub record Engine (W : Type 0) : Type 0 where
  pub order : List (Transaction W) → List (Transaction W)
  pub order_perm : (ts : List (Transaction W)) → Perm (order ts) ts
  pub fresh : List (Transaction W) → ℕ
  pub fresh_new : (ts : List (Transaction W)) → All (λ t. t.id ≢ fresh ts) ts
  pub now : ℕ

module _ {W : Type 0} where
  abbrev pub has_id : ℕ → Transaction W → Bool
  has_id i t = t.id == i

  -- `session.get(Transaction, id)`
  unfoldable pub get_row : Database W → ℕ → Option (Transaction W)
  get_row db i = find (has_id i) db.transactions

  -- `select(BrokerAccount).where(id == …, user_id == …)`
  unfoldable pub owned_account : Database W → ℕ → ℕ → Option Account
  owned_account db a u = find (λ c. c.id == a && c.user_id == u) db.accounts

  -- The foreign keys of a row of `transactions`.
  unfoldable pub references_exist : Database W → Transaction W → Bool
  references_exist db t =
      any (λ u. u == t.user_id) db.users
      && (any (λ b. b == t.bond_id) db.bonds && any (λ c. c.id == t.broker_account_id) db.accounts)

  unfoldable pub replace_row : Transaction W → List (Transaction W) → List (Transaction W)
  replace_row new = map (λ t. if t.id == new.id then new else t)

  unfoldable pub remove_row : ℕ → List (Transaction W) → List (Transaction W)
  remove_row i = keep_if (λ t. not (t.id == i))
