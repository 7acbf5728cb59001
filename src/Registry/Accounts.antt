-- ===== src/Registry/Accounts.antt =====
-- The account half of `BrokerService` (src/bond_accounting/brokers/service.py).
use Prim.Native.String.{String}
use stocktaking.Prelude.{
  ℕ, Bool, true, false, not, ◌&&◌, Option, none, some, List, [], ◌∷◌, ◌++◌, map, any, find, ◌==◌,
}
use stocktaking.Prelude.Outcome.{ok, err, raise_if, ◌>>◌}
use stocktaking.Registry.Table.{get, amend}
use stocktaking.Registry.Rows.{Broker, BrokerAccount, AccountOperation, Tables, Keys}
use stocktaking.Portfolio.Transaction.{Transaction}
use stocktaking.Registry.Payloads.{BrokerAccountCreate, BrokerAccountUpdate, changed_account}
use stocktaking.Registry.Action.{
  Result, integrity, broker_not_found, account_not_found, account_has_transactions,
  account_has_operations, account_created, account_updated, account_deleted, World, Flushed, commit,
}
use stocktaking.Registry.Brokers.{get_broker, delete_account_rows}

abbrev pub is_user : ℕ → List ℕ → Bool
is_user u users = any (λ (x : ℕ). x == u) users

unfoldable pub new_account : Keys → BrokerAccountCreate → ℕ → List BrokerAccount → BrokerAccount
new_account keys d u rows = record {
  id = keys.fresh (map (λ (a : BrokerAccount). a.id) rows);
  user_id = u;
  broker_id = d.broker_id;
  name = d.name;
  account_number = d.account_number;
  account_type = d.account_type;
  opened_at = d.opened_at;
  closed_at = none;
  created_at = keys.now;
}

module _ {W : Type 0} where
  -- `broker.name if broker is not None else ""`
  abbrev pub name_of : Option (Broker W) → String
  name_of none = ""
  name_of (some b) = b.name

  unfoldable pub create_account_at :
      Keys
      → BrokerAccountCreate
      → ℕ
      → Tables W
      → Broker W
      → Result (Flushed W (BrokerAccount × String))
  create_account_at keys d u t b = do
    raise_if (not (is_user u t.users)) integrity
    let a = new_account keys d u t.accounts
    ok (record {
      value = (a, b.name);
      tables = record t { accounts = t.accounts ++ a ∷ [] };
      events = account_created a b.name ∷ [];
      commits = true;
    })

  unfoldable pub create_account_body :
      Keys → BrokerAccountCreate → ℕ → Tables W → Result (Flushed W (BrokerAccount × String))
  create_account_body keys d u t = elim (get_broker d.broker_id t) [
    | none ↦ err broker_not_found
    | some b ↦ create_account_at keys d u t b
  ]

  unfoldable pub create_account :
      Keys → BrokerAccountCreate → ℕ → World W → Result (BrokerAccount × String) × World W
  create_account keys d u w = commit (create_account_body keys d u) w

  -- the join with the broker drops an account whose broker does not exist
  abbrev pub with_broker : Tables W → BrokerAccount → Option (BrokerAccount × String)
  with_broker t a = elim (get_broker a.broker_id t) [ none ↦ none | some b ↦ some (a, b.name) ]

  unfoldable pub get_account : ℕ → ℕ → Tables W → Option (BrokerAccount × String)
  get_account i u t = elim (find (λ (a : BrokerAccount). a.id == i && a.user_id == u) t.accounts) [
    | none ↦ none
    | some a ↦ with_broker t a
  ]

  unfoldable pub update_account_found :
      ℕ
      → BrokerAccountUpdate
      → ℕ
      → Tables W
      → BrokerAccount
      → Result (Flushed W (Option (BrokerAccount × String)))
  update_account_found i d u t a = do
    raise_if (not (a.user_id == u)) account_not_found
    let new = changed_account d a
    let broker_name = name_of (get_broker a.broker_id t)
    ok (record {
      value = some (new, broker_name);
      tables = record t { accounts = amend (λ x. x.id) i (changed_account d) t.accounts };
      events = account_updated new broker_name ∷ [];
      commits = true;
    })

  unfoldable pub update_account_body :
      ℕ → BrokerAccountUpdate → ℕ → Tables W → Result (Flushed W (Option (BrokerAccount × String)))
  update_account_body i d u t = elim (get (λ (a : BrokerAccount). a.id) i t.accounts) [
    | none ↦ ok (record { value = none; tables = t; events = []; commits = false })
    | some a ↦ update_account_found i d u t a
  ]

  unfoldable pub update_account :
      ℕ → BrokerAccountUpdate → ℕ → World W → Result (Option (BrokerAccount × String)) × World W
  update_account i d u w = commit (update_account_body i d u) w

  unfoldable pub delete_account_found : ℕ → ℕ → Tables W → BrokerAccount → Result (Flushed W Bool)
  delete_account_found i u t a = do
    raise_if (not (a.user_id == u)) account_not_found
    raise_if (any (λ (x : Transaction W). x.broker_account_id == i) t.transactions)
        account_has_transactions
    raise_if (any (λ (o : AccountOperation W). o.broker_account_id == i) t.operations)
        account_has_operations
    ok (record {
      value = true;
      tables = delete_account_rows i t;
      events = account_deleted i u ∷ [];
      commits = true;
    })

  unfoldable pub delete_account_body : ℕ → ℕ → Tables W → Result (Flushed W Bool)
  delete_account_body i u t = elim (get (λ (a : BrokerAccount). a.id) i t.accounts) [
    | none ↦ ok (record { value = false; tables = t; events = []; commits = false })
    | some a ↦ delete_account_found i u t a
  ]

  unfoldable pub delete_account : ℕ → ℕ → World W → Result Bool × World W
  delete_account i u w = commit (delete_account_body i u) w
