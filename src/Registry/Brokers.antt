-- ===== src/Registry/Brokers.antt =====
-- The broker half of `BrokerService` (src/bond_accounting/brokers/service.py).
use Prim.Native.String.{String}
use text.Mathlib.Text.{◌==◌ as same_text}
use stocktaking.Prelude.{
  ℕ, Bool, true, false, not, ◌&&◌, Option, none, some, List, [], ◌∷◌, ◌++◌, map, any, keep_if, ◌==◌,
}
use stocktaking.Prelude.Outcome.{ok, raise_if, ◌>>◌}
use stocktaking.Registry.Table.{get, amend, remove}
use stocktaking.Registry.Rows.{Broker, BrokerAccount, Tables, Keys}
use stocktaking.Registry.Payloads.{BrokerCreate, BrokerUpdate, changed_broker}
use stocktaking.Registry.Action.{
  Result, broker_name_duplicate, broker_has_accounts, broker_created, broker_updated,
  broker_deleted, World, Flushed, commit,
}

-- `cascade="all, delete-orphan"`: what refers to a deleted account goes with it.
unfoldable pub delete_account_rows : {W : Type 0} → ℕ → Tables W → Tables W
delete_account_rows i t = record t {
  accounts = remove (λ a. a.id) i t.accounts;
  transactions = keep_if (λ x. not (x.broker_account_id == i)) t.transactions;
  operations = keep_if (λ o. not (o.broker_account_id == i)) t.operations;
}

-- the accounts of a deleted broker, one after the other
unfoldable pub delete_accounts : {W : Type 0} → List BrokerAccount → Tables W → Tables W
delete_accounts [] t = t
delete_accounts (a ∷ rest) t = delete_accounts rest (delete_account_rows a.id t)

abbrev pub at_broker : ℕ → BrokerAccount → Bool
at_broker i a = a.broker_id == i

module _ {W : Type 0} where
  -- `select(Broker).where(Broker.name == name)`
  abbrev pub name_taken : String → List (Broker W) → Bool
  name_taken name rows = any (λ (b : Broker W). same_text b.name name) rows

  -- the same with `Broker.id != i`
  abbrev pub name_taken_by_other : ℕ → String → List (Broker W) → Bool
  name_taken_by_other i name rows =
      any (λ (b : Broker W). same_text b.name name && not (b.id == i)) rows

  unfoldable pub new_broker : Keys → BrokerCreate W → List (Broker W) → Broker W
  new_broker keys d rows = record {
    id = keys.fresh (map (λ (b : Broker W). b.id) rows);
    name = d.name;
    commission = d.commission;
    min_commission = d.min_commission;
    min_commission_type = d.min_commission_type;
    description = d.description;
    created_at = keys.now;
  }

  unfoldable pub create_broker_body :
      Keys → BrokerCreate W → Tables W → Result (Flushed W (Broker W))
  create_broker_body keys d t = do
    raise_if (name_taken d.name t.brokers) broker_name_duplicate
    let b = new_broker keys d t.brokers
    ok (record {
      value = b;
      tables = record t { brokers = t.brokers ++ b ∷ [] };
      events = broker_created b ∷ [];
      commits = true;
    })

  unfoldable pub create_broker : Keys → BrokerCreate W → World W → Result (Broker W) × World W
  create_broker keys d w = commit (create_broker_body keys d) w

  unfoldable pub get_broker : ℕ → Tables W → Option (Broker W)
  get_broker i t = get (λ b. b.id) i t.brokers

  -- `"name" in changes`, and the name is that of another broker
  abbrev pub renames_to_taken : ℕ → Option String → List (Broker W) → Bool
  renames_to_taken i none rows = false
  renames_to_taken i (some name) rows = name_taken_by_other i name rows

  unfoldable pub update_broker_found :
      ℕ → BrokerUpdate W → Tables W → Broker W → Result (Flushed W (Option (Broker W)))
  update_broker_found i d t b = do
    raise_if (renames_to_taken i d.name t.brokers) broker_name_duplicate
    ok (record {
      value = some (changed_broker d b);
      tables = record t { brokers = amend (λ x. x.id) i (changed_broker d) t.brokers };
      events = broker_updated (changed_broker d b) ∷ [];
      commits = true;
    })

  unfoldable pub update_broker_body :
      ℕ → BrokerUpdate W → Tables W → Result (Flushed W (Option (Broker W)))
  update_broker_body i d t = elim (get_broker i t) [
    | none ↦ ok (record { value = none; tables = t; events = []; commits = false })
    | some b ↦ update_broker_found i d t b
  ]

  unfoldable pub update_broker : ℕ → BrokerUpdate W → World W → Result (Option (Broker W)) × World W
  update_broker i d w = commit (update_broker_body i d) w

  unfoldable pub delete_broker_found : ℕ → Tables W → Result (Flushed W Bool)
  delete_broker_found i t = do
    raise_if (any (at_broker i) t.accounts) broker_has_accounts
    let cleared = delete_accounts (keep_if (at_broker i) t.accounts) t
    ok (record {
      value = true;
      tables = record cleared { brokers = remove (λ b. b.id) i t.brokers };
      events = broker_deleted i ∷ [];
      commits = true;
    })

  unfoldable pub delete_broker_body : ℕ → Tables W → Result (Flushed W Bool)
  delete_broker_body i t = elim (get_broker i t) [
    | none ↦ ok (record { value = false; tables = t; events = []; commits = false })
    | some _ ↦ delete_broker_found i t
  ]

  unfoldable pub delete_broker : ℕ → World W → Result Bool × World W
  delete_broker i w = commit (delete_broker_body i) w
