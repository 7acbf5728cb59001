-- ===== src/Registry/Operations.antt =====
-- `AccountOperationService` (src/bond_accounting/account_operations/service.py), which publishes nothing.
use stocktaking.Prelude.{
  ℕ, Bool, true, false, not, ◌&&◌, Option, none, some, List, [], ◌∷◌, ◌++◌, map, any, ◌==◌,
  if◌then◌else◌,
}
use stocktaking.Prelude.Outcome.{ok, err, raise_if, ◌>>◌}
use stocktaking.Registry.Table.{get, amend, remove}
use stocktaking.Registry.Rows.{BrokerAccount, AccountOperation, Tables, Keys}
use stocktaking.Registry.Payloads.{
  AccountOperationCreate, AccountOperationUpdate, changed_operation,
}
use stocktaking.Registry.Action.{
  Result, integrity, account_not_found, operation_forbidden, World, Flushed, commit,
}
use stocktaking.Registry.Accounts.{is_user}

-- `select(BrokerAccount).where(BrokerAccount.id == i, BrokerAccount.user_id == u)`
abbrev pub owns : ℕ → ℕ → List BrokerAccount → Bool
owns u i rows = any (λ (a : BrokerAccount). a.id == i && a.user_id == u) rows

-- `"broker_account_id" in changes`, and the account is not one of the user's
abbrev pub moves_to_foreign : ℕ → Option ℕ → List BrokerAccount → Bool
moves_to_foreign u none rows = false
moves_to_foreign u (some i) rows = not (owns u i rows)

module _ {W : Type 0} where
  unfoldable pub new_operation :
      Keys → AccountOperationCreate W → ℕ → List (AccountOperation W) → AccountOperation W
  new_operation keys d u rows = record {
    id = keys.fresh (map (λ (o : AccountOperation W). o.id) rows);
    user_id = u;
    broker_account_id = d.broker_account_id;
    kind = d.kind;
    amount = d.amount;
    date = d.date;
    note = d.note;
    created_at = keys.now;
  }

  unfoldable pub create_operation_body :
      Keys → AccountOperationCreate W → ℕ → Tables W → Result (Flushed W (AccountOperation W))
  create_operation_body keys d u t = do
    raise_if (not (owns u d.broker_account_id t.accounts)) account_not_found
    raise_if (not (is_user u t.users)) integrity
    let o = new_operation keys d u t.operations
    ok (record {
      value = o;
      tables = record t { operations = t.operations ++ o ∷ [] };
      events = [];
      commits = true;
    })

  unfoldable pub create_operation :
      Keys → AccountOperationCreate W → ℕ → World W → Result (AccountOperation W) × World W
  create_operation keys d u w = commit (create_operation_body keys d u) w

  unfoldable pub get_operation : ℕ → ℕ → Tables W → Result (Option (AccountOperation W))
  get_operation i u t = elim (get (λ (o : AccountOperation W). o.id) i t.operations) [
    | none ↦ ok none
    | some o ↦ if o.user_id == u then ok (some o) else err operation_forbidden
  ]

  unfoldable pub update_operation_found :
      ℕ
      → AccountOperationUpdate W
      → ℕ
      → Tables W
      → AccountOperation W
      → Result (Flushed W (Option (AccountOperation W)))
  update_operation_found i d u t o = do
    raise_if (not (o.user_id == u)) operation_forbidden
    raise_if (moves_to_foreign u d.broker_account_id t.accounts) account_not_found
    ok (record {
      value = some (changed_operation d o);
      tables = record t { operations = amend (λ x. x.id) i (changed_operation d) t.operations };
      events = [];
      commits = true;
    })

  unfoldable pub update_operation_body :
      ℕ → AccountOperationUpdate W → ℕ → Tables W → Result (Flushed W (Option (AccountOperation W)))
  update_operation_body i d u t = elim (get (λ (o : AccountOperation W). o.id) i t.operations) [
    | none ↦ ok (record { value = none; tables = t; events = []; commits = false })
    | some o ↦ update_operation_found i d u t o
  ]

  unfoldable pub update_operation :
      ℕ → AccountOperationUpdate W → ℕ → World W → Result (Option (AccountOperation W)) × World W
  update_operation i d u w = commit (update_operation_body i d u) w

  unfoldable pub delete_operation_found :
      ℕ → ℕ → Tables W → AccountOperation W → Result (Flushed W Bool)
  delete_operation_found i u t o = do
    raise_if (not (o.user_id == u)) operation_forbidden
    ok (record {
      value = true;
      tables = record t { operations = remove (λ x. x.id) i t.operations };
      events = [];
      commits = true;
    })

  unfoldable pub delete_operation_body : ℕ → ℕ → Tables W → Result (Flushed W Bool)
  delete_operation_body i u t = elim (get (λ (o : AccountOperation W). o.id) i t.operations) [
    | none ↦ ok (record { value = false; tables = t; events = []; commits = false })
    | some o ↦ delete_operation_found i u t o
  ]

  unfoldable pub delete_operation : ℕ → ℕ → World W → Result Bool × World W
  delete_operation i u w = commit (delete_operation_body i u) w
