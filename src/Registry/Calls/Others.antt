-- ===== src/Registry/Calls/Others.antt =====
-- Runs of calls: what is left of the users who do not call.
use stocktaking.Prelude.{ℕ, ◌≡◌, ◌∙◌, List, [], ◌∷◌, All}
use stocktaking.Prelude.Outcome.{ok}
use stocktaking.Registry.Rows.{Keys, Tables}
use stocktaking.Registry.Action.{Result, World, Flushed, commit}
use stocktaking.Registry.Brokers.{
  create_broker, create_broker_body, update_broker, update_broker_body, delete_broker,
  delete_broker_body,
}
use stocktaking.Registry.Accounts.{
  create_account, create_account_body, update_account, update_account_body, delete_account,
  delete_account_body,
}
use stocktaking.Registry.Bonds.{create, create_body, update, update_body, delete, delete_body}
use stocktaking.Registry.Operations.{
  create_operation, create_operation_body, update_operation, update_operation_body,
  delete_operation, delete_operation_body,
}
use stocktaking.Registry.Linked.{IsLinked}
use stocktaking.Registry.Calls.{
  Call, add_broker, edit_broker, drop_broker, add_account, edit_account, drop_account, add_bond,
  edit_bond, drop_bond, add_operation, edit_operation, drop_operation, caller, observed, perform,
  perform_all,
}
use stocktaking.Registry.Calls.Kept.{commit-tables, perform-IsLinked}
use stocktaking.Registry.Calls.Frame.{SameFor, IsOther}
use stocktaking.Registry.Calls.Frame.Methods.{
  same, create_broker-SameFor, update_broker-SameFor, delete_broker-SameFor, create_account-SameFor,
  update_account-SameFor, delete_account-SameFor,
}
use stocktaking.Registry.Calls.Frame.Holdings.{
  create-SameFor, update-SameFor, delete-SameFor, create_operation-SameFor,
  update_operation-SameFor, delete_operation-SameFor,
}

module _ {W : Type 0} where
  commit-SameFor :
      {A : Type 0} (v : ℕ) (body : Tables W → Result (Flushed W A)) (w : World W)
      → ((f : Flushed W A) → body w.tables ≡ ok f → SameFor v w.tables f.tables)
      → SameFor v w.tables (observed (commit body w)).1.tables
  commit-SameFor v body w h = commit-tables (SameFor v w.tables) body w (same v w.tables) h

  pub perform-SameFor :
      (keys : Keys) (v : ℕ) (c : Call W) (w : World W)
      → IsLinked w.tables
      → IsOther v (caller c)
      → SameFor v w.tables (perform keys c w).1.tables
  unfolding perform create_broker update_broker delete_broker create_account update_account
      delete_account create update delete create_operation update_operation delete_operation
  perform-SameFor keys v (add_broker d) w h other =
      commit-SameFor v (create_broker_body keys d) w
        (λ f. create_broker-SameFor v keys d w.tables f)
  perform-SameFor keys v (edit_broker i d) w h other =
      commit-SameFor v (update_broker_body i d) w (λ f. update_broker-SameFor v i d w.tables f)
  perform-SameFor keys v (drop_broker i) w h other =
      commit-SameFor v (delete_broker_body i) w (λ f. delete_broker-SameFor v i w.tables f)
  perform-SameFor keys v (add_account d u) w h other =
      commit-SameFor v (create_account_body keys d u) w
        (λ f. create_account-SameFor v keys d u w.tables f other)
  perform-SameFor keys v (edit_account i d u) w h other =
      commit-SameFor v (update_account_body i d u) w
        (λ f. update_account-SameFor v i d u w.tables f h other)
  perform-SameFor keys v (drop_account i u) w h other =
      commit-SameFor v (delete_account_body i u) w
        (λ f. delete_account-SameFor v i u w.tables f h other)
  perform-SameFor keys v (add_bond d u) w h other =
      commit-SameFor v (create_body keys d u) w (λ f. create-SameFor v keys d u w.tables f other)
  perform-SameFor keys v (edit_bond i d u) w h other =
      commit-SameFor v (update_body i d u) w (λ f. update-SameFor v i d u w.tables f h other)
  perform-SameFor keys v (drop_bond i u) w h other =
      commit-SameFor v (delete_body i u) w (λ f. delete-SameFor v i u w.tables f h other)
  perform-SameFor keys v (add_operation d u) w h other =
      commit-SameFor v (create_operation_body keys d u) w
        (λ f. create_operation-SameFor v keys d u w.tables f other)
  perform-SameFor keys v (edit_operation i d u) w h other =
      commit-SameFor v (update_operation_body i d u) w
        (λ f. update_operation-SameFor v i d u w.tables f h other)
  perform-SameFor keys v (drop_operation i u) w h other =
      commit-SameFor v (delete_operation_body i u) w
        (λ f. delete_operation-SameFor v i u w.tables f h other)

  SameFor-trans : (v : ℕ) (t s r : Tables W) → SameFor v t s → SameFor v s r → SameFor v t r
  SameFor-trans v t s r h k = record {
    users = k.users ∙ h.users;
    transactions = k.transactions ∙ h.transactions;
    accounts = k.accounts ∙ h.accounts;
    bonds = k.bonds ∙ h.bonds;
    operations = k.operations ∙ h.operations;
  }

  -- On linked tables, calls by other users and calls on brokers leave the accounts, bonds and
  -- operations of a user as they were, and the users and all transactions too.
  pub perform_all-SameFor :
      (keys : Keys) (v : ℕ) (cs : List (Call W)) (w : World W)
      → IsLinked w.tables
      → All (λ c. IsOther v (caller c)) cs
      → SameFor v w.tables (perform_all keys cs w).tables
  unfolding perform_all
  perform_all-SameFor keys v [] w h others = same v w.tables
  perform_all-SameFor keys v (c ∷ cs) w h others =
      let next = (perform keys c w).1 in
      SameFor-trans v w.tables next.tables (perform_all keys cs next).tables
        (perform-SameFor keys v c w h others.0)
        (perform_all-SameFor keys v cs next (perform-IsLinked keys c w h) others.1)
