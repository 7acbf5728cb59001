-- ===== src/Registry/Calls.antt =====
-- The methods of the three services as calls, one after the other, on tables that they share.
pub mod Frame
pub mod Kept
pub mod Rejected
pub mod Others
pub mod Holders
pub mod RoundTrip
use stocktaking.Prelude.{ℕ, Option, none, some, List, [], ◌∷◌}
use stocktaking.Prelude.Outcome.{ok, err}
use stocktaking.Registry.Rows.{Keys}
use stocktaking.Registry.Payloads.{
  BrokerCreate, BrokerUpdate, BrokerAccountCreate, BrokerAccountUpdate, BondCreate, BondUpdate,
  AccountOperationCreate, AccountOperationUpdate,
}
use stocktaking.Registry.Action.{Error, Result, World}
use stocktaking.Registry.Brokers.{create_broker, update_broker, delete_broker}
use stocktaking.Registry.Accounts.{create_account, update_account, delete_account}
use stocktaking.Registry.Bonds.{create, update, delete}
use stocktaking.Registry.Operations.{create_operation, update_operation, delete_operation}

-- A numeral is the key of the row; the last one is the id of the user who calls. Any user may change
-- the brokers.
pub data Call (W : Type 0) : Type 0 where
  add_broker : BrokerCreate W → Call W
  edit_broker : ℕ → BrokerUpdate W → Call W
  drop_broker : ℕ → Call W
  add_account : BrokerAccountCreate → ℕ → Call W
  edit_account : ℕ → BrokerAccountUpdate → ℕ → Call W
  drop_account : ℕ → ℕ → Call W
  add_bond : BondCreate W → ℕ → Call W
  edit_bond : ℕ → BondUpdate W → ℕ → Call W
  drop_bond : ℕ → ℕ → Call W
  add_operation : AccountOperationCreate W → ℕ → Call W
  edit_operation : ℕ → AccountOperationUpdate W → ℕ → Call W
  drop_operation : ℕ → ℕ → Call W

abbrev pub error_of : {A : Type 0} → Result A → Option Error
error_of (ok _) = none
error_of (err e) = some e

module _ {W : Type 0} where
  -- What a caller sees of a call: its error, and the world after it.
  abbrev pub observed : {A : Type 0} → Result A × World W → Option Error × World W
  observed (outcome, w) = (error_of outcome, w)

  unfoldable pub perform : Keys → Call W → World W → Option Error × World W
  perform keys (add_broker d) w = observed (create_broker keys d w)
  perform keys (edit_broker i d) w = observed (update_broker i d w)
  perform keys (drop_broker i) w = observed (delete_broker i w)
  perform keys (add_account d u) w = observed (create_account keys d u w)
  perform keys (edit_account i d u) w = observed (update_account i d u w)
  perform keys (drop_account i u) w = observed (delete_account i u w)
  perform keys (add_bond d u) w = observed (create keys d u w)
  perform keys (edit_bond i d u) w = observed (update i d u w)
  perform keys (drop_bond i u) w = observed (delete i u w)
  perform keys (add_operation d u) w = observed (create_operation keys d u w)
  perform keys (edit_operation i d u) w = observed (update_operation i d u w)
  perform keys (drop_operation i u) w = observed (delete_operation i u w)

  -- Calls in turn, whatever each of them ends in.
  unfoldable pub perform_all : Keys → List (Call W) → World W → World W
  perform_all keys [] w = w
  perform_all keys (c ∷ cs) w = perform_all keys cs (perform keys c w).1

  -- the user who calls, where the method is told
  abbrev pub caller : Call W → Option ℕ
  caller (add_broker _) = none
  caller (edit_broker _ _) = none
  caller (drop_broker _) = none
  caller (add_account _ u) = some u
  caller (edit_account _ _ u) = some u
  caller (drop_account _ u) = some u
  caller (add_bond _ u) = some u
  caller (edit_bond _ _ u) = some u
  caller (drop_bond _ u) = some u
  caller (add_operation _ u) = some u
  caller (edit_operation _ _ u) = some u
  caller (drop_operation _ u) = some u
