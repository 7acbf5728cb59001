-- ===== src/Registry/Calls/Kept.antt =====
-- The calls keep the tables linked.
use stocktaking.Prelude.{
  ◌≡◌, refl, sym, inl, inr, Bool, true, false, Bool-cases, suc, ◌++◌, if◌then◌else◌, List, [], ◌∷◌,
}
use mathlib.Core.Path.{subst}
use stocktaking.Prelude.Outcome.{Outcome-cases, ok, err}
use stocktaking.Registry.Rows.{Keys, Tables}
use stocktaking.Registry.Action.{
  Result, Event, World, Flushed, publish_each, store_tables, settle, commit,
}
use stocktaking.Registry.Brokers.{
  create_broker, create_broker_body, update_broker, update_broker_body, delete_broker,
  delete_broker_body,
}
use stocktaking.Registry.Accounts.{
  create_account, create_account_body, update_account, update_account_body, delete_account,
  delete_account_body,
}
use stocktaking.Registry.Bonds.{create, create_body, update, update_body, delete, delete_body}
use stocktaking.Registry.Operations.{
  create_operation, create_operation_body, update_operation, update_operation_body,
  delete_operation, delete_operation_body,
}
use stocktaking.Registry.Linked.{IsLinked}
use stocktaking.Registry.Linked.Brokers.{
  create_broker-IsLinked, update_broker-IsLinked, delete_broker-IsLinked,
}
use stocktaking.Registry.Linked.Accounts.{
  create_account-IsLinked, update_account-IsLinked, delete_account-IsLinked,
}
use stocktaking.Registry.Linked.Bonds.{create-IsLinked, update-IsLinked, delete-IsLinked}
use stocktaking.Registry.Linked.Operations.{
  create_operation-IsLinked, update_operation-IsLinked, delete_operation-IsLinked,
}
use stocktaking.Registry.Calls.{
  Call, add_broker, edit_broker, drop_broker, add_account, edit_account, drop_account, add_bond,
  edit_bond, drop_bond, add_operation, edit_operation, drop_operation, observed, perform,
  perform_all,
}

either_way : {A : Type 0} (P : A → Type 0) (c : Bool) (x y : A) → P x → P y → P (if c then x else y)
either_way P true x y h k = h
either_way P false x y h k = k

module _ {W : Type 0} where
  publish_each-tables :
      (es : List (Event W)) (w : World W) → (publish_each es w).1.tables ≡ w.tables
  unfolding publish_each
  publish_each-tables [] w = refl
  publish_each-tables (x ∷ es) w =
      either_way (λ (r : Result (Unit {0}) × World W). r.1.tables ≡ w.tables) (w.is_running w.clock)
        _ _
        (publish_each-tables es
          (record w { published = w.published ++ x ∷ []; clock = suc w.clock }))
        refl

  settle-tables :
      {A : Type 0} (P : Tables W → Type 0) (f : Flushed W A) (r : Result (Unit {0}) × World W)
      → P f.tables
      → P r.1.tables
      → P (observed (settle f r)).1.tables
  unfolding settle store_tables
  settle-tables P f (ok _, w) h k = elim (Bool-cases f.commits) [
    | inl ends ↦ elim (Bool-cases (w.can_commit w.clock)) [
      | inl taken ↦ rw (ends, taken) h
      | inr failed ↦ rw (ends, failed) k
    ]
    | inr nothing ↦ rw nothing k
  ]
  settle-tables P f (err _, w) h k = k

  -- What holds of the tables before a method, and of those that it flushes, holds after it.
  pub commit-tables :
      {A : Type 0} (P : Tables W → Type 0) (body : Tables W → Result (Flushed W A)) (w : World W)
      → P w.tables
      → ((f : Flushed W A) → body w.tables ≡ ok f → P f.tables)
      → P (observed (commit body w)).1.tables
  unfolding commit
  commit-tables P body w h k = elim (Outcome-cases (body w.tables)) [
    | inl (e, q) ↦ rw (q, commit) h
    | inr (f, q) ↦
        rw (q, commit)
          (settle-tables P f (publish_each f.events w) (k f q)
            (subst P (sym (publish_each-tables f.events w)) h))
  ]

  pub perform-IsLinked :
      (keys : Keys) (c : Call W) (w : World W)
      → IsLinked w.tables
      → IsLinked (perform keys c w).1.tables
  unfolding perform create_broker update_broker delete_broker create_account update_account
      delete_account create update delete create_operation update_operation delete_operation
  perform-IsLinked keys (add_broker d) w h =
      commit-tables IsLinked (create_broker_body keys d) w h
        (λ f. create_broker-IsLinked keys d w.tables f h)
  perform-IsLinked keys (edit_broker i d) w h =
      commit-tables IsLinked (update_broker_body i d) w h
        (λ f. update_broker-IsLinked i d w.tables f h)
  perform-IsLinked keys (drop_broker i) w h =
      commit-tables IsLinked (delete_broker_body i) w h (λ f. delete_broker-IsLinked i w.tables f h)
  perform-IsLinked keys (add_account d u) w h =
      commit-tables IsLinked (create_account_body keys d u) w h
        (λ f. create_account-IsLinked keys d u w.tables f h)
  perform-IsLinked keys (edit_account i d u) w h =
      commit-tables IsLinked (update_account_body i d u) w h
        (λ f. update_account-IsLinked i d u w.tables f h)
  perform-IsLinked keys (drop_account i u) w h =
      commit-tables IsLinked (delete_account_body i u) w h
        (λ f. delete_account-IsLinked i u w.tables f h)
  perform-IsLinked keys (add_bond d u) w h =
      commit-tables IsLinked (create_body keys d u) w h (λ f. create-IsLinked keys d u w.tables f h)
  perform-IsLinked keys (edit_bond i d u) w h =
      commit-tables IsLinked (update_body i d u) w h (λ f. update-IsLinked i d u w.tables f h)
  perform-IsLinked keys (drop_bond i u) w h =
      commit-tables IsLinked (delete_body i u) w h (λ f. delete-IsLinked i u w.tables f h)
  perform-IsLinked keys (add_operation d u) w h =
      commit-tables IsLinked (create_operation_body keys d u) w h
        (λ f. create_operation-IsLinked keys d u w.tables f h)
  perform-IsLinked keys (edit_operation i d u) w h =
      commit-tables IsLinked (update_operation_body i d u) w h
        (λ f. update_operation-IsLinked i d u w.tables f h)
  perform-IsLinked keys (drop_operation i u) w h =
      commit-tables IsLinked (delete_operation_body i u) w h
        (λ f. delete_operation-IsLinked i u w.tables f h)

  -- Whatever calls run, and whether or not they raise, tables that are linked stay linked: own
  -- keys, own broker names and ISINs, every reference to a row that exists, every transaction and
  -- operation on an account of its own user.
  pub perform_all-IsLinked :
      (keys : Keys) (cs : List (Call W)) (w : World W)
      → IsLinked w.tables
      → IsLinked (perform_all keys cs w).tables
  unfolding perform_all
  perform_all-IsLinked keys [] w h = h
  perform_all-IsLinked keys (c ∷ cs) w h =
      perform_all-IsLinked keys cs (perform keys c w).1 (perform-IsLinked keys c w h)
