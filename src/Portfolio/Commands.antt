-- ===== src/Portfolio/Commands.antt =====
-- What the commands of the service promise: the tables stay sound. The parts below are about
-- errors, events and the tests that let a change through.
pub mod Errors
pub mod Events
pub mod Tests
use mathlib.Core.Path.{subst}
use stocktaking.Prelude.{
  ℕ, ◌∙◌, sym, ◌≡◌, ◌≢◌, refl, Bool, true, false, Option, none, some, List, arith, ◌==◌,
  if◌then◌else◌,
}
use stocktaking.Floats.{FloatOps}
use stocktaking.Portfolio.Transaction.{Transaction}
use stocktaking.Portfolio.Dto.{
  TransactionCreate, TransactionUpdate, TransactionDto, create_valid, update_valid,
}
use stocktaking.Portfolio.Store.{Database, Engine}
use stocktaking.Portfolio.Result.{Result, ok, err, not_running}
use stocktaking.Portfolio.Action.{
  Event, World, Action, Body, translate, session, publish, ◌>>=◌, ◌>>◌, pure, position_updated,
}
use stocktaking.Portfolio.Bodies.{add_body, update_body, delete_body}
use stocktaking.Portfolio.Queries.{get_position}
use stocktaking.Portfolio.Service.{
  publish_position, publish_positions, after_add, add_transaction, after_update, update_transaction,
  after_delete, delete_transaction,
}
use stocktaking.Portfolio.Invariant.{IsSound}
use stocktaking.Portfolio.Invariant.Blocks.{add_body-IsSound}
use stocktaking.Portfolio.Invariant.Changes.{update_body-IsSound, delete_body-IsSound}

-- Publishing leaves the tables alone.
record KeepsDb {W A : Type 0} (m : Action W A) : Type 0 where
  at : (w : World W) → (m w).1.db ≡ w.db

bind-db :
    {W A B : Type 0} (m : Action W A) (k : A → Action W B)
    → ((a : A) → KeepsDb (k a))
    → (w : World W) → ((m >>= k) w).1.db ≡ (m w).1.db
bind-db {W} {A} {B} m k keep w = go (m w)
  where
    go :
        (r : Result A × World W)
        → (elim r.0 as (λ _. Result B × World W) [ ok a ↦ k a r.1 | err e ↦ (err e, r.1) ]).1.db
          ≡ r.1.db
    go (ok a, w') = (keep a).at w'
    go (err e, w') = refl

seq-KeepsDb :
    {W B : Type 0} (m : Action W (Unit {0})) (k : Action W B)
    → KeepsDb m
    → KeepsDb k
    → KeepsDb (m >> k)
seq-KeepsDb m k hm hk = record { at = λ w. bind-db m (λ _. k) (λ _. hk) w ∙ hm.at w }

pure-KeepsDb : {W A : Type 0} (a : A) → KeepsDb (pure {W = W} a)
pure-KeepsDb a = record { at = λ w. refl }

publish-KeepsDb : {W : Type 0} (e : Event W) → KeepsDb (publish e)
unfolding publish
publish-KeepsDb e = record { at = λ w. ground arith }

if-KeepsDb :
    {W A : Type 0} (b : Bool) (m k : Action W A)
    → KeepsDb m
    → KeepsDb k
    → KeepsDb (if b then m else k)
if-KeepsDb true m k hm hk = hm
if-KeepsDb false m k hm hk = hk

ruleset keeps_rules = (seq-KeepsDb, pure-KeepsDb, publish-KeepsDb, if-KeepsDb)

module _ {W : Type 0} ⦃fl : FloatOps W⦄ (eng : Engine W) where
  publish_position-KeepsDb : (u b : ℕ) → KeepsDb (publish_position eng u b)
  unfolding publish_position
  publish_position-KeepsDb u b = record {
    at = λ w. (publish-KeepsDb (position_updated (get_position eng w.db u b none))).at w;
  }

  after_add-KeepsDb : (u b : ℕ) (row : Transaction W) → KeepsDb (after_add eng u b row)
  unfolding after_add
  after_add-KeepsDb u b row = search (keeps_rules, publish_position-KeepsDb)

  publish_positions-KeepsDb : (u old new : ℕ) → KeepsDb (publish_positions eng u old new)
  unfolding publish_positions
  publish_positions-KeepsDb u old new = search (keeps_rules, publish_position-KeepsDb)

  after_update-KeepsDb : (u : ℕ) (r : Option (ℕ × Transaction W)) → KeepsDb (after_update eng u r)
  unfolding after_update
  after_update-KeepsDb u none = search keeps_rules
  after_update-KeepsDb u (some (old, dto)) = search (keeps_rules, publish_positions-KeepsDb)

  after_delete-KeepsDb : (i u : ℕ) (r : Option ℕ) → KeepsDb (after_delete eng i u r)
  unfolding after_delete
  after_delete-KeepsDb i u none = search keeps_rules
  after_delete-KeepsDb i u (some b) = search (keeps_rules, publish_position-KeepsDb)

  -- A block changes the tables to a sound state or not at all.
  session-IsSound :
      {A : Type 0} (body : Body W A) (w : World W)
      → ((a : A) (db' : Database W) → body w.db ≡ ok (a, db') → IsSound eng db')
      → IsSound eng w.db
      → IsSound eng (session body w).1.db
  unfolding session
  session-IsSound {A} body w keep h = go (body w.db) keep
    where
      go :
          (r : Result (A × Database W))
          → ((a : A) (db' : Database W) → r ≡ ok (a, db') → IsSound eng db')
          → IsSound eng
              (elim r as (λ _. Result A × World W) [
                | ok (a, db') ↦ (ok a, record w { db = db' })
                | err e ↦ (err (translate e), w)
              ]).1.db
      go (ok (a, db')) k = k a db' refl
      go (err e) k = h

  -- Recording a validated transaction keeps the tables sound, also when it raises.
  pub add_transaction-IsSound :
      (u : ℕ) (d : TransactionCreate W) (w : World W)
      → create_valid d ≡ true
      → IsSound eng w.db
      → IsSound eng (add_transaction eng u d w).1.db
  unfolding add_transaction
  add_transaction-IsSound u d w v h =
      subst (IsSound eng)
        (sym (
          bind-db (session (add_body eng u d)) (after_add eng u d.bond_id)
            (after_add-KeepsDb u d.bond_id) w))
        (session-IsSound (add_body eng u d) w (λ row db'. add_body-IsSound eng u d w.db db' row v h)
          h)

  -- Editing a transaction with a validated update keeps the tables sound, also when it raises.
  pub update_transaction-IsSound :
      (i : ℕ) (d : TransactionUpdate W) (u : ℕ) (w : World W)
      → update_valid d ≡ true
      → IsSound eng w.db
      → IsSound eng (update_transaction eng i d u w).1.db
  unfolding update_transaction
  update_transaction-IsSound i d u w v h =
      subst (IsSound eng)
        (sym (
          bind-db (session (update_body eng i d u)) (after_update eng u) (after_update-KeepsDb u)
            w))
        (session-IsSound (update_body eng i d u) w
          (λ r db'. update_body-IsSound eng w.db h i u d r db' v) h)

  -- Deleting a transaction keeps the tables sound, also when it raises.
  pub delete_transaction-IsSound :
      (i u : ℕ) (w : World W) → IsSound eng w.db → IsSound eng (delete_transaction eng i u w).1.db
  unfolding delete_transaction
  delete_transaction-IsSound i u w h =
      subst (IsSound eng)
        (sym (
          bind-db (session (delete_body eng i u)) (after_delete eng i u) (after_delete-KeepsDb i u)
            w))
        (session-IsSound (delete_body eng i u) w (λ r db'. delete_body-IsSound eng w.db h i u r db')
          h)
