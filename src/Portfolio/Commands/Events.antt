-- ===== src/Portfolio/Commands/Events.antt =====
-- What a successful command writes and publishes.
use stocktaking.Prelude.{ℕ, ◌≡◌, ap, ◌∙◌, true, none, [], ◌∷◌, ◌++◌, arith}
use stocktaking.Floats.{FloatOps}
use stocktaking.Portfolio.Transaction.{Transaction}
use stocktaking.Portfolio.Dto.{TransactionCreate}
use stocktaking.Portfolio.Store.{Database, Engine}
use stocktaking.Portfolio.Result.{Result, ok, err}
use stocktaking.Portfolio.Action.{
  Action, World, Body, session, publish, pure, Event, ◌>>=◌, ◌>>◌, transaction_created,
  position_updated,
}
use stocktaking.Portfolio.Queries.{get_position}
use stocktaking.Portfolio.Bodies.{add_body}
use stocktaking.Portfolio.Service.{publish_position, after_add, add_transaction}

bind-ok :
    {W A B : Type 0} (m : Action W A) (k : A → Action W B) (w w' : World W) (a : A)
    → m w ≡ (ok a, w')
    → (m >>= k) w ≡ k a w'
bind-ok {W} {A} {B} m k w w' a e =
    ap
      (λ (r : Result A × World W). elim r.0 as (λ _. Result B × World W) [
        | ok b ↦ k b r.1
        | err c ↦ (err c, r.1)
      ])
      e

publish-ok :
    {W : Type 0} (e : Event W) (w : World W)
    → w.running ≡ true
    → publish e w ≡ (ok tt, record w { published = w.published ++ e ∷ [] })
unfolding publish
publish-ok e w r = ground arith

session-ok :
    {W A : Type 0} (body : Body W A) (w : World W) (a : A) (db' : Database W)
    → body w.db ≡ ok (a, db')
    → session body w ≡ (ok a, record w { db = db' })
unfolding session
session-ok body w a db' e = ground arith

module _ {W : Type 0} ⦃fl : FloatOps W⦄ (eng : Engine W) where
  after_add-ok :
      (u b : ℕ) (row : Transaction W) (w : World W)
      → w.running ≡ true
      → after_add eng u b row w ≡ (
        ok row,
        record {
          db = w.db;
          running = w.running;
          published =
              (w.published ++ transaction_created row ∷ [])
              ++ position_updated (get_position eng w.db u b none) ∷ [];
        },
      )
  unfolding after_add publish_position
  after_add-ok u b row w r =
      let w' = record w { published = w.published ++ transaction_created row ∷ [] } in
      bind-ok (publish (transaction_created row)) (λ _. publish_position eng u b >> pure row) w w'
        tt (publish-ok (transaction_created row) w r)
      ∙ bind-ok (publish_position eng u b) (λ _. pure row) w' _ tt
          (publish-ok (position_updated (get_position eng w.db u b none)) w' r)

  -- While the bus runs, a recorded transaction is returned, the tables are those of the block, and
  -- two events follow in this order: the transaction, then the user's position in the bond over all
  -- accounts, computed from the new tables.
  pub add_transaction-ok :
      (u : ℕ) (d : TransactionCreate W) (w : World W) (row : Transaction W) (db' : Database W)
      → w.running ≡ true
      → add_body eng u d w.db ≡ ok (row, db')
      → add_transaction eng u d w ≡ (
        ok row,
        record {
          db = db';
          running = w.running;
          published =
              (w.published ++ transaction_created row ∷ [])
              ++ position_updated (get_position eng db' u d.bond_id none) ∷ [];
        },
      )
  unfolding add_transaction
  add_transaction-ok u d w row db' r e =
      bind-ok (session (add_body eng u d)) (after_add eng u d.bond_id) w _ row
        (session-ok (add_body eng u d) w row db' e)
      ∙ after_add-ok u d.bond_id row (record w { db = db' }) r
