-- ===== src/Portfolio/Commands/Tests.antt =====
-- Which changes the tests of the service let through.
use stocktaking.Prelude.{◌∷◌, ℕ, ◌≡◌, ◌≢◌, ◌↔◌, true, ◌⊎◌, none, arith}
use stocktaking.Prelude.Int.{pos, ◌≤ℤ◌}
use stocktaking.Portfolio.Transaction.{is_buy}
use stocktaking.Portfolio.Dto.{TransactionCreate}
use stocktaking.Portfolio.Store.{Database, Engine, owned_account, references_exist}
use stocktaking.Portfolio.Result.{ok}
use stocktaking.Portfolio.Bodies.{held, new_row, add_body}

module _ {W : Type 0} (eng : Engine W) where
  -- The block of `add_transaction` writes its row exactly when the account belongs to the user, an
  -- exit takes no more than the account holds of the bond in total, and the row refers to a user, a
  -- bond and an account that exist. The date plays no part: an exit may precede every purchase.
  pub add_body-ok_iff :
      (u : ℕ) (d : TransactionCreate W) (db : Database W)
      → (add_body eng u d db
          ≡ ok (
            new_row eng db u d,
            record db { transactions = new_row eng db u d ∷ db.transactions },
          ))
        ↔ ((owned_account db d.broker_account_id u ≢ none)
            × ((is_buy d.kind ≡ true)
                ⊎ (pos d.quantity ≤ℤ held eng db u d.bond_id d.broker_account_id))
            × (references_exist db (new_row eng db u d) ≡ true))
  unfolding add_body
  add_body-ok_iff u d db = ground arith
