-- ===== src/Portfolio/Invariant/Blocks.antt =====
-- Each committed block keeps the invariant.
use mathlib.Core.Path.{subst}
use stocktaking.Prelude.{sym, ap, ◌∙◌, find, ℕ, ◌≡◌, refl, true, false, not, ◌&&◌, none, ◌∷◌, arith}
use stocktaking.Prelude.Int.{pos, ◌≤ℤ◌, ltb_ℤ, ◌+ℤ◌, ◌-ℤ◌, +ℤ_parts}
use stocktaking.Floats.{FloatOps}
use stocktaking.Portfolio.Transaction.{Transaction, IsPositive, is_buy}
use stocktaking.Portfolio.Dto.{TransactionCreate, create_valid}
use stocktaking.Portfolio.Store.{has_id, Database, Engine, owned_account}
use stocktaking.Portfolio.Result.{ok}
use stocktaking.Portfolio.Bodies.{held, new_row, signed, add_body}
use stocktaking.Portfolio.Counting.{effect, find-fresh}
use stocktaking.Portfolio.Held.{share, held-eq-total}
use stocktaking.Portfolio.Invariant.{IsOwned, IsSound}

module _ {W : Type 0} ⦃fl : FloatOps W⦄ (eng : Engine W) where
  -- Where the service has tested that the row fits, every pair stays covered.
  held-cons :
      (db : Database W) (t : Transaction W) (u b a : ℕ)
      → held eng (record db { transactions = t ∷ db.transactions }) u b a
        ≡ share u b a t +ℤ held eng db u b a
  held-cons db t u b a = rw (held-eq-total, held-eq-total) refl

  -- The test that `add_body` makes of the row `t`.
  abbrev Fits : Database W → Transaction W → Type 0
  Fits db t =
      (not (is_buy t.kind)
        && ltb_ℤ (held eng db t.user_id t.bond_id t.broker_account_id) (pos t.quantity))
      ≡ false

  cons-covered :
      (db : Database W) (t : Transaction W)
      → ((u b a : ℕ) → pos 0 ≤ℤ held eng db u b a)
      → Fits db t
      → (u b a : ℕ) → pos 0 ≤ℤ held eng (record db { transactions = t ∷ db.transactions }) u b a
  unfolding signed ◌-ℤ◌
  cons-covered db t h fits u b a = rw (held-cons db t u b a) (
      ground (
        arith,
        h u b a,
        +ℤ_parts (effect t) (held eng db u b a),
        +ℤ_parts (pos 0) (held eng db u b a),
        fits,
      ))

  -- What a block that does not raise has tested and written.
  add_body-ok :
      (u : ℕ) (d : TransactionCreate W) (db db' : Database W) (row : Transaction W)
      → add_body eng u d db ≡ ok (row, db')
      → (row ≡ new_row eng db u d)
        × (db' ≡ record db { transactions = row ∷ db.transactions })
        × IsOwned db (new_row eng db u d)
        × Fits db (new_row eng db u d)
  unfolding add_body new_row
  add_body-ok u d db db' row e = ground arith

  create-IsPositive :
      (u : ℕ) (d : TransactionCreate W) (db : Database W)
      → create_valid d ≡ true
      → IsPositive (new_row eng db u d)
  unfolding create_valid new_row
  create-IsPositive u d db v = ground arith

  new_row-fresh :
      (u : ℕ) (d : TransactionCreate W) (db : Database W)
      → find (has_id (new_row eng db u d).id) db.transactions ≡ none
  unfolding new_row
  new_row-fresh u d db =
      find-fresh (eng.fresh db.transactions) db.transactions (eng.fresh_new db.transactions)

  pub add_body-IsSound :
      (u : ℕ) (d : TransactionCreate W) (db db' : Database W) (row : Transaction W)
      → create_valid d ≡ true
      → IsSound eng db
      → add_body eng u d db ≡ ok (row, db')
      → IsSound eng db'
  unfolding owned_account
  add_body-IsSound u d db db' row v h e =
      let (is_new, written, own, fits) = add_body-ok u d db db' row e in
      subst (IsSound eng)
        (sym (written ∙ ap (λ t. record db { transactions = t ∷ db.transactions }) is_new))
        (record {
          unique = (new_row-fresh u d db, h.unique);
          positive = (create-IsPositive u d db v, h.positive);
          owned = (own, h.owned);
          covered = cons-covered db (new_row eng db u d) h.covered fits;
        })
