-- ===== src/Portfolio/Bodies.antt =====
-- The `session.begin()` blocks of `PortfolioService` (src/bond_accounting/portfolio/service.py). The
-- row lock on the user makes the commands of one user run one after the other: a block is one step.
use mathlib.Core.Option.{get_or}
use stocktaking.Prelude.{ℕ, not, ◌&&◌, ◌||◌, Option, none, some, ◌∷◌, keep_if, ◌==◌, if◌then◌else◌}
use stocktaking.Prelude.Int.{ℤ, pos, ltb_ℤ, ◌+ℤ◌, ◌-ℤ◌}
use stocktaking.Portfolio.Transaction.{Kind, is_buy, Transaction}
use stocktaking.Portfolio.Dto.{TransactionCreate, TransactionUpdate}
use stocktaking.Portfolio.Store.{
  Database, Engine, get_row, owned_account, references_exist, replace_row, remove_row,
}
use stocktaking.Portfolio.Position.{quantity_of}
use stocktaking.Portfolio.Queries.{load_transactions}
use stocktaking.Portfolio.Result.{
  insufficient_position, invalid_transaction, forbidden, integrity, Result, ok, err, require,
  raise_if, ◌>>=◌, ◌>>◌,
}
use stocktaking.Portfolio.Action.{Body}

-- the sign with which a row counts
unfoldable pub signed : Kind → ℕ → ℤ
signed k q = if is_buy k then pos q else pos 0 -ℤ pos q

module _ {W : Type 0} where
  unfoldable pub insert_row : Transaction W → Database W → Result (Transaction W × Database W)
  unfolding references_exist
  insert_row t db =
      if references_exist db t
      then ok (t, record db { transactions = t ∷ db.transactions })
      else err integrity

  -- The row with the given fields of the update set, as `setattr` leaves it.
  unfoldable pub updated_row : Transaction W → TransactionUpdate W → Transaction W
  updated_row t d = record t {
    bond_id = get_or d.bond_id t.bond_id;
    broker_account_id = get_or d.broker_account_id t.broker_account_id;
    kind = get_or d.kind t.kind;
    quantity = get_or d.quantity t.quantity;
    price = get_or d.price t.price;
    date = get_or d.date t.date;
    commission = get_or d.commission t.commission;
  }

  -- `session.flush()` of the changed row
  unfoldable pub write_row : Transaction W → Database W → Result (Transaction W × Database W)
  unfolding references_exist replace_row
  write_row new db =
      if references_exist db new
      then ok (new, record db { transactions = replace_row new db.transactions })
      else err integrity

module _ {W : Type 0} (eng : Engine W) where
  -- `Transaction(user_id=…, …)`, with the key and the timestamp that the database gives it
  unfoldable pub new_row : Database W → ℕ → TransactionCreate W → Transaction W
  new_row db u d = record {
    id = eng.fresh db.transactions;
    user_id = u;
    bond_id = d.bond_id;
    broker_account_id = d.broker_account_id;
    kind = d.kind;
    quantity = d.quantity;
    price = d.price;
    date = d.date;
    commission = d.commission;
    created_at = eng.now;
  }

  -- the quantity of one bond on one account, without the row `skip` if one is given
  unfoldable pub held : Database W → ℕ → ℕ → ℕ → ℤ
  unfolding load_transactions quantity_of
  held db u b a = quantity_of (load_transactions eng db u b (some a))

  -- `[row for row in … if row.id != txn.id]`, counted
  unfoldable pub held_without : Database W → ℕ → ℕ → ℕ → ℕ → ℤ
  unfolding load_transactions quantity_of
  held_without db i u b a =
      quantity_of (keep_if (λ t. not (t.id == i)) (load_transactions eng db u b (some a)))

  -- The `session.begin()` block of `add_transaction`.
  unfoldable pub add_body : ℕ → TransactionCreate W → Body W (Transaction W)
  unfolding owned_account held new_row insert_row
  add_body u d db = do
    account ← require (owned_account db d.broker_account_id u) invalid_transaction
    raise_if
        (not (is_buy d.kind) && ltb_ℤ (held db u d.bond_id d.broker_account_id) (pos d.quantity))
        insufficient_position
    insert_row (new_row db u d) db

  -- `_validate_transaction_shift`, on the old and the new row
  unfoldable pub validate_shift : Database W → ℕ → Transaction W → Transaction W → Result (Unit {0})
  unfolding held_without signed
  validate_shift db u t new = do
    let moved = not (new.bond_id == t.bond_id) || not (new.broker_account_id == t.broker_account_id)
    raise_if
        (moved
          && (is_buy t.kind
              && ltb_ℤ (held_without db t.id u t.bond_id t.broker_account_id) (pos t.quantity)))
        insufficient_position
    raise_if
        (ltb_ℤ
          (held_without db t.id u new.bond_id new.broker_account_id +ℤ signed new.kind new.quantity)
          (pos 0))
        insufficient_position

  -- The block of `update_transaction` from the ownership test on; with the bond of the old row.
  unfoldable pub update_found :
      ℕ → TransactionUpdate W → Transaction W → Body W (Option (ℕ × Transaction W))
  unfolding updated_row owned_account validate_shift write_row
  update_found u d t db = do
    raise_if (not (t.user_id == u)) forbidden
    let new = updated_row t d
    account ← require (owned_account db new.broker_account_id u) invalid_transaction
    validate_shift db u t new
    (row, db') ← write_row new db
    ok (some (t.bond_id, row), db')

  unfoldable pub update_body : ℕ → TransactionUpdate W → ℕ → Body W (Option (ℕ × Transaction W))
  unfolding get_row update_found
  update_body i d u db = elim (get_row db i) [
    | none ↦ ok (none, db)
    | some t ↦ update_found u d t db
  ]

  -- The block of `delete_transaction` from the ownership test on; the bond of the deleted row.
  unfoldable pub delete_found : ℕ → Transaction W → Body W (Option ℕ)
  unfolding held_without remove_row
  delete_found u t db = do
    raise_if (not (t.user_id == u)) forbidden
    raise_if (ltb_ℤ (held_without db t.id u t.bond_id t.broker_account_id) (pos 0))
        insufficient_position
    ok (some t.bond_id, record db { transactions = remove_row t.id db.transactions })

  unfoldable pub delete_body : ℕ → ℕ → Body W (Option ℕ)
  unfolding get_row delete_found
  delete_body i u db = elim (get_row db i) [ none ↦ ok (none, db) | some t ↦ delete_found u t db ]
