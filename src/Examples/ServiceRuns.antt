-- ===== src/Examples/ServiceRuns.antt =====
use stocktaking.Prelude.{ℕ, ◌≡◌, ◌≢◌, ◌↔◌, ◌⊎◌, refl, true, some, none, [], ◌∷◌, ◌++◌, arith}
use stocktaking.Prelude.Int.{ℤ, pos, ◌≤ℤ◌, ◌+ℤ◌}
use stocktaking.Portfolio.Transaction.{buy, sell, is_buy}
use stocktaking.Portfolio.Dto.{TransactionCreate, TransactionUpdate, create_valid, update_valid}
use stocktaking.Portfolio.Store.{Database, owned_account, references_exist}
use stocktaking.Portfolio.Queries.{get_position}
use stocktaking.Portfolio.Result.{ok, err, insufficient_position, not_running}
use stocktaking.Portfolio.Action.{World, transaction_created, position_updated}
use stocktaking.Portfolio.Bodies.{signed, held, new_row, add_body}
use stocktaking.Portfolio.Held.{held-eq-total}
use stocktaking.Portfolio.Service.{add_transaction, update_transaction, delete_transaction}
use stocktaking.Portfolio.Invariant.{IsSound}
use stocktaking.Portfolio.Commands.{
  add_transaction-IsSound, update_transaction-IsSound, delete_transaction-IsSound,
}
use stocktaking.Portfolio.Commands.Errors.{commands_atomic}
use stocktaking.Portfolio.Commands.Events.{add_transaction-ok}
use stocktaking.Portfolio.Commands.Tests.{add_body-ok_iff}
use stocktaking.Examples.Whole.{whole, memory, sort, next_id, Row, row}

abbrev bought_row : Row
bought_row = row 1 buy 10 100 20

abbrev tables : Database ℤ
tables = record {
  users = 7 ∷ [];
  bonds = 3 ∷ 4 ∷ [];
  accounts = record { id = 5; user_id = 7 } ∷ [];
  transactions = bought_row ∷ [];
}

abbrev world : World ℤ
world = record { db = tables; running = true; published = [] }

-- a sale dated before the purchase
abbrev early_sale : TransactionCreate ℤ
early_sale = record {
  bond_id = 3;
  broker_account_id = 5;
  kind = sell;
  quantity = 4;
  price = pos 110;
  date = 10;
  commission = pos 0;
}

abbrev sold_row : Row
sold_row = record (row 2 sell 4 110 10) { commission = pos 0 }

abbrev sold_tables : Database ℤ
sold_tables = record tables { transactions = sold_row ∷ bought_row ∷ [] }

add_run : add_body memory 7 early_sale tables ≡ ok (sold_row, sold_tables)
unfolding add_body sort next_id ◌+ℤ◌
add_run = refl

-- all fields left as they are but the bond
abbrev to_bond_4 : TransactionUpdate ℤ
to_bond_4 = record {
  bond_id = some 4;
  broker_account_id = none;
  kind = none;
  quantity = none;
  price = none;
  date = none;
  commission = none;
}

tables-held : (u b a : ℕ) → pos 0 ≤ℤ held memory tables u b a
unfolding signed ◌+ℤ◌
tables-held u b a = rw (held-eq-total memory tables u b a) (ground arith)

tables-IsSound : IsSound memory tables
unfolding owned_account
tables-IsSound = record {
  unique = (refl, tt);
  positive = (omega arith, tt);
  owned = ((λ e. cc), tt);
  covered = tables-held;
}

add_transaction-IsSound_example : IsSound memory (add_transaction memory 7 early_sale world).1.db
unfolding create_valid
add_transaction-IsSound_example =
    add_transaction-IsSound memory 7 early_sale world refl tables-IsSound

update_transaction-IsSound_example :
    IsSound memory (update_transaction memory 1 to_bond_4 7 world).1.db
unfolding update_valid
update_transaction-IsSound_example =
    update_transaction-IsSound memory 1 to_bond_4 7 world refl tables-IsSound

delete_transaction-IsSound_example : IsSound memory (delete_transaction memory 1 7 world).1.db
delete_transaction-IsSound_example = delete_transaction-IsSound memory 1 7 world tables-IsSound

commands_atomic_example :
    ((add_transaction memory 8 early_sale world).0 ≡ err insufficient_position
      → (insufficient_position ≡ not_running)
        ⊎ ((add_transaction memory 8 early_sale world).1 ≡ world))
    × ((update_transaction memory 1 to_bond_4 8 world).0 ≡ err insufficient_position
        → (insufficient_position ≡ not_running)
          ⊎ ((update_transaction memory 1 to_bond_4 8 world).1 ≡ world))
    × ((delete_transaction memory 1 8 world).0 ≡ err insufficient_position
        → (insufficient_position ≡ not_running) ⊎ ((delete_transaction memory 1 8 world).1 ≡ world))
commands_atomic_example =
    commands_atomic memory 1 8 early_sale to_bond_4 world insufficient_position

add_transaction-ok_example : add_transaction memory 7 early_sale world ≡ (
  ok sold_row,
  record {
    db = sold_tables;
    running = true;
    published =
        ([] ++ transaction_created sold_row ∷ [])
        ++ position_updated (get_position memory sold_tables 7 3 none) ∷ [];
  },
)
add_transaction-ok_example =
    add_transaction-ok memory 7 early_sale world sold_row sold_tables refl add_run

add_body-ok_iff_example :
    (add_body memory 7 early_sale tables
      ≡ ok (
        new_row memory tables 7 early_sale,
        record tables { transactions = new_row memory tables 7 early_sale ∷ bought_row ∷ [] },
      ))
    ↔ ((owned_account tables 5 7 ≢ none)
        × ((is_buy sell ≡ true) ⊎ (pos 4 ≤ℤ held memory tables 7 3 5))
        × (references_exist tables (new_row memory tables 7 early_sale) ≡ true))
add_body-ok_iff_example = add_body-ok_iff memory 7 early_sale tables
