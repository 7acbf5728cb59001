-- ===== src/Examples/RegistryRuns.antt =====
-- Runs of the services of brokers, bonds and account operations, with naturals for floats.
use Prim.Native.String.{String}
use stocktaking.Prelude.{map, ℕ, ◌≡◌, ◌==◌, ◌++◌, refl, true, none, some, List, [], ◌∷◌}
use stocktaking.Prelude.Outcome.{ok}
use stocktaking.Registry.Rows.{BrokerAccount, Bond, tax}
use stocktaking.Registry.Payloads.{
  BondCreate, BondUpdate, changed_bond, BrokerUpdate, AccountOperationCreate,
  AccountOperationUpdate,
}
use stocktaking.Registry.Action.{
  World, bond_updated, not_running, commit, settle, store_tables, publish_each,
  broker_name_duplicate, account_has_transactions,
}
use stocktaking.Registry.Brokers.{
  get_broker, update_broker, update_broker_body, update_broker_found,
}
use stocktaking.Registry.Accounts.{delete_account, delete_account_body, delete_account_found}
use stocktaking.Registry.Bonds.{
  insert_id, ids_from, create_body, holder_ids, new_bond, create, get_bond, get_by_isin, update,
  update_body, update_found, delete,
}
use stocktaking.Examples.Stock.{keys, stock}
use stocktaking.Sort.{sort_by, insert}
use stocktaking.Registry.Listings.{
  list_accounts, list_accounts_for_user, list_operations_for_account,
}
use stocktaking.Registry.Linked.{IsLinked}
use stocktaking.Registry.Calls.{
  Call, add_bond, edit_bond, edit_broker, drop_account, add_operation, edit_operation, perform,
  perform_all,
}
use stocktaking.Registry.Calls.Frame.{SameFor}
use stocktaking.Registry.Calls.Kept.{perform_all-IsLinked}
use stocktaking.Registry.Calls.Others.{perform_all-SameFor}
use stocktaking.Registry.Calls.Rejected.{RollsBack, perform_rejected}
use stocktaking.Registry.Calls.Holders.{AreHolders, update-published}
use stocktaking.Registry.Calls.RoundTrip.{create-delete}

stock-IsLinked : IsLinked stock
stock-IsLinked = record {
  brokers = ((refl, (refl, tt)), (refl, (refl, tt)));
  accounts = ((refl, (refl, tt)), ((refl, refl), ((refl, refl), tt)));
  bonds = ((refl, tt), (refl, tt), (refl, tt));
  coupons = (refl, tt);
  transactions = ((refl, refl), ((refl, refl), ((refl, refl), tt)));
  operations = ((refl, tt), (refl, tt));
}

abbrev world : World ℕ
world = record {
  tables = stock;
  published = [];
  clock = 0;
  is_running = λ _. true;
  can_commit = λ _. true;
}

-- a bus that stops after the first event
abbrev stopping_world : World ℕ
stopping_world = record world { is_running = λ n. n == 0 }

abbrev second : BondCreate ℕ
second = record {
  isin = "RU0000000002";
  name = "two";
  nominal = 500;
  coupon_rate = 6;
  coupon_period_days = 91;
  maturity_date = 900;
  issuer = none;
}

abbrev renamed : BondUpdate ℕ
renamed = record {
  name = some "first";
  nominal = none;
  coupon_rate = none;
  coupon_period_days = none;
  maturity_date = none;
  issuer = some (some "mint");
}

abbrev taxed : AccountOperationCreate ℕ
taxed = record { broker_account_id = 1; kind = tax; amount = 4; date = 210; note = none }

abbrev to_account_2 : AccountOperationUpdate ℕ
to_account_2 = record {
  broker_account_id = some 2;
  kind = none;
  amount = none;
  date = none;
  note = none;
}

abbrev to_south : BrokerUpdate ℕ
to_south = record {
  name = some "south";
  commission = none;
  min_commission = none;
  min_commission_type = none;
  description = none;
}

-- calls of user 1: three that succeed, and three that are refused
abbrev calls : List (Call ℕ)
calls =
    add_bond second 1
    ∷ edit_bond 1 renamed 1
    ∷ add_operation taxed 1
    ∷ edit_operation 2 to_account_2 1
    ∷ drop_account 1 1
    ∷ edit_broker 1 to_south
    ∷ []

perform_all-IsLinked_example : IsLinked (perform_all keys calls world).tables
perform_all-IsLinked_example = perform_all-IsLinked keys calls world stock-IsLinked

perform_all-SameFor_example : SameFor 2 world.tables (perform_all keys calls world).tables
perform_all-SameFor_example =
    perform_all-SameFor keys 2 calls world stock-IsLinked
      (refl, (refl, (refl, (refl, (refl, (tt, tt))))))

-- a name that another broker has
name_refused : (perform keys (edit_broker 1 to_south) world).0 ≡ some broker_name_duplicate
unfolding perform update_broker update_broker_body update_broker_found get_broker commit
name_refused = refl

account_refused : (perform keys (drop_account 1 1) world).0 ≡ some account_has_transactions
unfolding perform delete_account delete_account_body delete_account_found commit
account_refused = refl

abbrev second_row : Bond ℕ
second_row = record {
  id = 2;
  owner_id = 1;
  isin = "RU0000000002";
  name = "two";
  nominal = 500;
  coupon_rate = 6;
  coupon_period_days = 91;
  maturity_date = 900;
  issuer = none;
}

abbrev first_row : Bond ℕ
first_row = elim (get_bond 1 stock) [ some b ↦ changed_bond renamed b | none ↦ second_row ]

-- the first of two events has gone out
bus_stopped : (perform keys (edit_bond 1 renamed 1) stopping_world).0 ≡ some not_running
unfolding perform update update_body update_found get_bond holder_ids ids_from insert_id commit
    settle publish_each
bus_stopped = refl

perform_rejected_example :
    RollsBack stopping_world (perform keys (edit_bond 1 renamed 1) stopping_world)
perform_rejected_example =
    perform_rejected keys (edit_bond 1 renamed 1) stopping_world (λ e. cc (bus_stopped, e))

first_updated : (update 1 renamed 1 world).0 ≡ ok (some first_row)
unfolding update update_body update_found get_bond holder_ids ids_from insert_id commit settle
    store_tables publish_each
first_updated = refl

update-published_example :
    (hs : List ℕ) × AreHolders hs 1 stock
    × ((update 1 renamed 1 world).1.published ≡ [] ++ map (λ (h : ℕ). bond_updated first_row h) hs)
update-published_example = update-published 1 renamed 1 world first_row first_updated

two_holders : holder_ids 1 stock ≡ 1 ∷ 2 ∷ []
unfolding holder_ids ids_from insert_id
two_holders = refl

second_created : (create keys second 1 world).0 ≡ ok second_row
unfolding create create_body new_bond commit settle store_tables publish_each
second_created = refl

second_can_go :
    (create keys second 1 world).1.can_commit (create keys second 1 world).1.clock ≡ true
unfolding create create_body new_bond commit settle store_tables publish_each
second_can_go = refl

create-delete_example :
    (get_bond 2 (create keys second 1 world).1.tables ≡ some second_row)
    × (get_by_isin "RU0000000002" (create keys second 1 world).1.tables ≡ some second_row)
    × ((delete 2 1 (create keys second 1 world).1).0 ≡ ok true)
    × ((delete 2 1 (create keys second 1 world).1).1.tables ≡ stock)
create-delete_example =
    create-delete keys second 1 world second_row stock-IsLinked second_created second_can_go

listed : map (λ (x : BrokerAccount × String). x.1) (list_accounts_for_user 2 stock) ≡ "south" ∷ []
unfolding list_accounts_for_user list_accounts sort_by insert get_broker
listed = refl

listed_operations : list_operations_for_account 2 1 stock ≡ []
unfolding list_operations_for_account sort_by
listed_operations = refl
