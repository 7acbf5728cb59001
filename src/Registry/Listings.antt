-- ===== src/Registry/Listings.antt =====
-- The list queries of brokers/service.py, bonds/service.py and account_operations/service.py of
-- src/bond_accounting.
use Prim.Native.String.{String}
use stocktaking.Prelude.{ℕ, Bool, ◌&&◌, Option, none, some, List, [], ◌∷◌, keep_if, ◌==◌}
use stocktaking.Sort.{sort_by}
use stocktaking.Registry.Rows.{Broker, BrokerAccount, Bond, AccountOperation, Tables}
use stocktaking.Registry.Accounts.{with_broker}

-- the rows that a join finds a partner for
abbrev pub joined : {A B : Type 0} → (A → Option B) → List A → List B
joined f [] = []
joined f (x ∷ xs) = let rest = joined f xs in elim (f x) [ none ↦ rest | some y ↦ y ∷ rest ]

module _ {W : Type 0} where
  unfoldable pub list_all_brokers : Tables W → List (Broker W)
  list_all_brokers t = sort_by (λ (b : Broker W). (b.id, 0)) t.brokers

  -- the accounts that pass a test, with the names of their brokers
  unfoldable pub list_accounts : (BrokerAccount → Bool) → Tables W → List (BrokerAccount × String)
  list_accounts passes t =
      joined (with_broker t)
        (sort_by (λ (a : BrokerAccount). (a.id, 0)) (keep_if passes t.accounts))

  unfoldable pub list_accounts_for_user : ℕ → Tables W → List (BrokerAccount × String)
  unfolding list_accounts
  list_accounts_for_user u t = list_accounts (λ a. a.user_id == u) t

  unfoldable pub list_accounts_for_broker : ℕ → Tables W → List (BrokerAccount × String)
  unfolding list_accounts
  list_accounts_for_broker i t = list_accounts (λ a. a.broker_id == i) t

  unfoldable pub list_all_bonds : Tables W → List (Bond W)
  list_all_bonds t = sort_by (λ (b : Bond W). (b.id, 0)) t.bonds

  unfoldable pub list_operations_for_user : ℕ → Tables W → List (AccountOperation W)
  list_operations_for_user u t =
      sort_by (λ (o : AccountOperation W). (o.date, o.id))
        (keep_if (λ (o : AccountOperation W). o.user_id == u) t.operations)

  unfoldable pub list_operations_for_account : ℕ → ℕ → Tables W → List (AccountOperation W)
  list_operations_for_account i u t =
      sort_by (λ (o : AccountOperation W). (o.date, o.id))
        (keep_if (λ (o : AccountOperation W). o.user_id == u && o.broker_account_id == i)
          t.operations)
