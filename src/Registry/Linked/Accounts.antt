-- ===== src/Registry/Linked/Accounts.antt =====
-- The account methods of src/bond_accounting/brokers/service.py keep the tables linked.
use Prim.Native.String.{String}
use stocktaking.Prelude.{
  ℕ, ◌≡◌, refl, inl, inr, Bool, true, false, not, some, Option, Option-cases, List, [], ◌∷◌, ◌++◌,
  any, ◌==◌, All-snoc, map, arith,
}
use stocktaking.Prelude.Outcome.{ok, raise_if, >>-eq-ok}
use stocktaking.Portfolio.Transaction.{Transaction}
use stocktaking.Registry.Table.{get, has, amend, remove}
use stocktaking.Registry.Table.Laws.{
  keep_if-all, Distinct-snoc, Distinct-amend, Distinct-remove, All-amend, All-remove,
}
use stocktaking.Registry.Rows.{Broker, BrokerAccount, AccountOperation, Tables, Keys}
use stocktaking.Registry.Payloads.{BrokerAccountCreate, BrokerAccountUpdate, changed_account}
use stocktaking.Registry.Action.{
  Flushed, integrity, account_not_found, account_has_transactions, account_has_operations,
}
use stocktaking.Registry.Brokers.{get_broker, delete_account_rows}
use stocktaking.Registry.Accounts.{
  is_user, new_account, create_account_at, create_account_body, update_account_found,
  update_account_body, delete_account_found, delete_account_body,
}
use stocktaking.Registry.Linked.{AccountsOk, IsLinked}
use stocktaking.Registry.Linked.Shapes.{
  owns-snoc, owns-amend, TransactionsOk-owners, OperationsOk-owners, TransactionsOk-remove,
  OperationsOk-remove, IsLinked-ok, raise_if-ok, not-false,
}

get-has :
    {A : Type 0} (key : A → ℕ) (i : ℕ) (xs : List A) {r : A}
    → get key i xs ≡ some r
    → has key i xs ≡ true
get-has key i [] e = cc
get-has key i (x ∷ xs) {r} e = ground (arith, get-has key i xs {r = r})

changed_account-kept :
    (d : BrokerAccountUpdate) (a : BrokerAccount)
    → ((changed_account d a).id ≡ a.id)
      × ((changed_account d a).user_id ≡ a.user_id)
      × ((changed_account d a).broker_id ≡ a.broker_id)
unfolding changed_account
changed_account-kept d a = (refl, refl, refl)

module _ {W : Type 0} where
  new_account-AccountsOk :
      (keys : Keys) (d : BrokerAccountCreate) (u : ℕ) (us : List ℕ) (bs : List (Broker W))
      (xs : List BrokerAccount)
      → is_user u us ≡ true
      → has (λ b. b.id) d.broker_id bs ≡ true
      → AccountsOk us bs xs
      → AccountsOk us bs (xs ++ new_account keys d u xs ∷ [])
  unfolding new_account
  new_account-AccountsOk keys d u us bs xs user broker h = (
    Distinct-snoc (λ a. a.id) xs (new_account keys d u xs) h.0
        (keys.fresh_new (map (λ (a : BrokerAccount). a.id) xs)),
    All-snoc _ xs (new_account keys d u xs) h.1 (user, broker),
  )

  pub create_account-IsLinked :
      (keys : Keys) (d : BrokerAccountCreate) (u : ℕ) (t : Tables W)
      (f : Flushed W (BrokerAccount × String))
      → IsLinked t
      → create_account_body keys d u t ≡ ok f
      → IsLinked f.tables
  unfolding create_account_body create_account_at
  create_account-IsLinked keys d u t f h e = elim (Option-cases (get_broker d.broker_id t)) [
    | inl gone ↦ cc (rw (gone, create_account_body) at e)
    | inr (b, found) ↦
        let (user, r) =
          >>-eq-ok (raise_if (not (is_user u t.users)) integrity) _
            (rw (found, create_account_body) at e) in
        let a = new_account keys d u t.accounts in
        IsLinked-ok _ r (record {
          brokers = h.brokers;
          accounts =
              new_account-AccountsOk keys d u t.users t.brokers t.accounts
                (not-false _ (raise_if-ok _ _ user))
                (get-has (λ x. x.id) d.broker_id t.brokers {r = b} (unfold get_broker in found))
                h.accounts;
          bonds = h.bonds;
          coupons = h.coupons;
          transactions =
              TransactionsOk-owners t.bonds t.accounts (t.accounts ++ a ∷ []) t.transactions
                (owns-snoc t.accounts a) h.transactions;
          operations =
              OperationsOk-owners t.accounts (t.accounts ++ a ∷ []) t.operations
                (owns-snoc t.accounts a) h.operations;
        })
  ]

  pub update_account-IsLinked :
      (i : ℕ) (d : BrokerAccountUpdate) (u : ℕ) (t : Tables W)
      (f : Flushed W (Option (BrokerAccount × String)))
      → IsLinked t
      → update_account_body i d u t ≡ ok f
      → IsLinked f.tables
  unfolding update_account_body update_account_found
  update_account-IsLinked i d u t f h e =
      elim (Option-cases (get (λ (a : BrokerAccount). a.id) i t.accounts)) [
        | inl gone ↦ IsLinked-ok _ (rw (gone, update_account_body) at e) h
        | inr (a, found) ↦
            let (mine, r) =
              >>-eq-ok (raise_if (not (a.user_id == u)) account_not_found) _
                (rw (found, update_account_body) at e) in
            let after = amend (λ x. x.id) i (changed_account d) t.accounts in
            let kept =
              owns-amend i (changed_account d) t.accounts
                (λ x. ((changed_account-kept d x).0, (changed_account-kept d x).1)) in
            IsLinked-ok _ r (record {
              brokers = h.brokers;
              accounts = (
                Distinct-amend (λ x. x.id) i (changed_account d) t.accounts
                    (λ x. (changed_account-kept d x).0) h.accounts.0,
                All-amend (λ x. x.id) _ i (changed_account d) t.accounts
                    (λ x p. unfold changed_account in p) h.accounts.1,
              );
              bonds = h.bonds;
              coupons = h.coupons;
              transactions =
                  TransactionsOk-owners t.bonds t.accounts after t.transactions kept h.transactions;
              operations = OperationsOk-owners t.accounts after t.operations kept h.operations;
            })
      ]

  -- With no transaction and no operation only the account goes.
  pub delete_account_rows-none :
      (i : ℕ) (t : Tables W)
      → any (λ (x : Transaction W). x.broker_account_id == i) t.transactions ≡ false
      → any (λ (o : AccountOperation W). o.broker_account_id == i) t.operations ≡ false
      → delete_account_rows i t ≡ record t { accounts = remove (λ a. a.id) i t.accounts }
  unfolding delete_account_rows
  delete_account_rows-none i t no_txns no_ops =
      rw
        (
          keep_if-all (λ (x : Transaction W). x.broker_account_id == i) t.transactions no_txns,
          keep_if-all (λ (o : AccountOperation W). o.broker_account_id == i) t.operations no_ops,
        )
        refl

  pub delete_account-IsLinked :
      (i u : ℕ) (t : Tables W) (f : Flushed W Bool)
      → IsLinked t
      → delete_account_body i u t ≡ ok f
      → IsLinked f.tables
  unfolding delete_account_body delete_account_found
  delete_account-IsLinked i u t f h e =
      elim (Option-cases (get (λ (a : BrokerAccount). a.id) i t.accounts)) [
        | inl gone ↦ IsLinked-ok _ (rw (gone, delete_account_body) at e) h
        | inr (a, found) ↦
            let (mine, r) =
              >>-eq-ok (raise_if (not (a.user_id == u)) account_not_found) _
                (rw (found, delete_account_body) at e) in
            let (no_txns, r2) =
              >>-eq-ok
                (raise_if (any (λ (x : Transaction W). x.broker_account_id == i) t.transactions)
                  account_has_transactions)
                _ r in
            let (no_ops, r3) =
              >>-eq-ok
                (raise_if (any (λ (o : AccountOperation W). o.broker_account_id == i) t.operations)
                  account_has_operations)
                _ r2 in
            let txns = raise_if-ok _ _ no_txns in
            let ops = raise_if-ok _ _ no_ops in
            IsLinked-ok _ (rw (delete_account_rows-none i t txns ops) at r3) (record {
              brokers = h.brokers;
              accounts = (
                Distinct-remove (λ x. x.id) i t.accounts h.accounts.0,
                All-remove (λ x. x.id) _ i t.accounts h.accounts.1,
              );
              bonds = h.bonds;
              coupons = h.coupons;
              transactions =
                  TransactionsOk-remove t.bonds i t.accounts t.transactions txns h.transactions;
              operations = OperationsOk-remove i t.accounts t.operations ops h.operations;
            })
      ]
