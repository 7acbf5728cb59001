-- ===== src/Registry/Calls/Frame/Methods.antt =====
-- The methods of src/bond_accounting/brokers/service.py, one by one: whose rows they change.
use Prim.Native.String.{String}
use mathlib.Core.Path.{subst}
use stocktaking.Prelude.{
  ℕ, ◌≡◌, refl, inl, inr, Bool, false, not, Option, Option-cases, any, ◌==◌, ==→eq,
}
use stocktaking.Prelude.Outcome.{ok, raise_if, ok-injective, >>-eq-ok}
use stocktaking.Portfolio.Transaction.{Transaction}
use stocktaking.Registry.Table.{get}
use stocktaking.Registry.Rows.{Broker, BrokerAccount, AccountOperation, Tables, Keys}
use stocktaking.Registry.Payloads.{
  BrokerCreate, BrokerUpdate, BrokerAccountCreate, BrokerAccountUpdate, changed_account,
}
use stocktaking.Registry.Action.{
  Result, Flushed, integrity, broker_name_duplicate, broker_has_accounts, account_not_found,
  account_has_transactions, account_has_operations,
}
use stocktaking.Registry.Brokers.{
  name_taken, create_broker_body, get_broker, renames_to_taken, update_broker_found,
  update_broker_body, at_broker, delete_broker_found, delete_broker_body,
}
use stocktaking.Registry.Accounts.{
  is_user, new_account, create_account_at, create_account_body, update_account_found,
  update_account_body, delete_account_found, delete_account_body,
}
use stocktaking.Registry.Linked.{IsLinked}
use stocktaking.Registry.Linked.Shapes.{raise_if-ok, not-false}
use stocktaking.Registry.Linked.Brokers.{delete_accounts-none}
use stocktaking.Registry.Linked.Accounts.{delete_account_rows-none}
use stocktaking.Registry.Calls.Frame.{SameFor}
use stocktaking.Registry.Calls.Frame.Filter.{
  keep_if-snoc, keep_if-amend, keep_if-remove, Drops-found,
}

-- Who passes the guard for u is not v.
pub foreign :
    {E : Type 0} (a u v : ℕ) (e : E)
    → raise_if (not (a == u)) e ≡ ok tt
    → (u == v) ≡ false
    → (a == v) ≡ false
foreign a u v e mine other = rw (==→eq a u (not-false _ (raise_if-ok _ _ mine))) other

module _ {W : Type 0} where
  pub same : (v : ℕ) (t : Tables W) → SameFor v t t
  same v t = record {
    users = refl;
    transactions = refl;
    accounts = refl;
    bonds = refl;
    operations = refl;
  }

  pub SameFor-ok :
      {A : Type 0} (v : ℕ) (t : Tables W) (x : Flushed W A) {f : Flushed W A}
      → ◌≡◌ {A = Result (Flushed W A)} (ok x) (ok f)
      → SameFor v t x.tables
      → SameFor v t f.tables
  SameFor-ok v t x e h = subst (λ (f : Flushed W _). SameFor v t f.tables) (ok-injective e) h

  pub create_broker-SameFor :
      (v : ℕ) (keys : Keys) (d : BrokerCreate W) (t : Tables W) (f : Flushed W (Broker W))
      → create_broker_body keys d t ≡ ok f
      → SameFor v t f.tables
  unfolding create_broker_body
  create_broker-SameFor v keys d t f e =
      let (free, r) = >>-eq-ok (raise_if (name_taken d.name t.brokers) broker_name_duplicate) _ e in
      SameFor-ok v t _ r (record {
        users = refl;
        transactions = refl;
        accounts = refl;
        bonds = refl;
        operations = refl;
      })

  pub update_broker-SameFor :
      (v i : ℕ) (d : BrokerUpdate W) (t : Tables W) (f : Flushed W (Option (Broker W)))
      → update_broker_body i d t ≡ ok f
      → SameFor v t f.tables
  unfolding update_broker_body update_broker_found
  update_broker-SameFor v i d t f e = elim (Option-cases (get_broker i t)) [
    | inl gone ↦ SameFor-ok v t _ (rw (gone, update_broker_body) at e) (same v t)
    | inr (b, found) ↦
        let (free, r) =
          >>-eq-ok (raise_if (renames_to_taken i d.name t.brokers) broker_name_duplicate) _
            (rw (found, update_broker_body) at e) in
        SameFor-ok v t _ r (record {
          users = refl;
          transactions = refl;
          accounts = refl;
          bonds = refl;
          operations = refl;
        })
  ]

  pub delete_broker-SameFor :
      (v i : ℕ) (t : Tables W) (f : Flushed W Bool)
      → delete_broker_body i t ≡ ok f
      → SameFor v t f.tables
  unfolding delete_broker_body delete_broker_found
  delete_broker-SameFor v i t f e = elim (Option-cases (get_broker i t)) [
    | inl gone ↦ SameFor-ok v t _ (rw (gone, delete_broker_body) at e) (same v t)
    | inr (b, found) ↦
        let (free, r) =
          >>-eq-ok (raise_if (any (at_broker i) t.accounts) broker_has_accounts) _
            (rw (found, delete_broker_body) at e) in
        SameFor-ok v t _ (rw (delete_accounts-none i t (raise_if-ok _ _ free)) at r) (record {
          users = refl;
          transactions = refl;
          accounts = refl;
          bonds = refl;
          operations = refl;
        })
  ]

  pub create_account-SameFor :
      (v : ℕ) (keys : Keys) (d : BrokerAccountCreate) (u : ℕ) (t : Tables W)
      (f : Flushed W (BrokerAccount × String))
      → (u == v) ≡ false
      → create_account_body keys d u t ≡ ok f
      → SameFor v t f.tables
  unfolding create_account_body create_account_at new_account
  create_account-SameFor v keys d u t f other e = elim (Option-cases (get_broker d.broker_id t)) [
    | inl gone ↦ cc (rw (gone, create_account_body) at e)
    | inr (b, found) ↦
        let (user, r) =
          >>-eq-ok (raise_if (not (is_user u t.users)) integrity) _
            (rw (found, create_account_body) at e) in
        SameFor-ok v t _ r (record {
          users = refl;
          transactions = refl;
          accounts =
              keep_if-snoc (λ a. a.user_id == v) t.accounts (new_account keys d u t.accounts) other;
          bonds = refl;
          operations = refl;
        })
  ]

  pub update_account-SameFor :
      (v i : ℕ) (d : BrokerAccountUpdate) (u : ℕ) (t : Tables W)
      (f : Flushed W (Option (BrokerAccount × String)))
      → IsLinked t
      → (u == v) ≡ false
      → update_account_body i d u t ≡ ok f
      → SameFor v t f.tables
  unfolding update_account_body update_account_found changed_account
  update_account-SameFor v i d u t f h other e =
      elim (Option-cases (get (λ (a : BrokerAccount). a.id) i t.accounts)) [
        | inl gone ↦ SameFor-ok v t _ (rw (gone, update_account_body) at e) (same v t)
        | inr (a, found) ↦
            let (mine, r) =
              >>-eq-ok (raise_if (not (a.user_id == u)) account_not_found) _
                (rw (found, update_account_body) at e) in
            SameFor-ok v t _ r (record {
              users = refl;
              transactions = refl;
              accounts =
                  keep_if-amend (λ x. x.id) (λ x. x.user_id == v) i (changed_account d) t.accounts
                    (λ x. refl)
                    (Drops-found (λ x. x.id) (λ x. x.user_id == v) i t.accounts {r = a} h.accounts.0
                      found (foreign a.user_id u v _ mine other));
              bonds = refl;
              operations = refl;
            })
      ]

  pub delete_account-SameFor :
      (v i u : ℕ) (t : Tables W) (f : Flushed W Bool)
      → IsLinked t
      → (u == v) ≡ false
      → delete_account_body i u t ≡ ok f
      → SameFor v t f.tables
  unfolding delete_account_body delete_account_found
  delete_account-SameFor v i u t f h other e =
      elim (Option-cases (get (λ (a : BrokerAccount). a.id) i t.accounts)) [
        | inl gone ↦ SameFor-ok v t _ (rw (gone, delete_account_body) at e) (same v t)
        | inr (a, found) ↦
            let (mine, r) =
              >>-eq-ok (raise_if (not (a.user_id == u)) account_not_found) _
                (rw (found, delete_account_body) at e) in
            let (no_txns, r2) =
              >>-eq-ok
                (raise_if (any (λ (x : Transaction W). x.broker_account_id == i) t.transactions)
                  account_has_transactions)
                _ r in
            let (no_ops, r3) =
              >>-eq-ok
                (raise_if (any (λ (o : AccountOperation W). o.broker_account_id == i) t.operations)
                  account_has_operations)
                _ r2 in
            SameFor-ok v t _
              (rw (delete_account_rows-none i t (raise_if-ok _ _ no_txns) (raise_if-ok _ _ no_ops))
                at r3)
              (record {
                users = refl;
                transactions = refl;
                accounts =
                    keep_if-remove (λ x. x.id) (λ x. x.user_id == v) i t.accounts
                      (Drops-found (λ x. x.id) (λ x. x.user_id == v) i t.accounts {r = a}
                        h.accounts.0 found (foreign a.user_id u v _ mine other));
                bonds = refl;
                operations = refl;
              })
      ]
