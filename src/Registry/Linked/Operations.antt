-- ===== src/Registry/Linked/Operations.antt =====
-- The methods of src/bond_accounting/account_operations/service.py keep the tables linked.
use stocktaking.Prelude.{
  ℕ, ◌≡◌, refl, inl, inr, Bool, true, false, not, none, some, Option, Option-cases, List, [], ◌∷◌,
  ◌++◌, ◌==◌, ==→eq, All-snoc, map,
}
use stocktaking.Prelude.Outcome.{ok, raise_if, >>-eq-ok}
use stocktaking.Registry.Table.{get}
use stocktaking.Registry.Table.Laws.{
  Distinct-snoc, Distinct-amend, Distinct-remove, All-get, All-amend_found, All-remove,
}
use stocktaking.Registry.Rows.{BrokerAccount, AccountOperation, Tables, Keys}
use stocktaking.Registry.Payloads.{
  AccountOperationCreate, AccountOperationUpdate, changed_operation,
}
use stocktaking.Registry.Action.{Flushed, integrity, account_not_found, operation_forbidden}
use stocktaking.Registry.Accounts.{is_user}
use stocktaking.Registry.Operations.{
  owns, moves_to_foreign, new_operation, create_operation_body, update_operation_found,
  update_operation_body, delete_operation_found, delete_operation_body,
}
use stocktaking.Registry.Linked.{OperationsOk, IsLinked}
use stocktaking.Registry.Linked.Shapes.{IsLinked-ok, raise_if-ok, not-false}

module _ {W : Type 0} where
  new_operation-OperationsOk :
      (keys : Keys) (d : AccountOperationCreate W) (u : ℕ) (xs : List BrokerAccount)
      (os : List (AccountOperation W))
      → owns u d.broker_account_id xs ≡ true
      → OperationsOk xs os
      → OperationsOk xs (os ++ new_operation keys d u os ∷ [])
  unfolding new_operation
  new_operation-OperationsOk keys d u xs os mine h = (
    Distinct-snoc (λ o. o.id) os (new_operation keys d u os) h.0
        (keys.fresh_new (map (λ (o : AccountOperation W). o.id) os)),
    All-snoc _ os (new_operation keys d u os) h.1 mine,
  )

  pub create_operation-IsLinked :
      (keys : Keys) (d : AccountOperationCreate W) (u : ℕ) (t : Tables W)
      (f : Flushed W (AccountOperation W))
      → IsLinked t
      → create_operation_body keys d u t ≡ ok f
      → IsLinked f.tables
  unfolding create_operation_body
  create_operation-IsLinked keys d u t f h e =
      let (mine, r) =
        >>-eq-ok (raise_if (not (owns u d.broker_account_id t.accounts)) account_not_found) _ e in
      let (user, r2) = >>-eq-ok (raise_if (not (is_user u t.users)) integrity) _ r in
      IsLinked-ok _ r2 (record {
        brokers = h.brokers;
        accounts = h.accounts;
        bonds = h.bonds;
        coupons = h.coupons;
        transactions = h.transactions;
        operations =
            new_operation-OperationsOk keys d u t.accounts t.operations
              (not-false _ (raise_if-ok _ _ mine)) h.operations;
      })

  -- A changed operation of u is on an account of u.
  changed_operation-owned :
      (d : AccountOperationUpdate W) (m : Option ℕ) (u : ℕ) (o : AccountOperation W)
      (xs : List BrokerAccount)
      → d.broker_account_id ≡ m
      → moves_to_foreign u m xs ≡ false
      → o.user_id ≡ u
      → owns o.user_id o.broker_account_id xs ≡ true
      → owns (changed_operation d o).user_id (changed_operation d o).broker_account_id xs ≡ true
  unfolding changed_operation
  changed_operation-owned d none u o xs e g mine h = rw e h
  changed_operation-owned d (some i) u o xs e g mine h = rw (e, mine) (not-false _ g)

  changed_operation-id :
      (d : AccountOperationUpdate W) (o : AccountOperation W) → (changed_operation d o).id ≡ o.id
  unfolding changed_operation
  changed_operation-id d o = refl

  pub update_operation-IsLinked :
      (i : ℕ) (d : AccountOperationUpdate W) (u : ℕ) (t : Tables W)
      (f : Flushed W (Option (AccountOperation W)))
      → IsLinked t
      → update_operation_body i d u t ≡ ok f
      → IsLinked f.tables
  unfolding update_operation_body update_operation_found
  update_operation-IsLinked i d u t f h e =
      elim (Option-cases (get (λ (o : AccountOperation W). o.id) i t.operations)) [
        | inl gone ↦ IsLinked-ok _ (rw (gone, update_operation_body) at e) h
        | inr (o, found) ↦
            let (mine, r) =
              >>-eq-ok (raise_if (not (o.user_id == u)) operation_forbidden) _
                (rw (found, update_operation_body) at e) in
            let (home, r2) =
              >>-eq-ok
                (raise_if (moves_to_foreign u d.broker_account_id t.accounts) account_not_found) _
                r in
            let owner = ==→eq o.user_id u (not-false _ (raise_if-ok _ _ mine)) in
            IsLinked-ok _ r2 (record {
              brokers = h.brokers;
              accounts = h.accounts;
              bonds = h.bonds;
              coupons = h.coupons;
              transactions = h.transactions;
              operations = (
                Distinct-amend (λ x. x.id) i (changed_operation d) t.operations
                    (changed_operation-id d) h.operations.0,
                All-amend_found (λ x. x.id) _ i (changed_operation d) t.operations {r = o}
                    h.operations.0 found
                    (changed_operation-owned d d.broker_account_id u o t.accounts refl
                      (raise_if-ok _ _ home) owner
                      (All-get (λ x. x.id) _ i t.operations {r = o} h.operations.1 found))
                    h.operations.1,
              );
            })
      ]

  pub delete_operation-IsLinked :
      (i u : ℕ) (t : Tables W) (f : Flushed W Bool)
      → IsLinked t
      → delete_operation_body i u t ≡ ok f
      → IsLinked f.tables
  unfolding delete_operation_body delete_operation_found
  delete_operation-IsLinked i u t f h e =
      elim (Option-cases (get (λ (o : AccountOperation W). o.id) i t.operations)) [
        | inl gone ↦ IsLinked-ok _ (rw (gone, delete_operation_body) at e) h
        | inr (o, found) ↦
            let (mine, r) =
              >>-eq-ok (raise_if (not (o.user_id == u)) operation_forbidden) _
                (rw (found, delete_operation_body) at e) in
            IsLinked-ok _ r (record {
              brokers = h.brokers;
              accounts = h.accounts;
              bonds = h.bonds;
              coupons = h.coupons;
              transactions = h.transactions;
              operations = (
                Distinct-remove (λ x. x.id) i t.operations h.operations.0,
                All-remove (λ x. x.id) _ i t.operations h.operations.1,
              );
            })
      ]
