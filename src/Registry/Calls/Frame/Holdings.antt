-- ===== src/Registry/Calls/Frame/Holdings.antt =====
-- The methods of bonds/service.py and account_operations/service.py of src/bond_accounting, one by
-- one: whose rows they change.
use stocktaking.Prelude.{ℕ, ◌≡◌, refl, inl, inr, Bool, false, not, Option, Option-cases, any, ◌==◌}
use stocktaking.Prelude.Outcome.{ok, raise_if, >>-eq-ok}
use stocktaking.Registry.Table.{get}
use stocktaking.Registry.Rows.{Bond, AccountOperation, Tables, Keys}
use stocktaking.Registry.Payloads.{
  BondCreate, BondUpdate, AccountOperationCreate, AccountOperationUpdate, changed_bond,
  changed_operation,
}
use stocktaking.Registry.Action.{
  Flushed, integrity, account_not_found, isin_duplicate, not_owned, deletion_blocked,
  operation_forbidden,
}
use stocktaking.Registry.Accounts.{is_user}
use stocktaking.Registry.Bonds.{
  on_bond, isin_taken, new_bond, create_body, get_bond, update_found, update_body, delete_found,
  delete_body,
}
use stocktaking.Registry.Operations.{
  owns, moves_to_foreign, new_operation, create_operation_body, update_operation_found,
  update_operation_body, delete_operation_found, delete_operation_body,
}
use stocktaking.Registry.Linked.{IsLinked}
use stocktaking.Registry.Linked.Shapes.{raise_if-ok}
use stocktaking.Registry.Linked.Bonds.{delete_bond_rows-none}
use stocktaking.Registry.Calls.Frame.{SameFor}
use stocktaking.Registry.Calls.Frame.Filter.{
  keep_if-snoc, keep_if-amend, keep_if-remove, Drops-found,
}
use stocktaking.Registry.Calls.Frame.Methods.{foreign, same, SameFor-ok}

module _ {W : Type 0} where
  pub create-SameFor :
      (v : ℕ) (keys : Keys) (d : BondCreate W) (u : ℕ) (t : Tables W) (f : Flushed W (Bond W))
      → (u == v) ≡ false
      → create_body keys d u t ≡ ok f
      → SameFor v t f.tables
  unfolding create_body new_bond
  create-SameFor v keys d u t f other e =
      let (free, r) = >>-eq-ok (raise_if (isin_taken d.isin t.bonds) isin_duplicate) _ e in
      let (user, r2) = >>-eq-ok (raise_if (not (is_user u t.users)) isin_duplicate) _ r in
      SameFor-ok v t _ r2 (record {
        users = refl;
        transactions = refl;
        accounts = refl;
        bonds = keep_if-snoc (λ b. b.owner_id == v) t.bonds (new_bond keys d u t.bonds) other;
        operations = refl;
      })

  pub update-SameFor :
      (v i : ℕ) (d : BondUpdate W) (u : ℕ) (t : Tables W) (f : Flushed W (Option (Bond W)))
      → IsLinked t
      → (u == v) ≡ false
      → update_body i d u t ≡ ok f
      → SameFor v t f.tables
  unfolding update_body update_found changed_bond get_bond
  update-SameFor v i d u t f h other e = elim (Option-cases (get_bond i t)) [
    | inl gone ↦ SameFor-ok v t _ (rw (gone, update_body) at e) (same v t)
    | inr (b, found) ↦
        let (mine, r) =
          >>-eq-ok (raise_if (not (b.owner_id == u)) not_owned) _ (rw (found, update_body) at e) in
        SameFor-ok v t _ r (record {
          users = refl;
          transactions = refl;
          accounts = refl;
          bonds =
              keep_if-amend (λ x. x.id) (λ x. x.owner_id == v) i (changed_bond d) t.bonds
                (λ x. refl)
                (Drops-found (λ x. x.id) (λ x. x.owner_id == v) i t.bonds {r = b} h.bonds.0 found
                  (foreign b.owner_id u v _ mine other));
          operations = refl;
        })
  ]

  pub delete-SameFor :
      (v i u : ℕ) (t : Tables W) (f : Flushed W Bool)
      → IsLinked t
      → (u == v) ≡ false
      → delete_body i u t ≡ ok f
      → SameFor v t f.tables
  unfolding delete_body delete_found get_bond
  delete-SameFor v i u t f h other e = elim (Option-cases (get_bond i t)) [
    | inl gone ↦ SameFor-ok v t _ (rw (gone, delete_body) at e) (same v t)
    | inr (b, found) ↦
        let (mine, r) =
          >>-eq-ok (raise_if (not (b.owner_id == u)) not_owned) _ (rw (found, delete_body) at e) in
        let (free, r2) =
          >>-eq-ok (raise_if (any (on_bond i) t.transactions) deletion_blocked) _ r in
        SameFor-ok v t _ (rw (delete_bond_rows-none i t (raise_if-ok _ _ free)) at r2) (record {
          users = refl;
          transactions = refl;
          accounts = refl;
          bonds =
              keep_if-remove (λ x. x.id) (λ x. x.owner_id == v) i t.bonds
                (Drops-found (λ x. x.id) (λ x. x.owner_id == v) i t.bonds {r = b} h.bonds.0 found
                  (foreign b.owner_id u v _ mine other));
          operations = refl;
        })
  ]

  pub create_operation-SameFor :
      (v : ℕ) (keys : Keys) (d : AccountOperationCreate W) (u : ℕ) (t : Tables W)
      (f : Flushed W (AccountOperation W))
      → (u == v) ≡ false
      → create_operation_body keys d u t ≡ ok f
      → SameFor v t f.tables
  unfolding create_operation_body new_operation
  create_operation-SameFor v keys d u t f other e =
      let (mine, r) =
        >>-eq-ok (raise_if (not (owns u d.broker_account_id t.accounts)) account_not_found) _ e in
      let (user, r2) = >>-eq-ok (raise_if (not (is_user u t.users)) integrity) _ r in
      SameFor-ok v t _ r2 (record {
        users = refl;
        transactions = refl;
        accounts = refl;
        bonds = refl;
        operations =
            keep_if-snoc (λ o. o.user_id == v) t.operations (new_operation keys d u t.operations)
              other;
      })

  pub update_operation-SameFor :
      (v i : ℕ) (d : AccountOperationUpdate W) (u : ℕ) (t : Tables W)
      (f : Flushed W (Option (AccountOperation W)))
      → IsLinked t
      → (u == v) ≡ false
      → update_operation_body i d u t ≡ ok f
      → SameFor v t f.tables
  unfolding update_operation_body update_operation_found changed_operation
  update_operation-SameFor v i d u t f h other e =
      elim (Option-cases (get (λ (o : AccountOperation W). o.id) i t.operations)) [
        | inl gone ↦ SameFor-ok v t _ (rw (gone, update_operation_body) at e) (same v t)
        | inr (o, found) ↦
            let (mine, r) =
              >>-eq-ok (raise_if (not (o.user_id == u)) operation_forbidden) _
                (rw (found, update_operation_body) at e) in
            let (home, r2) =
              >>-eq-ok
                (raise_if (moves_to_foreign u d.broker_account_id t.accounts) account_not_found) _
                r in
            SameFor-ok v t _ r2 (record {
              users = refl;
              transactions = refl;
              accounts = refl;
              bonds = refl;
              operations =
                  keep_if-amend (λ x. x.id) (λ x. x.user_id == v) i (changed_operation d)
                    t.operations (λ x. refl)
                    (Drops-found (λ x. x.id) (λ x. x.user_id == v) i t.operations {r = o}
                      h.operations.0 found (foreign o.user_id u v _ mine other));
            })
      ]

  pub delete_operation-SameFor :
      (v i u : ℕ) (t : Tables W) (f : Flushed W Bool)
      → IsLinked t
      → (u == v) ≡ false
      → delete_operation_body i u t ≡ ok f
      → SameFor v t f.tables
  unfolding delete_operation_body delete_operation_found
  delete_operation-SameFor v i u t f h other e =
      elim (Option-cases (get (λ (o : AccountOperation W). o.id) i t.operations)) [
        | inl gone ↦ SameFor-ok v t _ (rw (gone, delete_operation_body) at e) (same v t)
        | inr (o, found) ↦
            let (mine, r) =
              >>-eq-ok (raise_if (not (o.user_id == u)) operation_forbidden) _
                (rw (found, delete_operation_body) at e) in
            SameFor-ok v t _ r (record {
              users = refl;
              transactions = refl;
              accounts = refl;
              bonds = refl;
              operations =
                  keep_if-remove (λ x. x.id) (λ x. x.user_id == v) i t.operations
                    (Drops-found (λ x. x.id) (λ x. x.user_id == v) i t.operations {r = o}
                      h.operations.0 found (foreign o.user_id u v _ mine other));
            })
      ]
