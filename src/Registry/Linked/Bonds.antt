-- ===== src/Registry/Linked/Bonds.antt =====
-- The methods of src/bond_accounting/bonds/service.py keep the tables linked.
use stocktaking.Prelude.{
  ℕ, ◌≡◌, refl, ◌∙◌, inl, inr, Bool, true, false, not, Option, Option-cases, List, [], ◌∷◌, ◌++◌,
  any, keep_if, ◌==◌, All-snoc, map,
}
use stocktaking.Prelude.Outcome.{ok, raise_if, >>-eq-ok}
use stocktaking.Registry.Table.{amend, remove}
use stocktaking.Registry.Table.Laws.{
  any-append_left, any-amend, keep_if-all, Distinct-snoc, Distinct-amend, Distinct-remove,
  All-amend, All-remove,
}
use stocktaking.Registry.Table.Texts.{
  DistinctTexts-snoc, DistinctTexts-remove, DistinctTexts-amend_kept,
}
use stocktaking.Registry.Rows.{Bond, BondCoupon, Tables, Keys}
use stocktaking.Registry.Payloads.{BondCreate, BondUpdate, changed_bond}
use stocktaking.Registry.Action.{Flushed, isin_duplicate, deletion_blocked, not_owned}
use stocktaking.Registry.Accounts.{is_user}
use stocktaking.Registry.Bonds.{
  on_bond, isin_taken, new_bond, create_body, get_bond, update_found, update_body, delete_bond_rows,
  delete_found, delete_body,
}
use stocktaking.Registry.Linked.{BondsOk, IsLinked}
use stocktaking.Registry.Linked.Shapes.{
  KeepsBonds, TransactionsOk-bonds, CouponsOk-bonds, TransactionsOk-no_bond, CouponsOk-remove,
  IsLinked-ok, raise_if-ok, not-false,
}

module _ {W : Type 0} where
  new_bond-BondsOk :
      (keys : Keys) (d : BondCreate W) (u : ℕ) (us : List ℕ) (bs : List (Bond W))
      → isin_taken d.isin bs ≡ false
      → is_user u us ≡ true
      → BondsOk us bs
      → BondsOk us (bs ++ new_bond keys d u bs ∷ [])
  unfolding new_bond
  new_bond-BondsOk keys d u us bs free user h = (
    Distinct-snoc (λ b. b.id) bs (new_bond keys d u bs) h.0
        (keys.fresh_new (map (λ (b : Bond W). b.id) bs)),
    DistinctTexts-snoc (λ b. b.id) (λ b. b.isin) bs (new_bond keys d u bs) free h.1,
    All-snoc _ bs (new_bond keys d u bs) h.2 user,
  )

  pub create-IsLinked :
      (keys : Keys) (d : BondCreate W) (u : ℕ) (t : Tables W) (f : Flushed W (Bond W))
      → IsLinked t
      → create_body keys d u t ≡ ok f
      → IsLinked f.tables
  unfolding create_body
  create-IsLinked keys d u t f h e =
      let (free, r) = >>-eq-ok (raise_if (isin_taken d.isin t.bonds) isin_duplicate) _ e in
      let (user, r2) = >>-eq-ok (raise_if (not (is_user u t.users)) isin_duplicate) _ r in
      let b = new_bond keys d u t.bonds in
      let kept : KeepsBonds t.bonds (t.bonds ++ b ∷ []) =
        λ i p. any-append_left (λ x. x.id == i) t.bonds (b ∷ []) p in
      IsLinked-ok _ r2 (record {
        brokers = h.brokers;
        accounts = h.accounts;
        bonds =
            new_bond-BondsOk keys d u t.users t.bonds (raise_if-ok _ _ free)
              (not-false _ (raise_if-ok _ _ user)) h.bonds;
        coupons = CouponsOk-bonds t.bonds (t.bonds ++ b ∷ []) t.coupons kept h.coupons;
        transactions =
            TransactionsOk-bonds t.bonds (t.bonds ++ b ∷ []) t.accounts t.transactions kept
              h.transactions;
        operations = h.operations;
      })

  changed_bond-kept :
      (d : BondUpdate W) (b : Bond W)
      → ((changed_bond d b).id ≡ b.id)
        × ((changed_bond d b).isin ≡ b.isin)
        × ((changed_bond d b).owner_id ≡ b.owner_id)
  unfolding changed_bond
  changed_bond-kept d b = (refl, refl, refl)

  changed_bond-BondsOk :
      (i : ℕ) (d : BondUpdate W) (us : List ℕ) (bs : List (Bond W))
      → BondsOk us bs
      → BondsOk us (amend (λ b. b.id) i (changed_bond d) bs)
  changed_bond-BondsOk i d us bs h = (
    Distinct-amend (λ b. b.id) i (changed_bond d) bs (λ b. (changed_bond-kept d b).0) h.0,
    DistinctTexts-amend_kept (λ b. b.id) (λ b. b.isin) i (changed_bond d) bs
        (λ b. (changed_bond-kept d b).1) h.1,
    All-amend (λ b. b.id) _ i (changed_bond d) bs (λ b p. unfold changed_bond in p) h.2,
  )

  pub update-IsLinked :
      (i : ℕ) (d : BondUpdate W) (u : ℕ) (t : Tables W) (f : Flushed W (Option (Bond W)))
      → IsLinked t
      → update_body i d u t ≡ ok f
      → IsLinked f.tables
  unfolding update_body update_found
  update-IsLinked i d u t f h e = elim (Option-cases (get_bond i t)) [
    | inl gone ↦ IsLinked-ok _ (rw (gone, update_body) at e) h
    | inr (b, found) ↦
        let (mine, r) =
          >>-eq-ok (raise_if (not (b.owner_id == u)) not_owned) _ (rw (found, update_body) at e) in
        let after = amend (λ x. x.id) i (changed_bond d) t.bonds in
        let kept : KeepsBonds t.bonds after = λ j p.
          any-amend (λ x. x.id) (λ x. x.id == j) i (changed_bond d) t.bonds
            (λ x. rw (changed_bond-kept d x).0 refl)
          ∙ p in
        IsLinked-ok _ r (record {
          brokers = h.brokers;
          accounts = h.accounts;
          bonds = changed_bond-BondsOk i d t.users t.bonds h.bonds;
          coupons = CouponsOk-bonds t.bonds after t.coupons kept h.coupons;
          transactions =
              TransactionsOk-bonds t.bonds after t.accounts t.transactions kept h.transactions;
          operations = h.operations;
        })
  ]

  -- With no transaction on the bond, the bond and its coupons go.
  pub delete_bond_rows-none :
      (i : ℕ) (t : Tables W)
      → any (on_bond i) t.transactions ≡ false
      → delete_bond_rows i t ≡ record t {
        bonds = remove (λ b. b.id) i t.bonds;
        coupons = keep_if (λ (c : BondCoupon W). not (c.bond_id == i)) t.coupons;
      }
  unfolding delete_bond_rows
  delete_bond_rows-none i t e = rw (keep_if-all (on_bond i) t.transactions e) refl

  pub delete-IsLinked :
      (i u : ℕ) (t : Tables W) (f : Flushed W Bool)
      → IsLinked t
      → delete_body i u t ≡ ok f
      → IsLinked f.tables
  unfolding delete_body delete_found
  delete-IsLinked i u t f h e = elim (Option-cases (get_bond i t)) [
    | inl gone ↦ IsLinked-ok _ (rw (gone, delete_body) at e) h
    | inr (b, found) ↦
        let (mine, r) =
          >>-eq-ok (raise_if (not (b.owner_id == u)) not_owned) _ (rw (found, delete_body) at e) in
        let (free, r2) =
          >>-eq-ok (raise_if (any (on_bond i) t.transactions) deletion_blocked) _ r in
        let none_there = raise_if-ok _ _ free in
        IsLinked-ok _ (rw (delete_bond_rows-none i t none_there) at r2) (record {
          brokers = h.brokers;
          accounts = h.accounts;
          bonds = (
            Distinct-remove (λ x. x.id) i t.bonds h.bonds.0,
            DistinctTexts-remove (λ x. x.id) (λ x. x.isin) i t.bonds h.bonds.1,
            All-remove (λ x. x.id) _ i t.bonds h.bonds.2,
          );
          coupons = CouponsOk-remove i t.bonds t.coupons h.coupons;
          transactions =
              TransactionsOk-no_bond i t.bonds t.accounts t.transactions none_there h.transactions;
          operations = h.operations;
        })
  ]
