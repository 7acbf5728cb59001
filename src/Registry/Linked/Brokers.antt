-- ===== src/Registry/Linked/Brokers.antt =====
-- The broker methods of src/bond_accounting/brokers/service.py keep the tables linked.
use Prim.Native.String.{String}
use stocktaking.Prelude.{
  ℕ, ◌≡◌, refl, ◌∙◌, inl, inr, Bool, false, none, some, Option, Option-cases, List, [], ◌∷◌, ◌++◌,
  any, keep_if, ◌==◌, map,
}
use stocktaking.Prelude.Outcome.{ok, raise_if, >>-eq-ok}
use stocktaking.Registry.Table.{amend}
use stocktaking.Registry.Table.Laws.{
  any-append_left, any-amend, keep_if-none, Distinct-snoc, Distinct-amend, Distinct-remove,
}
use stocktaking.Registry.Table.Texts.{
  DistinctTexts-snoc, DistinctTexts-remove, DistinctTexts-amend_kept, DistinctTexts-amend_new,
}
use stocktaking.Registry.Rows.{Broker, Tables, Keys}
use stocktaking.Registry.Payloads.{BrokerCreate, BrokerUpdate, changed_broker}
use stocktaking.Registry.Action.{Flushed, broker_name_duplicate, broker_has_accounts}
use stocktaking.Registry.Brokers.{
  name_taken, new_broker, create_broker_body, get_broker, renames_to_taken, update_broker_found,
  update_broker_body, at_broker, delete_accounts, delete_broker_found, delete_broker_body,
}
use stocktaking.Registry.Linked.{BrokersOk, IsLinked}
use stocktaking.Registry.Linked.Shapes.{
  AccountsOk-brokers, AccountsOk-remove, IsLinked-ok, raise_if-ok,
}

module _ {W : Type 0} where
  new_broker-BrokersOk :
      (keys : Keys) (d : BrokerCreate W) (bs : List (Broker W))
      → name_taken d.name bs ≡ false
      → BrokersOk bs
      → BrokersOk (bs ++ new_broker keys d bs ∷ [])
  unfolding new_broker
  new_broker-BrokersOk keys d bs free h = (
    Distinct-snoc (λ b. b.id) bs (new_broker keys d bs) h.0
        (keys.fresh_new (map (λ (b : Broker W). b.id) bs)),
    DistinctTexts-snoc (λ b. b.id) (λ b. b.name) bs (new_broker keys d bs) free h.1,
  )

  pub create_broker-IsLinked :
      (keys : Keys) (d : BrokerCreate W) (t : Tables W) (f : Flushed W (Broker W))
      → IsLinked t
      → create_broker_body keys d t ≡ ok f
      → IsLinked f.tables
  unfolding create_broker_body
  create_broker-IsLinked keys d t f h e =
      let (free, r) = >>-eq-ok (raise_if (name_taken d.name t.brokers) broker_name_duplicate) _ e in
      IsLinked-ok _ r (record {
        brokers = new_broker-BrokersOk keys d t.brokers (raise_if-ok _ _ free) h.brokers;
        accounts =
            AccountsOk-brokers t.users t.brokers (t.brokers ++ new_broker keys d t.brokers ∷ [])
              t.accounts
              (λ i p.
                any-append_left (λ b. b.id == i) t.brokers (new_broker keys d t.brokers ∷ []) p)
              h.accounts;
        bonds = h.bonds;
        coupons = h.coupons;
        transactions = h.transactions;
        operations = h.operations;
      })

  changed_broker-id : (d : BrokerUpdate W) (b : Broker W) → (changed_broker d b).id ≡ b.id
  unfolding changed_broker
  changed_broker-id d b = refl

  changed-DistinctNames :
      (i : ℕ) (d : BrokerUpdate W) (name : Option String) (bs : List (Broker W))
      → d.name ≡ name
      → renames_to_taken i name bs ≡ false
      → BrokersOk bs
      → BrokersOk (amend (λ b. b.id) i (changed_broker d) bs)
  unfolding changed_broker
  changed-DistinctNames i d none bs e g h = (
    Distinct-amend (λ b. b.id) i (changed_broker d) bs (changed_broker-id d) h.0,
    DistinctTexts-amend_kept (λ b. b.id) (λ b. b.name) i (changed_broker d) bs (λ b. rw e refl) h.1,
  )
  changed-DistinctNames i d (some n) bs e g h = (
    Distinct-amend (λ b. b.id) i (changed_broker d) bs (changed_broker-id d) h.0,
    DistinctTexts-amend_new (λ b. b.id) (λ b. b.name) n i (changed_broker d) bs (λ b. rw e refl) h.0
        g h.1,
  )

  pub update_broker-IsLinked :
      (i : ℕ) (d : BrokerUpdate W) (t : Tables W) (f : Flushed W (Option (Broker W)))
      → IsLinked t
      → update_broker_body i d t ≡ ok f
      → IsLinked f.tables
  unfolding update_broker_body update_broker_found
  update_broker-IsLinked i d t f h e = elim (Option-cases (get_broker i t)) [
    | inl gone ↦ IsLinked-ok _ (rw (gone, update_broker_body) at e) h
    | inr (b, found) ↦
        let (free, r) =
          >>-eq-ok (raise_if (renames_to_taken i d.name t.brokers) broker_name_duplicate) _
            (rw (found, update_broker_body) at e) in
        IsLinked-ok _ r (record {
          brokers =
              changed-DistinctNames i d d.name t.brokers refl (raise_if-ok _ _ free) h.brokers;
          accounts =
              AccountsOk-brokers t.users t.brokers
                (amend (λ x. x.id) i (changed_broker d) t.brokers) t.accounts
                (λ j p.
                  any-amend (λ x. x.id) (λ x. x.id == j) i (changed_broker d) t.brokers
                    (λ x. rw (changed_broker-id d x) refl)
                  ∙ p)
                h.accounts;
          bonds = h.bonds;
          coupons = h.coupons;
          transactions = h.transactions;
          operations = h.operations;
        })
  ]

  -- With no account there is nothing to cascade to.
  pub delete_accounts-none :
      (i : ℕ) (t : Tables W)
      → any (at_broker i) t.accounts ≡ false
      → delete_accounts (keep_if (at_broker i) t.accounts) t ≡ t
  unfolding delete_accounts
  delete_accounts-none i t e = rw (keep_if-none (at_broker i) t.accounts e) refl

  pub delete_broker-IsLinked :
      (i : ℕ) (t : Tables W) (f : Flushed W Bool)
      → IsLinked t
      → delete_broker_body i t ≡ ok f
      → IsLinked f.tables
  unfolding delete_broker_body delete_broker_found
  delete_broker-IsLinked i t f h e = elim (Option-cases (get_broker i t)) [
    | inl gone ↦ IsLinked-ok _ (rw (gone, delete_broker_body) at e) h
    | inr (b, found) ↦
        let (free, r) =
          >>-eq-ok (raise_if (any (at_broker i) t.accounts) broker_has_accounts) _
            (rw (found, delete_broker_body) at e) in
        let none_there = raise_if-ok _ _ free in
        IsLinked-ok _ (rw (delete_accounts-none i t none_there) at r) (record {
          brokers = (
            Distinct-remove (λ x. x.id) i t.brokers h.brokers.0,
            DistinctTexts-remove (λ x. x.id) (λ x. x.name) i t.brokers h.brokers.1,
          );
          accounts = AccountsOk-remove t.users i t.brokers t.accounts none_there h.accounts;
          bonds = h.bonds;
          coupons = h.coupons;
          transactions = h.transactions;
          operations = h.operations;
        })
  ]
