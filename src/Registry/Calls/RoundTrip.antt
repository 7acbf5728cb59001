-- ===== src/Registry/Calls/RoundTrip.antt =====
-- `create`, `get`, `get_by_isin` and `delete` of src/bond_accounting/bonds/service.py, one after the
-- other.
use text.Mathlib.Text.{◌==◌ as same_text}
use text.Mathlib.TextEquality.{eq_iff}
use stocktaking.Prelude.{
  ℕ, ◌≡◌, ◌≢◌, refl, sym, ap, ◌∙◌, inl, inr, true, false, not, some, List, [], ◌∷◌, ◌++◌, any, All,
  All-kept, map, ◌==◌, ==→eq, arith, Bool-cases,
}
use stocktaking.Prelude.Outcome.{Outcome-cases, ok, err, raise_if, ok-injective, >>-eq-ok}
use stocktaking.Portfolio.Transaction.{Transaction}
use stocktaking.Registry.Table.{has, remove}
use stocktaking.Registry.Table.Laws.{find-snoc, keep_if-all}
use stocktaking.Registry.Rows.{Bond, BondCoupon, Tables, Keys}
use stocktaking.Registry.Payloads.{BondCreate}
use stocktaking.Registry.Action.{
  Result, Flushed, World, isin_duplicate, store_tables, settle, publish_each, commit,
}
use stocktaking.Registry.Accounts.{is_user}
use stocktaking.Registry.Bonds.{
  on_bond, ids_from, holder_ids, isin_taken, new_bond, create_body, create, get_bond, get_by_isin,
  delete_bond_rows, delete_found, delete_body, delete,
}
use stocktaking.Registry.Linked.{IsLinked}
use stocktaking.Registry.Linked.Shapes.{raise_if-ok}

remove-snoc :
    {A : Type 0} (key : A → ℕ) (i : ℕ) (xs : List A) (y : A)
    → has key i xs ≡ false
    → (key y == i) ≡ true
    → remove key i (xs ++ y ∷ []) ≡ xs
unfolding remove
remove-snoc key i [] y h e = rw e refl
remove-snoc key i (x ∷ xs) y h e = ground (arith, remove-snoc key i xs y)

fresh-absent :
    {A : Type 0} (key : A → ℕ) (i : ℕ) (xs : List A)
    → All (λ (k : ℕ). k ≢ i) (map key xs)
    → has key i xs ≡ false
fresh-absent key i [] h = refl
fresh-absent key i (x ∷ xs) h = ground (arith, h.0, fresh-absent key i xs h.1)

-- No row refers to a key that no row has.
no_reference :
    {A B : Type 0} (key : A → ℕ) (ref : B → ℕ) (i : ℕ) (xs : List A) (ys : List B)
    → has key i xs ≡ false
    → All (λ (y : B). has key (ref y) xs ≡ true) ys
    → any (λ (y : B). ref y == i) ys ≡ false
no_reference key ref i xs [] h k = refl
no_reference key ref i xs (y ∷ ys) h k = elim (Bool-cases (ref y == i)) [
  | inl q ↦ cc (h, rw (==→eq (ref y) i q) at k.0)
  | inr q ↦ rw q (no_reference key ref i xs ys h k.1)
]

module _ {W : Type 0} where
  no_holders : (i : ℕ) (ts : List (Transaction W)) → any (on_bond i) ts ≡ false → ids_from i ts ≡ []
  unfolding ids_from
  no_holders i [] h = refl
  no_holders i (x ∷ ts) h = ground (arith, no_holders i ts)

  settle-ok :
      {A : Type 0} (f : Flushed W A) (r : Result (Unit {0}) × World W) {a : A}
      → f.commits ≡ true
      → (settle f r).0 ≡ ok a
      → (f.value ≡ a) × ((settle f r).1.tables ≡ f.tables)
  unfolding settle store_tables
  settle-ok f (ok _, w) c h = elim (Bool-cases (w.can_commit w.clock)) [
    | inl taken ↦ rw (c, taken) (ok-injective (rw (c, taken) at h), refl)
    | inr failed ↦ cc (rw (c, failed) at h)
  ]
  settle-ok f (err _, w) c h = cc

  -- What a method that succeeds and always commits has done.
  commit-ok :
      {A : Type 0} (body : Tables W → Result (Flushed W A)) (w : World W) {a : A}
      → ((f : Flushed W A) → body w.tables ≡ ok f → f.commits ≡ true)
      → (commit body w).0 ≡ ok a
      → (f : Flushed W A) × (body w.tables ≡ ok f)
        × (f.value ≡ a)
        × ((commit body w).1.tables ≡ f.tables)
  unfolding commit
  commit-ok body w c h = elim (Outcome-cases (body w.tables)) [
    | inl (e, q) ↦ cc (rw (q, commit) at h)
    | inr (f, q) ↦
        let (v, k) = settle-ok f (publish_each f.events w) (c f q) (rw (q, commit) at h) in
        (f, q, v, rw (q, commit) k)
  ]

  added : Keys → BondCreate W → ℕ → Tables W → Tables W
  added keys d u t = record t { bonds = t.bonds ++ new_bond keys d u t.bonds ∷ [] }

  created_absent :
      (keys : Keys) (d : BondCreate W) (u : ℕ) (bs : List (Bond W))
      → has (λ b. b.id) (new_bond keys d u bs).id bs ≡ false
  unfolding new_bond
  created_absent keys d u bs =
      fresh-absent (λ b. b.id) _ bs (keys.fresh_new (map (λ (b : Bond W). b.id) bs))

  untraded :
      (keys : Keys) (d : BondCreate W) (u : ℕ) (t : Tables W)
      → IsLinked t
      → any (on_bond (new_bond keys d u t.bonds).id) t.transactions ≡ false
  untraded keys d u t h =
      no_reference (λ b. b.id) (λ x. x.bond_id) (new_bond keys d u t.bonds).id t.bonds
        t.transactions (created_absent keys d u t.bonds)
        (All-kept _ _ (λ x p. p.0) t.transactions h.transactions)

  get_bond-added :
      (keys : Keys) (d : BondCreate W) (u : ℕ) (t : Tables W)
      → get_bond (new_bond keys d u t.bonds).id (added keys d u t)
        ≡ some (new_bond keys d u t.bonds)
  unfolding get_bond added
  get_bond-added keys d u t =
      find-snoc (λ b. b.id == (new_bond keys d u t.bonds).id) t.bonds (new_bond keys d u t.bonds)
        (created_absent keys d u t.bonds) (ground arith)

  get_by_isin-added :
      (keys : Keys) (d : BondCreate W) (u : ℕ) (t : Tables W)
      → isin_taken d.isin t.bonds ≡ false
      → get_by_isin d.isin (added keys d u t) ≡ some (new_bond keys d u t.bonds)
  unfolding get_by_isin added new_bond
  get_by_isin-added keys d u t free =
      find-snoc (λ b. same_text b.isin d.isin) t.bonds (new_bond keys d u t.bonds) free
        (ground (arith, eq_iff d.isin d.isin))

  delete_bond_rows-added :
      (keys : Keys) (d : BondCreate W) (u : ℕ) (t : Tables W)
      → IsLinked t
      → delete_bond_rows (new_bond keys d u t.bonds).id (added keys d u t) ≡ t
  unfolding delete_bond_rows added
  delete_bond_rows-added keys d u t h =
      let i = (new_bond keys d u t.bonds).id in
      let gone = created_absent keys d u t.bonds in
      rw
        (
          remove-snoc (λ b. b.id) i t.bonds (new_bond keys d u t.bonds) gone (ground arith),
          keep_if-all (λ (c : BondCoupon W). c.bond_id == i) t.coupons
              (no_reference (λ b. b.id) (λ c. c.bond_id) i t.bonds t.coupons gone h.coupons),
          keep_if-all (on_bond i) t.transactions (untraded keys d u t h),
        )
        refl

  own :
      (keys : Keys) (d : BondCreate W) (u : ℕ) (bs : List (Bond W))
      → ((new_bond keys d u bs).owner_id == u) ≡ true
  unfolding new_bond
  own keys d u bs = ground arith

  traded_nowhere :
      (keys : Keys) (d : BondCreate W) (u : ℕ) (t : Tables W)
      → IsLinked t
      → any (on_bond (new_bond keys d u t.bonds).id) (added keys d u t).transactions ≡ false
  unfolding added
  traded_nowhere keys d u t h = untraded keys d u t h

  delete_body-added :
      (keys : Keys) (d : BondCreate W) (u : ℕ) (t : Tables W)
      → IsLinked t
      → delete_body (new_bond keys d u t.bonds).id u (added keys d u t)
        ≡ ok (record { value = true; tables = t; events = []; commits = true })
  unfolding delete_body delete_found holder_ids
  delete_body-added keys d u t h =
      let i = (new_bond keys d u t.bonds).id in
      rw
        (
          get_bond-added keys d u t,
          delete_body,
          delete_found,
          own keys d u t.bonds,
          traded_nowhere keys d u t h,
          delete_bond_rows-added keys d u t h,
          no_holders i t.transactions (untraded keys d u t h),
        )
        refl

  create_body-ok :
      (keys : Keys) (d : BondCreate W) (u : ℕ) (t : Tables W) (f : Flushed W (Bond W))
      → create_body keys d u t ≡ ok f
      → (isin_taken d.isin t.bonds ≡ false)
        × (new_bond keys d u t.bonds ≡ f.value)
        × (added keys d u t ≡ f.tables)
  unfolding create_body added
  create_body-ok keys d u t f e =
      let (free, r) = >>-eq-ok (raise_if (isin_taken d.isin t.bonds) isin_duplicate) _ e in
      let (user, r2) = >>-eq-ok (raise_if (not (is_user u t.users)) isin_duplicate) _ r in
      (
        raise_if-ok _ _ free,
        ap (λ (x : Flushed W (Bond W)). x.value) (ok-injective r2),
        ap (λ (x : Flushed W (Bond W)). x.tables) (ok-injective r2),
      )

  commit-silent :
      {A : Type 0} (body : Tables W → Result (Flushed W A)) (w : World W) (a : A) (t : Tables W)
      → body w.tables ≡ ok (record { value = a; tables = t; events = []; commits = true })
      → w.can_commit w.clock ≡ true
      → ((commit body w).0 ≡ ok a) × ((commit body w).1.tables ≡ t)
  unfolding commit settle store_tables publish_each
  commit-silent body w a t h c = rw (h, commit, c) (refl, refl)

  create_body-commits :
      (keys : Keys) (d : BondCreate W) (u : ℕ) (t : Tables W) (f : Flushed W (Bond W))
      → create_body keys d u t ≡ ok f
      → f.commits ≡ true
  unfolding create_body
  create_body-commits keys d u t f e = ground (arith, e)

  -- On linked tables, a bond that `create` returns is found by its key and by its ISIN, and when
  -- its owner then deletes it and the commit does not fail, `delete` returns True and the tables are
  -- what they were.
  pub create-delete :
      (keys : Keys) (d : BondCreate W) (u : ℕ) (w : World W) (b : Bond W)
      → IsLinked w.tables
      → (create keys d u w).0 ≡ ok b
      → (create keys d u w).1.can_commit (create keys d u w).1.clock ≡ true
      → (get_bond b.id (create keys d u w).1.tables ≡ some b)
        × (get_by_isin d.isin (create keys d u w).1.tables ≡ some b)
        × ((delete b.id u (create keys d u w).1).0 ≡ ok true)
        × ((delete b.id u (create keys d u w).1).1.tables ≡ w.tables)
  unfolding create delete
  create-delete keys d u w b h e c =
      let (f, made, value, stored) =
        commit-ok (create_body keys d u) w (create_body-commits keys d u w.tables) e in
      let (free, row, tables) = create_body-ok keys d u w.tables f made in
      let v = (commit (create_body keys d u) w).1 in
      let is_b : new_bond keys d u w.tables.bonds ≡ b = row ∙ value in
      let holds : v.tables ≡ added keys d u w.tables = stored ∙ sym tables in
      let (gone, left) =
        commit-silent (delete_body b.id u) v true w.tables
          (rw (holds, ← is_b) (delete_body-added keys d u w.tables h)) c in
      (
        rw (holds, ← is_b) (get_bond-added keys d u w.tables),
        rw (holds, ← is_b) (get_by_isin-added keys d u w.tables free),
        gone,
        left,
      )
