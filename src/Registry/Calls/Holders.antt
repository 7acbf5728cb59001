-- ===== src/Registry/Calls/Holders.antt =====
-- `_holder_ids` of src/bond_accounting/bonds/service.py: whom a bond's event is for.
use mathlib.Core.Option.{some-injective}
use stocktaking.Prelude.{
  ℕ, ◌≡◌, ◌∙◌, refl, sym, ap, inl, inr, true, ◌&&◌, ◌||◌, Option, some, Option-cases, List, [], ◌∷◌,
  ◌++◌, map, any, All, All-kept, ltb, ◌==◌, arith, Bool-cases,
}
use stocktaking.Prelude.Outcome.{Outcome-cases, ok, err, ok-injective, >>-eq-ok}
use stocktaking.Portfolio.Transaction.{Transaction}
use stocktaking.Registry.Rows.{Bond, Tables}
use stocktaking.Registry.Payloads.{BondUpdate, changed_bond}
use stocktaking.Registry.Action.{
  Result, Event, bond_updated, World, Flushed, publish_each, store_tables, settle, commit,
}
use stocktaking.Registry.Bonds.{
  insert_id, on_bond, ids_from, holder_ids, get_bond, update_found, update_body, update,
}
use stocktaking.Registry.Calls.Rejected.{Publishes, publish_each-Publishes}

-- Each id is above the one before it.
abbrev pub Ascends : List ℕ → Type 0
Ascends [] = Unit
Ascends (x ∷ xs) = All (λ (y : ℕ). ltb x y ≡ true) xs × Ascends xs

All-insert_id : (P : ℕ → Type 0) (x : ℕ) (xs : List ℕ) → P x → All P xs → All P (insert_id x xs)
unfolding insert_id
All-insert_id P x [] p h = (p, tt)
All-insert_id P x (y ∷ ys) p h = elim (Bool-cases (ltb x y)) [
  | inl e ↦ rw e (p, h)
  | inr e ↦ elim (Bool-cases (x == y)) [
    | inl q ↦ rw (e, q) h
    | inr q ↦ rw (e, q) (h.0, All-insert_id P x ys p h.1)
  ]
]

insert_id-Ascends : (x : ℕ) (xs : List ℕ) → Ascends xs → Ascends (insert_id x xs)
unfolding insert_id
insert_id-Ascends x [] h = (tt, tt)
insert_id-Ascends x (y ∷ ys) h = elim (Bool-cases (ltb x y)) [
  | inl e ↦ rw e ((e, All-kept _ _ (λ z q. ground (arith, e, q)) ys h.0), h)
  | inr e ↦ elim (Bool-cases (x == y)) [
    | inl q ↦ rw (e, q) h
    | inr q ↦
        rw (e, q) (All-insert_id _ x ys (ground (arith, e, q)) h.0, insert_id-Ascends x ys h.1)
  ]
]

any-insert_id :
    (u x : ℕ) (xs : List ℕ) → any (λ y. y == u) (insert_id x xs) ≡ (x == u || any (λ y. y == u) xs)
unfolding insert_id
any-insert_id u x [] = ground arith
any-insert_id u x (y ∷ ys) = ground (arith, any-insert_id u x ys)

module _ {W : Type 0} where
  ids_from-Ascends : (i : ℕ) (ts : List (Transaction W)) → Ascends (ids_from i ts)
  unfolding ids_from
  ids_from-Ascends i [] = tt
  ids_from-Ascends i (x ∷ ts) = elim (Bool-cases (on_bond i x)) [
    | inl e ↦ rw e (insert_id-Ascends x.user_id (ids_from i ts) (ids_from-Ascends i ts))
    | inr e ↦ rw e (ids_from-Ascends i ts)
  ]

  any-ids_from :
      (u i : ℕ) (ts : List (Transaction W))
      → any (λ y. y == u) (ids_from i ts)
        ≡ any (λ (x : Transaction W). on_bond i x && x.user_id == u) ts
  unfolding ids_from
  any-ids_from u i [] = refl
  any-ids_from u i (x ∷ ts) = elim (Bool-cases (on_bond i x)) [
    | inl e ↦ rw e (any-insert_id u x.user_id (ids_from i ts) ∙ ground (arith, any-ids_from u i ts))
    | inr e ↦ rw e (any-ids_from u i ts)
  ]

  -- The users with a transaction on the bond, in ascending order without repetition.
  abbrev pub AreHolders : List ℕ → ℕ → Tables W → Type 0
  AreHolders hs i t =
      Ascends hs
      × ((u : ℕ)
          → any (λ y. y == u) hs
            ≡ any (λ (x : Transaction W). x.bond_id == i && x.user_id == u) t.transactions)

  holder_ids_lem : (i : ℕ) (t : Tables W) → AreHolders (holder_ids i t) i t
  unfolding holder_ids
  holder_ids_lem i t = (ids_from-Ascends i t.transactions, λ u. any-ids_from u i t.transactions)

  settle-published :
      {A : Type 0} (f : Flushed W A) (w : World W) (r : Result (Unit {0}) × World W) {a : A}
      → Publishes f.events w r
      → (settle f r).0 ≡ ok a
      → (f.value ≡ a) × ((settle f r).1.published ≡ w.published ++ f.events)
  unfolding settle store_tables
  settle-published f w (ok _, v) (t, more, p, inr q) e = cc
  settle-published f w (ok _, v) (t, more, p, inl (q, all)) e = elim (Bool-cases f.commits) [
    | inr nothing ↦
        rw nothing
          (ok-injective (rw nothing at e), p ∙ ap (λ (l : List (Event W)). w.published ++ l) all)
    | inl ends ↦ elim (Bool-cases (v.can_commit v.clock)) [
      | inl taken ↦
          rw (ends, taken)
            (
              ok-injective (rw (ends, taken) at e),
              p ∙ ap (λ (l : List (Event W)). w.published ++ l) all,
            )
      | inr failed ↦ cc (rw (ends, failed) at e)
    ]
  ]
  settle-published f w (err x, v) h e = cc

  -- What a method that succeeds has published.
  commit-published :
      {A : Type 0} (body : Tables W → Result (Flushed W A)) (w : World W) {a : A}
      → (commit body w).0 ≡ ok a
      → (f : Flushed W A) × (body w.tables ≡ ok f)
        × (f.value ≡ a)
        × ((commit body w).1.published ≡ w.published ++ f.events)
  unfolding commit
  commit-published body w e = elim (Outcome-cases (body w.tables)) [
    | inl (x, q) ↦ cc (rw (q, commit) at e)
    | inr (f, q) ↦
        let (v, p) =
          settle-published f w (publish_each f.events w) (publish_each-Publishes f.events w)
            (rw (q, commit) at e) in
        (f, q, v, rw (q, commit) p)
  ]

  update_found-events :
      (i : ℕ) (d : BondUpdate W) (u : ℕ) (t : Tables W) (old b : Bond W)
      (f : Flushed W (Option (Bond W)))
      → update_found i d u t old ≡ ok f
      → f.value ≡ some b
      → f.events ≡ map (λ (h : ℕ). bond_updated b h) (holder_ids i t)
  unfolding update_found
  update_found-events i d u t old b f e v =
      let (_, made) = >>-eq-ok _ _ e in
      let is_b : changed_bond d old ≡ b =
        some-injective _ _
          (ap (λ (x : Flushed W (Option (Bond W))). x.value) (ok-injective made) ∙ v) in
      sym (ap (λ (x : Flushed W (Option (Bond W))). x.events) (ok-injective made))
      ∙ ap (λ (x : Bond W). map (λ (h : ℕ). bond_updated x h) (holder_ids i t)) is_b

  update_body-events :
      (i : ℕ) (d : BondUpdate W) (u : ℕ) (t : Tables W) (b : Bond W)
      (f : Flushed W (Option (Bond W)))
      → update_body i d u t ≡ ok f
      → f.value ≡ some b
      → f.events ≡ map (λ (h : ℕ). bond_updated b h) (holder_ids i t)
  unfolding update_body
  update_body-events i d u t b f e v = elim (Option-cases (get_bond i t)) [
    | inl gone ↦ cc (
      ap (λ (x : Flushed W (Option (Bond W))). x.value)
          (ok-injective (rw (gone, update_body) at e)),
      v,
    )
    | inr (old, found) ↦ update_found-events i d u t old b f (rw (found, update_body) at e) v
  ]

  -- An update that returns the changed bond has published one event of it for each user with a
  -- transaction on the bond and no other event, in ascending order of the users.
  pub update-published :
      (i : ℕ) (d : BondUpdate W) (u : ℕ) (w : World W) (b : Bond W)
      → (update i d u w).0 ≡ ok (some b)
      → (hs : List ℕ) × AreHolders hs i w.tables
        × ((update i d u w).1.published ≡ w.published ++ map (λ (h : ℕ). bond_updated b h) hs)
  unfolding update
  update-published i d u w b e =
      let (f, made, value, published) = commit-published (update_body i d u) w e in
      (
        holder_ids i w.tables,
        holder_ids_lem i w.tables,
        published
            ∙ ap (λ (l : List (Event W)). w.published ++ l)
                (update_body-events i d u w.tables b f made value),
      )
