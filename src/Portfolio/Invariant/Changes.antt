-- ===== src/Portfolio/Invariant/Changes.antt =====
-- The blocks of `update_transaction` and `delete_transaction` keep the invariant.
use mathlib.Core.Path.{subst}
use stocktaking.Prelude.{
  ℕ, ◌≡◌, refl, sym, ap, ◌∙◌, true, false, ◌&&◌, Option, none, some, arith, find, ◌==◌, Bool-cases,
  Option-cases, inl, inr,
}
use stocktaking.Prelude.Int.{pos, ◌≤ℤ◌, ◌+ℤ◌, ◌-ℤ◌, int_laws, +ℤ_parts}
use stocktaking.Floats.{FloatOps}
use stocktaking.Portfolio.Transaction.{Transaction, IsPositive, is_buy}
use stocktaking.Portfolio.Dto.{TransactionUpdate, update_valid}
use stocktaking.Portfolio.Store.{Database, Engine, has_id, owned_account, remove_row, replace_row}
use stocktaking.Portfolio.Queries.{selects}
use stocktaking.Portfolio.Result.{ok}
use stocktaking.Portfolio.Bodies.{
  held, held_without, signed, updated_row, validate_shift, write_row, update_found, update_body,
  delete_found, delete_body,
}
use stocktaking.Portfolio.Counting.{total, effect, total-remove, total-replace}
use stocktaking.Portfolio.Held.{share, held-eq-total, held_without-eq-total}
use stocktaking.Portfolio.Invariant.{IsOwned, IsSound}
use stocktaking.Portfolio.Invariant.Rows.{
  All-remove, All-replace, All-find, find-id, remove-UniqueIds, replace-UniqueIds,
}

module _ {W : Type 0} (eng : Engine W) (db : Database W) (h : IsSound eng db) (t : Transaction W)
    (found : find (has_id t.id) db.transactions ≡ some t) where
  -- Taking the row away changes the pair of the row and no other.
  held-remove :
      (u b a : ℕ)
      → total (share u b a) (remove_row t.id db.transactions) +ℤ share u b a t ≡ held eng db u b a
  held-remove u b a =
      rw (held-eq-total eng db u b a)
        (total-remove (share u b a) t.id t db.transactions h.unique found)

  remove-covered :
      pos 0 ≤ℤ held_without eng db t.id t.user_id t.bond_id t.broker_account_id
      → (u b a : ℕ) → pos 0 ≤ℤ total (share u b a) (remove_row t.id db.transactions)
  remove-covered test u b a = ground (
    arith,
    h.covered u b a,
    held-remove u b a,
    held_without-eq-total eng db t.id u b a,
    +ℤ_parts (total (share u b a) (remove_row t.id db.transactions)) (pos 0),
    test,
  )

  delete_found-ok :
      (u : ℕ) (b : Option ℕ) (db' : Database W)
      → delete_found eng u t db ≡ ok (b, db')
      → (t.user_id ≡ u)
        × (pos 0 ≤ℤ held_without eng db t.id t.user_id t.bond_id t.broker_account_id)
        × (db' ≡ record db { transactions = remove_row t.id db.transactions })
  unfolding delete_found
  delete_found-ok u b db' e = ground arith

  delete_found-IsSound :
      (u : ℕ) (b : Option ℕ) (db' : Database W)
      → delete_found eng u t db ≡ ok (b, db')
      → IsSound eng db'
  unfolding owned_account
  delete_found-IsSound u b db' e =
      let (own, test, written) = delete_found-ok u b db' e in
      subst (IsSound eng) (sym written) (record {
        unique = remove-UniqueIds t.id db.transactions h.unique;
        positive = All-remove IsPositive t.id db.transactions h.positive;
        owned = All-remove (IsOwned db) t.id db.transactions h.owned;
        covered = λ u b a. rw (held-eq-total eng _ u b a) (remove-covered test u b a);
      })

  -- What a block that does not raise has tested and written.
  abbrev Passed : ℕ → Transaction W → Type 0
  Passed u new = (t.user_id ≡ u) × IsOwned db new × (validate_shift eng db u t new ≡ ok tt)

  update_found-ok :
      (u : ℕ) (d : TransactionUpdate W) (r : Option (ℕ × Transaction W)) (db' : Database W)
      → update_found eng u d t db ≡ ok (r, db')
      → Passed u (updated_row t d)
        × (db' ≡ record db { transactions = replace_row (updated_row t d) db.transactions })
  unfolding update_found updated_row write_row
  update_found-ok u d r db' e = ground (arith, validate_shift eng db u t (updated_row t d))

  module _ (new : Transaction W) (same_id : new.id ≡ t.id) (same_user : new.user_id ≡ t.user_id)
      (test : validate_shift eng db t.user_id t new ≡ ok tt) where
    shift_at_new :
        pos 0 ≤ℤ held_without eng db t.id t.user_id new.bond_id new.broker_account_id +ℤ effect new
    unfolding validate_shift
    shift_at_new = ground (arith, signed new.kind new.quantity)

    -- A purchase that leaves its pair leaves enough behind.
    shift_at_old :
        is_buy t.kind ≡ true
        → (new.bond_id == t.bond_id && new.broker_account_id == t.broker_account_id) ≡ false
        → pos 0 ≤ℤ held_without eng db t.id t.user_id t.bond_id t.broker_account_id
    unfolding validate_shift
    shift_at_old k m = ground arith

    -- Where the row takes nothing from another pair, removing it does no harm there.
    remove_elsewhere :
        (u b a : ℕ)
        → selects u (some b) (some a) new ≡ false
        → pos 0 ≤ℤ total (share u b a) (remove_row t.id db.transactions)
    unfolding signed ◌-ℤ◌
    remove_elsewhere u b a off = ground (
      arith,
      h.covered u b a,
      held-remove u b a,
      held_without-eq-total eng db t.id u b a,
      +ℤ_parts (total (share u b a) (remove_row t.id db.transactions)) (share u b a t),
      shift_at_old,
      off,
      same_user,
    )

    replace-covered :
        (u b a : ℕ)
        → pos 0 ≤ℤ total (share u b a) (remove_row t.id db.transactions) +ℤ share u b a new
    replace-covered u b a = elim (Bool-cases (selects u (some b) (some a) new)) [
      | inl on ↦
          ground (arith, shift_at_new, held_without-eq-total eng db t.id u b a, on, same_user)
      | inr off ↦ rw off (omega (int_laws, remove_elsewhere u b a off))
    ]

updated-IsPositive :
    {W : Type 0} ⦃fl : FloatOps W⦄ (t : Transaction W) (d : TransactionUpdate W)
    → update_valid d ≡ true
    → IsPositive t
    → IsPositive (updated_row t d)
unfolding update_valid updated_row
updated-IsPositive t d v p = ground arith

module _ {W : Type 0} ⦃fl : FloatOps W⦄ (eng : Engine W) (db : Database W) (h : IsSound eng db)
    (i u : ℕ) where
  update_found-IsSound :
      (d : TransactionUpdate W) (t : Transaction W) (r : Option (ℕ × Transaction W))
      (db' : Database W)
      → find (has_id i) db.transactions ≡ some t
      → update_valid d ≡ true
      → update_found eng u d t db ≡ ok (r, db')
      → IsSound eng db'
  unfolding owned_account updated_row
  update_found-IsSound d t r db' found v e =
      let same = find-id i t db.transactions found in
      let there : find (has_id t.id) db.transactions ≡ some t =
        ap (λ (j : ℕ). find (has_id j) db.transactions) same ∙ found in
      let (passed, written) = update_found-ok eng db h t there u d r db' e in
      let new = updated_row t d in
      subst (IsSound eng) (sym written) (record {
        unique = replace-UniqueIds new db.transactions h.unique;
        positive =
            All-replace IsPositive new db.transactions
              (updated-IsPositive t d v (All-find IsPositive i t db.transactions h.positive found))
              h.positive;
        owned = All-replace (IsOwned db) new db.transactions passed.1 h.owned;
        covered = λ u' b a.
            rw
              (
                held-eq-total eng _ u' b a,
                total-replace (share u' b a) new t db.transactions h.unique there,
              )
              (replace-covered eng db h t there new refl refl
                (ap (λ (v : ℕ). validate_shift eng db v t new) passed.0 ∙ passed.2) u' b a);
      })

  update_body-absent :
      (d : TransactionUpdate W)
      → find (has_id i) db.transactions ≡ none
      → update_body eng i d u db ≡ ok (none, db)
  unfolding update_body
  update_body-absent d q = rw (q, update_body)

  update_body-found :
      (d : TransactionUpdate W) (t : Transaction W)
      → find (has_id i) db.transactions ≡ some t
      → update_body eng i d u db ≡ update_found eng u d t db
  unfolding update_body
  update_body-found d t q = rw (q, update_body)

  delete_body-absent :
      find (has_id i) db.transactions ≡ none → delete_body eng i u db ≡ ok (none, db)
  unfolding delete_body
  delete_body-absent q = rw (q, delete_body)

  delete_body-found :
      (t : Transaction W)
      → find (has_id i) db.transactions ≡ some t
      → delete_body eng i u db ≡ delete_found eng u t db
  unfolding delete_body
  delete_body-found t q = rw (q, delete_body)

  pub update_body-IsSound :
      (d : TransactionUpdate W) (r : Option (ℕ × Transaction W)) (db' : Database W)
      → update_valid d ≡ true
      → update_body eng i d u db ≡ ok (r, db')
      → IsSound eng db'
  update_body-IsSound d r db' v e = elim (Option-cases (find (has_id i) db.transactions)) [
    | inl q ↦ subst (IsSound eng) (ground (arith, update_body-absent d q)) h
    | inr (t, q) ↦ update_found-IsSound d t r db' q v (sym (update_body-found d t q) ∙ e)
  ]

  pub delete_body-IsSound :
      (r : Option ℕ) (db' : Database W) → delete_body eng i u db ≡ ok (r, db') → IsSound eng db'
  delete_body-IsSound r db' e = elim (Option-cases (find (has_id i) db.transactions)) [
    | inl q ↦ subst (IsSound eng) (ground (arith, delete_body-absent q)) h
    | inr (t, q) ↦
        let same = find-id i t db.transactions q in
        delete_found-IsSound eng db h t (ap (λ (j : ℕ). find (has_id j) db.transactions) same ∙ q) u
          r db' (sym (delete_body-found t q) ∙ e)
  ]
