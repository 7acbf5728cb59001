-- ===== src/Portfolio/Held.antt =====
-- The quantities that the service checks, as sums over the table.
use mathlib.Core.Path.{fun_ext}
use stocktaking.Prelude.{ℕ, ◌≡◌, ap, ◌∙◌, sym, Bool, not, some, keep_if, arith, ◌==◌, if◌then◌else◌}
use stocktaking.Prelude.Int.{ℤ, pos}
use stocktaking.Portfolio.Transaction.{Transaction}
use stocktaking.Portfolio.Store.{Database, Engine, remove_row}
use stocktaking.Portfolio.Queries.{selects, load_transactions}
use stocktaking.Portfolio.Bodies.{held, held_without}
use stocktaking.Portfolio.Counting.{
  effect, total, only, quantity_of-eq-total, total-keep_if, total-perm,
}

if_comm :
    (p q : Bool) (x : ℤ)
    → (if p then if q then x else pos 0 else pos 0) ≡ (if q then if p then x else pos 0 else pos 0)
if_comm p q x = ground arith

module _ {W : Type 0} where
  -- What a row adds to one bond on one account of a user.
  abbrev pub share : ℕ → ℕ → ℕ → Transaction W → ℤ
  share u b a = only (selects u (some b) (some a))

module _ {W : Type 0} (eng : Engine W) where
  pub held-eq-total :
      (db : Database W) (u b a : ℕ) → held eng db u b a ≡ total (share u b a) db.transactions
  unfolding held load_transactions
  held-eq-total db u b a =
      quantity_of-eq-total _
      ∙ total-perm effect (eng.order_perm _)
      ∙ total-keep_if effect (selects u (some b) (some a)) db.transactions

  pub held_without-eq-total :
      (db : Database W) (i u b a : ℕ)
      → held_without eng db i u b a ≡ total (share u b a) (remove_row i db.transactions)
  unfolding held_without load_transactions remove_row
  held_without-eq-total db i u b a =
      let other : Transaction W → Bool = λ t. not (t.id == i) in
      let mine = selects {W = W} u (some b) (some a) in
      quantity_of-eq-total _
      ∙ total-keep_if effect other (eng.order (keep_if mine db.transactions))
      ∙ total-perm (λ t. if other t then effect t else pos 0) (eng.order_perm _)
      ∙ total-keep_if (λ t. if other t then effect t else pos 0) mine db.transactions
      ∙ ap (λ (f : Transaction W → ℤ). total f db.transactions)
          (fun_ext λ t. if_comm (mine t) (other t) (effect t))
      ∙ sym (total-keep_if (share u b a) other db.transactions)
