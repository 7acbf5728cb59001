-- ===== src/Portfolio/Counting.antt =====
-- Sums over the rows of the table, which the order of the rows does not change.
use mathlib.Core.Logic.{∥∥₁_elim}
use mathlib.Core.List.{Perm, Permᴰ}
use stocktaking.Prelude.{
  ℕ, ◌≡◌, ◌≢◌, refl, ◌∙◌, Bool, none, some, List, [], ◌∷◌, All, keep_if, find, arith, if◌then◌else◌,
}
use stocktaking.Prelude.Int.{ℤ, pos, ◌+ℤ◌, ◌-ℤ◌, int_laws, ℤ-set}
use stocktaking.Portfolio.Transaction.{Transaction}
use stocktaking.Portfolio.Position.{count_row, quantity_from, quantity_of}
use stocktaking.Portfolio.Store.{has_id, replace_row, remove_row}
use stocktaking.Portfolio.Bodies.{signed}

module _ {W : Type 0} where
  -- What a row adds to the quantity of its bond on its account.
  abbrev pub effect : Transaction W → ℤ
  effect t = signed t.kind t.quantity

  abbrev pub total : (Transaction W → ℤ) → List (Transaction W) → ℤ
  total f [] = pos 0
  total f (t ∷ ts) = f t +ℤ total f ts

  abbrev pub only : (Transaction W → Bool) → Transaction W → ℤ
  only p t = if p t then effect t else pos 0

  count_row_lem : (q : ℤ) (t : Transaction W) → count_row q t ≡ q +ℤ effect t
  unfolding count_row signed ◌+ℤ◌ ◌-ℤ◌
  count_row_lem q t = ground arith

  quantity_from_lem :
      (q : ℤ) (ts : List (Transaction W)) → quantity_from q ts ≡ q +ℤ total effect ts
  unfolding quantity_from
  quantity_from_lem q [] = omega int_laws
  quantity_from_lem q (t ∷ ts) =
      rw (quantity_from_lem (count_row q t) ts, count_row_lem q t) (omega int_laws)

  pub quantity_of-eq-total : (ts : List (Transaction W)) → quantity_of ts ≡ total effect ts
  unfolding quantity_of
  quantity_of-eq-total ts = rw (quantity_from_lem (pos 0) ts) (omega int_laws)

  pub total-keep_if :
      (f : Transaction W → ℤ) (p : Transaction W → Bool) (ts : List (Transaction W))
      → total f (keep_if p ts) ≡ total (λ t. if p t then f t else pos 0) ts
  total-keep_if f p [] = refl
  total-keep_if f p (t ∷ ts) = grind (int_laws, total-keep_if f p ts)

  totalᴰ-perm :
      (f : Transaction W → ℤ) {ts us : List (Transaction W)} → Permᴰ ts us → total f ts ≡ total f us
  totalᴰ-perm f Permᴰ.nil = refl
  totalᴰ-perm f (Permᴰ.cons e p) = rw (e, totalᴰ-perm f p) refl
  totalᴰ-perm f (Permᴰ.swap e e') = rw (e, e') (omega int_laws)
  totalᴰ-perm f (Permᴰ.trans p q) = totalᴰ-perm f p ∙ totalᴰ-perm f q

  pub total-perm :
      (f : Transaction W → ℤ) {ts us : List (Transaction W)} → Perm ts us → total f ts ≡ total f us
  total-perm f p = ∥∥₁_elim p (ℤ-set _ _) (λ d. totalᴰ-perm f d)

  abbrev pub UniqueIds : List (Transaction W) → Type 0
  UniqueIds [] = Unit
  UniqueIds (t ∷ ts) = (find (has_id t.id) ts ≡ none) × UniqueIds ts

  pub find-fresh :
      (i : ℕ) (ts : List (Transaction W)) → All (λ t. t.id ≢ i) ts → find (has_id i) ts ≡ none
  find-fresh i [] h = refl
  find-fresh i (t ∷ ts) h = ground (arith, find-fresh i ts h.1)

  remove-absent :
      (i : ℕ) (ts : List (Transaction W)) → find (has_id i) ts ≡ none → remove_row i ts ≡ ts
  unfolding remove_row
  remove-absent i [] h = refl
  remove-absent i (t ∷ ts) h = ground (arith, remove-absent i ts)

  replace-absent :
      (new : Transaction W) (ts : List (Transaction W))
      → find (has_id new.id) ts ≡ none
      → replace_row new ts ≡ ts
  unfolding replace_row
  replace-absent new [] h = refl
  replace-absent new (t ∷ ts) h = ground (arith, replace-absent new ts)

  -- A table is one row and the rows without it.
  pub total-remove :
      (f : Transaction W → ℤ) (i : ℕ) (t : Transaction W) (ts : List (Transaction W))
      → UniqueIds ts
      → find (has_id i) ts ≡ some t
      → total f (remove_row i ts) +ℤ f t ≡ total f ts
  unfolding remove_row
  total-remove f i t [] u e = cc
  total-remove f i t (x ∷ ts) u e = grind (int_laws, total-remove f i t ts, remove-absent i ts)

  pub total-replace :
      (f : Transaction W → ℤ) (new t : Transaction W) (ts : List (Transaction W))
      → UniqueIds ts
      → find (has_id new.id) ts ≡ some t
      → total f (replace_row new ts) ≡ total f (remove_row new.id ts) +ℤ f new
  unfolding replace_row remove_row
  total-replace f new t [] u e = cc
  total-replace f new t (x ∷ ts) u e =
      grind (int_laws, total-replace f new t ts, remove-absent new.id ts, replace-absent new ts)
