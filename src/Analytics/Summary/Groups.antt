-- ===== src/Analytics/Summary/Groups.antt =====
-- The groups of a user's transactions, in `_compute_summary` of src/bond_accounting/analytics/service.py,
-- are of different bonds.
use stocktaking.Prelude.{
  ℕ, ◌≡◌, refl, ◌∙◌, inl, inr, Bool, false, ◌||◌, Bool-cases, List, [], ◌∷◌, any, arith, ◌==◌,
}
use stocktaking.Portfolio.Transaction.{Transaction}
use stocktaking.Portfolio.Queries.{add_to_group, group_from}
use stocktaking.Registry.Table.{has}
use stocktaking.Registry.Table.Laws.{Distinct}
use stocktaking.Sort.{below, insert, sort_by}

module _ {A : Type 0} (key : A → ℕ × ℕ) where
  any-insert : (p : A → Bool) (x : A) (xs : List A) → any p (insert key x xs) ≡ (p x || any p xs)
  unfolding insert
  any-insert p x [] = ground arith
  any-insert p x (y ∷ ys) = ground (arith, any-insert p x ys)

  any-sort_by : (p : A → Bool) (xs : List A) → any p (sort_by key xs) ≡ any p xs
  unfolding sort_by
  any-sort_by p [] = refl
  any-sort_by p (x ∷ xs) = any-insert p x (sort_by key xs) ∙ ground (arith, any-sort_by p xs)

  insert-Distinct :
      (id : A → ℕ) (x : A) (xs : List A)
      → has id (id x) xs ≡ false
      → Distinct id xs
      → Distinct id (insert key x xs)
  unfolding insert
  insert-Distinct id x [] h d = (refl, tt)
  insert-Distinct id x (y ∷ ys) h d = elim (Bool-cases (below (key y) (key x))) [
    | inl e ↦ rw e (
      any-insert (λ z. id z == id y) x ys ∙ ground (arith, h, d.0),
      insert-Distinct id x ys (ground (arith, h)) d.1,
    )
    | inr e ↦ rw e (h, d)
  ]

  pub sort_by-Distinct : (id : A → ℕ) (xs : List A) → Distinct id xs → Distinct id (sort_by key xs)
  unfolding sort_by
  sort_by-Distinct id [] d = tt
  sort_by-Distinct id (x ∷ xs) d =
      insert-Distinct id x (sort_by key xs) (any-sort_by (λ z. id z == id x) xs ∙ d.0)
        (sort_by-Distinct id xs d.1)

module _ {W : Type 0} where
  abbrev pub of_bond : ℕ × List (Transaction W) → ℕ
  of_bond g = g.0

  has-add_to_group :
      (i : ℕ) (t : Transaction W) (gs : List (ℕ × List (Transaction W)))
      → has of_bond i (add_to_group t gs) ≡ (has of_bond i gs || t.bond_id == i)
  unfolding add_to_group
  has-add_to_group i t [] = ground arith
  has-add_to_group i t ((b, rows) ∷ gs) = ground (arith, has-add_to_group i t gs)

  add_to_group-Distinct :
      (t : Transaction W) (gs : List (ℕ × List (Transaction W)))
      → Distinct of_bond gs
      → Distinct of_bond (add_to_group t gs)
  unfolding add_to_group
  add_to_group-Distinct t [] d = (refl, tt)
  add_to_group-Distinct t ((b, rows) ∷ gs) d = elim (Bool-cases (b == t.bond_id)) [
    | inl e ↦ rw e d
    | inr e ↦
        rw e (has-add_to_group b t gs ∙ ground (arith, d.0, e), add_to_group-Distinct t gs d.1)
  ]

  pub group_from-Distinct :
      (gs : List (ℕ × List (Transaction W))) (ts : List (Transaction W))
      → Distinct of_bond gs
      → Distinct of_bond (group_from gs ts)
  unfolding group_from
  group_from-Distinct gs [] d = d
  group_from-Distinct gs (t ∷ ts) d =
      group_from-Distinct (add_to_group t gs) ts (add_to_group-Distinct t gs d)
