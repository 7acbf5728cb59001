-- ===== src/Portfolio/Invariant/Rows.antt =====
-- How the three ways to write the table keep its rows well formed.
use stocktaking.Prelude.{
  ℕ, ◌≡◌, refl, none, some, List, [], ◌∷◌, All, find, arith, Bool-cases, inl, inr, ==→eq, ◌==◌,
}
use mathlib.Core.Path.{subst}
use mathlib.Core.Option.{some-injective}
use stocktaking.Portfolio.Transaction.{Transaction}
use stocktaking.Portfolio.Store.{has_id, replace_row, remove_row}
use stocktaking.Portfolio.Counting.{UniqueIds}

module _ {W : Type 0} where
  pub All-remove :
      (P : Transaction W → Type 0) (i : ℕ) (ts : List (Transaction W))
      → All P ts
      → All P (remove_row i ts)
  unfolding remove_row
  All-remove P i [] h = tt
  All-remove P i (t ∷ ts) h = elim (Bool-cases (t.id == i)) [
    | inl e ↦ rw e (All-remove P i ts h.1)
    | inr e ↦ rw e (h.0, All-remove P i ts h.1)
  ]

  pub All-replace :
      (P : Transaction W → Type 0) (new : Transaction W) (ts : List (Transaction W))
      → P new
      → All P ts
      → All P (replace_row new ts)
  unfolding replace_row
  All-replace P new [] p h = tt
  All-replace P new (t ∷ ts) p h = elim (Bool-cases (t.id == new.id)) [
    | inl e ↦ rw e (p, All-replace P new ts p h.1)
    | inr e ↦ rw e (h.0, All-replace P new ts p h.1)
  ]

  pub All-find :
      (P : Transaction W → Type 0) (i : ℕ) (t : Transaction W) (ts : List (Transaction W))
      → All P ts
      → find (has_id i) ts ≡ some t
      → P t
  All-find P i t [] h e = cc
  All-find P i t (x ∷ ts) h e = elim (Bool-cases (x.id == i)) [
    | inl q ↦ subst P (some-injective _ _ (rw q at e)) h.0
    | inr q ↦ All-find P i t ts h.1 (rw q at e)
  ]

  pub find-id :
      (i : ℕ) (t : Transaction W) (ts : List (Transaction W))
      → find (has_id i) ts ≡ some t
      → t.id ≡ i
  find-id i t [] e = cc
  find-id i t (x ∷ ts) e = ground (arith, find-id i t ts)

  pub find-remove :
      (i j : ℕ) (ts : List (Transaction W))
      → find (has_id j) ts ≡ none
      → find (has_id j) (remove_row i ts) ≡ none
  unfolding remove_row
  find-remove i j [] h = refl
  find-remove i j (t ∷ ts) h = ground (arith, find-remove i j ts)

  pub find-remove_self :
      (i : ℕ) (ts : List (Transaction W)) → find (has_id i) (remove_row i ts) ≡ none
  unfolding remove_row
  find-remove_self i [] = refl
  find-remove_self i (t ∷ ts) = ground (arith, find-remove_self i ts)

  find-replace :
      (new : Transaction W) (j : ℕ) (ts : List (Transaction W))
      → find (has_id j) ts ≡ none
      → find (has_id j) (replace_row new ts) ≡ none
  unfolding replace_row
  find-replace new j [] h = refl
  find-replace new j (t ∷ ts) h = ground (arith, find-replace new j ts)

  pub remove-UniqueIds :
      (i : ℕ) (ts : List (Transaction W)) → UniqueIds ts → UniqueIds (remove_row i ts)
  unfolding remove_row
  remove-UniqueIds i [] h = tt
  remove-UniqueIds i (t ∷ ts) h = elim (Bool-cases (t.id == i)) [
    | inl e ↦ rw e (remove-UniqueIds i ts h.1)
    | inr e ↦ rw e (find-remove i t.id ts h.0, remove-UniqueIds i ts h.1)
  ]

  pub replace-UniqueIds :
      (new : Transaction W) (ts : List (Transaction W))
      → UniqueIds ts
      → UniqueIds (replace_row new ts)
  unfolding replace_row
  replace-UniqueIds new [] h = tt
  replace-UniqueIds new (t ∷ ts) h = elim (Bool-cases (t.id == new.id)) [
    | inl e ↦
        rw e (
          find-replace new new.id ts (rw (==→eq t.id new.id e) at h.0),
          replace-UniqueIds new ts h.1,
        )
    | inr e ↦ rw e (find-replace new t.id ts h.0, replace-UniqueIds new ts h.1)
  ]
