-- ===== src/Registry/Calls/Frame/Filter.antt =====
-- A change of rows that a filter drops does not change what it keeps.
use mathlib.Core.Path.{subst}
use mathlib.Core.Option.{some-injective}
use stocktaking.Prelude.{
  ℕ, ◌≡◌, refl, sym, inl, inr, Bool, true, false, some, List, [], ◌∷◌, ◌++◌, keep_if, All, arith,
  Bool-cases, ◌==◌, ==→eq,
}
use stocktaking.Registry.Table.{get, has, amend, remove}
use stocktaking.Registry.Table.Laws.{Distinct}

pub keep_if-snoc :
    {A : Type 0} (p : A → Bool) (xs : List A) (y : A)
    → p y ≡ false
    → keep_if p (xs ++ y ∷ []) ≡ keep_if p xs
keep_if-snoc p [] y h = rw h refl
keep_if-snoc p (x ∷ xs) y h = ground (arith, keep_if-snoc p xs y h)

module _ {A : Type 0} (key : A → ℕ) (p : A → Bool) where
  -- The filter drops every row with this key.
  abbrev pub Drops : ℕ → List A → Type 0
  Drops i xs = All (λ (x : A). (key x == i) ≡ true → p x ≡ false) xs

  Drops-absent : (i : ℕ) (xs : List A) → has key i xs ≡ false → Drops i xs
  Drops-absent i [] h = tt
  Drops-absent i (x ∷ xs) h = (λ q. ground (arith, h, q), Drops-absent i xs (ground (arith, h)))

  pub Drops-found :
      (i : ℕ) (xs : List A) {r : A}
      → Distinct key xs
      → get key i xs ≡ some r
      → p r ≡ false
      → Drops i xs
  Drops-found i [] d e h = tt
  Drops-found i (x ∷ xs) {r} d e h = elim (Bool-cases (key x == i)) [
    | inl q ↦ (
      λ _. subst (λ y. p y ≡ false) (sym (some-injective _ _ (rw q at e))) h,
      Drops-absent i xs (rw (==→eq (key x) i q) at d.0),
    )
    | inr q ↦ (λ t. ground (arith, q, t), Drops-found i xs {r = r} d.1 (rw q at e) h)
  ]

  pub keep_if-amend :
      (i : ℕ) (f : A → A) (xs : List A)
      → ((x : A) → p (f x) ≡ p x)
      → Drops i xs
      → keep_if p (amend key i f xs) ≡ keep_if p xs
  unfolding amend
  keep_if-amend i f [] h d = refl
  keep_if-amend i f (x ∷ xs) h d = elim (Bool-cases (key x == i)) [
    | inl q ↦ rw (q, h x, d.0 q) (keep_if-amend i f xs h d.1)
    | inr q ↦ rw (q, keep_if-amend i f xs h d.1) refl
  ]

  pub keep_if-remove :
      (i : ℕ) (xs : List A) → Drops i xs → keep_if p (remove key i xs) ≡ keep_if p xs
  unfolding remove
  keep_if-remove i [] d = refl
  keep_if-remove i (x ∷ xs) d = elim (Bool-cases (key x == i)) [
    | inl q ↦ rw (q, d.0 q) (keep_if-remove i xs d.1)
    | inr q ↦ rw (q, keep_if-remove i xs d.1) refl
  ]
