-- ===== src/Sort/Stable.antt =====
-- The sort is stable: it commutes with filters and with functions that keep the key.
use stocktaking.Prelude.{
  ℕ, ◌≡◌, refl, ◌∙◌, inl, inr, Bool, false, Bool-cases, List, [], ◌∷◌, map, keep_if, All, All-kept,
  arith, if◌then◌else◌,
}
use stocktaking.Sort.{below, insert, sort_by}
use stocktaking.Sort.Laws.{IsSorted, sort_by-IsSorted}
use stocktaking.Registry.Table.Laws.{All-keep_if}

module _ {A : Type 0} (key : A → ℕ × ℕ) where
  insert-front :
      (x : A) (xs : List A)
      → All (λ (y : A). below (key y) (key x) ≡ false) xs
      → insert key x xs ≡ x ∷ xs
  unfolding insert
  insert-front x [] h = refl
  insert-front x (y ∷ ys) h = rw h.0 refl

  sort_by-sorted : (xs : List A) → IsSorted key xs → sort_by key xs ≡ xs
  unfolding sort_by
  sort_by-sorted [] h = refl
  sort_by-sorted (x ∷ xs) h = rw (sort_by-sorted xs h.1) (insert-front x xs h.0)

  pub sort_by-sort_by : (xs : List A) → sort_by key (sort_by key xs) ≡ sort_by key xs
  sort_by-sort_by xs = sort_by-sorted (sort_by key xs) (sort_by-IsSorted key xs)

  keep_if-insert :
      (p : A → Bool) (x : A) (xs : List A)
      → IsSorted key xs
      → keep_if p (insert key x xs) ≡ (if p x then insert key x (keep_if p xs) else keep_if p xs)
  unfolding insert
  keep_if-insert p x [] h = refl
  keep_if-insert p x (y ∷ ys) h = elim (Bool-cases (below (key y) (key x))) [
    | inl e ↦ ground (arith, e, keep_if-insert p x ys h.1)
    | inr e ↦
        let rest : All (λ (z : A). below (key z) (key x) ≡ false) ys =
          All-kept _ _ (λ z q. ground (arith, e, q)) ys h.0 in
        ground (
          arith,
          e,
          insert-front x (keep_if p ys)
              (All-keep_if (λ z. below (key z) (key x) ≡ false) p ys rest),
        )
  ]

  pub keep_if-sort_by :
      (p : A → Bool) (xs : List A) → keep_if p (sort_by key xs) ≡ sort_by key (keep_if p xs)
  unfolding sort_by
  keep_if-sort_by p [] = refl
  keep_if-sort_by p (x ∷ xs) =
      keep_if-insert p x (sort_by key xs) (sort_by-IsSorted key xs)
      ∙ ground (arith, keep_if-sort_by p xs)

module _ {A B : Type 0} (key : A → ℕ × ℕ) (key' : B → ℕ × ℕ) (f : A → B)
    (same : (x : A) → key' (f x) ≡ key x) where
  map-insert : (x : A) (xs : List A) → map f (insert key x xs) ≡ insert key' (f x) (map f xs)
  unfolding insert
  map-insert x [] = refl
  map-insert x (y ∷ ys) = elim (Bool-cases (below (key y) (key x))) [
    | inl e ↦ rw (same y, same x, e, map-insert x ys) refl
    | inr e ↦ rw (same y, same x, e) refl
  ]

  pub map-sort_by : (xs : List A) → map f (sort_by key xs) ≡ sort_by key' (map f xs)
  unfolding sort_by
  map-sort_by [] = refl
  map-sort_by (x ∷ xs) = map-insert x (sort_by key xs) ∙ rw (map-sort_by xs) refl
