-- ===== src/Sort.antt =====
-- `list.sort` with a pair of numbers for a key, and a slice from the start. The sort is stable.
pub mod Laws
pub mod Stable
use stocktaking.Prelude.{
  ℕ, zero, suc, Bool, ◌&&◌, ◌||◌, List, [], ◌∷◌, ltb, leb, ◌==◌, if◌then◌else◌,
}

-- `(a, b) < (c, d)`
abbrev pub below : ℕ × ℕ → ℕ × ℕ → Bool
below p q = ltb p.0 q.0 || (p.0 == q.0 && ltb p.1 q.1)

module _ {A : Type 0} (key : A → ℕ × ℕ) where
  -- Before the first element with a key that is not smaller: what stands after x in the original list
  -- comes later.
  unfoldable pub insert : A → List A → List A
  insert x [] = x ∷ []
  insert x (y ∷ ys) =
      let rest = insert x ys in if below (key y) (key x) then y ∷ rest else x ∷ y ∷ ys

  unfoldable pub sort_by : List A → List A
  unfolding insert
  sort_by [] = []
  sort_by (x ∷ xs) = insert x (sort_by xs)

-- `xs[:n]`
abbrev pub first : {A : Type 0} → ℕ → List A → List A
first zero xs = []
first (suc n) [] = []
first (suc n) (x ∷ xs) = x ∷ first n xs

-- `xs[n:]`
abbrev pub after : {A : Type 0} → ℕ → List A → List A
after zero xs = xs
after (suc n) [] = []
after (suc n) (x ∷ xs) = after n xs
