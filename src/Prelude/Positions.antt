-- ===== src/Prelude/Positions.antt =====
-- Predicates on all elements of a list, and changes at a position.
use Prim.Native.Nat.{ℕ, zero, suc}
use mathlib.Core.Path.{◌≡◌, refl, ap}
use mathlib.Core.Logic.{◌≢◌}
use mathlib.Core.Option.{some}
use mathlib.Core.List.{List, [], ◌∷◌, ◌++◌, map}
use stocktaking.Prelude.Lists.{All, get_elem?, modify}

module _ {ℓ κ} {A : Type ℓ} (Holds : A → Type κ) where
  pub All-snoc : (xs : List A) (y : A) → All Holds xs → Holds y → All Holds (xs ++ y ∷ [])
  All-snoc [] y h k = (k, tt)
  All-snoc (x ∷ xs) y (hx, h) k = (hx, All-snoc xs y h k)

-- A predicate kept by a function is kept where the function is mapped or applied at a position.
module _ {ℓ κ μ} {A : Type ℓ} (Before : A → Type κ) (After : A → Type μ) where
  pub All-mapped :
      (f : A → A)
      → ((x : A) → Before x → After (f x))
      → (xs : List A) → All Before xs
      → All After (map f xs)
  All-mapped f keep [] h = tt
  All-mapped f keep (x ∷ xs) (hx, h) = (keep x hx, All-mapped f keep xs h)

  pub All-kept : ((x : A) → Before x → After x) → (xs : List A) → All Before xs → All After xs
  All-kept keep [] h = tt
  All-kept keep (x ∷ xs) (hx, h) = (keep x hx, All-kept keep xs h)

module _ {ℓ κ} {A : Type ℓ} (Holds : A → Type κ) where
  pub All-modify :
      (xs : List A) (i : ℕ) (f : A → A)
      → All Holds xs
      → ((x : A) → get_elem? xs i ≡ some x → Holds x → Holds (f x))
      → All Holds (modify xs i f)
  All-modify [] i f h keep = tt
  All-modify (x ∷ xs) zero f (hx, h) keep = (keep x refl hx, h)
  All-modify (x ∷ xs) (suc i) f (hx, h) keep = (hx, All-modify xs i f h keep)

-- What stands at a position after a change.
module _ {ℓ} {A : Type ℓ} where
  pub get_elem?-map :
      (f : A → A) (xs : List A) (i : ℕ) {x : A}
      → get_elem? xs i ≡ some x
      → get_elem? (map f xs) i ≡ some (f x)
  get_elem?-map f [] i e = cc
  get_elem?-map f (y ∷ xs) zero e = cc
  get_elem?-map f (y ∷ xs) (suc i) e = get_elem?-map f xs i e

  pub get_elem?-snoc :
      (xs : List A) (y : A) (i : ℕ) {x : A}
      → get_elem? xs i ≡ some x
      → get_elem? (xs ++ y ∷ []) i ≡ some x
  get_elem?-snoc [] y i e = cc
  get_elem?-snoc (z ∷ xs) y zero e = e
  get_elem?-snoc (z ∷ xs) y (suc i) e = get_elem?-snoc xs y i e

  pub get_elem?-modify :
      (xs : List A) (i : ℕ) (f : A → A) {x : A}
      → get_elem? xs i ≡ some x
      → get_elem? (modify xs i f) i ≡ some (f x)
  get_elem?-modify [] i f e = cc
  get_elem?-modify (y ∷ xs) zero f e = cc
  get_elem?-modify (y ∷ xs) (suc i) f e = get_elem?-modify xs i f e

  pub get_elem?-modify_ne :
      (xs : List A) (i j : ℕ) (f : A → A) → i ≢ j → get_elem? (modify xs i f) j ≡ get_elem? xs j
  get_elem?-modify_ne [] i j f h = refl
  get_elem?-modify_ne (y ∷ xs) zero zero f h = absurd (h refl)
  get_elem?-modify_ne (y ∷ xs) zero (suc j) f h = refl
  get_elem?-modify_ne (y ∷ xs) (suc i) zero f h = refl
  get_elem?-modify_ne (y ∷ xs) (suc i) (suc j) f h =
      get_elem?-modify_ne xs i j f (λ e. h (ap suc e))
