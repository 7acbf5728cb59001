-- ===== src/Registry/Table/Laws.antt =====
-- How the writes of a table keep its keys distinct and what is said of its rows.
use mathlib.Core.Path.{subst}
use mathlib.Core.Option.{some-injective}
use stocktaking.Prelude.{
  ℕ, ◌≡◌, ◌≢◌, refl, sym, ◌∙◌, inl, inr, Bool, true, false, not, ◌||◌, some, List, [], ◌∷◌, ◌++◌,
  map, any, find, keep_if, All, arith, Bool-cases, ◌==◌, ==→eq, if◌then◌else◌,
}
use stocktaking.Registry.Table.{get, has, amend, remove}

module _ {A : Type 0} where
  pub any-append_left : (p : A → Bool) (xs ys : List A) → any p xs ≡ true → any p (xs ++ ys) ≡ true
  any-append_left p [] ys h = cc
  any-append_left p (x ∷ xs) ys h = ground (arith, any-append_left p xs ys)

  pub any-snoc : (p : A → Bool) (xs : List A) (y : A) → any p (xs ++ y ∷ []) ≡ (any p xs || p y)
  any-snoc p [] y = ground arith
  any-snoc p (x ∷ xs) y = ground (arith, any-snoc p xs y)

  pub All-any : (p : A → Bool) (xs : List A) → any p xs ≡ false → All (λ x. p x ≡ false) xs
  All-any p [] h = tt
  All-any p (x ∷ xs) h = (ground arith, All-any p xs (ground arith))

  pub keep_if-all :
      (p : A → Bool) (xs : List A) → any p xs ≡ false → keep_if (λ x. not (p x)) xs ≡ xs
  keep_if-all p [] h = refl
  keep_if-all p (x ∷ xs) h = ground (arith, keep_if-all p xs)

  pub keep_if-none : (p : A → Bool) (xs : List A) → any p xs ≡ false → keep_if p xs ≡ []
  keep_if-none p [] h = refl
  keep_if-none p (x ∷ xs) h = ground (arith, keep_if-none p xs)

  pub All-keep_if : (P : A → Type 0) (p : A → Bool) (xs : List A) → All P xs → All P (keep_if p xs)
  All-keep_if P p [] h = tt
  All-keep_if P p (x ∷ xs) h = elim (Bool-cases (p x)) [
    | inl e ↦ rw e (h.0, All-keep_if P p xs h.1)
    | inr e ↦ rw e (All-keep_if P p xs h.1)
  ]

  pub All-pair : (P Q : A → Type 0) (xs : List A) → All P xs → All Q xs → All (λ x. P x × Q x) xs
  All-pair P Q [] h k = tt
  All-pair P Q (x ∷ xs) h k = ((h.0, k.0), All-pair P Q xs h.1 k.1)

module _ {A : Type 0} (key : A → ℕ) where
  -- No key stands twice.
  abbrev pub Distinct : List A → Type 0
  Distinct [] = Unit
  Distinct (x ∷ xs) = (has key (key x) xs ≡ false) × Distinct xs

  pub any-amend :
      (p : A → Bool) (i : ℕ) (f : A → A) (xs : List A)
      → ((x : A) → p (f x) ≡ p x)
      → any p (amend key i f xs) ≡ any p xs
  unfolding amend
  any-amend p i f [] h = refl
  any-amend p i f (x ∷ xs) h = ground (arith, any-amend p i f xs h, h x)

  pub any-remove :
      (p : A → Bool) (i : ℕ) (xs : List A)
      → ((x : A) → (key x == i) ≡ true → p x ≡ false)
      → any p (remove key i xs) ≡ any p xs
  unfolding remove
  any-remove p i [] h = refl
  any-remove p i (x ∷ xs) h = elim (Bool-cases (key x == i)) [
    | inl e ↦ rw (e, h x e) (any-remove p i xs h)
    | inr e ↦ rw (e, any-remove p i xs h) refl
  ]

  pub any-remove_none :
      (p : A → Bool) (i : ℕ) (xs : List A) → any p xs ≡ false → any p (remove key i xs) ≡ false
  unfolding remove
  any-remove_none p i [] h = refl
  any-remove_none p i (x ∷ xs) h = ground (arith, any-remove_none p i xs)

  pub get-key : (i : ℕ) (xs : List A) {r : A} → get key i xs ≡ some r → key r ≡ i
  get-key i [] e = cc
  get-key i (x ∷ xs) {r} e = ground (arith, get-key i xs {r = r})

  pub All-get :
      (P : A → Type 0) (i : ℕ) (xs : List A) {r : A} → All P xs → get key i xs ≡ some r → P r
  All-get P i [] h e = cc
  All-get P i (x ∷ xs) h e = elim (Bool-cases (key x == i)) [
    | inl q ↦ subst P (some-injective _ _ (rw q at e)) h.0
    | inr q ↦ All-get P i xs h.1 (rw q at e)
  ]

  pub All-amend :
      (P : A → Type 0) (i : ℕ) (f : A → A) (xs : List A)
      → ((x : A) → P x → P (f x))
      → All P xs
      → All P (amend key i f xs)
  unfolding amend
  All-amend P i f [] h k = tt
  All-amend P i f (x ∷ xs) h k = elim (Bool-cases (key x == i)) [
    | inl e ↦ rw e (h x k.0, All-amend P i f xs h k.1)
    | inr e ↦ rw e (k.0, All-amend P i f xs h k.1)
  ]

  pub amend_absent :
      (i : ℕ) (f : A → A) (xs : List A) → has key i xs ≡ false → amend key i f xs ≡ xs
  unfolding amend
  amend_absent i f [] h = refl
  amend_absent i f (x ∷ xs) h = ground (arith, amend_absent i f xs)

  -- With distinct keys, only the row that was found changes.
  pub All-amend_found :
      (P : A → Type 0) (i : ℕ) (f : A → A) (xs : List A) {r : A}
      → Distinct xs
      → get key i xs ≡ some r
      → P (f r)
      → All P xs
      → All P (amend key i f xs)
  unfolding amend
  All-amend_found P i f [] d e p h = tt
  All-amend_found P i f (x ∷ xs) d e p h = elim (Bool-cases (key x == i)) [
    | inl q ↦ rw q (
      subst (λ (y : A). P (f y)) (sym (some-injective _ _ (rw q at e))) p,
      subst (All P) (sym (amend_absent i f xs (rw (==→eq (key x) i q) at d.0))) h.1,
    )
    | inr q ↦ rw q (h.0, All-amend_found P i f xs d.1 (rw q at e) p h.1)
  ]

  pub All-remove : (P : A → Type 0) (i : ℕ) (xs : List A) → All P xs → All P (remove key i xs)
  unfolding remove
  All-remove P i xs h = All-keep_if P (λ x. not (key x == i)) xs h

  pub Distinct-snoc :
      (xs : List A) (y : A)
      → Distinct xs
      → All (λ (k : ℕ). k ≢ key y) (map key xs)
      → Distinct (xs ++ y ∷ [])
  Distinct-snoc [] y d h = (refl, tt)
  Distinct-snoc (x ∷ xs) y d h =
      (any-snoc (λ z. key z == key x) xs y ∙ ground (arith, d, h.0), Distinct-snoc xs y d.1 h.1)

  pub Distinct-amend :
      (i : ℕ) (f : A → A) (xs : List A)
      → ((x : A) → key (f x) ≡ key x)
      → Distinct xs
      → Distinct (amend key i f xs)
  unfolding amend
  Distinct-amend i f [] h d = tt
  Distinct-amend i f (x ∷ xs) h d = (
    any-amend (λ y. key y == key (if key x == i then f x else x)) i f xs (λ y. rw (h y) refl)
        ∙ ground (arith, d, h x),
    Distinct-amend i f xs h d.1,
  )

  pub Distinct-remove : (i : ℕ) (xs : List A) → Distinct xs → Distinct (remove key i xs)
  unfolding remove
  Distinct-remove i [] d = tt
  Distinct-remove i (x ∷ xs) d = elim (Bool-cases (key x == i)) [
    | inl e ↦ rw e (Distinct-remove i xs d.1)
    | inr e ↦ rw e (any-remove_none (λ y. key y == key x) i xs d.0, Distinct-remove i xs d.1)
  ]

pub find-snoc :
    {A : Type 0} (p : A → Bool) (xs : List A) (y : A)
    → any p xs ≡ false
    → p y ≡ true
    → find p (xs ++ y ∷ []) ≡ some y
find-snoc p [] y h e = rw e refl
find-snoc p (x ∷ xs) y h e = ground (arith, find-snoc p xs y)

pub find-snoc_other :
    {A : Type 0} (p : A → Bool) (xs : List A) (y : A)
    → p y ≡ false
    → find p (xs ++ y ∷ []) ≡ find p xs
find-snoc_other p [] y e = rw e refl
find-snoc_other p (x ∷ xs) y e = ground (arith, find-snoc_other p xs y)
