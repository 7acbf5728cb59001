-- ===== src/Registry/Table/Texts.antt =====
-- How the writes of a table keep a column of texts without repetition.
use Prim.Native.String.{String}
use text.Mathlib.Text.{◌==◌ as same_text}
use text.Mathlib.TextEquality.{eq_iff}
use stocktaking.Prelude.{
  ℕ, ◌≡◌, refl, ◌∙◌, inl, inr, Bool, false, not, ◌&&◌, List, [], ◌∷◌, ◌++◌, any, arith, Bool-cases,
  ◌==◌, ==→eq, if◌then◌else◌,
}
use stocktaking.Registry.Table.{has, amend, remove}
use stocktaking.Registry.Table.Laws.{any-snoc, any-amend, any-remove_none, amend_absent, Distinct}

pub same_text_comm : (s t : String) → same_text s t ≡ same_text t s
same_text_comm s t = ground (arith, eq_iff s t, eq_iff t s)

module _ {A : Type 0} (key : A → ℕ) (name : A → String) where
  -- No text stands twice.
  abbrev pub DistinctTexts : List A → Type 0
  DistinctTexts [] = Unit
  DistinctTexts (x ∷ xs) =
      (any (λ (y : A). same_text (name y) (name x)) xs ≡ false) × DistinctTexts xs

  pub DistinctTexts-snoc :
      (xs : List A) (y : A)
      → any (λ (x : A). same_text (name x) (name y)) xs ≡ false
      → DistinctTexts xs
      → DistinctTexts (xs ++ y ∷ [])
  DistinctTexts-snoc [] y h d = (refl, tt)
  DistinctTexts-snoc (x ∷ xs) y h d = (
    any-snoc (λ z. same_text (name z) (name x)) xs y
        ∙ ground (arith, d, h, same_text_comm (name x) (name y)),
    DistinctTexts-snoc xs y (ground (arith, h)) d.1,
  )

  pub DistinctTexts-remove :
      (i : ℕ) (xs : List A) → DistinctTexts xs → DistinctTexts (remove key i xs)
  unfolding remove
  DistinctTexts-remove i [] d = tt
  DistinctTexts-remove i (x ∷ xs) d = elim (Bool-cases (key x == i)) [
    | inl e ↦ rw e (DistinctTexts-remove i xs d.1)
    | inr e ↦ rw e (
      any-remove_none key (λ y. same_text (name y) (name x)) i xs d.0,
      DistinctTexts-remove i xs d.1,
    )
  ]

  pub DistinctTexts-amend_kept :
      (i : ℕ) (f : A → A) (xs : List A)
      → ((x : A) → name (f x) ≡ name x)
      → DistinctTexts xs
      → DistinctTexts (amend key i f xs)
  unfolding amend
  DistinctTexts-amend_kept i f [] h d = tt
  DistinctTexts-amend_kept i f (x ∷ xs) h d = (
    any-amend key (λ y. same_text (name y) (name (if key x == i then f x else x))) i f xs
          (λ y. rw (h y) refl)
        ∙ ground (arith, d, h x),
    DistinctTexts-amend_kept i f xs h d.1,
  )

  any-amend_other :
      (p : A → Bool) (i : ℕ) (f : A → A) (xs : List A)
      → ((x : A) → p (f x) ≡ false)
      → any p xs ≡ false
      → any p (amend key i f xs) ≡ false
  unfolding amend
  any-amend_other p i f [] h e = refl
  any-amend_other p i f (x ∷ xs) h e = ground (arith, any-amend_other p i f xs h, h x)

  any-weaken :
      (n : String) (i : ℕ) (xs : List A)
      → has key i xs ≡ false
      → any (λ (x : A). same_text (name x) n && not (key x == i)) xs ≡ false
      → any (λ (x : A). same_text (name x) n) xs ≡ false
  any-weaken n i [] h e = refl
  any-weaken n i (x ∷ xs) h e = ground (arith, any-weaken n i xs)

  -- Renaming one row to a text that no other row has.
  pub DistinctTexts-amend_new :
      (n : String) (i : ℕ) (f : A → A) (xs : List A)
      → ((x : A) → name (f x) ≡ n)
      → Distinct key xs
      → any (λ (x : A). same_text (name x) n && not (key x == i)) xs ≡ false
      → DistinctTexts xs
      → DistinctTexts (amend key i f xs)
  unfolding amend
  DistinctTexts-amend_new n i f [] h u g d = tt
  DistinctTexts-amend_new n i f (x ∷ xs) h u g d = elim (Bool-cases (key x == i)) [
    | inl e ↦
        rw (e, amend_absent key i f xs (rw (← ==→eq (key x) i e) u.0), h x)
          (any-weaken n i xs (rw (← ==→eq (key x) i e) u.0) (ground (arith, g, e)), d.1)
    | inr e ↦ rw e (
      any-amend_other (λ y. same_text (name y) (name x)) i f xs
          (λ y. rw (h y) (ground (arith, g, e, same_text_comm (name x) n))) d.0,
      DistinctTexts-amend_new n i f xs h u.1 (ground (arith, g)) d.1,
    )
  ]
