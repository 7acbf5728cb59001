-- ===== src/Analytics/Summary/Names.antt =====
-- The names of coupon events, and one more position (src/bond_accounting/analytics/service.py).
use Prim.Native.String.{String}
use stocktaking.Prelude.{
  ℕ, ◌≡◌, refl, ◌∙◌, ap, inl, inr, Bool, true, false, ◌&&◌, Bool-cases, List, [], ◌∷◌, ◌++◌, map,
  keep_if, All, arith, leb, ◌==◌, ==_refl, if◌then◌else◌,
}
use stocktaking.Prelude.Int.{ℤ}
use stocktaking.Floats.{FloatOps}
use stocktaking.Registry.Rows.{Bond}
use stocktaking.Analytics.Dto.{Cashflow, PositionAnalytics, is_coupon}
use stocktaking.Analytics.Flows.{coupon_due, coupon_flow, maturity_flow}
use stocktaking.Analytics.Sections.{name_in, due_of, coupons_within}

pub keep_if-append :
    {A : Type 0} (p : A → Bool) (xs ys : List A)
    → keep_if p (xs ++ ys) ≡ keep_if p xs ++ keep_if p ys
keep_if-append p [] ys = refl
keep_if-append p (x ∷ xs) ys = ground (arith, keep_if-append p xs ys)

pub map-append :
    {A B : Type 0} (f : A → B) (xs ys : List A) → map f (xs ++ ys) ≡ map f xs ++ map f ys
map-append f [] ys = refl
map-append f (x ∷ xs) ys = ap (λ zs. f x ∷ zs) (map-append f xs ys)

module _ {W : Type 0} where
  name_in-snoc_other :
      (ps : List (PositionAnalytics W)) (p : PositionAnalytics W) (i : ℕ) (isin : String)
      → (p.bond_id == i) ≡ false
      → name_in (ps ++ p ∷ []) i isin ≡ name_in ps i isin
  unfolding name_in
  name_in-snoc_other [] p i isin h = rw h refl
  name_in-snoc_other (q ∷ ps) p i isin h =
      name_in-snoc_other ps p i (if q.bond_id == i then q.name else isin) h

  name_in-snoc_own :
      (ps : List (PositionAnalytics W)) (p : PositionAnalytics W) (i : ℕ) (isin : String)
      → (p.bond_id == i) ≡ true
      → name_in (ps ++ p ∷ []) i isin ≡ p.name
  unfolding name_in
  name_in-snoc_own [] p i isin h = rw h refl
  name_in-snoc_own (q ∷ ps) p i isin h =
      name_in-snoc_own ps p i (if q.bond_id == i then q.name else isin) h

  -- A position of another bond changes no event.
  pub coupons_within-snoc :
      (end : ℕ) (ps : List (PositionAnalytics W)) (p : PositionAnalytics W)
      (flows : List (Cashflow W))
      → All (λ (f : Cashflow W). (p.bond_id == f.bond_id) ≡ false) flows
      → coupons_within end (ps ++ p ∷ []) flows ≡ coupons_within end ps flows
  unfolding due_of
  coupons_within-snoc end ps p [] h = refl
  coupons_within-snoc end ps p (f ∷ flows) h =
      elim (Bool-cases (is_coupon f.kind && leb f.date end)) [
        | inl e ↦
            rw
              (
                e,
                name_in-snoc_other ps p f.bond_id f.isin h.0,
                coupons_within-snoc end ps p flows h.1,
              )
              refl
        | inr e ↦ rw e (coupons_within-snoc end ps p flows h.1)
      ]

  pub coupons_within-append :
      (end : ℕ) (ps : List (PositionAnalytics W)) (fs gs : List (Cashflow W))
      → coupons_within end ps (fs ++ gs) ≡ coupons_within end ps fs ++ coupons_within end ps gs
  coupons_within-append end ps fs gs =
      ap (map (due_of ps)) (keep_if-append (λ f. is_coupon f.kind && leb f.date end) fs gs)
      ∙ map-append (due_of ps) (keep_if (λ f. is_coupon f.kind && leb f.date end) fs) _

module _ {W : Type 0} ⦃fl : FloatOps W⦄ where
  -- The coupons of the last position, under its name.
  pub coupons_within-flows :
      (end : ℕ) (ps : List (PositionAnalytics W)) (p : PositionAnalytics W) (bond : Bond W)
      (quantity : ℤ) (dates : List ℕ) (matures : Bool)
      → p.bond_id ≡ bond.id
      → p.name ≡ bond.name
      → coupons_within end (ps ++ p ∷ []) (
          map (coupon_flow bond quantity) dates
          ++ (if matures then maturity_flow bond quantity ∷ [] else []))
        ≡ map (coupon_due bond quantity) (keep_if (λ d. leb d end) dates)
  unfolding due_of coupon_due coupon_flow maturity_flow
  coupons_within-flows end ps p bond quantity [] true own named = refl
  coupons_within-flows end ps p bond quantity [] false own named = refl
  coupons_within-flows end ps p bond quantity (d ∷ dates) matures own named =
      elim (Bool-cases (leb d end)) [
        | inl e ↦
            rw
              (
                e,
                name_in-snoc_own ps p bond.id bond.isin (rw own (==_refl bond.id)),
                named,
                coupons_within-flows end ps p bond quantity dates matures own named,
              )
              refl
        | inr e ↦ rw e (coupons_within-flows end ps p bond quantity dates matures own named)
      ]
