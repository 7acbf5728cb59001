-- ===== src/Analytics/Flows/Principal.antt =====
-- `_bond_position_cashflows` of src/bond_accounting/analytics/service.py: where the principal is.
use stocktaking.Prelude.{
  ◌+◌, ◌≤◌, ◌≡◌, refl, ◌∙◌, sym, ==_refl, inl, inr, Bool, true, Bool-cases, some, List, [], ◌∷◌,
  ◌++◌, map, any, keep_if, length, All, ◌==◌, arith,
}
use stocktaking.Floats.{FloatOps}
use stocktaking.Yield.Schedule.{CouponPayment}
use stocktaking.Registry.Rows.{Bond, BondCoupon}
use stocktaking.Registry.Table.Laws.{keep_if-none}
use stocktaking.Analytics.Flows.{stored_payment, principal_on_its_own, bond_position_cashflows}

some_kept : {A : Type 0} (p : A → Bool) (xs : List A) → any p xs ≡ true → 1 ≤ length (keep_if p xs)
some_kept p [] h = cc
some_kept p (x ∷ xs) h = ground (arith, some_kept p xs)

module _ {W : Type 0} where
  abbrev pub at_maturity : Bond W → BondCoupon W → Bool
  at_maturity bond row = row.coupon_date == bond.maturity_date

  -- A payment is final exactly on the maturity date.
  abbrev pub IsMarked : Bond W → CouponPayment W → Type 0
  IsMarked bond payment = payment.is_final ≡ (payment.payment_date == bond.maturity_date)

  abbrev pub finals : List (CouponPayment W) → List (CouponPayment W)
  finals payments = keep_if (λ (p : CouponPayment W). p.is_final) payments

module _ {W : Type 0} ⦃fl : FloatOps W⦄ where
  finals-stored :
      (bond : Bond W) (rows : List (BondCoupon W)) (tail : List (CouponPayment W))
      → length (finals (map (stored_payment bond) rows ++ tail))
        ≡ length (keep_if (at_maturity bond) rows) + length (finals tail)
  unfolding stored_payment
  finals-stored bond [] tail = omega arith
  finals-stored bond (r ∷ rows) tail = ground (arith, finals-stored bond rows tail)

  one_final :
      (bond : Bond W) (rows : List (BondCoupon W))
      → length (keep_if (at_maturity bond) rows) ≤ 1
      → length (keep_if (at_maturity bond) rows) + length (finals (principal_on_its_own bond rows))
        ≡ 1
  unfolding principal_on_its_own
  one_final bond rows h = elim (Bool-cases (any (at_maturity bond) rows)) [
    | inl there ↦ rw there (omega (arith, h, some_kept (at_maturity bond) rows there))
    | inr absent ↦ rw (absent, keep_if-none (at_maturity bond) rows absent) refl
  ]

  principal_on_its_own-IsMarked :
      (bond : Bond W) (rows : List (BondCoupon W))
      → All (IsMarked bond) (principal_on_its_own bond rows)
  unfolding principal_on_its_own
  principal_on_its_own-IsMarked bond rows = elim (Bool-cases (any (at_maturity bond) rows)) [
    | inl there ↦ rw there tt
    | inr absent ↦ rw absent (sym (==_refl bond.maturity_date), tt)
  ]

  marked :
      (bond : Bond W) (rows : List (BondCoupon W)) (tail : List (CouponPayment W))
      → All (IsMarked bond) tail
      → All (IsMarked bond) (map (stored_payment bond) rows ++ tail)
  unfolding stored_payment
  marked bond [] tail h = h
  marked bond (r ∷ rows) tail h = (refl, marked bond rows tail h)

  -- A stored schedule with at most one row on the maturity date is turned into a schedule in which
  -- exactly one payment is final, and in which a payment is final exactly on the maturity date.
  pub bond_position_cashflows-finals :
      (r : BondCoupon W) (rows : List (BondCoupon W)) (bond : Bond W)
      → length (keep_if (at_maturity bond) (r ∷ rows)) ≤ 1
      → (payments : List (CouponPayment W)) × (bond_position_cashflows (r ∷ rows) bond
          ≡ some payments)
        × (length (finals payments) ≡ 1)
        × All (IsMarked bond) payments
  unfolding bond_position_cashflows
  bond_position_cashflows-finals r rows bond h =
      let tail = principal_on_its_own bond (r ∷ rows) in
      (
        map (stored_payment bond) (r ∷ rows) ++ tail,
        refl,
        finals-stored bond (r ∷ rows) tail ∙ one_final bond (r ∷ rows) h,
        marked bond (r ∷ rows) tail (principal_on_its_own-IsMarked bond (r ∷ rows)),
      )
