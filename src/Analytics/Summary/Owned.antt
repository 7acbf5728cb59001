-- ===== src/Analytics/Summary/Owned.antt =====
-- What `_compute_summary` of src/bond_accounting/analytics/service.py adds for a bond is of that bond.
use stocktaking.Prelude.{
  ℕ, ◌≡◌, refl, sym, ap, inl, inr, Bool, true, false, Option, none, Option-cases, List, [], ◌∷◌,
  ◌++◌, map, All, leb, if◌then◌else◌,
}
use stocktaking.Prelude.Int.{ℤ}
use stocktaking.Prelude.Outcome.{ok, >>=-eq-ok, ok-injective}
use stocktaking.Floats.{FloatOps}
use stocktaking.Portfolio.Transaction.{Transaction}
use stocktaking.Portfolio.Netting.{net_position}
use stocktaking.Yield.Schedule.{CouponPayment}
use stocktaking.Registry.Rows.{Bond}
use stocktaking.Analytics.Dto.{Cashflow, PositionAnalytics}
use stocktaking.Analytics.Flows.{coupon_flow, maturity_flow, dates_left}
use stocktaking.Analytics.Positions.{priced, build_position_analytics, yields_of, accrued_of}
use stocktaking.Analytics.Grid.{last_coupon_date}

module _ {W : Type 0} ⦃fl : FloatOps W⦄ where
  priced-of_bond :
      (bond : Bond W) (q : ℤ) (price : W) (today : ℕ) (flows : Option (List (CouponPayment W)))
      {p : PositionAnalytics W}
      → priced bond q price today flows ≡ ok p
      → (p.bond_id ≡ bond.id) × (p.name ≡ bond.name)
  unfolding priced
  priced-of_bond bond q price today flows {p} h =
      let (dates, e1, h1) = >>=-eq-ok (dates_left bond today) _ h in
      let (yields, e2, h2) =
        >>=-eq-ok
          (if leb bond.maturity_date today
            then ok (none, none)
            else yields_of bond price today flows)
          _ h1 in
      let (last, e3, h3) =
        >>=-eq-ok (last_coupon_date bond.maturity_date bond.coupon_period_days today) _ h2 in
      let (accrued, e4, h4) = >>=-eq-ok (accrued_of bond today last) _ h3 in
      (
        ap (λ (x : PositionAnalytics W). x.bond_id) (sym (ok-injective h4)),
        ap (λ (x : PositionAnalytics W). x.name) (sym (ok-injective h4)),
      )

  pub build-of_bond :
      (bond : Bond W) (txns : List (Transaction W)) (today : ℕ)
      (flows : Option (List (CouponPayment W))) {p : PositionAnalytics W}
      → build_position_analytics bond txns today flows ≡ ok p
      → (p.bond_id ≡ bond.id) × (p.name ≡ bond.name)
  unfolding build_position_analytics
  build-of_bond bond txns today flows h = elim (Option-cases (net_position txns).1) [
    | inl e ↦ cc (rw (e, build_position_analytics) at h)
    | inr (avg, e) ↦
        priced-of_bond bond (net_position txns).0 avg today flows
          (rw (e, build_position_analytics) at h)
  ]

  pub flows-of_bond :
      (bond : Bond W) (q : ℤ) (dates : List ℕ) (matures : Bool)
      → All
          (λ (f : Cashflow W). f.bond_id ≡ bond.id)
          (map (coupon_flow bond q) dates ++ (if matures then maturity_flow bond q ∷ [] else []))
  unfolding coupon_flow maturity_flow
  flows-of_bond bond q [] true = (refl, tt)
  flows-of_bond bond q [] false = tt
  flows-of_bond bond q (d ∷ dates) matures = (refl, flows-of_bond bond q dates matures)
