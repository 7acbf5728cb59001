-- ===== src/Analytics/Service/Sections.antt =====
-- What `get_portfolio_summary` of src/bond_accounting/analytics/service.py returns of the full summary.
use stocktaking.Prelude.{ℕ, ◌+◌, ◌≡◌, refl, inl, inr}
use mathlib.Core.Path.{subst}
use stocktaking.Prelude.Int.{pos_part}
use stocktaking.Prelude.Outcome.{Outcome-cases, ok, >>=-eq-ok, ok-injective}
use stocktaking.Floats.{FloatOps}
use stocktaking.Analytics.Dto.{PortfolioSummary}
use stocktaking.Analytics.Sections.{
  due_key, flow_key, flows_within, coupons_within, next_coupons_from_summary,
  cashflows_from_summary,
}
use stocktaking.Analytics.Sections.Cut.{
  IsSection, next_coupons_from_summary-IsSection, cashflows_from_summary-IsSection,
}
use stocktaking.Analytics.Service.{
  Query, check_query, Cache, Moment, or_today, full_summary, cut, get_portfolio_summary,
}

module _ {W : Type 0} where
  -- What a query with these parameters gets of a full summary.
  pub record IsAnswer (q : Query) (base : ℕ) (full out : PortfolioSummary W) : Type 0 where
    pub coupons :
        IsSection due_key
          (pos_part q.limit)
          (coupons_within (base + pos_part q.horizon_days) full.positions full.upcoming_cashflows)
          out.next_coupons
    pub flows :
        IsSection flow_key
          (pos_part q.cashflows_limit)
          (flows_within (base + pos_part q.cashflows_horizon_days) full.upcoming_cashflows)
          out.upcoming_cashflows
    pub others : out ≡ record full {
      next_coupons = out.next_coupons;
      upcoming_cashflows = out.upcoming_cashflows;
    }

module _ {W : Type 0} ⦃fl : FloatOps W⦄ where
  cut-IsAnswer :
      (q : Query) (base : ℕ) (full : PortfolioSummary W) {out : PortfolioSummary W}
      → cut q base full ≡ ok out
      → IsAnswer q base full out
  unfolding cut
  cut-IsAnswer q base full h =
      let (coupons, e, r) =
        >>=-eq-ok (next_coupons_from_summary full base (pos_part q.horizon_days) (pos_part q.limit))
          _ h in
      let (flows, e2, r2) =
        >>=-eq-ok
          (cashflows_from_summary full base (pos_part q.cashflows_horizon_days)
            (pos_part q.cashflows_limit))
          _ r in
      subst (IsAnswer q base full) (ok-injective r2) (record {
        coupons =
            next_coupons_from_summary-IsSection full base (pos_part q.horizon_days)
              (pos_part q.limit) e;
        flows =
            cashflows_from_summary-IsSection full base (pos_part q.cashflows_horizon_days)
              (pos_part q.cashflows_limit) e2;
        others = refl;
      })

  -- If `get_portfolio_summary` returns, then what it returns is a full summary (of the cache, or
  -- computed) with its two sections cut: each is sorted by date and bond, lies within its horizon,
  -- has at most as many events as its limit, leaves none out that comes earlier, and leaves none
  -- out at all if it is shorter than the limit; all else is the full summary's.
  pub get_portfolio_summary-IsAnswer :
      (m : Moment W) (user : ℕ) (q : Query) (cache : Cache W) (out : PortfolioSummary W)
      → (get_portfolio_summary m user q cache).0 ≡ ok out
      → (full : PortfolioSummary W) × ((full_summary m user q.broker_account_id q.today cache).0
          ≡ ok full)
        × IsAnswer q (or_today m q.today) full out
  unfolding get_portfolio_summary
  get_portfolio_summary-IsAnswer m user q cache out h = elim (Outcome-cases (check_query q)) [
    | inl (e, bad) ↦ cc (rw (bad, get_portfolio_summary) at h)
    | inr (u, good) ↦
        let (full, e, r) =
          >>=-eq-ok (full_summary m user q.broker_account_id q.today cache).0
            (cut q (or_today m q.today)) (rw (good, get_portfolio_summary) at h) in
        (full, e, cut-IsAnswer q (or_today m q.today) full r)
  ]
