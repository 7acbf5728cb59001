-- ===== src/Analytics/Service.antt =====
-- `AnalyticsService` of src/bond_accounting/analytics/service.py: its queries and its cache.
pub mod Freshness
pub mod Sections
use stocktaking.Prelude.{
  ℕ, Bool, true, false, not, ◌&&◌, Option, none, some, List, [], ◌∷◌, find, keep_if, ◌==◌,
  if◌then◌else◌,
}
use stocktaking.Prelude.Int.{ℤ, pos, leb_ℤ, pos_part}
use stocktaking.Prelude.Outcome.{Outcome, ok, err, raise_if, ◌>>=◌, ◌>>◌}
use stocktaking.Floats.{FloatOps}
use stocktaking.Portfolio.Store.{Engine}
use stocktaking.Yield.Dates.{Result, value_error}
use stocktaking.Registry.Rows.{Tables}
use stocktaking.Analytics.Dto.{
  PositionAnalytics, PortfolioSummary, next_coupons_horizon_days_max,
  next_coupons_horizon_days_default, next_coupons_limit_max, next_coupons_limit_default,
  cashflows_horizon_days_max, cashflows_horizon_days_default, cashflows_limit_max,
  cashflows_limit_default,
}
use stocktaking.Analytics.Sections.{next_coupons_from_summary, cashflows_from_summary}
use stocktaking.Analytics.Summary.{compute_summary}

-- The parameters of `get_portfolio_summary`.
pub record Query : Type 0 where
  pub today : Option ℕ
  pub horizon_days : ℤ
  pub limit : ℤ
  pub cashflows_horizon_days : ℤ
  pub cashflows_limit : ℤ
  pub broker_account_id : Option ℕ

-- the defaults
abbrev pub plain : Query
plain = record {
  today = none;
  horizon_days = pos next_coupons_horizon_days_default;
  limit = pos next_coupons_limit_default;
  cashflows_horizon_days = pos cashflows_horizon_days_default;
  cashflows_limit = pos cashflows_limit_default;
  broker_account_id = none;
}

-- `1 <= n <= top`
abbrev pub between : ℕ → ℤ → Bool
between top n = leb_ℤ (pos 1) n && leb_ℤ n (pos top)

unfoldable pub check_query : Query → Result (Unit {0})
check_query q = do
  raise_if (not (between next_coupons_horizon_days_max q.horizon_days)) value_error
  raise_if (not (between next_coupons_limit_max q.limit)) value_error
  raise_if (not (between cashflows_horizon_days_max q.cashflows_horizon_days)) value_error
  raise_if (not (between cashflows_limit_max q.cashflows_limit)) value_error

abbrev pub Cache : Type 0 → Type 0
Cache W = List (ℕ × PortfolioSummary W)

-- What a method finds: the database with its engine, `date.today()` and `datetime.now()`.
pub record Moment (W : Type 0) : Type 0 where
  pub engine : Engine W
  pub tables : Tables W
  pub day : ℕ
  pub now : ℕ

module _ {W : Type 0} where
  -- `self._summary_cache.get(("summary", user_id))`
  unfoldable pub cached : ℕ → Cache W → Option (PortfolioSummary W)
  cached user [] = none
  cached user ((i, s) ∷ rest) = let later = cached user rest in if i == user then some s else later

  unfoldable pub store : ℕ → PortfolioSummary W → Cache W → Cache W
  store user s cache = (user, s) ∷ keep_if (λ (e : ℕ × PortfolioSummary W). not (e.0 == user)) cache

module _ {W : Type 0} ⦃fl : FloatOps W⦄ where
  unfoldable pub compute : Moment W → ℕ → ℕ → Option ℕ → Result (PortfolioSummary W)
  compute m user today account = compute_summary m.engine m.tables m.now user today account

  -- what is computed is stored, if it is computed
  abbrev pub keep_fresh :
      ℕ → Cache W → Result (PortfolioSummary W) → Result (PortfolioSummary W) × Cache W
  keep_fresh user cache (ok s) = (ok s, store user s cache)
  keep_fresh user cache (err e) = (err e, cache)

  -- the summary of the cache, or one that is computed and stored
  unfoldable pub cached_or_fresh : Moment W → ℕ → Cache W → Result (PortfolioSummary W) × Cache W
  unfolding cached
  cached_or_fresh m user cache = elim (cached user cache) [
    | some s ↦ (ok s, cache)
    | none ↦ keep_fresh user cache (compute m user m.day none)
  ]

  -- `today if today is not None else date.today()`
  abbrev pub or_today : Moment W → Option ℕ → ℕ
  or_today m none = m.day
  or_today m (some d) = d

  -- the summary before its sections are cut, and the cache
  unfoldable pub full_summary :
      Moment W → ℕ → Option ℕ → Option ℕ → Cache W → Result (PortfolioSummary W) × Cache W
  unfolding cached_or_fresh
  full_summary m user (some account) today cache =
      (compute m user (or_today m today) (some account), cache)
  full_summary m user none (some d) cache = (compute m user d none, cache)
  full_summary m user none none cache = cached_or_fresh m user cache

  -- the sections that the query asks for
  unfoldable pub cut : Query → ℕ → PortfolioSummary W → Result (PortfolioSummary W)
  cut q base s = do
    coupons ← next_coupons_from_summary s base (pos_part q.horizon_days) (pos_part q.limit)
    flows ←
        cashflows_from_summary s base (pos_part q.cashflows_horizon_days)
          (pos_part q.cashflows_limit)
    ok (record s { next_coupons = coupons; upcoming_cashflows = flows })

  -- `get_portfolio_summary`, with the cache that it leaves
  unfoldable pub get_portfolio_summary :
      Moment W → ℕ → Query → Cache W → Result (PortfolioSummary W) × Cache W
  unfolding check_query full_summary cut
  get_portfolio_summary m user q cache = elim (check_query q) [
    | err e ↦ (err e, cache)
    | ok _ ↦
        let (full, left) = full_summary m user q.broker_account_id q.today cache in
        (full >>= cut q (or_today m q.today), left)
  ]

  -- `next((p for p in summary.positions if p.bond_id == bond_id), None)`
  abbrev pub position_in : ℕ → PortfolioSummary W → Option (PositionAnalytics W)
  position_in bond s = find (λ (p : PositionAnalytics W). p.bond_id == bond) s.positions

  abbrev pub position_of_full :
      ℕ → Result (PortfolioSummary W) × Cache W → Result (Option (PositionAnalytics W)) × Cache W
  position_of_full bond (full, cache) = (full >>= λ s. ok (position_in bond s), cache)

  unfoldable pub get_position_analytics :
      Moment W
      → ℕ
      → ℕ
      → Option ℕ
      → Option ℕ
      → Cache W
      → Result (Option (PositionAnalytics W)) × Cache W
  unfolding full_summary get_portfolio_summary
  get_position_analytics m user bond none none cache =
      position_of_full bond (get_portfolio_summary m user plain cache)
  get_position_analytics m user bond today account cache =
      position_of_full bond (full_summary m user account today cache)

  -- `recalculate`, up to its `publish`
  unfoldable pub recalculate : Moment W → ℕ → Cache W → Result (PortfolioSummary W) × Cache W
  recalculate m user cache = keep_fresh user cache (compute m user m.day none)

  -- `handle` of `attach_to_event_bus`: the user id of the payload, if it has one. What `recalculate`
  -- raises is logged.
  unfoldable pub handle : Moment W → Option ℕ → Cache W → Cache W
  handle m none cache = cache
  handle m (some user) cache = (recalculate m user cache).1
