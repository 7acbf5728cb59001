-- ===== src/Analytics/Summary/Derived.antt =====
-- `_compute_summary` and `_next_coupons_from_summary` of src/bond_accounting/analytics/service.py follow
-- one policy for `next_coupons`.
use mathlib.Core.Path.{subst}
use stocktaking.Prelude.{
  ℕ, ◌≡◌, refl, ◌∙◌, ap, inl, inr, false, ◌&&◌, Bool-cases, Option, Option-cases, List, [], ◌∷◌,
  ◌++◌, map, keep_if, All, All-kept, arith, leb, ltb, ◌==◌, if◌then◌else◌,
}
use stocktaking.Prelude.Int.{ℤ, pos, ltb_ℤ}
use stocktaking.Prelude.Outcome.{ok, >>=-eq-ok, ok-injective}
use stocktaking.Floats.{FloatOps}
use stocktaking.Portfolio.Transaction.{Transaction}
use stocktaking.Portfolio.Netting.{net_position}
use stocktaking.Portfolio.Store.{Engine}
use stocktaking.Portfolio.Queries.{group_from}
use stocktaking.Registry.Rows.{Bond, BondCoupon, Tables}
use stocktaking.Registry.Table.{get, has}
use stocktaking.Registry.Table.Laws.{Distinct, get-key}
use stocktaking.Analytics.Dto.{
  PortfolioSummary, is_coupon, next_coupons_horizon_days_default, next_coupons_limit_default,
  Cashflow, CouponDue,
}
use stocktaking.Analytics.Flows.{
  coupon_due, coupon_flow, maturity_flow, dates_left, future_bond_cashflows,
  bond_position_cashflows,
}
use stocktaking.Analytics.Positions.{build_position_analytics}
use stocktaking.Analytics.Grid.{plus_days}
use stocktaking.Sort.{sort_by, first}
use stocktaking.Sort.Stable.{sort_by-sort_by, keep_if-sort_by, map-sort_by}
use stocktaking.Analytics.Sections.{
  due_of, due_key, flow_key, coupons_within, next_coupons_from_summary,
}
use stocktaking.Analytics.Summary.{
  Inputs, Totals, add_results, add_position, add_bond, add_group, add_groups, no_totals, summary_of,
  load_summary_inputs, compute_summary,
}
use stocktaking.Analytics.Summary.Owned.{build-of_bond, flows-of_bond}
use stocktaking.Analytics.Summary.Names.{
  coupons_within-snoc, coupons_within-append, coupons_within-flows,
}
use stocktaking.Analytics.Summary.Groups.{of_bond, sort_by-Distinct, group_from-Distinct}

All-append : {A : Type 0} (P : A → Type 0) (xs ys : List A) → All P xs → All P ys → All P (xs ++ ys)
All-append P [] ys h k = k
All-append P (x ∷ xs) ys h k = (h.0, All-append P xs ys h.1 k)

module _ {W : Type 0} where
  -- The coupon events are those of the cashflows, and no cashflow is of a bond that is still to come.
  pub record IsDerived (end : ℕ) (left : List (ℕ × List (Transaction W))) (s : Totals W)
      : Type 0 where
    pub coupons : s.next_coupons ≡ coupons_within end s.positions s.cashflows
    pub fresh : All (λ (f : Cashflow W). has of_bond f.bond_id left ≡ false) s.cashflows

  later :
      (end : ℕ) (g : ℕ × List (Transaction W)) (left : List (ℕ × List (Transaction W)))
      (s : Totals W)
      → IsDerived end (g ∷ left) s
      → IsDerived end left s
  later end g left s h = record {
    coupons = h.coupons;
    fresh = All-kept _ _ (λ f k. ground (arith, k)) s.cashflows h.fresh;
  }

  abbrev group_key : ℕ × List (Transaction W) → ℕ × ℕ
  group_key g = (g.0, 0)

  same_coupons :
      (end : ℕ) (s : Totals W)
      → s.next_coupons ≡ coupons_within end s.positions s.cashflows
      → sort_by due_key (coupons_within end s.positions (sort_by flow_key s.cashflows))
        ≡ sort_by due_key s.next_coupons
  unfolding due_of
  same_coupons end s h =
      rw
        (
          keep_if-sort_by flow_key (λ f. is_coupon f.kind && leb f.date end) s.cashflows,
          map-sort_by flow_key due_key (due_of s.positions) (λ f. refl)
              (keep_if (λ f. is_coupon f.kind && leb f.date end) s.cashflows),
          h,
        )
        (sort_by-sort_by due_key (coupons_within end s.positions s.cashflows))

module _ {W : Type 0} ⦃fl : FloatOps W⦄ where
  add_results-IsDerived :
      (end : ℕ) (left : List (ℕ × List (Transaction W))) (s : Totals W)
      (rows : List (Transaction W))
      → IsDerived end left s
      → IsDerived end left (add_results s rows)
  unfolding add_results
  add_results-IsDerived end left s rows h = record { coupons = h.coupons; fresh = h.fresh }

  add_position-IsDerived :
      (inputs : Inputs W) (today end : ℕ) (s : Totals W) (bond : Bond W)
      (rows : List (Transaction W)) (q : ℤ) (left : List (ℕ × List (Transaction W)))
      {next : Totals W}
      → IsDerived end ((bond.id, rows) ∷ left) s
      → has of_bond bond.id left ≡ false
      → add_position inputs today end s bond rows q ≡ ok next
      → IsDerived end left next
  unfolding add_position future_bond_cashflows
  add_position-IsDerived inputs today end s bond rows q left h new e =
      let stored = keep_if (λ (c : BondCoupon W). c.bond_id == bond.id) inputs.coupons in
      let (p, built, r) =
        >>=-eq-ok (build_position_analytics bond rows today (bond_position_cashflows stored bond)) _
          e in
      let (flows, paid, r2) = >>=-eq-ok (future_bond_cashflows bond q today end) _ r in
      let (dates, found, r3) =
        >>=-eq-ok (dates_left bond today) _ (unfold future_bond_cashflows in paid) in
      let (own, named) =
        build-of_bond bond rows today (bond_position_cashflows stored bond) built in
      let cash =
        map (coupon_flow bond q) dates
        ++ (if ltb today bond.maturity_date then maturity_flow bond q ∷ [] else []) in
      let others : All (λ (f : Cashflow W). (p.bond_id == f.bond_id) ≡ false) s.cashflows =
        All-kept _ _ (λ f k. rw own (ground (arith, k))) s.cashflows h.fresh in
      let derived : IsDerived end left (record s {
        positions = s.positions ++ p ∷ [];
        next_coupons = s.next_coupons ++ map (coupon_due bond q) (keep_if (λ d. leb d end) dates);
        cashflows = s.cashflows ++ cash;
      }) =
        record {
          coupons =
              rw
                (
                  coupons_within-append end (s.positions ++ p ∷ []) s.cashflows cash,
                  coupons_within-snoc end s.positions p s.cashflows others,
                  coupons_within-flows end s.positions p bond q dates (ltb today bond.maturity_date)
                      own named,
                  h.coupons,
                )
                refl;
          fresh =
              All-append _ s.cashflows cash
                (All-kept _ _ (λ f k. ground (arith, k)) s.cashflows h.fresh)
                (All-kept _ _ (λ f k. rw k new) cash
                  (flows-of_bond bond q dates (ltb today bond.maturity_date)));
        } in
      subst (IsDerived end left)
        (ap
            (λ (x : List (CouponDue W) × List (Cashflow W)). record s {
              positions = s.positions ++ p ∷ [];
              next_coupons = s.next_coupons ++ x.0;
              cashflows = s.cashflows ++ x.1;
            })
            (ok-injective r3)
          ∙ ok-injective r2)
        derived

  add_bond-IsDerived :
      (inputs : Inputs W) (today end : ℕ) (s : Totals W) (bond : Bond W)
      (rows : List (Transaction W)) (left : List (ℕ × List (Transaction W))) {next : Totals W}
      → IsDerived end ((bond.id, rows) ∷ left) s
      → has of_bond bond.id left ≡ false
      → add_bond inputs today end s bond rows ≡ ok next
      → IsDerived end left next
  unfolding add_bond
  add_bond-IsDerived inputs today end s bond rows left h new e =
      elim (Bool-cases (ltb_ℤ (pos 0) (net_position rows).0)) [
        | inl holds ↦
            add_position-IsDerived inputs today end s bond rows (net_position rows).0 left h new
              (rw (holds, add_bond) at e)
        | inr closed ↦
            subst (IsDerived end left) (ok-injective (rw (closed, add_bond) at e))
              (later end (bond.id, rows) left s h)
      ]

  add_group-IsDerived :
      (inputs : Inputs W) (today end : ℕ) (s : Totals W) (i : ℕ) (rows : List (Transaction W))
      (left : List (ℕ × List (Transaction W))) {next : Totals W}
      → IsDerived end ((i, rows) ∷ left) s
      → has of_bond i left ≡ false
      → add_group inputs today end s (i, rows) ≡ ok next
      → IsDerived end left next
  unfolding add_group
  add_group-IsDerived inputs today end s i rows left h new e =
      let counted = add_results-IsDerived end ((i, rows) ∷ left) s rows h in
      elim (Option-cases (get (λ (b : Bond W). b.id) i inputs.bonds)) [
        | inl gone ↦
            subst (IsDerived end left) (ok-injective (rw (gone, add_group) at e))
              (later end (i, rows) left (add_results s rows) counted)
        | inr (bond, found) ↦
            let own = get-key (λ (b : Bond W). b.id) i inputs.bonds {r = bond} found in
            add_bond-IsDerived inputs today end (add_results s rows) bond rows left (rw own counted)
              (rw own new) (rw (found, add_group) at e)
      ]

  add_groups-IsDerived :
      (inputs : Inputs W) (today end : ℕ) (s : Totals W) (gs : List (ℕ × List (Transaction W)))
      {next : Totals W}
      → Distinct of_bond gs
      → IsDerived end gs s
      → add_groups inputs today end s gs ≡ ok next
      → IsDerived end [] next
  unfolding add_groups
  add_groups-IsDerived inputs today end s [] d h e = subst (IsDerived end []) (ok-injective e) h
  add_groups-IsDerived inputs today end s ((i, rows) ∷ gs) d h e =
      let (mid, q, r) = >>=-eq-ok (add_group inputs today end s (i, rows)) _ e in
      add_groups-IsDerived inputs today end mid gs d.1
        (add_group-IsDerived inputs today end s i rows gs h d.0 q) r

  -- The `next_coupons` that a computed summary carries, collected bond by bond within the default
  -- horizon, then sorted and capped, are exactly those that a query derives from its full cashflow
  -- calendar with the same horizon and limit.
  pub compute_summary-next_coupons :
      (eng : Engine W) (t : Tables W) (now user today : ℕ) (account : Option ℕ)
      (s : PortfolioSummary W)
      → compute_summary eng t now user today account ≡ ok s
      → next_coupons_from_summary s today next_coupons_horizon_days_default
          next_coupons_limit_default
        ≡ ok s.next_coupons
  unfolding compute_summary summary_of no_totals next_coupons_from_summary
  compute_summary-next_coupons eng t now user today account s h =
      let inputs = load_summary_inputs eng t user account in
      let (end, e, r) = >>=-eq-ok (plus_days today next_coupons_horizon_days_default) _ h in
      let groups = sort_by group_key (group_from [] inputs.txns) in
      let (totals, q, r2) = >>=-eq-ok (add_groups inputs today end no_totals groups) _ r in
      let derived : IsDerived end [] totals =
        add_groups-IsDerived inputs today end no_totals groups
          (sort_by-Distinct group_key of_bond (group_from [] inputs.txns)
            (group_from-Distinct [] inputs.txns tt))
          (record { coupons = refl; fresh = tt }) q in
      subst
        (λ (x : PortfolioSummary W).
          next_coupons_from_summary x today next_coupons_horizon_days_default
            next_coupons_limit_default
          ≡ ok x.next_coupons)
        (ok-injective r2)
        (rw e (
          ap (λ cs. ok (first next_coupons_limit_default cs))
            (same_coupons end totals derived.coupons)))
