-- ===== src/Analytics/Sections/Cut.antt =====
-- What `get_portfolio_summary` of src/bond_accounting/analytics/service.py cuts a summary to.
use mathlib.Core.List.{Perm}
use mathlib.Core.Path.{subst}
use stocktaking.Prelude.{ℕ, ◌+◌, ◌≤◌, ◌≡◌, sym, ◌⊎◌, List, [], ◌++◌, length, arith}
use stocktaking.Prelude.Outcome.{ok, >>=-eq-ok, ok-injective}
use stocktaking.Analytics.Dto.{CouponDue, Cashflow, PortfolioSummary}
use stocktaking.Analytics.Grid.{plus_days}
use stocktaking.Sort.{sort_by, first, after}
use stocktaking.Sort.Laws.{
  IsSorted, sort_by-IsSorted, sort_by-Perm, first-after, length-first, first_full,
}
use stocktaking.Analytics.Sections.{
  due_key, flow_key, flows_within, coupons_within, next_coupons_from_summary,
  cashflows_from_summary,
}

-- The first `limit` of all in the order of the key, or all of them if they are fewer.
pub record IsSection {A : Type 0} (key : A → ℕ × ℕ) (limit : ℕ) (all out : List A) : Type 0 where
  pub rest : List A
  pub same : Perm (out ++ rest) all
  pub sorted : IsSorted key (out ++ rest)
  pub size : length out ≤ limit
  pub full : (rest ≡ []) ⊎ (length out ≡ limit)

first-IsSection :
    {A : Type 0} (key : A → ℕ × ℕ) (limit : ℕ) (xs : List A)
    → IsSection key limit xs (first limit (sort_by key xs))
first-IsSection key limit xs =
    let sorted = sort_by key xs in
    record {
      rest = after limit sorted;
      same = subst (λ ys. Perm ys xs) (sym (first-after limit sorted)) (sort_by-Perm key xs);
      sorted = subst (IsSorted key) (sym (first-after limit sorted)) (sort_by-IsSorted key xs);
      size = length-first limit sorted;
      full = first_full limit sorted;
    }

plus_days-ok : (d n : ℕ) {e : ℕ} → plus_days d n ≡ ok e → d + n ≡ e
unfolding plus_days
plus_days-ok d n h = ground (arith, h)

module _ {W : Type 0} where
  pub next_coupons_from_summary-IsSection :
      (s : PortfolioSummary W) (base horizon limit : ℕ) {out : List (CouponDue W)}
      → next_coupons_from_summary s base horizon limit ≡ ok out
      → IsSection due_key limit
          (coupons_within (base + horizon) s.positions s.upcoming_cashflows)
          out
  unfolding next_coupons_from_summary
  next_coupons_from_summary-IsSection s base horizon limit h =
      let (horizon_end, e, q) = >>=-eq-ok (plus_days base horizon) _ h in
      rw (plus_days-ok base horizon e, ← ok-injective q)
        (first-IsSection due_key limit
          (coupons_within horizon_end s.positions s.upcoming_cashflows))

  pub cashflows_from_summary-IsSection :
      (s : PortfolioSummary W) (base horizon limit : ℕ) {out : List (Cashflow W)}
      → cashflows_from_summary s base horizon limit ≡ ok out
      → IsSection flow_key limit (flows_within (base + horizon) s.upcoming_cashflows) out
  unfolding cashflows_from_summary
  cashflows_from_summary-IsSection s base horizon limit h =
      let (horizon_end, e, q) = >>=-eq-ok (plus_days base horizon) _ h in
      rw (plus_days-ok base horizon e, ← ok-injective q)
        (first-IsSection flow_key limit (flows_within horizon_end s.upcoming_cashflows))
