-- ===== src/Portfolio/Queries.antt =====
-- The reading half of `PortfolioService` (src/bond_accounting/portfolio/service.py).
use stocktaking.Prelude.{
  ℕ, Bool, true, ◌&&◌, Option, none, some, List, [], ◌∷◌, ◌++◌, map, keep_if, ◌==◌, if◌then◌else◌,
}
use stocktaking.Prelude.Int.{ℤ, pos, ltb_ℤ, nonzero}
use stocktaking.Floats.{FloatOps, ◌⊗◌}
use stocktaking.Portfolio.Transaction.{Transaction}
use stocktaking.Portfolio.Dto.{TransactionDto, PositionDto}
use stocktaking.Portfolio.Store.{Database, Engine, get_row}
use stocktaking.Portfolio.Netting.{net_position}
use stocktaking.Portfolio.Result.{Result, ok, err, forbidden}

-- A `where` on an optional column filter.
abbrev pub matches : Option ℕ → ℕ → Bool
matches none n = true
matches (some m) n = n == m

module _ {W : Type 0} where
  abbrev pub selects : ℕ → Option ℕ → Option ℕ → Transaction W → Bool
  selects u b a t = t.user_id == u && (matches b t.bond_id && matches a t.broker_account_id)

  -- `_load_transactions`
  unfoldable pub load_transactions : Engine W → Database W → ℕ → ℕ → Option ℕ → List (Transaction W)
  load_transactions eng db u b a = eng.order (keep_if (selects u (some b) a) db.transactions)

  unfoldable pub list_transactions :
      Engine W → Database W → ℕ → Option ℕ → Option ℕ → List (TransactionDto W)
  list_transactions eng db u b a = eng.order (keep_if (selects u b a) db.transactions)

  unfoldable pub get_transaction : Database W → ℕ → ℕ → Result (Option (TransactionDto W))
  get_transaction db i u = elim (get_row db i) [
    | none ↦ ok none
    | some t ↦ if t.user_id == u then ok (some t) else err forbidden
  ]

  -- `grouped.setdefault(txn.bond_id, []).append(txn)`
  unfoldable pub add_to_group :
      Transaction W → List (ℕ × List (Transaction W)) → List (ℕ × List (Transaction W))
  add_to_group t [] = (t.bond_id, t ∷ []) ∷ []
  add_to_group t ((b, rows) ∷ gs) =
      let rest = add_to_group t gs in
      if b == t.bond_id then (b, rows ++ t ∷ []) ∷ gs else (b, rows) ∷ rest

  unfoldable pub group_from :
      List (ℕ × List (Transaction W)) → List (Transaction W) → List (ℕ × List (Transaction W))
  unfolding add_to_group
  group_from gs [] = gs
  group_from gs (t ∷ ts) = group_from (add_to_group t gs) ts

module _ {W : Type 0} ⦃fl : FloatOps W⦄ where
  -- `_to_position`, on the pair that `net_position` returns
  unfoldable pub position_of : ℕ → ℕ → ℤ → Option W → PositionDto W
  position_of u b q none = record {
    user_id = u;
    bond_id = b;
    quantity = q;
    avg_buy_price = none;
    total_invested = fl.zero_float;
  }
  position_of u b q (some avg) =
      if ltb_ℤ (pos 0) q
      then record {
        user_id = u;
        bond_id = b;
        quantity = q;
        avg_buy_price = some avg;
        total_invested = avg ⊗ fl.of_int q;
      }
      else record {
        user_id = u;
        bond_id = b;
        quantity = q;
        avg_buy_price = none;
        total_invested = fl.zero_float;
      }

  unfoldable pub to_position : ℕ → ℕ → List (Transaction W) → PositionDto W
  unfolding position_of
  to_position u b ts = let (q, avg) = net_position ts in position_of u b q avg

  unfoldable pub get_position : Engine W → Database W → ℕ → ℕ → Option ℕ → PositionDto W
  unfolding to_position load_transactions
  get_position eng db u b a = to_position u b (load_transactions eng db u b a)

  unfoldable pub get_all_positions : Engine W → Database W → ℕ → Option ℕ → List (PositionDto W)
  unfolding group_from to_position
  get_all_positions eng db u a =
      let txns = eng.order (keep_if (selects u none a) db.transactions) in
      keep_if (λ p. nonzero p.quantity)
        (map (λ (g : ℕ × List (Transaction W)). to_position u g.0 g.1) (group_from [] txns))

  abbrev pub value_of : ℤ → Option W → W
  value_of q none = fl.zero_float
  value_of q (some avg) = if ltb_ℤ (pos 0) q then fl.of_int q ⊗ avg else fl.zero_float

  unfoldable pub get_position_value : Engine W → Database W → ℕ → ℕ → Option ℕ → W
  unfolding load_transactions
  get_position_value eng db u b a =
      let (q, avg) = net_position (load_transactions eng db u b a) in value_of q avg
