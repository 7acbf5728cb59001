-- ===== src/Portfolio/Netting.antt =====
-- src/bond_accounting/portfolio/netting.py: the average-cost walk over one bond's history.
pub mod Quantity
pub mod Reset
use stocktaking.Prelude.{ℕ, ◌+◌, ◌-◌, Option, none, some, List, [], ◌∷◌, ltb, ◌==◌, if◌then◌else◌}
use stocktaking.Prelude.Int.{ℤ, pos, ◌+ℤ◌, ◌-ℤ◌, ltb_ℤ, leb_ℤ, nonzero}
use stocktaking.Floats.{FloatOps, ◌⊕◌, ◌⊖◌, ◌⊗◌, ◌⊘◌}
use stocktaking.Portfolio.Transaction.{buy, sell, Transaction}

pub record NettingState (W : Type 0) : Type 0 where
  pub quantity : ℤ
  pub open_quantity : ℤ
  pub cost_basis : W
  pub sells : W
  pub maturities : W
  pub commissions : W

module _ {W : Type 0} ⦃fl : FloatOps W⦄ where
  unfoldable pub start : NettingState W
  start = record {
    quantity = pos 0;
    open_quantity = pos 0;
    cost_basis = fl.zero_float;
    sells = fl.zero_float;
    maturities = fl.zero_float;
    commissions = fl.zero_float;
  }

  -- `(txn.price - cost_basis / open_quantity) * closed`
  unfoldable pub exit_pnl : NettingState W → Transaction W → ℤ → W
  exit_pnl s t closed = (t.price ⊖ s.cost_basis ⊘ fl.of_int s.open_quantity) ⊗ fl.of_int closed

  -- The part of the loop body below the clamp, for an exit that closes `closed` open units.
  unfoldable pub close_out : NettingState W → Transaction W → ℤ → NettingState W
  unfolding exit_pnl
  close_out s t closed =
      let pnl = exit_pnl s t closed in
      let left = s.open_quantity -ℤ closed in
      record s {
        sells = elim t.kind [ sell ↦ s.sells ⊕ pnl | _ ↦ s.sells ];
        maturities = elim t.kind [ sell ↦ s.maturities | _ ↦ s.maturities ⊕ pnl ];
        cost_basis =
            if nonzero left
            then s.cost_basis ⊖ s.cost_basis ⊗ fl.ratio closed s.open_quantity
            else fl.zero_float;
        open_quantity = left;
      }

  unfoldable pub bought : NettingState W → Transaction W → NettingState W
  bought s t = record s {
    quantity = s.quantity +ℤ pos t.quantity;
    open_quantity = s.open_quantity +ℤ pos t.quantity;
    cost_basis = s.cost_basis ⊕ t.price ⊗ fl.of_int (pos t.quantity);
  }

  -- `SELL` and `MATURE`
  unfoldable pub exited : NettingState W → Transaction W → NettingState W
  unfolding close_out
  exited s t =
      let s' : NettingState W = record s {
        quantity = s.quantity -ℤ pos t.quantity;
        commissions = s.commissions ⊕ t.commission;
      } in
      if leb_ℤ s.open_quantity (pos 0)
      then s'
      else close_out s' t
          (if ltb_ℤ s.open_quantity (pos t.quantity) then s.open_quantity else pos t.quantity)

  unfoldable pub step : NettingState W → Transaction W → NettingState W
  unfolding bought exited
  step s t = elim t.kind [ buy ↦ bought s t | _ ↦ exited s t ]

  unfoldable pub walk : NettingState W → List (Transaction W) → NettingState W
  walk s [] = s
  walk s (t ∷ ts) = walk (step s t) ts

  -- `_netting`
  unfoldable pub netting : List (Transaction W) → NettingState W
  unfolding start walk
  netting = walk start

  unfoldable pub net_position : List (Transaction W) → ℤ × Option W
  net_position ts =
      let s = netting ts in
      (
        s.quantity,
        if ltb_ℤ (pos 0) s.open_quantity
            then some (s.cost_basis ⊘ fl.of_int s.open_quantity)
            else none,
      )

  unfoldable pub realized_pnl : List (Transaction W) → W × W × W
  realized_pnl ts = let s = netting ts in (s.sells, s.maturities, s.commissions)
