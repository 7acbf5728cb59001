-- ===== src/Portfolio/Netting/Reset.antt =====
-- A full close starts the average afresh.
use stocktaking.Prelude.{All, if◌then◌else◌, ℕ, ◌≡◌, refl, ap, List, [], ◌∷◌, ◌++◌, arith}
use mathlib.Core.List.{foldl}
use stocktaking.Portfolio.Netting.Quantity.{units_after, open-step}
use stocktaking.Prelude.Int.{ℤ, pos, ltb_ℤ, leb_ℤ, ◌+ℤ◌, ◌-ℤ◌}
use stocktaking.Floats.{FloatOps}
use stocktaking.Portfolio.Transaction.{sell, Transaction, IsPositive}
use stocktaking.Portfolio.Netting.{
  NettingState, start, exit_pnl, close_out, bought, exited, step, walk, netting, net_position,
  realized_pnl,
}

module _ {W : Type 0} ⦃fl : FloatOps W⦄ where
  pub walk-append :
      (s : NettingState W) (h ts : List (Transaction W)) → walk s (h ++ ts) ≡ walk (walk s h) ts
  unfolding walk
  walk-append s [] ts = refl
  walk-append s (t ∷ h) ts = walk-append (step s t) h ts

  -- Two states with the same open position price the same exits alike.
  pub record SamePosition (s s' : NettingState W) : Type 0 where
    pub units : s.open_quantity ≡ s'.open_quantity
    pub basis : s.cost_basis ≡ s'.cost_basis

  step-SamePosition :
      (s s' : NettingState W) (t : Transaction W)
      → SamePosition s s'
      → SamePosition (step s t) (step s' t)
  unfolding step bought exited close_out
  step-SamePosition s s' t h = ground arith

  walk-SamePosition :
      (s s' : NettingState W) (ts : List (Transaction W))
      → SamePosition s s'
      → SamePosition (walk s ts) (walk s' ts)
  unfolding walk
  walk-SamePosition s s' [] h = h
  walk-SamePosition s s' (t ∷ ts) h =
      walk-SamePosition (step s t) (step s' t) ts (step-SamePosition s s' t h)

  abbrev Settled : NettingState W → Type 0
  Settled s = s.open_quantity ≡ pos 0 → s.cost_basis ≡ fl.zero_float

  step-Settled :
      (s : NettingState W) (t : Transaction W) (n : ℕ)
      → s.open_quantity ≡ pos n
      → IsPositive t
      → Settled s
      → Settled (step s t)
  unfolding step bought exited close_out ◌+ℤ◌ ◌-ℤ◌
  step-Settled s t n o q h = ground arith

  walk-Settled :
      (s : NettingState W) (ts : List (Transaction W)) (n : ℕ)
      → s.open_quantity ≡ pos n
      → All IsPositive ts
      → Settled s
      → Settled (walk s ts)
  unfolding walk
  walk-Settled s [] n o q h = h
  walk-Settled s (t ∷ ts) n o q h =
      walk-Settled (step s t) ts (units_after n t) (open-step s t n o) q.1
        (step-Settled s t n o q.0 h)

  closed_start :
      (h : List (Transaction W))
      → All IsPositive h
      → (walk start h).open_quantity ≡ pos 0
      → SamePosition (walk start h) start
  unfolding start
  closed_start h q e = record { units = e; basis = walk-Settled start h 0 refl q (λ _. refl) e }

  -- Once a history has closed the position, what follows is valued as if it stood alone: the
  -- average buy price, the open quantity and the cost basis forget what came before.
  pub netting-append_closed :
      (h ts : List (Transaction W))
      → All IsPositive h
      → (netting h).open_quantity ≡ pos 0
      → ((net_position (h ++ ts)).1 ≡ (net_position ts).1)
        × ((netting (h ++ ts)).open_quantity ≡ (netting ts).open_quantity)
        × ((netting (h ++ ts)).cost_basis ≡ (netting ts).cost_basis)
  unfolding netting net_position start
  netting-append_closed h ts q e = rw (walk-append start h ts) (
      let same = walk-SamePosition (walk start h) start ts (closed_start h q e) in
      (ground arith, same.units, same.basis))

  -- The units that an exit closes: none if nothing is open.
  abbrev pub closed_units : NettingState W → Transaction W → ℤ
  closed_units s t =
      if ltb_ℤ s.open_quantity (pos t.quantity) then s.open_quantity else pos t.quantity

  -- The realized results of the `SELL` rows, in order, each at the average cost of its moment.
  pub sell_pnls : NettingState W → List (Transaction W) → List W
  sell_pnls s [] = []
  sell_pnls s (t ∷ ts) =
      let rest = sell_pnls (step s t) ts in
      elim t.kind [
        | sell ↦
            if leb_ℤ s.open_quantity (pos 0) then rest else exit_pnl s t (closed_units s t) ∷ rest
        | _ ↦ rest
      ]

  sells-walk :
      (s : NettingState W) (ts : List (Transaction W))
      → (walk s ts).sells ≡ foldl fl.add s.sells (sell_pnls s ts)
  unfolding walk sell_pnls step bought exited close_out
  sells-walk s [] = refl
  sells-walk s (t ∷ ts) = ground (arith, sells-walk (step s t) ts)

  sell_pnls-SamePosition :
      (s s' : NettingState W) (ts : List (Transaction W))
      → SamePosition s s'
      → sell_pnls s ts ≡ sell_pnls s' ts
  unfolding sell_pnls exit_pnl
  sell_pnls-SamePosition s s' [] h = refl
  sell_pnls-SamePosition s s' (t ∷ ts) h =
      ground (arith, sell_pnls-SamePosition (step s t) (step s' t) ts (step-SamePosition s s' t h))

  -- Once a history has closed the position, every later sale is priced against the later purchases
  -- alone: the sales of `ts` add to the result of `h` what they would add to nothing.
  pub sells-append_closed :
      (h ts : List (Transaction W))
      → All IsPositive h
      → (netting h).open_quantity ≡ pos 0
      → (realized_pnl (h ++ ts)).0 ≡ foldl fl.add (realized_pnl h).0 (sell_pnls start ts)
  unfolding netting realized_pnl
  sells-append_closed h ts q e =
      rw (walk-append start h ts, sells-walk (walk start h) ts)
        (ap (foldl fl.add (walk start h).sells)
          (sell_pnls-SamePosition (walk start h) start ts (closed_start h q e)))
