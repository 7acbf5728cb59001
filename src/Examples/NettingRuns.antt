-- ===== src/Examples/NettingRuns.antt =====
use stocktaking.Prelude.{◌≡◌, refl, ◌↔◌, List, [], ◌∷◌, ◌++◌, arith}
use mathlib.Core.List.{foldl}
use stocktaking.Prelude.Int.{pos, ◌≤ℤ◌, ◌+ℤ◌, ◌-ℤ◌}
use stocktaking.Portfolio.Transaction.{buy, sell, mature}
use stocktaking.Portfolio.Position.{quantity_of}
use stocktaking.Portfolio.Netting.{start, step, netting, net_position, realized_pnl}
use stocktaking.Portfolio.Netting.Quantity.{
  NeverOversold, quantity-netting, quantity-le-open, open-eq-quantity_iff,
}
use stocktaking.Portfolio.Netting.Reset.{sell_pnls, netting-append_closed, sells-append_closed}
use stocktaking.Examples.Whole.{whole, Row, row}

abbrev round_trip : List Row
round_trip = row 1 buy 10 100 1 ∷ row 2 sell 10 120 2 ∷ []

abbrev again : List Row
again = row 3 buy 5 200 3 ∷ row 4 mature 5 210 4 ∷ row 5 buy 2 7 5 ∷ []

-- The example of the source: the second purchase forms a fresh average.
realized_run : (realized_pnl (round_trip ++ again)) ≡ (pos 200, pos 50, pos 2)
unfolding realized_pnl netting step ◌+ℤ◌ ◌-ℤ◌
realized_run = refl

quantity-netting_example : (netting again).quantity ≡ quantity_of again
quantity-netting_example = quantity-netting again

quantity-le-open_example : (netting again).quantity ≤ℤ (netting again).open_quantity
quantity-le-open_example = quantity-le-open again

open-eq-quantity_iff_example :
    ((netting round_trip).quantity ≡ (netting round_trip).open_quantity)
    ↔ NeverOversold 0 round_trip
open-eq-quantity_iff_example = open-eq-quantity_iff round_trip

netting-append_closed_example :
    ((net_position (round_trip ++ again)).1 ≡ (net_position again).1)
    × ((netting (round_trip ++ again)).open_quantity ≡ (netting again).open_quantity)
    × ((netting (round_trip ++ again)).cost_basis ≡ (netting again).cost_basis)
unfolding netting step ◌+ℤ◌ ◌-ℤ◌
netting-append_closed_example = netting-append_closed round_trip again (omega arith) refl

sells-append_closed_example :
    (realized_pnl (round_trip ++ again)).0
    ≡ foldl ◌+ℤ◌ (realized_pnl round_trip).0 (sell_pnls start again)
unfolding netting step ◌+ℤ◌ ◌-ℤ◌
sells-append_closed_example = sells-append_closed round_trip again (omega arith) refl
