-- ===== src/Portfolio/Position.antt =====
-- `PortfolioService._quantity_of` of src/bond_accounting/portfolio/service.py.
use stocktaking.Prelude.{List, [], ◌∷◌}
use stocktaking.Prelude.Int.{ℤ, pos, ◌+ℤ◌, ◌-ℤ◌}
use stocktaking.Portfolio.Transaction.{buy, Transaction}

module _ {W : Type 0} where
  -- One round of the loop.
  unfoldable pub count_row : ℤ → Transaction W → ℤ
  count_row q t = elim t.kind [ buy ↦ q +ℤ pos t.quantity | _ ↦ q -ℤ pos t.quantity ]

  unfoldable pub quantity_from : ℤ → List (Transaction W) → ℤ
  quantity_from q [] = q
  quantity_from q (t ∷ ts) = quantity_from (count_row q t) ts

  unfoldable pub quantity_of : List (Transaction W) → ℤ
  unfolding quantity_from count_row
  quantity_of ts = quantity_from (pos 0) ts
