-- ===== src/Portfolio/Netting/Quantity.antt =====
-- The two counters of the walk: the held quantity, and the clamped open quantity.
use stocktaking.Prelude.{false, ℕ, ◌+◌, ◌-◌, ◌≤◌, ◌≡◌, refl, ◌↔◌, List, [], ◌∷◌, arith}
use stocktaking.Prelude.Int.{pos, ◌≤ℤ◌, +ℤ_parts, -ℤ_parts, eq_of_parts, ◌+ℤ◌, ◌-ℤ◌}
use stocktaking.Floats.{FloatOps}
use stocktaking.Portfolio.Transaction.{buy, is_buy, Transaction}
use stocktaking.Portfolio.Position.{count_row, quantity_from, quantity_of}
use stocktaking.Portfolio.Netting.{
  NettingState, start, close_out, bought, exited, step, walk, netting,
}

-- What is open after one row, if an exit stops at zero.
abbrev pub units_after : {W : Type 0} → ℕ → Transaction W → ℕ
units_after o t = elim t.kind [ buy ↦ o + t.quantity | _ ↦ o - t.quantity ]

-- The row closes no more than is open.
abbrev pub Covers : {W : Type 0} → ℕ → Transaction W → Type 0
Covers o t = is_buy t.kind ≡ false → t.quantity ≤ o

-- From `o` open units on, no exit of the history exceeds what is open when it comes.
abbrev pub NeverOversold : {W : Type 0} → ℕ → List (Transaction W) → Type 0
NeverOversold o [] = Unit
NeverOversold o (t ∷ ts) = Covers o t × NeverOversold (units_after o t) ts

module _ {W : Type 0} ⦃fl : FloatOps W⦄ where
  quantity-step :
      (s : NettingState W) (t : Transaction W) → (step s t).quantity ≡ count_row s.quantity t
  unfolding step bought exited close_out count_row
  quantity-step s t = ground arith

  quantity-walk :
      (s : NettingState W) (ts : List (Transaction W))
      → (walk s ts).quantity ≡ quantity_from s.quantity ts
  unfolding walk quantity_from
  quantity-walk s [] = refl
  quantity-walk s (t ∷ ts) = rw (quantity-walk (step s t) ts, quantity-step s t) refl

  -- The check of the service and the walk count the same quantity.
  pub quantity-netting : (ts : List (Transaction W)) → (netting ts).quantity ≡ quantity_of ts
  unfolding netting start quantity_of
  quantity-netting ts = quantity-walk start ts

  -- The open quantity never falls below zero, and an exit stops at zero.
  pub open-step :
      (s : NettingState W) (t : Transaction W) (n : ℕ)
      → s.open_quantity ≡ pos n
      → (step s t).open_quantity ≡ pos (units_after n t)
  unfolding step bought exited close_out ◌+ℤ◌ ◌-ℤ◌
  open-step s t n o = ground arith

  -- How the two counters stand to each other.
  abbrev Above : NettingState W → Type 0
  Above s = s.quantity ≤ℤ s.open_quantity

  step-Above :
      (s : NettingState W) (t : Transaction W) (n : ℕ)
      → s.open_quantity ≡ pos n
      → Above s
      → Above (step s t)
  unfolding step bought exited close_out
  step-Above s t n o h = ground (
    arith,
    +ℤ_parts s.quantity (pos t.quantity),
    -ℤ_parts s.quantity (pos t.quantity),
    +ℤ_parts s.open_quantity (pos t.quantity),
    -ℤ_parts s.open_quantity (pos t.quantity),
    -ℤ_parts s.open_quantity s.open_quantity,
  )

  walk-Above :
      (s : NettingState W) (ts : List (Transaction W)) (n : ℕ)
      → s.open_quantity ≡ pos n
      → Above s
      → Above (walk s ts)
  unfolding walk
  walk-Above s [] n o h = h
  walk-Above s (t ∷ ts) n o h =
      walk-Above (step s t) ts (units_after n t) (open-step s t n o) (step-Above s t n o h)

  -- The open quantity is never less than the held quantity, whatever the history.
  pub quantity-le-open :
      (ts : List (Transaction W)) → (netting ts).quantity ≤ℤ (netting ts).open_quantity
  unfolding netting start
  quantity-le-open ts = walk-Above start ts 0 refl (omega arith)

  abbrev Level : NettingState W → Type 0
  Level s = s.quantity ≡ s.open_quantity

  step-Level :
      (s : NettingState W) (t : Transaction W) (n : ℕ)
      → s.open_quantity ≡ pos n
      → Level s
      → Covers n t
      → Level (step s t)
  unfolding step bought exited close_out ◌+ℤ◌ ◌-ℤ◌
  step-Level s t n o h c = ground arith

  Level-step :
      (s : NettingState W) (t : Transaction W) (n : ℕ)
      → s.open_quantity ≡ pos n
      → Above s
      → Level (step s t)
      → Level s × Covers n t
  unfolding step bought exited close_out
  Level-step s t n o h e = ground (
    arith,
    +ℤ_parts s.quantity (pos t.quantity),
    -ℤ_parts s.quantity (pos t.quantity),
    +ℤ_parts s.open_quantity (pos t.quantity),
    -ℤ_parts s.open_quantity (pos t.quantity),
    -ℤ_parts s.open_quantity s.open_quantity,
    eq_of_parts s.quantity s.open_quantity,
  )

  walk-Level :
      (s : NettingState W) (ts : List (Transaction W)) (n : ℕ)
      → s.open_quantity ≡ pos n
      → Level s
      → NeverOversold n ts
      → Level (walk s ts)
  unfolding walk
  walk-Level s [] n o h c = h
  walk-Level s (t ∷ ts) n o h c =
      walk-Level (step s t) ts (units_after n t) (open-step s t n o) (step-Level s t n o h c.0) c.1

  Level-walk :
      (s : NettingState W) (ts : List (Transaction W)) (n : ℕ)
      → s.open_quantity ≡ pos n
      → Above s
      → Level (walk s ts)
      → Level s × NeverOversold n ts
  unfolding walk
  Level-walk s [] n o a h = (h, tt)
  Level-walk s (t ∷ ts) n o a h =
      let (level, later) =
        Level-walk (step s t) ts (units_after n t) (open-step s t n o) (step-Above s t n o a) h in
      let (before, now) = Level-step s t n o a level in (before, (now, later))

  -- The open quantity is the held quantity exactly when no exit of the history exceeds what is
  -- open when it comes.
  pub open-eq-quantity_iff :
      (ts : List (Transaction W))
      → ((netting ts).quantity ≡ (netting ts).open_quantity) ↔ NeverOversold 0 ts
  unfolding netting start
  open-eq-quantity_iff ts =
      (λ h. (Level-walk start ts 0 refl (omega arith) h).1, λ c. walk-Level start ts 0 refl refl c)
