-- ===== src/Yield/Schedule/Ladder.antt =====
-- The dates that lie a whole number of periods before a given one.
use stocktaking.Prelude.{ℕ, zero, suc, ◌+◌, ◌-◌, ◌*◌, ◌≤◌, ◌<◌, ◌≡◌, ◌⊎◌, List, [], ◌∷◌, arith}

-- `m - k * p`, …, `m - p`, `m`
abbrev pub ladder : ℕ → ℕ → ℕ → List ℕ
ladder m p zero = m ∷ []
ladder m p (suc k) = (m - suc k * p) ∷ ladder m p k

-- Strictly increasing, all above a bound.
abbrev pub IsRising : ℕ → List ℕ → Type 0
IsRising b [] = Unit
IsRising b (d ∷ ds) = (b < d) × IsRising d ds

pub ladder-IsRising : (m p k b : ℕ) → 0 < p → k * p ≤ m → b < m - k * p → IsRising b (ladder m p k)
ladder-IsRising m p zero b h q r = (omega arith, tt)
ladder-IsRising m p (suc k) b h q r =
    (r, ladder-IsRising m p k (m - suc k * p) h (omega arith) (omega arith))

-- How a loop that steps back from `m` by `p` has stopped: `k` steps lie above the bound `b`, and the
-- next one does not, or it lies before `floor`.
pub record StopsAt (m p b floor : ℕ) (dates : List ℕ) : Type 0 where
  pub steps : ℕ
  pub next : ℕ
  pub dates_lem : dates ≡ ladder m p steps
  pub next_lem : next + suc steps * p ≡ m
  pub above : b < next + p
  pub stopped : (next ≤ b) ⊎ (next < floor)
