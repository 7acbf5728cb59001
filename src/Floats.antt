-- ===== src/Floats.antt =====
-- Python's `float`, which is not part of the repository: the operations that the code makes.
use stocktaking.Prelude.{ℕ, Bool, if◌then◌else◌}
use stocktaking.Prelude.Int.{ℤ}

pub record FloatOps (W : Type 0) : Type 0 where
  -- `0.0`
  pub zero_float : W
  -- an `int` operand beside a `float` one
  pub of_int : ℤ → W
  -- `a / b` on two `int`s
  pub ratio : ℤ → ℤ → W
  pub add : W → W → W
  pub sub : W → W → W
  pub mul : W → W → W
  pub div : W → W → W
  -- `a ** b`
  pub pow : W → W → W
  pub abs : W → W
  -- `-a`
  pub neg : W → W
  -- `a < b`, `a <= b`, `a == b`, which are false of NaN
  pub lt : W → W → Bool
  pub le : W → W → Bool
  pub eq : W → W → Bool
  -- `math.isfinite`
  pub is_finite : W → Bool
  -- the literal for m / 10 ** k
  pub literal : ℤ → ℕ → W

module _ {W : Type 0} ⦃fl : FloatOps W⦄ where
  infixl 65 ◌⊕◌ ◌⊖◌
  infixl 70 ◌⊗◌ ◌⊘◌
  abbrev pub ◌⊕◌ : W → W → W
  a ⊕ b = fl.add a b

  abbrev pub ◌⊖◌ : W → W → W
  a ⊖ b = fl.sub a b

  abbrev pub ◌⊗◌ : W → W → W
  a ⊗ b = fl.mul a b

  abbrev pub ◌⊘◌ : W → W → W
  a ⊘ b = fl.div a b

  -- Python's `max(a, b)` and `min(a, b)` keep the first of two that are not ordered.
  abbrev pub larger : W → W → W
  larger a b = if fl.lt a b then b else a

  abbrev pub smaller : W → W → W
  smaller a b = if fl.lt b a then b else a
