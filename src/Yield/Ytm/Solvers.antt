-- ===== src/Yield/Ytm/Solvers.antt =====
-- What the two solvers return.
use mathlib.Core.Path.{subst}
use mathlib.Core.Option.{some-injective}
use stocktaking.Prelude.{
  ℕ, zero, suc, ◌+◌, ◌≡◌, refl, ◌⊎◌, inl, inr, true, false, ◌||◌, some, List, arith, Bool-cases,
  Option-cases, ◌∙◌,
}
use stocktaking.Prelude.Int.{pos}
use stocktaking.Floats.{FloatOps, ◌⊖◌, ◌⊗◌, ◌⊘◌}
use stocktaking.Yield.Ytm.{
  tolerance, bisection_low, bisection_high, one, max_iterations, newton_loop,
  present_value_derivative, newton_raphson, middle, bisect_loop, bisect, solve,
}

module _ {W : Type 0} ⦃fl : FloatOps W⦄ where
  -- Neither below the bracket nor beyond one in size.
  abbrev pub InDomain : W → Type 0
  InDomain r = (fl.lt r bisection_low ≡ false) × (fl.lt one (fl.abs r) ≡ false)

  newton_loop-some :
      (rounds : ℕ) (f f' : W → W) (guess r : W)
      → InDomain guess
      → newton_loop rounds f f' guess ≡ some r
      → (fl.lt (fl.abs (f r)) tolerance ≡ true) × InDomain r
  unfolding newton_loop
  newton_loop-some zero f f' guess r d e = cc
  newton_loop-some (suc rounds) f f' guess r d e =
      ground (arith, newton_loop-some rounds f f' (guess ⊖ f guess ⊘ f' guess) r)

  -- From a guess in the domain, a rate that Newton's method returns prices the flows within the
  -- tolerance and lies in the domain.
  pub newton_raphson-some :
      (f : W → W) (guess r : W) (flows : List (ℕ × W)) (ppy : W)
      → InDomain guess
      → newton_raphson f guess flows ppy ≡ some r
      → (fl.lt (fl.abs (f r)) tolerance ≡ true) × InDomain r
  unfolding newton_raphson
  newton_raphson-some f guess r flows ppy d e =
      newton_loop-some max_iterations f (λ x. present_value_derivative x flows ppy) guess r d e

  -- The brackets that `n` halvings lead to: the half is chosen by the sign of the function at the low
  -- end and in the middle.
  pub data Halvings (f : W → W) : ℕ → W → W → Type 0 where
    whole : Halvings f 0 bisection_low bisection_high
    left :
        {n : ℕ} {low high : W}
        → Halvings f n low high
        → fl.lt (f low ⊗ f (middle low high)) fl.zero_float ≡ true
        → Halvings f (suc n) low (middle low high)
    right :
        {n : ℕ} {low high : W}
        → Halvings f n low high
        → fl.lt (f low ⊗ f (middle low high)) fl.zero_float ≡ false
        → Halvings f (suc n) (middle low high) high

  -- A rate is the middle of such a bracket, and the search had a reason to end there.
  pub record BisectionResult (f : W → W) (r : W) : Type 0 where
    pub count : ℕ
    pub low : W
    pub high : W
    pub halved : Halvings f count low high
    pub is_middle : r ≡ middle low high
    pub ended :
        (fl.lt (fl.abs (f r)) tolerance ≡ true)
        ⊎ (fl.lt (high ⊖ low) (fl.literal (pos 1) 12) ≡ true)
        ⊎ (count ≡ 200)

  bisect_loop-result :
      (rounds n : ℕ) (f : W → W) (low high : W)
      → n + rounds ≡ 200
      → Halvings f n low high
      → BisectionResult f (bisect_loop rounds f low high (f low) (f high))
  unfolding bisect_loop
  bisect_loop-result zero n f low high e h = record {
    count = n;
    low = low;
    high = high;
    halved = h;
    is_middle = refl;
    ended = inr (inr (omega arith));
  }
  bisect_loop-result (suc rounds) n f low high e h =
      elim (Bool-cases (
        fl.lt (fl.abs (f (middle low high))) tolerance
        || fl.lt (high ⊖ low) (fl.literal (pos 1) 12))) [
          | inl done ↦ rw done (record {
            count = n;
            low = low;
            high = high;
            halved = h;
            is_middle = refl;
            ended = ground (arith, done);
          })
          | inr more ↦ elim (Bool-cases (fl.lt (f low ⊗ f (middle low high)) fl.zero_float)) [
            | inl l ↦
                rw (more, l)
                  (bisect_loop-result rounds (suc n) f low (middle low high) (omega arith)
                    (left h l))
            | inr r ↦
                rw (more, r)
                  (bisect_loop-result rounds (suc n) f (middle low high) high (omega arith)
                    (right h r))
          ]
        ]

  -- A rate that bisection returns is the middle of a bracket reached by halving the whole one, each
  -- time towards the change of sign, and there the function is within the tolerance, or the bracket
  -- is narrower than 1e-12, or it has been halved 200 times.
  pub bisect-result : (f : W → W) (r : W) → bisect f ≡ some r → BisectionResult f r
  unfolding bisect
  bisect-result f r e =
      elim (Bool-cases (fl.lt fl.zero_float (f bisection_low ⊗ f bisection_high))) [
        | inl same ↦ cc (rw same at e)
        | inr change ↦
            subst (BisectionResult f) (some-injective _ _ (rw change at e))
              (bisect_loop-result 200 0 f bisection_low bisection_high refl whole)
      ]

  newton_loop-root :
      (rounds : ℕ) (f f' : W → W) (guess r : W)
      → newton_loop rounds f f' guess ≡ some r
      → fl.lt (fl.abs (f r)) tolerance ≡ true
  unfolding newton_loop
  newton_loop-root zero f f' guess r e = cc
  newton_loop-root (suc rounds) f f' guess r e =
      ground (arith, newton_loop-root rounds f f' (guess ⊖ f guess ⊘ f' guess) r)

  newton_raphson-root :
      (f : W → W) (guess r : W) (flows : List (ℕ × W)) (ppy : W)
      → newton_raphson f guess flows ppy ≡ some r
      → fl.lt (fl.abs (f r)) tolerance ≡ true
  unfolding newton_raphson
  newton_raphson-root f guess r flows ppy e =
      newton_loop-root max_iterations f (λ x. present_value_derivative x flows ppy) guess r e

  -- What either solver guarantees of the rate that it returns.
  abbrev pub IsSolution : (W → W) → W → Type 0
  IsSolution f r = (fl.lt (fl.abs (f r)) tolerance ≡ true) ⊎ BisectionResult f r

  pub solve-IsSolution :
      (f : W → W) (guess r : W) (flows : List (ℕ × W)) (ppy : W)
      → solve f guess flows ppy ≡ some r
      → IsSolution f r
  unfolding solve
  solve-IsSolution f guess r flows ppy e = elim (Option-cases (newton_raphson f guess flows ppy)) [
    | inl failed ↦ inr (bisect-result f r (rw (failed, solve) at e))
    | inr (x, found) ↦
        inl (newton_raphson-root f guess r flows ppy (found ∙ (rw (found, solve) at e)))
  ]
