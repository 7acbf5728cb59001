-- ===== src/Prelude/Outcome.antt =====
-- Code that may raise: the value that a call returns, or the exception that it raises.
use mathlib.Core.Path.{◌≡◌, refl}
use mathlib.Core.Logic.{◌⊎◌, inl, inr}
use mathlib.Core.Bool.{Bool}
use mathlib.Core.Option.{Option, none, some}
use stocktaking.Prelude.Tests.{if◌then◌else◌}

pub data Outcome (E A : Type 0) : Type 0 where
  err : E → Outcome E A
  ok : A → Outcome E A

module _ {E : Type 0} where
  -- `require o e`: the value, or `raise e`
  abbrev pub require : {A : Type 0} → Option A → E → Outcome E A
  require none e = err e
  require (some a) _ = ok a

  abbrev pub raise_if : Bool → E → Outcome E (Unit {0})
  raise_if c e = if c then err e else ok tt

  -- An exception ends the block.
  infixl 5 ◌>>=◌
  abbrev pub ◌>>=◌ : {A B : Type 0} → Outcome E A → (A → Outcome E B) → Outcome E B
  outcome >>= next = elim outcome [ ok value ↦ next value | err e ↦ err e ]

  infixl 5 ◌>>◌
  abbrev pub ◌>>◌ : {B : Type 0} → Outcome E (Unit {0}) → Outcome E B → Outcome E B
  check >> rest = elim check [ ok _ ↦ rest | err e ↦ err e ]

-- What a bind that returned a value has computed.
pub >>=-eq-ok :
    {E A B : Type 0} (m : Outcome E A) (f : A → Outcome E B) {b : B}
    → (m >>= f) ≡ ok b
    → (a : A) × (m ≡ ok a) × (f a ≡ ok b)
>>=-eq-ok (ok a) f e = (a, refl, e)
>>=-eq-ok (err c) f e = cc

pub >>-eq-ok :
    {E B : Type 0} (m : Outcome E (Unit {0})) (k : Outcome E B) {b : B}
    → (m >> k) ≡ ok b
    → (m ≡ ok tt) × (k ≡ ok b)
>>-eq-ok (ok tt) k e = (refl, e)
>>-eq-ok (err c) k e = cc

pub ok-injective : {E A : Type 0} {a b : A} → ◌≡◌ {A = Outcome E A} (ok a) (ok b) → a ≡ b
ok-injective e = cc

pub Outcome-cases :
    {E A : Type 0} (m : Outcome E A) → ((e : E) × (m ≡ err e)) ⊎ ((a : A) × (m ≡ ok a))
Outcome-cases (err e) = inl (e, refl)
Outcome-cases (ok a) = inr (a, refl)
