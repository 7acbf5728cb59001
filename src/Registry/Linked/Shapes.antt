-- ===== src/Registry/Linked/Shapes.antt =====
-- How a change of the accounts or bonds carries over to the rows that refer to them.
use stocktaking.Prelude.{
  ℕ, ◌≡◌, refl, ◌∙◌, Bool, true, false, not, ◌&&◌, any, keep_if, ◌==◌, List, [], ◌∷◌, ◌++◌,
  All-kept, arith,
}
use mathlib.Core.Path.{subst}
use stocktaking.Prelude.Outcome.{ok, raise_if, ok-injective}
use stocktaking.Registry.Action.{Flushed, Result}
use stocktaking.Portfolio.Transaction.{Transaction}
use stocktaking.Registry.Table.{has, amend, remove}
use stocktaking.Registry.Table.Laws.{
  any-append_left, any-amend, any-remove, All-any, All-pair, All-keep_if,
}
use stocktaking.Registry.Rows.{Broker, BrokerAccount, Bond, BondCoupon, AccountOperation}
use stocktaking.Registry.Operations.{owns}
use stocktaking.Registry.Linked.{IsLinked, AccountsOk, TransactionsOk, OperationsOk, CouponsOk}

-- Who owns an account survives every change that keeps the accounts' keys and users.
abbrev pub KeepsOwners : List BrokerAccount → List BrokerAccount → Type 0
KeepsOwners before after = (u i : ℕ) → owns u i before ≡ true → owns u i after ≡ true

pub owns-snoc : (xs : List BrokerAccount) (a : BrokerAccount) → KeepsOwners xs (xs ++ a ∷ [])
owns-snoc xs a u i h = any-append_left (λ x. x.id == i && x.user_id == u) xs (a ∷ []) h

pub owns-amend :
    (j : ℕ) (f : BrokerAccount → BrokerAccount) (xs : List BrokerAccount)
    → ((x : BrokerAccount) → ((f x).id ≡ x.id) × ((f x).user_id ≡ x.user_id))
    → KeepsOwners xs (amend (λ a. a.id) j f xs)
owns-amend j f xs h u i e =
    any-amend (λ a. a.id) (λ x. x.id == i && x.user_id == u) j f xs
      (λ x. rw ((h x).0, (h x).1) refl)
    ∙ e

-- the owner of an account other than the one that is removed
owns-remove :
    (u i j : ℕ) (xs : List BrokerAccount)
    → (i == j) ≡ false
    → owns u i (remove (λ a. a.id) j xs) ≡ owns u i xs
owns-remove u i j xs e =
    any-remove (λ a. a.id) (λ x. x.id == i && x.user_id == u) j xs (λ x q. ground (arith, e, q))

module _ {W : Type 0} where
  pub TransactionsOk-owners :
      (bs : List (Bond W)) (xs ys : List BrokerAccount) (ts : List (Transaction W))
      → KeepsOwners xs ys
      → TransactionsOk bs xs ts
      → TransactionsOk bs ys ts
  TransactionsOk-owners bs xs ys ts k h =
      All-kept _ _ (λ (x : Transaction W) p. (p.0, k x.user_id x.broker_account_id p.1)) ts h

  pub OperationsOk-owners :
      (xs ys : List BrokerAccount) (os : List (AccountOperation W))
      → KeepsOwners xs ys
      → OperationsOk xs os
      → OperationsOk ys os
  OperationsOk-owners xs ys os k h =
      (h.0, All-kept _ _ (λ (o : AccountOperation W) p. k o.user_id o.broker_account_id p) os h.1)

  -- Removing an account that no transaction is on.
  pub TransactionsOk-remove :
      (bs : List (Bond W)) (j : ℕ) (xs : List BrokerAccount) (ts : List (Transaction W))
      → any (λ (x : Transaction W). x.broker_account_id == j) ts ≡ false
      → TransactionsOk bs xs ts
      → TransactionsOk bs (remove (λ a. a.id) j xs) ts
  TransactionsOk-remove bs j xs ts none_there h =
      All-kept _ _
        (λ (x : Transaction W) p.
          (p.0.0, owns-remove x.user_id x.broker_account_id j xs p.1 ∙ p.0.1))
        ts (All-pair _ _ ts h (All-any (λ x. x.broker_account_id == j) ts none_there))

  -- Removing an account that no operation is on.
  pub OperationsOk-remove :
      (j : ℕ) (xs : List BrokerAccount) (os : List (AccountOperation W))
      → any (λ (o : AccountOperation W). o.broker_account_id == j) os ≡ false
      → OperationsOk xs os
      → OperationsOk (remove (λ a. a.id) j xs) os
  OperationsOk-remove j xs os none_there h = (
    h.0,
    All-kept _ _
        (λ (o : AccountOperation W) p. owns-remove o.user_id o.broker_account_id j xs p.1 ∙ p.0) os
        (All-pair _ _ os h.1 (All-any (λ o. o.broker_account_id == j) os none_there)),
  )

  -- Bonds that keep their keys.
  abbrev pub KeepsBonds : List (Bond W) → List (Bond W) → Type 0
  KeepsBonds before after =
      (i : ℕ) → has (λ b. b.id) i before ≡ true → has (λ b. b.id) i after ≡ true

  pub TransactionsOk-bonds :
      (bs cs : List (Bond W)) (xs : List BrokerAccount) (ts : List (Transaction W))
      → KeepsBonds bs cs
      → TransactionsOk bs xs ts
      → TransactionsOk cs xs ts
  TransactionsOk-bonds bs cs xs ts k h =
      All-kept _ _ (λ (x : Transaction W) p. (k x.bond_id p.0, p.1)) ts h

  pub CouponsOk-bonds :
      (bs cs : List (Bond W)) (qs : List (BondCoupon W))
      → KeepsBonds bs cs
      → CouponsOk bs qs
      → CouponsOk cs qs
  CouponsOk-bonds bs cs qs k h = All-kept _ _ (λ (q : BondCoupon W) p. k q.bond_id p) qs h

  has-remove :
      (i j : ℕ) (bs : List (Bond W))
      → (i == j) ≡ false
      → has (λ b. b.id) i (remove (λ b. b.id) j bs) ≡ has (λ b. b.id) i bs
  has-remove i j bs e = any-remove (λ b. b.id) (λ b. b.id == i) j bs (λ b q. ground (arith, e, q))

  pub TransactionsOk-no_bond :
      (j : ℕ) (bs : List (Bond W)) (xs : List BrokerAccount) (ts : List (Transaction W))
      → any (λ (x : Transaction W). x.bond_id == j) ts ≡ false
      → TransactionsOk bs xs ts
      → TransactionsOk (remove (λ b. b.id) j bs) xs ts
  TransactionsOk-no_bond j bs xs ts none_there h =
      All-kept _ _ (λ (x : Transaction W) p. (has-remove x.bond_id j bs p.1 ∙ p.0.0, p.0.1)) ts
        (All-pair _ _ ts h (All-any (λ x. x.bond_id == j) ts none_there))

  CouponsOk-no_bond :
      (j : ℕ) (bs : List (Bond W)) (qs : List (BondCoupon W))
      → any (λ (q : BondCoupon W). q.bond_id == j) qs ≡ false
      → CouponsOk bs qs
      → CouponsOk (remove (λ b. b.id) j bs) qs
  CouponsOk-no_bond j bs qs none_there h =
      All-kept _ _ (λ (q : BondCoupon W) p. has-remove q.bond_id j bs p.1 ∙ p.0) qs
        (All-pair _ _ qs h (All-any (λ q. q.bond_id == j) qs none_there))

  others_only :
      (j : ℕ) (qs : List (BondCoupon W))
      → any
          (λ (q : BondCoupon W). q.bond_id == j)
          (keep_if (λ (q : BondCoupon W). not (q.bond_id == j)) qs)
        ≡ false
  others_only j [] = refl
  others_only j (q ∷ qs) = ground (arith, others_only j qs)

  -- The coupons of a removed bond go with it.
  pub CouponsOk-remove :
      (j : ℕ) (bs : List (Bond W)) (qs : List (BondCoupon W))
      → CouponsOk bs qs
      → CouponsOk
          (remove (λ b. b.id) j bs)
          (keep_if (λ (q : BondCoupon W). not (q.bond_id == j)) qs)
  CouponsOk-remove j bs qs h =
      CouponsOk-no_bond j bs (keep_if (λ (q : BondCoupon W). not (q.bond_id == j)) qs)
        (others_only j qs) (All-keep_if _ _ qs h)

  -- Brokers that keep their keys.
  pub AccountsOk-brokers :
      (us : List ℕ) (bs cs : List (Broker W)) (xs : List BrokerAccount)
      → ((i : ℕ) → has (λ b. b.id) i bs ≡ true → has (λ b. b.id) i cs ≡ true)
      → AccountsOk us bs xs
      → AccountsOk us cs xs
  AccountsOk-brokers us bs cs xs k h =
      (h.0, All-kept _ _ (λ (a : BrokerAccount) p. (p.0, k a.broker_id p.1)) xs h.1)

  -- Removing a broker that no account is with.
  pub AccountsOk-remove :
      (us : List ℕ) (j : ℕ) (bs : List (Broker W)) (xs : List BrokerAccount)
      → any (λ (a : BrokerAccount). a.broker_id == j) xs ≡ false
      → AccountsOk us bs xs
      → AccountsOk us (remove (λ b. b.id) j bs) xs
  AccountsOk-remove us j bs xs none_there h = (
    h.0,
    All-kept _ _
        (λ (a : BrokerAccount) p. (
          p.0.0,
          any-remove (λ b. b.id) (λ b. b.id == a.broker_id) j bs (λ b q. ground (arith, p.1, q))
              ∙ p.0.1,
        ))
        xs (All-pair _ _ xs h.1 (All-any (λ a. a.broker_id == j) xs none_there)),
  )

  pub IsLinked-ok :
      {A : Type 0} (x : Flushed W A) {f : Flushed W A}
      → ◌≡◌ {A = Result (Flushed W A)} (ok x) (ok f)
      → IsLinked x.tables
      → IsLinked f.tables
  IsLinked-ok x e h = subst (λ (f : Flushed W _). IsLinked f.tables) (ok-injective e) h

-- A guard that was passed.
pub raise_if-ok : {E : Type 0} (c : Bool) (e : E) → raise_if c e ≡ ok tt → c ≡ false
raise_if-ok true e h = cc
raise_if-ok false e h = refl

pub not-false : (c : Bool) → not c ≡ false → c ≡ true
not-false true h = refl
not-false false h = cc
