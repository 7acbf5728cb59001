-- ===== src/Registry/Calls/Frame.antt =====
-- What a call leaves as it was: the transactions, and the rows of the users who do not call.
mod Filter
pub mod Methods
pub mod Holdings
use stocktaking.Prelude.{ℕ, ◌≡◌, refl, Bool, true, false, Option, none, some, List, keep_if, ◌==◌}
use stocktaking.Registry.Rows.{BrokerAccount, Bond, AccountOperation, Tables}

module _ {W : Type 0} where
  abbrev pub accounts_of : ℕ → Tables W → List BrokerAccount
  accounts_of v t = keep_if (λ (a : BrokerAccount). a.user_id == v) t.accounts

  abbrev pub bonds_of : ℕ → Tables W → List (Bond W)
  bonds_of v t = keep_if (λ (b : Bond W). b.owner_id == v) t.bonds

  abbrev pub operations_of : ℕ → Tables W → List (AccountOperation W)
  operations_of v t = keep_if (λ (o : AccountOperation W). o.user_id == v) t.operations

  -- What user v has is the same before and after, and so are the users and the transactions.
  pub record SameFor (v : ℕ) (before after : Tables W) : Type 0 where
    pub users : after.users ≡ before.users
    pub transactions : after.transactions ≡ before.transactions
    pub accounts : accounts_of v after ≡ accounts_of v before
    pub bonds : bonds_of v after ≡ bonds_of v before
    pub operations : operations_of v after ≡ operations_of v before

-- v is not the user who calls
abbrev pub IsOther : ℕ → Option ℕ → Type 0
IsOther v none = Unit
IsOther v (some u) = (u == v) ≡ false
