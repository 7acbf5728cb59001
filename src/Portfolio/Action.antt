-- ===== src/Portfolio/Action.antt =====
-- A method of the service: it reads and writes the database, publishes events, and may raise.
use stocktaking.Prelude.{ℕ, Bool, List, [], ◌∷◌, ◌++◌, if◌then◌else◌}
use stocktaking.Portfolio.Result.{
  Error, integrity, invalid_transaction, not_running, Result, ok, err,
}
use stocktaking.Portfolio.Dto.{TransactionDto, PositionDto}
use stocktaking.Portfolio.Store.{Database}

pub data Event (W : Type 0) : Type 0 where
  transaction_created : TransactionDto W → Event W
  transaction_updated : TransactionDto W → Event W
  transaction_deleted : ℕ → Event W
  position_updated : PositionDto W → Event W

-- The database, whether the bus is running, and what it has accepted, the latest last.
pub record World (W : Type 0) : Type 0 where
  pub db : Database W
  pub running : Bool
  pub published : List (Event W)

abbrev pub Action : Type 0 → Type 0 → Type 0
Action W A = World W → Result A × World W

-- The body of a `session.begin()` block.
abbrev pub Body : Type 0 → Type 0 → Type 0
Body W A = Database W → Result (A × Database W)

infixl 5 ◌>>=◌ ◌>>◌
abbrev pub ◌>>=◌ : {W A B : Type 0} → Action W A → (A → Action W B) → Action W B
◌>>=◌ m f w = let (r, w') = m w in elim r [ ok a ↦ f a w' | err e ↦ (err e, w') ]

abbrev pub ◌>>◌ : {W B : Type 0} → Action W (Unit {0}) → Action W B → Action W B
m >> k = m >>= λ _. k

abbrev pub pure : {W A : Type 0} → A → Action W A
pure a w = (ok a, w)

-- `except IntegrityError as exc: raise InvalidTransactionError(...)`
abbrev pub translate : Error → Error
translate integrity = invalid_transaction
translate e = e

-- `async with session.begin()`: the block commits as a whole, or is rolled back when it raises.
unfoldable pub session : {W A : Type 0} → Body W A → Action W A
session body w = elim (body w.db) [
  | ok (a, db') ↦ (ok a, record w { db = db' })
  | err e ↦ (err (translate e), w)
]

-- `EventBus.publish` raises while the bus is stopped.
unfoldable pub publish : {W : Type 0} → Event W → Action W (Unit {0})
publish e w =
    if w.running
    then (ok tt, record w { published = w.published ++ e ∷ [] })
    else (err not_running, w)
