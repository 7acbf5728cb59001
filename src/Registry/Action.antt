-- ===== src/Registry/Action.antt =====
-- A method of these services: it changes the tables, publishes events and commits, in that order.
use Prim.Native.String.{String}
use stocktaking.Prelude.{ℕ, suc, Bool, List, [], ◌∷◌, ◌++◌, if◌then◌else◌}
use stocktaking.Prelude.Outcome.{Outcome, ok, err}
use stocktaking.Registry.Rows.{Broker, BrokerAccount, Bond, Tables}

-- The exceptions of the three modules, the `IntegrityError` of the database, the `RuntimeError` of the
-- bus, and what a commit raises that fails.
pub data Error : Type 0 where
  broker_not_found account_not_found broker_has_accounts broker_name_duplicate : Error
  account_has_transactions account_has_operations : Error
  isin_duplicate deletion_blocked not_owned operation_forbidden : Error
  integrity not_running commit_failed : Error

abbrev pub Result : Type 0 → Type 0
Result = Outcome Error

-- The account events carry the broker's name beside the row; a bond's update and deletion carry the
-- holder that the event is for.
pub data Event (W : Type 0) : Type 0 where
  broker_created broker_updated : Broker W → Event W
  broker_deleted : ℕ → Event W
  account_created account_updated : BrokerAccount → String → Event W
  account_deleted : ℕ → ℕ → Event W
  bond_created : Bond W → Event W
  bond_updated : Bond W → ℕ → Event W
  bond_deleted : ℕ → ℕ → Event W

-- `clock` counts the publishes and commits: at each of them the bus runs or not and the database takes
-- the commit or not, as `is_running` and `can_commit` have it.
pub record World (W : Type 0) : Type 0 where
  pub tables : Tables W
  pub published : List (Event W)
  pub clock : ℕ
  pub is_running : ℕ → Bool
  pub can_commit : ℕ → Bool

-- What a method has flushed: its result, the tables, and the events that it is about to publish. One
-- that finds no row has changed nothing, and returns without a commit.
pub record Flushed (W A : Type 0) : Type 0 where
  pub value : A
  pub tables : Tables W
  pub events : List (Event W)
  pub commits : Bool

module _ {W : Type 0} where
  -- One `publish` after the other; the first that raises ends the method.
  unfoldable pub publish_each : List (Event W) → World W → Result (Unit {0}) × World W
  publish_each [] w = (ok tt, w)
  publish_each (e ∷ es) w =
      let rest =
        publish_each es (record w { published = w.published ++ e ∷ []; clock = suc w.clock }) in
      if w.is_running w.clock then rest else (err not_running, record w { clock = suc w.clock })

  -- `session.commit()`, or the rollback of the tables.
  unfoldable pub store_tables : {A : Type 0} → Flushed W A → World W → Result A × World W
  store_tables f w =
      if w.can_commit w.clock
      then (ok f.value, record w { tables = f.tables; clock = suc w.clock })
      else (err commit_failed, record w { clock = suc w.clock })

  unfoldable pub settle :
      {A : Type 0} → Flushed W A → Result (Unit {0}) × World W → Result A × World W
  unfolding store_tables
  settle f (ok _, w) = if f.commits then store_tables f w else (ok f.value, w)
  settle f (err e, w) = (err e, w)

  -- A method: what it flushes, then its events, then the commit.
  unfoldable pub commit :
      {A : Type 0} → (Tables W → Result (Flushed W A)) → World W → Result A × World W
  unfolding publish_each settle
  commit body w = elim (body w.tables) [
    | err e ↦ (err e, w)
    | ok f ↦ settle f (publish_each f.events w)
  ]
