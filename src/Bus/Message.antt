-- ===== src/Bus/Message.antt =====
-- src/bond_accounting/event_bus/topics.py and message.py, and the exceptions of event_bus.py
use Prim.Native.String.{String}
use text.Mathlib.Text.{◌==◌ as same_text}
use stocktaking.Prelude.{ℕ, Bool, Option, List, [], ◌∷◌, any}
use stocktaking.Prelude.Outcome.{Outcome}

-- What a call of the bus raises, beside what its reply brings.
pub data Error : Type 0 where
  value_error runtime_error request_timeout : Error

abbrev pub Result : Type 0 → Type 0
Result = Outcome Error

-- `ALL_TOPICS`
abbrev pub all_topics : List String
all_topics =
    "bond.created" ∷ "bond.updated" ∷ "bond.deleted" ∷ "broker.created" ∷ "broker.updated"
    ∷ "broker.deleted" ∷ "broker_account.created" ∷ "broker_account.updated"
    ∷ "broker_account.deleted" ∷ "transaction.created" ∷ "transaction.updated"
    ∷ "transaction.deleted" ∷ "position.updated" ∷ "portfolio.recalculated" ∷ []

-- `topic in ALL_TOPICS`
unfoldable pub known : String → Bool
known topic = any (λ (t : String). same_text t topic) all_topics

-- The identifier is a number where the source takes a new UUID; the time of creation is left out,
-- since nothing on the bus reads it.
pub record Message (P : Type 0) : Type 0 where
  pub topic : String
  pub payload : P
  pub sender : String
  pub message_id : ℕ
  pub reply_to : Option ℕ

-- `not sender`
abbrev pub is_blank : String → Bool
is_blank s = same_text s ""
