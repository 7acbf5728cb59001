-- ===== src/Bus/State.antt =====
-- The state of `AsyncQueueEventBus` (src/bond_accounting/event_bus/async_queue_bus.py) and what runs
-- in one go on it, between two awaits.
pub mod Calls
use Prim.Native.String.{String}
use text.Mathlib.Text.{◌==◌ as same_text}
use stocktaking.Prelude.{
  ℕ, suc, ◌+◌, Bool, true, false, not, ◌&&◌, Option, none, some, List, [], ◌∷◌, ◌++◌, map, any,
  length, get_elem?, modify, if◌then◌else◌,
}
use stocktaking.Prelude.Int.{ℤ}
use stocktaking.Prelude.Outcome.{ok, raise_if, ◌>>◌}
use stocktaking.Bus.Message.{
  value_error, runtime_error, request_timeout, Result, known, is_blank, Message,
}
use stocktaking.Bus.Subscription.{Subscription, Task, is_live, cancel, ensure_dispatcher, clear}

-- The future of a request: `bus_stopped` holds the `RequestTimeoutError` that `stop` sets, `timed_out`
-- is a future that `wait_for` cancelled.
pub data Future (P E : Type 0) : Type 0 where
  pending bus_stopped timed_out : Future P E
  replied : Message P → Future P E
  handler_failed : E → Future P E

-- A request in progress; `listed` tells whether `_reply_futures` has its future.
pub record Request (P E : Type 0) : Type 0 where
  pub message_id : ℕ
  pub future : Future P E
  pub timed : Bool
  pub listed : Bool

-- A message on its way, and the subscriptions of its snapshot that it has not reached.
pub record Route (P : Type 0) : Type 0 where
  pub message : Message P
  pub rest : List ℕ

-- A call of `stop`: the dispatchers that it waits for and the subscriptions that it then clears, by
-- position, and whether it has returned.
pub record Stop : Type 0 where
  pub dispatchers : List ℕ
  pub subscriptions : List ℕ
  pub over : Bool

-- A subscription is named by its position: none is ever taken out of the list, only out of the
-- registry. Those of one topic stand in the order of registration.
pub record Bus (P E : Type 0) : Type 0 where
  pub max_queue_size : ℤ
  pub running : Bool
  pub subscriptions : List (Subscription P)
  pub tasks : List (Task P)
  pub stops : List Stop
  pub routes : List (Route P)
  pub requests : List (Request P E)
  pub next_id : ℕ

-- `__init__`
abbrev pub new_bus : {P E : Type 0} → ℤ → Bus P E
new_bus size = record {
  max_queue_size = size;
  running = false;
  subscriptions = [];
  tasks = [];
  stops = [];
  routes = [];
  requests = [];
  next_id = 0;
}

module _ {P : Type 0} where
  unfoldable pub ensure_listed : ℕ → Subscription P → List (Task P) → Subscription P × List (Task P)
  unfolding ensure_dispatcher is_live
  ensure_listed i s tasks = if s.listed then ensure_dispatcher i s tasks else (s, tasks)

  -- the dispatchers that `start` creates, from a position on
  unfoldable pub ensure_all :
      ℕ → List (Subscription P) → List (Task P) → List (Subscription P) × List (Task P)
  unfolding ensure_listed
  ensure_all i [] tasks = ([], tasks)
  ensure_all i (s ∷ rest) tasks =
      let ensured = ensure_listed i s tasks in
      let later = ensure_all (suc i) rest ensured.1 in (ensured.0 ∷ later.0, later.1)

  -- the two snapshots of `stop`: the dispatchers and the positions of the registered subscriptions
  unfoldable pub dispatchers_of : List (Subscription P) → List ℕ
  dispatchers_of [] = []
  dispatchers_of (s ∷ rest) =
      let later = dispatchers_of rest in
      if s.listed then elim s.dispatcher [ none ↦ later | some k ↦ k ∷ later ] else later

  unfoldable pub listed_from : ℕ → List (Subscription P) → List ℕ
  listed_from i [] = []
  listed_from i (s ∷ rest) =
      let later = listed_from (suc i) rest in if s.listed then i ∷ later else later

  -- `task.cancel` of each
  unfoldable pub cancel_all : List ℕ → List (Task P) → List (Task P)
  cancel_all [] tasks = tasks
  cancel_all (k ∷ ks) tasks = cancel_all ks (modify tasks k cancel)

  unfoldable pub clear_all : List ℕ → List (Subscription P) → List (Subscription P)
  clear_all [] subscriptions = subscriptions
  clear_all (i ∷ rest) subscriptions = clear_all rest (modify subscriptions i clear)

  -- the snapshot of `_route`: the positions of the registered subscriptions on a topic
  unfoldable pub snapshot_from : ℕ → String → List (Subscription P) → List ℕ
  snapshot_from i topic [] = []
  snapshot_from i topic (s ∷ rest) =
      let later = snapshot_from (suc i) topic rest in
      if s.listed && same_text s.topic topic then i ∷ later else later

module _ {P E : Type 0} where
  abbrev pub is_pending : Future P E → Bool
  is_pending pending = true
  is_pending _ = false

  unfoldable pub start : Bus P E → Bus P E
  unfolding ensure_all
  start bus =
      if bus.running
      then bus
      else let ensured = ensure_all 0 bus.subscriptions bus.tasks in
        record bus { running = true; subscriptions = ensured.0; tasks = ensured.1 }

  -- the future of a request when the bus stops
  abbrev pub fail_pending : Request P E → Request P E
  fail_pending r = record r {
    future = if r.listed && is_pending r.future then bus_stopped else r.future;
    listed = false;
  }

  -- `stop`, up to its wait for the dispatchers that it cancels
  unfoldable pub stop : Bus P E → Bus P E
  unfolding dispatchers_of listed_from cancel_all
  stop bus = if not bus.running then bus else record bus {
    running = false;
    tasks = cancel_all (dispatchers_of bus.subscriptions) bus.tasks;
    stops =
        bus.stops
        ++ record {
          dispatchers = dispatchers_of bus.subscriptions;
          subscriptions = listed_from 0 bus.subscriptions;
          over = false;
        }
          ∷ [];
  }

  -- the rest of the `stop` at a position
  unfoldable pub after_stop : ℕ → Stop → Bus P E → Bus P E
  unfolding clear_all
  after_stop n call bus = record bus {
    subscriptions = clear_all call.subscriptions bus.subscriptions;
    requests = map fail_pending bus.requests;
    stops = modify bus.stops n (λ c. record c { over = true });
  }

  -- a new subscription, with a dispatcher while the bus runs
  unfoldable pub new_subscription :
      String → Bool → String → Bus P E → Subscription P × List (Task P)
  unfolding ensure_dispatcher is_live
  new_subscription topic is_request_handler reply_sender bus =
      let added : Subscription P = record {
        topic = topic;
        queue = [];
        is_request_handler = is_request_handler;
        reply_sender = reply_sender;
        dispatcher = none;
        warned_high_watermark = false;
        listed = true;
      } in
      if bus.running
      then ensure_dispatcher (length bus.subscriptions) added bus.tasks
      else (added, bus.tasks)

  -- `subscribe` and `request_handler`
  unfoldable pub subscribe : String → Bool → String → Bus P E → Result (Bus P E)
  unfolding new_subscription
  subscribe topic is_request_handler reply_sender bus = do
    raise_if (not (known topic)) value_error
    ok (record bus {
      subscriptions =
          bus.subscriptions ++ (new_subscription topic is_request_handler reply_sender bus).0 ∷ [];
      tasks = (new_subscription topic is_request_handler reply_sender bus).1;
    })

  -- a subscription out of the registry, its dispatcher cancelled
  abbrev pub detach : ℕ → Option ℕ → Bus P E → Bus P E
  detach i dispatcher bus = record bus {
    subscriptions = modify bus.subscriptions i (λ s. record (clear s) { listed = false });
    tasks = elim dispatcher [ none ↦ bus.tasks | some k ↦ modify bus.tasks k cancel ];
  }

  -- `_remove_subscription`
  unfoldable pub unsubscribe : ℕ → Bus P E → Bus P E
  unsubscribe i bus = elim (get_elem? bus.subscriptions i) [
    | none ↦ bus
    | some s ↦ if s.listed then detach i s.dispatcher bus else bus
  ]

  -- the message of a call and its route
  abbrev pub with_route : String → P → String → Bus P E → Bus P E
  with_route topic payload sender bus = record bus {
    routes =
        bus.routes
        ++ record {
          message = record {
            topic = topic;
            payload = payload;
            sender = sender;
            message_id = bus.next_id;
            reply_to = none;
          };
          rest = snapshot_from 0 topic bus.subscriptions;
        }
          ∷ [];
    next_id = bus.next_id + 1;
  }

  -- `publish`, up to the first `queue.put`
  unfoldable pub publish : String → P → String → Bus P E → Result (Bus P E)
  publish topic payload sender bus = do
    raise_if (not (known topic)) value_error
    raise_if (not bus.running) runtime_error
    raise_if (is_blank sender) value_error
    ok (with_route topic payload sender bus)

  -- `_has_request_handler`
  abbrev pub has_request_handler : String → Bus P E → Bool
  has_request_handler topic bus =
      any (λ (s : Subscription P). s.listed && same_text s.topic topic && s.is_request_handler)
        bus.subscriptions

  -- `request`, up to the first `queue.put`; `timed` tells whether it has a timeout.
  unfoldable pub request : String → P → String → Bool → Bus P E → Result (Bus P E)
  request topic payload sender timed bus = do
    raise_if (not (known topic)) value_error
    raise_if (not bus.running) runtime_error
    raise_if (is_blank sender) value_error
    raise_if (not timed && not (has_request_handler topic bus)) request_timeout
    ok (record (with_route topic payload sender bus) {
      requests =
          bus.requests
          ++ record { message_id = bus.next_id; future = pending; timed = timed; listed = true }
            ∷ [];
    })
