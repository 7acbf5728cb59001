-- ===== src/Bus/Step.antt =====
-- The bus as a whole: what may run next between two awaits, in any order.
pub mod Parts
pub mod Bounds
pub mod Replies
pub mod Order
pub mod FirstWins
pub mod Answers
use Prim.Native.String.{String}
use stocktaking.Prelude.{
  ℕ, suc, ◌≡◌, Bool, true, false, not, ◌&&◌, Option, none, some, List, [], ◌∷◌, map, any, get_elem?,
  modify, length, ◌==◌, if◌then◌else◌,
}
use stocktaking.Prelude.Int.{ℤ}
use stocktaking.Prelude.Outcome.{ok, err}
use stocktaking.Bus.Message.{Result, Message}
use stocktaking.Bus.Subscription.{
  Subscription, Task, waiting, serving, cancelled, ended, warn_threshold, is_full, is_live, accept,
  serve, hand_over, resume,
}
use stocktaking.Bus.State.{
  Future, pending, bus_stopped, timed_out, replied, handler_failed, Request, Route, Bus, new_bus,
  is_pending, start, stop, after_stop, subscribe, unsubscribe, publish, request,
}

-- What a handler does with a message: it returns a payload or none, or raises.
pub data Reaction (P E : Type 0) : Type 0 where
  returned : Option P → Reaction P E
  raised : E → Reaction P E

-- What a caller of `request` gets when its future is resolved.
pub data Answer (P E : Type 0) : Type 0 where
  payload : P → Answer P E
  timeout_error : Answer P E
  handler_error : E → Answer P E

-- Calls, and the next part of what is running: `put` of a route, `take` and `finish` of a dispatcher
-- and the end of one that is cancelled, `time_out` and `answer` of a request, the rest of a `stop`.
pub data Command (P E : Type 0) : Type 0 where
  start_bus stop_bus : Command P E
  subscribe_to : String → Bool → String → Command P E
  unsubscribe_from put take end_task stop_done : ℕ → Command P E
  publish_on : String → P → String → Command P E
  request_on : String → P → String → Bool → Command P E
  finish : ℕ → Reaction P E → Command P E
  time_out answer : ℕ → Command P E

-- `future.result()`, with the payload of the reply
unfoldable pub answer_of : {P E : Type 0} → Future P E → Option (Answer P E)
answer_of pending = none
answer_of bus_stopped = some timeout_error
answer_of timed_out = some timeout_error
answer_of (replied m) = some (payload m.payload)
answer_of (handler_failed e) = some (handler_error e)

-- `_maybe_reply` and `_fail_pending_reply`: what they set, if anything
unfoldable pub resolution :
    {P E : Type 0} → Subscription P → Message P → ℕ → Reaction P E → Option (Future P E)
resolution s m id (returned none) = none
resolution s m id (returned (some p)) = some (
    replied (record {
      topic = m.topic;
      payload = p;
      sender = s.reply_sender;
      message_id = id;
      reply_to = some m.message_id;
    }))
resolution s m id (raised e) = some (handler_failed e)

module _ {P E : Type 0} where
  -- The future of a message is set if it is registered and pending: the first resolution wins.
  unfoldable pub resolve : ℕ → Future P E → Request P E → Request P E
  resolve id f r =
      if r.listed && r.message_id == id && is_pending r.future then record r { future = f } else r

  -- The routing of a message is over.
  abbrev pub routed : ℕ → Bus P E → Bool
  routed id bus =
      not (any (λ (r : Route P). r.message.message_id == id && not (length r.rest == 0)) bus.routes)

  -- one `await queue.put` of `_route`, which waits while the queue is full
  unfoldable pub put_to : ℕ → Message P → ℕ → List ℕ → Bus P E → Option (Bus P E)
  put_to k m i rest bus = elim (get_elem? bus.subscriptions i) [
    | none ↦ none
    | some s ↦
        if is_full bus.max_queue_size (length s.queue)
        then none
        else some (record bus {
          subscriptions = modify bus.subscriptions i (accept (warn_threshold bus.max_queue_size) m);
          routes = modify bus.routes k (λ r. record r { rest = rest });
        })
  ]

  unfoldable pub put_next : ℕ → Bus P E → Option (Bus P E)
  put_next k bus = elim (get_elem? bus.routes k) [
    | none ↦ none
    | some r ↦ elim r.rest [ [] ↦ none | i ∷ rest ↦ put_to k r.message i rest bus ]
  ]

  -- the dispatcher at position k at its handler, with the first message of the queue
  unfoldable pub take_from : ℕ → ℕ → List (Message P) → Bus P E → Option (Bus P E)
  take_from k i [] bus = none
  take_from k i (m ∷ rest) bus = some (record bus {
    subscriptions = modify bus.subscriptions i (serve (warn_threshold bus.max_queue_size) rest);
    tasks = modify bus.tasks k (hand_over m);
  })

  -- `await queue.get`, up to the call of the handler
  unfoldable pub take_next : ℕ → Bus P E → Option (Bus P E)
  unfolding take_from
  take_next k bus = elim (get_elem? bus.tasks k) [
    | none ↦ none
    | some t ↦ elim t.state [
      | waiting ↦ elim (get_elem? bus.subscriptions t.subscription) [
        | none ↦ none
        | some s ↦ take_from k t.subscription s.queue bus
      ]
      | _ ↦ none
    ]
  ]

  -- a cancelled dispatcher is over
  unfoldable pub end_next : ℕ → Bus P E → Option (Bus P E)
  end_next k bus = elim (get_elem? bus.tasks k) [
    | none ↦ none
    | some t ↦ elim t.state [
      | cancelled ↦
          some (record bus { tasks = modify bus.tasks k (λ t. record t { state = ended }) })
      | _ ↦ none
    ]
  ]

  -- `stop`, when the dispatchers that it waits for are done
  unfoldable pub stop_next : ℕ → Bus P E → Option (Bus P E)
  unfolding is_live
  stop_next n bus = elim (get_elem? bus.stops n) [
    | none ↦ none
    | some call ↦
        if not call.over && not (any (λ k. is_live bus.tasks (some k)) call.dispatchers)
        then some (after_stop n call bus)
        else none
  ]

  -- the requests after a reaction
  unfoldable pub react : Subscription P → Message P → Reaction P E → Bus P E → List (Request P E)
  react s m reaction bus =
      if s.is_request_handler
      then elim (resolution s m bus.next_id reaction) [
        | none ↦ bus.requests
        | some f ↦ map (resolve m.message_id f) bus.requests
      ]
      else bus.requests

  -- from the handler's reaction to the next `queue.get`
  unfoldable pub finish_next : ℕ → Reaction P E → Bus P E → Option (Bus P E)
  finish_next k reaction bus = elim (get_elem? bus.tasks k) [
    | none ↦ none
    | some t ↦ elim t.state [
      | serving m ↦ elim (get_elem? bus.subscriptions t.subscription) [
        | none ↦ none
        | some s ↦ some (record bus {
          tasks = modify bus.tasks k resume;
          requests = react s m reaction bus;
          next_id = suc bus.next_id;
        })
      ]
      | _ ↦ none
    ]
  ]

  -- `wait_for` at its timeout
  unfoldable pub expire : ℕ → Bus P E → Option (Bus P E)
  expire j bus = elim (get_elem? bus.requests j) [
    | none ↦ none
    | some r ↦
        if r.timed && is_pending r.future && routed r.message_id bus
        then some (record bus {
          requests = modify bus.requests j (λ r. record r { future = timed_out; listed = false });
        })
        else none
  ]

  -- `request` returns or raises, and takes its future out of `_reply_futures`.
  unfoldable pub conclude : ℕ → Bus P E → Option (Bus P E)
  conclude j bus = elim (get_elem? bus.requests j) [
    | none ↦ none
    | some r ↦
        if not (is_pending r.future) && routed r.message_id bus
        then some
            (record bus { requests = modify bus.requests j (λ r. record r { listed = false }) })
        else none
  ]

  -- a call that raises changes nothing
  abbrev pub attempt : Result (Bus P E) → Bus P E → Option (Bus P E)
  attempt (ok next) bus = some next
  attempt (err e) bus = some bus

  -- `none`: it cannot run now.
  unfoldable pub step : Command P E → Bus P E → Option (Bus P E)
  step start_bus bus = some (start bus)
  step stop_bus bus = some (stop bus)
  step (subscribe_to topic handler sender) bus = attempt (subscribe topic handler sender bus) bus
  step (unsubscribe_from i) bus = some (unsubscribe i bus)
  step (put k) bus = put_next k bus
  step (take k) bus = take_next k bus
  step (end_task k) bus = end_next k bus
  step (stop_done n) bus = stop_next n bus
  step (publish_on topic p sender) bus = attempt (publish topic p sender bus) bus
  step (request_on topic p sender timed) bus = attempt (request topic p sender timed bus) bus
  step (finish k reaction) bus = finish_next k reaction bus
  step (time_out j) bus = expire j bus
  step (answer j) bus = conclude j bus

-- The states that a bus of a given queue size can come to.
pub data Reachable {P E : Type 0} (size : ℤ) : Bus P E → Type 0 where
  created : Reachable size (new_bus size)
  stepped :
      {bus next : Bus P E}
      → (c : Command P E) → Reachable size bus
      → step c bus ≡ some next
      → Reachable size next

-- Commands one after the other; `none` if one of them cannot run when its turn comes.
unfoldable pub run : {P E : Type 0} → List (Command P E) → Bus P E → Option (Bus P E)
run [] bus = some bus
run (c ∷ cs) bus = elim (step c bus) [ none ↦ none | some next ↦ run cs next ]
