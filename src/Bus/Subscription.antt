-- ===== src/Bus/Subscription.antt =====
-- `_Subscription` of src/bond_accounting/event_bus/async_queue_bus.py: what the bus does to one.
use Prim.Native.String.{String}
use stocktaking.Prelude.{
  ℕ, zero, suc, ◌*◌, ◌/◌, Bool, true, false, not, Option, none, some, List, [], ◌∷◌, ◌++◌, length,
  ltb, leb, get_elem?, if◌then◌else◌,
}
use stocktaking.Prelude.Int.{ℤ, pos, negsuc}
use stocktaking.Bus.Message.{Message}

-- A dispatcher task: waiting at `queue.get`, awaiting its handler, cancelled but not yet over (a
-- handler may do some work when it is cancelled, but lets the cancellation pass), or done.
pub data Dispatcher (P : Type 0) : Type 0 where
  waiting cancelled ended : Dispatcher P
  serving : Message P → Dispatcher P

-- A task and the position of the subscription that it serves.
pub record Task (P : Type 0) : Type 0 where
  pub subscription : ℕ
  pub state : Dispatcher P

-- `dispatcher` is the position of a task; a task can outlive it. `listed` tells whether the registry
-- has the subscription: a publisher that took its snapshot earlier still reaches the object after it
-- was removed.
pub record Subscription (P : Type 0) : Type 0 where
  pub topic : String
  pub queue : List (Message P)
  pub is_request_handler : Bool
  pub reply_sender : String
  pub dispatcher : Option ℕ
  pub warned_high_watermark : Bool
  pub listed : Bool

-- `max(1, int(max_queue_size * 0.8))`; the product is rounded down, as with floats below 2 ^ 50.
abbrev pub warn_threshold : ℤ → Option ℕ
warn_threshold (negsuc n) = none
warn_threshold (pos zero) = none
warn_threshold (pos (suc n)) = let share = 4 * suc n / 5 in some (if leb 1 share then share else 1)

-- `asyncio.Queue.full`: without a positive size there is no bound.
abbrev pub is_full : ℤ → ℕ → Bool
is_full (negsuc n) size = false
is_full (pos zero) size = false
is_full (pos (suc n)) size = leb (suc n) size

-- `threshold is None or qsize < threshold`
abbrev pub is_below : Option ℕ → ℕ → Bool
is_below none size = true
is_below (some t) size = ltb size t

module _ {P : Type 0} where
  -- `_maybe_warn_high_watermark`
  unfoldable pub maybe_warn : Option ℕ → Subscription P → Subscription P
  maybe_warn threshold s =
      if is_below threshold (length s.queue) then s else record s { warned_high_watermark = true }

  -- `queue.put` on a queue with room, and the warning after it
  unfoldable pub accept : Option ℕ → Message P → Subscription P → Subscription P
  accept threshold m s = maybe_warn threshold (record s { queue = s.queue ++ m ∷ [] })

  -- `queue.get` in the dispatcher, and the test after it
  unfoldable pub serve : Option ℕ → List (Message P) → Subscription P → Subscription P
  serve threshold rest s = record s {
    queue = rest;
    warned_high_watermark =
        if is_below threshold (length rest) then false else s.warned_high_watermark;
  }

  -- the dispatcher at its handler, and back at `queue.get`
  abbrev pub hand_over : Message P → Task P → Task P
  hand_over m t = record t { state = serving m }

  abbrev pub resume : Task P → Task P
  resume t = record t { state = waiting }

  abbrev pub is_ended : Dispatcher P → Bool
  is_ended ended = true
  is_ended _ = false

  -- `task.cancel`
  abbrev pub cancel : Task P → Task P
  cancel t = if is_ended t.state then t else record t { state = cancelled }

  -- `dispatcher is not None and not dispatcher.done()`
  unfoldable pub is_live : List (Task P) → Option ℕ → Bool
  is_live tasks none = false
  is_live tasks (some k) = elim (get_elem? tasks k) [
    | none ↦ false
    | some t ↦ not (is_ended t.state)
  ]

  -- `_ensure_dispatcher` of the subscription at a position
  unfoldable pub ensure_dispatcher :
      ℕ → Subscription P → List (Task P) → Subscription P × List (Task P)
  ensure_dispatcher i s tasks = if is_live tasks s.dispatcher then (s, tasks) else (
    record s { dispatcher = some (length tasks) },
    tasks ++ record { subscription = i; state = waiting } ∷ [],
  )

  -- without a dispatcher, and drained
  abbrev pub clear : Subscription P → Subscription P
  clear s = record s { queue = []; dispatcher = none }
