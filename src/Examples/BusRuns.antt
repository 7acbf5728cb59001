-- ===== src/Examples/BusRuns.antt =====
-- Runs of the event bus, with numbers for payloads and exceptions.
use stocktaking.Prelude.{
  ◌↔◌, ◌||◌, ℕ, ◌≡◌, refl, true, false, none, some, List, [], ◌∷◌, ◌++◌, All, get_elem?,
}
use stocktaking.Prelude.Outcome.{ok}
use stocktaking.Prelude.Int.{pos}
use stocktaking.Bus.Message.{Message, known, is_blank}
use stocktaking.Bus.Subscription.{waiting, accept, maybe_warn, serve, is_live, ensure_dispatcher}
use stocktaking.Bus.State.{
  Bus, Route, with_route, has_request_handler, Request, replied, is_pending, new_bus, start, stop,
  after_stop, ensure_all, dispatchers_of, listed_from, cancel_all, clear_all, new_subscription,
  subscribe, snapshot_from, publish, request,
}
use stocktaking.Bus.State.Calls.{names, publish-route, publish-ok_iff, request-ok_iff}
use stocktaking.Bus.Step.{
  Command, start_bus, stop_bus, subscribe_to, put, take, end_task, stop_done, publish_on,
  request_on, finish, returned, step, run, put_to, put_next, take_next, take_from, end_next,
  stop_next, finish_next, resolution, resolve, react, Reachable, created, stepped,
}
use stocktaking.Bus.Step.Parts.{run-Reachable}
use stocktaking.Bus.Step.Answers.{AllMatch, Reachable-AllMatch}
use stocktaking.Bus.Step.Bounds.{AllKept, Reachable-AllKept}
use stocktaking.Bus.Step.Replies.{stopped_resolved}
use stocktaking.Bus.Step.FirstWins.{first_resolution_wins}
use stocktaking.Bus.Step.Order.Queues.{queue_at}
use stocktaking.Bus.Step.Order.{accepted, delivered, drops, run_fifo}

-- a bus that runs, with one handler of requests
abbrev one_handler : Bus ℕ ℕ
one_handler = record {
  max_queue_size = pos 2;
  running = true;
  subscriptions =
      record {
        topic = "bond.created";
        queue = [];
        is_request_handler = true;
        reply_sender = "bonds";
        dispatcher = some 0;
        warned_high_watermark = false;
        listed = true;
      }
      ∷ [];
  tasks = record { subscription = 0; state = waiting } ∷ [];
  stops = [];
  routes = [];
  requests = [];
  next_id = 0;
}

one_handler-Reachable : Reachable (pos 2) one_handler
unfolding step start ensure_all subscribe new_subscription ensure_dispatcher is_live known
one_handler-Reachable =
    stepped (subscribe_to "bond.created" true "bonds") (stepped start_bus created refl) refl

Reachable-AllKept_example : AllKept (pos 2) one_handler
Reachable-AllKept_example = Reachable-AllKept (pos 2) one_handler one_handler-Reachable

-- two messages on their way, one of them a request
abbrev commands : List (Command ℕ ℕ)
commands =
    publish_on "bond.created" 7 "ui"
    ∷ request_on "bond.created" 8 "ui" false
    ∷ put 0
    ∷ take 0
    ∷ put 1
    ∷ finish 0 (returned none)
    ∷ []

abbrev final_bus : Bus ℕ ℕ
final_bus = elim (run commands one_handler) [ some bus ↦ bus | none ↦ new_bus (pos 2) ]

run-commands : run commands one_handler ≡ some final_bus
unfolding run step publish request known snapshot_from put_next put_to take_next take_from
    finish_next accept maybe_warn serve resolution resolve react
run-commands = refl

run_fifo_example :
    queue_at one_handler.subscriptions 0 ++ accepted 0 commands one_handler
    ≡ delivered 0 commands one_handler ++ queue_at final_bus.subscriptions 0
unfolding drops
run_fifo_example =
    run_fifo 0 commands one_handler final_bus (refl, (refl, (refl, (refl, (refl, (refl, tt))))))
      run-commands

abbrev waiting_bus : Bus ℕ ℕ
waiting_bus = elim (step (request_on "bond.created" 8 "ui" false) one_handler) [
  | some bus ↦ bus
  | none ↦ new_bus (pos 2)
]

-- the bus stopped while the request waits: its dispatcher cancelled, that over, and the stop over
abbrev stopping : List (Command ℕ ℕ)
stopping = stop_bus ∷ end_task 0 ∷ stop_done 0 ∷ []

abbrev stopped_bus : Bus ℕ ℕ
stopped_bus = elim (run stopping waiting_bus) [ some bus ↦ bus | none ↦ waiting_bus ]

run-stopping : run stopping waiting_bus ≡ some stopped_bus
unfolding run step request known snapshot_from stop dispatchers_of listed_from cancel_all end_next
    stop_next is_live after_stop clear_all
run-stopping = refl

waiting_bus-Reachable : Reachable (pos 2) waiting_bus
unfolding step request known snapshot_from
waiting_bus-Reachable = stepped (request_on "bond.created" 8 "ui" false) one_handler-Reachable refl

stopped_bus-Reachable : Reachable (pos 2) stopped_bus
stopped_bus-Reachable =
    run-Reachable (pos 2) stopping waiting_bus stopped_bus waiting_bus-Reachable run-stopping

stopped_resolved_example :
    All (λ (r : Request ℕ ℕ). is_pending r.future ≡ false) stopped_bus.requests
unfolding run step request known snapshot_from stop dispatchers_of listed_from cancel_all end_next
    stop_next is_live after_stop clear_all
stopped_resolved_example = stopped_resolved (pos 2) stopped_bus stopped_bus-Reachable refl refl

published_run :
    publish "bond.created" 7 "ui" one_handler ≡ ok (with_route "bond.created" 7 "ui" one_handler)
unfolding publish known
published_run = refl

publish-route_example :
    (r : Route ℕ) × ((with_route "bond.created" 7 "ui" one_handler).routes ≡ r ∷ [])
    × (r.message.payload ≡ 7)
    × (names 0 r.rest ≡ true)
publish-route_example =
    publish-route "bond.created" 7 "ui" one_handler (with_route "bond.created" 7 "ui" one_handler) 0
      published_run

publish-ok_iff_example :
    ((next : Bus ℕ ℕ) × (publish "bond.created" 7 "ui" one_handler ≡ ok next))
    ↔ ((known "bond.created" ≡ true) × (one_handler.running ≡ true) × (is_blank "ui" ≡ false))
publish-ok_iff_example = publish-ok_iff "bond.created" 7 "ui" one_handler

request-ok_iff_example :
    ((next : Bus ℕ ℕ) × (request "bond.deleted" 7 "ui" false one_handler ≡ ok next)) ↔ (
      (known "bond.deleted" ≡ true)
      × (one_handler.running ≡ true)
      × (is_blank "ui" ≡ false)
      × ((false || has_request_handler "bond.deleted" one_handler) ≡ true))
request-ok_iff_example = request-ok_iff "bond.deleted" 7 "ui" one_handler false

-- the request answered with 9, and then the bus stopped
abbrev answered_bus : Bus ℕ ℕ
answered_bus =
    elim (run
      (request_on "bond.created" 8 "ui" false ∷ put 0 ∷ take 0 ∷ finish 0 (returned (some 9)) ∷ [])
      one_handler) [ some bus ↦ bus | none ↦ one_handler ]

abbrev the_reply : Message ℕ
the_reply = record {
  topic = "bond.created";
  payload = 9;
  sender = "bonds";
  message_id = 1;
  reply_to = some 0;
}

abbrev answered : Request ℕ ℕ
answered = record { message_id = 0; future = replied the_reply; timed = false; listed = true }

abbrev answered_stop : Bus ℕ ℕ
answered_stop = elim (run stopping answered_bus) [ some bus ↦ bus | none ↦ answered_bus ]

first_resolution_wins_example :
    (later : Request ℕ ℕ) × (get_elem? answered_stop.requests 0 ≡ some later)
    × (later.future ≡ replied the_reply)
unfolding run step request known snapshot_from put_next put_to take_next take_from finish_next
    accept maybe_warn serve resolution resolve react stop dispatchers_of listed_from cancel_all
    end_next stop_next is_live after_stop clear_all
first_resolution_wins_example =
    first_resolution_wins stopping answered_bus answered_stop 0 answered refl refl refl

answered_commands_run :
    run
      (request_on "bond.created" 8 "ui" false ∷ put 0 ∷ take 0 ∷ finish 0 (returned (some 9)) ∷ [])
      one_handler
    ≡ some answered_bus
unfolding run step request known snapshot_from put_next put_to take_next take_from finish_next
    accept maybe_warn serve resolution resolve react
answered_commands_run = refl

Reachable-AllMatch_example : AllMatch answered_bus
Reachable-AllMatch_example = Reachable-AllMatch (pos 2) answered_bus (
    run-Reachable (pos 2)
      (request_on "bond.created" 8 "ui" false ∷ put 0 ∷ take 0 ∷ finish 0 (returned (some 9)) ∷ [])
      one_handler answered_bus one_handler-Reachable answered_commands_run)
