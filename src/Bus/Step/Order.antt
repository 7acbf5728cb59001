-- ===== src/Bus/Step/Order.antt =====
-- The messages of one subscription, in order.
pub mod Queues
use mathlib.Core.Path.{ap, subst}
use mathlib.Core.Option.{some-injective}
use mathlib.Core.List.{append-nil, append_assoc}
use Prim.Native.String.{String}
use stocktaking.Prelude.{
  ℕ, zero, suc, ◌≡◌, refl, sym, ◌∙◌, inl, inr, Bool, true, false, none, some, Option, Option-cases,
  List, [], ◌∷◌, ◌++◌, map, arith, All, get_elem?, modify, Bool-cases, if◌then◌else◌, ◌==◌,
  get_elem?-modify, ==→eq,
}
use stocktaking.Prelude.Outcome.{ok, err}
use stocktaking.Bus.Message.{Message, Result}
use stocktaking.Bus.Subscription.{
  Subscription, Task, serving, accept, serve, hand_over, clear, ensure_dispatcher, warn_threshold,
}
use stocktaking.Bus.State.{
  Bus, Route, new_subscription, start, stop, subscribe, unsubscribe, publish, request,
}
use stocktaking.Bus.Step.{
  Command, start_bus, stop_bus, subscribe_to, unsubscribe_from, put, take, end_task, stop_done,
  publish_on, request_on, finish, time_out, answer, attempt, put_next, take_next, step, run,
}
use stocktaking.Bus.Step.Parts.{
  put_next-PutDone, take_next-TakeDone, end_next-tasks, finish_next-FinishDone, expire-ExpireDone,
  conclude-ConcludeDone,
}
use stocktaking.Bus.Step.Order.Queues.{
  queue_at, queue_at-ensure_all, queue_at-snoc, queue_at-modify_ne, queue_at-found, queue_at-accept,
  queue_at-serve,
}

module _ {P E : Type 0} where
  -- What a command puts into the queue at a position.
  unfoldable pub puts : ℕ → Command P E → Bus P E → List (Message P)
  puts i (put k) bus = elim (get_elem? bus.routes k) [
    | none ↦ []
    | some r ↦ elim r.rest [ [] ↦ [] | j ∷ _ ↦ if j == i then r.message ∷ [] else [] ]
  ]
  puts i _ bus = []

  -- What a dispatcher of the subscription at a position has given its handler.
  unfoldable pub handed : ℕ → ℕ → Bus P E → List (Message P)
  handed i k bus = elim (get_elem? bus.tasks k) [
    | none ↦ []
    | some t ↦ elim t.state [ serving m ↦ if t.subscription == i then m ∷ [] else [] | _ ↦ [] ]
  ]

  -- What a command has a handler called with, in the state that it leads to.
  unfoldable pub takes : ℕ → Command P E → Bus P E → List (Message P)
  takes i (take k) next = handed i k next
  takes i _ next = []

  -- The end of a stop and unsubscribing drop what is queued.
  unfoldable pub drops : ℕ → Command P E → Bool
  drops i (stop_done n) = true
  drops i (unsubscribe_from j) = j == i
  drops i _ = false

  -- All that a run puts into the queue, and all that its handler is called with, in order.
  unfoldable pub accepted : ℕ → List (Command P E) → Bus P E → List (Message P)
  accepted i [] bus = []
  accepted i (c ∷ cs) bus =
      puts i c bus ++ elim (step c bus) [ none ↦ [] | some next ↦ accepted i cs next ]

  unfoldable pub delivered : ℕ → List (Command P E) → Bus P E → List (Message P)
  delivered i [] bus = []
  delivered i (c ∷ cs) bus = elim (step c bus) [
    | none ↦ []
    | some next ↦ takes i c next ++ delivered i cs next
  ]

  abbrev pub Flows : ℕ → Command P E → Bus P E → Bus P E → Type 0
  Flows i c bus next =
      queue_at bus.subscriptions i ++ puts i c bus ≡ takes i c next ++ queue_at next.subscriptions i

  puts-put :
      (i j k : ℕ) (rest : List ℕ) (bus : Bus P E) {r : Route P}
      → get_elem? bus.routes k ≡ some r
      → r.rest ≡ j ∷ rest
      → puts i (put k) bus ≡ (if j == i then r.message ∷ [] else [])
  unfolding puts
  puts-put i j k rest bus e h = rw (puts, e, h) refl

  put-Flows : (i k : ℕ) (bus next : Bus P E) → put_next k bus ≡ some next → Flows i (put k) bus next
  unfolding takes
  put-Flows i k bus next e =
      let done = put_next-PutDone bus next k e in
      elim (Bool-cases (done.i == i)) [
        | inl same ↦
            rw
              (
                puts-put i done.i k done.rest bus done.route_lem done.rest_lem,
                same,
                done.next_lem,
                ==→eq done.i i same,
              )
              (sym (
                queue_at-accept (warn_threshold bus.max_queue_size) done.route.message
                  bus.subscriptions i (rw (==→eq done.i i same) at done.found)))
        | inr other ↦
            rw
              (puts-put i done.i k done.rest bus done.route_lem done.rest_lem, other, done.next_lem)
              (append-nil _
                ∙ sym (
                    queue_at-modify_ne
                      (accept (warn_threshold bus.max_queue_size) done.route.message)
                      bus.subscriptions done.i i other))
      ]

  handed_lem :
      (i k : ℕ) (m : Message P) (bus : Bus P E) (t : Task P)
      → get_elem? bus.tasks k ≡ some (hand_over m t)
      → handed i k bus ≡ (if t.subscription == i then m ∷ [] else [])
  unfolding handed
  handed_lem i k m bus t e = rw (handed, e) refl

  take-Flows :
      (i k : ℕ) (bus next : Bus P E) → take_next k bus ≡ some next → Flows i (take k) bus next
  unfolding puts takes
  take-Flows i k bus next e =
      let done = take_next-TakeDone bus next k e in
      let given =
        handed_lem i k done.m next done.t
          (rw done.next_lem (get_elem?-modify bus.tasks k (hand_over done.m) done.task_lem)) in
      elim (Bool-cases (done.t.subscription == i)) [
        | inl same ↦
            rw
              (
                given,
                same,
                done.next_lem,
                ← ==→eq done.t.subscription i same,
                queue_at-serve (warn_threshold bus.max_queue_size) done.rest bus.subscriptions
                    done.t.subscription done.found,
                queue_at-found bus.subscriptions done.t.subscription done.found,
                done.queue_lem,
              )
              (append-nil _)
        | inr other ↦
            rw (given, other, done.next_lem)
              (append-nil _
                ∙ sym (
                    queue_at-modify_ne (serve (warn_threshold bus.max_queue_size) done.rest)
                      bus.subscriptions done.t.subscription i other))
      ]

  -- A command that neither puts nor takes.
  kept-Flows :
      (i : ℕ) (ss : List (Subscription P)) (bus : Bus P E)
      → queue_at ss i ≡ queue_at bus.subscriptions i
      → queue_at bus.subscriptions i ++ [] ≡ queue_at ss i
  kept-Flows i ss bus e = append-nil _ ∙ sym e

  start-Flows :
      (i : ℕ) (bus : Bus P E) → queue_at (start bus).subscriptions i ≡ queue_at bus.subscriptions i
  unfolding start
  start-Flows i bus = elim (Bool-cases bus.running) [
    | inl on ↦ rw on refl
    | inr off ↦ rw off (queue_at-ensure_all 0 bus.subscriptions bus.tasks i)
  ]

  new_subscription-queue :
      (t : String) (h : Bool) (s : String) (bus : Bus P E)
      → (new_subscription t h s bus).0.queue ≡ []
  unfolding new_subscription ensure_dispatcher
  new_subscription-queue t h s bus = ground arith

  stop-Flows :
      (i : ℕ) (bus : Bus P E) → queue_at (stop bus).subscriptions i ≡ queue_at bus.subscriptions i
  unfolding stop
  stop-Flows i bus = elim (Bool-cases bus.running) [ inl on ↦ rw on refl | inr off ↦ rw off refl ]

  subscribe-Flows :
      (i : ℕ) (t : String) (h : Bool) (s : String) (bus next : Bus P E)
      → subscribe t h s bus ≡ ok next
      → queue_at next.subscriptions i ≡ queue_at bus.subscriptions i
  unfolding subscribe
  subscribe-Flows i t h s bus next e =
      let kept =
        queue_at-snoc bus.subscriptions (new_subscription t h s bus).0 i
          (new_subscription-queue t h s bus) in
      ground (arith, e, kept)

  publish-Flows :
      (i : ℕ) (t : String) (p : P) (s : String) (bus next : Bus P E)
      → publish t p s bus ≡ ok next
      → queue_at next.subscriptions i ≡ queue_at bus.subscriptions i
  unfolding publish
  publish-Flows i t p s bus next e = ground (arith, e)

  request-Flows :
      (i : ℕ) (t : String) (p : P) (s : String) (timed : Bool) (bus next : Bus P E)
      → request t p s timed bus ≡ ok next
      → queue_at next.subscriptions i ≡ queue_at bus.subscriptions i
  unfolding request
  request-Flows i t p s timed bus next e = ground (arith, e)

  attempt-Flows :
      (i : ℕ) (r : Result (Bus P E)) (bus next : Bus P E)
      → ((b : Bus P E) → r ≡ ok b → queue_at b.subscriptions i ≡ queue_at bus.subscriptions i)
      → attempt r bus ≡ some next
      → queue_at next.subscriptions i ≡ queue_at bus.subscriptions i
  attempt-Flows i (ok b) bus next h e =
      subst (λ (x : Bus P E). queue_at x.subscriptions i ≡ queue_at bus.subscriptions i)
        (some-injective _ _ e) (h b refl)
  attempt-Flows i (err x) bus next h e =
      ap (λ (b : Bus P E). queue_at b.subscriptions i) (sym (some-injective _ _ e))

  unsubscribe-Flows :
      (i j : ℕ) (bus : Bus P E)
      → (j == i) ≡ false
      → queue_at (unsubscribe j bus).subscriptions i ≡ queue_at bus.subscriptions i
  unfolding unsubscribe
  unsubscribe-Flows i j bus e =
      let kept =
        queue_at-modify_ne (λ (s : Subscription P). record (clear s) { listed = false })
          bus.subscriptions j i e in
      ground (arith, kept)

  step-Flows :
      (i : ℕ) (c : Command P E) (bus next : Bus P E)
      → drops i c ≡ false
      → step c bus ≡ some next
      → Flows i c bus next
  unfolding step puts takes drops
  step-Flows i start_bus bus next d e = kept-Flows i next.subscriptions bus (
      ap (λ (b : Bus P E). queue_at b.subscriptions i) (sym (some-injective _ _ e))
      ∙ start-Flows i bus)
  step-Flows i stop_bus bus next d e = kept-Flows i next.subscriptions bus (
      ap (λ (b : Bus P E). queue_at b.subscriptions i) (sym (some-injective _ _ e))
      ∙ stop-Flows i bus)
  step-Flows i (stop_done n) bus next d e = cc
  step-Flows i (end_task k) bus next d e =
      kept-Flows i next.subscriptions bus (rw (end_next-tasks bus next k e).1 refl)
  step-Flows i (unsubscribe_from j) bus next d e = kept-Flows i next.subscriptions bus (
      ap (λ (b : Bus P E). queue_at b.subscriptions i) (sym (some-injective _ _ e))
      ∙ unsubscribe-Flows i j bus d)
  step-Flows i (subscribe_to t h s) bus next d e =
      kept-Flows i next.subscriptions bus
        (attempt-Flows i (subscribe t h s bus) bus next (λ b. subscribe-Flows i t h s bus b) e)
  step-Flows i (publish_on t p s) bus next d e =
      kept-Flows i next.subscriptions bus
        (attempt-Flows i (publish t p s bus) bus next (λ b. publish-Flows i t p s bus b) e)
  step-Flows i (request_on t p s w) bus next d e =
      kept-Flows i next.subscriptions bus
        (attempt-Flows i (request t p s w bus) bus next (λ b. request-Flows i t p s w bus b) e)
  step-Flows i (put k) bus next d e = put-Flows i k bus next e
  step-Flows i (take j) bus next d e = take-Flows i j bus next e
  step-Flows i (finish j r) bus next d e =
      kept-Flows i next.subscriptions bus (rw (finish_next-FinishDone bus next j r e).next_lem refl)
  step-Flows i (time_out j) bus next d e =
      kept-Flows i next.subscriptions bus (rw (expire-ExpireDone bus next j e).next_lem refl)
  step-Flows i (answer j) bus next d e =
      kept-Flows i next.subscriptions bus (rw (conclude-ConcludeDone bus next j e).next_lem refl)

  -- Over any run in which no stop comes to its end and the subscription is not removed, whatever else
  -- runs in whatever order, what its queue held and then accepted is what its dispatchers called the
  -- handler with followed by what its queue holds: in the same order, nothing lost, nothing twice.
  pub run_fifo :
      (i : ℕ) (cs : List (Command P E)) (bus next : Bus P E)
      → All (λ c. drops i c ≡ false) cs
      → run cs bus ≡ some next
      → queue_at bus.subscriptions i ++ accepted i cs bus
        ≡ delivered i cs bus ++ queue_at next.subscriptions i
  unfolding run accepted delivered
  run_fifo i [] bus next h e =
      append-nil _ ∙ ap (λ (b : Bus P E). queue_at b.subscriptions i) (some-injective _ _ e)
  run_fifo i (c ∷ cs) bus next (hc, h) e = elim (Option-cases (step c bus)) [
    | inl stuck ↦ cc (rw (stuck, run) at e)
    | inr (mid, done) ↦
        rw (accepted, delivered, done)
          (sym (append_assoc (queue_at bus.subscriptions i) (puts i c bus) (accepted i cs mid))
            ∙ ap (λ (q : List (Message P)). q ++ accepted i cs mid) (step-Flows i c bus mid hc done)
            ∙ append_assoc (takes i c mid) (queue_at mid.subscriptions i) (accepted i cs mid)
            ∙ ap (λ (q : List (Message P)). takes i c mid ++ q)
                (run_fifo i cs mid next h (rw (done, run) at e))
            ∙ sym
                (append_assoc (takes i c mid) (delivered i cs mid) (queue_at next.subscriptions i)))
  ]
