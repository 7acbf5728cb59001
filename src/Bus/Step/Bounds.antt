-- ===== src/Bus/Step/Bounds.antt =====
-- What holds of every subscription, whatever runs in whatever order.
pub mod Kept
use Prim.Native.String.{String}
use mathlib.Core.Path.{subst}
use mathlib.Core.Option.{some-injective}
use stocktaking.Prelude.{
  ℕ, zero, suc, ◌≤◌, ◌≡◌, refl, sym, ◌∙◌, ◌⊎◌, inl, inr, Bool, true, false, ◌&&◌, some, List, [],
  ◌∷◌, ◌++◌, arith, All, All-mapped, All-snoc, All-modify, length, Bool-cases, if◌then◌else◌,
}
use stocktaking.Prelude.Int.{ℤ, pos, negsuc}
use stocktaking.Prelude.Outcome.{ok, err}
use stocktaking.Bus.Message.{Message, Result}
use stocktaking.Bus.Subscription.{Subscription, warn_threshold, is_full, accept, serve, clear}
use stocktaking.Bus.State.{
  Bus, Stop, new_subscription, start, stop, after_stop, subscribe, unsubscribe, publish, request,
}
use stocktaking.Bus.Step.{
  Command, start_bus, stop_bus, subscribe_to, unsubscribe_from, put, take, end_task, stop_done,
  publish_on, request_on, finish, time_out, answer, attempt, Reaction, put_next, take_next,
  finish_next, expire, conclude, step, Reachable, created, stepped,
}
use stocktaking.Bus.Step.Parts.{
  put_next-PutDone, take_next-TakeDone, end_next-tasks, stop_next-StopDone, finish_next-FinishDone,
}
use stocktaking.Bus.Step.Bounds.Kept.{
  IsKept, ensure_all-AllKept, accept-IsKept, serve-IsKept, clear-IsKept, clear_all-AllKept,
  new_subscription-IsKept,
}

module _ {P E : Type 0} where
  abbrev pub AllKept : ℤ → Bus P E → Type 0
  AllKept size bus = (bus.max_queue_size ≡ size) × All (IsKept size) bus.subscriptions

  start-AllKept : (size : ℤ) (bus : Bus P E) → AllKept size bus → AllKept size (start bus)
  unfolding start
  start-AllKept size bus (e, k) = elim (Bool-cases bus.running) [
    | inl on ↦ rw on (e, k)
    | inr off ↦ rw off (e, ensure_all-AllKept size 0 bus.subscriptions bus.tasks k)
  ]

  stop-AllKept : (size : ℤ) (bus : Bus P E) → AllKept size bus → AllKept size (stop bus)
  unfolding stop
  stop-AllKept size bus k = elim (Bool-cases bus.running) [ inl on ↦ rw on k | inr off ↦ rw off k ]

  after_stop-AllKept :
      (size : ℤ) (n : ℕ) (call : Stop) (bus : Bus P E)
      → AllKept size bus
      → AllKept size (after_stop n call bus)
  unfolding after_stop
  after_stop-AllKept size n call bus (e, k) =
      (e, clear_all-AllKept size call.subscriptions bus.subscriptions k)

  subscribe-AllKept :
      (size : ℤ) (topic : String) (h : Bool) (sender : String) (bus next : Bus P E)
      → AllKept size bus
      → subscribe topic h sender bus ≡ ok next
      → AllKept size next
  unfolding subscribe
  subscribe-AllKept size topic h sender bus next (e, k) f = ground (
    arith,
    e,
    f,
    All-snoc (IsKept size) bus.subscriptions (new_subscription topic h sender bus).0 k
        (new_subscription-IsKept size topic h sender bus),
  )

  unsubscribe-AllKept :
      (size : ℤ) (i : ℕ) (bus : Bus P E) → AllKept size bus → AllKept size (unsubscribe i bus)
  unfolding unsubscribe
  unsubscribe-AllKept size i bus (e, k) =
      let cleared =
        All-modify (IsKept size) bus.subscriptions i (λ s. record (clear s) { listed = false }) k
          (λ s _ h. clear-IsKept size s h) in
      ground (arith, e, k, cleared)

  publish-AllKept :
      (size : ℤ) (topic : String) (p : P) (sender : String) (bus next : Bus P E)
      → AllKept size bus
      → publish topic p sender bus ≡ ok next
      → AllKept size next
  unfolding publish
  publish-AllKept size topic p sender bus next k f = ground (arith, k, f)

  request-AllKept :
      (size : ℤ) (topic : String) (p : P) (sender : String) (timed : Bool) (bus next : Bus P E)
      → AllKept size bus
      → request topic p sender timed bus ≡ ok next
      → AllKept size next
  unfolding request
  request-AllKept size topic p sender timed bus next k f = ground (arith, k, f)

  put-AllKept :
      (size : ℤ) (k : ℕ) (bus next : Bus P E)
      → AllKept size bus
      → put_next k bus ≡ some next
      → AllKept size next
  put-AllKept size k bus next (e, h) f =
      let done = put_next-PutDone bus next k f in
      rw done.next_lem (
        e,
        rw e (
            All-modify (IsKept size) bus.subscriptions done.i _ h (λ s at.
              accept-IsKept size done.route.message s
                (rw (← e, some-injective _ _ (sym at ∙ done.found)) done.free))),
      )

  take-AllKept :
      (size : ℤ) (i : ℕ) (bus next : Bus P E)
      → AllKept size bus
      → take_next i bus ≡ some next
      → AllKept size next
  take-AllKept size i bus next (e, h) f =
      let done = take_next-TakeDone bus next i f in
      rw done.next_lem (
        e,
        rw e (
            All-modify (IsKept size) bus.subscriptions done.t.subscription _ h (λ s at.
              serve-IsKept size done.m done.rest s
                (rw (some-injective _ _ (sym at ∙ done.found)) done.queue_lem))),
      )

  finish-AllKept :
      (size : ℤ) (i : ℕ) (reaction : Reaction P E) (bus next : Bus P E)
      → AllKept size bus
      → finish_next i reaction bus ≡ some next
      → AllKept size next
  finish-AllKept size i reaction bus next k f =
      rw (finish_next-FinishDone bus next i reaction f).next_lem k

  expire-AllKept :
      (size : ℤ) (j : ℕ) (bus next : Bus P E)
      → AllKept size bus
      → expire j bus ≡ some next
      → AllKept size next
  unfolding expire
  expire-AllKept size j bus next k f = ground (arith, k, f)

  conclude-AllKept :
      (size : ℤ) (j : ℕ) (bus next : Bus P E)
      → AllKept size bus
      → conclude j bus ≡ some next
      → AllKept size next
  unfolding conclude
  conclude-AllKept size j bus next k f = ground (arith, k, f)

  attempt-AllKept :
      (size : ℤ) (r : Result (Bus P E)) (bus next : Bus P E)
      → AllKept size bus
      → ((b : Bus P E) → r ≡ ok b → AllKept size b)
      → attempt r bus ≡ some next
      → AllKept size next
  attempt-AllKept size (ok b) bus next k h e =
      subst (AllKept size) (some-injective _ _ e) (h b refl)
  attempt-AllKept size (err x) bus next k h e = subst (AllKept size) (some-injective _ _ e) k

  step-AllKept :
      (size : ℤ) (c : Command P E) (bus next : Bus P E)
      → AllKept size bus
      → step c bus ≡ some next
      → AllKept size next
  unfolding step
  step-AllKept size start_bus bus next k e =
      subst (AllKept size) (some-injective _ _ e) (start-AllKept size bus k)
  step-AllKept size stop_bus bus next k e =
      subst (AllKept size) (some-injective _ _ e) (stop-AllKept size bus k)
  step-AllKept size (unsubscribe_from i) bus next k e =
      subst (AllKept size) (some-injective _ _ e) (unsubscribe-AllKept size i bus k)
  step-AllKept size (subscribe_to t h s) bus next k e =
      attempt-AllKept size (subscribe t h s bus) bus next k
        (λ b. subscribe-AllKept size t h s bus b k) e
  step-AllKept size (publish_on t p s) bus next k e =
      attempt-AllKept size (publish t p s bus) bus next k (λ b. publish-AllKept size t p s bus b k)
        e
  step-AllKept size (request_on t p s d) bus next k e =
      attempt-AllKept size (request t p s d bus) bus next k
        (λ b. request-AllKept size t p s d bus b k) e
  step-AllKept size (put i) bus next k e = put-AllKept size i bus next k e
  step-AllKept size (take i) bus next k e = take-AllKept size i bus next k e
  step-AllKept size (end_task i) bus next k e = rw (end_next-tasks bus next i e).1 k
  step-AllKept size (stop_done n) bus next k e =
      let done = stop_next-StopDone bus next n e in
      rw done.next_lem (after_stop-AllKept size n done.call bus k)
  step-AllKept size (finish i r) bus next k e = finish-AllKept size i r bus next k e
  step-AllKept size (time_out j) bus next k e = expire-AllKept size j bus next k e
  step-AllKept size (answer j) bus next k e = conclude-AllKept size j bus next k e

  -- Whatever runs in whatever order, calls of stop and start that overlap included: no queue ever
  -- exceeds its size, and a queue at or above the threshold has its warning flag set.
  pub Reachable-AllKept : (size : ℤ) (bus : Bus P E) → Reachable size bus → AllKept size bus
  Reachable-AllKept size bus created = (refl, tt)
  Reachable-AllKept size bus (stepped {bus = before} c r e) =
      step-AllKept size c before bus (Reachable-AllKept size before r) e
