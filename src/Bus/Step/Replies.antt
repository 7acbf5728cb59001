-- ===== src/Bus/Step/Replies.antt =====
-- The futures of requests, whatever runs in whatever order.
use Prim.Native.String.{String}
use mathlib.Core.Path.{subst}
use mathlib.Core.Option.{some-injective}
use stocktaking.Prelude.{
  ℕ, ◌≡◌, refl, sym, ◌∙◌, ◌⊎◌, inl, inr, Bool, true, false, not, ◌||◌, some, Option-cases, arith,
  All, List, [], ◌∷◌, ◌++◌, any, modify, All-mapped, All-kept, All-snoc, All-modify, Bool-cases,
}
use stocktaking.Prelude.Int.{ℤ}
use stocktaking.Prelude.Outcome.{ok, err}
use stocktaking.Bus.Message.{Message, Result}
use stocktaking.Bus.Subscription.{Subscription}
use stocktaking.Bus.State.{
  Bus, Stop, Request, Future, pending, is_pending, fail_pending, start, stop, after_stop,
  dispatchers_of, listed_from, subscribe, unsubscribe, publish, request,
}
use stocktaking.Bus.Step.{
  Command, start_bus, stop_bus, subscribe_to, unsubscribe_from, put, take, end_task, stop_done,
  publish_on, request_on, finish, time_out, answer, attempt, Reaction, resolution, resolve, react,
  expire, conclude, step, Reachable, created, stepped,
}
use stocktaking.Bus.Step.Parts.{
  put_next-PutDone, take_next-TakeDone, end_next-tasks, stop_next-StopDone, finish_next-FinishDone,
  expire-ExpireDone, conclude-ConcludeDone,
}

any-snoc_stop :
    (calls : List Stop) (c : Stop)
    → c.over ≡ false
    → any (λ (x : Stop). not x.over) (calls ++ c ∷ []) ≡ true
any-snoc_stop [] c e = ground (arith, e)
any-snoc_stop (x ∷ calls) c e = ground (arith, any-snoc_stop calls c e)

module _ {P E : Type 0} where
  -- a call of `stop` that has not returned
  abbrev pub is_stopping : Bus P E → Bool
  is_stopping bus = any (λ (c : Stop). not c.over) bus.stops

  abbrev is_open : Bus P E → Bool
  is_open bus = bus.running || is_stopping bus

  -- A request that is not answered is registered, and the bus runs or a `stop` has not returned.
  abbrev IsLive : Bool → Request P E → Type 0
  IsLive running r = (is_pending r.future ≡ false) ⊎ ((r.listed ≡ true) × (running ≡ true))

  abbrev AllLive : Bus P E → Type 0
  AllLive bus = All (IsLive (is_open bus)) bus.requests

  stop-IsLive :
      (running : Bool) (r : Request P E) → IsLive running r → IsLive false (fail_pending r)
  stop-IsLive running r k = ground (arith, k)

  closed-IsLive : (b : Bool) (r : Request P E) → IsLive false r → IsLive b r
  closed-IsLive b r k = ground (arith, k)

  wider-IsLive : (a : Bool) (r : Request P E) → IsLive a r → IsLive true r
  wider-IsLive a r k = ground (arith, k)

  resolve-IsLive :
      (running : Bool) (id : ℕ) (f : Future P E) (r : Request P E)
      → IsLive running r
      → IsLive running (resolve id f r)
  unfolding resolve
  resolve-IsLive running id f r k = ground (arith, k)

  react-AllLive :
      (s : Subscription P) (m : Message P) (reaction : Reaction P E) (bus : Bus P E)
      → AllLive bus
      → All (IsLive (is_open bus)) (react s m reaction bus)
  unfolding react
  react-AllLive s m reaction bus k = elim (Bool-cases s.is_request_handler) [
    | inr off ↦ rw off k
    | inl on ↦ elim (Option-cases (resolution s m bus.next_id reaction)) [
      | inl nothing ↦ rw (nothing, on) k
      | inr (f, found) ↦
          rw (found, on)
            (All-mapped (IsLive (is_open bus)) (IsLive (is_open bus)) (resolve m.message_id f)
              (resolve-IsLive (is_open bus) m.message_id f) bus.requests k)
    ]
  ]

  start-AllLive : (bus : Bus P E) → AllLive bus → AllLive (start bus)
  unfolding start
  start-AllLive bus k = elim (Bool-cases bus.running) [
    | inl on ↦ rw on (rw on at k)
    | inr off ↦
        rw off (
          All-kept (IsLive (is_open bus)) (IsLive true) (wider-IsLive (is_open bus)) bus.requests k)
  ]

  stop-AllLive : (bus : Bus P E) → AllLive bus → AllLive (stop bus)
  unfolding stop
  stop-AllLive bus k = elim (Bool-cases bus.running) [
    | inl on ↦
        rw
          (
            on,
            any-snoc_stop bus.stops
                (record {
                  dispatchers = dispatchers_of bus.subscriptions;
                  subscriptions = listed_from 0 bus.subscriptions;
                  over = false;
                })
                refl,
          )
          (rw on at k)
    | inr off ↦ rw off (rw off at k)
  ]

  after_stop-AllLive :
      (n : ℕ) (call : Stop) (bus : Bus P E) → AllLive bus → AllLive (after_stop n call bus)
  unfolding after_stop
  after_stop-AllLive n call bus k =
      All-mapped (IsLive (is_open bus))
        (IsLive (
          bus.running
          || any (λ (c : Stop). not c.over) (modify bus.stops n (λ c. record c { over = true }))))
        fail_pending (λ r h. closed-IsLive _ (fail_pending r) (stop-IsLive (is_open bus) r h))
        bus.requests k

  unsubscribe-AllLive : (i : ℕ) (bus : Bus P E) → AllLive bus → AllLive (unsubscribe i bus)
  unfolding unsubscribe
  unsubscribe-AllLive i bus k = ground (arith, k)

  subscribe-AllLive :
      (t : String) (h : Bool) (s : String) (bus next : Bus P E)
      → AllLive bus
      → subscribe t h s bus ≡ ok next
      → AllLive next
  unfolding subscribe
  subscribe-AllLive t h s bus next k e = ground (arith, k, e)

  publish-AllLive :
      (t : String) (p : P) (s : String) (bus next : Bus P E)
      → AllLive bus
      → publish t p s bus ≡ ok next
      → AllLive next
  unfolding publish
  publish-AllLive t p s bus next k e = ground (arith, k, e)

  request-AllLive :
      (t : String) (p : P) (s : String) (timed : Bool) (bus next : Bus P E)
      → AllLive bus
      → request t p s timed bus ≡ ok next
      → AllLive next
  unfolding request
  request-AllLive t p s timed bus next k e = ground (
    arith,
    k,
    e,
    All-snoc (IsLive (is_open bus)) bus.requests
        (record { message_id = bus.next_id; future = pending; timed = timed; listed = true }) k,
  )

  expire-AllLive :
      (j : ℕ) (bus next : Bus P E) → AllLive bus → expire j bus ≡ some next → AllLive next
  expire-AllLive j bus next k e =
      rw (expire-ExpireDone bus next j e).next_lem
        (All-modify (IsLive (is_open bus)) bus.requests j _ k (λ x _ _. inl refl))

  conclude-AllLive :
      (j : ℕ) (bus next : Bus P E) → AllLive bus → conclude j bus ≡ some next → AllLive next
  conclude-AllLive j bus next k e =
      let done = conclude-ConcludeDone bus next j e in
      rw done.next_lem (
        All-modify (IsLive (is_open bus)) bus.requests j _ k
          (λ x at _. inl (rw (some-injective _ _ (sym at ∙ done.found)) done.done_lem)))

  attempt-AllLive :
      (r : Result (Bus P E)) (bus next : Bus P E)
      → AllLive bus
      → ((b : Bus P E) → r ≡ ok b → AllLive b)
      → attempt r bus ≡ some next
      → AllLive next
  attempt-AllLive (ok b) bus next k h e = subst AllLive (some-injective _ _ e) (h b refl)
  attempt-AllLive (err x) bus next k h e = subst AllLive (some-injective _ _ e) k

  step-AllLive :
      (c : Command P E) (bus next : Bus P E) → AllLive bus → step c bus ≡ some next → AllLive next
  unfolding step
  step-AllLive start_bus bus next k e = subst AllLive (some-injective _ _ e) (start-AllLive bus k)
  step-AllLive stop_bus bus next k e = subst AllLive (some-injective _ _ e) (stop-AllLive bus k)
  step-AllLive (unsubscribe_from i) bus next k e =
      subst AllLive (some-injective _ _ e) (unsubscribe-AllLive i bus k)
  step-AllLive (subscribe_to t h s) bus next k e =
      attempt-AllLive (subscribe t h s bus) bus next k (λ b. subscribe-AllLive t h s bus b k) e
  step-AllLive (publish_on t p s) bus next k e =
      attempt-AllLive (publish t p s bus) bus next k (λ b. publish-AllLive t p s bus b k) e
  step-AllLive (request_on t p s d) bus next k e =
      attempt-AllLive (request t p s d bus) bus next k (λ b. request-AllLive t p s d bus b k) e
  step-AllLive (put i) bus next k e = rw (put_next-PutDone bus next i e).next_lem k
  step-AllLive (take i) bus next k e = rw (take_next-TakeDone bus next i e).next_lem k
  step-AllLive (end_task i) bus next k e = rw (end_next-tasks bus next i e).1 k
  step-AllLive (stop_done n) bus next k e =
      let done = stop_next-StopDone bus next n e in
      rw done.next_lem (after_stop-AllLive n done.call bus k)
  step-AllLive (finish i r) bus next k e =
      let done = finish_next-FinishDone bus next i r e in
      rw done.next_lem (react-AllLive done.s done.m r bus k)
  step-AllLive (time_out j) bus next k e = expire-AllLive j bus next k e
  step-AllLive (answer j) bus next k e = conclude-AllLive j bus next k e

  Reachable-AllLive : (size : ℤ) (bus : Bus P E) → Reachable size bus → AllLive bus
  Reachable-AllLive size bus created = tt
  Reachable-AllLive size bus (stepped {bus = before} c r e) =
      step-AllLive c before bus (Reachable-AllLive size before r) e

  -- Whatever has run before, a bus that does not run and on which every call of `stop` has returned
  -- has no request that waits for a reply: every future is resolved.
  pub stopped_resolved :
      (size : ℤ) (bus : Bus P E)
      → Reachable size bus
      → bus.running ≡ false
      → is_stopping bus ≡ false
      → All (λ r. is_pending r.future ≡ false) bus.requests
  stopped_resolved size bus r off over =
      All-kept (IsLive (is_open bus)) (λ r. is_pending r.future ≡ false)
        (λ x h. ground (arith, h, off, over)) bus.requests (Reachable-AllLive size bus r)
