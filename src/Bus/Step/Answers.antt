-- ===== src/Bus/Step/Answers.antt =====
-- What a request is answered with.
use Prim.Native.String.{String}
use mathlib.Core.Path.{subst}
use mathlib.Core.Option.{some-injective}
use stocktaking.Prelude.{
  ℕ, ◌≡◌, refl, inl, inr, Bool, true, ◌&&◌, none, some, Option-cases, arith, All, All-mapped,
  All-snoc, All-modify, Bool-cases, ◌==◌,
}
use stocktaking.Prelude.Int.{ℤ}
use stocktaking.Prelude.Outcome.{ok, err}
use stocktaking.Bus.Message.{Message, Result}
use stocktaking.Bus.Subscription.{Subscription}
use stocktaking.Bus.State.{
  Bus, Stop, after_stop, Request, Future, pending, timed_out, bus_stopped, replied, handler_failed,
  is_pending, fail_pending, start, stop, subscribe, unsubscribe, publish, request,
}
use stocktaking.Bus.Step.{
  Command, start_bus, stop_bus, subscribe_to, unsubscribe_from, put, take, end_task, stop_done,
  publish_on, request_on, finish, time_out, answer, attempt, Reaction, returned, raised, resolution,
  resolve, react, step, Reachable, created, stepped,
}
use stocktaking.Bus.Step.Parts.{
  put_next-PutDone, take_next-TakeDone, end_next-tasks, stop_next-StopDone, finish_next-FinishDone,
  expire-ExpireDone, conclude-ConcludeDone,
}

module _ {P E : Type 0} where
  -- A reply refers to the request; every other result says nothing of a reply.
  unfoldable pub IsAnswer : ℕ → Future P E → Type 0
  IsAnswer id (replied m) = m.reply_to ≡ some id
  IsAnswer id pending = Unit
  IsAnswer id bus_stopped = Unit
  IsAnswer id timed_out = Unit
  IsAnswer id (handler_failed e) = Unit

  abbrev pub Matches : Request P E → Type 0
  Matches r = IsAnswer r.message_id r.future

  abbrev pub AllMatch : Bus P E → Type 0
  AllMatch bus = All Matches bus.requests

  fail-Matches : (r : Request P E) → Matches r → Matches (fail_pending r)
  unfolding IsAnswer
  fail-Matches r h = elim (Bool-cases (r.listed && is_pending r.future)) [
    | inl on ↦ rw on tt
    | inr off ↦ rw off h
  ]

  resolution-IsAnswer :
      (s : Subscription P) (m : Message P) (id : ℕ) (reaction : Reaction P E) (f : Future P E)
      → resolution s m id reaction ≡ some f
      → IsAnswer m.message_id f
  unfolding resolution IsAnswer
  resolution-IsAnswer s m id (returned none) f e = cc
  resolution-IsAnswer s m id (returned (some p)) f e =
      subst (IsAnswer m.message_id) (some-injective _ _ e) refl
  resolution-IsAnswer s m id (raised x) f e =
      subst (IsAnswer m.message_id) (some-injective _ _ e) tt

  resolve-Matches :
      (id : ℕ) (f : Future P E) (r : Request P E)
      → IsAnswer id f
      → Matches r
      → Matches (resolve id f r)
  unfolding resolve
  resolve-Matches id f r a h =
      elim (Bool-cases (r.listed && r.message_id == id && is_pending r.future)) [
        | inr off ↦ rw off h
        | inl on ↦ rw on (subst (λ (i : ℕ). IsAnswer i f) (ground (arith, on)) a)
      ]

  react-AllMatch :
      (s : Subscription P) (m : Message P) (reaction : Reaction P E) (bus : Bus P E)
      → AllMatch bus
      → All Matches (react s m reaction bus)
  unfolding react
  react-AllMatch s m reaction bus k = elim (Bool-cases s.is_request_handler) [
    | inr off ↦ rw off k
    | inl on ↦ elim (Option-cases (resolution s m bus.next_id reaction)) [
      | inl nothing ↦ rw (nothing, on) k
      | inr (f, found) ↦
          rw (found, on)
            (All-mapped Matches Matches (resolve m.message_id f)
              (λ r h.
                resolve-Matches m.message_id f r
                  (resolution-IsAnswer s m bus.next_id reaction f found) h)
              bus.requests k)
    ]
  ]

  start-AllMatch : (bus : Bus P E) → AllMatch bus → AllMatch (start bus)
  unfolding start
  start-AllMatch bus k = elim (Bool-cases bus.running) [ inl on ↦ rw on k | inr off ↦ rw off k ]

  stop-AllMatch : (bus : Bus P E) → AllMatch bus → AllMatch (stop bus)
  unfolding stop
  stop-AllMatch bus k = elim (Bool-cases bus.running) [ inl on ↦ rw on k | inr off ↦ rw off k ]

  after_stop-AllMatch :
      (n : ℕ) (call : Stop) (bus : Bus P E) → AllMatch bus → AllMatch (after_stop n call bus)
  unfolding after_stop
  after_stop-AllMatch n call bus k =
      All-mapped Matches Matches fail_pending fail-Matches bus.requests k

  unsubscribe-AllMatch : (i : ℕ) (bus : Bus P E) → AllMatch bus → AllMatch (unsubscribe i bus)
  unfolding unsubscribe
  unsubscribe-AllMatch i bus k = ground (arith, k)

  subscribe-AllMatch :
      (t : String) (h : Bool) (s : String) (bus next : Bus P E)
      → AllMatch bus
      → subscribe t h s bus ≡ ok next
      → AllMatch next
  unfolding subscribe
  subscribe-AllMatch t h s bus next k e = ground (arith, k, e)

  publish-AllMatch :
      (t : String) (p : P) (s : String) (bus next : Bus P E)
      → AllMatch bus
      → publish t p s bus ≡ ok next
      → AllMatch next
  unfolding publish
  publish-AllMatch t p s bus next k e = ground (arith, k, e)

  request-AllMatch :
      (t : String) (p : P) (s : String) (timed : Bool) (bus next : Bus P E)
      → AllMatch bus
      → request t p s timed bus ≡ ok next
      → AllMatch next
  unfolding request
  request-AllMatch t p s timed bus next k e = ground (
    arith,
    k,
    e,
    All-snoc Matches bus.requests
        (record { message_id = bus.next_id; future = pending; timed = timed; listed = true }) k
        (unfold IsAnswer in tt),
  )

  attempt-AllMatch :
      (r : Result (Bus P E)) (bus next : Bus P E)
      → AllMatch bus
      → ((b : Bus P E) → r ≡ ok b → AllMatch b)
      → attempt r bus ≡ some next
      → AllMatch next
  attempt-AllMatch (ok b) bus next k h e = subst AllMatch (some-injective _ _ e) (h b refl)
  attempt-AllMatch (err x) bus next k h e = subst AllMatch (some-injective _ _ e) k

  step-AllMatch :
      (c : Command P E) (bus next : Bus P E) → AllMatch bus → step c bus ≡ some next → AllMatch next
  unfolding step
  step-AllMatch start_bus bus next k e =
      subst AllMatch (some-injective _ _ e) (start-AllMatch bus k)
  step-AllMatch stop_bus bus next k e = subst AllMatch (some-injective _ _ e) (stop-AllMatch bus k)
  step-AllMatch (unsubscribe_from i) bus next k e =
      subst AllMatch (some-injective _ _ e) (unsubscribe-AllMatch i bus k)
  step-AllMatch (subscribe_to t h s) bus next k e =
      attempt-AllMatch (subscribe t h s bus) bus next k (λ b. subscribe-AllMatch t h s bus b k) e
  step-AllMatch (publish_on t p s) bus next k e =
      attempt-AllMatch (publish t p s bus) bus next k (λ b. publish-AllMatch t p s bus b k) e
  step-AllMatch (request_on t p s d) bus next k e =
      attempt-AllMatch (request t p s d bus) bus next k (λ b. request-AllMatch t p s d bus b k) e
  step-AllMatch (put i) bus next k e = rw (put_next-PutDone bus next i e).next_lem k
  step-AllMatch (take i) bus next k e = rw (take_next-TakeDone bus next i e).next_lem k
  step-AllMatch (end_task i) bus next k e = rw (end_next-tasks bus next i e).1 k
  step-AllMatch (stop_done n) bus next k e =
      let done = stop_next-StopDone bus next n e in
      rw done.next_lem (after_stop-AllMatch n done.call bus k)
  step-AllMatch (finish i r) bus next k e =
      let done = finish_next-FinishDone bus next i r e in
      rw done.next_lem (react-AllMatch done.s done.m r bus k)
  step-AllMatch (time_out j) bus next k e =
      rw (expire-ExpireDone bus next j e).next_lem
        (All-modify Matches bus.requests j _ k (λ x _ _. unfold IsAnswer in tt))
  step-AllMatch (answer j) bus next k e =
      rw (conclude-ConcludeDone bus next j e).next_lem
        (All-modify Matches bus.requests j _ k (λ x _ h. h))

  -- Whatever runs in whatever order, a reply that a request gets is a reply to that request.
  pub Reachable-AllMatch : (size : ℤ) (bus : Bus P E) → Reachable size bus → AllMatch bus
  Reachable-AllMatch size bus created = tt
  Reachable-AllMatch size bus (stepped {bus = before} c r e) =
      step-AllMatch c before bus (Reachable-AllMatch size before r) e
