-- ===== src/Bus/Step/FirstWins.antt =====
-- A resolved future, whatever runs after it.
use mathlib.Core.Path.{subst}
use mathlib.Core.Option.{some-injective}
use Prim.Native.String.{String}
use stocktaking.Prelude.{
  ℕ, ◌≡◌, refl, sym, ◌∙◌, inl, inr, Bool, true, false, some, Option-cases, List, [], ◌∷◌, map,
  arith, get_elem?, modify, Bool-cases, ◌==◌, ==→eq, get_elem?-map, get_elem?-snoc,
  get_elem?-modify, get_elem?-modify_ne,
}
use stocktaking.Prelude.Outcome.{ok, err}
use stocktaking.Bus.Message.{Message, Result}
use stocktaking.Bus.Subscription.{Subscription}
use stocktaking.Bus.State.{
  Bus, Stop, after_stop, Request, Future, pending, is_pending, fail_pending, start, stop, subscribe,
  unsubscribe, publish, request,
}
use stocktaking.Bus.Step.{
  Command, start_bus, stop_bus, subscribe_to, unsubscribe_from, put, take, end_task, stop_done,
  publish_on, request_on, finish, time_out, answer, attempt, Reaction, resolution, resolve, react,
  expire, conclude, step, run,
}
use stocktaking.Bus.Step.Parts.{
  put_next-PutDone, take_next-TakeDone, end_next-tasks, stop_next-StopDone, finish_next-FinishDone,
  expire-ExpireDone, conclude-ConcludeDone,
}

module _ {P E : Type 0} (j : ℕ) (f : Future P E) where
  -- The request at the position has this future.
  abbrev pub Has : List (Request P E) → Type 0
  Has rs = (r : Request P E) × (get_elem? rs j ≡ some r) × (r.future ≡ f)

  map-Has :
      (g : Request P E → Request P E) (rs : List (Request P E))
      → ((r : Request P E) → r.future ≡ f → (g r).future ≡ f)
      → Has rs
      → Has (map g rs)
  map-Has g rs keep (r, found, e) = (g r, get_elem?-map g rs j found, keep r e)

  modify-Has :
      (g : Request P E → Request P E) (rs : List (Request P E)) (i : ℕ)
      → ((r : Request P E) → get_elem? rs i ≡ some r → r.future ≡ f → (g r).future ≡ f)
      → Has rs
      → Has (modify rs i g)
  modify-Has g rs i keep (r, found, e) = elim (Bool-cases (i == j)) [
    | inl same ↦
        let at = rw (← ==→eq i j same) at found in
        (g r, rw (← ==→eq i j same) (get_elem?-modify rs i g at), keep r at e)
    | inr other ↦ (r, get_elem?-modify_ne rs i j g (λ h. ground (arith, other, h)) ∙ found, e)
  ]

  module _ (settled : is_pending f ≡ false) where
    react-Has :
        (s : Subscription P) (m : Message P) (reaction : Reaction P E) (bus : Bus P E)
        → Has bus.requests
        → Has (react s m reaction bus)
    unfolding react resolve
    react-Has s m reaction bus h = elim (Bool-cases s.is_request_handler) [
      | inr off ↦ rw off h
      | inl on ↦ elim (Option-cases (resolution s m bus.next_id reaction)) [
        | inl nothing ↦ rw (nothing, on) h
        | inr (g, found) ↦
            rw (found, on)
              (map-Has (resolve m.message_id g) bus.requests (λ r e. ground (arith, settled, e)) h)
      ]
    ]

    start-Has : (bus : Bus P E) → Has bus.requests → Has (start bus).requests
    unfolding start
    start-Has bus h = elim (Bool-cases bus.running) [ inl on ↦ rw on h | inr off ↦ rw off h ]

    stop-Has : (bus : Bus P E) → Has bus.requests → Has (stop bus).requests
    unfolding stop
    stop-Has bus h = elim (Bool-cases bus.running) [ inl on ↦ rw on h | inr off ↦ rw off h ]

    after_stop-Has :
        (n : ℕ) (call : Stop) (bus : Bus P E)
        → Has bus.requests
        → Has (after_stop n call bus).requests
    unfolding after_stop
    after_stop-Has n call bus h =
        map-Has fail_pending bus.requests (λ r e. ground (arith, settled, e)) h

    unsubscribe-Has : (i : ℕ) (bus : Bus P E) → Has bus.requests → Has (unsubscribe i bus).requests
    unfolding unsubscribe
    unsubscribe-Has i bus h = ground (arith, h)

    subscribe-Has :
        (t : String) (k : Bool) (s : String) (bus next : Bus P E)
        → Has bus.requests
        → subscribe t k s bus ≡ ok next
        → Has next.requests
    unfolding subscribe
    subscribe-Has t k s bus next h e = ground (arith, h, e)

    publish-Has :
        (t : String) (p : P) (s : String) (bus next : Bus P E)
        → Has bus.requests
        → publish t p s bus ≡ ok next
        → Has next.requests
    unfolding publish
    publish-Has t p s bus next h e = ground (arith, h, e)

    request-Has :
        (t : String) (p : P) (s : String) (w : Bool) (bus next : Bus P E)
        → Has bus.requests
        → request t p s w bus ≡ ok next
        → Has next.requests
    unfolding request
    request-Has t p s w bus next (r, found, h) e = (
      r,
      ground (
        arith,
        found,
        e,
        get_elem?-snoc bus.requests
            (record { message_id = bus.next_id; future = pending; timed = w; listed = true }) j
            found,
      ),
      h,
    )

    attempt-Has :
        (o : Result (Bus P E)) (bus next : Bus P E)
        → Has bus.requests
        → ((b : Bus P E) → o ≡ ok b → Has b.requests)
        → attempt o bus ≡ some next
        → Has next.requests
    attempt-Has (ok b) bus next k h e =
        subst (λ (x : Bus P E). Has x.requests) (some-injective _ _ e) (h b refl)
    attempt-Has (err x) bus next k h e =
        subst (λ (x : Bus P E). Has x.requests) (some-injective _ _ e) k

    expire-Has :
        (i : ℕ) (bus next : Bus P E)
        → Has bus.requests
        → expire i bus ≡ some next
        → Has next.requests
    expire-Has i bus next h e =
        let done = expire-ExpireDone bus next i e in
        rw done.next_lem (
          modify-Has _ bus.requests i
            (λ r at k. cc (some-injective _ _ (sym at ∙ done.found), k, settled, done.open_lem)) h)

    conclude-Has :
        (i : ℕ) (bus next : Bus P E)
        → Has bus.requests
        → conclude i bus ≡ some next
        → Has next.requests
    conclude-Has i bus next h e =
        rw (conclude-ConcludeDone bus next i e).next_lem
          (modify-Has _ bus.requests i (λ r at k. k) h)

    step-Has :
        (c : Command P E) (bus next : Bus P E)
        → Has bus.requests
        → step c bus ≡ some next
        → Has next.requests
    unfolding step
    step-Has start_bus bus next h e =
        subst (λ (x : Bus P E). Has x.requests) (some-injective _ _ e) (start-Has bus h)
    step-Has stop_bus bus next h e =
        subst (λ (x : Bus P E). Has x.requests) (some-injective _ _ e) (stop-Has bus h)
    step-Has (unsubscribe_from i) bus next h e =
        subst (λ (x : Bus P E). Has x.requests) (some-injective _ _ e) (unsubscribe-Has i bus h)
    step-Has (subscribe_to t k s) bus next h e =
        attempt-Has (subscribe t k s bus) bus next h (λ b. subscribe-Has t k s bus b h) e
    step-Has (publish_on t p s) bus next h e =
        attempt-Has (publish t p s bus) bus next h (λ b. publish-Has t p s bus b h) e
    step-Has (request_on t p s w) bus next h e =
        attempt-Has (request t p s w bus) bus next h (λ b. request-Has t p s w bus b h) e
    step-Has (put i) bus next h e = rw (put_next-PutDone bus next i e).next_lem h
    step-Has (take i) bus next h e = rw (take_next-TakeDone bus next i e).next_lem h
    step-Has (end_task k) bus next h e = rw (end_next-tasks bus next k e).1 h
    step-Has (stop_done n) bus next h e =
        let done = stop_next-StopDone bus next n e in
        rw done.next_lem (after_stop-Has n done.call bus h)
    step-Has (finish i r) bus next h e =
        let done = finish_next-FinishDone bus next i r e in
        rw done.next_lem (react-Has done.s done.m r bus h)
    step-Has (time_out i) bus next h e = expire-Has i bus next h e
    step-Has (answer i) bus next h e = conclude-Has i bus next h e

    run-Has :
        (cs : List (Command P E)) (bus next : Bus P E)
        → Has bus.requests
        → run cs bus ≡ some next
        → Has next.requests
    unfolding run
    run-Has [] bus next h e = subst (λ (x : Bus P E). Has x.requests) (some-injective _ _ e) h
    run-Has (c ∷ cs) bus next h e = elim (Option-cases (step c bus)) [
      | inl stuck ↦ cc (rw (stuck, run) at e)
      | inr (mid, done) ↦ run-Has cs mid next (step-Has c bus mid h done) (rw (done, run) at e)
    ]

-- The first resolution wins: once the future of a request is resolved, by a reply, a failure, a
-- timeout or the end of the bus, it keeps that result, whatever runs after it.
pub first_resolution_wins :
    {P E : Type 0} (cs : List (Command P E)) (bus next : Bus P E) (j : ℕ) (r : Request P E)
    → get_elem? bus.requests j ≡ some r
    → is_pending r.future ≡ false
    → run cs bus ≡ some next
    → (later : Request P E) × (get_elem? next.requests j ≡ some later) × (later.future ≡ r.future)
first_resolution_wins cs bus next j r found settled e =
    run-Has j r.future settled cs bus next (r, found, refl) e
