-- ===== src/Bus/Step/Parts.antt =====
-- What a part of `_route` or of a dispatcher has done when it could run.
use mathlib.Core.Path.{subst}
use stocktaking.Prelude.Int.{ℤ}
use mathlib.Core.Option.{some-injective}
use stocktaking.Prelude.{
  ℕ, suc, ◌≡◌, refl, sym, ◌⊎◌, inl, inr, true, false, not, ◌&&◌, some, Option-cases, List, [], ◌∷◌,
  arith, any, get_elem?, modify, length, Bool-cases,
}
use stocktaking.Bus.Message.{Message}
use stocktaking.Bus.Subscription.{
  Subscription, Task, Dispatcher, waiting, serving, cancelled, ended, warn_threshold, is_full,
  is_live, accept, serve, hand_over, resume,
}
use stocktaking.Bus.State.{Bus, Stop, Route, Request, is_pending, timed_out, after_stop}
use stocktaking.Bus.Step.{
  Command, step, run, Reachable, stepped, Reaction, put_to, put_next, take_from, take_next,
  end_next, stop_next, react, finish_next, routed, expire, conclude,
}

pub List-cases :
    {A : Type 0} (xs : List A) → (xs ≡ []) ⊎ ((x : A) × (rest : List A) × (xs ≡ x ∷ rest))
List-cases [] = inl refl
List-cases (x ∷ rest) = inr (x, rest, refl)

pub Dispatcher-cases :
    {P : Type 0} (d : Dispatcher P)
    → (d ≡ waiting) ⊎ (d ≡ cancelled) ⊎ (d ≡ ended) ⊎ ((m : Message P) × (d ≡ serving m))
Dispatcher-cases waiting = inl refl
Dispatcher-cases cancelled = inr (inl refl)
Dispatcher-cases ended = inr (inr (inl refl))
Dispatcher-cases (serving m) = inr (inr (inr (m, refl)))

module _ {P E : Type 0} (bus next : Bus P E) where
  pub record PutDone (k : ℕ) : Type 0 where
    pub route : Route P
    pub i : ℕ
    pub rest : List ℕ
    pub s : Subscription P
    pub route_lem : get_elem? bus.routes k ≡ some route
    pub rest_lem : route.rest ≡ i ∷ rest
    pub found : get_elem? bus.subscriptions i ≡ some s
    pub free : is_full bus.max_queue_size (length s.queue) ≡ false
    pub next_lem : next ≡ record bus {
      subscriptions =
          modify bus.subscriptions i (accept (warn_threshold bus.max_queue_size) route.message);
      routes = modify bus.routes k (λ r. record r { rest = rest });
    }

  pub record TakeDone (k : ℕ) : Type 0 where
    pub t : Task P
    pub s : Subscription P
    pub m : Message P
    pub rest : List (Message P)
    pub task_lem : get_elem? bus.tasks k ≡ some t
    pub found : get_elem? bus.subscriptions t.subscription ≡ some s
    pub queue_lem : s.queue ≡ m ∷ rest
    pub next_lem : next ≡ record bus {
      subscriptions =
          modify bus.subscriptions t.subscription (serve (warn_threshold bus.max_queue_size) rest);
      tasks = modify bus.tasks k (hand_over m);
    }

  pub record FinishDone (k : ℕ) (reaction : Reaction P E) : Type 0 where
    pub s : Subscription P
    pub m : Message P
    pub next_lem : next ≡ record bus {
      tasks = modify bus.tasks k resume;
      requests = react s m reaction bus;
      next_id = suc bus.next_id;
    }

  pub record StopDone (n : ℕ) : Type 0 where
    pub call : Stop
    pub next_lem : next ≡ after_stop n call bus

  pub record ExpireDone (j : ℕ) : Type 0 where
    pub r : Request P E
    pub found : get_elem? bus.requests j ≡ some r
    pub open_lem : is_pending r.future ≡ true
    pub next_lem : next ≡ record bus {
      requests = modify bus.requests j (λ r. record r { future = timed_out; listed = false });
    }

  pub record ConcludeDone (j : ℕ) : Type 0 where
    pub r : Request P E
    pub found : get_elem? bus.requests j ≡ some r
    pub done_lem : is_pending r.future ≡ false
    pub next_lem :
        next ≡ record bus { requests = modify bus.requests j (λ r. record r { listed = false }) }

  pub put_next-PutDone : (k : ℕ) → put_next k bus ≡ some next → PutDone k
  unfolding put_next put_to
  put_next-PutDone k e = elim (Option-cases (get_elem? bus.routes k)) [
    | inl gone ↦ cc (rw (gone, put_next) at e)
    | inr (r, route_lem) ↦ elim (List-cases r.rest) [
      | inl over ↦ cc (rw (route_lem, over, put_next) at e)
      | inr (i, rest, rest_lem) ↦ elim (Option-cases (get_elem? bus.subscriptions i)) [
        | inl gone ↦ cc (rw (route_lem, rest_lem, put_next, put_to, gone) at e)
        | inr (s, found) ↦ elim (Bool-cases (is_full bus.max_queue_size (length s.queue))) [
          | inl full ↦ cc (rw (route_lem, rest_lem, put_next, put_to, found, full) at e)
          | inr free ↦ record {
            route = r;
            i = i;
            rest = rest;
            s = s;
            route_lem = route_lem;
            rest_lem = rest_lem;
            found = found;
            free = free;
            next_lem =
                sym (
                  some-injective _ _
                    (rw (route_lem, rest_lem, put_next, put_to, found, free) at e));
          }
        ]
      ]
    ]
  ]

  take_from-cases :
      (k i : ℕ) (queue : List (Message P))
      → take_from k i queue bus ≡ some next
      → (m : Message P) × (rest : List (Message P)) × (queue ≡ m ∷ rest)
        × (next ≡ record bus {
          subscriptions =
              modify bus.subscriptions i (serve (warn_threshold bus.max_queue_size) rest);
          tasks = modify bus.tasks k (hand_over m);
        })
  unfolding take_from
  take_from-cases k i [] e = cc
  take_from-cases k i (m ∷ rest) e = (m, rest, refl, sym (some-injective _ _ e))

  pub take_next-TakeDone : (k : ℕ) → take_next k bus ≡ some next → TakeDone k
  unfolding take_next
  take_next-TakeDone k e = elim (Option-cases (get_elem? bus.tasks k)) [
    | inl gone ↦ cc (rw (gone, take_next) at e)
    | inr (t, task_lem) ↦ elim (Dispatcher-cases t.state) [
      | inr (inl over) ↦ cc (rw (task_lem, over, take_next) at e)
      | inr (inr (inl over)) ↦ cc (rw (task_lem, over, take_next) at e)
      | inr (inr (inr (m, busy))) ↦ cc (rw (task_lem, busy, take_next) at e)
      | inl waits ↦ elim (Option-cases (get_elem? bus.subscriptions t.subscription)) [
        | inl gone ↦ cc (rw (task_lem, waits, gone, take_next) at e)
        | inr (s, found) ↦
            let (m, rest, queue_lem, next_lem) =
              take_from-cases k t.subscription s.queue
                (rw (task_lem, waits, found, take_next) at e) in
            record {
              t = t;
              s = s;
              m = m;
              rest = rest;
              task_lem = task_lem;
              found = found;
              queue_lem = queue_lem;
              next_lem = next_lem;
            }
      ]
    ]
  ]

  pub end_next-tasks :
      (k : ℕ)
      → end_next k bus ≡ some next
      → (tasks : List (Task P)) × (next ≡ record bus { tasks = tasks })
  unfolding end_next
  end_next-tasks k e = elim (Option-cases (get_elem? bus.tasks k)) [
    | inl gone ↦ cc (rw (gone, end_next) at e)
    | inr (t, task_lem) ↦ elim (Dispatcher-cases t.state) [
      | inl waits ↦ cc (rw (task_lem, waits, end_next) at e)
      | inr (inr (inl over)) ↦ cc (rw (task_lem, over, end_next) at e)
      | inr (inr (inr (m, busy))) ↦ cc (rw (task_lem, busy, end_next) at e)
      | inr (inl stopped) ↦ (_, sym (some-injective _ _ (rw (task_lem, stopped, end_next) at e)))
    ]
  ]

  pub stop_next-StopDone : (n : ℕ) → stop_next n bus ≡ some next → StopDone n
  unfolding stop_next
  stop_next-StopDone n e = elim (Option-cases (get_elem? bus.stops n)) [
    | inl gone ↦ cc (rw (gone, stop_next) at e)
    | inr (call, found) ↦
        elim (Bool-cases
          (not call.over && not (any (λ k. is_live bus.tasks (some k)) call.dispatchers))) [
            | inr off ↦ cc (rw (found, stop_next, off) at e)
            | inl runs ↦ record {
              call = call;
              next_lem = sym (some-injective _ _ (rw (found, stop_next, runs) at e));
            }
          ]
  ]

  pub finish_next-FinishDone :
      (k : ℕ) (reaction : Reaction P E)
      → finish_next k reaction bus ≡ some next
      → FinishDone k reaction
  unfolding finish_next
  finish_next-FinishDone k reaction e = elim (Option-cases (get_elem? bus.tasks k)) [
    | inl gone ↦ cc (rw (gone, finish_next) at e)
    | inr (t, task_lem) ↦ elim (Dispatcher-cases t.state) [
      | inl waits ↦ cc (rw (task_lem, waits, finish_next) at e)
      | inr (inl over) ↦ cc (rw (task_lem, over, finish_next) at e)
      | inr (inr (inl over)) ↦ cc (rw (task_lem, over, finish_next) at e)
      | inr (inr (inr (m, serves))) ↦
          elim (Option-cases (get_elem? bus.subscriptions t.subscription)) [
            | inl gone ↦ cc (rw (task_lem, serves, gone, finish_next) at e)
            | inr (s, found) ↦ record {
              s = s;
              m = m;
              next_lem = sym (some-injective _ _ (rw (task_lem, serves, found, finish_next) at e));
            }
          ]
    ]
  ]

  pub expire-ExpireDone : (j : ℕ) → expire j bus ≡ some next → ExpireDone j
  unfolding expire
  expire-ExpireDone j e = elim (Option-cases (get_elem? bus.requests j)) [
    | inl gone ↦ cc (rw (gone, expire) at e)
    | inr (r, found) ↦
        elim (Bool-cases (r.timed && is_pending r.future && routed r.message_id bus)) [
          | inr off ↦ cc (rw (found, expire, off) at e)
          | inl runs ↦ record {
            r = r;
            found = found;
            open_lem = ground (arith, runs);
            next_lem = sym (some-injective _ _ (rw (found, expire, runs) at e));
          }
        ]
  ]

  pub conclude-ConcludeDone : (j : ℕ) → conclude j bus ≡ some next → ConcludeDone j
  unfolding conclude
  conclude-ConcludeDone j e = elim (Option-cases (get_elem? bus.requests j)) [
    | inl gone ↦ cc (rw (gone, conclude) at e)
    | inr (r, found) ↦ elim (Bool-cases (not (is_pending r.future) && routed r.message_id bus)) [
      | inr off ↦ cc (rw (found, conclude, off) at e)
      | inl runs ↦ record {
        r = r;
        found = found;
        done_lem = ground (arith, runs);
        next_lem = sym (some-injective _ _ (rw (found, conclude, runs) at e));
      }
    ]
  ]

-- A run leads from a reachable state to a reachable state.
pub run-Reachable :
    {P E : Type 0} (size : ℤ) (cs : List (Command P E)) (bus next : Bus P E)
    → Reachable size bus
    → run cs bus ≡ some next
    → Reachable size next
unfolding run
run-Reachable size [] bus next r e = subst (Reachable size) (some-injective _ _ e) r
run-Reachable size (c ∷ cs) bus next r e = elim (Option-cases (step c bus)) [
  | inl stuck ↦ cc (rw (stuck, run) at e)
  | inr (mid, done) ↦ run-Reachable size cs mid next (stepped c r done) (rw (done, run) at e)
]
