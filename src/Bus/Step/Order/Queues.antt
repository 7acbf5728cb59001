-- ===== src/Bus/Step/Order/Queues.antt =====
-- The queues of subscriptions (src/bond_accounting/event_bus/async_queue_bus.py) by position, before and
-- after a change.
use mathlib.Core.Path.{ap}
use stocktaking.Prelude.{
  ℕ, zero, suc, ◌≡◌, refl, sym, ◌∙◌, false, some, Option, List, [], ◌∷◌, ◌++◌, arith, get_elem?,
  modify, ◌==◌, get_elem?-modify,
}
use stocktaking.Bus.Message.{Message}
use stocktaking.Bus.Subscription.{Subscription, Task, accept, maybe_warn, serve, ensure_dispatcher}
use stocktaking.Bus.State.{ensure_listed, ensure_all}

module _ {P : Type 0} where
  -- The queue of the subscription at a position.
  abbrev pub queue_at : List (Subscription P) → ℕ → List (Message P)
  queue_at [] i = []
  queue_at (s ∷ rest) zero = s.queue
  queue_at (s ∷ rest) (suc i) = queue_at rest i

  ensure_listed-queue :
      (i : ℕ) (s : Subscription P) (tasks : List (Task P))
      → (ensure_listed i s tasks).0.queue ≡ s.queue
  unfolding ensure_listed ensure_dispatcher
  ensure_listed-queue i s tasks = ground arith

  pub queue_at-ensure_all :
      (n : ℕ) (ss : List (Subscription P)) (tasks : List (Task P)) (i : ℕ)
      → queue_at (ensure_all n ss tasks).0 i ≡ queue_at ss i
  unfolding ensure_all
  queue_at-ensure_all n [] tasks i = refl
  queue_at-ensure_all n (s ∷ ss) tasks zero = ensure_listed-queue n s tasks
  queue_at-ensure_all n (s ∷ ss) tasks (suc i) = queue_at-ensure_all (suc n) ss _ i

  pub queue_at-snoc :
      (ss : List (Subscription P)) (new : Subscription P) (i : ℕ)
      → new.queue ≡ []
      → queue_at (ss ++ new ∷ []) i ≡ queue_at ss i
  queue_at-snoc [] new zero e = e
  queue_at-snoc [] new (suc i) e = refl
  queue_at-snoc (s ∷ ss) new zero e = refl
  queue_at-snoc (s ∷ ss) new (suc i) e = queue_at-snoc ss new i e

  pub queue_at-modify_ne :
      (f : Subscription P → Subscription P) (ss : List (Subscription P)) (j i : ℕ)
      → (j == i) ≡ false
      → queue_at (modify ss j f) i ≡ queue_at ss i
  queue_at-modify_ne f [] j i e = refl
  queue_at-modify_ne f (s ∷ ss) zero zero e = ground arith
  queue_at-modify_ne f (s ∷ ss) zero (suc i) e = refl
  queue_at-modify_ne f (s ∷ ss) (suc j) zero e = refl
  queue_at-modify_ne f (s ∷ ss) (suc j) (suc i) e = queue_at-modify_ne f ss j i (ground (arith, e))

  pub queue_at-found :
      (ss : List (Subscription P)) (i : ℕ) {s : Subscription P}
      → get_elem? ss i ≡ some s
      → queue_at ss i ≡ s.queue
  queue_at-found [] i e = cc
  queue_at-found (x ∷ ss) zero e = cc
  queue_at-found (x ∷ ss) (suc i) e = queue_at-found ss i e

  accept-queue :
      (t : Option ℕ) (m : Message P) (s : Subscription P) → (accept t m s).queue ≡ s.queue ++ m ∷ []
  unfolding accept maybe_warn
  accept-queue t m s = ground arith

  pub queue_at-accept :
      (t : Option ℕ) (m : Message P) (ss : List (Subscription P)) (i : ℕ) {s : Subscription P}
      → get_elem? ss i ≡ some s
      → queue_at (modify ss i (accept t m)) i ≡ queue_at ss i ++ m ∷ []
  queue_at-accept t m ss i {s} e =
      queue_at-found (modify ss i (accept t m)) i (get_elem?-modify ss i (accept t m) e)
      ∙ accept-queue t m s
      ∙ ap (λ (q : List (Message P)). q ++ m ∷ []) (sym (queue_at-found ss i e))

  pub queue_at-serve :
      (t : Option ℕ) (rest : List (Message P)) (ss : List (Subscription P)) (i : ℕ)
      {s : Subscription P}
      → get_elem? ss i ≡ some s
      → queue_at (modify ss i (serve t rest)) i ≡ rest
  unfolding serve
  queue_at-serve t rest ss i {s} e =
      queue_at-found (modify ss i (serve t rest)) i (get_elem?-modify ss i (serve t rest) e)
