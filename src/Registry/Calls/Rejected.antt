-- ===== src/Registry/Calls/Rejected.antt =====
-- A call that raises an error rolls back.
use mathlib.Core.List.{append-nil, append_assoc}
use mathlib.Core.Path.{subst}
use stocktaking.Prelude.{
  suc, ◌≡◌, ◌≢◌, ◌⊎◌, refl, sym, ◌∙◌, inl, inr, Bool, true, false, Bool-cases, Option, none, some,
  List, [], ◌∷◌, ◌++◌, if◌then◌else◌, ap,
}
use stocktaking.Prelude.Outcome.{Outcome-cases, ok, err}
use stocktaking.Registry.Rows.{Keys, Tables}
use stocktaking.Registry.Action.{
  Error, not_running, commit_failed, Result, Event, World, Flushed, publish_each, store_tables,
  settle, commit,
}
use stocktaking.Registry.Brokers.{
  create_broker, create_broker_body, update_broker, update_broker_body, delete_broker,
  delete_broker_body,
}
use stocktaking.Registry.Accounts.{
  create_account, create_account_body, update_account, update_account_body, delete_account,
  delete_account_body,
}
use stocktaking.Registry.Bonds.{create, create_body, update, update_body, delete, delete_body}
use stocktaking.Registry.Operations.{
  create_operation, create_operation_body, update_operation, update_operation_body,
  delete_operation, delete_operation_body,
}
use stocktaking.Registry.Calls.{
  Call, add_broker, edit_broker, drop_broker, add_account, edit_account, drop_account, add_bond,
  edit_bond, drop_bond, add_operation, edit_operation, drop_operation, error_of, observed, perform,
}

-- The bus or the database was at fault, not the call.
abbrev pub IsLate : Option Error → Type 0
IsLate o = (o ≡ some not_running) ⊎ (o ≡ some commit_failed)

chosen : {A : Type 0} (c : Bool) → c ≡ true → (x y : A) → (if c then x else y) ≡ x
chosen c h x y = rw h refl

passed_over : {A : Type 0} (c : Bool) → c ≡ false → (x y : A) → (if c then x else y) ≡ y
passed_over c h x y = rw h refl

module _ {W : Type 0} where
  -- The tables are as before, and what was published since went out before the bus or the database
  -- failed.
  abbrev pub RollsBack : World W → Option Error × World W → Type 0
  RollsBack w (error, v) =
      (v.tables ≡ w.tables)
      × (more : List (Event W)) × (v.published ≡ w.published ++ more)
      × ((more ≡ []) ⊎ IsLate error)

  -- What `publish_each` has published, and that it publishes all unless the bus does not run.
  abbrev pub Publishes : List (Event W) → World W → Result (Unit {0}) × World W → Type 0
  Publishes es w (outcome, v) =
      (v.tables ≡ w.tables)
      × (more : List (Event W)) × (v.published ≡ w.published ++ more)
      × (((outcome ≡ ok tt) × (more ≡ es)) ⊎ (outcome ≡ err not_running))

  abbrev after : Event W → World W → World W
  after x w = record w { published = w.published ++ x ∷ []; clock = suc w.clock }

  Publishes-after :
      (x : Event W) (es : List (Event W)) (w : World W) (r : Result (Unit {0}) × World W)
      → Publishes es (after x w) r
      → Publishes (x ∷ es) w r
  Publishes-after x es w r (t, more, p, o) = (
    t,
    x ∷ more,
    p ∙ append_assoc w.published (x ∷ []) more,
    elim o [ inl (q, all) ↦ inl (q, ap (λ l. x ∷ l) all) | inr q ↦ inr q ],
  )

  pub publish_each-Publishes :
      (es : List (Event W)) (w : World W) → Publishes es w (publish_each es w)
  unfolding publish_each
  publish_each-Publishes [] w = (refl, [], sym (append-nil w.published), inl (refl, refl))
  publish_each-Publishes (x ∷ es) w = elim (Bool-cases (w.is_running w.clock)) [
    | inl runs ↦ subst (Publishes (x ∷ es) w) (sym (chosen (w.is_running w.clock) runs _ _)) (
        Publishes-after x es w (publish_each es (after x w))
          (publish_each-Publishes es (after x w)))
    | inr stopped ↦
        subst (Publishes (x ∷ es) w) (sym (passed_over (w.is_running w.clock) stopped _ _))
          (refl, [], sym (append-nil w.published), inr refl)
  ]

  settle-RollsBack :
      {A : Type 0} (f : Flushed W A) (w : World W) (r : Result (Unit {0}) × World W)
      → Publishes f.events w r
      → (observed (settle f r)).0 ≢ none
      → RollsBack w (observed (settle f r))
  unfolding settle store_tables
  settle-RollsBack f w (ok _, v) (t, more, p, o) raised = elim (Bool-cases f.commits) [
    | inr nothing ↦ absurd ((rw nothing at raised) refl)
    | inl ends ↦ elim (Bool-cases (v.can_commit v.clock)) [
      | inl taken ↦ absurd ((rw (ends, taken) at raised) refl)
      | inr failed ↦ rw (ends, failed) (t, more, p, inr (inr refl))
    ]
  ]
  settle-RollsBack f w (err x, v) (t, more, p, inl (q, all)) raised = cc
  settle-RollsBack f w (err x, v) (t, more, p, inr q) raised =
      (t, more, p, inr (inl (ap (λ o. error_of o) q)))

  commit-RollsBack :
      {A : Type 0} (body : Tables W → Result (Flushed W A)) (w : World W)
      → (observed (commit body w)).0 ≢ none
      → RollsBack w (observed (commit body w))
  unfolding commit
  commit-RollsBack body w h = elim (Outcome-cases (body w.tables)) [
    | inl (e, q) ↦ rw (q, commit) (refl, [], sym (append-nil w.published), inl refl)
    | inr (f, q) ↦
        rw (q, commit)
          (settle-RollsBack f w (publish_each f.events w) (publish_each-Publishes f.events w)
            (rw (q, commit) at h))
  ]

  -- A call that raises leaves the tables as they were, whenever in the call the bus stops or the
  -- commit fails. It has published nothing, unless the error is that of the bus or of the commit: then
  -- the events that went out before it stay published.
  pub perform_rejected :
      (keys : Keys) (c : Call W) (w : World W)
      → (perform keys c w).0 ≢ none
      → RollsBack w (perform keys c w)
  unfolding perform create_broker update_broker delete_broker create_account update_account
      delete_account create update delete create_operation update_operation delete_operation
  perform_rejected keys (add_broker d) w h = commit-RollsBack (create_broker_body keys d) w h
  perform_rejected keys (edit_broker i d) w h = commit-RollsBack (update_broker_body i d) w h
  perform_rejected keys (drop_broker i) w h = commit-RollsBack (delete_broker_body i) w h
  perform_rejected keys (add_account d u) w h = commit-RollsBack (create_account_body keys d u) w h
  perform_rejected keys (edit_account i d u) w h = commit-RollsBack (update_account_body i d u) w h
  perform_rejected keys (drop_account i u) w h = commit-RollsBack (delete_account_body i u) w h
  perform_rejected keys (add_bond d u) w h = commit-RollsBack (create_body keys d u) w h
  perform_rejected keys (edit_bond i d u) w h = commit-RollsBack (update_body i d u) w h
  perform_rejected keys (drop_bond i u) w h = commit-RollsBack (delete_body i u) w h
  perform_rejected keys (add_operation d u) w h =
      commit-RollsBack (create_operation_body keys d u) w h
  perform_rejected keys (edit_operation i d u) w h =
      commit-RollsBack (update_operation_body i d u) w h
  perform_rejected keys (drop_operation i u) w h = commit-RollsBack (delete_operation_body i u) w h
