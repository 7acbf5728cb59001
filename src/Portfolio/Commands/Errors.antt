-- ===== src/Portfolio/Commands/Errors.antt =====
-- A command that raises has changed nothing, unless the bus refused its events.
use stocktaking.Prelude.{
  ℕ, ◌≡◌, refl, Bool, true, false, Option, none, some, arith, inl, ◌⊎◌, if◌then◌else◌,
}
use stocktaking.Floats.{FloatOps}
use stocktaking.Portfolio.Transaction.{Transaction}
use stocktaking.Portfolio.Dto.{TransactionCreate, TransactionUpdate}
use stocktaking.Portfolio.Store.{Engine}
use stocktaking.Portfolio.Result.{Error, not_running, Result, ok, err}
use stocktaking.Portfolio.Action.{Event, World, Action, Body, session, publish, ◌>>=◌, ◌>>◌, pure}
use stocktaking.Portfolio.Bodies.{add_body, update_body, delete_body}
use stocktaking.Portfolio.Service.{
  publish_position, publish_positions, after_add, add_transaction, after_update, update_transaction,
  after_delete, delete_transaction,
}

-- The only error is that of the stopped bus.
record OnlyBus {W A : Type 0} (m : Action W A) : Type 0 where
  at : (w : World W) (e : Error) → (m w).0 ≡ err e → e ≡ not_running

-- An error other than that leaves the world as it was.
record IsAtomic {W A : Type 0} (m : Action W A) : Type 0 where
  at : (w : World W) (e : Error) → (m w).0 ≡ err e → (e ≡ not_running) ⊎ ((m w).1 ≡ w)

session-IsAtomic : {W A : Type 0} (body : Body W A) → IsAtomic (session body)
unfolding session
session-IsAtomic body = record { at = λ w e h. ground arith }

bind-IsAtomic :
    {W A B : Type 0} (m : Action W A) (k : A → Action W B)
    → IsAtomic m
    → ((a : A) → OnlyBus (k a))
    → IsAtomic (m >>= k)
bind-IsAtomic {W} {A} {B} m k hm hk = record { at = λ w e h. go w (m w) (hm.at w) e h }
  where
    go :
        (w : World W) (r : Result A × World W)
        → ((e : Error) → r.0 ≡ err e → (e ≡ not_running) ⊎ (r.1 ≡ w))
        → (e : Error)
        → (elim r.0 as (λ _. Result B × World W) [ ok a ↦ k a r.1 | err e ↦ (err e, r.1) ]).0
          ≡ err e
        → (e ≡ not_running)
          ⊎ ((elim r.0 as (λ _. Result B × World W) [ ok a ↦ k a r.1 | err e ↦ (err e, r.1) ]).1
              ≡ w)
    go w (ok a, w') old e h = inl ((hk a).at w' e h)
    go w (err c, w') old e h = ground (arith, old c refl)

seq-OnlyBus :
    {W B : Type 0} (m : Action W (Unit {0})) (k : Action W B)
    → OnlyBus m
    → OnlyBus k
    → OnlyBus (m >> k)
seq-OnlyBus {W} {B} m k hm hk = record { at = λ w e h. go (m w) (hm.at w) e h }
  where
    go :
        (r : Result (Unit {0}) × World W)
        → ((e : Error) → r.0 ≡ err e → e ≡ not_running)
        → (e : Error)
        → (elim r.0 as (λ _. Result B × World W) [ ok a ↦ k r.1 | err e ↦ (err e, r.1) ]).0 ≡ err e
        → e ≡ not_running
    go (ok a, w') old e h = hk.at w' e h
    go (err c, w') old e h = ground (arith, old c refl)

pure-OnlyBus : {W A : Type 0} (a : A) → OnlyBus (pure {W = W} a)
pure-OnlyBus a = record { at = λ w e h. cc }

publish-OnlyBus : {W : Type 0} (e : Event W) → OnlyBus (publish e)
unfolding publish
publish-OnlyBus e = record { at = λ w c h. ground arith }

if-OnlyBus :
    {W A : Type 0} (b : Bool) (m k : Action W A)
    → OnlyBus m
    → OnlyBus k
    → OnlyBus (if b then m else k)
if-OnlyBus true m k hm hk = hm
if-OnlyBus false m k hm hk = hk

ruleset bus_rules = (seq-OnlyBus, pure-OnlyBus, publish-OnlyBus, if-OnlyBus)

module _ {W : Type 0} ⦃fl : FloatOps W⦄ (eng : Engine W) where
  publish_position-OnlyBus : (u b : ℕ) → OnlyBus (publish_position eng u b)
  unfolding publish_position publish
  publish_position-OnlyBus u b = record { at = λ w c h. ground arith }

  after_add-OnlyBus : (u b : ℕ) (row : Transaction W) → OnlyBus (after_add eng u b row)
  unfolding after_add
  after_add-OnlyBus u b row = search (bus_rules, publish_position-OnlyBus)

  publish_positions-OnlyBus : (u old new : ℕ) → OnlyBus (publish_positions eng u old new)
  unfolding publish_positions
  publish_positions-OnlyBus u old new = search (bus_rules, publish_position-OnlyBus)

  after_update-OnlyBus : (u : ℕ) (r : Option (ℕ × Transaction W)) → OnlyBus (after_update eng u r)
  unfolding after_update
  after_update-OnlyBus u none = search bus_rules
  after_update-OnlyBus u (some (old, dto)) = search (bus_rules, publish_positions-OnlyBus)

  after_delete-OnlyBus : (i u : ℕ) (r : Option ℕ) → OnlyBus (after_delete eng i u r)
  unfolding after_delete
  after_delete-OnlyBus i u none = search bus_rules
  after_delete-OnlyBus i u (some b) = search (bus_rules, publish_position-OnlyBus)

  -- A command that raises an error of the portfolio module has changed no table and published
  -- nothing: for each of the three commands, an error is that of the stopped bus, or the world is
  -- the one before the call.
  pub commands_atomic :
      (i u : ℕ) (d : TransactionCreate W) (c : TransactionUpdate W) (w : World W) (e : Error)
      → ((add_transaction eng u d w).0 ≡ err e
          → (e ≡ not_running) ⊎ ((add_transaction eng u d w).1 ≡ w))
        × ((update_transaction eng i c u w).0 ≡ err e
            → (e ≡ not_running) ⊎ ((update_transaction eng i c u w).1 ≡ w))
        × ((delete_transaction eng i u w).0 ≡ err e
            → (e ≡ not_running) ⊎ ((delete_transaction eng i u w).1 ≡ w))
  unfolding add_transaction update_transaction delete_transaction
  commands_atomic i u d c w e = (
    (bind-IsAtomic _ (after_add eng u d.bond_id) (session-IsAtomic (add_body eng u d))
          (after_add-OnlyBus u d.bond_id)).at
        w e,
    (bind-IsAtomic _ (after_update eng u) (session-IsAtomic (update_body eng i c u))
          (after_update-OnlyBus u)).at
        w e,
    (bind-IsAtomic _ (after_delete eng i u) (session-IsAtomic (delete_body eng i u))
          (after_delete-OnlyBus i u)).at
        w e,
  )
