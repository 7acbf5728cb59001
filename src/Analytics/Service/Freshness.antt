-- ===== src/Analytics/Service/Freshness.antt =====
-- The cache of src/bond_accounting/analytics/service.py under readers and handlers that interleave. A
-- computation makes three queries, each of them a step, and so are the computation after them and
-- the store of its result; between steps anything may happen: the tables, the day and the clock
-- change.
pub mod Reads
pub mod Sources
use stocktaking.Prelude.{ℕ, zero, suc, none, some, Option, List, [], ◌∷◌, get_elem?, modify}
use stocktaking.Prelude.Outcome.{ok, err}
use stocktaking.Floats.{FloatOps}
use stocktaking.Portfolio.Transaction.{Transaction}
use stocktaking.Yield.Dates.{Result}
use stocktaking.Registry.Rows.{Bond, Tables}
use stocktaking.Analytics.Dto.{PortfolioSummary}
use stocktaking.Analytics.Summary.{Inputs, read_txns, read_bonds, read_coupons, summary_from}
use stocktaking.Analytics.Service.{Cache, Moment, store}

-- The results of the queries so far.
pub data Loaded (W : Type 0) : Type 0 where
  nothing : Loaded W
  txns_read : List (Transaction W) → Loaded W
  bonds_read : List (Transaction W) → List (Bond W) → Loaded W
  all_read : Inputs W → Loaded W

-- a computation in progress, for the day on which it began
pub record Reader (W : Type 0) : Type 0 where
  pub user : ℕ
  pub day : ℕ
  pub loaded : Loaded W

pub record Process (W : Type 0) : Type 0 where
  pub moment : Moment W
  pub cache : Cache W
  pub readers : List (Reader W)
  -- computed by some task, and not stored yet
  pub held : Cache W

pub data Happening (W : Type 0) : Type 0 where
  -- the tables, the day and the clock are now these
  passes : Tables W → ℕ → ℕ → Happening W
  -- a reader that found no summary of this user, or the handler, begins to compute one
  begins : ℕ → Happening W
  -- the reader at this position gets the result of its next query
  reads : ℕ → Happening W
  -- it has them all, and computes
  computes : ℕ → Happening W
  -- the task at this position stores what it has computed
  stores : ℕ → Happening W

abbrev pub without : {A : Type 0} → ℕ → List A → List A
without i [] = []
without zero (x ∷ xs) = xs
without (suc i) (x ∷ xs) = x ∷ without i xs

module _ {W : Type 0} where
  -- the next of the queries of `_load_summary_inputs`
  unfoldable pub load_next : Moment W → ℕ → Loaded W → Loaded W
  load_next m user nothing = txns_read (read_txns m.engine m.tables user none)
  load_next m user (txns_read ts) = bonds_read ts (read_bonds m.tables ts)
  load_next m user (bonds_read ts bs) =
      all_read (record { txns = ts; bonds = bs; coupons = read_coupons m.tables bs })
  load_next m user (all_read inputs) = all_read inputs

  abbrev pub advance : Moment W → Reader W → Reader W
  advance m r = record r { loaded = load_next m r.user r.loaded }

  unfoldable pub store_held : ℕ → Process W → Process W
  store_held i p = elim (get_elem? p.held i) [
    | none ↦ p
    | some e ↦ record p { cache = store e.0 e.1 p.cache; held = without i p.held }
  ]

  -- what a computation that is over leaves; an error is the caller's
  unfoldable pub hold : ℕ → ℕ → Result (PortfolioSummary W) → Process W → Process W
  hold i user (err _) p = record p { readers = without i p.readers }
  hold i user (ok s) p = record p { readers = without i p.readers; held = (user, s) ∷ p.held }

module _ {W : Type 0} ⦃fl : FloatOps W⦄ where
  -- the rest of `_compute_summary`, when all is read
  unfoldable pub conclude : ℕ → ℕ → ℕ → Loaded W → Process W → Process W
  unfolding hold
  conclude i user day (all_read inputs) p =
      hold i user (summary_from inputs p.moment.now user day) p
  conclude i user day _ p = p

  unfoldable pub compute_at : ℕ → Process W → Process W
  unfolding conclude
  compute_at i p = elim (get_elem? p.readers i) [
    | none ↦ p
    | some r ↦ conclude i r.user r.day r.loaded p
  ]

  unfoldable pub happen : Happening W → Process W → Process W
  unfolding compute_at store_held load_next
  happen (passes t day now) p = record p {
    moment = record p.moment { tables = t; day = day; now = now };
  }
  happen (begins user) p = record p {
    readers = record { user = user; day = p.moment.day; loaded = nothing } ∷ p.readers;
  }
  happen (reads i) p = record p { readers = modify p.readers i (advance p.moment) }
  happen (computes i) p = compute_at i p
  happen (stores i) p = store_held i p

  -- What can come of a process that starts with an empty cache, with the moments that have been, the
  -- latest first.
  pub data Reachable (start : Moment W) : List (Moment W) → Process W → Type 0 where
    opened :
        Reachable start
          (start ∷ [])
          (record { moment = start; cache = []; readers = []; held = [] })
    happened :
        (h : Happening W) {seen : List (Moment W)} {p : Process W}
        → Reachable start seen p
        → Reachable start ((happen h p).moment ∷ seen) (happen h p)
