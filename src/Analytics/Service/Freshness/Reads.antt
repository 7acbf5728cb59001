-- ===== src/Analytics/Service/Freshness/Reads.antt =====
-- What the queries of a computation have read, and when.
use stocktaking.Prelude.{ℕ, suc, ◌≤◌, ◌≡◌, refl, none, some, List, ◌∷◌, get_elem?, arith}
use stocktaking.Portfolio.Transaction.{Transaction}
use stocktaking.Registry.Rows.{Bond}
use stocktaking.Analytics.Summary.{Inputs, read_txns, read_bonds, read_coupons}
use stocktaking.Analytics.Service.{Moment}
use stocktaking.Analytics.Service.Freshness.{
  Loaded, nothing, txns_read, bonds_read, all_read, Reader, load_next,
}

module _ {W : Type 0} where
  -- At this place in the moments that have been, the latest first, was a moment with this day, or a
  -- query gave this result.
  abbrev pub WasDay : List (Moment W) → ℕ → ℕ → Type 0
  WasDay seen at day = (m : Moment W) × (get_elem? seen at ≡ some m) × (m.day ≡ day)

  abbrev pub ReadTxns : List (Moment W) → ℕ → ℕ → List (Transaction W) → Type 0
  ReadTxns seen at user ts =
      (m : Moment W) × (get_elem? seen at ≡ some m) × (read_txns m.engine m.tables user none ≡ ts)

  abbrev pub ReadBonds : List (Moment W) → ℕ → List (Transaction W) → List (Bond W) → Type 0
  ReadBonds seen at ts bs =
      (m : Moment W) × (get_elem? seen at ≡ some m) × (read_bonds m.tables ts ≡ bs)

  abbrev pub ReadCoupons : List (Moment W) → ℕ → Inputs W → Type 0
  ReadCoupons seen at inputs =
      (m : Moment W) × (get_elem? seen at ≡ some m)
      × (read_coupons m.tables inputs.bonds ≡ inputs.coupons)

  -- The day and the three queries, one after the other.
  pub record AllRead (seen : List (Moment W)) (user day : ℕ) (inputs : Inputs W) : Type 0 where
    pub day_at : ℕ
    pub txns_at : ℕ
    pub bonds_at : ℕ
    pub coupons_at : ℕ
    pub day_first : txns_at ≤ day_at
    pub txns_first : bonds_at ≤ txns_at
    pub bonds_first : coupons_at ≤ bonds_at
    pub was_day : WasDay seen day_at day
    pub read_txns_then : ReadTxns seen txns_at user inputs.txns
    pub read_bonds_then : ReadBonds seen bonds_at inputs.txns inputs.bonds
    pub read_coupons_then : ReadCoupons seen coupons_at inputs

  unfoldable pub Feeds : List (Moment W) → ℕ → ℕ → Loaded W → Type 0
  Feeds seen user day nothing = (a : ℕ) × WasDay seen a day
  Feeds seen user day (txns_read ts) =
      (a : ℕ) × (b : ℕ) × (b ≤ a) × WasDay seen a day × ReadTxns seen b user ts
  Feeds seen user day (bonds_read ts bs) =
      (a : ℕ) × (b : ℕ) × (c : ℕ) × (b ≤ a)
      × (c ≤ b)
      × WasDay seen a day
      × ReadTxns seen b user ts
      × ReadBonds seen c ts bs
  Feeds seen user day (all_read inputs) = AllRead seen user day inputs

  abbrev pub IsFed : List (Moment W) → Reader W → Type 0
  IsFed seen r = Feeds seen r.user r.day r.loaded

  unfoldable pub all_older :
      (m : Moment W) (seen : List (Moment W)) (user day : ℕ) (inputs : Inputs W)
      → AllRead seen user day inputs
      → AllRead (m ∷ seen) user day inputs
  all_older m seen user day inputs k = record {
    day_at = suc k.day_at;
    txns_at = suc k.txns_at;
    bonds_at = suc k.bonds_at;
    coupons_at = suc k.coupons_at;
    day_first = omega (arith, k.day_first);
    txns_first = omega (arith, k.txns_first);
    bonds_first = omega (arith, k.bonds_first);
    was_day = k.was_day;
    read_txns_then = k.read_txns_then;
    read_bonds_then = k.read_bonds_then;
    read_coupons_then = k.read_coupons_then;
  }

  pub Feeds-older :
      (m : Moment W) (seen : List (Moment W)) (user day : ℕ) (l : Loaded W)
      → Feeds seen user day l
      → Feeds (m ∷ seen) user day l
  unfolding Feeds
  Feeds-older m seen user day nothing (a, w) = (suc a, w)
  Feeds-older m seen user day (txns_read ts) (a, b, h, w, t) =
      (suc a, suc b, omega (arith, h), w, t)
  Feeds-older m seen user day (bonds_read ts bs) (a, b, c, h, g, w, t, k) =
      (suc a, suc b, suc c, omega (arith, h), omega (arith, g), w, t, k)
  Feeds-older m seen user day (all_read inputs) k = all_older m seen user day inputs k

  -- the next query is made at the latest moment
  pub Feeds-next :
      (m : Moment W) (seen : List (Moment W)) (user day : ℕ) (l : Loaded W)
      → Feeds seen user day l
      → Feeds (m ∷ seen) user day (load_next m user l)
  unfolding Feeds load_next
  Feeds-next m seen user day nothing (a, w) = (suc a, 0, omega arith, w, (m, refl, refl))
  Feeds-next m seen user day (txns_read ts) (a, b, h, w, t) =
      (suc a, suc b, 0, omega (arith, h), omega arith, w, t, (m, refl, refl))
  Feeds-next m seen user day (bonds_read ts bs) (a, b, c, h, g, w, t, k) = record {
    day_at = suc a;
    txns_at = suc b;
    bonds_at = suc c;
    coupons_at = 0;
    day_first = omega (arith, h);
    txns_first = omega (arith, g);
    bonds_first = omega arith;
    was_day = w;
    read_txns_then = t;
    read_bonds_then = k;
    read_coupons_then = (m, refl, refl);
  }
  Feeds-next m seen user day (all_read inputs) k = all_older m seen user day inputs k
