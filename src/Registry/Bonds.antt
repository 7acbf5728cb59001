-- ===== src/Registry/Bonds.antt =====
-- `BondService` (src/bond_accounting/bonds/service.py)
use Prim.Native.String.{String}
use text.Mathlib.Text.{◌==◌ as same_text}
use stocktaking.Prelude.{
  ℕ, Bool, true, false, not, Option, none, some, List, [], ◌∷◌, ◌++◌, map, any, find, keep_if, ltb,
  ◌==◌, if◌then◌else◌,
}
use stocktaking.Prelude.Outcome.{ok, raise_if, ◌>>◌}
use stocktaking.Registry.Table.{get, amend, remove}
use stocktaking.Registry.Rows.{Bond, BondCoupon, Tables, Keys}
use stocktaking.Portfolio.Transaction.{Transaction}
use stocktaking.Registry.Payloads.{BondCreate, BondUpdate, changed_bond}
use stocktaking.Registry.Action.{
  Result, isin_duplicate, deletion_blocked, not_owned, bond_created, bond_updated, bond_deleted,
  World, Flushed, commit,
}
use stocktaking.Registry.Accounts.{is_user}

-- `DISTINCT` and `ORDER BY`
unfoldable pub insert_id : ℕ → List ℕ → List ℕ
insert_id x [] = x ∷ []
insert_id x (y ∷ ys) =
    let rest = insert_id x ys in if ltb x y then x ∷ y ∷ ys else if x == y then y ∷ ys else y ∷ rest

module _ {W : Type 0} where
  abbrev pub on_bond : ℕ → Transaction W → Bool
  on_bond i x = x.bond_id == i

  unfoldable pub ids_from : ℕ → List (Transaction W) → List ℕ
  unfolding insert_id
  ids_from i [] = []
  ids_from i (x ∷ rest) =
      let later = ids_from i rest in if on_bond i x then insert_id x.user_id later else later

  -- `_holder_ids`
  unfoldable pub holder_ids : ℕ → Tables W → List ℕ
  unfolding ids_from
  holder_ids i t = ids_from i t.transactions

  abbrev pub isin_taken : String → List (Bond W) → Bool
  isin_taken isin rows = any (λ (b : Bond W). same_text b.isin isin) rows

  unfoldable pub new_bond : Keys → BondCreate W → ℕ → List (Bond W) → Bond W
  new_bond keys d u rows = record {
    id = keys.fresh (map (λ (b : Bond W). b.id) rows);
    owner_id = u;
    isin = d.isin;
    name = d.name;
    nominal = d.nominal;
    coupon_rate = d.coupon_rate;
    coupon_period_days = d.coupon_period_days;
    maturity_date = d.maturity_date;
    issuer = d.issuer;
  }

  -- Every `IntegrityError` is taken for a duplicate, that of an owner who does not exist too.
  unfoldable pub create_body : Keys → BondCreate W → ℕ → Tables W → Result (Flushed W (Bond W))
  create_body keys d u t = do
    raise_if (isin_taken d.isin t.bonds) isin_duplicate
    raise_if (not (is_user u t.users)) isin_duplicate
    let b = new_bond keys d u t.bonds
    ok (record {
      value = b;
      tables = record t { bonds = t.bonds ++ b ∷ [] };
      events = bond_created b ∷ [];
      commits = true;
    })

  unfoldable pub create : Keys → BondCreate W → ℕ → World W → Result (Bond W) × World W
  create keys d u w = commit (create_body keys d u) w

  unfoldable pub get_bond : ℕ → Tables W → Option (Bond W)
  get_bond i t = get (λ b. b.id) i t.bonds

  unfoldable pub get_by_isin : String → Tables W → Option (Bond W)
  get_by_isin isin t = find (λ (b : Bond W). same_text b.isin isin) t.bonds

  unfoldable pub update_found :
      ℕ → BondUpdate W → ℕ → Tables W → Bond W → Result (Flushed W (Option (Bond W)))
  update_found i d u t b = do
    raise_if (not (b.owner_id == u)) not_owned
    ok (record {
      value = some (changed_bond d b);
      tables = record t { bonds = amend (λ x. x.id) i (changed_bond d) t.bonds };
      events = map (λ (h : ℕ). bond_updated (changed_bond d b) h) (holder_ids i t);
      commits = true;
    })

  unfoldable pub update_body :
      ℕ → BondUpdate W → ℕ → Tables W → Result (Flushed W (Option (Bond W)))
  update_body i d u t = elim (get_bond i t) [
    | none ↦ ok (record { value = none; tables = t; events = []; commits = false })
    | some b ↦ update_found i d u t b
  ]

  unfoldable pub update : ℕ → BondUpdate W → ℕ → World W → Result (Option (Bond W)) × World W
  update i d u w = commit (update_body i d u) w

  -- The ORM deletes the transactions of the bond with it, the database its coupons.
  unfoldable pub delete_bond_rows : ℕ → Tables W → Tables W
  delete_bond_rows i t = record t {
    bonds = remove (λ b. b.id) i t.bonds;
    coupons = keep_if (λ (c : BondCoupon W). not (c.bond_id == i)) t.coupons;
    transactions = keep_if (λ (x : Transaction W). not (x.bond_id == i)) t.transactions;
  }

  unfoldable pub delete_found : ℕ → ℕ → Tables W → Bond W → Result (Flushed W Bool)
  delete_found i u t b = do
    raise_if (not (b.owner_id == u)) not_owned
    raise_if (any (on_bond i) t.transactions) deletion_blocked
    let left = delete_bond_rows i t
    ok (record {
      value = true;
      tables = left;
      events = map (λ (h : ℕ). bond_deleted i h) (holder_ids i left);
      commits = true;
    })

  unfoldable pub delete_body : ℕ → ℕ → Tables W → Result (Flushed W Bool)
  delete_body i u t = elim (get_bond i t) [
    | none ↦ ok (record { value = false; tables = t; events = []; commits = false })
    | some b ↦ delete_found i u t b
  ]

  unfoldable pub delete : ℕ → ℕ → World W → Result Bool × World W
  delete i u w = commit (delete_body i u) w
