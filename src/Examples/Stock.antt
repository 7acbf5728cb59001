-- ===== src/Examples/Stock.antt =====
-- Tables with two users, and keys for new rows.
use stocktaking.Prelude.{ℕ, ◌+◌, ◌<◌, All-kept, none, some, List, [], ◌∷◌, All, arith}
use stocktaking.Portfolio.Transaction.{buy}
use stocktaking.Registry.Rows.{Tables, Keys, percent, standard, deposit}

-- one more than all of the keys together
abbrev pub above : List ℕ → ℕ
above [] = 1
above (k ∷ ks) = k + above ks

above_pos : (ks : List ℕ) → 0 < above ks
above_pos [] = omega arith
above_pos (k ∷ ks) = omega (arith, above_pos ks)

pub below_above : (ks : List ℕ) → All (λ (k : ℕ). k < above ks) ks
below_above [] = tt
below_above (k ∷ ks) =
    (omega (arith, above_pos ks), All-kept _ _ (λ x p. omega (arith, p)) ks (below_above ks))

abbrev pub keys : Keys
keys = record {
  fresh = above;
  fresh_new = λ used. All-kept _ _ (λ x p e. omega (arith, p, e)) used (below_above used);
  now = 100;
}

abbrev pub stock : Tables ℕ
stock = record {
  users = 1 ∷ 2 ∷ [];
  brokers =
      record {
        id = 1;
        name = "north";
        commission = 3;
        min_commission = none;
        min_commission_type = percent;
        description = none;
        created_at = 1;
      }
      ∷ record {
        id = 2;
        name = "south";
        commission = 4;
        min_commission = some 1;
        min_commission_type = percent;
        description = none;
        created_at = 2;
      }
      ∷ [];
  accounts =
      record {
        id = 1;
        user_id = 1;
        broker_id = 1;
        name = "main";
        account_number = none;
        account_type = standard;
        opened_at = none;
        closed_at = none;
        created_at = 3;
      }
      ∷ record {
        id = 2;
        user_id = 2;
        broker_id = 2;
        name = "other";
        account_number = none;
        account_type = standard;
        opened_at = none;
        closed_at = none;
        created_at = 4;
      }
      ∷ [];
  bonds =
      record {
        id = 1;
        owner_id = 1;
        isin = "RU0000000001";
        name = "one";
        nominal = 1000;
        coupon_rate = 7;
        coupon_period_days = 182;
        maturity_date = 800;
        issuer = none;
      }
      ∷ [];
  coupons = record { id = 1; bond_id = 1; coupon_date = 300; coupon_amount = 35 } ∷ [];
  transactions =
      record {
        id = 1;
        user_id = 2;
        bond_id = 1;
        broker_account_id = 2;
        kind = buy;
        quantity = 5;
        price = 990;
        date = 200;
        commission = 1;
        created_at = 5;
      }
      ∷ record {
        id = 2;
        user_id = 1;
        bond_id = 1;
        broker_account_id = 1;
        kind = buy;
        quantity = 1;
        price = 995;
        date = 201;
        commission = 1;
        created_at = 6;
      }
      ∷ record {
        id = 3;
        user_id = 2;
        bond_id = 1;
        broker_account_id = 2;
        kind = buy;
        quantity = 2;
        price = 991;
        date = 202;
        commission = 1;
        created_at = 7;
      }
      ∷ [];
  operations =
      record {
        id = 1;
        user_id = 2;
        broker_account_id = 2;
        kind = deposit;
        amount = 10;
        date = 150;
        note = none;
        created_at = 8;
      }
      ∷ [];
}
