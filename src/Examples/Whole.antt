-- ===== src/Examples/Whole.antt =====
-- Whole numbers in place of floats, and a table sorted by insertion.
use mathlib.Core.List.{Perm}
use mathlib.Core.List.Perm
use stocktaking.Prelude.{
  not, true, ℕ, suc, ◌+◌, ◌*◌, ◌/◌, ◌≤◌, ◌≢◌, Bool, ◌&&◌, ◌||◌, List, [], ◌∷◌, All, arith, ltb,
  ◌==◌, if◌then◌else◌, Bool-cases, inl, inr,
}
use stocktaking.Prelude.Int.{ℤ, pos, negsuc, ◌+ℤ◌, ◌-ℤ◌, ltb_ℤ}
use stocktaking.Floats.{FloatOps}
use stocktaking.Portfolio.Transaction.{Kind, Transaction}
use stocktaking.Portfolio.Store.{Engine}

abbrev pub times : ℤ → ℤ → ℤ
times (pos a) (pos b) = pos (a * b)
times (pos a) (negsuc b) = pos 0 -ℤ pos (a * suc b)
times (negsuc a) (pos b) = pos 0 -ℤ pos (suc a * b)
times (negsuc a) (negsuc b) = pos (suc a * suc b)

abbrev pub over : ℤ → ℤ → ℤ
over (pos a) (pos b) = pos (a / b)
over _ _ = pos 0

instance abbrev pub whole : FloatOps ℤ
whole = record {
  zero_float = pos 0;
  of_int = λ n. n;
  ratio = over;
  add = ◌+ℤ◌;
  sub = ◌-ℤ◌;
  mul = times;
  div = over;
  pow = λ a b. a;
  abs = λ a. if ltb_ℤ a (pos 0) then pos 0 -ℤ a else a;
  neg = λ a. pos 0 -ℤ a;
  lt = ltb_ℤ;
  le = λ a b. not (ltb_ℤ b a);
  eq = λ a b. not (ltb_ℤ a b) && not (ltb_ℤ b a);
  is_finite = λ _. true;
  literal = λ m k. m;
}

abbrev pub Row : Type 0
Row = Transaction ℤ

abbrev pub before : Row → Row → Bool
before s t = ltb s.date t.date || (s.date == t.date && ltb s.id t.id)

unfoldable pub insert_sorted : Row → List Row → List Row
insert_sorted t [] = t ∷ []
insert_sorted t (s ∷ ts) =
    let rest = insert_sorted t ts in if before t s then t ∷ s ∷ ts else s ∷ rest

unfoldable pub sort : List Row → List Row
unfolding insert_sorted
sort [] = []
sort (t ∷ ts) = insert_sorted t (sort ts)

insert-perm : (t : Row) (ts : List Row) → Perm (insert_sorted t ts) (t ∷ ts)
unfolding insert_sorted
insert-perm t [] = Perm.refl (t ∷ [])
insert-perm t (s ∷ ts) = elim (Bool-cases (before t s)) [
  | inl e ↦ rw e (Perm.refl (t ∷ s ∷ ts))
  | inr e ↦ rw e (Perm.trans (Perm.cons s (insert-perm t ts)) (Perm.swap t s ts))
]

pub sort-perm : (ts : List Row) → Perm (sort ts) ts
unfolding sort
sort-perm [] = Perm.refl []
sort-perm (t ∷ ts) = Perm.trans (insert-perm t (sort ts)) (Perm.cons t (sort-perm ts))

unfoldable pub next_id : List Row → ℕ
next_id [] = 1
next_id (t ∷ ts) = if ltb t.id (next_id ts) then next_id ts else t.id + 1

above : (i : ℕ) (ts : List Row) → next_id ts ≤ i → All (λ t. t.id ≢ i) ts
unfolding next_id
above i [] h = tt
above i (t ∷ ts) h = (ground arith, above i ts (ground arith))

pub next_id-new : (ts : List Row) → All (λ t. t.id ≢ next_id ts) ts
next_id-new ts = above (next_id ts) ts (omega arith)

abbrev pub memory : Engine ℤ
memory = record {
  order = sort;
  order_perm = sort-perm;
  fresh = next_id;
  fresh_new = next_id-new;
  now = 1000;
}

-- a row of user 7 on bond 3 and account 5
abbrev pub row : ℕ → Kind → ℕ → ℕ → ℕ → Row
row i k q price day = record {
  id = i;
  user_id = 7;
  bond_id = 3;
  broker_account_id = 5;
  kind = k;
  quantity = q;
  price = pos price;
  date = day;
  commission = pos 1;
  created_at = 1000;
}
