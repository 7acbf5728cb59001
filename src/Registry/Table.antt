-- ===== src/Registry/Table.antt =====
-- A table: a list of rows, each with its primary key, as SQLAlchemy's session reads and writes it.
pub mod Laws
pub mod Texts
use stocktaking.Prelude.{
  ℕ, Bool, not, ◌&&◌, Option, List, ◌∷◌, [], ◌++◌, map, any, find, keep_if, ◌==◌, if◌then◌else◌,
}

module _ {A : Type 0} (key : A → ℕ) where
  -- `session.get(Model, i)`
  abbrev pub get : ℕ → List A → Option A
  get i rows = find (λ (x : A). key x == i) rows

  abbrev pub has : ℕ → List A → Bool
  has i rows = any (λ (x : A). key x == i) rows

  -- `setattr` on the row with this key
  unfoldable pub amend : ℕ → (A → A) → List A → List A
  amend i f rows = map (λ (x : A). if key x == i then f x else x) rows

  -- `session.delete`
  unfoldable pub remove : ℕ → List A → List A
  remove i rows = keep_if (λ (x : A). not (key x == i)) rows
