-- ===== src/Portfolio/Result.antt =====
-- The errors of src/bond_accounting/portfolio/service.py, and the code that may raise them.
pub use stocktaking.Prelude.Outcome.{ok, err, require, raise_if, ◌>>=◌, ◌>>◌}
use stocktaking.Prelude.Outcome.{Outcome}

-- `insufficient_position`, `invalid_transaction` and `forbidden` are the errors of the module;
-- `integrity` is SQLAlchemy's `IntegrityError`, and `not_running` the `RuntimeError` of the bus.
pub data Error : Type 0 where
  insufficient_position invalid_transaction forbidden integrity not_running : Error

abbrev pub Result : Type 0 → Type 0
Result = Outcome Error
