-- ===== src/Auth/Password.antt =====
-- `PasswordHasher` (src/bond_accounting/auth/password.py). bcrypt is not part of the repository.
use Prim.Native.String.{String, len}
use stocktaking.Prelude.{ℕ, ◌≡◌, Bool, true, false, Option, none, some, ltb, if◌then◌else◌}
use stocktaking.Prelude.Outcome.{Outcome, ok, err, raise_if, ◌>>◌}

-- `hashpw` with its salt, and `checkpw`; `none` is a `ValueError` or a `TypeError`.
pub record Bcrypt : Type 0 where
  pub hashpw : String → ℕ → Option String
  pub checkpw : String → String → Option Bool
  -- a password matches its own hash, whatever the salt
  pub checkpw_lem :
      (p : String) (salt : ℕ) (h : String) → hashpw p salt ≡ some h → checkpw p h ≡ some true

-- `AuthError` itself stands for the length of a password.
pub data Error : Type 0 where
  auth_error username_taken invalid_credentials value_error : Error

abbrev pub Result : Type 0 → Type 0
Result = Outcome Error

abbrev pub max_password_bytes : ℕ
max_password_bytes = 72

-- `len` counts the bytes of UTF-8.
abbrev pub too_long : String → Bool
too_long p = ltb max_password_bytes (len p)

abbrev pub hash_result : Option String → Result String
hash_result none = err value_error
hash_result (some h) = ok h

-- `hash`, with the salt that `gensalt` returns
unfoldable pub hash : Bcrypt → ℕ → String → Result String
hash bcrypt salt p = do raise_if (too_long p) value_error; hash_result (bcrypt.hashpw p salt)

abbrev pub check_result : Option Bool → Bool
check_result none = false
check_result (some b) = b

unfoldable pub verify : Bcrypt → String → String → Bool
verify bcrypt p h = if too_long p then false else check_result (bcrypt.checkpw p h)
