-- ===== src/Auth/Users.antt =====
-- `AuthService` (src/bond_accounting/auth/service.py) up to the token of `login`, and `User` of
-- db/models.py.
use Prim.Native.String.{String, count}
use text.Mathlib.Text.{◌==◌ as same_text}
use stocktaking.Prelude.{
  ℕ, Bool, Option, none, some, List, [], ◌∷◌, ◌++◌, map, any, find, ltb, if◌then◌else◌,
}
use stocktaking.Prelude.Outcome.{ok, err, raise_if, ◌>>=◌, ◌>>◌}
use stocktaking.Registry.Rows.{Keys}
use stocktaking.Registry.Table.{get}
use stocktaking.Auth.Password.{
  Bcrypt, Result, auth_error, username_taken, invalid_credentials, too_long, hash, verify,
}

pub record User : Type 0 where
  pub id : ℕ
  pub username : String
  pub password_hash : String

abbrev pub min_password_length : ℕ
min_password_length = 8

abbrev pub username_exists : String → List User → Bool
username_exists name users = any (λ (u : User). same_text u.username name) users

unfoldable pub new_user : Keys → String → String → List User → User
new_user keys name h users = record {
  id = keys.fresh (map (λ (u : User). u.id) users);
  username = name;
  password_hash = h;
}

-- `register`: the user, who is to be stored
unfoldable pub registered : Bcrypt → Keys → ℕ → String → String → List User → Result User
registered bcrypt keys salt name password users = do
  raise_if (ltb (count password) min_password_length) auth_error
  raise_if (too_long password) auth_error
  h ← hash bcrypt salt password
  raise_if (username_exists name users) username_taken
  ok (new_user keys name h users)

-- the users after it
abbrev pub with_user : List User → Result User → List User
with_user users (ok u) = users ++ u ∷ []
with_user users (err _) = users

unfoldable pub register : Bcrypt → Keys → ℕ → String → String → List User → Result User × List User
register bcrypt keys salt name password users =
    let outcome = registered bcrypt keys salt name password users in
    (outcome, with_user users outcome)

unfoldable pub get_user_by_id : ℕ → List User → Option User
get_user_by_id i users = get (λ u. u.id) i users

-- the only row with this name, which is unique
unfoldable pub get_user_by_username : String → List User → Option User
get_user_by_username name users = find (λ (u : User). same_text u.username name) users

-- `login` up to the token: the user whose credentials these are
unfoldable pub authenticate : Bcrypt → String → String → List User → Result User
authenticate bcrypt name password users = elim (get_user_by_username name users) [
  | none ↦ err invalid_credentials
  | some u ↦ if verify bcrypt password u.password_hash then ok u else err invalid_credentials
]
