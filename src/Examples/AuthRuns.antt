-- ===== src/Examples/AuthRuns.antt =====
-- Runs of registration and login, with a password for its own hash.
use Prim.Native.String.{String}
use text.Mathlib.Text.{◌==◌ as same_text}
use text.Mathlib.TextPositions.{eq_refl}
use mathlib.Core.Option.{some-injective}
use stocktaking.Prelude.{◌≡◌, refl, ap, sym, ◌∙◌, false, some, [], ◌∷◌}
use stocktaking.Prelude.Outcome.{ok, err}
use stocktaking.Auth.Password.{
  Bcrypt, auth_error, username_taken, invalid_credentials, hash, verify,
}
use stocktaking.Auth.Users.{
  User, registered, new_user, register, get_user_by_username, authenticate,
}
use stocktaking.Auth.Credentials.{register-authenticate}
use stocktaking.Examples.Stock.{keys}

abbrev plain_text : Bcrypt
plain_text = record {
  hashpw = λ p salt. some p;
  checkpw = λ p h. some (same_text p h);
  checkpw_lem = λ p salt h e. ap some (ap (same_text p) (sym (some-injective _ _ e)) ∙ eq_refl p);
}

abbrev alice : User
alice = record { id = 1; username = "alice"; password_hash = "correct horse" }

abbrev bob : User
bob = record { id = 2; username = "bob"; password_hash = "battery staple" }

bob_registers : (register plain_text keys 0 "bob" "battery staple" (alice ∷ [])).0 ≡ ok bob
unfolding register registered hash new_user
bob_registers = refl

register-authenticate_example :
    (authenticate plain_text "bob" "battery staple"
        (register plain_text keys 0 "bob" "battery staple" (alice ∷ [])).1
      ≡ ok bob)
    × ((other attempt : String)
        → same_text "bob" other ≡ false
        → authenticate plain_text other attempt
            (register plain_text keys 0 "bob" "battery staple" (alice ∷ [])).1
          ≡ authenticate plain_text other attempt (alice ∷ []))
register-authenticate_example =
    register-authenticate plain_text keys 0 "bob" "battery staple" (alice ∷ []) bob bob_registers

wrong_password :
    authenticate plain_text "alice" "battery staple" (alice ∷ []) ≡ err invalid_credentials
unfolding authenticate get_user_by_username verify
wrong_password = refl

short_password : (register plain_text keys 0 "bob" "short" (alice ∷ [])).0 ≡ err auth_error
unfolding register registered
short_password = refl

name_in_use :
    (register plain_text keys 0 "alice" "battery staple" (alice ∷ [])).0 ≡ err username_taken
unfolding register registered hash
name_in_use = refl
