-- ===== src/Auth/Credentials.antt =====
-- Who can log in after a registration (src/bond_accounting/auth/service.py).
use Prim.Native.String.{String, count}
use text.Mathlib.Text.{◌==◌ as same_text}
use text.Mathlib.TextPositions.{eq_refl}
use stocktaking.Prelude.{
  ℕ, ◌≡◌, refl, sym, ap, ◌∙◌, inl, inr, true, false, some, Option-cases, List, ltb,
}
use stocktaking.Prelude.Outcome.{ok, raise_if, >>-eq-ok, >>=-eq-ok, ok-injective}
use stocktaking.Registry.Rows.{Keys}
use stocktaking.Registry.Table.Laws.{find-snoc, find-snoc_other}
use stocktaking.Registry.Linked.Shapes.{raise_if-ok}
use stocktaking.Auth.Password.{
  Bcrypt, auth_error, value_error, username_taken, too_long, hash, verify,
}
use stocktaking.Auth.Users.{
  User, min_password_length, username_exists, new_user, registered, register, get_user_by_username,
  authenticate,
}

hash-verify :
    (bcrypt : Bcrypt) (salt : ℕ) (p : String) {h : String}
    → hash bcrypt salt p ≡ ok h
    → verify bcrypt p h ≡ true
unfolding hash verify
hash-verify bcrypt salt p {h} e =
    let (short, r) = >>-eq-ok (raise_if (too_long p) value_error) _ e in
    elim (Option-cases (bcrypt.hashpw p salt)) [
      | inl failed ↦ cc (rw failed at r)
      | inr (g, made) ↦
          rw
            (
              raise_if-ok _ _ short,
              bcrypt.checkpw_lem p salt h (made ∙ ap some (ok-injective (rw made at r))),
            )
            refl
    ]

-- What a registration that succeeds has found and made.
registered-ok :
    (bcrypt : Bcrypt) (keys : Keys) (salt : ℕ) (name password : String) (users : List User)
    {u : User}
    → registered bcrypt keys salt name password users ≡ ok u
    → (username_exists name users ≡ false)
      × (u.username ≡ name)
      × (verify bcrypt password u.password_hash ≡ true)
unfolding registered new_user
registered-ok bcrypt keys salt name password users {u} e =
    let (long_enough, r1) =
      >>-eq-ok (raise_if (ltb (count password) min_password_length) auth_error) _ e in
    let (short, r2) = >>-eq-ok (raise_if (too_long password) auth_error) _ r1 in
    let (h, hashed, r3) = >>=-eq-ok (hash bcrypt salt password) _ r2 in
    let (free, r4) = >>-eq-ok (raise_if (username_exists name users) username_taken) _ r3 in
    (
      raise_if-ok _ _ free,
      ap (λ (x : User). x.username) (sym (ok-injective r4)),
      rw (← ok-injective r4) (hash-verify bcrypt salt password hashed),
    )

-- After a registration that succeeds, the user can log in with the password; whoever logs in under
-- another name is let in or refused as before.
pub register-authenticate :
    (bcrypt : Bcrypt) (keys : Keys) (salt : ℕ) (name password : String) (users : List User)
    (u : User)
    → (register bcrypt keys salt name password users).0 ≡ ok u
    → (authenticate bcrypt name password (register bcrypt keys salt name password users).1 ≡ ok u)
      × ((other attempt : String)
          → same_text name other ≡ false
          → authenticate bcrypt other attempt (register bcrypt keys salt name password users).1
            ≡ authenticate bcrypt other attempt users)
unfolding register authenticate get_user_by_username
register-authenticate bcrypt keys salt name password users u e =
    let (free, named, verified) = registered-ok bcrypt keys salt name password users e in
    (
      rw
          (
            e,
            find-snoc (λ x. same_text x.username name) users u free (rw named (eq_refl name)),
            authenticate,
            verified,
          )
          refl,
      λ other attempt differs.
          rw
            (
              e,
              authenticate,
              find-snoc_other (λ x. same_text x.username other) users u (rw named differs),
            )
            refl,
    )
