-- ===== src/Auth/Account/Factor.antt =====
-- The second factor: what switches it on and off.
use fluxlite.Common.{
  ℕ, ◌≡◌, refl, ◌≢◌, ◌⊎◌, inl, inr, Bool-cases, Text, text_eq, trim_space, Bool, true, false, [],
  some, Result, ok, err, arith,
}
use fluxlite.Common.Tables.{find_where, exists_where, exists-find}
use fluxlite.Auth.Db.{Error, User, Db, has_id, update_user, set_user_totp}
use fluxlite.Auth.Db.Laws.{find-update_user, find-update_user_other}
use fluxlite.Auth.Login.{Crypto}
use fluxlite.Auth.Account.{enable_totp, disable_totp}

abbrev with_totp : ℕ → Text → Bool → User → User
with_totp now secret enrolled u = record u {
  totp_secret = secret;
  totp_enrolled = enrolled;
  updated_at = now;
}

-- One account's second factor is written, and nothing else.
pub record Wrote (now id : ℕ) (u : User) (secret : Text) (enrolled : Bool) (db db' : Db)
    : Type 0 where
  pub own : find_where (has_id id) db'.users ≡ some (with_totp now secret enrolled u)
  pub others : (j : ℕ) → id ≢ j → find_where (has_id j) db'.users ≡ find_where (has_id j) db.users
  pub sessions_kept : db'.sessions ≡ db.sessions
  pub recoveries_kept : db'.recoveries ≡ db.recoveries

update-Wrote :
    (now id : ℕ) (u : User) (secret : Text) (enrolled : Bool) (db : Db)
    → find_where (has_id id) db.users ≡ some u
    → Wrote now id u secret enrolled db (update_user id (with_totp now secret enrolled) db)
update-Wrote now id u secret enrolled db row = record {
  own = find-update_user id (with_totp now secret enrolled) db (λ v. refl) row;
  others = λ j ne. find-update_user_other id j (with_totp now secret enrolled) db (λ v. refl) ne;
  sessions_kept = refl;
  recoveries_kept = refl;
}

set_user_totp-Wrote :
    (now id : ℕ) (u : User) (secret : Text) (enrolled : Bool) (db : Db)
    → find_where (has_id id) db.users ≡ some u
    → set_user_totp now id secret enrolled db
      ≡ (ok tt, update_user id (with_totp now secret enrolled) db)
unfolding set_user_totp
set_user_totp-Wrote now id u secret enrolled db row =
    let known : exists_where (has_id id) db.users ≡ true =
      rw (exists-find (has_id id) db.users, row) refl in
    rw known

proof_cases :
    (c : Crypto) (now : ℕ) (u : User) (password code : Text)
    → ((c.verify_password password u.password_hash ≡ ok true)
        × (c.validate_totp (trim_space code) u.totp_secret now ≡ true))
      ⊎ ((c.verify_password password u.password_hash ≢ ok true)
          ⊎ (c.validate_totp (trim_space code) u.totp_secret now ≡ false))
proof_cases c now u password code =
    elim (Bool-cases (c.validate_totp (trim_space code) u.totp_secret now)) [
      | inr e ↦ inr (inr e)
      | inl e ↦ go (c.verify_password password u.password_hash) refl e
    ]
  where
    go :
        (r : Result Error Bool)
        → c.verify_password password u.password_hash ≡ r
        → c.validate_totp (trim_space code) u.totp_secret now ≡ true
        → ((c.verify_password password u.password_hash ≡ ok true)
            × (c.validate_totp (trim_space code) u.totp_secret now ≡ true))
          ⊎ ((c.verify_password password u.password_hash ≢ ok true)
              ⊎ (c.validate_totp (trim_space code) u.totp_secret now ≡ false))
    go (ok true) h e = inl (h, e)
    go (ok false) h e = inr (inl (λ k. cc))
    go (err x) h e = inr (inl (λ k. cc))

module _ (c : Crypto) (now id : ℕ) (db : Db) {u : User}
    (row : find_where (has_id id) db.users ≡ some u) where
  -- For an account that is found: the factor is switched on, keeping its secret and touching no
  -- other account, if a secret is stored and accepts the code now; otherwise the call fails and
  -- nothing is written.
  pub enable_totp_iff :
      (code : Text)
      → ((text_eq u.totp_secret [] ≡ false)
            × (c.validate_totp (trim_space code) u.totp_secret now ≡ true)
          → ((enable_totp c now id code db).0 ≡ ok tt)
            × Wrote now id u u.totp_secret true db (enable_totp c now id code db).1)
        × ((text_eq u.totp_secret [] ≡ true)
              ⊎ (c.validate_totp (trim_space code) u.totp_secret now ≡ false)
            → ((enable_totp c now id code db).0 ≢ ok tt) × ((enable_totp c now id code db).1 ≡ db))
  unfolding enable_totp
  enable_totp_iff code =
      let set = set_user_totp-Wrote now id u u.totp_secret true db row in
      (
        λ h.
            let done : enable_totp c now id code db
                ≡ (ok tt, update_user id (with_totp now u.totp_secret true) db) =
              ground arith in
            (rw done, rw done (update-Wrote now id u u.totp_secret true db row)),
        λ h. (ground arith, ground arith),
      )

  -- For an account that is found and has a second factor: either the password and a current code
  -- are right, and then the factor is switched off and its secret cleared, or the call fails and
  -- nothing is written.
  pub disable_totp_needs_both :
      (password code : Text)
      → u.totp_enrolled ≡ true
      → ((c.verify_password password u.password_hash ≡ ok true)
          × (c.validate_totp (trim_space code) u.totp_secret now ≡ true)
          × ((disable_totp c now id password code db).0 ≡ ok tt)
          × Wrote now id u [] false db (disable_totp c now id password code db).1)
        ⊎ (((disable_totp c now id password code db).0 ≢ ok tt)
            × ((disable_totp c now id password code db).1 ≡ db))
  unfolding disable_totp
  disable_totp_needs_both password code enrolled =
      let set = set_user_totp-Wrote now id u [] false db row in
      elim (proof_cases c now u password code) [
        | inl (right, current) ↦
            let done : disable_totp c now id password code db
                ≡ (ok tt, update_user id (with_totp now [] false) db) =
              ground arith in
            inl (right, current, rw done, rw done (update-Wrote now id u [] false db row))
        | inr wrong ↦ inr (ground arith, ground arith)
      ]
