-- ===== src/Auth/Recovery/Denied.antt =====
-- Recovery attempts that prove nothing.
use fluxlite.Common.{
  ℕ, ◌≡◌, Text, text_eq, trim_space, false, Option, some, Option-cases, inl, inr, err,
}
use fluxlite.Common.Tables.{find_where}
use fluxlite.Auth.Db.{invalid_recovery, User, UserRecovery, Db, has_username}
use fluxlite.Auth.Db.Recovery.{user_recovery}
use fluxlite.Auth.Login.{Crypto}
use fluxlite.Auth.Recovery.{recovery_identity, reset_recovered_password}

module _ (c : Crypto) (now : ℕ) (username token : Text) (db : Db) where
  identity_wrong_code :
      ((v : User) (r : UserRecovery)
        → find_where (has_username (trim_space username)) db.users ≡ some v
        → user_recovery v.id db ≡ some r
        → text_eq r.code_hash (c.recovery_digest (trim_space token)) ≡ false)
      → recovery_identity c now username token db ≡ err invalid_recovery
  unfolding recovery_identity
  identity_wrong_code wrong =
      elim (Option-cases (find_where (has_username (trim_space username)) db.users)) [
        | inl gone ↦ rw gone
        | inr (u, found) ↦ elim (Option-cases (user_recovery u.id db)) [
          | inl unset ↦ rw (found, unset)
          | inr (r, set) ↦ rw (found, set) (rw (wrong u r found set))
        ]
      ]

  -- If the code given is not the one stored for the account named, or there is no such account or
  -- no settings, the attempt is refused with one error; no failure is counted, so that nobody is
  -- locked out by it, and nothing is written.
  pub wrong_code_harmless :
      (later : ℕ) (between : Db → Db) (salt : Option Text) (answer code password : Text)
      → ((v : User) (r : UserRecovery)
          → find_where (has_username (trim_space username)) db.users ≡ some v
          → user_recovery v.id db ≡ some r
          → text_eq r.code_hash (c.recovery_digest (trim_space token)) ≡ false)
      → reset_recovered_password c now later between salt username token answer code password db
        ≡ (err invalid_recovery, db)
  unfolding reset_recovered_password
  wrong_code_harmless later between salt answer code password wrong = rw (identity_wrong_code wrong)
