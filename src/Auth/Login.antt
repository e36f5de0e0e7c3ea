-- ===== src/Auth/Login.antt =====
-- internal/auth/auth.go: the checks of a login, and what it writes.
pub mod Sound
pub mod Lockout
pub mod Guesses
use fluxlite.Common.{
  ℕ, ◌+◌, ◌*◌, Text, text_eq, byte_len, trim_space, length, Bool, true, false, not, ◌&&◌, List, [],
  Option, none, some, ltb, ◌==◌, if◌then◌else◌, Result, ok, err,
}
use fluxlite.Common.Exec.{Exec, pure, raise, reads, guard, ◌>>=◌, ◌>>◌}
use fluxlite.Auth.Db.{
  Error, not_found, conflict, invalid_credentials, account_locked, setup_closed, no_session,
  entropy, username_short, password_short, password_is_username, totp_enabled, no_enrollment, User,
  Db, Op, locked, user_by_username, user_by_id, count_users, create_user, set_user_password,
  set_user_totp, set_username, record_login_failure, reset_login_failures,
  create_session_if_credentials_match, session_user, delete_session, delete_user_sessions_except,
}

-- What the service calls of internal/cryptox and of the TOTP library. A salt or a token is drawn
-- outside: `none` where rand.Read fails.
pub record Crypto : Type 0 where
  pub hash_password : Text → Text → Text
  pub verify_password : Text → Text → Result Error Bool
  pub validate_totp : Text → Text → ℕ → Bool
  pub first_code : Text → Text → ℕ → Bool
  pub recovery_digest : Text → Text

-- Nanoseconds.
abbrev pub second : ℕ
second = 1_000_000_000

abbrev pub session_ttl : ℕ
session_ttl = 12 * 3600 * second

abbrev pub lock_threshold : ℕ
lock_threshold = 5

abbrev pub lock_duration : ℕ
lock_duration = 15 * 60 * second

abbrev pub min_password_length : ℕ
min_password_length = 12

unfoldable pub validate_credential_strength : Text → Text → Result Error (Unit {0})
validate_credential_strength username password =
    if ltb (byte_len username) 3
    then err username_short
    else if ltb (length password) min_password_length
    then err password_short
    else if text_eq password username
    then err password_is_username
    else ok tt

-- A value drawn from crypto/rand.
abbrev pub drawn : Option Text → Op Text
drawn none = raise entropy
drawn (some t) = pure t

-- What the checks of a login decide before anything is written.
pub data Verdict : Type 0 where
  refused : Error → Verdict
  failure : ℕ → Verdict
  proved : User → Verdict

module _ (c : Crypto) where
  -- The second factor is demanded from accounts that have one.
  abbrev pub code_ok : ℕ → User → Text → Bool
  code_ok now u code = if u.totp_enrolled then c.validate_totp code u.totp_secret now else true

  abbrev judge : ℕ → User → Text → Result Error Bool → Verdict
  judge now u code (err e) = refused e
  judge now u code (ok password_ok) =
      if password_ok && code_ok now u code then proved u else failure u.id

  abbrev pub check_user : ℕ → User → Text → Text → Verdict
  check_user now u password code =
      if locked u now
      then refused account_locked
      else judge now u code (c.verify_password password u.password_hash)

  abbrev check_found : ℕ → Text → Text → Result Error User → Verdict
  check_found now password code (err e) = refused invalid_credentials
  check_found now password code (ok u) = check_user now u password code

  -- The part of `Login` and of `VerifyPasswordAndCode` up to the first write.
  unfoldable pub login_check : ℕ → Text → Text → Text → Db → Verdict
  unfolding user_by_username locked
  login_check now username password code db =
      check_found now password code (user_by_username username db)

  -- A failed attempt is counted; the caller learns no more than that it failed.
  unfoldable pub count_failure : ℕ → ℕ → Error → {A : Type 0} → Op A
  count_failure later id e = record_login_failure later id lock_threshold lock_duration >> raise e

  abbrev pub hide_conflict : Result Error (Unit {0}) → Text × ℕ → Result Error (Text × ℕ)
  hide_conflict (ok _) r = ok r
  hide_conflict (err conflict) r = err invalid_credentials
  hide_conflict (err e) r = err e

  abbrev pub open_session : ℕ → User → Text → ℕ → Op (Text × ℕ)
  open_session later u token expires db =
      let (r, db') = create_session_if_credentials_match later u token expires db in
      (hide_conflict r (token, expires), db')

  -- The part of `Login` from the first write on.
  unfoldable pub login_finish : ℕ → ℕ → Option Text → Verdict → Op (Text × ℕ)
  login_finish now later draw (refused e) = raise e
  login_finish now later draw (failure id) = count_failure later id invalid_credentials
  login_finish now later draw (proved u) = do
    token ← drawn draw
    open_session later u token (now + session_ttl)

  -- `Login`: `between` is what other requests commit while the password is being verified.
  unfoldable pub login : ℕ → ℕ → (Db → Db) → Option Text → Text → Text → Text → Op (Text × ℕ)
  unfolding login_check login_finish
  login now later between draw username password code db =
      login_finish now later draw (login_check now username password code db) (between db)
