-- ===== src/Auth/Account.antt =====
-- internal/auth/auth.go: first-run setup, sessions, and changes to an account. `now` is the reading
-- of the clock that a call makes, `salt` what crypto/rand gives.
pub mod Sessions
pub mod Setup
pub mod Factor
use fluxlite.Common.{
  ℕ, Text, text_eq, byte_len, trim_space, Bool, true, false, not, ◌&&◌, List, [], Option, none,
  some, ltb, ◌==◌, if◌then◌else◌, Result, ok, err,
}
use fluxlite.Common.Exec.{Exec, pure, raise, reads, guard, ◌>>=◌, ◌>>◌}
use fluxlite.Auth.Db.{
  Error, not_found, invalid_credentials, account_locked, setup_closed, no_session, username_short,
  totp_enabled, no_enrollment, User, Db, Op, locked, user_by_username, user_by_id, count_users,
  create_user, set_user_password, set_user_totp, set_username, reset_login_failures, session_user,
  delete_session, delete_user_sessions_except,
}
use fluxlite.Auth.Login.{
  Crypto, Verdict, refused, failure, proved, check_user, count_failure, drawn,
  validate_credential_strength,
}

abbrev as_error : {A : Type 0} → Error → Result Error A → Result Error A
as_error e (ok a) = ok a
as_error e (err _) = err e

-- Any failure is answered by one error.
abbrev hide : {A : Type 0} → Error → Op A → Op A
hide e m db = let (r, db') = m db in (as_error e r, db')

unfoldable pub setup_needed : Db → Bool
unfolding count_users
setup_needed db = count_users db == 0

abbrev pub new_user : Text → Text → Text → User
new_user username hash secret = record {
  id = 0;
  username = username;
  password_hash = hash;
  totp_secret = secret;
  totp_enrolled = false;
  failed_count = 0;
  locked_until = none;
  created_at = 0;
  updated_at = 0;
}

-- `Authenticate`
unfoldable pub authenticate : ℕ → Text → Op User
unfolding session_user
authenticate now token =
    if text_eq token [] then raise no_session else hide no_session (session_user now token)

-- `Logout`
unfoldable pub logout : Text → Op (Unit {0})
unfolding delete_session
logout token db = (ok tt, delete_session token db)

module _ (c : Crypto) where
  abbrev hashed : Option Text → Text → Op Text
  hashed salt password = do s ← drawn salt; pure (c.hash_password s password)

  -- `key` is the secret that totp.Generate draws.
  unfoldable pub create_initial_user : ℕ → Option Text → Option Text → Text → Text → Op Text
  unfolding setup_needed validate_credential_strength
  create_initial_user now salt key username password = do
    λ db. guard (setup_needed db) setup_closed db
    reads (λ _. validate_credential_strength username password)
    hash ← hashed salt password
    secret ← drawn key
    create_user now (new_user username hash secret)
    pure secret

  -- `ConfirmEnrollment`
  unfoldable pub confirm_enrollment : ℕ → Text → Text → Op (Unit {0})
  unfolding user_by_username set_user_totp
  confirm_enrollment now username code = do
    user ← hide invalid_credentials (reads (user_by_username username))
    guard (not user.totp_enrolled) setup_closed
    guard (c.first_code code user.totp_secret now) invalid_credentials
    set_user_totp now user.id user.totp_secret true

  -- The current password, as each change of the account asks for it.
  abbrev check_password : Text → User → Op (Unit {0})
  check_password password user = do
    ok? ← reads (λ _. c.verify_password password user.password_hash)
    guard ok? invalid_credentials

  -- `ChangePassword`
  unfoldable pub change_password : ℕ → Option Text → ℕ → Text → Text → Text → Op (Unit {0})
  unfolding user_by_id validate_credential_strength set_user_password delete_user_sessions_except
  change_password now salt user_id current next keep = do
    user ← reads (user_by_id user_id)
    check_password current user
    reads (λ _. validate_credential_strength user.username next)
    hash ← hashed salt next
    set_user_password now user_id hash
    λ db. (ok tt, delete_user_sessions_except user_id keep db)

  abbrev rename : ℕ → ℕ → User → Text → Op (Unit {0})
  rename now user_id user next =
      if text_eq next user.username then pure tt else set_username now user_id next

  -- `ChangeUsername`
  unfoldable pub change_username : ℕ → ℕ → Text → Text → Op (Unit {0})
  unfolding user_by_id set_username
  change_username now user_id password next = do
    user ← reads (user_by_id user_id)
    check_password password user
    guard (not (ltb (byte_len (trim_space next)) 3)) username_short
    rename now user_id user (trim_space next)

  -- `BeginTOTPEnrollment`
  unfoldable pub begin_totp_enrollment : ℕ → Option Text → ℕ → Op Text
  unfolding user_by_id
  begin_totp_enrollment now key user_id = do
    user ← reads (user_by_id user_id)
    guard (not user.totp_enrolled) totp_enabled
    secret ← drawn key
    set_user_totp now user_id secret false
    pure secret

  -- `EnableTOTP`
  unfoldable pub enable_totp : ℕ → ℕ → Text → Op (Unit {0})
  unfolding user_by_id
  enable_totp now user_id code = do
    user ← reads (user_by_id user_id)
    guard (not (text_eq user.totp_secret [])) no_enrollment
    guard (c.validate_totp (trim_space code) user.totp_secret now) invalid_credentials
    set_user_totp now user_id user.totp_secret true

  abbrev strip_totp : ℕ → ℕ → Text → Text → User → Op (Unit {0})
  strip_totp now user_id password code user = do
    ok? ← reads (λ _. c.verify_password password user.password_hash)
    guard (ok? && c.validate_totp (trim_space code) user.totp_secret now) invalid_credentials
    set_user_totp now user_id [] false

  -- `DisableTOTP`
  unfoldable pub disable_totp : ℕ → ℕ → Text → Text → Op (Unit {0})
  unfolding user_by_id
  disable_totp now user_id password code = do
    user ← reads (user_by_id user_id)
    if user.totp_enrolled then strip_totp now user_id password code user else pure tt

  abbrev settle : ℕ → Verdict → Op (Unit {0})
  settle later (refused e) = raise e
  settle later (failure id) = count_failure c later id invalid_credentials
  settle later (proved u) = reset_login_failures later u.id

  abbrev reprove : ℕ → Text → Text → Result Error User → Verdict
  reprove now password code (err e) = refused invalid_credentials
  reprove now password code (ok u) = check_user c now u password code

  -- `VerifyPasswordAndCode`, with the checks and the accounting of a login.
  unfoldable pub verify_password_and_code : ℕ → ℕ → ℕ → Text → Text → Op (Unit {0})
  unfolding user_by_id locked count_failure reset_login_failures
  verify_password_and_code now later user_id password code db =
      settle later (reprove now password code (user_by_id user_id db)) db
