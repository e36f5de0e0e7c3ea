-- ===== src/Auth/Db.antt =====
-- internal/store/auth.go and internal/store/recovery.go: operator accounts, sessions and recovery
-- settings. A statement of SQL is a function on the table's rows; a time is a count of nanoseconds.
-- Each method takes the reading of time.Now() that it makes.
pub mod Laws
pub mod Recovery
use fluxlite.Common.{
  ℕ, suc, ◌+◌, Text, text_eq, Bool, true, false, not, ◌&&◌, List, [], ◌∷◌, ◌++◌, Option, none, some,
  ltb, leb, ◌==◌, if◌then◌else◌, is_some, Result, ok, err,
}
use fluxlite.Common.Exec.{Exec, pure, raise, guard, in_tx, ◌>>=◌, ◌>>◌}
use fluxlite.Common.Tables.{find_where, update_where, delete_where, count_where, exists_where}

-- The errors that a caller can tell apart.
pub data Error : Type 0 where
  not_found conflict token_taken : Error
  invalid_credentials account_locked setup_closed no_session : Error
  invalid_recovery recovery_input : Error
  password_hash_form : Error
  entropy : Error
  username_short password_short password_is_username : Error
  totp_enabled no_enrollment : Error

pub record User : Type 0 where
  pub id : ℕ
  pub username : Text
  pub password_hash : Text
  pub totp_secret : Text
  pub totp_enrolled : Bool
  pub failed_count : ℕ
  pub locked_until : Option ℕ
  pub created_at : ℕ
  pub updated_at : ℕ

pub record Session : Type 0 where
  pub token : Text
  pub user_id : ℕ
  pub expires_at : ℕ
  pub created_at : ℕ

pub record UserRecovery : Type 0 where
  pub question : Text
  pub answer_hash : Text
  pub code_hash : Text

-- A row of user_recovery.
pub record RecoveryRow : Type 0 where
  pub user_id : ℕ
  pub settings : UserRecovery

-- `next_id` is the AUTOINCREMENT sequence of users.
pub record Db : Type 0 where
  pub users : List User
  pub sessions : List Session
  pub recoveries : List RecoveryRow
  pub next_id : ℕ

abbrev pub Op : Type 0 → Type 0
Op A = Exec Db Error A

-- `User.Locked`
unfoldable pub locked : User → ℕ → Bool
locked u now = elim u.locked_until [ none ↦ false | some t ↦ ltb now t ]

abbrev pub has_id : ℕ → User → Bool
has_id id u = u.id == id

abbrev pub has_username : Text → User → Bool
has_username name u = text_eq u.username name

abbrev pub or_not_found : Option User → Result Error User
or_not_found none = err not_found
or_not_found (some u) = ok u

unfoldable pub user_by_username : Text → Db → Result Error User
user_by_username name db = or_not_found (find_where (has_username name) db.users)

unfoldable pub user_by_id : ℕ → Db → Result Error User
user_by_id id db = or_not_found (find_where (has_id id) db.users)

unfoldable pub count_users : Db → ℕ
count_users db = count_where (λ _. true) db.users

-- UPDATE users SET … WHERE id = ?
abbrev pub update_user : ℕ → (User → User) → Db → Db
update_user id f db = record db { users = update_where (has_id id) f db.users }

-- An UPDATE followed by checkAffected: no row is ErrNotFound.
abbrev pub update_checked : ℕ → (User → User) → Op (Unit {0})
update_checked id f db =
    if exists_where (has_id id) db.users then (ok tt, update_user id f db) else (err not_found, db)

-- The row gets the next id; a taken username is a unique violation.
unfoldable pub create_user : ℕ → User → Op ℕ
create_user now u db =
    if exists_where (has_username u.username) db.users then (err conflict, db) else (
      ok db.next_id,
      record db {
        users = db.users ++ record u { id = db.next_id; created_at = now; updated_at = now } ∷ [];
        next_id = suc db.next_id;
      },
    )

unfoldable pub set_user_password : ℕ → ℕ → Text → Op (Unit {0})
set_user_password now id hash =
    update_checked id (λ u. record u { password_hash = hash; updated_at = now })

unfoldable pub set_user_totp : ℕ → ℕ → Text → Bool → Op (Unit {0})
set_user_totp now id secret enrolled =
    update_checked id
      (λ u. record u { totp_secret = secret; totp_enrolled = enrolled; updated_at = now })

abbrev pub name_taken : ℕ → Text → User → Bool
name_taken id name u = text_eq u.username name && not (u.id == id)

unfoldable pub set_username : ℕ → ℕ → Text → Op (Unit {0})
set_username now id name db =
    if exists_where (has_id id) db.users && exists_where (name_taken id name) db.users
    then (err conflict, db)
    else update_checked id (λ u. record u { username = name; updated_at = now }) db

-- The columns after one more failure: at the threshold the account is locked and the count starts
-- again.
abbrev pub failed : ℕ → ℕ → ℕ → ℕ → User → User
failed now threshold lock_for count u =
    if leb threshold (suc count)
    then record u { failed_count = 0; locked_until = some (now + lock_for); updated_at = now }
    else record u { failed_count = suc count; locked_until = none; updated_at = now }

-- `RecordLoginFailure`: the row is read and written in one transaction. An account that is gone
-- makes the read fail.
unfoldable pub record_login_failure : ℕ → ℕ → ℕ → ℕ → Op (Unit {0})
record_login_failure now id threshold lock_for db = elim (find_where (has_id id) db.users) [
  | none ↦ (err not_found, db)
  | some u ↦ (ok tt, update_user id (failed now threshold lock_for u.failed_count) db)
]

abbrev pub cleared : ℕ → User → User
cleared now u = record u { failed_count = 0; locked_until = none; updated_at = now }

-- No row affected is no error here.
unfoldable pub reset_login_failures : ℕ → ℕ → Op (Unit {0})
reset_login_failures now id db = (ok tt, update_user id (cleared now) db)

unfoldable pub credentials_match : ℕ → User → User → Bool
unfolding locked
credentials_match now current expected =
    not (locked current now)
    && text_eq current.password_hash expected.password_hash
    && text_eq current.username expected.username
    && text_eq current.totp_secret expected.totp_secret
    && (if current.totp_enrolled then expected.totp_enrolled else not expected.totp_enrolled)

abbrev pub has_token : Text → Session → Bool
has_token token s = text_eq s.token token

abbrev insert_session : ℕ → Text → ℕ → ℕ → Op (Unit {0})
insert_session now token id expires db =
    if exists_where (has_token token) db.sessions then (err token_taken, db) else (
      ok tt,
      record db {
        sessions =
            db.sessions
            ++ record { token = token; user_id = id; expires_at = expires; created_at = now } ∷ [];
      },
    )

-- The row as the transaction reads it; a missing row is ErrConflict.
abbrev pub current_user : ℕ → Op User
current_user id db = elim (find_where (has_id id) db.users) [
  | none ↦ (err conflict, db)
  | some u ↦ (ok u, db)
]

-- `CreateSessionIfCredentialsMatch`
unfoldable pub create_session_if_credentials_match : ℕ → User → Text → ℕ → Op (Unit {0})
unfolding credentials_match reset_login_failures
create_session_if_credentials_match now expected token expires = in_tx (do
  current ← current_user expected.id
  guard (credentials_match now current expected) conflict
  reset_login_failures now expected.id
  insert_session now token expected.id expires)

-- `SessionUser`: an expired row is dropped on the way.
unfoldable pub session_user : ℕ → Text → Op User
unfolding user_by_id
session_user now token db = elim (find_where (has_token token) db.sessions) [
  | none ↦ (err not_found, db)
  | some s ↦
      if ltb s.expires_at now
      then (err not_found, record db { sessions = delete_where (has_token token) db.sessions })
      else (user_by_id s.user_id db, db)
]

unfoldable pub delete_session : Text → Db → Db
delete_session token db = record db { sessions = delete_where (has_token token) db.sessions }

unfoldable pub purge_expired_sessions : ℕ → Db → Db
purge_expired_sessions now db = record db {
  sessions = delete_where (λ s. ltb s.expires_at now) db.sessions;
}

abbrev pub owned_except : ℕ → Text → Session → Bool
owned_except id keep s = s.user_id == id && not (text_eq s.token keep)

unfoldable pub delete_user_sessions_except : ℕ → Text → Db → Db
delete_user_sessions_except id keep db = record db {
  sessions = delete_where (owned_except id keep) db.sessions;
}

unfoldable pub count_user_sessions : ℕ → ℕ → Db → ℕ
count_user_sessions now id db =
    count_where (λ s. s.user_id == id && ltb now s.expires_at) db.sessions
