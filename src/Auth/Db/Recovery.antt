-- ===== src/Auth/Db/Recovery.antt =====
-- internal/store/recovery.go: recovery settings, changed only under a proof that is still current.
pub mod Laws
use fluxlite.Common.{
  ℕ, ◌≡◌, Text, text_eq, Bool, true, false, ◌&&◌, List, [], ◌∷◌, ◌++◌, Option, none, some, ◌==◌,
  if◌then◌else◌, Result, ok, err,
}
use fluxlite.Common.Exec.{Exec, pure, raise, guard, in_tx, ◌>>=◌, ◌>>◌}
use fluxlite.Common.Tables.{find_where, update_where, delete_where, exists_where}
use fluxlite.Auth.Db.{
  Error, conflict, User, UserRecovery, RecoveryRow, Session, Db, Op, current_user,
  credentials_match, update_user, cleared,
}

abbrev pub of_user : ℕ → RecoveryRow → Bool
of_user id r = r.user_id == id

abbrev settings_of : Option RecoveryRow → Option UserRecovery
settings_of none = none
settings_of (some r) = some r.settings

-- `readRecovery`: no row is no settings, not an error.
unfoldable pub user_recovery : ℕ → Db → Option UserRecovery
user_recovery id db = settings_of (find_where (of_user id) db.recoveries)

unfoldable pub recovery_matches : Option UserRecovery → Option UserRecovery → Bool
recovery_matches none none = true
recovery_matches none (some b) = false
recovery_matches (some a) none = false
recovery_matches (some a) (some b) =
    text_eq a.question b.question
    && text_eq a.answer_hash b.answer_hash
    && text_eq a.code_hash b.code_hash

-- `withRecoveryProof`: both snapshots are compared with the rows that the transaction reads.
unfoldable pub with_recovery_proof : ℕ → User → Option UserRecovery → Op (Unit {0}) → Op (Unit {0})
unfolding credentials_match user_recovery recovery_matches
with_recovery_proof now expected recovery fn = in_tx (do
  current ← current_user expected.id
  guard (credentials_match now current expected) conflict
  λ db. (guard (recovery_matches (user_recovery expected.id db) recovery) conflict >> fn) db)

abbrev delete_recovery : ℕ → Db → Db
delete_recovery id db = record db { recoveries = delete_where (of_user id) db.recoveries }

-- INSERT … ON CONFLICT(user_id) DO UPDATE
abbrev upsert_recovery : ℕ → UserRecovery → Db → Db
upsert_recovery id next db =
    if exists_where (of_user id) db.recoveries
    then record db {
      recoveries = update_where (of_user id) (λ r. record r { settings = next }) db.recoveries;
    }
    else record db { recoveries = db.recoveries ++ record { user_id = id; settings = next } ∷ [] }

abbrev store_recovery : ℕ → Option UserRecovery → Db → Db
store_recovery id none db = delete_recovery id db
store_recovery id (some next) db = upsert_recovery id next db

unfoldable pub set_user_recovery :
    ℕ → User → Option UserRecovery → Option UserRecovery → Op (Unit {0})
set_user_recovery now expected old next =
    with_recovery_proof now expected old
      (λ db. (ok tt, update_user expected.id (cleared now) (store_recovery expected.id next db)))

abbrev pub recovered : ℕ → Text → User → User
recovered now hash u = record u {
  password_hash = hash;
  failed_count = 0;
  locked_until = none;
  updated_at = now;
}

abbrev pub owned_by : ℕ → Session → Bool
owned_by id s = s.user_id == id

-- The password, the sessions and the settings change in one transaction.
abbrev pub write_recovered : ℕ → ℕ → Text → Op (Unit {0})
write_recovered now id hash db = (
  ok tt,
  record (update_user id (recovered now hash) db) {
    sessions = delete_where (owned_by id) db.sessions;
    recoveries = delete_where (of_user id) db.recoveries;
  },
)

unfoldable pub recover_user_password : ℕ → User → Option UserRecovery → Text → Op (Unit {0})
recover_user_password now expected none hash db = (err conflict, db)
recover_user_password now expected (some recovery) hash db =
    with_recovery_proof now expected (some recovery) (write_recovered now expected.id hash) db
