-- ===== src/Auth/Recovery.antt =====
-- internal/auth/recovery.go: a security question and an offline code that reset a lost password.
-- `between` is what other requests commit between the checks and the transaction.
pub mod Once
pub mod Denied
use fluxlite.Common.{
  ℕ, Text, text_eq, length, trim_space, valid_string, Bool, true, false, not, ◌&&◌, ◌||◌, List, [],
  Option, none, some, ltb, ◌==◌, if◌then◌else◌, is_some, Result, ok, err,
}
use fluxlite.Common.Exec.{Exec, pure, raise, reads, guard, ◌>>=◌, ◌>>◌}
use fluxlite.Auth.Db.{
  Error, not_found, conflict, invalid_recovery, recovery_input, User, UserRecovery, Db, Op, locked,
  user_by_username, user_by_id,
}
use fluxlite.Auth.Db.Recovery.{user_recovery, set_user_recovery, recover_user_password}
use fluxlite.Auth.Login.{Crypto, code_ok, count_failure, drawn, validate_credential_strength}

pub record Proof : Type 0 where
  pub user : User
  pub recovery : Option UserRecovery

-- ErrConflict from the store means that the proof is stale.
abbrev stale : {A : Type 0} → Result Error A → Result Error A
stale (ok a) = ok a
stale (err conflict) = err invalid_recovery
stale (err e) = err e

abbrev unless_stale : {A : Type 0} → Op A → Op A
unless_stale m db = let (r, db') = m db in (stale r, db')

abbrev interleave : (Db → Db) → Op (Unit {0})
interleave between db = (ok tt, between db)

abbrev out_of_range : ℕ → ℕ → Text → Bool
out_of_range lo hi s = not (valid_string s) || ltb (length s) lo || ltb hi (length s)

module _ (c : Crypto) where
  -- `recoveryFailure`
  unfoldable pub recovery_failure : ℕ → ℕ → {A : Type 0} → Op A
  recovery_failure later id = count_failure c later id invalid_recovery

  -- `recoveryReauthentication`
  unfoldable pub recovery_reauthentication : ℕ → ℕ → ℕ → Text → Text → Op Proof
  unfolding user_by_id locked user_recovery recovery_failure
  recovery_reauthentication now later user_id password code = do
    u ← reads (user_by_id user_id)
    guard (not (locked u now)) invalid_recovery
    recovery ← reads (λ db. ok (user_recovery user_id db))
    password_ok ← reads (λ _. c.verify_password password u.password_hash)
    if password_ok && code_ok c now u (trim_space code)
        then pure (record { user = u; recovery = recovery })
        else recovery_failure later u.id

  abbrev settings : Text → Text → Text → Text → UserRecovery
  settings question answer salt token = record {
    question = question;
    answer_hash = c.hash_password salt answer;
    code_hash = c.recovery_digest (trim_space token);
  }

  -- `ConfigureRecovery`: the code that it returns is shown once.
  unfoldable pub configure_recovery :
      ℕ → ℕ → (Db → Db) → Option Text → Option Text → ℕ → Text → Text → Text → Text → Op Text
  unfolding recovery_reauthentication set_user_recovery
  configure_recovery now later between salt draw user_id password code question answer = do
    guard (not (out_of_range 3 120 (trim_space question))) recovery_input
    guard (not (out_of_range 4 256 (trim_space answer))) recovery_input
    p ← recovery_reauthentication now later user_id password code
    s ← drawn salt
    token ← drawn draw
    interleave between
    unless_stale (
        set_user_recovery later p.user p.recovery
          (some (settings (trim_space question) (trim_space answer) s token)))
    pure token

  -- `DisableRecovery`
  unfoldable pub disable_recovery : ℕ → ℕ → (Db → Db) → ℕ → Text → Text → Op (Unit {0})
  unfolding recovery_reauthentication set_user_recovery
  disable_recovery now later between user_id password code = do
    p ← recovery_reauthentication now later user_id password code
    interleave between
    unless_stale (set_user_recovery later p.user p.recovery none)

  abbrev identified : ℕ → Text → User → Option UserRecovery → Result Error Proof
  identified now token u none = err invalid_recovery
  identified now token u (some r) =
      if not (text_eq r.code_hash (c.recovery_digest (trim_space token)))
        || u.id == 0
        || locked u now
      then err invalid_recovery
      else ok (record { user = u; recovery = some r })

  abbrev identify : ℕ → Text → Db → Result Error User → Result Error Proof
  identify now token db (err e) = err invalid_recovery
  identify now token db (ok u) = identified now token u (user_recovery u.id db)

  -- `recoveryIdentity`: an unknown account and a wrong code are one error, and nothing is counted.
  unfoldable pub recovery_identity : ℕ → Text → Text → Db → Result Error Proof
  unfolding user_by_username
  recovery_identity now username token db =
      identify now token db (user_by_username (trim_space username) db)

  abbrev as_input : Result Error (Unit {0}) → Result Error (Unit {0})
  as_input (ok a) = ok a
  as_input (err e) = err recovery_input

  abbrev pub replace_password : ℕ → (Db → Db) → Option Text → Text → Proof → Op (Unit {0})
  replace_password later between salt password p = do
    reads (λ _. as_input (validate_credential_strength p.user.username password))
    s ← drawn salt
    interleave between
    unless_stale (recover_user_password later p.user p.recovery (c.hash_password s password))

  abbrev answer_hash : Option UserRecovery → Text
  answer_hash none = []
  answer_hash (some r) = r.answer_hash

  abbrev check_answer : ℕ → Text → Text → Proof → Result Error Bool
  check_answer now answer code p = elim (c.verify_password answer (answer_hash p.recovery)) [
    | ok answer_ok ↦ ok (answer_ok && code_ok c now p.user (trim_space code))
    | err e ↦ err e
  ]

  abbrev bad_answer : Text → Bool
  bad_answer answer = not (valid_string answer) || ltb 256 (length answer)

  -- `ResetRecoveredPassword`
  unfoldable pub reset_recovered_password :
      ℕ → ℕ → (Db → Db) → Option Text → Text → Text → Text → Text → Text → Op (Unit {0})
  unfolding recovery_failure
  reset_recovered_password now later between salt username token answer code password = do
    p ← reads (recovery_identity now username token)
    ok? ← reads (λ _.
        if bad_answer (trim_space answer)
        then ok false
        else check_answer now (trim_space answer) code p)
    if ok? then replace_password later between salt password p else recovery_failure later p.user.id
