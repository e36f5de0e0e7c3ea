-- ===== src/Tests/Recovery.antt =====
-- Password recoveries on the small panel.
use fluxlite.Common.{
  ◌≡◌, refl, Text, codes, text_eq, trim_space, byte_len, valid_string, false, none, some, ok, err,
  subst, sym,
}
use fluxlite.Common.Tables.{find_where}
use fluxlite.Auth.Db.{
  User, UserRecovery, Db, invalid_recovery, has_username, locked, user_by_username,
  credentials_match,
}
use fluxlite.Auth.Db.Recovery.{
  user_recovery, recovery_matches, with_recovery_proof, recover_user_password,
}
use fluxlite.Auth.Login.{validate_credential_strength}
use fluxlite.Auth.Recovery.{reset_recovered_password, recovery_identity}
use fluxlite.Auth.Recovery.Once.{Reset, recovery_sound, recovery_once}
use fluxlite.Tests.Data.{toy, salt, admin_name, admin_code, admin, settings, accounts}

abbrev quiet : Db → Db
quiet db = db

abbrev next_password : Text
next_password = codes "battery staple"

abbrev recovered : Db
recovered =
    (reset_recovered_password toy 100 101 quiet (some salt) admin_name (codes "code") (codes "rex!")
      admin_code next_password accounts).1

recovery_succeeds :
    reset_recovered_password toy 100 101 quiet
      (some salt)
      admin_name
      (codes "code")
      (codes "rex!")
      admin_code
      next_password
      accounts
    ≡ (ok tt, recovered)
unfolding text_eq trim_space byte_len valid_string reset_recovered_password recovery_identity
    user_by_username user_recovery locked validate_credential_strength recover_user_password
    with_recovery_proof credentials_match recovery_matches
recovery_succeeds = refl

recovery_sound_example :
    Reset toy 100 101 quiet
      (some salt)
      admin_name
      (codes "code")
      (codes "rex!")
      admin_code
      next_password
      accounts
      recovered
recovery_sound_example =
    recovery_sound toy 100 101 quiet (some salt) admin_name (codes "code") (codes "rex!") admin_code
      next_password accounts recovery_succeeds

recovered_id :
    (v : User)
    → find_where (has_username (trim_space admin_name)) recovered.users ≡ some v
    → v.id ≡ admin.id
unfolding text_eq trim_space byte_len valid_string reset_recovered_password recovery_identity
    user_by_username user_recovery locked validate_credential_strength recover_user_password
    with_recovery_proof credentials_match recovery_matches
recovered_id v e =
    let user : record admin {
      password_hash = codes "sbattery staple";
      failed_count = 0;
      locked_until = none;
      updated_at = 101;
    }
        ≡ v =
      cc in
    cc

recovery_once_example :
    reset_recovered_password toy 200 201 quiet none admin_name
      (codes "code")
      (codes "rex!")
      admin_code
      next_password
      recovered
    ≡ (err invalid_recovery, recovered)
unfolding text_eq trim_space
recovery_once_example =
    recovery_once toy 100 101 quiet (some salt) admin_name (codes "code") (codes "rex!") admin_code
      next_password accounts recovery_succeeds refl 200 201 none admin_name (codes "code")
      (codes "rex!") admin_code next_password recovered_id

wrong_code :
    (v : User) (r : UserRecovery)
    → find_where (has_username (trim_space admin_name)) accounts.users ≡ some v
    → user_recovery v.id accounts ≡ some r
    → text_eq r.code_hash (toy.recovery_digest (trim_space (codes "guess"))) ≡ false
unfolding text_eq trim_space user_recovery
wrong_code v r found stored =
    let user : admin ≡ v = cc in
    let kept : user_recovery admin.id accounts ≡ some r =
      subst (λ (w : User). user_recovery w.id accounts ≡ some r) (sym user) stored in
    let same : settings ≡ r = cc in rw (← same) refl
