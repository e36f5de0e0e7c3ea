-- ===== src/Tests/Account.antt =====
-- Sessions and changes of accounts on the small panel.
use fluxlite.Common.{ℕ, ◌≡◌, refl, ◌⊎◌, Text, codes, text_eq, byte_len, Option, some, ok, err}
use fluxlite.Auth.Db.{
  User, setup_closed, no_session, count_users, set_user_password, user_by_id, create_user,
  delete_user_sessions_except,
}
use fluxlite.Auth.Login.{validate_credential_strength}
use fluxlite.Auth.Account.{authenticate, change_password, create_initial_user, setup_needed}
use fluxlite.Auth.Account.Sessions.{Accepted, Changed, authenticate_sound, change_password_revokes}
use fluxlite.Auth.Account.Setup.{setup_once}
use fluxlite.Tests.Data.{toy, salt, admin_name, admin_password, accounts, no_accounts}

authenticate_sound_example :
    ((u : User) × (authenticate 100 (codes "t1") accounts ≡ (ok u, accounts))
      × Accepted 100 (codes "t1") accounts u)
    ⊎ ((authenticate 100 (codes "t1") accounts).0 ≡ err no_session)
authenticate_sound_example = authenticate_sound 100 (codes "t1") accounts

abbrev next_password : Text
next_password = codes "battery staple"

change_password_revokes_example :
    Changed toy 100
      (some salt)
      1
      admin_password
      next_password
      (codes "t1")
      accounts
      (change_password toy 100 (some salt) 1 admin_password next_password (codes "t1") accounts).1
unfolding text_eq byte_len change_password user_by_id validate_credential_strength set_user_password
    delete_user_sessions_except
change_password_revokes_example =
    change_password_revokes toy 100 (some salt) 1 admin_password next_password (codes "t1") accounts
      refl

setup_once_example :
    let db' =
      (create_initial_user toy 100
        (some salt)
        (some (codes "key"))
        admin_name
        admin_password
        no_accounts).1 in
    (count_users no_accounts ≡ 0)
    × (count_users db' ≡ 1)
    × ((now' : ℕ) (salt' key' : Option Text) (username' password' : Text)
        → create_initial_user toy now' salt' key' username' password' db' ≡ (err setup_closed, db'))
unfolding text_eq byte_len create_initial_user setup_needed count_users validate_credential_strength
    create_user
setup_once_example =
    setup_once toy 100 (some salt) (some (codes "key")) admin_name admin_password (codes "key")
      no_accounts refl
