-- ===== src/Tests/Login.antt =====
-- Logins on the small panel.
use fluxlite.Common.{ℕ, ◌+◌, refl, codes, text_eq, [], none, some}
use fluxlite.Auth.Db.{
  Db, locked, user_by_username, create_session_if_credentials_match, credentials_match,
}
use fluxlite.Auth.Login.{session_ttl, login_check, login_finish, login}
use fluxlite.Auth.Login.Sound.{Admitted, login_sound}
use fluxlite.Auth.Login.Guesses.{Attempt}
use fluxlite.Tests.Data.{toy, admin_name, admin_password, admin_code, accounts}

abbrev quiet : Db → Db
quiet db = db

login_sound_example :
    let db' =
      (login toy 100 101 quiet
        (some (codes "t3"))
        admin_name
        admin_password
        admin_code
        accounts).1 in
    Admitted toy 100 101 quiet
      (some (codes "t3"))
      admin_name
      admin_password
      admin_code
      accounts
      (codes "t3")
      (100 + session_ttl)
      db'
unfolding text_eq login login_check login_finish user_by_username locked
    create_session_if_credentials_match credentials_match
login_sound_example =
    login_sound toy 100 101 quiet (some (codes "t3")) admin_name admin_password admin_code accounts
      refl

abbrev guess : ℕ → Attempt
guess now = record { now = now; later = now; draw = none; password = codes "guess"; code = [] }
