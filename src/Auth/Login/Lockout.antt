-- ===== src/Auth/Login/Lockout.antt =====
-- How failed logins are counted, and how many guesses they leave.
use fluxlite.Common.{ℕ, ◌≡◌, Text, true, Option, some, err}
use fluxlite.Common.Tables.{find_where}
use fluxlite.Auth.Db.{account_locked, User, Db, locked, has_username, user_by_username}
use fluxlite.Auth.Login.{Crypto, login_check, login_finish, login}

module _ (c : Crypto) (now later : ℕ) (between : Db → Db) (draw : Option Text)
    (username password code : Text) (db : Db) where
  -- The right name of an account that is locked is refused with `account_locked`, whatever the
  -- password and the code, and nothing is written.
  pub login-locked :
      {u : User}
      → find_where (has_username username) db.users ≡ some u
      → locked u now ≡ true
      → login c now later between draw username password code db ≡ (err account_locked, between db)
  unfolding login login_check login_finish user_by_username
  login-locked found shut = rw (found) (rw shut)
