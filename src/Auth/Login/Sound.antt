-- ===== src/Auth/Login/Sound.antt =====
-- Who is let in by a login, and what the attempt leaves behind.
use fluxlite.Common.{
  ℕ, ◌+◌, ◌≡◌, refl, ap, Text, true, [], ◌∷◌, ◌++◌, Option, none, some, ok, arith,
}
use fluxlite.Common.Tables.{find_where}
use fluxlite.Auth.Db.{User, Db, has_id, has_username, create_session_if_credentials_match}
use fluxlite.Auth.Db.Laws.{
  Opened, create_session-Opened, IsOpen, SameCredentials, locked-IsOpen, credentials_match-Same,
}
use fluxlite.Auth.Login.{
  Crypto, session_ttl, Verdict, refused, failure, proved, code_ok, login_check, open_session,
  login_finish, count_failure, login,
}

pub code_lem :
    (c : Crypto) (now : ℕ) (code : Text) (u : User)
    → u.totp_enrolled ≡ true
    → code_ok c now u code ≡ true
    → c.validate_totp code u.totp_secret now ≡ true
code_lem c now code u e h = rw e at h

module _ (c : Crypto) (now : ℕ) (username password code : Text) (db : Db) where
  -- Why a check lets a user pass.
  pub record Passed (u : User) : Type 0 where
    pub known : find_where (has_username username) db.users ≡ some u
    pub not_locked : IsOpen now u
    pub password_right : c.verify_password password u.password_hash ≡ ok true
    pub code_right : u.totp_enrolled ≡ true → c.validate_totp code u.totp_secret now ≡ true

  pub login_check-Passed :
      {u : User} → login_check c now username password code db ≡ proved u → Passed u
  unfolding login_check
  login_check-Passed {u} h = record {
    known = ground arith;
    not_locked = locked-IsOpen now u (ground arith);
    password_right = ground arith;
    code_right = λ e. code_lem c now code u e (ground arith);
  }

module _ (c : Crypto) (now later : ℕ) (between : Db → Db) (draw : Option Text)
    (username password code : Text) (db : Db) where
  -- An account that the checks let pass, and a transaction that found its credentials unchanged.
  pub record Admitted (token : Text) (expires : ℕ) (db' : Db) : Type 0 where
    pub user : User
    pub passed : Passed c now username password code db user
    pub drawn_token : draw ≡ some token
    pub lifetime : expires ≡ now + session_ttl
    pub row : User
    pub found : find_where (has_id user.id) (between db).users ≡ some row
    pub still : IsOpen later row × SameCredentials row user
    pub opened :
        db'.sessions
        ≡ (between db).sessions
          ++ record { token = token; user_id = user.id; expires_at = expires; created_at = later }
            ∷ []
    pub cleared :
        find_where (has_id user.id) db'.users
        ≡ some (record row { failed_count = 0; locked_until = none; updated_at = later })

  open_session-Opened :
      (u : User) (t : Text) (d : Db) {token : Text} {expires : ℕ} {db' : Db}
      → open_session c later u t (now + session_ttl) d ≡ (ok (token, expires), db')
      → (t ≡ token) × (expires ≡ now + session_ttl) × Opened later u token expires d db'
  open_session-Opened u t d {token} {expires} {db'} h =
      let same : t ≡ token = ground arith in
      let until : expires ≡ now + session_ttl = ground arith in
      (
        same,
        until,
        rw (← same, until)
            (create_session-Opened later u t (now + session_ttl) d (
              let r = create_session_if_credentials_match later u t (now + session_ttl) d in
              ground arith)),
      )

  finish_opens :
      (u : User) (d : Option Text) (t : Db) {token : Text} {expires : ℕ} {db' : Db}
      → login_finish c now later d (proved u) t ≡ (ok (token, expires), db')
      → (d ≡ some token) × (expires ≡ now + session_ttl) × Opened later u token expires t db'
  unfolding login_finish
  finish_opens u none t h = cc
  finish_opens u (some token) t h =
      let (same, until, opened) = open_session-Opened u token t h in (ap some same, until, opened)

  finish_refuses :
      (v : Verdict) (t : Db) {r : Text × ℕ} {db' : Db}
      → login_finish c now later draw v t ≡ (ok r, db')
      → (u : User) × (v ≡ proved u)
  unfolding login_finish count_failure
  finish_refuses (refused e) t h = cc
  finish_refuses (failure id) t h = ground arith
  finish_refuses (proved u) t h = (u, refl)

  -- A login that succeeds was given the password of the account, and its current code where a second
  -- factor is enrolled, while no lock of the account lasted; when the session was stored no lock
  -- lasted either, and the account's row had the hash, the name, the second factor and its enrolment
  -- that were verified. The one session that is added belongs to that account and ends `session_ttl`
  -- after the check; the account's failures go back to 0, and its lock is gone.
  pub login_sound :
      {token : Text} {expires : ℕ} {db' : Db}
      → login c now later between draw username password code db ≡ (ok (token, expires), db')
      → Admitted token expires db'
  unfolding login
  login_sound h =
      let (u, checked) =
        finish_refuses (login_check c now username password code db) (between db) h in
      let (got, until, opened) = finish_opens u draw (between db) (rw checked at h) in
      record {
        user = u;
        passed = login_check-Passed c now username password code db checked;
        drawn_token = got;
        lifetime = until;
        row = opened.current;
        found = opened.found;
        still = credentials_match-Same later opened.current u opened.matching;
        opened = opened.opened;
        cleared = opened.unlocked;
      }
