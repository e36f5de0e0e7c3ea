-- ===== src/Auth/Db/Laws.antt =====
-- What the writes to the accounts table do to the row of one account, and to the others.
use fluxlite.Common.{
  ℕ, ◌≤◌, ◌≡◌, ◌≢◌, ltb, Text, text_eq_sound, true, false, [], ◌∷◌, ◌++◌, none, some, ◌==◌,
  Option-cases, inl, inr, ok, err, arith,
}
use fluxlite.Common.Tables.{exists_where, find_where, find-update_self, find-update_other}
use fluxlite.Auth.Db.{
  Error, User, Db, has_id, update_user, failed, cleared, record_login_failure, credentials_match,
  locked, create_session_if_credentials_match, has_token,
}

-- Writing columns other than the id.
abbrev pub KeepsId : (User → User) → Type 0
KeepsId f = (u : User) → (f u).id ≡ u.id

pub find-update_user :
    (id : ℕ) (f : User → User) (db : Db) {u : User}
    → KeepsId f
    → find_where (has_id id) db.users ≡ some u
    → find_where (has_id id) (update_user id f db).users ≡ some (f u)
find-update_user id f db k h = find-update_self (has_id id) f db.users (λ y e. rw (k y) e) h

pub find-update_user_other :
    (id j : ℕ) (f : User → User) (db : Db)
    → KeepsId f
    → id ≢ j
    → find_where (has_id j) (update_user id f db).users ≡ find_where (has_id j) db.users
find-update_user_other id j f db k h =
    find-update_other (has_id j) (has_id id) f db.users
      (λ x e. let same : (x.id == j) ≡ false = ground arith in (same, rw (k x) same))

pub failed-KeepsId : (now threshold lock_for n : ℕ) → KeepsId (failed now threshold lock_for n)
failed-KeepsId now threshold lock_for n u = ground arith

pub record_login_failure_lem :
    (now id threshold lock_for : ℕ) (db : Db) {v : User}
    → find_where (has_id id) db.users ≡ some v
    → record_login_failure now id threshold lock_for db
      ≡ (ok tt, update_user id (failed now threshold lock_for v.failed_count) db)
unfolding record_login_failure
record_login_failure_lem now id threshold lock_for db found = ground arith

-- A lock that has not passed is there only before its time.
abbrev pub IsOpen : ℕ → User → Type 0
IsOpen now u = (t : ℕ) → u.locked_until ≡ some t → t ≤ now

-- The columns that a login or a recovery was checked against.
abbrev pub SameCredentials : User → User → Type 0
SameCredentials u v =
    (u.password_hash ≡ v.password_hash)
    × (u.username ≡ v.username)
    × (u.totp_secret ≡ v.totp_secret)
    × (u.totp_enrolled ≡ v.totp_enrolled)

pub locked-IsOpen : (now : ℕ) (u : User) → locked u now ≡ false → IsOpen now u
unfolding locked
locked-IsOpen now u h t e = let k : ltb now t ≡ false = rw e at h in ground arith

pub credentials_match-Same :
    (now : ℕ) (u v : User) → credentials_match now u v ≡ true → IsOpen now u × SameCredentials u v
unfolding credentials_match
credentials_match-Same now u v h = (
  locked-IsOpen now u (ground arith),
  (
    text_eq_sound _ _ (ground arith),
    text_eq_sound _ _ (ground arith),
    text_eq_sound _ _ (ground arith),
    ground arith,
  ),
)

-- What a successful CreateSessionIfCredentialsMatch found, and what it wrote.
pub record Opened (now : ℕ) (expected : User) (token : Text) (expires : ℕ) (db db' : Db)
    : Type 0 where
  pub current : User
  pub found : find_where (has_id expected.id) db.users ≡ some current
  pub matching : credentials_match now current expected ≡ true
  pub opened :
      db'.sessions
      ≡ db.sessions
        ++ record { token = token; user_id = expected.id; expires_at = expires; created_at = now }
          ∷ []
  pub unlocked : find_where (has_id expected.id) db'.users ≡ some (cleared now current)
  pub fresh : exists_where (has_token token) db.sessions ≡ false

module _ (now : ℕ) (expected : User) (token : Text) (expires : ℕ) (db : Db) where
  unknown_user :
      {db' : Db}
      → find_where (has_id expected.id) db.users ≡ none
      → create_session_if_credentials_match now expected token expires db ≡ (ok tt, db')
      → ⊥
  unfolding create_session_if_credentials_match
  unknown_user e h = ground arith

  pub create_session-Opened :
      {db' : Db}
      → create_session_if_credentials_match now expected token expires db ≡ (ok tt, db')
      → Opened now expected token expires db db'
  unfolding create_session_if_credentials_match
  create_session-Opened {db'} h = elim (Option-cases (find_where (has_id expected.id) db.users)) [
    | inl e ↦ absurd (unknown_user e h)
    | inr (u, e) ↦ record {
      current = u;
      found = e;
      matching = ground arith;
      opened = ground arith;
      unlocked = ground (arith, find-update_user expected.id (cleared now) db {u = u});
      fresh = ground arith;
    }
  ]

  -- A transaction that fails changes nothing.
  pub create_session_atomic :
      {e : Error} {db' : Db}
      → create_session_if_credentials_match now expected token expires db ≡ (err e, db')
      → db' ≡ db
  unfolding create_session_if_credentials_match
  create_session_atomic h = ground arith
