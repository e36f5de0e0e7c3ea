-- ===== src/Auth/Account/Sessions.antt =====
-- Sessions: which tokens are accepted, and what a change of the password revokes.
use fluxlite.Common.{ap, ◌∙◌, sym, subst}
use fluxlite.Common.{
  ℕ, ◌≤◌, ◌<◌, ◌≡◌, refl, ◌≢◌, ◌⊎◌, Text, text_eq, text_eq_sound, text_eq_iff, Bool, true, false,
  [], Option, none, some, ltb, Bool-cases, Option-cases, inl, inr, ok, err, arith, All, All-map,
  value_of, ◌||◌, lt→ltb,
}
use fluxlite.Common.Tables.{find_where, select_where, delete_gone, delete_where, select-delete}
use fluxlite.Auth.Db.{
  no_session, User, Session, Db, has_id, has_token, update_user, session_user,
  delete_user_sessions_except, owned_except,
}
use fluxlite.Auth.Db.Laws.{find-update_user}
use fluxlite.Auth.Login.{Crypto}
use fluxlite.Auth.Account.{authenticate, change_password}

-- Why a token was accepted.
pub record Accepted (now : ℕ) (token : Text) (db : Db) (u : User) : Type 0 where
  pub session : Session
  pub listed : find_where (has_token token) db.sessions ≡ some session
  pub alive : now ≤ session.expires_at
  pub owner : find_where (has_id session.user_id) db.users ≡ some u

-- A token is accepted only for a stored session that has not expired, as the account that owns the
-- session, and nothing is written; any other outcome is the one error `no_session`.
pub authenticate_sound :
    (now : ℕ) (token : Text) (db : Db)
    → ((u : User) × (authenticate now token db ≡ (ok u, db)) × Accepted now token db u)
      ⊎ ((authenticate now token db).0 ≡ err no_session)
unfolding authenticate
authenticate_sound now token db = elim (Option-cases (find_where (has_token token) db.sessions)) [
  | inl gone ↦ inr (ground arith)
  | inr (s, listed) ↦ elim (Option-cases (find_where (has_id s.user_id) db.users)) [
    | inl gone ↦ inr (ground arith)
    | inr (u, owner) ↦ elim (Bool-cases (text_eq token [] || ltb s.expires_at now)) [
      | inl late ↦ inr (ground arith)
      | inr alive ↦ inl (
        u,
        ground arith,
        record { session = s; listed = listed; alive = ground arith; owner = owner },
      )
    ]
  ]
]

-- A session that is found for a token that is not empty, and that has expired, is refused with
-- `no_session`, and its token is gone from the table.
pub authenticate_expired :
    (now : ℕ) (token : Text) (db : Db) {s : Session}
    → find_where (has_token token) db.sessions ≡ some s
    → s.expires_at < now
    → token ≢ []
    → ((authenticate now token db).0 ≡ err no_session)
      × All (λ r. has_token token r ≡ false) (authenticate now token db).1.sessions
unfolding authenticate
authenticate_expired now token db {s} found late named = elim (Bool-cases (text_eq token [])) [
  | inl e ↦ absurd (named (text_eq_sound _ _ e))
  | inr e ↦
      rw (e, session_user, found, lt→ltb _ _ late) (refl, delete_gone (has_token token) db.sessions)
]

-- A session that stays is of another account, or the one that is kept.
kept_token :
    (id : ℕ) (keep : Text) (s : Session)
    → owned_except id keep s ≡ false
    → s.user_id ≡ id
    → s.token ≡ keep
kept_token id keep s e own = text_eq_sound s.token keep (ground arith)

apart_kept :
    (id : ℕ) (keep : Text) (s : Session)
    → (s.user_id ≢ id) ⊎ (s.token ≡ keep)
    → owned_except id keep s ≡ false
apart_kept id keep s (inl other) = ground arith
apart_kept id keep s (inr same) =
    let e : text_eq s.token keep ≡ true = (text_eq_iff s.token keep).1 same in ground arith

module _ (c : Crypto) (now : ℕ) (salt : Option Text) (user_id : ℕ) (current next keep : Text)
    (db : Db) where
  pub record Changed (db' : Db) : Type 0 where
    pub user : User
    pub salt_drawn : Text
    pub row : find_where (has_id user_id) db.users ≡ some user
    pub right : c.verify_password current user.password_hash ≡ ok true
    pub hashed :
        find_where (has_id user_id) db'.users
        ≡ some (record user { password_hash = c.hash_password salt_drawn next; updated_at = now })
    pub revoked : All (λ s. s.user_id ≡ user_id → s.token ≡ keep) db'.sessions
    pub others :
        (q : Session → Bool)
        → ((s : Session) → q s ≡ true → (s.user_id ≢ user_id) ⊎ (s.token ≡ keep))
        → select_where q db'.sessions ≡ select_where q db.sessions

  changed_rows :
      (u : User) (s : Text)
      → find_where (has_id user_id) db.users ≡ some u
      → find_where
          (has_id user_id)
          (update_user user_id
            (λ r. record r { password_hash = c.hash_password s next; updated_at = now })
            db).users
        ≡ some (record u { password_hash = c.hash_password s next; updated_at = now })
  changed_rows u s row = find-update_user user_id _ db (λ r. refl) row

  -- The steps that a successful change went through.
  change_password_steps :
      {db' : Db} (u : User) (s : Text)
      → find_where (has_id user_id) db.users ≡ some u
      → salt ≡ some s
      → change_password c now salt user_id current next keep db ≡ (ok tt, db')
      → (c.verify_password current u.password_hash ≡ ok true)
        × (db'
            ≡ delete_user_sessions_except user_id keep (
                update_user user_id
                  (λ r. record r { password_hash = c.hash_password s next; updated_at = now })
                  db))
  unfolding change_password
  change_password_steps u s row got h = (ground arith, ground arith)

  change_password_inputs :
      {db' : Db}
      → change_password c now salt user_id current next keep db ≡ (ok tt, db')
      → (find_where (has_id user_id) db.users ≢ none) × (salt ≢ none)
  unfolding change_password
  change_password_inputs h = (λ gone. ground arith, λ gone. ground arith)

  -- A change of the password that succeeds was given the current one; it stores the hash of the new
  -- one, and the account's sessions that are left all have the token that was to be kept, while the
  -- sessions of other accounts and those of that token stay, in their order.
  pub change_password_revokes :
      {db' : Db}
      → change_password c now salt user_id current next keep db ≡ (ok tt, db')
      → Changed db'
  unfolding delete_user_sessions_except
  change_password_revokes h =
      let (known, drew) = change_password_inputs h in
      let (u, row) = value_of (find_where (has_id user_id) db.users) known in
      let (s, got) = value_of salt drew in
      let (right, result) = change_password_steps u s row got h in
      record {
        user = u;
        salt_drawn = s;
        row = row;
        right = right;
        hashed = ap (λ d. find_where (has_id user_id) d.users) result ∙ changed_rows u s row;
        revoked =
            subst (λ d. All (λ s. s.user_id ≡ user_id → s.token ≡ keep) d.sessions) (sym result)
              (All-map (λ x e own. kept_token user_id keep x e own)
                (delete_where (owned_except user_id keep) db.sessions)
                (delete_gone (owned_except user_id keep) db.sessions));
        others = λ q apart.
            ap (λ d. select_where q d.sessions) result
            ∙ select-delete q (owned_except user_id keep) db.sessions
                (λ x e. apart_kept user_id keep x (apart x e));
      }
