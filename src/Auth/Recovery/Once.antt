-- ===== src/Auth/Recovery/Once.antt =====
-- A recovery that succeeds, and why its code does not work again.
use fluxlite.Common.{
  ℕ, ◌≡◌, refl, ◌≢◌, ap, ◌∙◌, Text, text_eq, text_eq_sound, trim_space, true, false, Option, none,
  some, Option-cases, value_of, inl, inr, Result, ok, err, arith, All, All-map,
}
use fluxlite.Common.Tables.{find_where}
use fluxlite.Auth.Db.{Error, invalid_recovery, User, UserRecovery, Db, has_id, has_username, locked}
use fluxlite.Auth.Db.Recovery.{user_recovery, recover_user_password, recovery_matches}
use fluxlite.Auth.Db.Laws.{IsOpen, SameCredentials, locked-IsOpen, credentials_match-Same}
use fluxlite.Auth.Login.Sound.{code_lem}
use fluxlite.Auth.Db.Recovery.Laws.{recover-Consumed}
use fluxlite.Auth.Login.{Crypto, code_ok, count_failure}
use fluxlite.Auth.Recovery.{Proof, recovery_identity, recovery_failure, reset_recovered_password}

-- Settings that match are the same ones.
recovery_matches-same :
    (a : Option UserRecovery) (b : UserRecovery) → recovery_matches a (some b) ≡ true → a ≡ some b
unfolding recovery_matches
recovery_matches-same none b h = cc
recovery_matches-same (some a) b h =
    let q : a.question ≡ b.question = text_eq_sound _ _ (ground arith) in
    let s : a.answer_hash ≡ b.answer_hash = text_eq_sound _ _ (ground arith) in
    let t : a.code_hash ≡ b.code_hash = text_eq_sound _ _ (ground arith) in
    λ i. some (record { question = q i; answer_hash = s i; code_hash = t i })

module _ (c : Crypto) (now : ℕ) (username token : Text) (db : Db) where
  -- The account and the settings that a code identifies.
  pub record Identified (u : User) (r : UserRecovery) : Type 0 where
    pub known : find_where (has_username (trim_space username)) db.users ≡ some u
    pub configured : user_recovery u.id db ≡ some r
    pub code_right : r.code_hash ≡ c.recovery_digest (trim_space token)
    pub not_locked : IsOpen now u

  pub identity_known :
      {p : Proof}
      → recovery_identity c now username token db ≡ ok p
      → (r : UserRecovery) × (p.recovery ≡ some r) × Identified p.user r
  unfolding recovery_identity
  identity_known {p} h =
      let known : find_where (has_username (trim_space username)) db.users ≢ none =
        λ gone. ground arith in
      let (u, found) = value_of (find_where (has_username (trim_space username)) db.users) known in
      let set : user_recovery u.id db ≢ none = λ gone. ground arith in
      let (r, configured) = value_of (user_recovery u.id db) set in
      let right : text_eq r.code_hash (c.recovery_digest (trim_space token)) ≡ true =
        ground arith in
      let open_now : locked u now ≡ false = ground arith in
      let same : p ≡ record { user = u; recovery = some r } = ground arith in
      rw same (
        r,
        refl,
        record {
          known = found;
          configured = configured;
          code_right = text_eq_sound _ _ right;
          not_locked = locked-IsOpen now u open_now;
        },
      )

  -- Without recovery settings no code identifies an account.
  pub identity_none :
      ((v : User)
        → find_where (has_username (trim_space username)) db.users ≡ some v
        → user_recovery v.id db ≡ none)
      → recovery_identity c now username token db ≡ err invalid_recovery
  unfolding recovery_identity
  identity_none h = elim (Option-cases (find_where (has_username (trim_space username)) db.users)) [
    | inl gone ↦ rw gone
    | inr (u, found) ↦ rw (found, h u found)
  ]

module _ (c : Crypto) (now later : ℕ) (between : Db → Db) (salt : Option Text)
    (username token answer code password : Text) (db : Db) where
  pub record Reset (db' : Db) : Type 0 where
    pub user : User
    pub settings : UserRecovery
    pub salt_drawn : Text
    pub identified : Identified c now username token db user settings
    pub answer_right : c.verify_password (trim_space answer) settings.answer_hash ≡ ok true
    pub factor_right :
        user.totp_enrolled ≡ true → c.validate_totp (trim_space code) user.totp_secret now ≡ true
    pub row : User
    pub found : find_where (has_id user.id) (between db).users ≡ some row
    pub still : IsOpen later row × SameCredentials row user
    pub current : user_recovery user.id (between db) ≡ some settings
    pub replaced :
        find_where (has_id user.id) db'.users
        ≡ some (record row {
          password_hash = c.hash_password salt_drawn password;
          failed_count = 0;
          locked_until = none;
          updated_at = later;
        })
    pub signed_out : All (λ s. s.user_id ≢ user.id) db'.sessions
    pub spent : user_recovery user.id db' ≡ none
    pub names_kept :
        (name : Text) {v : User}
        → find_where (has_username name) db'.users ≡ some v
        → (w : User) × (find_where (has_username name) (between db).users ≡ some w) × (v.id ≡ w.id)

  reset_identity :
      {db' : Db}
      → reset_recovered_password c now later between salt username token answer code password db
        ≡ (ok tt, db')
      → (p : Proof) × (recovery_identity c now username token db ≡ ok p)
  unfolding reset_recovered_password
  reset_identity h = go (recovery_identity c now username token db) refl
    where
      go :
          (r : Result Error Proof)
          → recovery_identity c now username token db ≡ r
          → (p : Proof) × (recovery_identity c now username token db ≡ ok p)
      go (ok p) e = (p, e)
      go (err x) e = ground arith

  reset_steps :
      {db' : Db} (u : User) (r : UserRecovery)
      → recovery_identity c now username token db ≡ ok (record { user = u; recovery = some r })
      → reset_recovered_password c now later between salt username token answer code password db
        ≡ (ok tt, db')
      → (c.verify_password (trim_space answer) r.answer_hash ≡ ok true)
        × (code_ok c now u (trim_space code) ≡ true)
        × (salt ≢ none)
        × ((s : Text)
            → salt ≡ some s
            → recover_user_password later u (some r) (c.hash_password s password) (between db)
              ≡ (ok tt, db'))
  unfolding reset_recovered_password recovery_failure count_failure
  reset_steps u r e h = (ground arith, ground arith, λ g. ground arith, λ s g. ground arith)

  -- A recovery that succeeds was given the code and the answer stored for an account whose lock, if
  -- any, had passed, and its second factor's code where one is enrolled; when the transaction ran, no
  -- lock lasted, the account's row had the hash, the name and the second factor that were checked, and
  -- its settings were those that were checked; the row got the hash of the new password and no
  -- failures, no session of the account is left, and its settings are gone.
  pub recovery_sound :
      {db' : Db}
      → reset_recovered_password c now later between salt username token answer code password db
        ≡ (ok tt, db')
      → Reset db'
  recovery_sound {db'} h =
      let (p, found) = reset_identity h in
      let (r, has, identified) = identity_known c now username token db found in
      let whole : p ≡ record { user = p.user; recovery = some r } =
        λ i. record { user = p.user; recovery = has i } in
      let (answered, factor, drew, wrote) = reset_steps p.user r (found ∙ ap ok whole) h in
      let (s, got) = value_of salt drew in
      let (consumed, current) =
        recover-Consumed later p.user r (c.hash_password s password) (between db) (wrote s got) in
      record {
        user = p.user;
        settings = r;
        salt_drawn = s;
        identified = identified;
        answer_right = answered;
        factor_right = λ e. code_lem c now (trim_space code) p.user e factor;
        row = consumed.row;
        found = consumed.found;
        still = credentials_match-Same later consumed.row p.user consumed.matching;
        current = recovery_matches-same (user_recovery p.user.id (between db)) r current;
        replaced = consumed.replaced;
        signed_out = All-map (λ s e own. ground (arith, e, own)) db'.sessions consumed.signed_out;
        spent = consumed.spent;
        names_kept = λ name e. consumed.names_kept name e;
      }

  -- A recovery that succeeds uses up the code: on the database that it leaves, every further
  -- attempt with a name that finds the same account or none is refused with `invalid_recovery`,
  -- whatever else it is given, and writes nothing.
  pub recovery_once :
      {db' : Db} {u : User}
      → reset_recovered_password c now later between salt username token answer code password db
        ≡ (ok tt, db')
      → find_where (has_username (trim_space username)) db.users ≡ some u
      → (now' later' : ℕ) (salt' : Option Text) (username' token' answer' code' password' : Text)
      → ((v : User)
          → find_where (has_username (trim_space username')) db'.users ≡ some v
          → v.id ≡ u.id)
      → reset_recovered_password c now' later'
          (λ d. d)
          salt'
          username'
          token'
          answer'
          code'
          password'
          db'
        ≡ (err invalid_recovery, db')
  unfolding reset_recovered_password
  recovery_once {db'} {u} done known now' later' salt' username' token' answer' code' password'
        same =
      let r = recovery_sound done in
      let here : u.id ≡ r.user.id = cc (known, r.identified.known) in
      rw (identity_none c now' username' token' db' (λ v found. rw (same v found ∙ here) r.spent))
