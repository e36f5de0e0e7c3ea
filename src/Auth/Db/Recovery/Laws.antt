-- ===== src/Auth/Db/Recovery/Laws.antt =====
-- What a change under a recovery proof needs, and what it leaves.
use fluxlite.Common.{
  ℕ, ◌≡◌, refl, ◌≢◌, subst, sym, Text, true, false, Option, none, some, Option-cases, value_of, inl,
  inr, ok, err, arith, All,
}
use fluxlite.Common.Tables.{find_where, delete_gone, find-none_of_All, find-update}
use fluxlite.Auth.Db.{
  Error, User, UserRecovery, Db, Op, has_id, has_username, credentials_match, update_user,
}
use fluxlite.Auth.Db.Laws.{find-update_user}
use fluxlite.Auth.Db.Recovery.{
  user_recovery, recovery_matches, with_recovery_proof, recover_user_password, of_user, owned_by,
  recovered, write_recovered,
}

module _ (now : ℕ) (expected : User) (recovery : Option UserRecovery) (fn : Op (Unit {0}))
    (db : Db) where
  -- The proof that the transaction checked is current.
  pub record Current : Type 0 where
    pub row : User
    pub found : find_where (has_id expected.id) db.users ≡ some row
    pub matching : credentials_match now row expected ≡ true
    pub settings_match : recovery_matches (user_recovery expected.id db) recovery ≡ true

  -- A transaction that commits ran under a current proof, and left what `fn` wrote.
  pub with_recovery_proof-Current :
      {db' : Db}
      → with_recovery_proof now expected recovery fn db ≡ (ok tt, db')
      → Current × (fn db ≡ (ok tt, db'))
  unfolding with_recovery_proof
  with_recovery_proof-Current h =
      let known : find_where (has_id expected.id) db.users ≢ none = λ gone. ground arith in
      let (u, found) = value_of (find_where (has_id expected.id) db.users) known in
      (
        record { row = u; found = found; matching = ground arith; settings_match = ground arith },
        ground arith,
      )

  -- One that fails leaves the database as it was.
  pub with_recovery_proof_atomic :
      {e : Error} {db' : Db}
      → with_recovery_proof now expected recovery fn db ≡ (err e, db')
      → db' ≡ db
  unfolding with_recovery_proof
  with_recovery_proof_atomic h = ground arith

-- After a recovery: a new hash, no session, no settings.
pub record Consumed (now : ℕ) (u : User) (hash : Text) (db db' : Db) : Type 0 where
  pub row : User
  pub found : find_where (has_id u.id) db.users ≡ some row
  pub matching : credentials_match now row u ≡ true
  pub replaced : find_where (has_id u.id) db'.users ≡ some (recovered now hash row)
  pub signed_out : All (λ s. owned_by u.id s ≡ false) db'.sessions
  pub spent : user_recovery u.id db' ≡ none
  pub names_kept :
      (name : Text) {v : User}
      → find_where (has_username name) db'.users ≡ some v
      → (w : User) × (find_where (has_username name) db.users ≡ some w) × (v.id ≡ w.id)

names-recovered :
    (now id : ℕ) (hash name : Text) (db : Db) {v : User}
    → find_where (has_username name) (update_user id (recovered now hash) db).users ≡ some v
    → (w : User) × (find_where (has_username name) db.users ≡ some w) × (v.id ≡ w.id)
names-recovered now id hash name db {v} h =
    let same =
      find-update (has_username name) (has_id id) (recovered now hash) db.users (λ x. refl) in
    elim (Option-cases (find_where (has_username name) db.users)) [
      | inl gone ↦ ground arith
      | inr (w, found) ↦ (w, found, ground arith)
    ]

write-Consumed :
    (now : ℕ) (u : User) (hash : Text) (db : Db) {row : User}
    → find_where (has_id u.id) db.users ≡ some row
    → credentials_match now row u ≡ true
    → Consumed now u hash db (write_recovered now u.id hash db).1
unfolding user_recovery
write-Consumed now u hash db {row} found matching = record {
  row = row;
  found = found;
  matching = matching;
  replaced = find-update_user u.id (recovered now hash) db (λ v. refl) found;
  signed_out = delete_gone (owned_by u.id) db.sessions;
  spent = rw (find-none_of_All (of_user u.id) _ (delete_gone (of_user u.id) db.recoveries));
  names_kept = λ name h. names-recovered now u.id hash name db h;
}

pub recover-Consumed :
    (now : ℕ) (u : User) (r : UserRecovery) (hash : Text) (db : Db) {db' : Db}
    → recover_user_password now u (some r) hash db ≡ (ok tt, db')
    → Consumed now u hash db db' × (recovery_matches (user_recovery u.id db) (some r) ≡ true)
unfolding recover_user_password
recover-Consumed now u r hash db {db'} h =
    let (current, wrote) =
      with_recovery_proof-Current now u (some r) (write_recovered now u.id hash) db h in
    let left : db' ≡ (write_recovered now u.id hash db).1 = ground arith in
    (
      subst (λ d. Consumed now u hash db d) (sym left)
          (write-Consumed now u hash db current.found current.matching),
      current.settings_match,
    )
