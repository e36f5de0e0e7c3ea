-- ===== src/Auth/Account/Setup.antt =====
-- First-run setup.
use fluxlite.Common.{
  ℕ, suc, ◌≡◌, refl, ◌≢◌, Text, true, List, [], ◌∷◌, ◌++◌, Option, none, some, ok, err, arith,
}
use fluxlite.Common.Tables.{count_where}
use fluxlite.Auth.Db.{conflict, setup_closed, User, Db, count_users, create_user}
use fluxlite.Auth.Login.{Crypto}
use fluxlite.Auth.Account.{setup_needed, new_user, create_initial_user}

count_where-append :
    (xs : List User) (x : User)
    → count_where (λ _. true) (xs ++ x ∷ []) ≡ suc (count_where (λ _. true) xs)
count_where-append [] x = refl
count_where-append (y ∷ xs) x = rw (count_where-append xs x)

create_user-count :
    (now : ℕ) (u : User) (db : Db)
    → (create_user now u db).0 ≢ err conflict
    → count_users (create_user now u db).1 ≡ suc (count_users db)
unfolding create_user count_users
create_user-count now u db h = ground (
  arith,
  count_where-append db.users (record u { id = db.next_id; created_at = now; updated_at = now }),
)

module _ (c : Crypto) where
  -- Once any account exists, setup is refused whatever it is given, and writes nothing.
  setup_refused :
      (now : ℕ) (salt key : Option Text) (username password : Text) (db : Db)
      → count_users db ≢ 0
      → create_initial_user c now salt key username password db ≡ (err setup_closed, db)
  unfolding create_initial_user setup_needed
  setup_refused now salt key username password db h = ground arith

  created :
      (now : ℕ) (salt key : Option Text) (username password secret : Text) (db : Db) {db' : Db}
      → create_initial_user c now salt key username password db ≡ (ok secret, db')
      → (count_users db ≡ 0) × (count_users db' ≡ 1)
  unfolding create_initial_user setup_needed
  created now none key username password secret db h = ground arith
  created now (some s) none username password secret db h = ground arith
  created now (some s) (some k) username password secret db {db'} h =
      let u = new_user username (c.hash_password s password) k in
      let empty : count_users db ≡ 0 = ground arith in
      let stored : (create_user now u db).1 ≡ db' = ground arith in
      let counted = create_user-count now u db (λ taken. ground arith) in
      (empty, rw (← stored) (omega (arith, counted)))

  -- A setup that succeeds found no account and leaves exactly one; on the database that it leaves,
  -- every later call is refused with `setup_closed` and writes nothing.
  pub setup_once :
      (now : ℕ) (salt key : Option Text) (username password secret : Text) (db : Db) {db' : Db}
      → create_initial_user c now salt key username password db ≡ (ok secret, db')
      → (count_users db ≡ 0)
        × (count_users db' ≡ 1)
        × ((now' : ℕ) (salt' key' : Option Text) (username' password' : Text)
            → create_initial_user c now' salt' key' username' password' db'
              ≡ (err setup_closed, db'))
  setup_once now salt key username password secret db {db'} h =
      let (before, after) = created now salt key username password secret db h in
      (
        before,
        after,
        λ now' salt' key' username' password'.
            setup_refused now' salt' key' username' password' db' (omega arith),
      )
