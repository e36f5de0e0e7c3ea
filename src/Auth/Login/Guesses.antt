-- ===== src/Auth/Login/Guesses.antt =====
-- How many wrong passwords and codes an attacker gets to try between two lockouts.
use fluxlite.Common.{
  ℕ, suc, ◌+◌, ◌-◌, ◌≤◌, ◌<◌, ◌≡◌, Text, List, [], ◌∷◌, Option, some, if◌then◌else◌,
}
use fluxlite.Common.Tables.{find_where}
use fluxlite.Auth.Db.{User, Db, locked, has_id, has_username}
use fluxlite.Auth.Login.{
  Crypto, lock_threshold, lock_duration, Verdict, refused, failure, proved, login_check, login,
}

pub record Attempt : Type 0 where
  pub now : ℕ
  pub later : ℕ
  pub draw : Option Text
  pub password : Text
  pub code : Text

abbrev pub tally : Verdict → ℕ → ℕ
tally (refused e) n = n
tally (failure id) n = suc n
tally (proved u) n = 0

-- All of the attempts fall in a stretch of time shorter than a lockout.
abbrev pub IsWithin : ℕ → Attempt → Type 0
IsWithin end a = (a.now ≤ end) × (end < a.later + lock_duration)

abbrev pub Watched : Text → User → Db → Type 0
Watched username u db =
    (find_where (has_username username) db.users ≡ some u)
    × (find_where (has_id u.id) db.users ≡ some u)

abbrev left : ℕ → User → ℕ
left end u = if locked u end then 0 else lock_threshold - u.failed_count

module _ (c : Crypto) (username : Text) where
  abbrev pub attempt : Attempt → Db → Db
  attempt a db = (login c a.now a.later (λ d. d) a.draw username a.password a.code db).1

  -- The wrong guesses that are checked against the account, up to the first right one.
  pub guesses : List Attempt → Db → ℕ
  guesses [] db = 0
  guesses (a ∷ rest) db =
      tally (login_check c a.now username a.password a.code db) (guesses rest (attempt a db))
