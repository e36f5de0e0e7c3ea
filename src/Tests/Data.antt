-- ===== src/Tests/Data.antt =====
-- A small panel: two accounts, two nodes and a route.
use fluxlite.Common.{Text, codes, text_eq, true, false, [], ◌∷◌, ◌++◌, none, some, ok}
use fluxlite.Auth.Db.{User, Session, UserRecovery, Db}
use fluxlite.Auth.Login.{Crypto}

abbrev pub salt : Text
salt = codes "s"

-- Not secure: a hash is the salt and the text.
abbrev pub toy : Crypto
toy = record {
  hash_password = λ s p. s ++ p;
  verify_password = λ p h. ok (text_eq (codes "s" ++ p) h);
  validate_totp = λ code secret now. text_eq code secret;
  first_code = λ code secret now. text_eq code secret;
  recovery_digest = λ t. codes "d" ++ t;
}

abbrev pub admin_name : Text
admin_name = codes "admin"

abbrev pub admin_password : Text
admin_password = codes "correct horse"

abbrev pub admin_code : Text
admin_code = codes "123"

abbrev pub admin : User
admin = record {
  id = 1;
  username = admin_name;
  password_hash = codes "scorrect horse";
  totp_secret = admin_code;
  totp_enrolled = true;
  failed_count = 2;
  locked_until = none;
  created_at = 5;
  updated_at = 6;
}

abbrev pub guest : User
guest = record admin { id = 2; username = codes "guest"; totp_secret = []; totp_enrolled = false }

abbrev pub locked_admin : User
locked_admin = record admin { locked_until = some 500 }

abbrev pub session : Session
session = record { token = codes "t1"; user_id = 1; expires_at = 1000; created_at = 10 }

abbrev pub settings : UserRecovery
settings = record {
  question = codes "pet?";
  answer_hash = codes "srex!";
  code_hash = codes "dcode";
}

abbrev pub accounts : Db
accounts = record {
  users = admin ∷ guest ∷ [];
  sessions = session ∷ record session { token = codes "t2" } ∷ [];
  recoveries = record { user_id = 1; settings = settings } ∷ [];
  next_id = 3;
}

abbrev pub locked_accounts : Db
locked_accounts = record accounts { users = locked_admin ∷ guest ∷ [] }

abbrev pub no_accounts : Db
no_accounts = record { users = []; sessions = []; recoveries = []; next_id = 1 }
