-- ===== src/Enroll.antt =====
-- internal/store/enroll.go: one-time credentials with which a machine registers itself. A time is a
-- count of nanoseconds.
pub mod Once
use fluxlite.Common.{
  ℕ, ◌+◌, ◌*◌, Text, text_eq, Bool, true, false, not, ◌&&◌, ◌||◌, List, [], ◌∷◌, ◌++◌, Option, none,
  some, ltb, if◌then◌else◌, is_some, Result, ok, err,
}
use fluxlite.Common.Exec.{Exec}
use fluxlite.Common.Tables.{find_where, select_where, update_where, delete_where, exists_where}

pub data Error : Type 0 where
  not_found conflict duplicate : Error

pub record EnrollToken : Type 0 where
  pub token : Text
  pub name : Text
  pub host : Text
  pub ssh_port : ℕ
  pub ssh_user : Text
  pub port_start : ℕ
  pub port_end : ℕ
  pub via_node_id : Option ℕ
  pub skip_udp_probe : Bool
  pub private_key : Text
  pub authorized_key : Text
  pub expires_at : ℕ
  pub used_at : Option ℕ
  pub node_id : Option ℕ
  pub created_at : ℕ
  pub target_node_id : Option ℕ

abbrev pub Tokens : Type 0
Tokens = List EnrollToken

-- `Usable`
unfoldable pub usable : EnrollToken → ℕ → Bool
usable t now = not (is_some t.used_at) && ltb now t.expires_at

abbrev pub is_token : Text → EnrollToken → Bool
is_token token t = text_eq t.token token

-- `CreateEnrollToken`: the token is the table's key; what it is used for is not set.
unfoldable pub create_enroll_token : ℕ → EnrollToken → Exec Tokens Error (Unit {0})
create_enroll_token now t rows =
    if exists_where (is_token t.token) rows
    then (err duplicate, rows)
    else (ok tt, rows ++ record t { created_at = now; used_at = none; node_id = none } ∷ [])

-- `EnrollTokenByValue`
unfoldable pub enroll_token_by_value : Text → Tokens → Result Error EnrollToken
enroll_token_by_value token rows = elim (find_where (is_token token) rows) [
  | none ↦ err not_found
  | some t ↦ ok t
]

abbrev pub is_unused : Text → EnrollToken → Bool
is_unused token t = is_token token t && not (is_some t.used_at)

abbrev pub spend : ℕ → ℕ → EnrollToken → EnrollToken
spend now node t = record t { used_at = some now; node_id = some node }

-- `MarkEnrollTokenUsed`: an update of no row is ErrConflict.
unfoldable pub mark_enroll_token_used : ℕ → Text → ℕ → Exec Tokens Error (Unit {0})
mark_enroll_token_used now token node rows =
    if exists_where (is_unused token) rows
    then (ok tt, update_where (is_unused token) (spend now node) rows)
    else (err conflict, rows)

-- `PurgeExpiredEnrollTokens`
unfoldable pub purge_expired_enroll_tokens : ℕ → Tokens → Tokens
purge_expired_enroll_tokens now =
    delete_where (λ t. is_some t.used_at || ltb (t.expires_at + 24 * 3600 * 1_000_000_000) now)
