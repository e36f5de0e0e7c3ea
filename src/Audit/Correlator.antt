-- ===== src/Audit/Correlator.antt =====
-- internal/audit/parse.go: the two log lines of a connection are paired by its id. A time is a count
-- of nanoseconds, `none` the zero time.
pub mod Pairing
use fluxlite.Common.{
  ℕ, ◌+◌, ◌*◌, Text, text_eq, Bool, true, false, not, ◌&&◌, List, [], ◌∷◌, Option, none, some, ltb,
  ◌==◌, if◌then◌else◌, is_some,
}

pub data Direction : Type 0 where
  from to : Direction

pub record Event : Type 0 where
  pub at : Option ℕ
  pub conn_id : ℕ
  pub dir : Direction
  pub addr : Text
  pub user : Text
  pub inbound : Text
  pub inbound_type : Text
  pub packet : Bool

pub record Conn : Type 0 where
  pub at : ℕ
  pub client : Text
  pub target : Text
  pub user : Text
  pub inbound : Text
  pub inbound_type : Text
  pub packet : Bool

pub record Pending : Type 0 where
  pub client : Text
  pub user : Text
  pub seen : ℕ

-- map[uint64]pending
abbrev pub Correlator : Type 0
Correlator = ℕ → Option Pending

abbrev pub pending_ttl : ℕ
pending_ttl = 60 * 1_000_000_000

abbrev pub new_correlator : Correlator
new_correlator id = none

abbrev pub put : ℕ → Pending → Correlator → Correlator
put id p c j = if j == id then some p else c j

abbrev pub remove : ℕ → Correlator → Correlator
remove id c j = if j == id then none else c j

abbrev client_of : Option Pending → Text
client_of none = []
client_of (some p) = p.client

abbrev user_of : Text → Option Pending → Text
user_of user none = user
user_of user (some p) = if text_eq user [] then p.user else user

abbrev or_now : ℕ → Option ℕ → ℕ
or_now now none = now
or_now now (some t) = t

abbrev feed_dir : Direction → Correlator → Event → ℕ → Option Conn × Correlator
feed_dir from c ev now =
    (none, put ev.conn_id (record { client = ev.addr; user = ev.user; seen = now }) c)
feed_dir to c ev now = (
  some (record {
    at = or_now now ev.at;
    client = client_of (c ev.conn_id);
    target = ev.addr;
    user = user_of ev.user (c ev.conn_id);
    inbound = ev.inbound;
    inbound_type = ev.inbound_type;
    packet = ev.packet;
  }),
  remove ev.conn_id c,
)

-- `Feed`
unfoldable pub feed : Correlator → Event → ℕ → Option Conn × Correlator
feed c ev now = feed_dir ev.dir c ev now

-- `now.Sub(p.seen) > pendingTTL`
abbrev pub is_stale : ℕ → Pending → Bool
is_stale now p = ltb (p.seen + pending_ttl) now

abbrev keep_fresh : ℕ → Option Pending → Option Pending
keep_fresh now none = none
keep_fresh now (some p) = if is_stale now p then none else some p

-- `Prune`
unfoldable pub prune : ℕ → Correlator → Correlator
prune now c id = keep_fresh now (c id)
