-- ===== src/Store.antt =====
-- internal/store/nodes.go and the columns of internal/store/store.go: the tables of nodes, routes and
-- hops, with their keys and references. A time is a count of nanoseconds.
pub mod Routes
pub mod Sound
pub mod View
pub mod Saved
use fluxlite.Common.{
  ℕ, suc, Text, text_eq, Bool, true, false, not, ◌&&◌, ◌||◌, List, [], ◌∷◌, ◌++◌, Option, none,
  some, ltb, ◌==◌, if◌then◌else◌, Result, ok, err,
}
use fluxlite.Common.Exec.{Exec, in_tx}
use fluxlite.Common.Int.{ℤ}
use fluxlite.Common.Sorting.{sort_by}
use fluxlite.Common.Tables.{find_where, select_where, update_where, delete_where, exists_where}
use fluxlite.Model
use fluxlite.Model.{Node, NodeStatus, Protocol, RouteHop, validate_node}

-- `conflict` and `port_claimed` both wrap ErrConflict; `foreign_key` is any other failure of a statement.
pub data Error : Type 0 where
  not_found conflict port_claimed foreign_key : Error
  invalid : Model.Error → Error

-- A row of routes.
pub record RouteRow : Type 0 where
  pub id : ℕ
  pub name : Text
  pub slug : Text
  pub target : Text
  pub protocol : Protocol
  pub enabled : Bool
  pub listen_ipv6 : Bool
  pub quota_bytes : Option ℕ
  pub quota_reset_day : ℤ
  pub quota_paused_at : Option ℕ
  pub sort_order : Option ℕ
  pub created_at : ℕ
  pub updated_at : ℕ

-- `next_node` and `next_route` are the AUTOINCREMENT sequences; a row of route_hops is a RouteHop.
pub record Store : Type 0 where
  pub nodes : List Node
  pub routes : List RouteRow
  pub hops : List RouteHop
  pub next_node : ℕ
  pub next_route : ℕ

abbrev pub Op : Type 0 → Type 0
Op A = Exec Store Error A

abbrev pub has_id : ℕ → Node → Bool
has_id id n = n.id == id

-- Of another node: the row that a UNIQUE constraint on the name would meet.
abbrev pub named : Text → ℕ → Node → Bool
named name id n = text_eq n.name name && not (n.id == id)

-- REFERENCES nodes(id), of a column that may be NULL.
abbrev pub refers : Option ℕ → List Node → Bool
refers none nodes = true
refers (some id) nodes = exists_where (has_id id) nodes

abbrev pub node_row : ℕ → ℕ → Node → Node
node_row now id n = record n { id = id; created_at = now; updated_at = now }

-- The reference is checked on the table as the statement leaves it, the new row included.
abbrev insert_node : ℕ → Node → Op ℕ
insert_node now n s =
    if exists_where (λ o. text_eq o.name n.name) s.nodes
    then (err conflict, s)
    else if not (refers n.via_node_id (s.nodes ++ node_row now s.next_node n ∷ []))
    then (err foreign_key, s)
    else (
      ok s.next_node,
      record s { nodes = s.nodes ++ node_row now s.next_node n ∷ []; next_node = suc s.next_node },
    )

-- `CreateNode`
unfoldable pub create_node : ℕ → Node → Op ℕ
create_node now n s = elim (validate_node n) [
  | err e ↦ (err (invalid e), s)
  | ok _ ↦ insert_node now n s
]

-- `NodeByID`
unfoldable pub node_by_id : ℕ → Store → Result Error Node
node_by_id id s = elim (find_where (has_id id) s.nodes) [ none ↦ err not_found | some n ↦ ok n ]

-- `NodeByName`
unfoldable pub node_by_name : Text → Store → Result Error Node
node_by_name name s = elim (find_where (λ n. text_eq n.name name) s.nodes) [
  | none ↦ err not_found
  | some n ↦ ok n
]

-- The columns that UPDATE nodes sets.
abbrev pub set_node : ℕ → Node → Node → Node
set_node now n old = record n { id = old.id; created_at = old.created_at; updated_at = now }

abbrev pub save_node : ℕ → Node → Op (Unit {0})
save_node now n s =
    if not (exists_where (has_id n.id) s.nodes)
    then (err not_found, s)
    else if exists_where (named n.name n.id) s.nodes
    then (err conflict, s)
    else if not (refers n.via_node_id s.nodes)
    then (err foreign_key, s)
    else (ok tt, record s { nodes = update_where (has_id n.id) (set_node now n) s.nodes })

-- `UpdateNode`
unfoldable pub update_node : ℕ → Node → Op (Unit {0})
update_node now n s = elim (validate_node n) [
  | err e ↦ (err (invalid e), s)
  | ok _ ↦ save_node now n s
]

abbrev pub on_node : ℕ → RouteHop → Bool
on_node id h = h.node_id == id

abbrev pub goes_via : ℕ → Node → Bool
goes_via id n = elim n.via_node_id [ none ↦ false | some v ↦ v == id ]

-- A text before another, or equal to it, by code points, as the bytes of UTF-8 compare.
unfoldable pub text_leq : Text → Text → Bool
text_leq [] t = true
text_leq (x ∷ s) [] = false
text_leq (x ∷ s) (y ∷ t) = ltb x y || x == y && text_leq s t

-- `NodesReferencing`
unfoldable pub nodes_referencing : ℕ → Store → List Node
unfolding text_leq
nodes_referencing id s =
    sort_by (λ a b. text_leq a.name b.name) (select_where (goes_via id) s.nodes)

-- `DeleteNode`: a hop, a node behind it, or a subscription member that stays, holds the row. `held`
-- tells of the last.
unfoldable pub delete_node : (ℕ → Bool) → ℕ → Op (Unit {0})
delete_node held id s =
    if not (exists_where (has_id id) s.nodes)
    then (err not_found, s)
    else if exists_where (on_node id) s.hops || exists_where (goes_via id) s.nodes || held id
    then (err conflict, s)
    else (ok tt, record s { nodes = delete_where (has_id id) s.nodes })

-- `SetNodeHostKey`
unfoldable pub set_node_host_key : ℕ → ℕ → Text → Store → Store
set_node_host_key now id key s = record s {
  nodes = update_where (has_id id) (λ n. record n { host_key = key; updated_at = now }) s.nodes;
}

-- `SetNodeStatus`
unfoldable pub set_node_status : ℕ → ℕ → NodeStatus → Option ℕ → Store → Store
set_node_status now id status seen s = record s {
  nodes =
      update_where (has_id id)
        (λ n. record n { status = status; last_seen = seen; updated_at = now }) s.nodes;
}

-- `route_id != ?`, where a route is to be left out.
abbrev pub is_excluded : Option ℕ → RouteHop → Bool
is_excluded none h = false
is_excluded (some id) h = h.route_id == id

abbrev pub claims : ℕ → ℕ → RouteHop → Bool
claims node port h = h.node_id == node && h.relay_port == port

-- `UsedPortsOnNode`
unfoldable pub used_ports_on_node : ℕ → Option ℕ → Store → ℕ → Bool
used_ports_on_node node exclude s port =
    exists_where (λ h. claims node port h && not (is_excluded exclude h)) s.hops
