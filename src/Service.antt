-- ===== src/Service.antt =====
-- internal/service/service.go: the panel's operations on nodes and routes.
pub mod Routes
pub mod Teardown
pub mod Placement
pub mod Creation
pub mod Steps
pub mod Editing
pub mod Nodes
use fluxlite.Common.{
  ℕ, zero, suc, ◌+◌, Text, text_eq, length, Bool, true, false, not, ◌&&◌, ◌||◌, List, [], ◌∷◌, ◌++◌,
  map, Option, none, some, ◌==◌, if◌then◌else◌, Result, ok, err,
}
use fluxlite.Common.Exec.{Exec}
use fluxlite.Common.Int.{ℤ, pos, negsuc}
use fluxlite.Model
use fluxlite.Model.{Node, Route, RouteHop, Protocol, ipv6_reachable}
use fluxlite.Planner
use fluxlite.Slug
use fluxlite.Store
use fluxlite.Store.{Store, Op, node_by_id}

pub data Error : Type 0 where
  of_store : Store.Error → Error
  of_model : Model.Error → Error
  of_plan : Planner.Error → Error
  of_slug : Slug.Error → Error
  needs_hops ipv6_unprobed ipv6_unavailable : Error
  secret_empty seal_failed entry_invalid entry_not_public entry_in_use : Error
  stop_failed : ℕ → Error

-- What the applier answers when it removes a relay; `timed_out` is the end of the time for one node.
pub data Removal : Type 0 where
  removed timed_out : Removal
  failed : Text → Removal

pub record Attempt : Type 0 where
  pub node_id : ℕ
  pub slug : Text
  pub outcome : Removal

-- The tables, and the removals that the applier was asked for, latest last.
pub record World : Type 0 where
  pub tables : Store
  pub attempts : List Attempt

abbrev pub Action : Type 0 → Type 0
Action A = Exec World Error A

abbrev put_back : {A : Type 0} → World → Result Store.Error A × Store → Result Error A × World
put_back w (ok a, s) = (ok a, record w { tables = s })
put_back w (err e, s) = (err (of_store e), record w { tables = s })

-- A method of the store, and one that only reads.
abbrev pub stored : {A : Type 0} → Op A → Action A
stored op w = put_back w (op w.tables)

abbrev pub fails : {A E : Type 0} → (E → Error) → Result E A → Result Error A
fails f (ok a) = ok a
fails f (err e) = err (f e)

abbrev pub looked_up : {A E : Type 0} → (E → Error) → (Store → Result E A) → Action A
looked_up f q w = (fails f (q w.tables), w)

-- `allowListenIPv6`
unfoldable pub allow_listen_ipv6 : Node → Bool → Bool → Result Error (Unit {0})
allow_listen_ipv6 entry was want =
    if not want || was
    then ok tt
    else if ipv6_reachable entry
    then ok tt
    else elim entry.ipv6_capable [ none ↦ err ipv6_unprobed | some b ↦ err ipv6_unavailable ]

abbrev allow_at : Result Store.Error Node → Bool → Bool → Result Error (Unit {0})
allow_at (err e) was want = err (of_store e)
allow_at (ok entry) was want = allow_listen_ipv6 entry was want

-- `checkEntryIPv6`
unfoldable pub check_entry_ipv6 : List RouteHop → Bool → Bool → Store → Result Error (Unit {0})
unfolding allow_listen_ipv6
check_entry_ipv6 [] was want s = ok tt
check_entry_ipv6 (h ∷ hops) was want s =
    if not want || was then ok tt else allow_at (node_by_id h.node_id s) was want
