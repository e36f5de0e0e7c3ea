-- ===== src/Orphans.antt =====
-- internal/service/orphans.go: relays on machines that no route accounts for. The tables may change at
-- any time while the scan runs: they are read as they are after the calls made so far.
pub mod Justified
use fluxlite.Common.{
  ℕ, Text, codes, Bool, true, false, not, ◌&&◌, ◌||◌, List, [], ◌∷◌, ◌++◌, Option, none, some,
  if◌then◌else◌, Result, ok, err,
}
use fluxlite.Common.Tables.{exists_where}
use fluxlite.Model.{Node, NodeStatus, unknown_status, online, offline, RouteHop, Route}
use fluxlite.Store
use fluxlite.Store.{Store, on_node}
use fluxlite.Store.Routes.{route_by_slug, list_routes}
use fluxlite.Applier.Remote.{History, Remote}
use fluxlite.Applier.Removal.{remove, deployed}

-- A relay that was judged an orphan, with the calls made before its removal and how that went.
pub record Cleanup : Type 0 where
  pub node : Node
  pub slug : Text
  pub at : History
  pub outcome : Result Text (Unit {0})

-- `model.AuditLog`, as far as it is set here.
pub record AuditLog : Type 0 where
  pub actor : Text
  pub action : Text
  pub target : Text
  pub detail : Text

abbrev detail_of : Text → Result Text (Unit {0}) → Text
detail_of slug (ok _) = codes "已清理不属于任何链路的转发实例 " ++ slug
detail_of slug (err e) = codes "发现不属于任何链路的转发实例 " ++ slug ++ codes "，清理失败：" ++ e

-- The entry that is appended for a cleanup.
pub audit_entry : Cleanup → AuditLog
audit_entry c = record {
  actor = codes "system";
  action = codes "route.orphan_removed";
  target = c.node.name;
  detail = detail_of c.slug c.outcome;
}

-- The calls made of machines, and the cleanups, the latest last.
pub record Scan : Type 0 where
  pub history : History
  pub cleanups : List Cleanup

pub data Error : Type 0 where
  context_ended : Error
  remote : Text → Error

abbrev passes : ℕ → Result Store.Error Route → Bool
passes node (err e) = false
passes node (ok r) = exists_where (on_node node) r.hops

-- `isOrphanOn`: a lookup by slug fails in no other way than by finding no route.
unfoldable pub is_orphan_on : Text → ℕ → Store → Bool
is_orphan_on slug node s = not (passes node (route_by_slug slug s))

abbrev pub is_online : NodeStatus → Bool
is_online online = true
is_online _ = false

abbrev pub first_of : Option Error → Option Error → Option Error
first_of none b = b
first_of (some a) b = some a

abbrev pub is_nil : List Route → Bool
is_nil [] = true
is_nil (x ∷ xs) = false

module _ (r : Remote) (tables : History → Store) where
  abbrev pub clean : Node → Text → Scan → Scan
  clean node slug s =
      let (res, h) = remove r node slug s.history in
      record {
        history = h;
        cleanups =
            s.cleanups ++ record { node = node; slug = slug; at = s.history; outcome = res } ∷ [];
      }

  abbrev pub judge_slug : Node → Text → Scan → Scan
  judge_slug node slug s =
      if is_orphan_on slug node.id (tables s.history) then clean node slug s else s

  unfoldable pub judge_all : Node → List Text → Scan → Scan
  unfolding is_orphan_on
  judge_all node [] s = s
  judge_all node (slug ∷ slugs) s = judge_all node slugs (judge_slug node slug s)

  abbrev pub judge_listed : Node → Scan → Result Text (List Text) × History → Option Error × Scan
  judge_listed node s (err e, h) = (some (remote e), record s { history = h })
  judge_listed node s (ok slugs, h) = (none, judge_all node slugs (record s { history = h }))

  -- `removeOrphansOn`
  unfoldable pub remove_orphans_on : Node → Scan → Option Error × Scan
  unfolding judge_all
  remove_orphans_on node s = judge_listed node s (deployed r node s.history)

  -- The loop over the nodes; `ended` tells whether the context has ended.
  pub scan_nodes : (History → Bool) → Option Error → List Node → Scan → Option Error × Scan
  unfolding remove_orphans_on
  scan_nodes ended first [] s = (first, s)
  scan_nodes ended first (n ∷ nodes) s =
      let skip = scan_nodes ended first nodes s in
      let (e, s') = remove_orphans_on n s in
      let go_on = scan_nodes ended (first_of first e) nodes s' in
      if ended s.history
      then (some context_ended, s)
      else if is_online n.status
      then go_on
      else skip

  -- `RemoveOrphanRelays`; the order in which the nodes are listed is a parameter.
  unfoldable pub remove_orphan_relays :
      (History → Bool) → (List Node → List Node) → Scan → Option Error × Scan
  unfolding scan_nodes
  remove_orphan_relays ended in_order s =
      if is_nil (list_routes (tables s.history))
      then (none, s)
      else scan_nodes ended none (in_order (tables s.history).nodes) s
