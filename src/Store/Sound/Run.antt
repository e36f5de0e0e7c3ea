-- ===== src/Store/Sound/Run.antt =====
-- Every store that the panel can reach, by any calls in any order.
use fluxlite.Common.{ℕ, refl, Text, Bool, List, [], ◌∷◌, Option, Bool-cases, inl, inr}
use fluxlite.Common.Tables.{exists_where}
use fluxlite.Model.{Node, NodeStatus, Route}
use fluxlite.Store.{
  Store, create_node, update_node, delete_node, set_node_host_key, set_node_status,
}
use fluxlite.Store.Routes.{
  create_route, update_route, delete_route, set_route_enabled, set_quota_paused, set_hop_latencies,
  set_hop_running, clear_hop_running, is_route, of_route, at_hop,
}
use fluxlite.Store.Sound.{Valid}
use fluxlite.Store.Sound.Hops.{update_hops-Valid, latencies-Valid}
use fluxlite.Store.Sound.Routes.{
  create_route-Valid, update_route-Valid, delete_route-Valid, update_row-Valid,
}
use fluxlite.Store.Sound.Nodes.{
  create_node-Valid, update_node-Valid, delete_node-Valid, update_nodes-Valid,
}

-- The methods that write the tables of nodes, routes and hops.
pub data Call : Type 0 where
  new_node : ℕ → Node → Call
  edit_node : ℕ → Node → Call
  drop_node : (ℕ → Bool) → ℕ → Call
  host_key : ℕ → ℕ → Text → Call
  status : ℕ → ℕ → NodeStatus → Option ℕ → Call
  new_route : ℕ → Route → Call
  edit_route : ℕ → Route → Call
  drop_route : ℕ → Call
  enable : ℕ → ℕ → Bool → Call
  pause : ℕ → Option ℕ → Call
  latencies : ℕ → ℕ → List (ℕ × ℕ) → Call
  running : ℕ → ℕ → ℕ → Bool → Call
  forget : ℕ → Call

pub perform : Call → Store → Store
perform (new_node now n) s = (create_node now n s).1
perform (edit_node now n) s = (update_node now n s).1
perform (drop_node held id) s = (delete_node held id s).1
perform (host_key now id key) s = set_node_host_key now id key s
perform (status now id st seen) s = set_node_status now id st seen s
perform (new_route now r) s = (create_route now r s).1
perform (edit_route now r) s = (update_route now r s).1
perform (drop_route id) s = (delete_route id s).1
perform (enable now id enabled) s = (set_route_enabled now id enabled s).1
perform (pause id at) s = set_quota_paused id at s
perform (latencies now id entries) s = set_hop_latencies now id entries s
perform (running now id order up) s = set_hop_running now id order up s
perform (forget id) s = clear_hop_running id s

pub run : List Call → Store → Store
run [] s = s
run (c ∷ calls) s = run calls (perform c s)

enable-Valid :
    (now id : ℕ) (enabled : Bool) (s : Store)
    → Valid s
    → Valid (set_route_enabled now id enabled s).1
unfolding set_route_enabled
enable-Valid now id enabled s v = elim (Bool-cases (exists_where (is_route id) s.routes)) [
  | inl e ↦ rw e (update_row-Valid id _ s (λ r. (refl, refl)) v)
  | inr e ↦ rw e v
]

perform-Valid : (c : Call) (s : Store) → Valid s → Valid (perform c s)
unfolding perform set_node_host_key set_node_status set_quota_paused set_hop_running
    clear_hop_running
perform-Valid (new_node now n) s v = create_node-Valid now n s v
perform-Valid (edit_node now n) s v = update_node-Valid now n s v
perform-Valid (drop_node held id) s v = delete_node-Valid held id s v
perform-Valid (host_key now id key) s v = update_nodes-Valid id _ s (λ n. refl) (λ n w. w) v
perform-Valid (status now id st seen) s v = update_nodes-Valid id _ s (λ n. refl) (λ n w. w) v
perform-Valid (new_route now r) s v = create_route-Valid now r s v
perform-Valid (edit_route now r) s v = update_route-Valid now r s v
perform-Valid (drop_route id) s v = delete_route-Valid id s v
perform-Valid (enable now id enabled) s v = enable-Valid now id enabled s v
perform-Valid (pause id at) s v = update_row-Valid id _ s (λ r. (refl, refl)) v
perform-Valid (latencies now id entries) s v = latencies-Valid now id entries s v
perform-Valid (running now id order up) s v =
    update_hops-Valid (at_hop id order) _ s (λ h. (refl, refl, refl, refl)) v
perform-Valid (forget id) s v =
    update_hops-Valid (of_route id) _ s (λ h. (refl, refl, refl, refl)) v

-- From a store that holds, any calls lead to one that does, whether they succeed or fail: no port of a
-- node is claimed by two hops, no route has two hops at one place, every hop belongs to a stored route
-- and stands on a stored node, no two routes share an id or a slug and no two nodes an id, ids are below
-- the sequences that give the next ones, and every jump host is stored.
pub run-Valid : (calls : List Call) (s : Store) → Valid s → Valid (run calls s)
unfolding run
run-Valid [] s v = v
run-Valid (c ∷ calls) s v = run-Valid calls (perform c s) (perform-Valid c s v)
