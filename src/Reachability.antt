-- ===== src/Reachability.antt =====
-- internal/service/reachability.go, and SampleNodeMetrics of internal/service/service.go with its table
-- of internal/store/metrics.go: whether a node answers. What a snapshot holds is a parameter.
pub mod Misses
use fluxlite.Common.{
  ℕ, suc, ◌+◌, Bool, true, false, not, ◌&&◌, ◌||◌, List, [], ◌∷◌, ◌++◌, Option, none, some, ltb,
  ◌==◌, if◌then◌else◌, Result, ok, err,
}
use fluxlite.Common.Exec.{Exec}
use fluxlite.Common.Tables.{find_where, update_where, exists_where}
use fluxlite.Model.{Node, NodeStatus, unknown_status, online, offline}
use fluxlite.Store.{Store, has_id, set_node_status}

-- `offlineAfterMisses`
abbrev pub offline_after_misses : ℕ
offline_after_misses = 3

-- A row of node_metrics.
pub record Snapshot (M : Type 0) : Type 0 where
  pub node_id : ℕ
  pub metrics : M

-- The tables, and the counts in memory: an absent entry of the map reads as 0.
pub record Fleet (M : Type 0) : Type 0 where
  pub tables : Store
  pub snapshots : List (Snapshot M)
  pub misses : ℕ → ℕ

-- What a sample meets: no connection, no metrics over it, or metrics.
pub data Answer (M : Type 0) : Type 0 where
  unreached unanswered : Answer M
  answered : M → Answer M

pub data Error : Type 0 where
  not_found foreign_key unreachable no_metrics : Error

abbrev pub shown_offline : NodeStatus → Bool
shown_offline offline = true
shown_offline _ = false

abbrev pub set_misses : ℕ → ℕ → (ℕ → ℕ) → ℕ → ℕ
set_misses id k misses j = if j == id then k else misses j

module _ {M : Type 0} where
  -- `noteUnreachable`: the node is the row that the caller has read.
  unfoldable pub note_unreachable : ℕ → Node → Fleet M → Fleet M
  note_unreachable now node f =
      let misses = f.misses node.id + 1 in
      let counted = record f { misses = set_misses node.id misses f.misses } in
      if ltb misses offline_after_misses || shown_offline node.status
      then counted
      else record counted { tables = set_node_status now node.id offline node.last_seen f.tables }

  -- `noteReachable`
  unfoldable pub note_reachable : ℕ → Node → Fleet M → Fleet M
  note_reachable now node f =
      let cleared = record f { misses = set_misses node.id 0 f.misses } in
      if not (shown_offline node.status)
      then cleared
      else record cleared { tables = set_node_status now node.id online (some now) f.tables }

  abbrev of_node : ℕ → Snapshot M → Bool
  of_node id s = s.node_id == id

  -- `UpsertNodeMetrics`
  unfoldable pub upsert_node_metrics : ℕ → M → Fleet M → Result Error (Unit {0}) × Fleet M
  upsert_node_metrics id m f =
      let row : Snapshot M = record { node_id = id; metrics = m } in
      if not (exists_where (has_id id) f.tables.nodes)
      then (err foreign_key, f)
      else if exists_where (of_node id) f.snapshots
      then (ok tt, record f { snapshots = update_where (of_node id) (λ _. row) f.snapshots })
      else (ok tt, record f { snapshots = f.snapshots ++ row ∷ [] })

  abbrev pub sample_of : ℕ → Node → Answer M → Fleet M → Result Error (Unit {0}) × Fleet M
  sample_of now node unreached f = (err unreachable, note_unreachable now node f)
  sample_of now node unanswered f = (err no_metrics, note_unreachable now node f)
  sample_of now node (answered m) f = upsert_node_metrics node.id m (note_reachable now node f)

  -- `SampleNodeMetrics` with `storeMetrics`: the node is read, then asked.
  unfoldable pub sample_node_metrics : ℕ → ℕ → Answer M → Exec (Fleet M) Error (Unit {0})
  unfolding upsert_node_metrics note_unreachable note_reachable
  sample_node_metrics now id a f = elim (find_where (has_id id) f.tables.nodes) [
    | none ↦ (err not_found, f)
    | some node ↦ sample_of now node a f
  ]
