-- ===== src/Store/Saved.antt =====
-- internal/store/nodes.go: what UpdateNode leaves of the rows, whichever way they are looked up.
use fluxlite.Common.{
  ℕ, ◌≡◌, ◌≢◌, refl, ap, ◌∙◌, sym, false, ◌==◌, some, Option-cases, inl, inr, ok, arith,
}
use fluxlite.Common.Tables.{
  find_where, update_where, find-holds, find-update_self, find-update_other,
}
use fluxlite.Model.{Node}
use fluxlite.Store.{Store, has_id, set_node, node_by_id}

-- The row of `id` is `n` with its time of creation kept; the row of no other id changes, and no other
-- table.
pub record IsRowSaved (now id : ℕ) (n old : Node) (before after : Store) : Type 0 where
  pub row :
      find_where (has_id id) after.nodes
      ≡ some (record n { created_at = old.created_at; updated_at = now })
  pub others :
      (j : ℕ) → id ≢ j → find_where (has_id j) after.nodes ≡ find_where (has_id j) before.nodes
  pub rest : after ≡ record before { nodes = after.nodes }

pub node_by_id-found :
    (id : ℕ) (s : Store) {old : Node}
    → node_by_id id s ≡ ok old
    → find_where (has_id id) s.nodes ≡ some old
unfolding node_by_id
node_by_id-found id s {old} h = elim (Option-cases (find_where (has_id id) s.nodes)) [
  | inl e ↦ cc (rw (node_by_id, e) at h)
  | inr (n, e) ↦ ground (arith, e, h)
]

pub node_by_id-id : (id : ℕ) (s : Store) {old : Node} → node_by_id id s ≡ ok old → old.id ≡ id
node_by_id-id id s h =
    let k = find-holds (has_id id) s.nodes (node_by_id-found id s h) in ground (arith, k)

pub save-IsRowSaved :
    (now id : ℕ) (n old : Node) (s : Store)
    → node_by_id id s ≡ ok old
    → n.id ≡ old.id
    → IsRowSaved now id n old s
        (record s { nodes = update_where (has_id n.id) (set_node now n) s.nodes })
save-IsRowSaved now id n old s found same =
    let own : n.id ≡ id = same ∙ node_by_id-id id s found in
    record {
      row =
          ap (λ k. find_where (has_id id) (update_where (has_id k) (set_node now n) s.nodes)) own
          ∙ find-update_self (has_id id) (set_node now n) s.nodes (λ y e. e)
              (node_by_id-found id s found)
          ∙ λ i.
              some (record n { id = same_back i; created_at = old.created_at; updated_at = now });
      others = λ j ne.
          find-update_other (has_id j) (has_id n.id) (set_node now n) s.nodes
            (λ x e. let apart : (x.id == j) ≡ false = ground (arith, e, own, ne) in (apart, apart));
      rest = refl;
    }
  where
    same_back : old.id ≡ n.id
    same_back = sym same
