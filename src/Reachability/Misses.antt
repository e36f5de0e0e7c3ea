-- ===== src/Reachability/Misses.antt =====
-- A node is offline from its third failed sample in a row until the first answer.
use fluxlite.Common.{
  ℕ, ◌+◌, ◌≡◌, ◌||◌, refl, sym, ◌∙◌, subst, Bool, true, false, List, [], ◌∷◌, Option, none, some,
  ltb, leb, ◌==◌, if◌then◌else◌, Bool-cases, inl, inr, arith,
}
use fluxlite.Common.Tables.{
  find_where, exists_where, find-update_self, find-update_other, find-holds,
}
use fluxlite.Model.{Node, NodeStatus, online, offline}
use fluxlite.Store.{Store, has_id, set_node_status}
use fluxlite.Reachability.{
  offline_after_misses, Fleet, Answer, unreached, unanswered, answered, shown_offline,
  note_unreachable, note_reachable, upsert_node_metrics, sample_of, sample_node_metrics,
}

-- One sample: when, of which node, and what it met.
pub record Sample (M : Type 0) : Type 0 where
  pub at : ℕ
  pub node_id : ℕ
  pub met : Answer M

module _ {M : Type 0} where
  pub after : List (Sample M) → Fleet M → Fleet M
  after [] f = f
  after (x ∷ xs) f = after xs (sample_node_metrics x.at x.node_id x.met f).1

abbrev pub is_answer : {M : Type 0} → Answer M → Bool
is_answer (answered m) = true
is_answer _ = false

-- Marking the node itself, and marking another.
marked :
    (now : ℕ) (status : NodeStatus) (seen : Option ℕ) (id : ℕ) (t : Store) (node : Node)
    → find_where (has_id id) t.nodes ≡ some node
    → find_where (has_id id) (set_node_status now id status seen t).nodes
      ≡ some (record node { status = status; last_seen = seen; updated_at = now })
unfolding set_node_status
marked now status seen id t node e = find-update_self (has_id id) _ t.nodes (λ n h. h) e

unmarked :
    (now : ℕ) (status : NodeStatus) (seen : Option ℕ) (id other : ℕ) (t : Store)
    → (other == id) ≡ false
    → find_where (has_id id) (set_node_status now other status seen t).nodes
      ≡ find_where (has_id id) t.nodes
unfolding set_node_status
unmarked now status seen id other t d =
    find-update_other (has_id id) (has_id other) _ t.nodes (λ n h. (ground arith, ground arith))

-- What the samples of one node amount to: the failures since its last answer, and when it was last seen.
pub record Standing : Type 0 where
  pub failures : ℕ
  pub seen : Option ℕ

module _ {M : Type 0} where
  -- An answer ends the failures; it is noted as the last seen only if it brings the node back.
  abbrev pub count_sample : Sample M → Standing → Standing
  count_sample x s =
      if is_answer x.met
      then record {
        failures = 0;
        seen = if leb offline_after_misses s.failures then some x.at else s.seen;
      }
      else record s { failures = s.failures + 1 }

  unfoldable pub standing : ℕ → List (Sample M) → Standing → Standing
  standing id [] s = s
  standing id (x ∷ xs) s = standing id xs (if x.node_id == id then count_sample x s else s)

  -- The fleet says of a node what its samples amount to.
  pub record Agrees (id : ℕ) (f : Fleet M) (s : Standing) : Type 0 where
    pub node : Node
    pub found : find_where (has_id id) f.tables.nodes ≡ some node
    pub counted : f.misses id ≡ s.failures
    pub shown : shown_offline node.status ≡ leb offline_after_misses s.failures
    pub noted : node.last_seen ≡ s.seen

  unreachable-Agrees :
      (now : ℕ) (node : Node) (f : Fleet M) (s : Standing)
      → find_where (has_id node.id) f.tables.nodes ≡ some node
      → f.misses node.id ≡ s.failures
      → shown_offline node.status ≡ leb offline_after_misses s.failures
      → node.last_seen ≡ s.seen
      → Agrees node.id (note_unreachable now node f) (record s { failures = s.failures + 1 })
  unfolding note_unreachable
  unreachable-Agrees now node f s e c o l =
      elim (Bool-cases
        (ltb (f.misses node.id + 1) offline_after_misses || shown_offline node.status)) [
          | inl quiet ↦
              rw (quiet, note_unreachable)
                record {
                  node = node;
                  found = e;
                  counted = ground arith;
                  shown = ground arith;
                  noted = l;
                }
          | inr loud ↦
              rw (loud, note_unreachable)
                record {
                  node = record node { status = offline; updated_at = now };
                  found = marked now offline node.last_seen node.id f.tables node e;
                  counted = ground arith;
                  shown = ground arith;
                  noted = l;
                }
        ]

  reachable-Agrees :
      (now : ℕ) (node : Node) (f : Fleet M) (s : Standing)
      → find_where (has_id node.id) f.tables.nodes ≡ some node
      → f.misses node.id ≡ s.failures
      → shown_offline node.status ≡ leb offline_after_misses s.failures
      → node.last_seen ≡ s.seen
      → Agrees node.id (note_reachable now node f) (record {
        failures = 0;
        seen = if leb offline_after_misses s.failures then some now else s.seen;
      })
  unfolding note_reachable
  reachable-Agrees now node f s e c o l = elim (Bool-cases (shown_offline node.status)) [
    | inl down ↦
        rw (down, note_reachable)
          record {
            node = record node { status = online; last_seen = some now; updated_at = now };
            found = marked now online (some now) node.id f.tables node e;
            counted = ground arith;
            shown = ground arith;
            noted = ground arith;
          }
    | inr up ↦
        rw (up, note_reachable)
          record {
            node = node;
            found = e;
            counted = ground arith;
            shown = ground arith;
            noted = ground arith;
          }
  ]

  unreachable_other :
      (now id : ℕ) (node : Node) (f : Fleet M) (s : Standing)
      → (node.id == id) ≡ false
      → Agrees id f s
      → Agrees id (note_unreachable now node f) s
  unfolding note_unreachable
  unreachable_other now id node f s d a =
      elim (Bool-cases
        (ltb (f.misses node.id + 1) offline_after_misses || shown_offline node.status)) [
          | inl quiet ↦
              rw (quiet, note_unreachable)
                record {
                  node = a.node;
                  shown = a.shown;
                  noted = a.noted;
                  found = a.found;
                  counted = ground (arith, a.counted);
                }
          | inr loud ↦
              rw (loud, note_unreachable)
                record {
                  node = a.node;
                  shown = a.shown;
                  noted = a.noted;
                  found = unmarked now offline node.last_seen id node.id f.tables d ∙ a.found;
                  counted = ground (arith, a.counted);
                }
        ]

  reachable_other :
      (now id : ℕ) (node : Node) (f : Fleet M) (s : Standing)
      → (node.id == id) ≡ false
      → Agrees id f s
      → Agrees id (note_reachable now node f) s
  unfolding note_reachable
  reachable_other now id node f s d a = elim (Bool-cases (shown_offline node.status)) [
    | inl down ↦
        rw (down, note_reachable)
          record {
            node = a.node;
            shown = a.shown;
            noted = a.noted;
            found = unmarked now online (some now) id node.id f.tables d ∙ a.found;
            counted = ground (arith, a.counted);
          }
    | inr up ↦
        rw (up, note_reachable)
          record {
            node = a.node;
            shown = a.shown;
            noted = a.noted;
            found = a.found;
            counted = ground (arith, a.counted);
          }
  ]

  upsert-Agrees :
      (id k : ℕ) (m : M) (f : Fleet M) (s : Standing)
      → Agrees id f s
      → Agrees id (upsert_node_metrics k m f).1 s
  unfolding upsert_node_metrics
  upsert-Agrees id k m f s a = elim (Bool-cases (exists_where (has_id k) f.tables.nodes)) [
    | inl e ↦ elim (Bool-cases (exists_where (λ r. r.node_id == k) f.snapshots)) [
      | inl e' ↦
          rw (e, e', upsert_node_metrics)
            record {
              node = a.node;
              shown = a.shown;
              noted = a.noted;
              found = a.found;
              counted = a.counted;
            }
      | inr e' ↦
          rw (e, e', upsert_node_metrics)
            record {
              node = a.node;
              shown = a.shown;
              noted = a.noted;
              found = a.found;
              counted = a.counted;
            }
    ]
    | inr e ↦ rw (e, upsert_node_metrics) a
  ]

  own_node :
      (at : ℕ) (met : Answer M) (node : Node) (f : Fleet M) (s : Standing)
      → find_where (has_id node.id) f.tables.nodes ≡ some node
      → f.misses node.id ≡ s.failures
      → shown_offline node.status ≡ leb offline_after_misses s.failures
      → node.last_seen ≡ s.seen
      → Agrees node.id
          (sample_of at node met f).1
          (count_sample (record { at = at; node_id = node.id; met = met }) s)
  own_node at unreached node f s e c o l = unreachable-Agrees at node f s e c o l
  own_node at unanswered node f s e c o l = unreachable-Agrees at node f s e c o l
  own_node at (answered m) node f s e c o l =
      upsert-Agrees node.id node.id m _ _ (reachable-Agrees at node f s e c o l)

  other_node :
      (at id : ℕ) (met : Answer M) (node : Node) (f : Fleet M) (s : Standing)
      → (node.id == id) ≡ false
      → Agrees id f s
      → Agrees id (sample_of at node met f).1 s
  other_node at id unreached node f s d a = unreachable_other at id node f s d a
  other_node at id unanswered node f s d a = unreachable_other at id node f s d a
  other_node at id (answered m) node f s d a =
      upsert-Agrees id node.id m _ s (reachable_other at id node f s d a)

  own-Agrees :
      (at id : ℕ) (met : Answer M) (f : Fleet M) (s : Standing)
      → Agrees id f s
      → Agrees id
          (sample_node_metrics at id met f).1
          (count_sample (record { at = at; node_id = id; met = met }) s)
  unfolding sample_node_metrics
  own-Agrees at id met f s a =
      let same : a.node.id ≡ id = ground (arith, find-holds (has_id id) f.tables.nodes a.found) in
      let at_node : find_where (has_id a.node.id) f.tables.nodes ≡ some a.node =
        subst (λ j. find_where (has_id j) f.tables.nodes ≡ some a.node) (sym same) a.found in
      let counted : f.misses a.node.id ≡ s.failures =
        subst (λ j. f.misses j ≡ s.failures) (sym same) a.counted in
      rw (a.found, sample_node_metrics)
        (subst
          (λ j.
            Agrees j (sample_of at a.node met f).1
              (count_sample (record { at = at; node_id = j; met = met }) s))
          same (own_node at met a.node f s at_node counted a.shown a.noted))

  other-Agrees :
      (at k id : ℕ) (met : Answer M) (f : Fleet M) (s : Standing) (row : Option Node)
      → find_where (has_id k) f.tables.nodes ≡ row
      → (k == id) ≡ false
      → Agrees id f s
      → Agrees id (sample_node_metrics at k met f).1 s
  unfolding sample_node_metrics
  other-Agrees at k id met f s none e d a = rw (e, sample_node_metrics) a
  other-Agrees at k id met f s (some node) e d a =
      let own_id = find-holds (has_id k) f.tables.nodes e in
      rw (e, sample_node_metrics) (other_node at id met node f s (ground (arith, own_id)) a)

  one-Agrees :
      (x : Sample M) (id : ℕ) (f : Fleet M) (s : Standing)
      → Agrees id f s
      → Agrees id
          (sample_node_metrics x.at x.node_id x.met f).1
          (if x.node_id == id then count_sample x s else s)
  one-Agrees x id f s a = elim (Bool-cases (x.node_id == id)) [
    | inl e ↦
        let same : x.node_id ≡ id = ground (arith, e) in
        rw e (
          subst (λ j. Agrees id (sample_node_metrics x.at j x.met f).1 (count_sample x s))
            (sym same) (own-Agrees x.at id x.met f s a))
    | inr e ↦ rw e (other-Agrees x.at x.node_id id x.met f s _ refl e a)
  ]

  -- Over any sequence of samples of any nodes, a node is shown offline exactly from its third failure
  -- in a row until it answers; the count that the panel keeps is that of its failures since its last
  -- answer, and a failure leaves the time it was last seen alone.
  pub after-Agrees :
      (id : ℕ) (xs : List (Sample M)) (f : Fleet M) (s : Standing)
      → Agrees id f s
      → Agrees id (after xs f) (standing id xs s)
  unfolding after standing
  after-Agrees id [] f s a = a
  after-Agrees id (x ∷ xs) f s a = after-Agrees id xs _ _ (one-Agrees x id f s a)
