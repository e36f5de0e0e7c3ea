-- ===== src/Audit/Correlator/Pairing.antt =====
-- The correlator over a whole log: the client of a connection is paired with its target.
use fluxlite.Common.{
  ℕ, ◌+◌, ◌≤◌, ◌≡◌, refl, ◌∙◌, false, List, [], ◌∷◌, none, some, ◌==◌, if◌then◌else◌, inl, inr, ◌⊎◌,
  ==-refl, text_eq, arith, All,
}
use fluxlite.Audit.Correlator.{
  Event, Conn, Pending, Correlator, Direction, from, to, feed, prune, pending_ttl,
}

-- The lines of a log, each read at its time; a sweep by `Prune` may come before any of them.
pub data Step : Type 0 where
  line : Event → ℕ → Step
  sweep : ℕ → Step

pub after : List Step → Correlator → Correlator
after [] c = c
after (line ev now ∷ steps) c = after steps (feed c ev now).1
after (sweep now ∷ steps) c = after steps (prune now c)

-- A step that does not touch a connection whose first line was read at `seen`: a line of another one,
-- or a sweep within the time to live.
unfoldable pub Apart : ℕ → ℕ → Step → Type 0
Apart id seen (line ev now) = (id == ev.conn_id) ≡ false
Apart id seen (sweep now) = now ≤ seen + pending_ttl

dir-cases : (d : Direction) → (d ≡ from) ⊎ (d ≡ to)
dir-cases from = inl refl
dir-cases to = inr refl

feed_other :
    (c : Correlator) (ev : Event) (now id : ℕ)
    → (id == ev.conn_id) ≡ false
    → (feed c ev now).1 id ≡ c id
unfolding feed
feed_other c ev now id h = elim (dir-cases ev.dir) [
  | inl e ↦ rw (e, h) refl
  | inr e ↦ rw (e, h) refl
]

after_kept :
    (steps : List Step) (c : Correlator) (id : ℕ) (p : Pending)
    → All (Apart id p.seen) steps
    → c id ≡ some p
    → after steps c id ≡ some p
unfolding after prune Apart
after_kept [] c id p a h = h
after_kept (line ev now ∷ steps) c id p (e, a) h =
    after_kept steps (feed c ev now).1 id p a (feed_other c ev now id e ∙ h)
after_kept (sweep now ∷ steps) c id p (e, a) h =
    after_kept steps (prune now c) id p a (rw h (ground arith))

-- What a `to` line completes: the connection, with the client and the user that the `from` line gave.
pub completed : Event → ℕ → Event → ℕ → Conn
completed opened t1 ev t2 = record {
  at = elim ev.at [ none ↦ t2 | some t ↦ t ];
  client = opened.addr;
  target = ev.addr;
  user = if text_eq ev.user [] then opened.user else ev.user;
  inbound = ev.inbound;
  inbound_type = ev.inbound_type;
  packet = ev.packet;
}

feed_from :
    (c : Correlator) (ev : Event) (now : ℕ)
    → ev.dir ≡ from
    → ((feed c ev now).0 ≡ none)
      × ((feed c ev now).1 ev.conn_id
          ≡ some (record { client = ev.addr; user = ev.user; seen = now }))
unfolding feed
feed_from c ev now e = (rw e refl, rw (e, ==-refl ev.conn_id) refl)

feed_to :
    (c : Correlator) (opened ev : Event) (t1 now : ℕ)
    → ev.dir ≡ to
    → c ev.conn_id ≡ some (record { client = opened.addr; user = opened.user; seen = t1 })
    → ((feed c ev now).0 ≡ some (completed opened t1 ev now))
      × ((feed c ev now).1 ev.conn_id ≡ none)
unfolding feed completed
feed_to c opened ev t1 now e h =
    (rw (e, h) (elim ev.at [ none ↦ refl | some t ↦ refl ]), rw (e, ==-refl ev.conn_id) refl)

-- The `to` line of a connection gives the visit with the client (and, where it names no user itself,
-- the user) of the connection's `from` line, whatever was pending before, whichever lines of other
-- connections came in between and however often the correlator was pruned within the time to live
-- since; the `from` line itself gives nothing, and afterwards nothing is pending for the connection.
pub feed_pairs :
    (c : Correlator) (opened ev : Event) (t1 t2 : ℕ) (steps : List Step)
    → opened.dir ≡ from
    → ev.dir ≡ to
    → ev.conn_id ≡ opened.conn_id
    → All (Apart opened.conn_id t1) steps
    → let c' = after steps (feed c opened t1).1 in
      ((feed c opened t1).0 ≡ none)
      × ((feed c' ev t2).0 ≡ some (completed opened t1 ev t2))
      × ((feed c' ev t2).1 ev.conn_id ≡ none)
feed_pairs c opened ev t1 t2 steps e1 e2 same a =
    let p : Pending = record { client = opened.addr; user = opened.user; seen = t1 } in
    let stored = feed_from c opened t1 e1 in
    let kept = after_kept steps (feed c opened t1).1 opened.conn_id p a stored.1 in
    let z = feed_to (after steps (feed c opened t1).1) opened ev t1 t2 e2 (rw same kept) in
    (stored.0, z.0, z.1)
