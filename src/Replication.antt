-- ===== src/Replication.antt =====
-- The leader's side of replication: xraft-core/src/node.rs, `handle_fetch_request` and
-- `handle_fetch_request_acked`.
use failover_cluster.Node.Commit.Frame.{advance_and_drain-frame}
use failover_cluster.Node.Commit.{advance_and_drain}
use failover_cluster.Node.Commit.Rule.{
  HasQuorum, try_advance_commit_index-progress, advance_and_drain-Applies, Applies,
}
use failover_cluster.Node.Fetch.Cases.{handle_fetch_request_cases, with_ack}
use failover_cluster.Node.Roles.{become_follower}
use failover_cluster.Types.{SnapshotMeta, is_leader_role, IsLawful, VoterSet}
use failover_cluster.Timer.{Rand}
use failover_cluster.Prelude.{
  List, [], arith, false, refl, some, str_eq, true, ℕ, ◌∷◌, ◌≤◌, ◌≡◌, ◌⊎◌, ◌<◌, Bool-cases, Option,
  ap, inl, inr, leb, max, min, none, not, ◌∙◌, ◌&&◌,
}
use failover_cluster.Message.{FetchRequest, Action}
use failover_cluster.Node.{RaftNode, is_self}
use failover_cluster.Node.Fetch.{
  handle_fetch_request, is_known_sender, note_fetch, redirect, route_fetch, serve, stamp_fetch,
  acknowledge, handle_fetch_request_acked,
}
use failover_cluster.Peers.{PeerState, PeerMap, get, modify}

-- What the leader believes each peer to have.
abbrev pub offsets : PeerMap → List (ℕ × ℕ)
offsets [] = []
offsets ((id, p) ∷ m) = (id, p.last_fetch_offset) ∷ offsets m

offsets-modify :
    (k : ℕ) (f : PeerState → PeerState) (m : PeerMap)
    → ((p : PeerState) → (f p).last_fetch_offset ≡ p.last_fetch_offset)
    → offsets (modify k f m) ≡ offsets m
unfolding modify
offsets-modify k f [] same = refl
offsets-modify k f ((j, p) ∷ m) same = ground (arith, same p, offsets-modify k f m same)

get-modify :
    (k : ℕ) (f : PeerState → PeerState) (m : PeerMap) (p : PeerState)
    → get k m ≡ some p
    → get k (modify k f m) ≡ some (f p)
unfolding modify get
get-modify k f [] p h = cc
get-modify k f ((j, q) ∷ m) p h = ground (arith, get-modify k f m p)

-- A snapshot with an id that goes as far as the offset; and that there is none.
abbrev pub Covers : Option SnapshotMeta → ℕ → SnapshotMeta → Type 0
Covers o offset snap =
    (o ≡ some snap) × (offset ≤ snap.last_included_index) × (str_eq snap.id "" ≡ false)

abbrev pub Uncovered : Option SnapshotMeta → ℕ → Type 0
Uncovered none offset = Unit
Uncovered (some snap) offset = (snap.last_included_index < offset) ⊎ (str_eq snap.id "" ≡ true)

module _ {R : Type 0} where
  -- What a leader answers: to whom, at its own term and commit index, and the request's position,
  abbrev pub serving : RaftNode R → FetchRequest → Action
  serving n req = Action.serve_fetch record {
    to = req.replica_id;
    cluster_id = n.config.cluster_id;
    leader_epoch = n.hard_state.current_term;
    leader_id = n.id;
    high_watermark = n.commit_index;
    fetch_offset = req.fetch_offset;
    last_fetched_epoch = req.last_fetched_epoch;
  }

  -- or the snapshot.
  abbrev pub redirecting : RaftNode R → FetchRequest → SnapshotMeta → Action
  redirecting n req snap = Action.redirect_to_snapshot record {
    to = req.replica_id;
    cluster_id = n.config.cluster_id;
    leader_epoch = n.hard_state.current_term;
    leader_id = n.id;
    high_watermark = n.commit_index;
    snapshot_metadata = snap;
  }

  route_fetch-Covers :
      (n : RaftNode R) (req : FetchRequest) (o : Option SnapshotMeta)
      → ((route_fetch n req o ≡ serve n req) × Uncovered o req.fetch_offset)
        ⊎ ((snap : SnapshotMeta) × (route_fetch n req o ≡ redirect n req snap)
            × Covers o req.fetch_offset snap)
  unfolding route_fetch
  route_fetch-Covers n req none = inl (refl, tt)
  route_fetch-Covers n req (some snap) =
      elim (Bool-cases (leb req.fetch_offset snap.last_included_index && not (str_eq snap.id ""))) [
        | inl e ↦ inr (snap, rw e refl, (refl, ground arith, ground arith))
        | inr e ↦ inl (rw e refl, ground arith)
      ]

module _ {R : Type 0} ⦃rand : Rand R⦄ where
  -- A fetch request confirms nothing: the offsets that count for commits, the commit index, the log
  -- and what is applied stay, whatever the request.
  pub handle_fetch_request-unconfirmed :
      (n : RaftNode R) (req : FetchRequest)
      → let m = (handle_fetch_request n req).0 in
        (offsets m.peers ≡ offsets n.peers)
        × (m.commit_index ≡ n.commit_index)
        × (m.last_log_index ≡ n.last_log_index)
        × (m.last_applied ≡ n.last_applied)
  unfolding note_fetch stamp_fetch become_follower
  handle_fetch_request-unconfirmed n req =
      handle_fetch_request_cases
        (λ r.
          (offsets r.0.peers ≡ offsets n.peers)
          × (r.0.commit_index ≡ n.commit_index)
          × (r.0.last_log_index ≡ n.last_log_index)
          × (r.0.last_applied ≡ n.last_applied))
        n req (refl, refl, refl, refl) (λ _. (refl, refl, refl, refl))
        (λ _. (offsets-modify req.replica_id _ n.peers (λ p. refl), refl, refl, refl))

  handle_fetch_request-routes :
      (n : RaftNode R) (req : FetchRequest)
      → is_leader_role n.role ≡ true
      → str_eq req.cluster_id n.config.cluster_id ≡ true
      → is_self n req.replica_id ≡ false
      → is_known_sender n req.replica_id ≡ true
      → req.leader_epoch ≤ n.hard_state.current_term
      → 0 < req.fetch_offset
      → (handle_fetch_request n req).1
        ≡ route_fetch (note_fetch n req.replica_id) req n.last_snapshot_meta ∷ []
  unfolding handle_fetch_request
  handle_fetch_request-routes n req leads same other known current positive = ground arith

  -- A leader answers a fetch at its own or an older term, from a known peer of the cluster and at an
  -- offset from 1 on, with one action. If it has a snapshot with an id that covers the offset, it is
  -- the redirect to that snapshot, otherwise the order to serve the entries from that offset; both
  -- are for the sender and carry the leader's own id, term and commit index.
  pub handle_fetch_request-answer :
      (n : RaftNode R) (req : FetchRequest)
      → is_leader_role n.role ≡ true
      → str_eq req.cluster_id n.config.cluster_id ≡ true
      → is_self n req.replica_id ≡ false
      → is_known_sender n req.replica_id ≡ true
      → req.leader_epoch ≤ n.hard_state.current_term
      → 0 < req.fetch_offset
      → (((handle_fetch_request n req).1 ≡ serving n req ∷ [])
          × Uncovered n.last_snapshot_meta req.fetch_offset)
        ⊎ ((snap : SnapshotMeta) × ((handle_fetch_request n req).1 ≡ redirecting n req snap ∷ [])
            × Covers n.last_snapshot_meta req.fetch_offset snap)
  unfolding note_fetch
  handle_fetch_request-answer n req leads same other known current positive =
      let routed = handle_fetch_request-routes n req leads same other known current positive in
      elim (route_fetch-Covers (note_fetch n req.replica_id) req n.last_snapshot_meta) [
        | inl (e, u) ↦ inl (routed ∙ ap (λ a. a ∷ []) (e ∙ served), u)
        | inr (snap, e, c) ↦ inr (snap, routed ∙ ap (λ a. a ∷ []) (e ∙ redirected snap), c)
      ]
    where
      served : serve (note_fetch n req.replica_id) req ≡ serving n req
      served = refl

      redirected :
          (snap : SnapshotMeta)
          → redirect (note_fetch n req.replica_id) req snap ≡ redirecting n req snap
      redirected snap = refl

module _ {R : Type 0} where
  -- An acknowledged fetch raises the peer's offset to the confirmed one, no further than the leader's
  -- log, and never lowers it.
  pub handle_fetch_request_acked-offset :
      (n : RaftNode R) (replica_id confirmed : ℕ) (p : PeerState)
      → is_leader_role n.role ≡ true
      → is_known_sender n replica_id ≡ true
      → get replica_id n.peers ≡ some p
      → (p' : PeerState) × (get replica_id
            (handle_fetch_request_acked n replica_id confirmed).0.peers
          ≡ some p')
        × (p'.last_fetch_offset ≡ max p.last_fetch_offset (min confirmed n.last_log_index))
  unfolding handle_fetch_request_acked
  handle_fetch_request_acked-offset n replica_id confirmed p leads known tracked =
      let acked = with_ack n replica_id confirmed in
      let found =
        get-modify replica_id
          (acknowledge (min confirmed n.last_log_index) n.last_log_index n.logical_tick) n.peers p
          tracked in
      let same : (advance_and_drain acked).0.peers ≡ acked.peers =
        ap (λ m. m.peers) (advance_and_drain-frame acked) in
      (
        acknowledge (min confirmed n.last_log_index) n.last_log_index n.logical_tick p,
        rw (leads, known) (ap (get replica_id) same ∙ found),
        unfold acknowledge in ground arith,
      )

  -- When a leader has the acknowledgement with which as many records of the voter set as its quorum
  -- has nodes reach some `d`, at or past its no-op and past its commit index, and the leader has
  -- applied nothing past its commit index, then in the same step it
  -- commits up to `d` at least, and its first action applies all from after what was applied through
  -- what it commits.
  pub handle_fetch_request_acked-commits :
      (n : RaftNode R) (replica_id confirmed : ℕ) (vs : VoterSet) (k d : ℕ)
      → is_leader_role n.role ≡ true
      → is_known_sender n replica_id ≡ true
      → n.voter_set ≡ some vs
      → IsLawful vs
      → n.leader_no_op_index ≡ some k
      → k ≤ d
      → n.commit_index < d
      → HasQuorum (with_ack n replica_id confirmed) vs d
      → n.last_applied ≤ n.commit_index
      → Applies n d (handle_fetch_request_acked n replica_id confirmed)
  unfolding handle_fetch_request_acked
  handle_fetch_request_acked-commits n replica_id confirmed vs k d leads known s l m gated later q
        o =
      let acked = with_ack n replica_id confirmed in
      let (c, e, high) = try_advance_commit_index-progress acked vs k d leads s l m gated later q in
      let done = advance_and_drain-Applies acked c d e high o in
      rw (leads, known)
        record {
          committed = done.committed;
          applied = done.applied;
          others = done.others;
          actions = done.actions;
        }
