-- ===== src/Node/Fetch.antt =====
-- xraft-core/src/node.rs: log replication. The leader's side of a fetch, and client proposals.
pub mod Cases
use failover_cluster.Prelude.{
  ℕ, Bool, true, ◌&&◌, not, List, [], ◌∷◌, Option, none, some, ltb, leb, ◌==◌, if◌then◌else◌,
  saturating_add, str_eq, min,
}
use failover_cluster.Types.{SnapshotMeta, is_leader_role}
use failover_cluster.Message.{
  Entry, command, Action, append_entries, serve_fetch, redirect_to_snapshot, FetchRequest,
}
use failover_cluster.Timer.{Rand}
use failover_cluster.Peers.{PeerState, contains_key, modify}
use failover_cluster.Node.{RaftNode, is_self, is_known_voter}
use failover_cluster.Node.Commit.{advance_and_drain}
use failover_cluster.Node.Roles.{become_follower}

-- The peer's fetch is recorded; its `last_fetch_offset` is not.
unfoldable pub stamp_fetch : ℕ → ℕ → PeerState → PeerState
stamp_fetch now seq p = record p { last_fetch_time = now; last_fetch_seq = seq }

-- Progress never goes back, and a peer at the leader's tail is caught up.
unfoldable pub acknowledge : ℕ → ℕ → ℕ → PeerState → PeerState
acknowledge clamped leader_tail now p =
    let offset = if ltb p.last_fetch_offset clamped then clamped else p.last_fetch_offset in
    record p {
      last_fetch_offset = offset;
      last_caught_up_time = if offset == leader_tail then now else p.last_caught_up_time;
    }

module _ {R : Type 0} where
  -- A voter, or a tracked peer.
  unfoldable pub is_known_sender : RaftNode R → ℕ → Bool
  is_known_sender n id = if is_known_voter n id then true else contains_key id n.peers

  unfoldable pub note_fetch : RaftNode R → ℕ → RaftNode R
  note_fetch n replica_id =
      let seq = saturating_add n.fetch_seq 1 in
      record n {
        fetch_seq = seq;
        peers = modify replica_id (stamp_fetch n.logical_tick seq) n.peers;
        last_leader_contact_tick = some n.logical_tick;
      }

  abbrev pub serve : RaftNode R → FetchRequest → Action
  serve n req = serve_fetch (record {
    to = req.replica_id;
    cluster_id = n.config.cluster_id;
    leader_epoch = n.hard_state.current_term;
    leader_id = n.id;
    high_watermark = n.commit_index;
    fetch_offset = req.fetch_offset;
    last_fetched_epoch = req.last_fetched_epoch;
  })

  abbrev pub redirect : RaftNode R → FetchRequest → SnapshotMeta → Action
  redirect n req snap = redirect_to_snapshot (record {
    to = req.replica_id;
    cluster_id = n.config.cluster_id;
    leader_epoch = n.hard_state.current_term;
    leader_id = n.id;
    high_watermark = n.commit_index;
    snapshot_metadata = snap;
  })

  -- A fetch at or below a snapshot with an id is redirected; any other is served.
  unfoldable pub route_fetch : RaftNode R → FetchRequest → Option SnapshotMeta → Action
  route_fetch n req none = serve n req
  route_fetch n req (some snap) =
      if leb req.fetch_offset snap.last_included_index && not (str_eq snap.id "")
      then redirect n req snap
      else serve n req

  unfoldable pub handle_fetch_request_acked : RaftNode R → ℕ → ℕ → RaftNode R × List Action
  handle_fetch_request_acked n replica_id confirmed_offset =
      let clamped = min confirmed_offset n.last_log_index in
      let acked = record n {
        peers = modify replica_id (acknowledge clamped n.last_log_index n.logical_tick) n.peers;
      } in
      if not (is_leader_role n.role)
      then (n, [])
      else if not (is_known_sender n replica_id)
      then (n, [])
      else advance_and_drain acked

  abbrev pub command_entry : RaftNode R → List ℕ → Entry
  command_entry n bytes = record {
    index = saturating_add n.last_log_index 1;
    term = n.hard_state.current_term;
    payload = command bytes;
  }

  unfoldable pub append_local : RaftNode R → Entry → RaftNode R
  append_local n entry = record n { last_log_index = entry.index; last_log_term = entry.term }

  unfoldable pub handle_client_propose : RaftNode R → List ℕ → RaftNode R × List Action
  handle_client_propose n bytes =
      let entry = command_entry n bytes in
      let (n', drained) = advance_and_drain (append_local n entry) in
      if not (is_leader_role n.role) then (n, []) else (n', append_entries (entry ∷ []) ∷ drained)

module _ {R : Type 0} ⦃rand : Rand R⦄ where
  unfoldable pub handle_fetch_request : RaftNode R → FetchRequest → RaftNode R × List Action
  handle_fetch_request n req =
      if not (str_eq req.cluster_id n.config.cluster_id)
      then (n, [])
      else if is_self n req.replica_id
      then (n, [])
      else if not (is_known_sender n req.replica_id)
      then (n, [])
      else if ltb n.hard_state.current_term req.leader_epoch
      then become_follower n req.leader_epoch none
      else if not (is_leader_role n.role)
      then (n, [])
      else if req.fetch_offset == 0
      then (n, [])
      else (
        note_fetch n req.replica_id,
        route_fetch (note_fetch n req.replica_id) req n.last_snapshot_meta ∷ [],
      )
