-- ===== src/Node/Tick.antt =====
-- xraft-core/src/node.rs, `handle_tick`: fetch scheduling, Check-Quorum and the election timeout.
pub mod Cases
use failover_cluster.Prelude.{
  ◌||◌, ℕ, Bool, true, false, ◌&&◌, not, List, [], ◌∷◌, ◌++◌, Option, none, some, leb, ◌==◌,
  if◌then◌else◌, saturating_add, saturating_sub, max,
}
use failover_cluster.Types.{
  NodeRole, is_leader_role, is_fetching, follower, pre_candidate, candidate,
}
use failover_cluster.Message.{Action, send_message, OutboundMessage, FetchRequest}
use failover_cluster.Timer
use failover_cluster.Timer.{Rand, div_ceil, is_expired}
use failover_cluster.Peers.{PeerMap}
use failover_cluster.Node.{RaftNode}
use failover_cluster.Node.Quorum.{check_quorum_reachable}
use failover_cluster.Node.Roles.{become_follower, become_pre_candidate}

-- `Follower | PreCandidate | Candidate`: the roles whose election timeout counts.
abbrev pub is_electable : NodeRole → Bool
is_electable r = elim r [ follower ↦ true | pre_candidate ↦ true | candidate ↦ true | _ ↦ false ]

-- The discovery broadcast: to each voter peer but the node itself.
unfoldable pub fetch_from_all : ℕ → FetchRequest → PeerMap → List Action
fetch_from_all id req [] = []
fetch_from_all id req ((peer_id, peer) ∷ rest) =
    if peer_id == id || not peer.is_voter
    then fetch_from_all id req rest
    else send_message peer_id (OutboundMessage.fetch_request req) ∷ fetch_from_all id req rest

module _ {R : Type 0} where
  unfoldable pub fetch_interval_ticks : RaftNode R → ℕ
  fetch_interval_ticks n =
      max (div_ceil n.config.fetch_interval_ms (max n.config.tick_interval_ms 1)) 1

  unfoldable pub should_fetch : RaftNode R → Option ℕ → Bool
  should_fetch n none = true
  should_fetch n (some t) = leb (fetch_interval_ticks n) (saturating_sub n.logical_tick t)

  abbrev pub next_fetch : RaftNode R → FetchRequest
  next_fetch n = record {
    cluster_id = n.config.cluster_id;
    leader_epoch = n.hard_state.current_term;
    replica_id = n.id;
    fetch_offset = saturating_add n.last_log_index 1;
    last_fetched_epoch = n.last_log_term;
  }

  unfoldable pub maybe_build_fetch_request : RaftNode R → Option FetchRequest
  maybe_build_fetch_request n =
      if should_fetch n n.last_fetch_tick then some (next_fetch n) else none

  -- The tick of the fetch is recorded when a message was sent.
  abbrev pub stamp_if_sent : RaftNode R → List Action → RaftNode R
  stamp_if_sent n [] = n
  stamp_if_sent n (_ ∷ _) = record n { last_fetch_tick = some n.logical_tick }

  unfoldable pub fetch_actions : RaftNode R → Option FetchRequest → Option ℕ → List Action
  fetch_actions n none leader_id = []
  fetch_actions n (some req) (some leader_id) =
      send_message leader_id (OutboundMessage.fetch_request req) ∷ []
  fetch_actions n (some req) none = fetch_from_all n.id req n.peers

  unfoldable pub schedule_fetch : RaftNode R → RaftNode R × List Action
  schedule_fetch n =
      let actions = fetch_actions n (maybe_build_fetch_request n) n.leader_id in
      if is_fetching n.role then (stamp_if_sent n actions, actions) else (n, [])

  -- The clock and the timer advance.
  unfoldable pub advance_clock : RaftNode R → RaftNode R
  advance_clock n = record n {
    logical_tick = saturating_add n.logical_tick 1;
    election_timer = Timer.tick n.election_timer;
  }

  -- The interval counter of Check-Quorum, and whether this tick runs the check.
  unfoldable pub count_quorum_tick : RaftNode R → RaftNode R × Bool
  count_quorum_tick n =
      let elapsed = saturating_add n.check_quorum_elapsed_ticks 1 in
      if is_leader_role n.role && n.config.enable_check_quorum
      then if leb n.check_quorum_interval_ticks elapsed
        then (record n { check_quorum_elapsed_ticks = 0 }, true)
        else (record n { check_quorum_elapsed_ticks = elapsed }, false)
      else (n, false)

module _ {R : Type 0} ⦃rand : Rand R⦄ where
  unfoldable pub check_election_timeout : RaftNode R → RaftNode R × List Action
  check_election_timeout n =
      if is_expired n.election_timer && is_electable n.role then become_pre_candidate n else (n, [])

  unfoldable pub check_timeouts : RaftNode R → Bool → RaftNode R × List Action
  check_timeouts n due =
      if due && not (check_quorum_reachable n)
      then become_follower n n.hard_state.current_term none
      else check_election_timeout n

  unfoldable pub handle_tick : RaftNode R → RaftNode R × List Action
  handle_tick n =
      let (fetched, fetches) = schedule_fetch (advance_clock n) in
      let (counted, due) = count_quorum_tick fetched in
      let (n', actions) = check_timeouts counted due in (n', fetches ++ actions)
