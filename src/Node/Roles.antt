-- ===== src/Node/Roles.antt =====
-- xraft-core/src/node.rs: the role transitions `become_follower`, `become_pre_candidate`,
-- `become_candidate` and `become_leader`. A method returns the new node and its actions.
pub mod Cases
use failover_cluster.Prelude.{
  ℕ, Bool, List, [], ◌∷◌, ◌++◌, Option, none, some, ltb, if◌then◌else◌, saturating_add,
}
use failover_cluster.Types.{
  follower, pre_candidate, candidate, leader, observer, is_observer_role, is_stepping_down,
}
use failover_cluster.Message.{
  Entry, no_op, Action, persist_hard_state, step_down, send_message, append_entries,
  OutboundMessage, VoteRequest, PreVoteRequest,
}
use failover_cluster.Timer.{Rand, reset}
use failover_cluster.Peers.{PeerState, PeerMap, modify_all}
use failover_cluster.Votes.{insert}
use failover_cluster.Node.{RaftNode}
use failover_cluster.Node.Quorum.{has_election_quorum, has_pre_election_quorum}
use failover_cluster.Node.Commit.{advance_and_drain}

-- One message to each peer that is a voter.
unfoldable pub to_voters : OutboundMessage → PeerMap → List Action
to_voters message [] = []
to_voters message ((peer_id, peer) ∷ rest) =
    if peer.is_voter
    then send_message peer_id message ∷ to_voters message rest
    else to_voters message rest

abbrev pub when {ℓ} : {A : Type ℓ} → Bool → A → List A
when b a = if b then a ∷ [] else []

abbrev pub contact_tick : Option ℕ → ℕ → Option ℕ
contact_tick none now = none
contact_tick (some _) now = some now

-- `become_leader` starts to observe the peer; `last_fetch_seq` and `is_voter` stay.
unfoldable pub restart_peer : ℕ → PeerState → PeerState
restart_peer now p = record p {
  last_fetch_offset = 0;
  last_fetch_time = now;
  last_caught_up_time = now;
}

module _ {R : Type 0} where
  abbrev pub new_election_term : RaftNode R → ℕ
  new_election_term n = saturating_add n.hard_state.current_term 1

  abbrev pub pre_vote_request_of : RaftNode R → PreVoteRequest
  pre_vote_request_of n = record {
    cluster_id = n.config.cluster_id;
    leader_epoch = 0;
    next_term = new_election_term n;
    candidate_id = n.id;
    last_log_index = n.last_log_index;
    last_log_term = n.last_log_term;
  }

  -- Built after the term is raised.
  abbrev pub vote_request_of : RaftNode R → VoteRequest
  vote_request_of n = record {
    cluster_id = n.config.cluster_id;
    leader_epoch = 0;
    term = n.hard_state.current_term;
    candidate_id = n.id;
    last_log_index = n.last_log_index;
    last_log_term = n.last_log_term;
  }

  abbrev pub no_op_entry : RaftNode R → Entry
  no_op_entry n = record {
    index = saturating_add n.last_log_index 1;
    term = n.hard_state.current_term;
    payload = no_op;
  }

module _ {R : Type 0} ⦃rand : Rand R⦄ where
  unfoldable pub become_follower : RaftNode R → ℕ → Option ℕ → RaftNode R × List Action
  become_follower n term leader_id =
      let newer = ltb n.hard_state.current_term term in
      let (timer, rng) = reset n.election_timer n.rng in
      (
        record n {
          hard_state =
              if newer
              then record (n.hard_state) { current_term = term; voted_for = none }
              else n.hard_state;
          role = if is_observer_role n.role then observer else follower;
          leader_id = leader_id;
          last_leader_contact_tick = contact_tick leader_id n.logical_tick;
          votes_received = [];
          pre_votes_received = [];
          leader_no_op_index = none;
          last_fetch_tick = none;
          leader_started_tick = none;
          check_quorum_elapsed_ticks = 0;
          election_timer = timer;
          rng = rng;
        },
        when newer persist_hard_state ++ when (is_stepping_down n.role) step_down,
      )

  -- The node as a leader, with the no-op appended to its log mirror.
  unfoldable pub lead : RaftNode R → RaftNode R
  lead n =
      let (timer, rng) = reset n.election_timer n.rng in
      let entry = no_op_entry n in
      record n {
        role = leader;
        leader_id = some n.id;
        last_leader_contact_tick = some n.logical_tick;
        votes_received = [];
        pre_votes_received = [];
        last_fetch_tick = none;
        leader_started_tick = some n.logical_tick;
        check_quorum_elapsed_ticks = 0;
        election_timer = timer;
        rng = rng;
        peers = modify_all (restart_peer n.logical_tick) n.peers;
        last_log_index = entry.index;
        last_log_term = entry.term;
        leader_no_op_index = some entry.index;
      }

  unfoldable pub become_leader : RaftNode R → RaftNode R × List Action
  become_leader n =
      let (n', drained) = advance_and_drain (lead n) in
      (n', Action.become_leader ∷ append_entries (no_op_entry n ∷ []) ∷ drained)

  -- The node as a candidate in a new term, with its own vote.
  unfoldable pub stand : RaftNode R → RaftNode R
  stand n =
      let (timer, rng) = reset n.election_timer n.rng in
      record n {
        role = candidate;
        hard_state = record (n.hard_state) {
          current_term = new_election_term n;
          voted_for = some n.id;
        };
        leader_id = none;
        last_leader_contact_tick = none;
        pre_votes_received = [];
        votes_received = insert n.id [];
        leader_no_op_index = none;
        last_fetch_tick = none;
        leader_started_tick = none;
        check_quorum_elapsed_ticks = 0;
        election_timer = timer;
        rng = rng;
      }

  unfoldable pub become_candidate : RaftNode R → RaftNode R × List Action
  become_candidate n =
      let n' = stand n in
      let actions =
        persist_hard_state
        ∷ to_voters (OutboundMessage.vote_request (vote_request_of n')) n'.peers in
      let (led, lead_actions) = become_leader n' in
      if has_election_quorum n' then (led, actions ++ lead_actions) else (n', actions)

  unfoldable pub start_election : RaftNode R → RaftNode R × List Action
  start_election n = become_candidate n

  -- The node as a pre-candidate, with its own pre-vote; the term stays.
  unfoldable pub canvass : RaftNode R → RaftNode R
  canvass n =
      let (timer, rng) = reset n.election_timer n.rng in
      record n {
        role = pre_candidate;
        leader_id = none;
        last_leader_contact_tick = none;
        votes_received = [];
        pre_votes_received = insert n.id [];
        leader_no_op_index = none;
        last_fetch_tick = none;
        leader_started_tick = none;
        check_quorum_elapsed_ticks = 0;
        election_timer = timer;
        rng = rng;
      }

  unfoldable pub become_pre_candidate : RaftNode R → RaftNode R × List Action
  become_pre_candidate n =
      let n' = canvass n in
      let actions =
        to_voters (OutboundMessage.pre_vote_request (pre_vote_request_of n')) n'.peers in
      let (stood, stand_actions) = become_candidate n' in
      if has_pre_election_quorum n' then (stood, actions ++ stand_actions) else (n', actions)
