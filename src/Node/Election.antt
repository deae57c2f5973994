-- ===== src/Node/Election.antt =====
-- xraft-core/src/node.rs: the vote and pre-vote handlers.
pub mod Cases
use failover_cluster.Prelude.{
  ℕ, Bool, true, false, ◌&&◌, not, List, [], ◌∷◌, ◌++◌, Option, none, some, ltb, ◌==◌,
  if◌then◌else◌, saturating_sub, str_eq,
}
use failover_cluster.Types.{
  follower, is_leader_role, is_observer_role, is_candidate_role, is_pre_candidate_role,
  is_stepping_down,
}
use failover_cluster.Message.{
  Action, persist_hard_state, step_down, send_message, OutboundMessage, VoteRequest, VoteResponse,
  PreVoteRequest, PreVoteResponse,
}
use failover_cluster.Timer.{Rand, reset}
use failover_cluster.Votes.{insert}
use failover_cluster.Node.{RaftNode, is_known_voter, candidate_log_is_up_to_date}
use failover_cluster.Node.Quorum.{has_election_quorum, has_pre_election_quorum}
use failover_cluster.Node.Roles.{become_follower, become_candidate, become_leader, when}

-- `None => true, Some(id) => id == candidate`.
abbrev pub vote_free : Option ℕ → ℕ → Bool
vote_free none candidate_id = true
vote_free (some id) candidate_id = id == candidate_id

-- `voted_for != Some(candidate)`.
abbrev pub vote_is_new : Option ℕ → ℕ → Bool
vote_is_new none candidate_id = true
vote_is_new (some id) candidate_id = not (id == candidate_id)

module _ {R : Type 0} where
  unfoldable pub contact_recent : RaftNode R → Option ℕ → Bool
  contact_recent n none = false
  contact_recent n (some t) = ltb (saturating_sub n.logical_tick t) n.election_timer.timeout_ticks

  unfoldable pub leader_recently_active : RaftNode R → Bool
  leader_recently_active n =
      if is_leader_role n.role then true else contact_recent n n.last_leader_contact_tick

  abbrev pub build_vote_response : RaftNode R → Bool → VoteResponse
  build_vote_response n granted = record {
    cluster_id = n.config.cluster_id;
    leader_epoch = 0;
    term = n.hard_state.current_term;
    vote_granted = granted;
    leader_hint = n.leader_id;
  }

  abbrev pub build_pre_vote_response : RaftNode R → Bool → PreVoteResponse
  build_pre_vote_response n granted = record {
    cluster_id = n.config.cluster_id;
    leader_epoch = 0;
    term = n.hard_state.current_term;
    vote_granted = granted;
    leader_hint = n.leader_id;
  }

  abbrev pub vote_reply : RaftNode R → ℕ → Bool → Action
  vote_reply n to granted =
      send_message to (OutboundMessage.vote_response (build_vote_response n granted))

  unfoldable pub grants_vote : RaftNode R → VoteRequest → Bool
  grants_vote n req =
      candidate_log_is_up_to_date n req.last_log_index req.last_log_term
      && vote_free n.hard_state.voted_for req.candidate_id

  -- The three conditions of a pre-vote grant.
  unfoldable pub grants_pre_vote : RaftNode R → PreVoteRequest → Bool
  grants_pre_vote n req =
      ltb n.hard_state.current_term req.next_term
      && candidate_log_is_up_to_date n req.last_log_index req.last_log_term
      && not (leader_recently_active n)

  -- It takes `&self`: no field can change.
  unfoldable pub handle_pre_vote_request : RaftNode R → PreVoteRequest → List Action
  handle_pre_vote_request n req =
      if not (str_eq req.cluster_id n.config.cluster_id)
      then []
      else if is_observer_role n.role
      then []
      else if not (is_known_voter n req.candidate_id)
      then []
      else send_message req.candidate_id
          (OutboundMessage.pre_vote_response (build_pre_vote_response n (grants_pre_vote n req)))
        ∷ []

module _ {R : Type 0} ⦃rand : Rand R⦄ where
  -- The inline step-down of `handle_vote_request` on a higher term. It leaves `leader_no_op_index`
  -- and `last_fetch_tick` as they are.
  unfoldable pub adopt_term : RaftNode R → ℕ → RaftNode R
  adopt_term n term =
      let (timer, rng) = reset n.election_timer n.rng in
      record n {
        hard_state = record (n.hard_state) { current_term = term; voted_for = none };
        role = follower;
        leader_id = none;
        last_leader_contact_tick = none;
        votes_received = [];
        pre_votes_received = [];
        leader_started_tick = none;
        check_quorum_elapsed_ticks = 0;
        election_timer = timer;
        rng = rng;
      }

  unfoldable pub cast_vote : RaftNode R → ℕ → RaftNode R
  cast_vote n candidate_id =
      let (timer, rng) = reset n.election_timer n.rng in
      record n {
        hard_state = record (n.hard_state) { voted_for = some candidate_id };
        election_timer = timer;
        rng = rng;
      }

  -- The part behind the guards: `n'` has the request's term.
  unfoldable pub decide_vote : RaftNode R → VoteRequest → Bool → Bool → RaftNode R × List Action
  decide_vote n' req newer stepped_down =
      let granted = grants_vote n' req in
      let changed = granted && vote_is_new n'.hard_state.voted_for req.candidate_id in
      let voted = if granted then cast_vote n' req.candidate_id else n' in
      (
        voted,
        when (if newer then true else changed) persist_hard_state
            ++ (when stepped_down step_down ++ vote_reply voted req.candidate_id granted ∷ []),
      )

  unfoldable pub answer_vote : RaftNode R → VoteRequest → RaftNode R × List Action
  answer_vote n req =
      if ltb n.hard_state.current_term req.term
      then decide_vote (adopt_term n req.term) req true (is_stepping_down n.role)
      else decide_vote n req false false

  unfoldable pub handle_vote_request : RaftNode R → VoteRequest → RaftNode R × List Action
  handle_vote_request n req =
      if not (str_eq req.cluster_id n.config.cluster_id)
      then (n, [])
      else if is_observer_role n.role
      then (n, [])
      else if not (is_known_voter n req.candidate_id)
      then (n, [])
      else if ltb req.term n.hard_state.current_term
      then (n, vote_reply n req.candidate_id false ∷ [])
      else answer_vote n req

  -- A granted vote is counted, and a quorum makes the leader.
  unfoldable pub tally_vote : RaftNode R → ℕ → RaftNode R × List Action
  tally_vote n voter =
      let n' = record n { votes_received = insert voter n.votes_received } in
      let (led, actions) = become_leader n' in
      if has_election_quorum n' then (led, actions) else (n', [])

  unfoldable pub handle_vote_response : RaftNode R → ℕ → VoteResponse → RaftNode R × List Action
  handle_vote_response n sender resp =
      if not (str_eq resp.cluster_id n.config.cluster_id)
      then (n, [])
      else if not (is_known_voter n sender)
      then (n, [])
      else if ltb n.hard_state.current_term resp.term
      then become_follower n resp.term none
      else if not (is_candidate_role n.role && resp.term == n.hard_state.current_term)
      then (n, [])
      else if resp.vote_granted
      then tally_vote n sender
      else (n, [])

  unfoldable pub tally_pre_vote : RaftNode R → ℕ → RaftNode R × List Action
  tally_pre_vote n voter =
      let n' = record n { pre_votes_received = insert voter n.pre_votes_received } in
      let (stood, actions) = become_candidate n' in
      if has_pre_election_quorum n' then (stood, actions) else (n', [])

  unfoldable pub handle_pre_vote_response :
      RaftNode R → ℕ → PreVoteResponse → RaftNode R × List Action
  handle_pre_vote_response n sender resp =
      if not (str_eq resp.cluster_id n.config.cluster_id)
      then (n, [])
      else if not (is_known_voter n sender)
      then (n, [])
      else if ltb n.hard_state.current_term resp.term
      then become_follower n resp.term none
      else if not (is_pre_candidate_role n.role)
      then (n, [])
      else if resp.vote_granted
      then tally_pre_vote n sender
      else (n, [])
