-- ===== src/Node/Election/Cases.antt =====
-- The ways through the vote handlers: a message is dropped, refused, or acted on.
use native.Mathlib.Omega.{arith}
use failover_cluster.Prelude.{
  not, str_eq, ◌==◌, ℕ, true, false, ◌≡◌, List, [], ◌∷◌, if_elim, ltb, none, ◌&&◌,
}
use failover_cluster.Types.{
  is_stepping_down, is_observer_role, is_candidate_role, is_pre_candidate_role,
}
use failover_cluster.Message.{Action, VoteRequest, VoteResponse, PreVoteResponse}
use failover_cluster.Timer.{Rand}
use failover_cluster.Votes.{insert}
use failover_cluster.Node.{RaftNode, is_known_voter}
use failover_cluster.Node.Quorum.{has_election_quorum, has_pre_election_quorum}
use failover_cluster.Node.Roles.{become_follower, become_leader, become_candidate}
use failover_cluster.Node.Election.{
  adopt_term, decide_vote, answer_vote, handle_vote_request, tally_vote, handle_vote_response,
  tally_pre_vote, handle_pre_vote_response, vote_reply,
}

module _ {R : Type 0} (n : RaftNode R) where
  abbrev pub with_vote : ℕ → RaftNode R
  with_vote voter = record n { votes_received = insert voter n.votes_received }

  abbrev pub with_pre_vote : ℕ → RaftNode R
  with_pre_vote voter = record n { pre_votes_received = insert voter n.pre_votes_received }

  -- What holds where a vote counts.
  pub record Counts (sender : ℕ) (resp : VoteResponse) : Type 0 where
    pub known : is_known_voter n sender ≡ true
    pub standing : is_candidate_role n.role ≡ true
    pub current : resp.term ≡ n.hard_state.current_term
    pub granted : resp.vote_granted ≡ true

module _ {ℓ} {R : Type 0} ⦃rand : Rand R⦄ (P : RaftNode R × List Action → Type ℓ)
    (n : RaftNode R) where
  pub answer_vote_cases :
      (req : VoteRequest)
      → (ltb n.hard_state.current_term req.term ≡ true
          → P (decide_vote (adopt_term n req.term) req true (is_stepping_down n.role)))
      → (ltb n.hard_state.current_term req.term ≡ false → P (decide_vote n req false false))
      → P (answer_vote n req)
  unfolding answer_vote
  answer_vote_cases req newer same = if_elim P _ newer same

  pub handle_vote_request_cases :
      (req : VoteRequest)
      → P (n, [])
      → (ltb req.term n.hard_state.current_term ≡ true
          → P (n, vote_reply n req.candidate_id false ∷ []))
      → (is_observer_role n.role ≡ false
          → ltb req.term n.hard_state.current_term ≡ false
          → P (answer_vote n req))
      → P (handle_vote_request n req)
  unfolding handle_vote_request
  handle_vote_request_cases req dropped stale answered =
      if_elim P (not (str_eq req.cluster_id n.config.cluster_id)) (λ _. dropped)
        λ _.
          if_elim P (is_observer_role n.role) (λ _. dropped)
            λ voting.
              if_elim P (not (is_known_voter n req.candidate_id)) (λ _. dropped)
                λ _.
                  if_elim P (ltb req.term n.hard_state.current_term) stale
                    λ current. answered voting current

  -- `counted` is a vote that leaves the candidate short of a quorum, `elected` the one that does not.
  pub handle_vote_response_cases :
      (sender : ℕ) (resp : VoteResponse)
      → P (n, [])
      → (ltb n.hard_state.current_term resp.term ≡ true → P (become_follower n resp.term none))
      → (Counts n sender resp
          → has_election_quorum (with_vote n sender) ≡ false
          → P (with_vote n sender, []))
      → (Counts n sender resp
          → has_election_quorum (with_vote n sender) ≡ true
          → P (become_leader (with_vote n sender)))
      → P (handle_vote_response n sender resp)
  unfolding handle_vote_response tally_vote
  handle_vote_response_cases sender resp dropped newer counted elected =
      if_elim P (not (str_eq resp.cluster_id n.config.cluster_id)) (λ _. dropped)
        λ _.
          if_elim P (not (is_known_voter n sender)) (λ _. dropped)
            λ known. if_elim P (ltb n.hard_state.current_term resp.term) newer λ _.
              if_elim P (not (is_candidate_role n.role && resp.term == n.hard_state.current_term))
                (λ _. dropped)
                λ now.
                  if_elim P resp.vote_granted
                    (λ granted.
                      let counts : Counts n sender resp = ground arith in
                      if_elim P (has_election_quorum (with_vote n sender)) (elected counts)
                        (counted counts))
                    (λ _. dropped)

  pub handle_pre_vote_response_cases :
      (sender : ℕ) (resp : PreVoteResponse)
      → P (n, [])
      → (ltb n.hard_state.current_term resp.term ≡ true → P (become_follower n resp.term none))
      → (is_pre_candidate_role n.role ≡ true
          → has_pre_election_quorum (with_pre_vote n sender) ≡ false
          → P (with_pre_vote n sender, []))
      → (is_pre_candidate_role n.role ≡ true
          → has_pre_election_quorum (with_pre_vote n sender) ≡ true
          → P (become_candidate (with_pre_vote n sender)))
      → P (handle_pre_vote_response n sender resp)
  unfolding handle_pre_vote_response tally_pre_vote
  handle_pre_vote_response_cases sender resp dropped newer counted elected =
      if_elim P (not (str_eq resp.cluster_id n.config.cluster_id)) (λ _. dropped)
        λ _.
          if_elim P (not (is_known_voter n sender)) (λ _. dropped)
            λ _. if_elim P (ltb n.hard_state.current_term resp.term) newer λ _.
              if_elim P (not (is_pre_candidate_role n.role)) (λ _. dropped)
                λ now.
                  if_elim P resp.vote_granted
                    (λ _.
                      if_elim P (has_pre_election_quorum (with_pre_vote n sender))
                        (elected (ground arith)) (counted (ground arith)))
                    (λ _. dropped)
