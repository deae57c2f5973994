-- ===== src/Ballot/Election.antt =====
-- The ballot across the vote handlers.
use failover_cluster.Types.{is_stepping_down}
use failover_cluster.Ballot.Roles.{
  become_candidate-Follows, become_follower-Follows, hard_state-become_leader,
}
use failover_cluster.Node.Election.Cases.{
  answer_vote_cases, handle_pre_vote_response_cases, handle_vote_request_cases,
  handle_vote_response_cases, with_pre_vote, with_vote,
}
use failover_cluster.Node.Election.{
  adopt_term, answer_vote, cast_vote, decide_vote, grants_vote, handle_pre_vote_response,
  handle_vote_request, handle_vote_response,
}
use failover_cluster.Timer.{Rand}
use failover_cluster.Node.{RaftNode}
use failover_cluster.Message.{PreVoteResponse, VoteRequest, VoteResponse}
use failover_cluster.Ballot.{Follows, Follows-newer, Follows-refl}
use failover_cluster.Prelude.{Bool, arith, false, ltb, ltb→lt, none, refl, true, ℕ, ◌≡◌, ◌<◌}

module _ {R : Type 0} ⦃rand : Rand R⦄ where
  decide_vote-Follows :
      (n : RaftNode R) (req : VoteRequest) (newer stepped_down : Bool)
      → Follows n.hard_state (decide_vote n req newer stepped_down).0.hard_state
  unfolding decide_vote grants_vote cast_vote
  decide_vote-Follows n req newer stepped_down = record {
    grows = λ l. ground arith;
    kept = λ l e v q. ground arith;
  }

  current_term-decide_vote :
      (n : RaftNode R) (req : VoteRequest) (newer stepped_down : Bool)
      → (decide_vote n req newer stepped_down).0.hard_state.current_term ≡ n.hard_state.current_term
  unfolding decide_vote cast_vote
  current_term-decide_vote n req newer stepped_down = ground arith

  current_term-adopt_term :
      (n : RaftNode R) (term : ℕ) → (adopt_term n term).hard_state.current_term ≡ term
  unfolding adopt_term
  current_term-adopt_term n term = refl

  answer_vote-Follows :
      (n : RaftNode R) (req : VoteRequest) → Follows n.hard_state (answer_vote n req).0.hard_state
  answer_vote-Follows n req =
      answer_vote_cases (λ r. Follows n.hard_state r.0.hard_state) n req
        (λ newer. Follows-newer n.hard_state _ (risen newer))
        (λ _. decide_vote-Follows n req false false)
    where
      risen :
          ltb n.hard_state.current_term req.term ≡ true
          → n.hard_state.current_term
            < (decide_vote
                (adopt_term n req.term)
                req
                true
                (is_stepping_down n.role)).0.hard_state.current_term
      risen newer =
          rw (current_term-decide_vote (adopt_term n req.term) req true (is_stepping_down n.role))
            (rw (current_term-adopt_term n req.term) (ltb→lt _ _ newer))

  pub handle_vote_request-Follows :
      (n : RaftNode R) (req : VoteRequest)
      → Follows n.hard_state (handle_vote_request n req).0.hard_state
  handle_vote_request-Follows n req =
      handle_vote_request_cases (λ r. Follows n.hard_state r.0.hard_state) n req
        (Follows-refl n.hard_state) (λ _. Follows-refl n.hard_state)
        (λ _ _. answer_vote-Follows n req)

  pub handle_vote_response-Follows :
      (n : RaftNode R) (sender : ℕ) (resp : VoteResponse)
      → Follows n.hard_state (handle_vote_response n sender resp).0.hard_state
  handle_vote_response-Follows n sender resp =
      handle_vote_response_cases (λ r. Follows n.hard_state r.0.hard_state) n sender resp
        (Follows-refl n.hard_state) (λ _. become_follower-Follows n resp.term none)
        (λ _ _. Follows-refl n.hard_state)
        (λ _ _. rw (hard_state-become_leader (with_vote n sender)) (Follows-refl n.hard_state))

  pub handle_pre_vote_response-Follows :
      (n : RaftNode R) (sender : ℕ) (resp : PreVoteResponse)
      → Follows n.hard_state (handle_pre_vote_response n sender resp).0.hard_state
  handle_pre_vote_response-Follows n sender resp =
      handle_pre_vote_response_cases (λ r. Follows n.hard_state r.0.hard_state) n sender resp
        (Follows-refl n.hard_state) (λ _. become_follower-Follows n resp.term none)
        (λ _ _. Follows-refl n.hard_state)
        (λ _ _. become_candidate-Follows (with_pre_vote n sender))
