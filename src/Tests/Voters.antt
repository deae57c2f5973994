-- ===== src/Tests/Voters.antt =====
-- Votes, terms and persistence on a cluster of three.
use failover_cluster.Candidacy
use failover_cluster.Ballot.Step.{run-one_vote, run-term_grows}
use failover_cluster.Candidacy.Step.{run-IsStanding}
use failover_cluster.Node.Election.{
  adopt_term, answer_vote, cast_vote, decide_vote, grants_vote, handle_pre_vote_request,
  handle_vote_request,
}
use failover_cluster.Prelude.{[], arith, inl, inr, refl, some, true, ℕ, ◌≡◌, ◌∷◌, ◌≤◌, ◌↔◌}
use failover_cluster.Durability.Step.{Settles, step-Settles}
use failover_cluster.Node.{RaftNode, candidate_log_is_up_to_date, current_term, is_known_voter}
use failover_cluster.Message.{Input}
use failover_cluster.Elections.{
  Granted, PreGrants, any_grants, handle_pre_vote_request_iff, handle_vote_request-Granted,
  handle_vote_request-grants,
}
use failover_cluster.Tests.Fixture.{
  lowest, follower_node, candidate_node, vote_ask, pre_vote_ask, vote_grant,
}
use failover_cluster.Node.Step.{step, run}

-- Node 1 votes for node 2 in term 2 and is asked again.
abbrev voted_node : RaftNode ℕ
voted_node = record follower_node {
  hard_state = record { current_term = 2; voted_for = some 2; commit_index = 0 };
}

run-one_vote_example :
    (run voted_node (Input.vote_request vote_ask ∷ [])).0.hard_state.voted_for ≡ some 2
unfolding run step handle_vote_request answer_vote decide_vote grants_vote
    candidate_log_is_up_to_date cast_vote is_known_voter current_term
run-one_vote_example =
    run-one_vote voted_node (Input.vote_request vote_ask ∷ []) 2 refl refl (omega arith)

run-term_grows_example : 1 ≤ current_term (run follower_node (Input.vote_request vote_ask ∷ [])).0
unfolding run step handle_vote_request answer_vote decide_vote grants_vote
    candidate_log_is_up_to_date cast_vote adopt_term is_known_voter current_term
run-term_grows_example =
    run-term_grows follower_node (Input.vote_request vote_ask ∷ []) (omega arith)

handle_vote_request-Granted_example :
    Granted follower_node (handle_vote_request follower_node vote_ask).0 vote_ask
unfolding handle_vote_request answer_vote decide_vote grants_vote candidate_log_is_up_to_date
    cast_vote adopt_term is_known_voter
handle_vote_request-Granted_example = handle_vote_request-Granted follower_node vote_ask refl

handle_vote_request-grants_example :
    any_grants (handle_vote_request follower_node vote_ask).1 ≡ true
unfolding is_known_voter
handle_vote_request-grants_example =
    handle_vote_request-grants follower_node vote_ask refl refl refl (omega arith)
      (inr (refl, omega arith)) (inl (omega arith))

handle_pre_vote_request_iff_example :
    (any_grants (handle_pre_vote_request follower_node pre_vote_ask) ≡ true)
    ↔ PreGrants follower_node pre_vote_ask
handle_pre_vote_request_iff_example = handle_pre_vote_request_iff follower_node pre_vote_ask

step-Settles_example : Settles follower_node (step follower_node (Input.vote_request vote_ask))
step-Settles_example = step-Settles follower_node (Input.vote_request vote_ask)

run-IsStanding_example :
    Candidacy.Inv (run candidate_node (Input.vote_response 2 vote_grant ∷ Input.tick ∷ [])).0
run-IsStanding_example =
    run-IsStanding candidate_node (Input.vote_response 2 vote_grant ∷ Input.tick ∷ []) (record {
      votes_distinct = (refl, tt);
      pre_votes_distinct = tt;
      self_voted = λ _. refl;
      led = λ l. cc;
    })
