-- ===== src/Tests/Clusters.antt =====
-- An election in a cluster of three.
use failover_cluster.Node.Step.{step}
use failover_cluster.Timer.{is_expired, pick_in_range, reset, div_ceil}
use failover_cluster.Node.Quorum.{
  check_quorum_reachable, has_election_quorum, has_pre_election_quorum, votes_reach_quorum,
}
use failover_cluster.Node.Tick.{
  advance_clock, check_election_timeout, check_timeouts, count_quorum_tick, fetch_actions,
  fetch_from_all, fetch_interval_ticks, handle_tick, maybe_build_fetch_request, schedule_fetch,
  should_fetch,
}
use failover_cluster.Node.Commit.{
  advance_and_drain, drain_apply_pipeline, insert_desc, offset_of, quorum_offset, sort_desc,
  try_advance_commit_index, voter_offsets,
}
use failover_cluster.Node.Election.{
  adopt_term, answer_vote, cast_vote, decide_vote, grants_vote, handle_pre_vote_response,
  handle_vote_request, handle_vote_response, tally_pre_vote, tally_vote,
}
use failover_cluster.Prelude.{[], arith, inl, inr, none, refl, true, ℕ, ◌≡◌}
use failover_cluster.Node.Roles.{
  become_leader, become_candidate, become_pre_candidate, canvass, lead, stand, to_voters,
}
use failover_cluster.Tests.Fixture.{
  lowest, three, three-IsLawful, follower_node, timer, vote_ask, vote_grant,
}
use failover_cluster.Cluster.{Cluster, Run, done, next, deliver}
use failover_cluster.Cluster.Leaders.{IsFresh, Run-one_leader}
use failover_cluster.Node.{candidate_log_is_up_to_date, is_known_voter, is_self}
use failover_cluster.Message.{Input, PreVoteResponse, VoteRequest}

-- Every node's election timer is about to expire.
abbrev start : Cluster ℕ
start = record {
  nodes =
      λ k. record follower_node { id = k; election_timer = record timer { elapsed_ticks = 14 } };
  granted = [];
}

start-IsFresh : IsFresh three start
start-IsFresh = record {
  ids = λ k. refl;
  members = λ k. refl;
  followers = λ k. refl;
  unvoted = λ k. (refl, refl);
  ungranted = refl;
}

abbrev pre_vote_grant : PreVoteResponse
pre_vote_grant = record {
  cluster_id = "main";
  leader_epoch = 0;
  term = 1;
  vote_granted = true;
  leader_hint = none;
}

abbrev asked : VoteRequest
asked = record vote_ask { candidate_id = 1 }

-- Node 1 times out, hears a pre-vote and node 2's vote.
abbrev canvassing : Cluster ℕ
canvassing = deliver start 1 Input.tick

abbrev standing_for : Cluster ℕ
standing_for = deliver canvassing 1 (Input.pre_vote_response 2 pre_vote_grant)

abbrev voted : Cluster ℕ
voted = deliver standing_for 2 (Input.vote_request asked)

abbrev elected : Cluster ℕ
elected = deliver voted 1 (Input.vote_response 2 vote_grant)

start-Run : Run start elected
unfolding step handle_tick advance_clock failover_cluster.Timer.tick schedule_fetch fetch_actions
    fetch_from_all maybe_build_fetch_request should_fetch fetch_interval_ticks div_ceil
    count_quorum_tick check_timeouts check_quorum_reachable check_election_timeout is_expired
    become_pre_candidate canvass has_pre_election_quorum votes_reach_quorum
    failover_cluster.Votes.insert become_candidate stand has_election_quorum become_leader lead
    advance_and_drain try_advance_commit_index voter_offsets offset_of is_self
    failover_cluster.Peers.get failover_cluster.Peers.modify_all
    failover_cluster.Node.Roles.restart_peer quorum_offset sort_desc insert_desc
    drain_apply_pipeline to_voters handle_pre_vote_response tally_pre_vote is_known_voter
    handle_vote_request answer_vote adopt_term decide_vote grants_vote candidate_log_is_up_to_date
    cast_vote handle_vote_response tally_vote reset pick_in_range
start-Run =
    next 1 Input.tick (omega arith, tt)
      (next 1 (Input.pre_vote_response 2 pre_vote_grant) (omega arith, tt)
        (next 2 (Input.vote_request asked) (omega arith, tt)
          (next 1 (Input.vote_response 2 vote_grant) (omega arith, inr (inl refl)) done)))

Run-one_leader_example : ◌≡◌ {A = ℕ} 1 1
unfolding step handle_tick advance_clock failover_cluster.Timer.tick schedule_fetch fetch_actions
    fetch_from_all maybe_build_fetch_request should_fetch fetch_interval_ticks div_ceil
    count_quorum_tick check_timeouts check_quorum_reachable check_election_timeout is_expired
    become_pre_candidate canvass has_pre_election_quorum votes_reach_quorum
    failover_cluster.Votes.insert become_candidate stand has_election_quorum become_leader lead
    advance_and_drain try_advance_commit_index voter_offsets offset_of is_self
    failover_cluster.Peers.get failover_cluster.Peers.modify_all
    failover_cluster.Node.Roles.restart_peer quorum_offset sort_desc insert_desc
    drain_apply_pipeline to_voters handle_pre_vote_response tally_pre_vote is_known_voter
    handle_vote_request answer_vote adopt_term decide_vote grants_vote candidate_log_is_up_to_date
    cast_vote handle_vote_response tally_vote reset pick_in_range
Run-one_leader_example =
    Run-one_leader three start elected 1 1 three-IsLawful start-IsFresh start-Run refl refl refl
