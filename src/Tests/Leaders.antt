-- ===== src/Tests/Leaders.antt =====
-- Elections, commits and leases on a cluster of three.
use failover_cluster.Node.Commit.Holders.{Commits, try_advance_commit_index-Commits}
use failover_cluster.Node.Roles.{become_leader, lead}
use failover_cluster.Tests.Fixture.{
  lowest, three, three-IsLawful, doubled, doubled-IsLawful, candidate_node, leader_node, vote_grant,
  fetch_ask, peer,
}
use failover_cluster.Node.Election.{handle_vote_response, tally_vote}
use failover_cluster.Node.Tick.{handle_tick}
use failover_cluster.Node.Quorum.{
  check_quorum_reachable, count_voters, has_active_lease, has_election_quorum, lease_reachable,
  votes_reach_quorum,
}
use failover_cluster.Node.Commit.{
  advance_and_drain, insert_desc, offset_of, quorum_offset, sort_desc, try_advance_commit_index,
  voter_offsets,
}
use failover_cluster.Node.Fetch.{
  acknowledge, handle_fetch_request, handle_fetch_request_acked, is_known_sender,
}
use failover_cluster.Prelude.{[], arith, false, none, refl, some, true, ℕ, ◌⊎◌, ◌↔◌, ◌≤◌, ◌≡◌, ◌∷◌}
use failover_cluster.Node.Quorum.Intersection.{Shared, votes_reach_quorum-Shared}
use failover_cluster.Node.{RaftNode, is_known_voter, is_self}
use failover_cluster.Peers.{PeerState, get, modify, insert}
use failover_cluster.Types.{NodeRole, SnapshotMeta, is_leader_role}
use failover_cluster.Leases.{
  IsCutOff, handle_tick-check_quorum, has_active_lease-become_leader, has_active_lease-reachable,
}
use failover_cluster.Message.{Input}
use failover_cluster.Leadership.{Elected, step-Elected}
use failover_cluster.Replication.{
  Covers, Uncovered, handle_fetch_request-answer, handle_fetch_request-unconfirmed,
  handle_fetch_request_acked-commits, handle_fetch_request_acked-offset, offsets, redirecting,
  serving,
}
use failover_cluster.Node.Commit.Rule.{
  try_advance_commit_index-highest, try_advance_commit_index-repeated_voter, Applies,
}
use failover_cluster.Node.Step.{step}

step-Elected_example : Elected candidate_node (Input.vote_response 2 vote_grant)
unfolding step handle_vote_response tally_vote has_election_quorum votes_reach_quorum is_known_voter
    become_leader lead advance_and_drain failover_cluster.Votes.insert try_advance_commit_index
    quorum_offset voter_offsets offset_of is_self get failover_cluster.Peers.modify_all
    failover_cluster.Node.Roles.restart_peer sort_desc insert_desc
step-Elected_example = step-Elected candidate_node (Input.vote_response 2 vote_grant) refl refl

votes_reach_quorum-Shared_example : Shared (1 ∷ 2 ∷ 3 ∷ []) (1 ∷ 2 ∷ []) (3 ∷ 2 ∷ [])
unfolding votes_reach_quorum
votes_reach_quorum-Shared_example =
    votes_reach_quorum-Shared three (1 ∷ 2 ∷ []) (3 ∷ 2 ∷ []) three-IsLawful (refl, (refl, tt))
      (refl, (refl, tt)) refl refl

try_advance_commit_index-Commits_example : Commits leader_node three 3
unfolding try_advance_commit_index voter_offsets offset_of is_self get quorum_offset sort_desc
    insert_desc
try_advance_commit_index-Commits_example =
    try_advance_commit_index-Commits leader_node three 3 refl three-IsLawful
      (refl, (refl, (refl, tt))) refl

try_advance_commit_index-highest_example : 2 ≤ 3
unfolding try_advance_commit_index voter_offsets offset_of is_self get quorum_offset sort_desc
    insert_desc
try_advance_commit_index-highest_example =
    try_advance_commit_index-highest leader_node three 3 2 refl three-IsLawful refl (omega arith)

-- Nodes 2 and 3 have nothing.
abbrev lone_leader : RaftNode ℕ
lone_leader = record leader_node {
  voter_set = some doubled;
  peers = (2, peer 0 0) ∷ (3, peer 0 0) ∷ [];
}

try_advance_commit_index-repeated_voter_example :
    (c : ℕ) × ((try_advance_commit_index lone_leader).1 ≡ some c) × (3 ≤ c)
try_advance_commit_index-repeated_voter_example =
    try_advance_commit_index-repeated_voter lone_leader doubled 2 refl refl doubled-IsLawful refl
      (omega arith) (omega arith) (omega arith)

handle_fetch_request_acked-commits_example :
    Applies leader_node 3 (handle_fetch_request_acked leader_node 3 3)
unfolding is_known_sender is_known_voter voter_offsets offset_of is_self get modify acknowledge
handle_fetch_request_acked-commits_example =
    handle_fetch_request_acked-commits leader_node 3 3 three 2 3 refl refl refl three-IsLawful refl
      (omega arith) (omega arith) (omega arith) (omega arith)

handle_fetch_request_acked-offset_example :
    (p : PeerState) × (get 3 (handle_fetch_request_acked leader_node 3 9).0.peers ≡ some p)
    × (p.last_fetch_offset ≡ 3)
unfolding is_known_sender is_known_voter get
handle_fetch_request_acked-offset_example =
    handle_fetch_request_acked-offset leader_node 3 9 (peer 0 0) refl refl refl

handle_fetch_request-answer_example :
    (((handle_fetch_request leader_node fetch_ask).1 ≡ serving leader_node fetch_ask ∷ [])
      × Uncovered none 4)
    ⊎ ((snap : SnapshotMeta) × ((handle_fetch_request leader_node fetch_ask).1
          ≡ redirecting leader_node fetch_ask snap ∷ [])
        × Covers none 4 snap)
unfolding is_known_sender is_known_voter is_self
handle_fetch_request-answer_example =
    handle_fetch_request-answer leader_node fetch_ask refl refl refl refl (omega arith)
      (omega arith)

handle_fetch_request-unconfirmed_example :
    let m = (handle_fetch_request leader_node fetch_ask).0 in
    (offsets m.peers ≡ (2, 3) ∷ (3, 0) ∷ [])
    × (m.commit_index ≡ 1)
    × (m.last_log_index ≡ 3)
    × (m.last_applied ≡ 1)
handle_fetch_request-unconfirmed_example = handle_fetch_request-unconfirmed leader_node fetch_ask

-- At the end of the Check-Quorum interval, with no fetch in it.
abbrev cut_off_leader : RaftNode ℕ
cut_off_leader = record leader_node { logical_tick = 200; check_quorum_elapsed_ticks = 59 }

handle_tick-check_quorum_example :
    (is_leader_role (handle_tick cut_off_leader).0.role ≡ false) ↔ IsCutOff cut_off_leader
handle_tick-check_quorum_example = handle_tick-check_quorum cut_off_leader refl

has_active_lease-reachable_example :
    (is_leader_role NodeRole.leader ≡ true)
    × (true ≡ true)
    × (check_quorum_reachable leader_node ≡ true)
unfolding has_active_lease lease_reachable count_voters
has_active_lease-reachable_example = has_active_lease-reachable leader_node refl

has_active_lease-become_leader_example : has_active_lease (become_leader candidate_node).0 ≡ false
has_active_lease-become_leader_example =
    has_active_lease-become_leader candidate_node three refl (omega arith)
