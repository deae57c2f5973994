-- ===== src/Node/Quorum.antt =====
-- xraft-core/src/node.rs: the quorum tests of `RaftNode` over votes and over peers' fetches.
pub mod Intersection
use failover_cluster.Prelude.{
  ℕ, Bool, true, false, ◌&&◌, not, [], ◌∷◌, none, some, ltb, leb, if◌then◌else◌, saturating_add,
  saturating_sub, contains, count_if,
}
use failover_cluster.Types.{VoterSet, is_leader_role}
use failover_cluster.Peers.{PeerState, PeerMap}
use failover_cluster.Votes.{VoteGrantedSet}
use failover_cluster.Node.{RaftNode}

-- The votes of configured voters, counted, reach the quorum.
unfoldable pub votes_reach_quorum : VoterSet → VoteGrantedSet → Bool
votes_reach_quorum vs votes = leb vs.quorum_size (count_if (contains vs.voters) votes)

-- The loop over `peers`: each voter that passes the test adds one to the count, which saturates.
unfoldable pub count_voters : VoterSet → (PeerState → Bool) → ℕ → PeerMap → ℕ
count_voters vs test count [] = count
count_voters vs test count ((peer_id, peer) ∷ rest) =
    count_voters vs test
      (if contains vs.voters peer_id && test peer then saturating_add count 1 else count) rest

-- The node itself counts when it is a voter.
abbrev pub self_count : VoterSet → ℕ → ℕ
self_count vs id = if contains vs.voters id then 1 else 0

-- The peer's last fetch is less than `window` ticks old.
abbrev pub is_recent : ℕ → ℕ → PeerState → Bool
is_recent now window peer = ltb (saturating_sub now peer.last_fetch_time) window

-- The peer's last fetch came after the tick at which this node took the lead.
abbrev pub is_fetched_since : ℕ → PeerState → Bool
is_fetched_since started peer = not (leb peer.last_fetch_time started)

module _ {R : Type 0} where
  unfoldable pub has_election_quorum : RaftNode R → Bool
  has_election_quorum n = elim n.voter_set [
    | none ↦ false
    | some vs ↦ votes_reach_quorum vs n.votes_received
  ]

  unfoldable pub has_pre_election_quorum : RaftNode R → Bool
  has_pre_election_quorum n = elim n.voter_set [
    | none ↦ false
    | some vs ↦ votes_reach_quorum vs n.pre_votes_received
  ]

  unfoldable pub check_quorum_reachable : RaftNode R → Bool
  check_quorum_reachable n = elim n.voter_set [
    | none ↦ true
    | some vs ↦ leb vs.quorum_size (
        count_voters vs (is_recent n.logical_tick n.check_quorum_interval_ticks)
          (self_count vs n.id) n.peers)
  ]

  unfoldable pub lease_reachable : RaftNode R → VoterSet → ℕ → Bool
  lease_reachable n vs started = leb vs.quorum_size (
      count_voters vs
        (λ peer.
          is_fetched_since started peer
          && is_recent n.logical_tick n.check_quorum_interval_ticks peer)
        (self_count vs n.id) n.peers)

  unfoldable pub has_active_lease : RaftNode R → Bool
  has_active_lease n =
      if not n.config.enable_leader_lease
      then false
      else if not (is_leader_role n.role)
      then false
      else elim n.voter_set [
        | none ↦ false
        | some vs ↦ elim n.leader_started_tick [
          | none ↦ false
          | some started ↦ lease_reachable n vs started
        ]
      ]
