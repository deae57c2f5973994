-- ===== src/Candidacy.antt =====
-- What a node's role says of its votes (xraft-core/src/node.rs).
pub mod Roles
pub mod Step
use failover_cluster.Prelude.{Option, some, true, ℕ, ◌||◌, ◌≡◌}
use failover_cluster.Types.{NodeRole, is_leader_role, is_candidate_role}
use failover_cluster.Node.{RaftNode}
use failover_cluster.Votes.{VoteGrantedSet}
use failover_cluster.Node.Quorum.Intersection.{IsDistinct}

-- No vote is held twice, a candidate or leader has voted for itself, a leader knows itself as one.
pub record IsStanding (id : ℕ) (role : NodeRole) (voted_for : Option ℕ)
    (votes pre_votes : VoteGrantedSet) (leader_id : Option ℕ) : Type 0 where
  pub votes_distinct : IsDistinct votes
  pub pre_votes_distinct : IsDistinct pre_votes
  pub self_voted : is_candidate_role role || is_leader_role role ≡ true → voted_for ≡ some id
  pub led : is_leader_role role ≡ true → leader_id ≡ some id

abbrev pub Inv : {R : Type 0} → RaftNode R → Type 0
Inv n =
    IsStanding n.id n.role n.hard_state.voted_for n.votes_received n.pre_votes_received n.leader_id
