-- ===== src/Backing.antt =====
-- What backs a candidate's votes and a leader's office (xraft-core/src/node.rs), for any notion of a
-- vote that counts: `J term voter`.
pub mod Roles
pub mod Step
use failover_cluster.Prelude.{All, Option, true, ℕ, ◌≡◌}
use failover_cluster.Types.{NodeRole, VoterSet, is_leader_role, is_candidate_role}
use failover_cluster.Node.{RaftNode}
use failover_cluster.Votes.{VoteGrantedSet}
use failover_cluster.Leadership.{Reaches}
use failover_cluster.Node.Quorum.Intersection.{IsDistinct}

-- Votes that count in a term, none twice, that reach the quorum.
abbrev pub Tally : (ℕ → ℕ → Type 0) → Option VoterSet → ℕ → Type 0
Tally J voters term =
    (votes : VoteGrantedSet) × IsDistinct votes × Reaches voters votes × All (J term) votes

pub record IsBacked (J : ℕ → ℕ → Type 0) (role : NodeRole) (term : ℕ) (voters : Option VoterSet)
    (votes : VoteGrantedSet) : Type 0 where
  pub distinct : IsDistinct votes
  pub standing : is_candidate_role role ≡ true → All (J term) votes
  pub leading : is_leader_role role ≡ true → Tally J voters term

abbrev pub Inv : {R : Type 0} → (ℕ → ℕ → Type 0) → RaftNode R → Type 0
Inv J n = IsBacked J n.role n.hard_state.current_term n.voter_set n.votes_received
