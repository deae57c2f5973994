-- ===== src/Node.antt =====
-- xraft-core/src/node.rs, `RaftNode`: the state of one Raft participant.
pub mod Quorum
pub mod Commit
pub mod Roles
pub mod Election
pub mod Snapshot
pub mod Fetch
pub mod Replicate
pub mod Tick
pub mod Step
pub mod Init
use failover_cluster.Prelude.{
  ℕ, Bool, true, false, Option, none, some, ltb, leb, ◌==◌, if◌then◌else◌,
}
use failover_cluster.Types.{NodeRole, HardState, VoterSet, SnapshotMeta, is_leader_role}
use failover_cluster.Config.{ClusterConfig}
use failover_cluster.Timer.{ElectionTimer}
use failover_cluster.Peers.{PeerMap}
use failover_cluster.Votes.{VoteGrantedSet}

pub record RaftNode (R : Type 0) : Type 0 where
  pub id : ℕ
  pub role : NodeRole
  pub hard_state : HardState
  pub commit_index : ℕ
  pub last_applied : ℕ
  pub election_timer : ElectionTimer
  pub votes_received : VoteGrantedSet
  pub pre_votes_received : VoteGrantedSet
  pub peers : PeerMap
  pub voter_set : Option VoterSet
  pub config : ClusterConfig
  pub leader_id : Option ℕ
  pub last_leader_contact_tick : Option ℕ
  pub logical_tick : ℕ
  pub last_log_index : ℕ
  pub last_log_term : ℕ
  pub leader_no_op_index : Option ℕ
  pub last_fetch_tick : Option ℕ
  pub last_snapshot_meta : Option SnapshotMeta
  pub snapshot_in_flight : Bool
  pub leader_started_tick : Option ℕ
  pub check_quorum_elapsed_ticks : ℕ
  pub check_quorum_interval_ticks : ℕ
  pub fetch_seq : ℕ
  pub rng : R

module _ {R : Type 0} where
  unfoldable pub current_term : RaftNode R → ℕ
  current_term n = n.hard_state.current_term

  unfoldable pub is_leader : RaftNode R → Bool
  is_leader n = is_leader_role n.role

  unfoldable pub set_last_log : RaftNode R → ℕ → ℕ → RaftNode R
  set_last_log n index term = record n { last_log_index = index; last_log_term = term }

  unfoldable pub is_self : RaftNode R → ℕ → Bool
  is_self n node_id = node_id == n.id

  -- No voter set: nobody is known.
  unfoldable pub is_known_voter : RaftNode R → ℕ → Bool
  is_known_voter n node_id = elim n.voter_set [ some vs ↦ vs.contains_node node_id | none ↦ false ]

  unfoldable pub candidate_log_is_up_to_date : RaftNode R → ℕ → ℕ → Bool
  candidate_log_is_up_to_date n last_log_index last_log_term =
      if ltb n.last_log_term last_log_term
      then true
      else if ltb last_log_term n.last_log_term
      then false
      else leb n.last_log_index last_log_index
