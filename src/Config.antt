-- ===== src/Config.antt =====
-- xraft-core/src/config.rs: the fields of `ClusterConfig` that the engine reads.
pub mod Text
pub mod Validate
pub mod Address
pub mod Endpoints
pub mod Own
pub mod Accepted
pub mod Usable
pub mod Accepts
use failover_cluster.Prelude.{ℕ, String, List, Option, none, some, Bool, ◌*◌, min, u64_max}

pub record ClusterConfig : Type 0 where
  pub node_id : ℕ
  pub cluster_id : String
  pub election_timeout_min_ms : ℕ
  pub election_timeout_max_ms : ℕ
  pub fetch_interval_ms : ℕ
  pub tick_interval_ms : ℕ
  pub max_log_entries_before_compaction : ℕ
  pub observers : List ℕ
  pub enable_check_quorum : Bool
  pub enable_leader_lease : Bool
  pub check_quorum_interval_ms : Option ℕ

-- The set value, or twice the longest election timeout, saturating at `u64::MAX`.
unfoldable pub effective_check_quorum_interval_ms : ClusterConfig → ℕ
effective_check_quorum_interval_ms c = elim c.check_quorum_interval_ms [
  | some v ↦ v
  | none ↦ min (c.election_timeout_max_ms * 2) u64_max
]
