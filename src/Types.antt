-- ===== src/Types.antt =====
-- The scalar and membership types that the engine reads: xraft-core/src/types.rs and storage.rs.
-- `NodeId`, `Term` and `LogIndex` are `u64` wrappers and stand as ℕ.
use failover_cluster.Prelude.{
  ℕ, String, List, Option, Bool, true, false, ◌≡◌, ◌+◌, ◌/◌, contains, if◌then◌else◌, [], ◌∷◌, suc,
}

-- `NodeRole`. The five roles are those that node.rs matches on.
pub data NodeRole : Type 0 where
  follower pre_candidate candidate leader observer : NodeRole

abbrev pub is_leader_role : NodeRole → Bool
is_leader_role r = elim r [ leader ↦ true | _ ↦ false ]

abbrev pub is_observer_role : NodeRole → Bool
is_observer_role r = elim r [ observer ↦ true | _ ↦ false ]

abbrev pub is_candidate_role : NodeRole → Bool
is_candidate_role r = elim r [ candidate ↦ true | _ ↦ false ]

abbrev pub is_pre_candidate_role : NodeRole → Bool
is_pre_candidate_role r = elim r [ pre_candidate ↦ true | _ ↦ false ]

-- `matches!(role, Leader | Candidate | PreCandidate)`.
abbrev pub is_stepping_down : NodeRole → Bool
is_stepping_down r = elim r [ follower ↦ false | observer ↦ false | _ ↦ true ]

-- `matches!(role, Follower | Observer)`.
abbrev pub is_fetching : NodeRole → Bool
is_fetching r = elim r [ follower ↦ true | observer ↦ true | _ ↦ false ]

-- `HardState { current_term, voted_for, commit_index }`.
pub record HardState : Type 0 where
  pub current_term : ℕ
  pub voted_for : Option ℕ
  pub commit_index : ℕ

-- `VoterSet`, whose code is not among the files: a value is the answers of its methods, any answers
-- at all. `voters` is the `node_id` of each record that `voters()` gives, in its order.
pub record VoterSet : Type 0 where
  pub voters : List ℕ
  pub contains_node : ℕ → Bool
  pub unique_node_count : ℕ
  pub quorum_size : ℕ

-- The numbers in a list, each counted once.
abbrev pub distinct_count : List ℕ → ℕ
distinct_count [] = 0
distinct_count (x ∷ xs) = let rest = distinct_count xs in if contains xs x then rest else suc rest

-- What node.rs documents of those methods: membership is by node id, the quorum is a majority of
-- the distinct node ids.
pub record IsLawful (vs : VoterSet) : Type 0 where
  pub contains_lem : (id : ℕ) → vs.contains_node id ≡ contains vs.voters id
  pub unique_lem : vs.unique_node_count ≡ distinct_count vs.voters
  pub quorum_lem : vs.quorum_size ≡ vs.unique_node_count / 2 + 1

pub record SnapshotMeta : Type 0 where
  pub last_included_index : ℕ
  pub last_included_term : ℕ
  pub id : String
  pub voter_set : Option VoterSet
  pub size_bytes : Option ℕ
  pub checksum : Option ℕ
