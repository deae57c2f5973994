-- ===== src/Node/Init.antt =====
-- xraft-core/src/node.rs, `RaftNode::new_with_seed` and `new_inner`: the node at the start.
use failover_cluster.Config.Validate.{ConfigError, Externals, Settings, build_voter_set, validate}
use failover_cluster.Prelude.{
  List, Option, [], contains, false, max, none, some, true, ℕ, ◌∷◌, ◌==◌, if◌then◌else◌, inl, inr,
  ◌⊎◌,
}
use failover_cluster.Node.{RaftNode}
use failover_cluster.Timer.{Rand, from_config_ms, div_ceil, ElectionTimer}
use failover_cluster.Config.{ClusterConfig, effective_check_quorum_interval_ms}
use failover_cluster.Peers
use failover_cluster.Peers.{PeerMap, or_insert}
use failover_cluster.Types.{NodeRole, VoterSet, follower, observer}

-- The voters but the node itself.
unfoldable pub voter_peers : ℕ → List ℕ → PeerMap → PeerMap
voter_peers id [] peers = peers
voter_peers id (v ∷ vs) peers =
    voter_peers id vs (if v == id then peers else Peers.insert v (Peers.new true) peers)

-- The observers but the node itself; one that is there already stays.
unfoldable pub observer_peers : ℕ → List ℕ → PeerMap → PeerMap
observer_peers id [] peers = peers
observer_peers id (o ∷ os) peers =
    observer_peers id os (if o == id then peers else or_insert o (Peers.new false) peers)

abbrev pub voters_of : Option VoterSet → List ℕ
voters_of none = []
voters_of (some vs) = vs.voters

abbrev pub initial_role : ClusterConfig → NodeRole
initial_role config = if contains config.observers config.node_id then observer else follower

unfoldable pub quorum_interval_ticks : ClusterConfig → ℕ
quorum_interval_ticks config =
    max (div_ceil (effective_check_quorum_interval_ms config) (max config.tick_interval_ms 1)) 1

module _ {R : Type 0} where
  unfoldable pub initial : ClusterConfig → Option VoterSet → ElectionTimer → R → RaftNode R
  initial config voter_set timer rng = record {
    id = config.node_id;
    role = initial_role config;
    hard_state = record { current_term = 0; voted_for = none; commit_index = 0 };
    commit_index = 0;
    last_applied = 0;
    election_timer = timer;
    votes_received = [];
    pre_votes_received = [];
    peers =
        observer_peers config.node_id config.observers
          (voter_peers config.node_id (voters_of voter_set) []);
    voter_set = voter_set;
    config = config;
    leader_id = none;
    last_leader_contact_tick = none;
    logical_tick = 0;
    last_log_index = 0;
    last_log_term = 0;
    leader_no_op_index = none;
    last_fetch_tick = none;
    last_snapshot_meta = none;
    snapshot_in_flight = false;
    leader_started_tick = none;
    check_quorum_elapsed_ticks = 0;
    check_quorum_interval_ticks = quorum_interval_ticks config;
    fetch_seq = 0;
    rng = rng;
  }

  -- `none` is the panic of the timer's assertions.
  unfoldable pub with_timer :
      ClusterConfig → Option VoterSet → R → Option (ElectionTimer × R) → Option (RaftNode R)
  with_timer config voter_set rng none = none
  with_timer config voter_set rng (some (timer, _)) = some (initial config voter_set timer rng)

module _ {R : Type 0} ⦃rand : Rand R⦄ where
  -- From the voter set on.
  unfoldable pub new_inner : ClusterConfig → Option VoterSet → R → Option (RaftNode R)
  unfolding with_timer
  new_inner config voter_set rng =
      let (timer_seed, rng1) = rand.next_u64 rng in
      let (node_seed, rng2) = rand.next_u64 rng1 in
      with_timer config voter_set (rand.seed_from_u64 node_seed) (
        from_config_ms config.election_timeout_min_ms config.election_timeout_max_ms
          config.tick_interval_ms (rand.seed_from_u64 timer_seed))

  -- `config.validate()?`, `config.build_voter_set()?` and the rest.
  unfoldable pub with_voter_set :
      Settings → R → ConfigError ⊎ Option VoterSet → ConfigError ⊎ Option (RaftNode R)
  with_voter_set s rng (inl e) = inl e
  with_voter_set s rng (inr voter_set) = inr (new_inner s.engine voter_set rng)

  unfoldable pub with_valid :
      Externals → Settings → R → Option ConfigError → ConfigError ⊎ Option (RaftNode R)
  with_valid ext s rng (some e) = inl e
  with_valid ext s rng none = with_voter_set s rng (build_voter_set ext s.voters)

  unfoldable pub new_with_seed : Externals → Settings → ℕ → ConfigError ⊎ Option (RaftNode R)
  new_with_seed ext s seed = with_valid ext s (rand.seed_from_u64 seed) (validate ext s)
