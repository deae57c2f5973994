-- ===== src/Tests/Fixture.antt =====
-- A cluster of three voters, seen from node 1.
use failover_cluster.Prelude.{ℕ, ◌+◌, [], ◌∷◌, none, some, true, false, contains, refl, arith}
use failover_cluster.Types.{NodeRole, VoterSet, IsLawful, SnapshotMeta}
use failover_cluster.Config.{ClusterConfig}
use failover_cluster.Timer.{Rand, ElectionTimer}
use failover_cluster.Peers.{PeerState}
use failover_cluster.Message.{
  VoteRequest, VoteResponse, PreVoteRequest, FetchRequest, FetchResponse, command,
}
use failover_cluster.Node.{RaftNode}

-- A generator that draws the lower bound.
instance pub lowest : Rand ℕ
lowest = record {
  gen_range = λ lo hi r. (lo, r + 1);
  next_u64 = λ r. (r, r + 1);
  seed_from_u64 = λ seed. seed;
  gen_range_bounds = λ lo hi r h. (omega arith, h);
}

abbrev pub three : VoterSet
three = record {
  voters = 1 ∷ 2 ∷ 3 ∷ [];
  contains_node = contains (1 ∷ 2 ∷ 3 ∷ []);
  unique_node_count = 3;
  quorum_size = 2;
}

pub three-IsLawful : IsLawful three
three-IsLawful = record { contains_lem = λ id. refl; unique_lem = refl; quorum_lem = refl }

-- Node 1 under two directory ids, and two more nodes.
abbrev pub doubled : VoterSet
doubled = record {
  voters = 1 ∷ 1 ∷ 2 ∷ 3 ∷ [];
  contains_node = contains (1 ∷ 1 ∷ 2 ∷ 3 ∷ []);
  unique_node_count = 3;
  quorum_size = 2;
}

pub doubled-IsLawful : IsLawful doubled
doubled-IsLawful = record { contains_lem = λ id. refl; unique_lem = refl; quorum_lem = refl }

abbrev pub config : ClusterConfig
config = record {
  node_id = 1;
  cluster_id = "main";
  election_timeout_min_ms = 150;
  election_timeout_max_ms = 300;
  fetch_interval_ms = 50;
  tick_interval_ms = 10;
  max_log_entries_before_compaction = 1000;
  observers = [];
  enable_check_quorum = true;
  enable_leader_lease = true;
  check_quorum_interval_ms = none;
}

abbrev pub timer : ElectionTimer
timer = record { elapsed_ticks = 0; timeout_ticks = 15; min_ticks = 15; max_ticks = 30 }

abbrev pub peer : ℕ → ℕ → PeerState
peer offset time = record {
  last_fetch_offset = offset;
  last_fetch_time = time;
  last_caught_up_time = time;
  last_fetch_seq = 0;
  is_voter = true;
}

-- A follower in term 1 with a log of three entries, one of them committed.
abbrev pub follower_node : RaftNode ℕ
follower_node = record {
  id = 1;
  role = NodeRole.follower;
  hard_state = record { current_term = 1; voted_for = none; commit_index = 0 };
  commit_index = 1;
  last_applied = 1;
  election_timer = timer;
  votes_received = [];
  pre_votes_received = [];
  peers = (2, peer 0 0) ∷ (3, peer 0 0) ∷ [];
  voter_set = some three;
  config = config;
  leader_id = none;
  last_leader_contact_tick = none;
  logical_tick = 20;
  last_log_index = 3;
  last_log_term = 1;
  leader_no_op_index = none;
  last_fetch_tick = none;
  last_snapshot_meta = none;
  snapshot_in_flight = false;
  leader_started_tick = none;
  check_quorum_elapsed_ticks = 0;
  check_quorum_interval_ticks = 60;
  fetch_seq = 0;
  rng = 7;
}

-- The same in term 2 as a candidate with its own vote.
abbrev pub candidate_node : RaftNode ℕ
candidate_node = record follower_node {
  role = NodeRole.candidate;
  hard_state = record { current_term = 2; voted_for = some 1; commit_index = 0 };
  votes_received = 1 ∷ [];
}

-- And as the leader of term 2, with its no-op at 2 and an entry after it that node 2 has, too.
abbrev pub leader_node : RaftNode ℕ
leader_node = record follower_node {
  role = NodeRole.leader;
  hard_state = record { current_term = 2; voted_for = some 1; commit_index = 0 };
  peers = (2, peer 3 20) ∷ (3, peer 0 0) ∷ [];
  leader_id = some 1;
  leader_no_op_index = some 2;
  leader_started_tick = some 10;
  last_log_term = 2;
}

abbrev pub vote_grant : VoteResponse
vote_grant = record {
  cluster_id = "main";
  leader_epoch = 0;
  term = 2;
  vote_granted = true;
  leader_hint = none;
}

-- Node 2 asks for votes in term 2.
abbrev pub vote_ask : VoteRequest
vote_ask = record {
  cluster_id = "main";
  leader_epoch = 0;
  term = 2;
  candidate_id = 2;
  last_log_index = 3;
  last_log_term = 1;
}

abbrev pub pre_vote_ask : PreVoteRequest
pre_vote_ask = record {
  cluster_id = "main";
  leader_epoch = 0;
  next_term = 2;
  candidate_id = 2;
  last_log_index = 3;
  last_log_term = 1;
}

-- Node 3 fetches from the leader.
abbrev pub fetch_ask : FetchRequest
fetch_ask = record {
  cluster_id = "main";
  leader_epoch = 2;
  replica_id = 3;
  fetch_offset = 4;
  last_fetched_epoch = 2;
}

-- Node 2 leads term 1 and sends the entry after the follower's log.
abbrev pub fetched : FetchResponse
fetched = record {
  cluster_id = "main";
  leader_epoch = 1;
  leader_id = 2;
  high_watermark = 4;
  entries = (record { index = 4; term = 1; payload = command (7 ∷ []) }) ∷ [];
  diverging_epoch = none;
  snapshot_redirect = none;
  is_leader = true;
}

abbrev pub snapshot_at : ℕ → SnapshotMeta
snapshot_at index = record {
  last_included_index = index;
  last_included_term = 1;
  id = "s";
  voter_set = none;
  size_bytes = none;
  checksum = none;
}
