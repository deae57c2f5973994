-- ===== src/Config/Usable.antt =====
-- What a configuration that `ClusterConfig::validate` accepts is good for: xraft-core/src/config.rs.
use failover_cluster.Config.Endpoints.{IsListening, IsOwn, listening-parsed, validate_address_sound}
use failover_cluster.Config.Own.{check_self_sound}
use failover_cluster.Config.Text.{text_eq, Text}
use failover_cluster.LogStore.{retain}
use failover_cluster.Node.Init.{initial}
use failover_cluster.Config.Validate.{
  Externals, Settings, VoterConfig, check_duplicates, check_interval, check_membership, check_peers,
  check_ranges, check_self, check_tls, check_transport, check_voters,
  election_timeout_max_too_small, empty_cluster_id, empty_data_dir, empty_listen_addr,
  max_backoff_too_small, member_of_both, not_a_member, parse_host_port, then_check, validate,
  validate_address, voter_ids, zero_check_quorum_interval, zero_connect_timeout,
  zero_election_timeout_min, zero_fetch_interval, zero_initial_backoff, zero_max_log_entries,
  zero_max_message_size, zero_rpc_timeout, zero_snapshot_interval, zero_snapshot_retention,
  zero_tick_interval, is_some, no_tls_cert_path, no_tls_key_path, refuse, empty_peer,
}
use failover_cluster.Config.{ClusterConfig, effective_check_quorum_interval_ms}
use failover_cluster.Config.Accepted.{
  AreVoters, IsDistinct, check_duplicates-none, check_voters-none, refuse-none, then_check-none,
}
use failover_cluster.Prelude.{
  Bool, List, [], ℕ, All, Bool-cases, Option, arith, contains, false, inl, inr, is_empty, leb, ltb,
  max, min, none, not, refl, some, str_eq, subst, sym, true, ◌==◌, if◌then◌else◌, ◌≤◌, ◌&&◌, ◌≡◌,
  ◌<◌, ◌∷◌, ◌⊎◌,
}

-- The ranges of the numbers.
pub record IsInRange (s : Settings) : Type 0 where
  pub min_positive : 0 < s.engine.election_timeout_min_ms
  pub min_lt_max : s.engine.election_timeout_min_ms < s.engine.election_timeout_max_ms
  pub fetches : 0 < s.engine.fetch_interval_ms
  pub ticks : 0 < s.engine.tick_interval_ms
  pub snapshots : 0 < s.snapshot_interval
  pub compacts : 0 < s.engine.max_log_entries_before_compaction
  pub retains : 0 < s.snapshot_retention_count
  pub has_dir : is_empty s.data_dir ≡ false
  pub certified :
      (s.tls_enabled ≡ false) ⊎ ((is_some s.tls_cert_path ≡ true) × (is_some s.tls_key_path ≡ true))
  pub connects : 0 < s.connect_timeout_ms
  pub calls : 0 < s.rpc_timeout_ms
  pub sends : 0 < s.max_message_size
  pub backs_off : 0 < s.retry_initial_backoff_ms
  pub backoff_le : s.retry_initial_backoff_ms ≤ s.retry_max_backoff_ms
  pub quorum_interval : 0 < effective_check_quorum_interval_ms s.engine

check_interval-none :
    (c : ClusterConfig)
    → 0 < c.election_timeout_max_ms
    → check_interval c.check_quorum_interval_ms ≡ none
    → 0 < effective_check_quorum_interval_ms c
unfolding check_interval effective_check_quorum_interval_ms
check_interval-none c positive h = interval c.check_quorum_interval_ms refl
  where
    interval :
        (o : Option ℕ) → o ≡ c.check_quorum_interval_ms → 0 < effective_check_quorum_interval_ms c
    interval none e = rw (sym e) (omega arith)
    interval (some v) e =
        let g = subst (λ o. check_interval o ≡ none) (sym e) h in
        let (set, _) = refuse-none (v == 0) zero_check_quorum_interval none g in
        rw (sym e) (ground arith)

check_tls-none :
    (s : Settings)
    → check_tls s ≡ none
    → (s.tls_enabled ≡ false) ⊎ ((is_some s.tls_cert_path ≡ true) × (is_some s.tls_key_path ≡ true))
unfolding check_tls
check_tls-none s h = elim (Bool-cases s.tls_enabled) [
  | inr off ↦ inl off
  | inl on ↦
      let g =
        subst
          (λ b.
            (if b
              then refuse (not (is_some s.tls_cert_path)) no_tls_cert_path
                  (refuse (not (is_some s.tls_key_path)) no_tls_key_path none)
              else none)
            ≡ none)
          on h in
      let (cert, g1) = refuse-none (not (is_some s.tls_cert_path)) no_tls_cert_path _ g in
      let (key, _) = refuse-none (not (is_some s.tls_key_path)) no_tls_key_path none g1 in
      inr (ground arith, ground arith)
]

check_ranges-none : (s : Settings) → check_ranges s ≡ none → IsInRange s
unfolding check_ranges check_transport
check_ranges-none s h =
    let c = s.engine in
    let (min, h1) = refuse-none (c.election_timeout_min_ms == 0) zero_election_timeout_min _ h in
    let (max, h2) =
      refuse-none (leb c.election_timeout_max_ms c.election_timeout_min_ms)
        election_timeout_max_too_small _ h1 in
    let (fetch, h3) = refuse-none (c.fetch_interval_ms == 0) zero_fetch_interval _ h2 in
    let (tick, h4) = refuse-none (c.tick_interval_ms == 0) zero_tick_interval _ h3 in
    let (interval, h5) = refuse-none (s.snapshot_interval == 0) zero_snapshot_interval _ h4 in
    let (compact, h6) =
      refuse-none (c.max_log_entries_before_compaction == 0) zero_max_log_entries _ h5 in
    let (dir, h7) = refuse-none (is_empty s.data_dir) empty_data_dir _ h6 in
    let (retain, h8) = refuse-none (s.snapshot_retention_count == 0) zero_snapshot_retention _ h7 in
    let (tls, h9) = then_check-none (check_tls s) _ h8 in
    let (connect, h10) = refuse-none (s.connect_timeout_ms == 0) zero_connect_timeout _ h9 in
    let (rpc, h11) = refuse-none (s.rpc_timeout_ms == 0) zero_rpc_timeout _ h10 in
    let (initial, h12) = refuse-none (s.retry_initial_backoff_ms == 0) zero_initial_backoff _ h11 in
    let (backoff, h13) =
      refuse-none (ltb s.retry_max_backoff_ms s.retry_initial_backoff_ms) max_backoff_too_small _
        h12 in
    let (size, h14) = refuse-none (s.max_message_size == 0) zero_max_message_size _ h13 in
    record {
      min_positive = ground arith;
      min_lt_max = ground arith;
      fetches = ground arith;
      ticks = ground arith;
      snapshots = ground arith;
      compacts = ground arith;
      retains = ground arith;
      has_dir = dir;
      certified = check_tls-none s tls;
      connects = ground arith;
      calls = ground arith;
      sends = ground arith;
      backs_off = ground arith;
      backoff_le = ground arith;
      quorum_interval = check_interval-none c (ground arith) h14;
    }

exactly_one : (a b : Bool) → (not a && not b) ≡ false → (a && b) ≡ false → a ≡ not b
exactly_one true b h k = ground arith
exactly_one false b h k = ground arith

is_empty-[] : (vs : List VoterConfig) → is_empty vs ≡ true → vs ≡ []
is_empty-[] [] h = refl
is_empty-[] (v ∷ vs) h = absurd (ground arith)

check_peers_sound : (peers : List Text) → check_peers peers ≡ none → All IsListening peers
unfolding check_peers
check_peers_sound [] h = tt
check_peers_sound (p ∷ ps) h =
    let (_, later) = refuse-none (is_empty p) empty_peer _ h in
    let (valid, rest) = then_check-none (validate_address p) (check_peers ps) later in
    (validate_address_sound p valid, check_peers_sound ps rest)

module _ (ext : Externals) where
  -- Its ranges are right, its peers have addresses, differ from each other and are not the node, its
  -- voters are in order, and the node is a voter or an observer, not both, where there are voters.
  pub record IsUsable (s : Settings) : Type 0 where
    pub named : str_eq s.engine.cluster_id "" ≡ false
    pub apart : All (λ p. ¬ IsOwn ext s.listen_addr p) s.peers
    pub ranges : IsInRange s
    pub address : IsListening s.listen_addr
    pub peers : All IsListening s.peers
    pub distinct_peers : IsDistinct text_eq s.peers
    pub voters : AreVoters ext s.voters
    pub member :
        (s.voters ≡ [])
        ⊎ (contains (voter_ids s.voters) s.engine.node_id
            ≡ not (contains s.engine.observers s.engine.node_id))

  check_membership-none :
      (s : Settings)
      → check_membership s ≡ none
      → contains (voter_ids s.voters) s.engine.node_id
        ≡ not (contains s.engine.observers s.engine.node_id)
  unfolding check_membership
  check_membership-none s h =
      let in_voters = contains (voter_ids s.voters) s.engine.node_id in
      let in_observers = contains s.engine.observers s.engine.node_id in
      let (some_place, later) = refuse-none (not in_voters && not in_observers) not_a_member _ h in
      let (one_place, _) = refuse-none (in_voters && in_observers) member_of_both none later in
      exactly_one in_voters in_observers some_place one_place

  members-none :
      (s : Settings)
      → (if is_empty s.voters
          then none
          else then_check (check_voters ext [] [] s.voters) (check_membership s))
        ≡ none
      → AreVoters ext s.voters
        × ((s.voters ≡ [])
            ⊎ (contains (voter_ids s.voters) s.engine.node_id
                ≡ not (contains s.engine.observers s.engine.node_id)))
  members-none s h = elim (Bool-cases (is_empty s.voters)) [
    | inl nobody ↦
        let none_there = is_empty-[] s.voters nobody in
        (
          rw none_there record { each = tt; distinct_keys = tt; distinct_endpoints = tt },
          inl none_there,
        )
    | inr somebody ↦
        let checked : then_check (check_voters ext [] [] s.voters) (check_membership s) ≡ none =
          subst
            (λ b.
              (if b
                then none
                else then_check (check_voters ext [] [] s.voters) (check_membership s))
              ≡ none)
            somebody h in
        let (each, membership) = then_check-none (check_voters ext [] [] s.voters) _ checked in
        let (keys, places, voters) = check_voters-none ext [] [] s.voters each in
        (voters, inr (check_membership-none s membership))
  ]

  pub validate-IsUsable : (s : Settings) → validate ext s ≡ none → IsUsable s
  unfolding validate
  validate-IsUsable s h =
      let (cluster, h1) = refuse-none (str_eq s.engine.cluster_id "") empty_cluster_id _ h in
      let (listen, h2) = refuse-none (is_empty s.listen_addr) empty_listen_addr _ h1 in
      let (address, h3) = then_check-none (validate_address s.listen_addr) _ h2 in
      let (peers, h4) = then_check-none (check_peers s.peers) _ h3 in
      let (distinct, h5) = then_check-none (check_duplicates [] s.peers) _ h4 in
      let (self, h6) =
        then_check-none (check_self ext s.listen_addr s.peers (parse_host_port ext s.listen_addr)) _
          h5 in
      let placed = validate_address_sound s.listen_addr address in
      let (lh, lp, read) = listening-parsed ext s.listen_addr placed in
      let alone = subst (λ o. check_self ext s.listen_addr s.peers o ≡ none) read self in
      let (members, ranges) = then_check-none _ (check_ranges s) h6 in
      let (voters, member) = members-none s members in
      record {
        named = cluster;
        apart = check_self_sound ext s.listen_addr lh lp s.peers read alone;
        ranges = check_ranges-none s ranges;
        address = placed;
        peers = check_peers_sound s.peers peers;
        distinct_peers = (check_duplicates-none [] s.peers distinct).1;
        voters = voters;
        member = member;
      }
