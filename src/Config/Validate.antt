-- ===== src/Config/Validate.antt =====
-- xraft-core/src/config.rs: `ClusterConfig::validate` and `build_voter_set`.
use failover_cluster.Types.{VoterSet}
use failover_cluster.Config.Text.{Text, parse_unsigned, split_at_colon, text_eq, trim}
use failover_cluster.Config.{ClusterConfig}
use failover_cluster.Prelude.{
  is_empty, Bool, List, [], ℕ, Option, contains, false, inl, inr, leb, ltb, map, none, not, some,
  str_eq, true, u64_max, ◌||◌, ◌==◌, ◌&&◌, ◌∷◌, if◌then◌else◌, ◌⊎◌,
}

-- `VoterConfig`, as it is configured, and `VoterRecord`, as `VoterSet` holds it.
pub record VoterConfig : Type 0 where
  pub node_id : ℕ
  pub directory_id : Text
  pub host : Text
  pub port : ℕ

pub record VoterRecord : Type 0 where
  pub node_id : ℕ
  pub directory_id : ℕ
  pub host : Text
  pub port : ℕ

-- The other code that is called: `uuid::Uuid::parse_str` (a UUID is its number, nil is 0),
-- `VoterSet::try_new` (`none` is its error), and Unicode's lower case.
pub record Externals : Type 0 where
  pub parse_str : Text → Option ℕ
  pub try_new : List VoterRecord → Option VoterSet
  pub to_lowercase : Text → Text

-- `ClusterConfig` as the file gives it: the fields that the engine reads are together in `engine`.
pub record Settings : Type 0 where
  pub engine : ClusterConfig
  pub listen_addr : Text
  pub peers : List Text
  pub voters : List VoterConfig
  pub snapshot_interval : ℕ
  pub data_dir : Text
  pub snapshot_retention_count : ℕ
  pub tls_enabled : Bool
  pub tls_cert_path : Option Text
  pub tls_key_path : Option Text
  pub connect_timeout_ms : ℕ
  pub rpc_timeout_ms : ℕ
  pub retry_initial_backoff_ms : ℕ
  pub retry_max_backoff_ms : ℕ
  pub max_message_size : ℕ

-- `XRaftError::Config`, one for each message.
pub data ConfigError : Type 0 where
  empty_cluster_id empty_listen_addr not_host_port empty_host empty_port : ConfigError
  non_numeric_port port_out_of_range empty_peer duplicate_peer listen_addr_in_peers : ConfigError
  empty_voter_host zero_voter_port not_a_uuid nil_uuid duplicate_voter : ConfigError
  duplicate_voter_endpoint not_a_member member_of_both zero_election_timeout_min : ConfigError
  election_timeout_max_too_small zero_fetch_interval zero_tick_interval : ConfigError
  zero_snapshot_interval zero_max_log_entries empty_data_dir zero_snapshot_retention : ConfigError
  no_tls_cert_path no_tls_key_path zero_connect_timeout zero_rpc_timeout : ConfigError
  zero_initial_backoff max_backoff_too_small zero_max_message_size : ConfigError
  zero_check_quorum_interval invalid_voter_set : ConfigError

-- `if test { return Err(e) }` and what follows; `none` is `Ok(())`.
unfoldable pub refuse : Bool → ConfigError → Option ConfigError → Option ConfigError
refuse true e rest = some e
refuse false e rest = rest

-- `first?` and what follows.
unfoldable pub then_check : Option ConfigError → Option ConfigError → Option ConfigError
then_check (some e) rest = some e
then_check none rest = rest

unfoldable pub check_port : Option ℕ → Option ConfigError
check_port none = some non_numeric_port
check_port (some port) = refuse (port == 0 || ltb 65535 port) port_out_of_range none

unfoldable pub check_parts : Option (Text × Text) → Option ConfigError
check_parts none = some not_host_port
check_parts (some (host, port_str)) =
    refuse (is_empty host) empty_host
      (refuse (is_empty port_str) empty_port (check_port (parse_unsigned u64_max port_str)))

unfoldable pub validate_address : Text → Option ConfigError
validate_address addr = check_parts (split_at_colon addr)

unfoldable pub check_peers : List Text → Option ConfigError
check_peers [] = none
check_peers (peer ∷ peers) =
    refuse (is_empty peer) empty_peer (then_check (validate_address peer) (check_peers peers))

-- `HashSet::insert` of each in turn, with what is in the set.
unfoldable pub has {ℓ} : {A : Type ℓ} → (A → A → Bool) → A → List A → Bool
has same x [] = false
has same x (y ∷ ys) = same x y || has same x ys

unfoldable pub check_duplicates : List Text → List Text → Option ConfigError
check_duplicates seen [] = none
check_duplicates seen (peer ∷ peers) =
    refuse (has text_eq peer seen) duplicate_peer (check_duplicates (peer ∷ seen) peers)

abbrev pub Voter : Type 0
Voter = ℕ × Text

abbrev pub Endpoint : Type 0
Endpoint = Text × ℕ

unfoldable pub same_voter : Voter → Voter → Bool
same_voter v w = (v.0 == w.0) && text_eq v.1 w.1

-- `"{host}:{port}"` of one and the other: the port has no colon.
unfoldable pub same_endpoint : Endpoint → Endpoint → Bool
same_endpoint v w = text_eq v.0 w.0 && (v.1 == w.1)

abbrev pub endpoint_of : VoterConfig → Endpoint
endpoint_of v = (trim v.host, v.port)

abbrev pub voter_key : VoterConfig → Voter
voter_key v = (v.node_id, v.directory_id)

abbrev pub voter_ids : List VoterConfig → List ℕ
voter_ids vs = map (λ (v : VoterConfig). v.node_id) vs

unfoldable pub check_uuid : Option ℕ → Option ConfigError
check_uuid none = some not_a_uuid
check_uuid (some uuid) = refuse (uuid == 0) nil_uuid none

unfoldable pub check_membership : Settings → Option ConfigError
check_membership s =
    let self_id = s.engine.node_id in
    let in_voters = contains (voter_ids s.voters) self_id in
    let in_observers = contains s.engine.observers self_id in
    refuse (not in_voters && not in_observers) not_a_member
      (refuse (in_voters && in_observers) member_of_both none)

unfoldable pub is_some {ℓ} : {A : Type ℓ} → Option A → Bool
is_some none = false
is_some (some a) = true

unfoldable pub check_tls : Settings → Option ConfigError
check_tls s =
    if s.tls_enabled
    then refuse (not (is_some s.tls_cert_path)) no_tls_cert_path
        (refuse (not (is_some s.tls_key_path)) no_tls_key_path none)
    else none

unfoldable pub check_interval : Option ℕ → Option ConfigError
check_interval none = none
check_interval (some v) = refuse (v == 0) zero_check_quorum_interval none

unfoldable pub check_transport : Settings → Option ConfigError
check_transport s = refuse (s.connect_timeout_ms == 0) zero_connect_timeout (
    refuse (s.rpc_timeout_ms == 0) zero_rpc_timeout (
      refuse (s.retry_initial_backoff_ms == 0) zero_initial_backoff (
        refuse (ltb s.retry_max_backoff_ms s.retry_initial_backoff_ms) max_backoff_too_small (
          refuse (s.max_message_size == 0) zero_max_message_size
            (check_interval s.engine.check_quorum_interval_ms)))))

unfoldable pub check_ranges : Settings → Option ConfigError
check_ranges s =
    let c = s.engine in
    refuse (c.election_timeout_min_ms == 0) zero_election_timeout_min (
      refuse (leb c.election_timeout_max_ms c.election_timeout_min_ms)
        election_timeout_max_too_small
        (refuse (c.fetch_interval_ms == 0) zero_fetch_interval (
          refuse (c.tick_interval_ms == 0) zero_tick_interval (
            refuse (s.snapshot_interval == 0) zero_snapshot_interval (
              refuse (c.max_log_entries_before_compaction == 0) zero_max_log_entries (
                refuse (is_empty s.data_dir) empty_data_dir (
                  refuse (s.snapshot_retention_count == 0) zero_snapshot_retention
                    (then_check (check_tls s) (check_transport s)))))))))

unfoldable pub is_wildcard : Text → Bool
is_wildcard host =
    text_eq host (48 ∷ 46 ∷ 48 ∷ 46 ∷ 48 ∷ 46 ∷ 48 ∷ [])
    || text_eq host (58 ∷ 58 ∷ [])
    || text_eq host (91 ∷ 58 ∷ 58 ∷ 93 ∷ [])

-- A text that is no address is compared whole.
unfoldable pub is_self : Text → ℕ → Text → Text → Option (Text × ℕ) → Bool
is_self listen_host listen_port listen_addr peer none = text_eq peer listen_addr
is_self listen_host listen_port listen_addr peer (some (host, port)) =
    (listen_port == port) && (is_wildcard listen_host || text_eq listen_host host)

module _ (ext : Externals) where
  unfoldable pub host_port : Text → Text → Option ℕ → Option (Text × ℕ)
  host_port host port_str none = none
  host_port host port_str (some port) =
      if is_empty host || is_empty port_str then none else some (ext.to_lowercase host, port)

  unfoldable pub parse_parts : Option (Text × Text) → Option (Text × ℕ)
  parse_parts none = none
  parse_parts (some (host, port_str)) = host_port host port_str (parse_unsigned 65535 port_str)

  unfoldable pub parse_host_port : Text → Option (Text × ℕ)
  parse_host_port addr = parse_parts (split_at_colon addr)

  unfoldable pub check_self : Text → List Text → Option (Text × ℕ) → Option ConfigError
  check_self listen_addr peers none = none
  check_self listen_addr [] (some listen) = none
  check_self listen_addr (peer ∷ peers) (some listen) =
      refuse (is_self listen.0 listen.1 listen_addr peer (parse_host_port peer))
        listen_addr_in_peers (check_self listen_addr peers (some listen))

  unfoldable pub check_voters : List Voter → List Endpoint → List VoterConfig → Option ConfigError
  check_voters ids endpoints [] = none
  check_voters ids endpoints (v ∷ vs) = refuse (is_empty (trim v.host)) empty_voter_host (
      refuse (v.port == 0) zero_voter_port (
        then_check (check_uuid (ext.parse_str v.directory_id)) (
          refuse (has same_voter (voter_key v) ids) duplicate_voter (
            refuse (has same_endpoint (endpoint_of v) endpoints) duplicate_voter_endpoint
              (check_voters (voter_key v ∷ ids) (endpoint_of v ∷ endpoints) vs)))))

  unfoldable pub validate : Settings → Option ConfigError
  validate s = refuse (str_eq s.engine.cluster_id "") empty_cluster_id (
      refuse (is_empty s.listen_addr) empty_listen_addr (
        then_check (validate_address s.listen_addr) (
          then_check (check_peers s.peers) (
            then_check (check_duplicates [] s.peers) (
              then_check (check_self s.listen_addr s.peers (parse_host_port s.listen_addr)) (
                then_check
                  (if is_empty s.voters
                    then none
                    else then_check (check_voters [] [] s.voters) (check_membership s))
                  (check_ranges s)))))))

  unfoldable pub add_record :
      VoterConfig → Option ℕ → ConfigError ⊎ List VoterRecord → ConfigError ⊎ List VoterRecord
  add_record v none rest = inl not_a_uuid
  add_record v (some uuid) (inl e) = inl e
  add_record v (some uuid) (inr records) =
      inr (
        record { node_id = v.node_id; directory_id = uuid; host = v.host; port = v.port } ∷ records)

  unfoldable pub voter_records : List VoterConfig → ConfigError ⊎ List VoterRecord
  voter_records [] = inr []
  voter_records (v ∷ vs) = add_record v (ext.parse_str v.directory_id) (voter_records vs)

  unfoldable pub accept_set : Option VoterSet → ConfigError ⊎ Option VoterSet
  accept_set none = inl invalid_voter_set
  accept_set (some vs) = inr (some vs)

  unfoldable pub voter_set_of : ConfigError ⊎ List VoterRecord → ConfigError ⊎ Option VoterSet
  voter_set_of (inl e) = inl e
  voter_set_of (inr records) = accept_set (ext.try_new records)

  unfoldable pub build_voter_set : List VoterConfig → ConfigError ⊎ Option VoterSet
  build_voter_set [] = inr none
  build_voter_set (v ∷ vs) = voter_set_of (voter_records (v ∷ vs))
