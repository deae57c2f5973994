-- ===== src/Tests/Settings.antt =====
-- Settings of two voters, accepted and refused, and the node that they give.
use failover_cluster.Config.Accepts.{validate_iff}
use failover_cluster.Node.Init.{new_with_seed}
use failover_cluster.Tests.Fixture.{config, lowest}
use failover_cluster.Config.Text.{
  Text, is_whitespace, parse_digits, parse_unsigned, split_at_colon, text_eq, trim, trim_end,
  trim_start,
}
use failover_cluster.Start.Seeded.{Outcome, new_with_seed-Outcome}
use failover_cluster.Config.Usable.{IsUsable}
use failover_cluster.Config.Validate.{
  Externals, Settings, VoterConfig, VoterRecord, check_duplicates, check_interval, check_membership,
  check_parts, check_peers, check_port, check_ranges, check_self, check_tls, check_transport,
  check_uuid, check_voters, duplicate_voter_endpoint, has, host_port, is_wildcard, not_a_member,
  parse_host_port, parse_parts, refuse, same_endpoint, same_voter, then_check, validate,
  validate_address, is_self,
}
use failover_cluster.Prelude.{
  List, [], ℕ, contains, false, map, none, refl, some, u64_max, ◌≡◌, ◌∷◌, ◌↔◌,
}

-- A UUID is a number here, and every list of records makes a voter set.
abbrev ext : Externals
ext = record {
  parse_str = parse_unsigned u64_max;
  try_new = λ rs. some record {
    voters = map (λ (r : VoterRecord). r.node_id) rs;
    contains_node = contains (map (λ (r : VoterRecord). r.node_id) rs);
    unique_node_count = 2;
    quorum_size = 2;
  };
  to_lowercase = λ t. t;
}

abbrev voter_on : ℕ → ℕ → Text → VoterConfig
voter_on node_id port host = record {
  node_id = node_id;
  directory_id = 55 ∷ [];
  host = host;
  port = port;
}

-- Node 1 listens on `0.0.0.0:+81`; its peer is `b:80`.
abbrev settings : List VoterConfig → Settings
settings voters = record {
  engine = config;
  listen_addr = 48 ∷ 46 ∷ 48 ∷ 46 ∷ 48 ∷ 46 ∷ 48 ∷ 58 ∷ 43 ∷ 56 ∷ 49 ∷ [];
  peers = (98 ∷ 58 ∷ 56 ∷ 48 ∷ []) ∷ [];
  voters = voters;
  snapshot_interval = 100;
  data_dir = 100 ∷ [];
  snapshot_retention_count = 3;
  tls_enabled = false;
  tls_cert_path = none;
  tls_key_path = none;
  connect_timeout_ms = 5;
  rpc_timeout_ms = 5;
  retry_initial_backoff_ms = 1;
  retry_max_backoff_ms = 4;
  max_message_size = 1000;
}

abbrev two_voters : Settings
two_voters = settings (voter_on 1 81 (97 ∷ []) ∷ voter_on 2 80 (98 ∷ []) ∷ [])

accepted : validate ext two_voters ≡ none
unfolding validate refuse then_check validate_address check_parts check_port split_at_colon
    parse_unsigned parse_digits check_peers check_duplicates has text_eq check_self parse_host_port
    parse_parts host_port is_self is_wildcard check_voters check_uuid trim trim_start trim_end
    is_whitespace same_voter same_endpoint check_membership check_ranges check_tls check_transport
    check_interval
accepted = refl

-- A blank before the host makes no other endpoint.
refused :
    validate ext (settings (voter_on 1 81 (97 ∷ []) ∷ voter_on 2 81 (32 ∷ 97 ∷ []) ∷ []))
    ≡ some duplicate_voter_endpoint
unfolding validate refuse then_check validate_address check_parts check_port split_at_colon
    parse_unsigned parse_digits check_peers check_duplicates has text_eq check_self parse_host_port
    parse_parts host_port is_self is_wildcard check_voters check_uuid trim trim_start trim_end
    is_whitespace same_voter same_endpoint check_membership check_ranges check_tls check_transport
    check_interval
refused = refl

not_listed : validate ext (settings (voter_on 3 81 (97 ∷ []) ∷ [])) ≡ some not_a_member
unfolding validate refuse then_check validate_address check_parts check_port split_at_colon
    parse_unsigned parse_digits check_peers check_duplicates has text_eq check_self parse_host_port
    parse_parts host_port is_self is_wildcard check_voters check_uuid trim trim_start trim_end
    is_whitespace same_voter same_endpoint check_membership check_ranges check_tls check_transport
    check_interval
not_listed = refl

validate_iff_example : (validate ext two_voters ≡ none) ↔ IsUsable ext two_voters
validate_iff_example = validate_iff ext two_voters

new_with_seed-Outcome_example : Outcome {R = ℕ} ext two_voters (new_with_seed ext two_voters 0)
new_with_seed-Outcome_example = new_with_seed-Outcome ext two_voters 0
