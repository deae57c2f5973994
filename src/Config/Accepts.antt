-- ===== src/Config/Accepts.antt =====
-- `ClusterConfig::validate` accepts what is usable: xraft-core/src/config.rs.
use failover_cluster.Config.Endpoints.{IsListening, listening-parsed, validate_address_complete}
use failover_cluster.Config.Own.{check_self_complete}
use failover_cluster.Config.Text.{Text, text_eq}
use failover_cluster.Config.Usable.{IsInRange, IsUsable, validate-IsUsable}
use failover_cluster.Config.Validate.{
  ConfigError, Endpoint, Externals, Settings, Voter, VoterConfig, check_duplicates, check_interval,
  check_membership, check_peers, check_ranges, check_self, check_tls, check_transport, check_uuid,
  check_voters, duplicate_peer, empty_peer, endpoint_of, has, is_some, nil_uuid, parse_host_port,
  refuse, same_endpoint, same_voter, then_check, validate, validate_address, voter_key,
  zero_check_quorum_interval,
}
use failover_cluster.Config.{ClusterConfig, effective_check_quorum_interval_ms}
use failover_cluster.Config.Accepted.{
  AreVoters, IsDistinct, IsNew, or-false, same_endpoint-sym, same_voter-sym, text_eq-sym,
}
use failover_cluster.Prelude.{
  Bool, List, [], ℕ, All, Option, ap, arith, false, inl, inr, is_empty, map, none, refl, some, true,
  ◌<◌, ◌∙◌, ◌⊎◌, ◌≡◌, ◌==◌, ◌↔◌, if◌then◌else◌, ◌∷◌, ◌++◌,
}

refuse-pass :
    (b : Bool) (e : ConfigError) (r : Option ConfigError)
    → b ≡ false
    → r ≡ none
    → refuse b e r ≡ none
unfolding refuse
refuse-pass true e r h k = absurd (ground arith)
refuse-pass false e r h k = k

then_check-pass : (a r : Option ConfigError) → a ≡ none → r ≡ none → then_check a r ≡ none
unfolding then_check
then_check-pass (some e) r h k = absurd (ground arith)
then_check-pass none r h k = k

module _ {ℓ} {A : Type ℓ} (same : A → A → Bool) (same_sym : (x y : A) → same x y ≡ same y x) where
  IsNew-cons :
      (x : A) (seen ys : List A)
      → has same x ys ≡ false
      → IsNew same seen ys
      → IsNew same (x ∷ seen) ys
  unfolding has
  IsNew-cons x seen [] h k = tt
  IsNew-cons x seen (y ∷ ys) h k =
      let (other, later) = or-false (same x y) (has same x ys) h in
      (rw (same_sym y x, other) k.0, IsNew-cons x seen ys later k.1)

  IsNew-[] : (ys : List A) → IsNew same [] ys
  unfolding has
  IsNew-[] [] = tt
  IsNew-[] (y ∷ ys) = (refl, IsNew-[] ys)

check_duplicates-pass :
    (seen peers : List Text)
    → IsNew text_eq seen peers
    → IsDistinct text_eq peers
    → check_duplicates seen peers ≡ none
unfolding check_duplicates
check_duplicates-pass seen [] n d = refl
check_duplicates-pass seen (p ∷ ps) n d =
    refuse-pass (has text_eq p seen) duplicate_peer _ n.0
      (check_duplicates-pass (p ∷ seen) ps (IsNew-cons text_eq text_eq-sym p seen ps d.0 n.1) d.1)

address-filled : (t : Text) → IsListening t → is_empty t ≡ false
address-filled [] (host, port, a, _, _) = absurd (no_host host a.port_text a.parts)
  where
    no_host : (h rest : Text) → [] ≡ h ++ (58 ∷ rest) → ⊥
    no_host [] rest e = let f = ap is_empty e in absurd (ground arith)
    no_host (c ∷ cs) rest e = let f = ap is_empty e in absurd (ground arith)
address-filled (c ∷ cs) l = refl

check_peers-pass : (peers : List Text) → All IsListening peers → check_peers peers ≡ none
unfolding check_peers
check_peers-pass [] h = refl
check_peers-pass (p ∷ ps) h = refuse-pass (is_empty p) empty_peer _ (address-filled p h.0) (
    then_check-pass (validate_address p) _ (validate_address_complete p h.0)
      (check_peers-pass ps h.1))

check_uuid-pass : (u : Option ℕ) (uuid : ℕ) → u ≡ some uuid → 0 < uuid → check_uuid u ≡ none
unfolding check_uuid
check_uuid-pass none uuid e h = absurd (ground arith)
check_uuid-pass (some u) uuid e h = refuse-pass (u == 0) nil_uuid none (ground arith) refl

check_tls-pass :
    (s : Settings)
    → (s.tls_enabled ≡ false) ⊎ ((is_some s.tls_cert_path ≡ true) × (is_some s.tls_key_path ≡ true))
    → check_tls s ≡ none
unfolding check_tls refuse
check_tls-pass s h = ground (arith, h)

check_interval-pass :
    (c : ClusterConfig)
    → 0 < effective_check_quorum_interval_ms c
    → check_interval c.check_quorum_interval_ms ≡ none
unfolding check_interval effective_check_quorum_interval_ms
check_interval-pass c h = interval c.check_quorum_interval_ms refl
  where
    interval : (o : Option ℕ) → o ≡ c.check_quorum_interval_ms → check_interval o ≡ none
    interval none e = refl
    interval (some v) e =
        let positive : 0 < v = ground (arith, h) in
        refuse-pass (v == 0) zero_check_quorum_interval none (ground arith) refl

check_ranges-pass : (s : Settings) → IsInRange s → check_ranges s ≡ none
unfolding check_ranges check_transport
check_ranges-pass s r = refuse-pass _ _ _ (ground (arith, r.min_positive)) (
    refuse-pass _ _ _ (ground (arith, r.min_lt_max)) (
      refuse-pass _ _ _ (ground (arith, r.fetches)) (
        refuse-pass _ _ _ (ground (arith, r.ticks)) (
          refuse-pass _ _ _ (ground (arith, r.snapshots)) (
            refuse-pass _ _ _ (ground (arith, r.compacts)) (
              refuse-pass _ _ _ r.has_dir (
                refuse-pass _ _ _ (ground (arith, r.retains)) (
                  then_check-pass _ _ (check_tls-pass s r.certified) (
                    refuse-pass _ _ _ (ground (arith, r.connects)) (
                      refuse-pass _ _ _ (ground (arith, r.calls)) (
                        refuse-pass _ _ _ (ground (arith, r.backs_off)) (
                          refuse-pass _ _ _ (ground (arith, r.backoff_le)) (
                            refuse-pass _ _ _ (ground (arith, r.sends))
                              (check_interval-pass s.engine r.quorum_interval))))))))))))))

module _ (ext : Externals) where
  check_voters-pass :
      (ids : List Voter) (endpoints : List Endpoint) (vs : List VoterConfig)
      → IsNew same_voter ids (map voter_key vs)
      → IsNew same_endpoint endpoints (map endpoint_of vs)
      → AreVoters ext vs
      → check_voters ext ids endpoints vs ≡ none
  unfolding check_voters
  check_voters-pass ids endpoints [] ki ke h = refl
  check_voters-pass ids endpoints (v ∷ vs) ki ke h =
      let (here, later) = h.each in
      let (key, keys) = h.distinct_keys in
      let (place, places) = h.distinct_endpoints in
      let positive = here.has_port in
      refuse-pass _ _ _ here.has_host (
        refuse-pass _ _ _ (ground arith) (
          then_check-pass _ _ (check_uuid-pass _ here.uuid here.parsed here.not_nil) (
            refuse-pass _ _ _ ki.0 (
              refuse-pass _ _ _ ke.0 (
                check_voters-pass (voter_key v ∷ ids) (endpoint_of v ∷ endpoints) vs
                  (IsNew-cons same_voter same_voter-sym (voter_key v) ids (map voter_key vs) key
                    ki.1)
                  (IsNew-cons same_endpoint same_endpoint-sym (endpoint_of v) endpoints
                    (map endpoint_of vs) place ke.1)
                  record { each = later; distinct_keys = keys; distinct_endpoints = places })))))

  check_self-apart :
      (s : Settings)
      → IsUsable ext s
      → check_self ext s.listen_addr s.peers (parse_host_port ext s.listen_addr) ≡ none
  check_self-apart s u =
      let (lh, lp, read) = listening-parsed ext s.listen_addr u.address in
      ap (check_self ext s.listen_addr s.peers) read
      ∙ check_self_complete ext s.listen_addr lh lp s.peers read u.apart

  members-pass :
      (s : Settings)
      → IsUsable ext s
      → (if is_empty s.voters
          then none
          else then_check (check_voters ext [] [] s.voters) (check_membership s))
        ≡ none
  members-pass s u =
      let each =
        check_voters-pass [] [] s.voters
          (IsNew-[] same_voter same_voter-sym (map voter_key s.voters))
          (IsNew-[] same_endpoint same_endpoint-sym (map endpoint_of s.voters)) u.voters in
      elim u.member [
        | inl nobody ↦ rw nobody refl
        | inr one ↦
            let member : check_membership s ≡ none =
              unfold check_membership refuse in ground (arith, one) in
            let checked = then_check-pass _ _ each member in ground (arith, checked)
      ]

  -- `validate` accepts exactly the usable settings: a cluster id; 0 < shortest < longest election
  -- timeout, every other interval, limit and timeout positive, the Check-Quorum interval that is
  -- derived too, a backoff range that is not empty, a data directory, and a certificate and key if
  -- TLS is on; to listen on and for each peer an address, that is a host and behind the last colon a
  -- decimal port from 1 to 65535; no two equal peers, and none with the node's own port and its host,
  -- in any case of letters, or any host if the node listens on a wildcard; voters with a host, a port
  -- and a UUID that is not nil, no two of them with the same node and directory or the same endpoint;
  -- and, where there are voters, a node that is exactly one of voter and observer.
  pub validate_iff : (s : Settings) → (validate ext s ≡ none) ↔ IsUsable ext s
  unfolding validate
  validate_iff s = (
    validate-IsUsable ext s,
    λ u. refuse-pass _ _ _ u.named (
        refuse-pass _ _ _ (address-filled s.listen_addr u.address) (
          then_check-pass _ _ (validate_address_complete s.listen_addr u.address) (
            then_check-pass _ _ (check_peers-pass s.peers u.peers) (
              then_check-pass _ _
                (check_duplicates-pass [] s.peers (IsNew-[] text_eq text_eq-sym s.peers)
                  u.distinct_peers)
                (then_check-pass _ _ (check_self-apart s u)
                  (then_check-pass _ _ (members-pass s u) (check_ranges-pass s u.ranges))))))),
  )
