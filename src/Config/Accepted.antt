-- ===== src/Config/Accepted.antt =====
-- What `ClusterConfig::validate` lets through: xraft-core/src/config.rs.
use failover_cluster.Config.Text.{Text, text_eq, trim}
use failover_cluster.Config.Validate.{
  ConfigError, has, refuse, then_check, Endpoint, Externals, Voter, VoterConfig, check_duplicates,
  check_uuid, check_voters, duplicate_peer, duplicate_voter, duplicate_voter_endpoint,
  empty_voter_host, endpoint_of, nil_uuid, same_endpoint, same_voter, voter_key, zero_voter_port,
}
use failover_cluster.Prelude.{
  Bool, List, [], ℕ, All, Option, arith, false, none, refl, some, true, ◌∷◌, ◌||◌, ◌≡◌, ◌==◌,
  is_empty, map, ◌<◌,
}

pub refuse-none :
    (b : Bool) (e : ConfigError) (r : Option ConfigError)
    → refuse b e r ≡ none
    → (b ≡ false) × (r ≡ none)
unfolding refuse
refuse-none true e r h = absurd (ground arith)
refuse-none false e r h = (refl, h)

pub then_check-none : (a r : Option ConfigError) → then_check a r ≡ none → (a ≡ none) × (r ≡ none)
unfolding then_check
then_check-none (some e) r h = absurd (ground arith)
then_check-none none r h = (refl, h)

pub or-false : (a b : Bool) → (a || b) ≡ false → (a ≡ false) × (b ≡ false)
or-false true b h = absurd (ground arith)
or-false false b h = (refl, h)

-- No element is the same as a later one.
abbrev pub IsDistinct {ℓ} : {A : Type ℓ} → (A → A → Bool) → List A → Type 0
IsDistinct same [] = Unit
IsDistinct same (x ∷ xs) = (has same x xs ≡ false) × IsDistinct same xs

-- No element is in a set.
abbrev pub IsNew {ℓ} : {A : Type ℓ} → (A → A → Bool) → List A → List A → Type 0
IsNew same seen xs = All (λ x. has same x seen ≡ false) xs

module _ {ℓ} {A : Type ℓ} (same : A → A → Bool) (same_sym : (x y : A) → same x y ≡ same y x) where
  has-IsNew : (x : A) (seen ys : List A) → IsNew same (x ∷ seen) ys → has same x ys ≡ false
  unfolding has
  has-IsNew x seen [] h = refl
  has-IsNew x seen (y ∷ ys) h =
      let (other, _) = or-false (same y x) (has same y seen) h.0 in
      rw (same_sym x y, other) (has-IsNew x seen ys h.1)

  IsNew-tail : (x : A) (seen ys : List A) → IsNew same (x ∷ seen) ys → IsNew same seen ys
  unfolding has
  IsNew-tail x seen [] h = tt
  IsNew-tail x seen (y ∷ ys) h =
      ((or-false (same y x) (has same y seen) h.0).1, IsNew-tail x seen ys h.1)

eq-sym : (c d : ℕ) → (c == d) ≡ (d == c)
eq-sym c d = ground arith

pub text_eq-sym : (a b : Text) → text_eq a b ≡ text_eq b a
unfolding text_eq
text_eq-sym [] [] = refl
text_eq-sym [] (d ∷ ds) = refl
text_eq-sym (c ∷ cs) [] = refl
text_eq-sym (c ∷ cs) (d ∷ ds) = rw (text_eq-sym cs ds, eq-sym c d) refl

pub same_voter-sym : (v w : Voter) → same_voter v w ≡ same_voter w v
unfolding same_voter
same_voter-sym v w = rw (text_eq-sym v.1 w.1, eq-sym v.0 w.0) refl

pub same_endpoint-sym : (v w : Endpoint) → same_endpoint v w ≡ same_endpoint w v
unfolding same_endpoint
same_endpoint-sym v w = rw (text_eq-sym v.0 w.0, eq-sym v.1 w.1) refl

pub check_duplicates-none :
    (seen peers : List Text)
    → check_duplicates seen peers ≡ none
    → IsNew text_eq seen peers × IsDistinct text_eq peers
unfolding check_duplicates
check_duplicates-none seen [] h = (tt, tt)
check_duplicates-none seen (p ∷ ps) h =
    let (new, later) = refuse-none (has text_eq p seen) duplicate_peer _ h in
    let (news, distinct) = check_duplicates-none (p ∷ seen) ps later in
    (
      (new, IsNew-tail text_eq text_eq-sym p seen ps news),
      (has-IsNew text_eq text_eq-sym p seen ps news, distinct),
    )

-- A voter has a host, a port and a directory id that is a UUID and not nil.
pub record IsVoter (ext : Externals) (v : VoterConfig) : Type 0 where
  pub has_host : is_empty (trim v.host) ≡ false
  pub has_port : 0 < v.port
  pub uuid : ℕ
  pub parsed : ext.parse_str v.directory_id ≡ some uuid
  pub not_nil : 0 < uuid

check_uuid-none : (u : Option ℕ) → check_uuid u ≡ none → (uuid : ℕ) × (u ≡ some uuid) × (0 < uuid)
unfolding check_uuid
check_uuid-none none h = absurd (ground arith)
check_uuid-none (some uuid) h =
    let (positive, _) = refuse-none (uuid == 0) nil_uuid none h in (uuid, refl, ground arith)

module _ (ext : Externals) where
  -- Voters that are each in order, and differ in their keys and in their endpoints.
  pub record AreVoters (vs : List VoterConfig) : Type 0 where
    pub each : All (IsVoter ext) vs
    pub distinct_keys : IsDistinct same_voter (map voter_key vs)
    pub distinct_endpoints : IsDistinct same_endpoint (map endpoint_of vs)

  pub check_voters-none :
      (ids : List Voter) (endpoints : List Endpoint) (vs : List VoterConfig)
      → check_voters ext ids endpoints vs ≡ none
      → IsNew same_voter ids (map voter_key vs)
        × IsNew same_endpoint endpoints (map endpoint_of vs)
        × AreVoters vs
  unfolding check_voters
  check_voters-none ids endpoints [] h =
      (tt, tt, record { each = tt; distinct_keys = tt; distinct_endpoints = tt })
  check_voters-none ids endpoints (v ∷ vs) h =
      let (host, h1) = refuse-none (is_empty (trim v.host)) empty_voter_host _ h in
      let (port, h2) = refuse-none (v.port == 0) zero_voter_port _ h1 in
      let (directory, h3) = then_check-none (check_uuid (ext.parse_str v.directory_id)) _ h2 in
      let (uuid, parsed, positive) = check_uuid-none (ext.parse_str v.directory_id) directory in
      let (key, h4) = refuse-none (has same_voter (voter_key v) ids) duplicate_voter _ h3 in
      let (place, h5) =
        refuse-none (has same_endpoint (endpoint_of v) endpoints) duplicate_voter_endpoint _ h4 in
      let (keys, places, rest) =
        check_voters-none (voter_key v ∷ ids) (endpoint_of v ∷ endpoints) vs h5 in
      (
        (key, IsNew-tail same_voter same_voter-sym (voter_key v) ids (map voter_key vs) keys),
        (
          place,
          IsNew-tail same_endpoint same_endpoint-sym (endpoint_of v) endpoints (map endpoint_of vs)
              places,
        ),
        record {
          each = (
            record {
              has_host = host;
              has_port = ground arith;
              uuid = uuid;
              parsed = parsed;
              not_nil = positive;
            },
            rest.each,
          );
          distinct_keys = (
            has-IsNew same_voter same_voter-sym (voter_key v) ids (map voter_key vs) keys,
            rest.distinct_keys,
          );
          distinct_endpoints = (
            has-IsNew same_endpoint same_endpoint-sym (endpoint_of v) endpoints (map endpoint_of vs)
                places,
            rest.distinct_endpoints,
          );
        },
      )
