-- ===== src/Start/Seeded.antt =====
-- Construction from the settings as they are read: xraft-core/src/node.rs, `RaftNode::new_with_seed`.
use failover_cluster.Node.Init.{initial_role, new_with_seed, with_valid, with_voter_set}
use failover_cluster.Types.{VoterSet, follower, observer}
use failover_cluster.Timer.{Rand}
use failover_cluster.Node.{RaftNode}
use failover_cluster.Config.Accepted.{IsVoter}
use failover_cluster.Config.Usable.{IsUsable, validate-IsUsable}
use failover_cluster.Config.Validate.{
  ConfigError, Externals, Settings, VoterConfig, VoterRecord, accept_set, add_record,
  build_voter_set, invalid_voter_set, validate, voter_ids, voter_records, voter_set_of,
}
use failover_cluster.Start.{IsStart, new_inner-IsStart}
use failover_cluster.Prelude.{
  List, [], ℕ, All, Bool-cases, Option, contains, inl, inr, none, refl, some, ◌∙◌, ◌∷◌,
  if◌then◌else◌, ◌⊎◌, ◌≡◌, ap, subst, sym,
}

voter_records-total :
    (ext : Externals) (vs : List VoterConfig)
    → All (IsVoter ext) vs
    → (records : List VoterRecord) × (voter_records ext vs ≡ inr records)
unfolding voter_records add_record
voter_records-total ext [] h = ([], refl)
voter_records-total ext (v ∷ vs) h =
    let (records, e) = voter_records-total ext vs h.1 in
    let r : VoterRecord = record {
      node_id = v.node_id;
      directory_id = h.0.uuid;
      host = v.host;
      port = v.port;
    } in
    (r ∷ records, rw (h.0.parsed, e) refl)

-- `VoterSet::try_new` refuses the records of the voters.
pub record IsSetRefused (ext : Externals) (vs : List VoterConfig) : Type 0 where
  pub records : List VoterRecord
  pub converted : voter_records ext vs ≡ inr records
  pub not_made : ext.try_new records ≡ none
  pub reported : build_voter_set ext vs ≡ inl invalid_voter_set

accept_set-cases : (o : Option VoterSet) → ((vs : VoterSet) × (o ≡ some vs)) ⊎ (o ≡ none)
accept_set-cases none = inr refl
accept_set-cases (some vs) = inl (vs, refl)

-- What `VoterSet::try_new` answers decides.
build_voter_set-cases :
    (ext : Externals) (vs : List VoterConfig)
    → All (IsVoter ext) vs
    → ((built : Option VoterSet) × (build_voter_set ext vs ≡ inr built)) ⊎ IsSetRefused ext vs
unfolding build_voter_set
build_voter_set-cases ext [] h = inl (none, refl)
build_voter_set-cases ext (v ∷ vs) h =
    let (records, e) = voter_records-total ext (v ∷ vs) h in
    elim (accept_set-cases (ext.try_new records)) [
      | inl made ↦ inl (some made.0, rw e (unfold voter_set_of accept_set in rw made.1 refl))
      | inr refused ↦ inr record {
        records = records;
        converted = e;
        not_made = refused;
        reported = rw e (unfold voter_set_of accept_set in rw refused refl);
      }
    ]

error_cases : (o : Option ConfigError) → ((e : ConfigError) × (o ≡ some e)) ⊎ (o ≡ none)
error_cases none = inr refl
error_cases (some e) = inl (e, refl)

module _ {R : Type 0} ⦃rand : Rand R⦄ (ext : Externals) where
  -- A node that the settings give: with their voter set, and in the role that they list it in.
  pub record IsConfigured (s : Settings) (built : Option VoterSet) (n : RaftNode R) : Type 0 where
    pub set_built : build_voter_set ext s.voters ≡ inr built
    pub start : IsStart s.engine built n
    pub listed :
        (s.voters ≡ [])
        ⊎ (n.role ≡ (if contains (voter_ids s.voters) s.engine.node_id then follower else observer))

  -- The settings are refused, or the voter set that they give is, or they are right and a node is made.
  abbrev pub Outcome : Settings → ConfigError ⊎ Option (RaftNode R) → Type 0
  Outcome s result =
      ((e : ConfigError) × (validate ext s ≡ some e) × (result ≡ inl e))
      ⊎ ((validate ext s ≡ none) × IsSetRefused ext s.voters × (result ≡ inl invalid_voter_set))
      ⊎ ((validate ext s ≡ none)
          × ((built : Option VoterSet) × (n : RaftNode R) × (result ≡ inr (some n))
              × IsConfigured s built n))

  role_listed :
      (s : Settings) (n : RaftNode R)
      → IsUsable ext s
      → n.role ≡ initial_role s.engine
      → (s.voters ≡ [])
        ⊎ (n.role ≡ (if contains (voter_ids s.voters) s.engine.node_id then follower else observer))
  role_listed s n u role = elim u.member [
    | inl nobody ↦ inl nobody
    | inr one ↦ inr (
        role
        ∙ rw one (elim (Bool-cases (contains s.engine.observers s.engine.node_id)) [
          | inl there ↦ rw there refl
          | inr not_there ↦ rw not_there refl
        ]))
  ]

  made :
      (s : Settings) (seed : ℕ)
      → validate ext s ≡ none
      → Outcome s (with_voter_set s (rand.seed_from_u64 seed) (build_voter_set ext s.voters))
  unfolding with_voter_set
  made s seed valid =
      let u = validate-IsUsable ext s valid in
      let rng = rand.seed_from_u64 seed in
      elim (build_voter_set-cases ext s.voters u.voters.each) [
        | inr bad ↦ inr (inl (valid, bad, ap (with_voter_set s rng) bad.reported))
        | inl good ↦
            let (n, e, start) = new_inner-IsStart s.engine good.0 rng in
            inr (
              inr (
                valid,
                (
                  good.0,
                  n,
                  ap (with_voter_set s rng) good.1 ∙ ap inr e,
                  record {
                    set_built = good.1;
                    start = start;
                    listed = role_listed s n u start.role;
                  },
                ),
              ))
      ]

  -- From any settings and seed: either `validate` gives an error, and construction gives that error;
  -- or the settings are valid, each directory id is read, and it is `VoterSet::try_new` that refuses
  -- the voters; or a node is made, no assertion fails, and it has that voter set, is in order and
  -- starts as a follower if it is listed as a voter and as an observer if it is not, where voters
  -- are listed.
  pub new_with_seed-Outcome : (s : Settings) (seed : ℕ) → Outcome s (new_with_seed ext s seed)
  unfolding new_with_seed with_valid
  new_with_seed-Outcome s seed =
      let rng = rand.seed_from_u64 seed in
      elim (error_cases (validate ext s)) [
        | inl bad ↦ inl (bad.0, bad.1, ap (with_valid ext s rng) bad.1)
        | inr valid ↦ subst (Outcome s) (sym (ap (with_valid ext s rng) valid)) (made s seed valid)
      ]
