-- ===== src/Start.antt =====
-- The node at the start, xraft-core/src/node.rs, `RaftNode::new_inner`.
pub mod Seeded
use failover_cluster.Peers.Lookup.{get-insert, get-or_insert, get-or_insert-none}
use failover_cluster.Types.{VoterSet}
use failover_cluster.Node.{RaftNode}
use failover_cluster.Prelude.{
  List, Option, [], arith, contains, false, if_elim, inl, inr, none, refl, some, true, ℕ,
  ℕ_discrete, if◌then◌else◌, ◌≡◌, ◌⊎◌, ◌∷◌, ◌≢◌, ◌==◌,
}
use failover_cluster.Timer.Bounds.{IsValid, from_config_ms-total}
use failover_cluster.Config.{ClusterConfig}
use failover_cluster.Node.Init.{
  voter_peers, observer_peers, voters_of, initial, new_inner, with_timer, initial_role,
}
use failover_cluster.Peers
use failover_cluster.Peers.{PeerMap, get, or_insert}
use failover_cluster.Watermarks
use failover_cluster.Candidacy
use failover_cluster.Timer.{Rand, ElectionTimer}

-- What the loop over voters leaves of another key, and what it makes of a voter.
get-voter_peers :
    (id v : ℕ) (vs : List ℕ) (m : PeerMap)
    → v ≢ id
    → (get v m ≡ some (Peers.new true)) ⊎ (contains vs v ≡ true)
    → get v (voter_peers id vs m) ≡ some (Peers.new true)
unfolding voter_peers
get-voter_peers id v [] m ne (inl h) = h
get-voter_peers id v [] m ne (inr h) = cc
get-voter_peers id v (w ∷ vs) m ne h =
    get-voter_peers id v vs (if w == id then m else Peers.insert w (Peers.new true) m) ne (next h)
  where
    next :
        (get v m ≡ some (Peers.new true)) ⊎ (contains (w ∷ vs) v ≡ true)
        → (get v (if w == id then m else Peers.insert w (Peers.new true) m) ≡ some (Peers.new true))
          ⊎ (contains vs v ≡ true)
    next (inl e) = inl (ground (arith, get-insert v w (Peers.new true) m))
    next (inr e) = elim (ℕ_discrete w v) [
      | yes same ↦ inl (ground (arith, get-insert v w (Peers.new true) m))
      | no other ↦ inr (ground arith)
    ]

get-observer_peers :
    (id v : ℕ) (os : List ℕ) (m : PeerMap) (p : Peers.PeerState)
    → get v m ≡ some p
    → get v (observer_peers id os m) ≡ some p
unfolding observer_peers
get-observer_peers id v [] m p h = h
get-observer_peers id v (o ∷ os) m p h =
    get-observer_peers id v os (if o == id then m else or_insert o (Peers.new false) m) p
      (ground (arith, get-or_insert v o (Peers.new false) p m h))

-- The node itself is no peer of its own.
self-voter_peers :
    (id : ℕ) (vs : List ℕ) (m : PeerMap) → get id m ≡ none → get id (voter_peers id vs m) ≡ none
unfolding voter_peers
self-voter_peers id [] m h = h
self-voter_peers id (v ∷ vs) m h =
    self-voter_peers id vs (if v == id then m else Peers.insert v (Peers.new true) m)
      (ground (arith, get-insert id v (Peers.new true) m))

self-observer_peers :
    (id : ℕ) (os : List ℕ) (m : PeerMap) → get id m ≡ none → get id (observer_peers id os m) ≡ none
unfolding observer_peers
self-observer_peers id [] m h = h
self-observer_peers id (o ∷ os) m h =
    self-observer_peers id os (if o == id then m else or_insert o (Peers.new false) m) (
      if_elim (λ m'. get id m' ≡ none) (o == id) (λ _. h)
        (λ ne. get-or_insert-none id o (Peers.new false) m (ground arith) h))

module _ {R : Type 0} where
  -- The node is a follower or an observer at term 0 with no vote, tracks every other voter as a voter
  -- and not itself, and its timer and positions are in order.
  pub record IsStart (config : ClusterConfig) (voter_set : Option VoterSet) (n : RaftNode R)
      : Type 0 where
    pub role : n.role ≡ initial_role config
    pub ballot : n.hard_state ≡ record { current_term = 0; voted_for = none; commit_index = 0 }
    pub configured : (n.config ≡ config) × (n.voter_set ≡ voter_set) × (n.id ≡ config.node_id)
    pub no_self : get n.id n.peers ≡ none
    pub tracked :
        (v : ℕ)
        → contains (voters_of voter_set) v ≡ true
        → v ≢ n.id
        → get v n.peers ≡ some (Peers.new true)
    pub timer : IsValid n.election_timer
    pub ordered : Watermarks.Inv n
    pub standing : Candidacy.Inv n

  initial-IsStart :
      (config : ClusterConfig) (voter_set : Option VoterSet) (timer : ElectionTimer) (rng : R)
      → IsValid timer
      → IsStart config voter_set (initial config voter_set timer rng)
  unfolding initial
  initial-IsStart config voter_set timer rng valid = record {
    role = refl;
    ballot = refl;
    configured = (refl, refl, refl);
    no_self =
        self-observer_peers config.node_id config.observers _
          (self-voter_peers config.node_id (voters_of voter_set) [] (unfold get in refl));
    tracked = λ v known ne.
        get-observer_peers config.node_id v config.observers _ (Peers.new true)
          (get-voter_peers config.node_id v (voters_of voter_set) [] ne (inr known));
    timer = valid;
    ordered = record {
      bounded = omega arith;
      committed = omega arith;
      applied_committed = omega arith;
      tracked = λ l. absurd (ground arith);
    };
    standing = record {
      votes_distinct = tt;
      pre_votes_distinct = tt;
      self_voted = λ s. absurd (ground arith);
      led = λ l. absurd (ground arith);
    };
  }

module _ {R : Type 0} ⦃rand : Rand R⦄ where
  -- Construction does not panic, whatever the settings, and gives a node that is in order: a follower
  -- or observer at term 0 with no vote, that tracks every other voter and not itself, with a valid
  -- timer, and with its positions and its votes in order.
  pub new_inner-IsStart :
      (config : ClusterConfig) (voter_set : Option VoterSet) (rng : R)
      → (n : RaftNode R) × (new_inner config voter_set rng ≡ some n) × IsStart config voter_set n
  unfolding new_inner with_timer
  new_inner-IsStart config voter_set rng =
      let (timer_seed, rng1) = rand.next_u64 rng in
      let (node_seed, rng2) = rand.next_u64 rng1 in
      let (t, _, e, valid, _, _) =
        from_config_ms-total config.election_timeout_min_ms config.election_timeout_max_ms
          config.tick_interval_ms (rand.seed_from_u64 timer_seed) in
      (
        initial config voter_set t (rand.seed_from_u64 node_seed),
        rw e refl,
        initial-IsStart config voter_set t (rand.seed_from_u64 node_seed) valid,
      )
