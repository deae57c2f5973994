-- ===== src/Leases.antt =====
-- Check-Quorum and the leader lease: xraft-core/src/node.rs, `check_quorum_reachable`,
-- `has_active_lease` and the leader's part of `handle_tick`.
use failover_cluster.FileLog.Recovery.{cut}
use failover_cluster.Node.Commit.{advance_and_drain}
use failover_cluster.Node.Roles.{lead, restart_peer, become_leader, become_follower}
use failover_cluster.Node.Tick.{
  handle_tick, advance_clock, check_election_timeout, check_timeouts, count_quorum_tick,
  schedule_fetch,
}
use failover_cluster.Node.Commit.Frame.{advance_and_drain-frame, with_progress}
use failover_cluster.Types.{VoterSet, is_leader_role}
use failover_cluster.Timer.{Rand}
use failover_cluster.Prelude.{
  Bool, Option, [], arith, false, leb, refl, some, true, ℕ, ◌≤◌, ◌<◌, ◌≡◌, ◌&&◌, ◌∷◌, none, u64_max,
  saturating_add, ◌↔◌, Bool-cases, contains, inl, inr, ltb, min, ◌-◌, if◌then◌else◌, ◌+◌,
}
use failover_cluster.Node.{RaftNode}
use failover_cluster.Node.Quorum.{
  count_voters, has_active_lease, check_quorum_reachable, lease_reachable, is_recent,
  is_fetched_since, self_count,
}
use failover_cluster.Peers.{PeerState, PeerMap, modify_all}

-- More peers pass a weaker test.
count_voters_mono :
    (vs : VoterSet) (p q : PeerState → Bool) (m : PeerMap) (a b : ℕ)
    → ((peer : PeerState) → p peer ≡ true → q peer ≡ true)
    → a ≤ b
    → b ≤ u64_max
    → count_voters vs p a m ≤ count_voters vs q b m
unfolding count_voters
count_voters_mono vs p q [] a b weaker h fits = h
count_voters_mono vs p q ((id, peer) ∷ m) a b weaker h fits =
    count_voters_mono vs p q m _ _ weaker (ground (arith, weaker peer)) (ground arith)

-- No peer adds to the count where all fail the test.
count_voters-none :
    (vs : VoterSet) (p : PeerState → Bool) (a : ℕ) (f : PeerState → PeerState) (m : PeerMap)
    → ((peer : PeerState) → p (f peer) ≡ false)
    → count_voters vs p a (modify_all f m) ≡ a
unfolding count_voters modify_all
count_voters-none vs p a f [] fails = refl
count_voters-none vs p a f ((id, peer) ∷ m) fails =
    ground (arith, fails peer, count_voters-none vs p a f m fails)

module _ {R : Type 0} where
  lease_reachable-check :
      (n : RaftNode R) (vs : VoterSet) (started : ℕ)
      → lease_reachable n vs started ≡ true
      → leb vs.quorum_size (
          count_voters vs
            (is_recent n.logical_tick n.check_quorum_interval_ticks)
            (self_count vs n.id)
            n.peers)
        ≡ true
  unfolding lease_reachable
  lease_reachable-check n vs started h =
      let more =
        count_voters_mono vs
          (λ peer.
            is_fetched_since started peer
            && is_recent n.logical_tick n.check_quorum_interval_ticks peer)
          (is_recent n.logical_tick n.check_quorum_interval_ticks) n.peers (self_count vs n.id)
          (self_count vs n.id) (λ peer e. ground arith) (omega arith) (ground arith) in
      ground arith

  active-reachable :
      (n : RaftNode R) (s : Option VoterSet) (started : Option ℕ)
      → n.voter_set ≡ s
      → n.leader_started_tick ≡ started
      → has_active_lease n ≡ true
      → check_quorum_reachable n ≡ true
  unfolding has_active_lease check_quorum_reachable
  active-reachable n none started hs ht h = ground arith
  active-reachable n (some vs) none hs ht h = ground arith
  active-reachable n (some vs) (some started) hs ht h =
      ground (arith, lease_reachable-check n vs started)

  -- An active lease means that the node leads, that leases are enabled, and that Check-Quorum, too,
  -- finds a quorum of voters: a lease is never held where the leader would step down.
  pub has_active_lease-reachable :
      (n : RaftNode R)
      → has_active_lease n ≡ true
      → (is_leader_role n.role ≡ true)
        × (n.config.enable_leader_lease ≡ true)
        × (check_quorum_reachable n ≡ true)
  unfolding has_active_lease
  has_active_lease-reachable n h =
      (ground arith, ground arith, active-reachable n n.voter_set n.leader_started_tick refl refl h)

  -- Whether voter `id` has fetched from the leader less than the interval before tick `now`.
  abbrev pub has_fetched : RaftNode R → VoterSet → ℕ → ℕ → PeerState → Bool
  has_fetched n vs now id p =
      contains vs.voters id && ltb (now - p.last_fetch_time) n.check_quorum_interval_ticks

  -- The voters that have.
  abbrev pub heard_from : RaftNode R → VoterSet → ℕ → PeerMap → ℕ
  heard_from n vs now [] = 0
  heard_from n vs now ((id, p) ∷ m) =
      let others = heard_from n vs now m in if has_fetched n vs now id p then others + 1 else others

  -- Check-Quorum is due on the next tick, and the voters that have fetched within its interval before
  -- that tick, with the node itself if it is a voter, are fewer than a quorum, in `u64`.
  pub record IsCutOff (n : RaftNode R) : Type 0 where
    pub enabled : n.config.enable_check_quorum ≡ true
    pub due : n.check_quorum_interval_ticks ≤ saturating_add n.check_quorum_elapsed_ticks 1
    pub vs : VoterSet
    pub configured : n.voter_set ≡ some vs
    pub too_few :
        min (self_count vs n.id + heard_from n vs (saturating_add n.logical_tick 1) n.peers) u64_max
        < vs.quorum_size

  count_voters-heard :
      (n : RaftNode R) (vs : VoterSet) (now c : ℕ) (m : PeerMap)
      → c ≤ u64_max
      → count_voters vs (is_recent now n.check_quorum_interval_ticks) c m
        ≡ min (c + heard_from n vs now m) u64_max
  unfolding count_voters
  count_voters-heard n vs now c [] h = omega arith
  count_voters-heard n vs now c ((id, p) ∷ m) h = elim (Bool-cases (has_fetched n vs now id p)) [
    | inl recent ↦
        rw (recent, count_voters-heard n vs now (saturating_add c 1) m (omega arith)) (omega arith)
    | inr stale ↦ rw (stale, count_voters-heard n vs now c m h) refl
  ]

  reachable-heard :
      (n : RaftNode R) (o : Option VoterSet)
      → n.voter_set ≡ o
      → check_quorum_reachable n ≡ false
      → (vs : VoterSet) × (n.voter_set ≡ some vs)
        × (min (self_count vs n.id + heard_from n vs n.logical_tick n.peers) u64_max
            < vs.quorum_size)
  unfolding check_quorum_reachable
  reachable-heard n none e h = absurd (ground arith)
  reachable-heard n (some vs) e h =
      let counted =
        count_voters-heard n vs n.logical_tick (self_count vs n.id) n.peers (ground arith) in
      (vs, e, ground arith)

  heard-unreachable :
      (n : RaftNode R) (vs : VoterSet)
      → n.voter_set ≡ some vs
      → min (self_count vs n.id + heard_from n vs n.logical_tick n.peers) u64_max < vs.quorum_size
      → check_quorum_reachable n ≡ false
  unfolding check_quorum_reachable
  heard-unreachable n vs e few =
      let counted =
        count_voters-heard n vs n.logical_tick (self_count vs n.id) n.peers (ground arith) in
      ground arith

module _ {R : Type 0} ⦃rand : Rand R⦄ where
  lead-no_lease :
      (n m : RaftNode R) (vs : VoterSet)
      → n.voter_set ≡ some vs
      → 1 < vs.quorum_size
      → has_active_lease (with_progress (lead n) m) ≡ false
  unfolding has_active_lease lead lease_reachable
  lead-no_lease n m vs s more =
      let none_yet =
        count_voters-none vs
          (λ peer.
            is_fetched_since n.logical_tick peer
            && is_recent n.logical_tick n.check_quorum_interval_ticks peer)
          (self_count vs n.id) (restart_peer n.logical_tick) n.peers
          (λ peer. unfold restart_peer in ground arith) in
      ground arith

  -- A new leader has no lease yet, unless its own vote is a quorum: fetches from before its election
  -- do not count.
  pub has_active_lease-become_leader :
      (n : RaftNode R) (vs : VoterSet)
      → n.voter_set ≡ some vs
      → 1 < vs.quorum_size
      → has_active_lease (become_leader n).0 ≡ false
  unfolding become_leader
  has_active_lease-become_leader n vs s more =
      rw (advance_and_drain-frame (lead n))
        (lead-no_lease n (advance_and_drain (lead n)).0 vs s more)

  step_down-reachable :
      (n : RaftNode R)
      → is_leader_role n.role ≡ true
      → (is_leader_role (handle_tick n).0.role ≡ false) ↔ (
          (n.config.enable_check_quorum ≡ true)
          × (n.check_quorum_interval_ticks ≤ saturating_add n.check_quorum_elapsed_ticks 1)
          × (check_quorum_reachable (advance_clock n) ≡ false))
  unfolding handle_tick schedule_fetch count_quorum_tick check_timeouts check_election_timeout
      become_follower advance_clock check_quorum_reachable
  step_down-reachable n leads = ground arith

  -- On a tick a leader steps down exactly if Check-Quorum is enabled, its interval is over, there is a
  -- voter set, and the voters that have fetched less than the interval ago, with the leader itself
  -- counted if it is a voter, are fewer than its quorum, counted in `u64`.
  pub handle_tick-check_quorum :
      (n : RaftNode R)
      → is_leader_role n.role ≡ true
      → (is_leader_role (handle_tick n).0.role ≡ false) ↔ IsCutOff n
  unfolding advance_clock
  handle_tick-check_quorum n leads =
      let (there, back) = step_down-reachable n leads in
      (
        λ h.
            let (enabled, due, cut) = there h in
            let (vs, configured, few) = reachable-heard (advance_clock n) n.voter_set refl cut in
            record {
              enabled = enabled;
              due = due;
              vs = vs;
              configured = configured;
              too_few = few;
            },
        λ (c : IsCutOff n).
            back
              (c.enabled, c.due, heard-unreachable (advance_clock n) c.vs c.configured c.too_few),
      )
