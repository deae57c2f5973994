-- ===== src/Node/Tick/Cases.antt =====
-- The ways through a tick's timeouts.
use failover_cluster.Node.Quorum.{check_quorum_reachable}
use failover_cluster.Node.Tick.{check_election_timeout, check_timeouts, is_electable}
use failover_cluster.Node.Roles.{become_follower, become_pre_candidate}
use failover_cluster.Timer.{Rand, is_expired}
use failover_cluster.Node.{RaftNode}
use failover_cluster.Message.{Action}
use failover_cluster.Prelude.{true, false, ◌≡◌, Bool, List, [], arith, if_elim, none, not, ◌&&◌}

module _ {ℓ} {R : Type 0} ⦃rand : Rand R⦄ (P : RaftNode R × List Action → Type ℓ)
    (n : RaftNode R) where
  pub check_election_timeout_cases :
      P (n, [])
      → (is_expired n.election_timer ≡ true
          → is_electable n.role ≡ true
          → P (become_pre_candidate n))
      → P (check_election_timeout n)
  unfolding check_election_timeout
  check_election_timeout_cases waits expired =
      if_elim P (is_expired n.election_timer && is_electable n.role)
        (λ h. expired (ground arith) (ground arith)) (λ _. waits)

  pub check_timeouts_cases :
      (due : Bool)
      → (due ≡ true
          → check_quorum_reachable n ≡ false
          → P (become_follower n n.hard_state.current_term none))
      → P (n, [])
      → (is_expired n.election_timer ≡ true
          → is_electable n.role ≡ true
          → P (become_pre_candidate n))
      → P (check_timeouts n due)
  unfolding check_timeouts
  check_timeouts_cases due cut_off waits expired =
      if_elim P (due && not (check_quorum_reachable n)) (λ h. cut_off (ground arith) (ground arith))
        (λ _. check_election_timeout_cases waits expired)
