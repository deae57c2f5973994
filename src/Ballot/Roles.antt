-- ===== src/Ballot/Roles.antt =====
-- The ballot across the role transitions.
use failover_cluster.Prelude.{ℕ, Option, ◌≡◌, arith, ap, Bool-cases, inl, inr}
use failover_cluster.Timer.{Rand}
use failover_cluster.Node.{RaftNode}
use failover_cluster.Node.Commit.{advance_and_drain}
use failover_cluster.Node.Commit.Frame.{advance_and_drain-frame}
use failover_cluster.Node.Roles.{
  lead, stand, canvass, become_follower, become_leader, become_candidate, become_pre_candidate,
}
use failover_cluster.Node.Quorum.{has_pre_election_quorum}
use failover_cluster.Ballot.{Follows, Follows-refl}

module _ {R : Type 0} where
  pub hard_state-advance_and_drain :
      (n : RaftNode R) → (advance_and_drain n).0.hard_state ≡ n.hard_state
  hard_state-advance_and_drain n = ap (λ m. m.hard_state) (advance_and_drain-frame n)

module _ {R : Type 0} ⦃rand : Rand R⦄ where
  pub become_follower-Follows :
      (n : RaftNode R) (term : ℕ) (leader_id : Option ℕ)
      → Follows n.hard_state (become_follower n term leader_id).0.hard_state
  unfolding become_follower
  become_follower-Follows n term leader_id = record {
    grows = λ l. ground arith;
    kept = λ l e v q. ground arith;
  }

  pub hard_state-become_leader : (n : RaftNode R) → (become_leader n).0.hard_state ≡ n.hard_state
  unfolding become_leader lead
  hard_state-become_leader n = hard_state-advance_and_drain (lead n)

  -- A candidate has the next term and its own vote, leader at once or not.
  pub hard_state-become_candidate :
      (n : RaftNode R) → (become_candidate n).0.hard_state ≡ (stand n).hard_state
  unfolding become_candidate
  hard_state-become_candidate n = ground (arith, hard_state-become_leader (stand n))

  pub become_candidate-Follows :
      (n : RaftNode R) → Follows n.hard_state (become_candidate n).0.hard_state
  unfolding stand
  become_candidate-Follows n =
      rw (hard_state-become_candidate n)
        (record { grows = λ l. omega arith; kept = λ l e v q. absurd (omega arith) })

  pub become_pre_candidate-Follows :
      (n : RaftNode R) → Follows n.hard_state (become_pre_candidate n).0.hard_state
  unfolding become_pre_candidate canvass
  become_pre_candidate-Follows n = elim (Bool-cases (has_pre_election_quorum (canvass n))) [
    | inl all ↦ rw (all, become_pre_candidate) (become_candidate-Follows (canvass n))
    | inr few ↦ rw (few, become_pre_candidate) (Follows-refl n.hard_state)
  ]
