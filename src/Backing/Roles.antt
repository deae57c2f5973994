-- ===== src/Backing/Roles.antt =====
-- The backing across the role transitions.
use failover_cluster.Node.Roles.Cases.{become_candidate_cases, become_pre_candidate_cases}
use failover_cluster.Node.Commit.Frame.{advance_and_drain-frame}
use failover_cluster.Node.Commit.{advance_and_drain}
use failover_cluster.Leadership.{Reaches-quorum}
use failover_cluster.Timer.{Rand}
use failover_cluster.Node.{RaftNode}
use failover_cluster.Prelude.{Option, [], arith, refl, ℕ, ◌∷◌}
use failover_cluster.Backing.{Inv, Tally}
use failover_cluster.Node.Roles.{
  become_leader, become_candidate, become_follower, become_pre_candidate, canvass, lead, stand,
}

module _ {R : Type 0} (J : ℕ → ℕ → Type 0) where
  pub advance_and_drain-Inv : (n : RaftNode R) → Inv J n → Inv J (advance_and_drain n).0
  advance_and_drain-Inv n v = rw (advance_and_drain-frame n) v

module _ {R : Type 0} ⦃rand : Rand R⦄ (J : ℕ → ℕ → Type 0) where
  pub become_leader-Inv :
      (n : RaftNode R) → Tally J n.voter_set n.hard_state.current_term → Inv J (become_leader n).0
  unfolding become_leader lead
  become_leader-Inv n tally =
      advance_and_drain-Inv J (lead n)
        (record { distinct = tt; standing = λ s. absurd (ground arith); leading = λ _. tally })

  pub become_follower-Inv :
      (n : RaftNode R) (term : ℕ) (leader_id : Option ℕ)
      → Inv J (become_follower n term leader_id).0
  unfolding become_follower
  become_follower-Inv n term leader_id = record {
    distinct = tt;
    standing = λ s. absurd (ground arith);
    leading = λ l. absurd (ground arith);
  }

  pub become_candidate-Inv : (n : RaftNode R) → ((t : ℕ) → J t n.id) → Inv J (become_candidate n).0
  unfolding stand failover_cluster.Votes.insert
  become_candidate-Inv n own =
      become_candidate_cases (λ r. Inv J r.0) n
        (λ _. record {
          distinct = (refl, tt);
          standing = λ _. (own _, tt);
          leading = λ l. absurd (ground arith);
        })
        (λ all.
          become_leader-Inv (stand n)
            (n.id ∷ [], (refl, tt), Reaches-quorum (stand n) all, (own _, tt)))

  pub become_pre_candidate-Inv :
      (n : RaftNode R) → ((t : ℕ) → J t n.id) → Inv J (become_pre_candidate n).0
  unfolding canvass
  become_pre_candidate-Inv n own =
      become_pre_candidate_cases (λ r. Inv J r.0) n
        (λ _. record {
          distinct = tt;
          standing = λ s. absurd (ground arith);
          leading = λ l. absurd (ground arith);
        })
        (λ _. become_candidate-Inv (canvass n) own)
