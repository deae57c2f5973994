-- ===== src/Candidacy/Roles.antt =====
-- The votes across the role transitions.
use failover_cluster.Node.Quorum.Intersection.{insert-IsDistinct}
use failover_cluster.Node.Roles.Cases.{become_candidate_cases, become_pre_candidate_cases}
use failover_cluster.Node.Commit.Frame.{advance_and_drain-frame}
use failover_cluster.Node.Commit.{advance_and_drain}
use failover_cluster.Timer.{Rand}
use failover_cluster.Node.{RaftNode}
use failover_cluster.Prelude.{Option, [], arith, refl, some, ℕ, ◌≡◌}
use failover_cluster.Candidacy.{Inv}
use failover_cluster.Node.Roles.{
  become_leader, become_candidate, become_follower, become_pre_candidate, canvass, lead, stand,
}

module _ {R : Type 0} where
  pub advance_and_drain-Inv : (n : RaftNode R) → Inv n → Inv (advance_and_drain n).0
  advance_and_drain-Inv n v = rw (advance_and_drain-frame n) v

module _ {R : Type 0} ⦃rand : Rand R⦄ where
  pub become_leader-Inv :
      (n : RaftNode R) → n.hard_state.voted_for ≡ some n.id → Inv (become_leader n).0
  unfolding become_leader lead
  become_leader-Inv n voted = advance_and_drain-Inv (lead n) (record {
    votes_distinct = tt;
    pre_votes_distinct = tt;
    self_voted = λ _. voted;
    led = λ _. refl;
  })

  pub become_follower-Inv :
      (n : RaftNode R) (term : ℕ) (leader_id : Option ℕ) → Inv (become_follower n term leader_id).0
  unfolding become_follower
  become_follower-Inv n term leader_id = record {
    votes_distinct = tt;
    pre_votes_distinct = tt;
    self_voted = λ s. absurd (ground arith);
    led = λ l. absurd (ground arith);
  }

  pub become_candidate-Inv : (n : RaftNode R) → Inv (become_candidate n).0
  unfolding stand
  become_candidate-Inv n =
      become_candidate_cases (λ r. Inv r.0) n
        (λ _. record {
          votes_distinct = insert-IsDistinct n.id [] tt;
          pre_votes_distinct = tt;
          self_voted = λ _. refl;
          led = λ l. absurd (ground arith);
        })
        (λ _. become_leader-Inv (stand n) refl)

  pub become_pre_candidate-Inv : (n : RaftNode R) → Inv (become_pre_candidate n).0
  unfolding canvass
  become_pre_candidate-Inv n =
      become_pre_candidate_cases (λ r. Inv r.0) n
        (λ _. record {
          votes_distinct = tt;
          pre_votes_distinct = insert-IsDistinct n.id [] tt;
          self_voted = λ s. absurd (ground arith);
          led = λ l. absurd (ground arith);
        })
        (λ _. become_candidate-Inv (canvass n))
