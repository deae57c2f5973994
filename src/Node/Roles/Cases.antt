-- ===== src/Node/Roles/Cases.antt =====
-- The two ways through each cascade: the quorum is there at once, or it is not.
use failover_cluster.Prelude.{true, false, ◌≡◌, List, ◌∷◌, ◌++◌, if_elim}
use failover_cluster.Message.{Action, persist_hard_state, OutboundMessage}
use failover_cluster.Timer.{Rand}
use failover_cluster.Node.{RaftNode}
use failover_cluster.Node.Quorum.{has_election_quorum, has_pre_election_quorum}
use failover_cluster.Node.Roles.{
  stand, canvass, become_leader, become_candidate, become_pre_candidate, to_voters, vote_request_of,
  pre_vote_request_of,
}

module _ {R : Type 0} ⦃rand : Rand R⦄ where
  -- What a new candidate sends, once its hard state is durable.
  abbrev pub vote_actions : RaftNode R → List Action
  vote_actions n =
      persist_hard_state
      ∷ to_voters (OutboundMessage.vote_request (vote_request_of (stand n))) (stand n).peers

  abbrev pub pre_vote_actions : RaftNode R → List Action
  pre_vote_actions n =
      to_voters (OutboundMessage.pre_vote_request (pre_vote_request_of (canvass n)))
        (canvass n).peers

  pub become_candidate_cases {ℓ} :
      (P : RaftNode R × List Action → Type ℓ) (n : RaftNode R)
      → (has_election_quorum (stand n) ≡ false → P (stand n, vote_actions n))
      → (has_election_quorum (stand n) ≡ true
          → P ((become_leader (stand n)).0, vote_actions n ++ (become_leader (stand n)).1))
      → P (become_candidate n)
  unfolding become_candidate
  become_candidate_cases P n few all = if_elim P _ all few

  pub become_pre_candidate_cases {ℓ} :
      (P : RaftNode R × List Action → Type ℓ) (n : RaftNode R)
      → (has_pre_election_quorum (canvass n) ≡ false → P (canvass n, pre_vote_actions n))
      → (has_pre_election_quorum (canvass n) ≡ true
          → P (
            (become_candidate (canvass n)).0,
            pre_vote_actions n ++ (become_candidate (canvass n)).1,
          ))
      → P (become_pre_candidate n)
  unfolding become_pre_candidate
  become_pre_candidate_cases P n few all = if_elim P _ all few
