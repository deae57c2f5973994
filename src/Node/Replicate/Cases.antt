-- ===== src/Node/Replicate/Cases.antt =====
-- The ways through the follower's fetch handler.
use failover_cluster.Types.{is_fetching, is_leader_role}
use failover_cluster.Node.Commit.{drain_apply_pipeline}
use failover_cluster.Node.Roles.{become_follower}
use failover_cluster.Node.Replicate.{
  absorb, accept_entries, append_batch, handle_fetch_response, hear_leader, is_batch_after,
  is_other_leader, or_leader, propagate, recognise, same_term,
}
use failover_cluster.Timer.{Rand}
use failover_cluster.Node.{RaftNode, is_known_voter}
use failover_cluster.Message.{Action, Entry, FetchResponse, append_entries}
use failover_cluster.Prelude.{
  ℕ, true, false, ◌≡◌, List, Option, [], arith, if_elim, ltb, min, none, not, saturating_add, some,
  str_eq, ◌∷◌, ◌==◌, ◌&&◌, ◌++◌, ◌<◌,
}

module _ {R : Type 0} (n : RaftNode R) where
  pub accept_entries_cases {κ} :
      (Q : Option (RaftNode R × List Action) → Type κ) (e : Entry) (es : List Entry)
      → Q none
      → (e.index ≡ saturating_add n.last_log_index 1
          → is_batch_after e es ≡ true
          → Q (some (append_batch n e es, append_entries (e ∷ es) ∷ [])))
      → Q (accept_entries n (e ∷ es))
  unfolding accept_entries
  accept_entries_cases Q e es dropped accepted =
      if_elim Q (e.index == saturating_add n.last_log_index 1 && is_batch_after e es)
        (λ h. accepted (ground arith) (ground arith)) (λ _. dropped)

module _ {ℓ} {R : Type 0} (P : RaftNode R × List Action → Type ℓ) (n : RaftNode R) where
  pub propagate_cases :
      (high_watermark : ℕ)
      → P (n, [])
      → (n.commit_index < min high_watermark n.last_log_index
          → P (
              drain_apply_pipeline
                (record n { commit_index = min high_watermark n.last_log_index })))
      → P (propagate n high_watermark)
  unfolding propagate
  propagate_cases high_watermark same raised =
      if_elim P (ltb n.commit_index (min high_watermark n.last_log_index))
        (λ h. raised (ground arith)) (λ _. same)

module _ {ℓ} {R : Type 0} ⦃rand : Rand R⦄ (P : RaftNode R × List Action → Type ℓ) where
  pub recognise_cases :
      (n : RaftNode R) (leader_id : ℕ)
      → (is_fetching n.role ≡ true
          → P (record n { leader_id = or_leader n.leader_id leader_id }, []))
      → (is_fetching n.role ≡ false
          → P (become_follower n n.hard_state.current_term (some leader_id)))
      → P (recognise n leader_id)
  unfolding recognise
  recognise_cases n leader_id hinted yielded = if_elim P (is_fetching n.role) hinted yielded

  pub same_term_cases :
      (n : RaftNode R) (actions : List Action) (resp : FetchResponse)
      → P (n, [])
      → (is_leader_role n.role ≡ false
          → let (n1, stepped) = recognise n resp.leader_id in
            let (n2, absorbed) = absorb (hear_leader n1) resp in
            P (n2, actions ++ (stepped ++ absorbed)))
      → P (same_term n actions resp)
  unfolding same_term
  same_term_cases n actions resp fenced heard =
      if_elim P (is_leader_role n.role) (λ _. fenced)
        λ follows.
          if_elim P (is_other_leader n.leader_id resp.leader_id) (λ _. fenced) λ _. heard follows

  pub handle_fetch_response_cases :
      (n : RaftNode R) (resp : FetchResponse)
      → P (n, [])
      → (ltb n.hard_state.current_term resp.leader_epoch ≡ true
          → let (n', adopted) = become_follower n resp.leader_epoch (some resp.leader_id) in
            P (same_term n' adopted resp))
      → (n.hard_state.current_term ≡ resp.leader_epoch → P (same_term n [] resp))
      → P (handle_fetch_response n resp)
  unfolding handle_fetch_response
  handle_fetch_response_cases n resp dropped newer same =
      if_elim P (not (str_eq resp.cluster_id n.config.cluster_id)) (λ _. dropped)
        λ _.
          if_elim P (not resp.is_leader) (λ _. dropped)
            λ _.
              if_elim P (not (is_known_voter n resp.leader_id)) (λ _. dropped)
                λ _. if_elim P (ltb n.hard_state.current_term resp.leader_epoch) newer λ old.
                  if_elim P (ltb resp.leader_epoch n.hard_state.current_term) (λ _. dropped)
                    λ stale. same (ground arith)
