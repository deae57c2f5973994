-- ===== src/Cluster/Keeps.antt =====
-- The grants and the membership across the parts of a step.
use failover_cluster.Types.{is_fetching}
use failover_cluster.Node.Tick.{
  fetch_actions, fetch_from_all, maybe_build_fetch_request, schedule_fetch, stamp_if_sent,
}
use failover_cluster.Node.Roles.Cases.{
  become_candidate_cases, become_pre_candidate_cases, pre_vote_actions, vote_actions,
}
use failover_cluster.Node.Commit.Cases.{advance_and_drain_cases}
use failover_cluster.Node.Commit.{advance_and_drain, drain_apply_pipeline}
use failover_cluster.Node.Replicate.Cases.{accept_entries_cases, propagate_cases}
use failover_cluster.Node.Replicate.{
  absorb_with, accept_entries, append_batch, commit_accepted, propagate,
}
use failover_cluster.Timer.{Rand}
use failover_cluster.Peers.{PeerMap}
use failover_cluster.Prelude.{
  All-append, List, Option, [], arith, false, if_elim, min, none, refl, some, ℕ, ◌≡◌, ◌∷◌,
}
use failover_cluster.Cluster.{NoGrant, Keeps, IsSame, is_grant}
use failover_cluster.Node.{RaftNode}
use failover_cluster.Node.Roles.{
  become_follower, become_candidate, become_leader, become_pre_candidate, canvass, lead, stand,
  to_voters,
}
use failover_cluster.Message.{
  Action, OutboundMessage, DivergingEpoch, Entry, FetchRequest, FetchResponse, SnapshotRedirect,
}

pub to_voters-NoGrant :
    (m : OutboundMessage) (peers : PeerMap)
    → is_grant (Action.send_message 0 m) ≡ false
    → NoGrant (to_voters m peers)
unfolding to_voters
to_voters-NoGrant m [] h = tt
to_voters-NoGrant m ((id, p) ∷ rest) h = ground (arith, to_voters-NoGrant m rest h)

fetch_from_all-NoGrant :
    (id : ℕ) (req : FetchRequest) (peers : PeerMap) → NoGrant (fetch_from_all id req peers)
unfolding fetch_from_all
fetch_from_all-NoGrant id req [] = tt
fetch_from_all-NoGrant id req ((j, p) ∷ rest) = ground (arith, fetch_from_all-NoGrant id req rest)

module _ {R : Type 0} where
  drain_apply_pipeline-Keeps : (n : RaftNode R) → Keeps n (drain_apply_pipeline n)
  unfolding drain_apply_pipeline
  drain_apply_pipeline-Keeps n = ground arith

  pub advance_and_drain-Keeps : (n : RaftNode R) → Keeps n (advance_and_drain n)
  advance_and_drain-Keeps n =
      advance_and_drain_cases (Keeps n) n ((refl, refl), tt)
        (λ c _. drain_apply_pipeline-Keeps (record n { commit_index = c }))

  propagate-Keeps : (n : RaftNode R) (high_watermark : ℕ) → Keeps n (propagate n high_watermark)
  propagate-Keeps n high_watermark =
      propagate_cases (Keeps n) n high_watermark ((refl, refl), tt)
        (λ _.
          drain_apply_pipeline-Keeps
            (record n { commit_index = min high_watermark n.last_log_index }))

  commit_accepted-Keeps :
      (n : RaftNode R) (es : List Entry) (high_watermark : ℕ)
      → Keeps n (commit_accepted n (accept_entries n es) high_watermark)
  unfolding commit_accepted
  commit_accepted-Keeps n [] high_watermark =
      unfold accept_entries in propagate-Keeps n high_watermark
  commit_accepted-Keeps n (e ∷ es) high_watermark =
      accept_entries_cases n (λ o. Keeps n (commit_accepted n o high_watermark)) e es
        ((refl, refl), tt)
        λ _ _.
          let (same, q) = propagate-Keeps (append_batch n e es) high_watermark in (same, (refl, q))

  pub absorb_with-Keeps :
      (n : RaftNode R) (resp : FetchResponse) (r : Option SnapshotRedirect)
      (de : Option DivergingEpoch)
      → Keeps n (absorb_with n resp r de)
  unfolding absorb_with
  absorb_with-Keeps n resp (some r) de = ((refl, refl), (refl, tt))
  absorb_with-Keeps n resp none (some de) = ((refl, refl), (refl, (refl, tt)))
  absorb_with-Keeps n resp none none = commit_accepted-Keeps n resp.entries resp.high_watermark

  pub schedule_fetch-Keeps : (n : RaftNode R) → Keeps n (schedule_fetch n)
  unfolding schedule_fetch
  schedule_fetch-Keeps n =
      if_elim (λ (r : RaftNode R × List Action). Keeps n r) (is_fetching n.role)
        (λ _. (
          kept (fetch_actions n (maybe_build_fetch_request n) n.leader_id),
          quiet (maybe_build_fetch_request n) n.leader_id,
        ))
        (λ _. ((refl, refl), tt))
    where
      kept : (actions : List Action) → IsSame n (stamp_if_sent n actions)
      kept [] = (refl, refl)
      kept (a ∷ rest) = (refl, refl)

      quiet :
          (req : Option FetchRequest) (leader_id : Option ℕ)
          → NoGrant (fetch_actions n req leader_id)
      quiet none leader_id = unfold fetch_actions in tt
      quiet (some req) (some leader_id) = unfold fetch_actions in (refl, tt)
      quiet (some req) none = unfold fetch_actions in fetch_from_all-NoGrant n.id req n.peers

module _ {R : Type 0} ⦃rand : Rand R⦄ where
  pub become_follower-Keeps :
      (n : RaftNode R) (term : ℕ) (leader_id : Option ℕ)
      → Keeps n (become_follower n term leader_id)
  unfolding become_follower
  become_follower-Keeps n term leader_id = ground arith

  pub become_leader-Keeps : (n : RaftNode R) → Keeps n (become_leader n)
  unfolding become_leader lead
  become_leader-Keeps n =
      let (same, q) = advance_and_drain-Keeps (lead n) in (same, (refl, (refl, q)))

  pub become_candidate-Keeps : (n : RaftNode R) → Keeps n (become_candidate n)
  unfolding stand
  become_candidate-Keeps n =
      let asks : NoGrant (vote_actions n) = (refl, to_voters-NoGrant _ _ refl) in
      become_candidate_cases (Keeps n) n (λ _. ((refl, refl), asks))
        λ _.
          let (same, q) = become_leader-Keeps (stand n) in
          (same, All-append _ (vote_actions n) _ asks q)

  pub become_pre_candidate-Keeps : (n : RaftNode R) → Keeps n (become_pre_candidate n)
  unfolding canvass
  become_pre_candidate-Keeps n =
      let asks : NoGrant (pre_vote_actions n) = to_voters-NoGrant _ _ refl in
      become_pre_candidate_cases (Keeps n) n (λ _. ((refl, refl), asks))
        λ _.
          let (same, q) = become_candidate-Keeps (canvass n) in
          (same, All-append _ (pre_vote_actions n) _ asks q)
