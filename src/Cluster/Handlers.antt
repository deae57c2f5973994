-- ===== src/Cluster/Handlers.antt =====
-- The grants and the membership across `step`.
use failover_cluster.Node.Step.{step}
use failover_cluster.Node.Election.Cases.{
  handle_pre_vote_response_cases, handle_vote_response_cases, with_pre_vote, with_vote,
}
use failover_cluster.Node.Snapshot.{
  handle_fetch_snapshot_received, handle_snapshot_complete, handle_snapshot_installed,
}
use failover_cluster.Node.Replicate.Cases.{
  handle_fetch_response_cases, recognise_cases, same_term_cases,
}
use failover_cluster.Node.Fetch.Cases.{
  handle_client_propose_cases, handle_fetch_request_acked_cases, handle_fetch_request_cases,
  with_ack,
}
use failover_cluster.Node.Tick.Cases.{check_timeouts_cases}
use failover_cluster.Leadership.{before_timeouts-frame}
use failover_cluster.Node.Fetch.{append_local, command_entry, note_fetch, route_fetch}
use failover_cluster.Node.Tick.{
  advance_clock, check_timeouts, count_quorum_tick, handle_tick, schedule_fetch,
}
use failover_cluster.Node.Election.{
  adopt_term, answer_vote, cast_vote, decide_vote, handle_pre_vote_request, handle_vote_request,
}
use failover_cluster.Node.Replicate.{
  absorb, handle_fetch_response, hear_leader, recognise, same_term,
}
use failover_cluster.Timer.{Rand}
use failover_cluster.Prelude.{All-append, Bool, List, [], arith, none, refl, some, ℕ, ◌∙◌}
use failover_cluster.Cluster.{NoGrant, Keeps, IsSame}
use failover_cluster.Cluster.Keeps.{
  become_follower-Keeps, become_leader-Keeps, become_candidate-Keeps, become_pre_candidate-Keeps,
  absorb_with-Keeps, schedule_fetch-Keeps, advance_and_drain-Keeps,
}
use failover_cluster.Node.{RaftNode}
use failover_cluster.Node.Roles.{become_follower}
use failover_cluster.Message.{Action, Input, FetchResponse, VoteRequest}

-- Any input but a request for votes.
abbrev pub IsOther : Input → Type 0
IsOther i = elim i [ Input.vote_request req ↦ ⊥ | _ ↦ Unit ]

module _ {R : Type 0} ⦃rand : Rand R⦄ where
  pub handle_vote_request-IsSame :
      (n : RaftNode R) (req : VoteRequest) → IsSame n (handle_vote_request n req).0
  unfolding handle_vote_request answer_vote decide_vote cast_vote adopt_term
  handle_vote_request-IsSame n req = ground arith

  recognise-Keeps : (n : RaftNode R) (leader_id : ℕ) → Keeps n (recognise n leader_id)
  recognise-Keeps n leader_id =
      recognise_cases (Keeps n) n leader_id (λ _. ((refl, refl), tt))
        (λ _. become_follower-Keeps n n.hard_state.current_term (some leader_id))

  same_term-Keeps :
      (n : RaftNode R) (actions : List Action) (resp : FetchResponse)
      → NoGrant actions
      → Keeps n (same_term n actions resp)
  unfolding hear_leader absorb
  same_term-Keeps n actions resp q =
      same_term_cases (Keeps n) n actions resp ((refl, refl), tt)
        λ _.
          let n1 = (recognise n resp.leader_id).0 in
          let (s1, q1) = recognise-Keeps n resp.leader_id in
          let (s2, q2) =
            absorb_with-Keeps (hear_leader n1) resp resp.snapshot_redirect resp.diverging_epoch in
          ((s2.0 ∙ s1.0, s2.1 ∙ s1.1), All-append _ actions _ q (All-append _ _ _ q1 q2))

  handle_fetch_response-Keeps :
      (n : RaftNode R) (resp : FetchResponse) → Keeps n (handle_fetch_response n resp)
  handle_fetch_response-Keeps n resp =
      let stepped = become_follower n resp.leader_epoch (some resp.leader_id) in
      let (s, q) = become_follower-Keeps n resp.leader_epoch (some resp.leader_id) in
      let (s', q') = same_term-Keeps stepped.0 stepped.1 resp q in
      handle_fetch_response_cases (Keeps n) n resp ((refl, refl), tt)
        (λ _. ((s'.0 ∙ s.0, s'.1 ∙ s.1), q')) (λ _. same_term-Keeps n [] resp tt)

  check_timeouts-Keeps : (n : RaftNode R) (due : Bool) → Keeps n (check_timeouts n due)
  check_timeouts-Keeps n due =
      check_timeouts_cases (Keeps n) n due
        (λ _ _. become_follower-Keeps n n.hard_state.current_term none) ((refl, refl), tt)
        (λ _ _. become_pre_candidate-Keeps n)

  handle_tick-Keeps : (n : RaftNode R) → Keeps n (handle_tick n)
  unfolding handle_tick
  handle_tick-Keeps n =
      let counted = count_quorum_tick (schedule_fetch (advance_clock n)).0 in
      let (_, same_voters, same_id) = before_timeouts-frame n in
      let (_, q1) = schedule_fetch-Keeps (advance_clock n) in
      let (s2, q2) = check_timeouts-Keeps counted.0 counted.1 in
      ((s2.0 ∙ same_id, s2.1 ∙ same_voters), All-append _ _ _ q1 q2)

  pub step-Keeps : (n : RaftNode R) (i : Input) → IsOther i → Keeps n (step n i)
  unfolding step handle_pre_vote_request handle_fetch_snapshot_received handle_snapshot_complete
      handle_snapshot_installed append_local note_fetch route_fetch
  step-Keeps n Input.tick o = handle_tick-Keeps n
  step-Keeps n (Input.vote_request req) o = absurd o
  step-Keeps n (Input.vote_response sender resp) o =
      handle_vote_response_cases (Keeps n) n sender resp ((refl, refl), tt)
        (λ _. become_follower-Keeps n resp.term none) (λ _ _. ((refl, refl), tt))
        (λ _ _. become_leader-Keeps (with_vote n sender))
  step-Keeps n (Input.pre_vote_request req) o = ((refl, refl), ground arith)
  step-Keeps n (Input.pre_vote_response sender resp) o =
      handle_pre_vote_response_cases (Keeps n) n sender resp ((refl, refl), tt)
        (λ _. become_follower-Keeps n resp.term none) (λ _ _. ((refl, refl), tt))
        (λ _ _. become_candidate-Keeps (with_pre_vote n sender))
  step-Keeps n (Input.fetch_request req) o =
      handle_fetch_request_cases (Keeps n) n req ((refl, refl), tt)
        (λ _. become_follower-Keeps n req.leader_epoch none) (λ _. ((refl, refl), ground arith))
  step-Keeps n (Input.fetch_response resp) o = handle_fetch_response-Keeps n resp
  step-Keeps n (Input.client_propose bytes) o =
      handle_client_propose_cases (Keeps n) n bytes ((refl, refl), tt)
        λ _.
          let (s, q) = advance_and_drain-Keeps (append_local n (command_entry n bytes)) in
          (s, (refl, q))
  step-Keeps n (Input.fetch_request_acked id offset) o =
      handle_fetch_request_acked_cases (Keeps n) n id offset ((refl, refl), tt)
        (λ _. advance_and_drain-Keeps (with_ack n id offset))
  step-Keeps n (Input.snapshot_complete m) o = ground arith
  step-Keeps n (Input.snapshot_installed m) o = ((refl, refl), tt)
  step-Keeps n (Input.fetch_snapshot_received m bytes) o = ((refl, refl), ground arith)
