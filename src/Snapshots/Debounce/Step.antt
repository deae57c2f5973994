-- ===== src/Snapshots/Debounce/Step.antt =====
-- The snapshot in flight across `step` and runs of inputs.
use failover_cluster.Node.Election.Cases.{
  handle_pre_vote_response_cases, handle_vote_response_cases, with_pre_vote, with_vote,
}
use failover_cluster.Node.Snapshot.{handle_fetch_snapshot_received}
use failover_cluster.Node.Fetch.Cases.{
  handle_client_propose_cases, handle_fetch_request_acked_cases, handle_fetch_request_cases,
  with_ack,
}
use failover_cluster.Node.Tick.Cases.{check_timeouts_cases}
use failover_cluster.Node.Roles.Cases.{
  become_candidate_cases, become_pre_candidate_cases, pre_vote_actions, vote_actions,
}
use failover_cluster.Node.Fetch.{append_local, command_entry, note_fetch, route_fetch}
use failover_cluster.Node.Tick.{
  advance_clock, check_timeouts, count_quorum_tick, handle_tick, schedule_fetch,
}
use failover_cluster.Node.Election.{
  adopt_term, answer_vote, cast_vote, decide_vote, handle_pre_vote_request, handle_vote_request,
}
use failover_cluster.Node.Replicate.Cases.{
  handle_fetch_response_cases, recognise_cases, same_term_cases,
}
use failover_cluster.Node.Replicate.{
  absorb, handle_fetch_response, hear_leader, recognise, same_term,
}
use failover_cluster.Timer.{Rand}
use failover_cluster.Prelude.{
  All, Bool, List, Option, [], arith, none, refl, some, ℕ, ◌≡◌, ◌∷◌, subst,
}
use failover_cluster.Node.{RaftNode}
use failover_cluster.Node.Step.{step, run}
use failover_cluster.Node.Roles.{
  become_follower, become_candidate, become_leader, become_pre_candidate, canvass, lead, stand,
}
use failover_cluster.Message.{Action, Input, FetchResponse, VoteRequest}
use failover_cluster.Snapshots.Debounce.{
  NoTake, Counts, IsUnended, to_voters-NoTake, advance_and_drain-Counts, absorb_with-Counts,
  schedule_fetch-Counts, in_flight-count_quorum_tick, Counts-NoTake, Counts-after, Counts-append,
}

module _ {R : Type 0} ⦃rand : Rand R⦄ where
  become_follower-Counts :
      (n : RaftNode R) (term : ℕ) (leader_id : Option ℕ)
      → Counts n.snapshot_in_flight (become_follower n term leader_id)
  unfolding become_follower
  become_follower-Counts n term leader_id = ground arith

  become_leader-Counts : (n : RaftNode R) → Counts n.snapshot_in_flight (become_leader n)
  unfolding become_leader lead
  become_leader-Counts n = advance_and_drain-Counts (lead n)

  become_candidate-Counts : (n : RaftNode R) → Counts n.snapshot_in_flight (become_candidate n)
  unfolding stand
  become_candidate-Counts n =
      let asks : NoTake (vote_actions n) = (refl, to_voters-NoTake _ _) in
      become_candidate_cases (Counts n.snapshot_in_flight) n
        (λ _. Counts-NoTake n.snapshot_in_flight (vote_actions n) asks)
        λ _.
          Counts-after n.snapshot_in_flight _ (vote_actions n) _ asks
            (become_leader-Counts (stand n))

  become_pre_candidate-Counts :
      (n : RaftNode R) → Counts n.snapshot_in_flight (become_pre_candidate n)
  unfolding canvass
  become_pre_candidate-Counts n =
      let asks : NoTake (pre_vote_actions n) = to_voters-NoTake _ _ in
      become_pre_candidate_cases (Counts n.snapshot_in_flight) n
        (λ _. Counts-NoTake n.snapshot_in_flight (pre_vote_actions n) asks)
        λ _.
          Counts-after n.snapshot_in_flight _ (pre_vote_actions n) _ asks
            (become_candidate-Counts (canvass n))

  handle_vote_request-Counts :
      (n : RaftNode R) (req : VoteRequest) → Counts n.snapshot_in_flight (handle_vote_request n req)
  unfolding handle_vote_request answer_vote decide_vote cast_vote adopt_term
  handle_vote_request-Counts n req = ground arith

  recognise-Counts :
      (n : RaftNode R) (leader_id : ℕ) → Counts n.snapshot_in_flight (recognise n leader_id)
  recognise-Counts n leader_id =
      recognise_cases (Counts n.snapshot_in_flight) n leader_id (λ _. omega arith)
        (λ _. become_follower-Counts n n.hard_state.current_term (some leader_id))

  -- Behind actions that lead to `n`.
  same_term-Counts :
      (b : Bool) (n : RaftNode R) (actions : List Action) (resp : FetchResponse)
      → Counts b (n, actions)
      → Counts b (n, [])
      → Counts b (same_term n actions resp)
  unfolding hear_leader absorb
  same_term-Counts b n actions resp h z = same_term_cases (Counts b) n actions resp z λ _.
      let heard = hear_leader (recognise n resp.leader_id).0 in
      Counts-append b n.snapshot_in_flight _ actions _ h (
        Counts-append n.snapshot_in_flight (recognise n resp.leader_id).0.snapshot_in_flight _
          (recognise n resp.leader_id).1 _ (recognise-Counts n resp.leader_id)
          (absorb_with-Counts heard resp resp.snapshot_redirect resp.diverging_epoch))

  become_follower-in_flight :
      (n : RaftNode R) (term : ℕ) (leader_id : Option ℕ)
      → (become_follower n term leader_id).0.snapshot_in_flight ≡ n.snapshot_in_flight
  unfolding become_follower
  become_follower-in_flight n term leader_id = ground arith

  handle_fetch_response-Counts :
      (n : RaftNode R) (resp : FetchResponse)
      → Counts n.snapshot_in_flight (handle_fetch_response n resp)
  handle_fetch_response-Counts n resp =
      let same = become_follower-in_flight n resp.leader_epoch (some resp.leader_id) in
      handle_fetch_response_cases (Counts n.snapshot_in_flight) n resp (omega arith)
        (λ _.
          same_term-Counts n.snapshot_in_flight _ _ resp
            (become_follower-Counts n resp.leader_epoch (some resp.leader_id))
            (rw same (omega arith)))
        (λ _. same_term-Counts n.snapshot_in_flight n [] resp (omega arith) (omega arith))

  check_timeouts-Counts :
      (n : RaftNode R) (due : Bool) → Counts n.snapshot_in_flight (check_timeouts n due)
  check_timeouts-Counts n due =
      check_timeouts_cases (Counts n.snapshot_in_flight) n due
        (λ _ _. become_follower-Counts n n.hard_state.current_term none) (omega arith)
        (λ _ _. become_pre_candidate-Counts n)

  handle_tick-Counts : (n : RaftNode R) → Counts n.snapshot_in_flight (handle_tick n)
  unfolding handle_tick advance_clock
  handle_tick-Counts n =
      let fetched = schedule_fetch (advance_clock n) in
      let counted = count_quorum_tick fetched.0 in
      Counts-append n.snapshot_in_flight fetched.0.snapshot_in_flight _ fetched.1 _
        (schedule_fetch-Counts (advance_clock n))
        (subst (λ b. Counts b (check_timeouts counted.0 counted.1))
          (in_flight-count_quorum_tick fetched.0) (check_timeouts-Counts counted.0 counted.1))

  pub step-Counts :
      (n : RaftNode R) (i : Input) → IsUnended i → Counts n.snapshot_in_flight (step n i)
  unfolding step handle_pre_vote_request handle_fetch_snapshot_received append_local note_fetch
      route_fetch
  step-Counts n Input.tick u = handle_tick-Counts n
  step-Counts n (Input.vote_request req) u = handle_vote_request-Counts n req
  step-Counts n (Input.vote_response sender resp) u =
      handle_vote_response_cases (Counts n.snapshot_in_flight) n sender resp (omega arith)
        (λ _. become_follower-Counts n resp.term none) (λ _ _. omega arith)
        (λ _ _. become_leader-Counts (with_vote n sender))
  step-Counts n (Input.pre_vote_request req) u = ground arith
  step-Counts n (Input.pre_vote_response sender resp) u =
      handle_pre_vote_response_cases (Counts n.snapshot_in_flight) n sender resp (omega arith)
        (λ _. become_follower-Counts n resp.term none) (λ _ _. omega arith)
        (λ _ _. become_candidate-Counts (with_pre_vote n sender))
  step-Counts n (Input.fetch_request req) u =
      handle_fetch_request_cases (Counts n.snapshot_in_flight) n req (omega arith)
        (λ _. become_follower-Counts n req.leader_epoch none) (λ _. ground arith)
  step-Counts n (Input.fetch_response resp) u = handle_fetch_response-Counts n resp
  step-Counts n (Input.client_propose bytes) u =
      handle_client_propose_cases (Counts n.snapshot_in_flight) n bytes (omega arith)
        λ _. advance_and_drain-Counts (append_local n (command_entry n bytes))
  step-Counts n (Input.fetch_request_acked id offset) u =
      handle_fetch_request_acked_cases (Counts n.snapshot_in_flight) n id offset (omega arith)
        (λ _. advance_and_drain-Counts (with_ack n id offset))
  step-Counts n (Input.snapshot_complete m) u = absurd u
  step-Counts n (Input.snapshot_installed m) u = absurd u
  step-Counts n (Input.fetch_snapshot_received m bytes) u = ground arith

  -- Over a run in which no snapshot ends, the snapshots in flight at the start, none or one, and the
  -- `TakeSnapshot` actions together are the snapshots in flight at the end, none or one: a snapshot
  -- that is started is in flight from then on, and no second one is started.
  pub run-Counts :
      (n : RaftNode R) (is : List Input) → All IsUnended is → Counts n.snapshot_in_flight (run n is)
  unfolding run
  run-Counts n [] u = omega arith
  run-Counts n (i ∷ is) u =
      Counts-append n.snapshot_in_flight (step n i).0.snapshot_in_flight _ (step n i).1 _
        (step-Counts n i u.0) (run-Counts (step n i).0 is u.1)
