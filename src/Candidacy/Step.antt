-- ===== src/Candidacy/Step.antt =====
-- The votes across `step` and runs of inputs.
use failover_cluster.Node.Step.{run, step}
use failover_cluster.Node.Quorum.Intersection.{insert-IsDistinct}
use failover_cluster.Node.Snapshot.{
  handle_snapshot_complete, handle_snapshot_installed, is_snapshot_meta_newer,
}
use failover_cluster.Node.Replicate.Cases.{
  handle_fetch_response_cases, recognise_cases, same_term_cases,
}
use failover_cluster.Node.Fetch.Cases.{
  handle_client_propose_cases, handle_fetch_request_acked_cases, handle_fetch_request_cases,
  with_ack,
}
use failover_cluster.Node.Tick.Cases.{check_timeouts_cases}
use failover_cluster.Node.Fetch.{
  append_local, command_entry, handle_client_propose, handle_fetch_request,
  handle_fetch_request_acked, note_fetch,
}
use failover_cluster.Node.Election.Cases.{
  answer_vote_cases, handle_pre_vote_response_cases, handle_vote_request_cases,
  handle_vote_response_cases, with_pre_vote, with_vote,
}
use failover_cluster.Node.Tick.{
  advance_clock, count_quorum_tick, fetch_actions, handle_tick, maybe_build_fetch_request,
  schedule_fetch, stamp_if_sent,
}
use failover_cluster.Node.Election.{
  adopt_term, cast_vote, decide_vote, grants_vote, handle_pre_vote_response, handle_vote_request,
  handle_vote_response,
}
use failover_cluster.Node.Replicate.Frame.{absorb-frame}
use failover_cluster.Node.Replicate.{
  absorb, handle_fetch_response, hear_leader, recognise, same_term,
}
use failover_cluster.Types.{SnapshotMeta, is_fetching, is_leader_role}
use failover_cluster.Timer.{Rand}
use failover_cluster.Node.{RaftNode}
use failover_cluster.Prelude.{
  Bool, List, [], arith, false, if_elim, leb, none, saturating_add, some, true, ℕ, ◌∷◌, ◌&&◌,
}
use failover_cluster.Message.{
  Action, FetchRequest, FetchResponse, Input, PreVoteResponse, VoteRequest, VoteResponse,
}
use failover_cluster.Candidacy.{Inv}
use failover_cluster.Candidacy.Roles.{
  advance_and_drain-Inv, become_leader-Inv, become_follower-Inv, become_candidate-Inv,
  become_pre_candidate-Inv,
}

module _ {R : Type 0} where
  absorb-Inv : (n : RaftNode R) (resp : FetchResponse) → Inv n → Inv (absorb n resp).0
  absorb-Inv n resp v = rw (absorb-frame n resp) v

  schedule_fetch-Inv : (n : RaftNode R) → Inv n → Inv (schedule_fetch n).0
  unfolding schedule_fetch
  schedule_fetch-Inv n v =
      if_elim (λ (r : RaftNode R × List Action). Inv r.0) (is_fetching n.role)
        (λ _. stamped (fetch_actions n (maybe_build_fetch_request n) n.leader_id)) (λ _. v)
    where
      stamped : (actions : List Action) → Inv (stamp_if_sent n actions)
      stamped [] = v
      stamped (a ∷ rest) = v

  count_quorum_tick-Inv : (n : RaftNode R) → Inv n → Inv (count_quorum_tick n).0
  unfolding count_quorum_tick
  count_quorum_tick-Inv n v =
      if_elim (λ (r : RaftNode R × Bool). Inv r.0)
        (is_leader_role n.role && n.config.enable_check_quorum)
        (λ _.
          if_elim (λ (r : RaftNode R × Bool). Inv r.0)
            (leb n.check_quorum_interval_ticks (saturating_add n.check_quorum_elapsed_ticks 1))
            (λ _. v) (λ _. v))
        (λ _. v)

  handle_snapshot_complete-Inv :
      (n : RaftNode R) (m : SnapshotMeta) → Inv n → Inv (handle_snapshot_complete n m).0
  unfolding handle_snapshot_complete
  handle_snapshot_complete-Inv n m v =
      if_elim (λ (r : RaftNode R × List Action). Inv r.0)
        (is_snapshot_meta_newer n.last_snapshot_meta m) (λ _. v) (λ _. v)

  handle_fetch_request_acked-Inv :
      (n : RaftNode R) (replica_id offset : ℕ)
      → Inv n
      → Inv (handle_fetch_request_acked n replica_id offset).0
  handle_fetch_request_acked-Inv n replica_id offset v =
      handle_fetch_request_acked_cases (λ r. Inv r.0) n replica_id offset v
        λ _. advance_and_drain-Inv (with_ack n replica_id offset) v

  handle_client_propose-Inv :
      (n : RaftNode R) (bytes : List ℕ) → Inv n → Inv (handle_client_propose n bytes).0
  unfolding append_local
  handle_client_propose-Inv n bytes v =
      handle_client_propose_cases (λ r. Inv r.0) n bytes v
        λ _. advance_and_drain-Inv (append_local n (command_entry n bytes)) v

module _ {R : Type 0} ⦃rand : Rand R⦄ where
  adopt_term-Inv : (n : RaftNode R) (term : ℕ) → Inv (adopt_term n term)
  unfolding adopt_term
  adopt_term-Inv n term = record {
    votes_distinct = tt;
    pre_votes_distinct = tt;
    self_voted = λ s. absurd (ground arith);
    led = λ l. absurd (ground arith);
  }

  -- A candidate or leader is not free to vote for another.
  decide_vote-Inv :
      (n : RaftNode R) (req : VoteRequest) (newer stepped_down : Bool)
      → Inv n
      → Inv (decide_vote n req newer stepped_down).0
  unfolding decide_vote cast_vote grants_vote
  decide_vote-Inv n req newer stepped_down v = record {
    votes_distinct = ground (arith, v.votes_distinct);
    pre_votes_distinct = ground (arith, v.pre_votes_distinct);
    self_voted = λ s. ground (arith, v.self_voted);
    led = λ l. ground (arith, v.led);
  }

  handle_vote_request-Inv :
      (n : RaftNode R) (req : VoteRequest) → Inv n → Inv (handle_vote_request n req).0
  handle_vote_request-Inv n req v =
      handle_vote_request_cases (λ r. Inv r.0) n req v (λ _. v)
        λ _ _.
          answer_vote_cases (λ r. Inv r.0) n req
            (λ _. decide_vote-Inv (adopt_term n req.term) req true _ (adopt_term-Inv n req.term))
            (λ _. decide_vote-Inv n req false false v)

  handle_vote_response-Inv :
      (n : RaftNode R) (sender : ℕ) (resp : VoteResponse)
      → Inv n
      → Inv (handle_vote_response n sender resp).0
  handle_vote_response-Inv n sender resp v =
      handle_vote_response_cases (λ r. Inv r.0) n sender resp v
        (λ _. become_follower-Inv n resp.term none)
        (λ _ _. record {
          votes_distinct = insert-IsDistinct sender n.votes_received v.votes_distinct;
          pre_votes_distinct = v.pre_votes_distinct;
          self_voted = v.self_voted;
          led = v.led;
        })
        (λ c _. become_leader-Inv (with_vote n sender) (v.self_voted (ground (arith, c.standing))))

  handle_pre_vote_response-Inv :
      (n : RaftNode R) (sender : ℕ) (resp : PreVoteResponse)
      → Inv n
      → Inv (handle_pre_vote_response n sender resp).0
  handle_pre_vote_response-Inv n sender resp v =
      handle_pre_vote_response_cases (λ r. Inv r.0) n sender resp v
        (λ _. become_follower-Inv n resp.term none)
        (λ _ _. record {
          votes_distinct = v.votes_distinct;
          pre_votes_distinct = insert-IsDistinct sender n.pre_votes_received v.pre_votes_distinct;
          self_voted = v.self_voted;
          led = v.led;
        })
        (λ _ _. become_candidate-Inv (with_pre_vote n sender))

  handle_fetch_request-Inv :
      (n : RaftNode R) (req : FetchRequest) → Inv n → Inv (handle_fetch_request n req).0
  unfolding note_fetch
  handle_fetch_request-Inv n req v =
      handle_fetch_request_cases (λ r. Inv r.0) n req v
        (λ _. become_follower-Inv n req.leader_epoch none) (λ _. v)

  recognise-Inv : (n : RaftNode R) (leader_id : ℕ) → Inv n → Inv (recognise n leader_id).0
  recognise-Inv n leader_id v =
      recognise_cases (λ r. Inv r.0) n leader_id
        (λ fetching. record {
          votes_distinct = v.votes_distinct;
          pre_votes_distinct = v.pre_votes_distinct;
          self_voted = v.self_voted;
          led = λ l. absurd (ground arith);
        })
        (λ _. become_follower-Inv n n.hard_state.current_term (some leader_id))

  same_term-Inv :
      (n : RaftNode R) (actions : List Action) (resp : FetchResponse)
      → Inv n
      → Inv (same_term n actions resp).0
  unfolding hear_leader
  same_term-Inv n actions resp v =
      same_term_cases (λ r. Inv r.0) n actions resp v
        λ _.
          absorb-Inv (hear_leader (recognise n resp.leader_id).0) resp
            (recognise-Inv n resp.leader_id v)

  handle_fetch_response-Inv :
      (n : RaftNode R) (resp : FetchResponse) → Inv n → Inv (handle_fetch_response n resp).0
  handle_fetch_response-Inv n resp v =
      handle_fetch_response_cases (λ r. Inv r.0) n resp v
        (λ _.
          same_term-Inv _ _ resp (become_follower-Inv n resp.leader_epoch (some resp.leader_id)))
        (λ _. same_term-Inv n [] resp v)

  handle_tick-Inv : (n : RaftNode R) → Inv n → Inv (handle_tick n).0
  unfolding handle_tick advance_clock
  handle_tick-Inv n v =
      let counted = count_quorum_tick-Inv _ (schedule_fetch-Inv (advance_clock n) v) in
      check_timeouts_cases (λ r. Inv r.0) _ _ (λ _ _. become_follower-Inv _ _ none) counted
        (λ _ _. become_pre_candidate-Inv _)

  pub step-IsStanding : (n : RaftNode R) (i : Input) → Inv n → Inv (step n i).0
  unfolding step handle_snapshot_installed
  step-IsStanding n Input.tick v = handle_tick-Inv n v
  step-IsStanding n (Input.vote_request req) v = handle_vote_request-Inv n req v
  step-IsStanding n (Input.vote_response sender resp) v = handle_vote_response-Inv n sender resp v
  step-IsStanding n (Input.pre_vote_request req) v = v
  step-IsStanding n (Input.pre_vote_response sender resp) v =
      handle_pre_vote_response-Inv n sender resp v
  step-IsStanding n (Input.fetch_request req) v = handle_fetch_request-Inv n req v
  step-IsStanding n (Input.fetch_response resp) v = handle_fetch_response-Inv n resp v
  step-IsStanding n (Input.client_propose bytes) v = handle_client_propose-Inv n bytes v
  step-IsStanding n (Input.fetch_request_acked id offset) v =
      handle_fetch_request_acked-Inv n id offset v
  step-IsStanding n (Input.snapshot_complete m) v = handle_snapshot_complete-Inv n m v
  step-IsStanding n (Input.snapshot_installed m) v = v
  step-IsStanding n (Input.fetch_snapshot_received m bytes) v = v

  -- Over any run of inputs this is kept: no vote is held twice, a candidate or leader has its own vote
  -- on record, and a leader names itself as the leader.
  pub run-IsStanding : (n : RaftNode R) (is : List Input) → Inv n → Inv (run n is).0
  unfolding run
  run-IsStanding n [] v = v
  run-IsStanding n (i ∷ is) v = run-IsStanding (step n i).0 is (step-IsStanding n i v)
