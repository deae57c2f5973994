-- ===== src/Ballot/Step.antt =====
-- The ballot across `step` and across runs of inputs.
use failover_cluster.Node.Step.{run, step}
use failover_cluster.Node.Snapshot.{handle_snapshot_complete, handle_snapshot_installed}
use failover_cluster.Ballot.Election.{
  handle_pre_vote_response-Follows, handle_vote_request-Follows, handle_vote_response-Follows,
}
use failover_cluster.Node.Replicate.Cases.{
  handle_fetch_response_cases, recognise_cases, same_term_cases,
}
use failover_cluster.Node.Fetch.Cases.{
  handle_client_propose_cases, handle_fetch_request_acked_cases, handle_fetch_request_cases,
  with_ack,
}
use failover_cluster.Node.Tick.Cases.{check_timeouts_cases}
use failover_cluster.Ballot.Roles.{
  become_follower-Follows, become_pre_candidate-Follows, hard_state-advance_and_drain,
}
use failover_cluster.Node.Fetch.{
  append_local, command_entry, handle_client_propose, handle_fetch_request,
  handle_fetch_request_acked, note_fetch,
}
use failover_cluster.Node.Tick.{
  advance_clock, check_timeouts, count_quorum_tick, handle_tick, schedule_fetch,
}
use failover_cluster.Node.Replicate.Frame.{absorb-frame}
use failover_cluster.Node.Replicate.{
  absorb, handle_fetch_response, hear_leader, recognise, same_term,
}
use failover_cluster.Types.{SnapshotMeta}
use failover_cluster.Timer.{Rand}
use failover_cluster.Node.{RaftNode, current_term}
use failover_cluster.Ballot.{Follows, Follows-trans, Follows-refl}
use failover_cluster.Prelude.{
  Bool, List, [], ap, arith, none, refl, some, subst, ℕ, ◌∙◌, ◌≡◌, ◌∷◌, u64_max, ◌≤◌, ◌<◌,
}
use failover_cluster.Message.{Action, FetchRequest, FetchResponse, Input}

module _ {R : Type 0} where
  pub hard_state-absorb :
      (n : RaftNode R) (resp : FetchResponse) → (absorb n resp).0.hard_state ≡ n.hard_state
  hard_state-absorb n resp = ap (λ m. m.hard_state) (absorb-frame n resp)

  hard_state-schedule_fetch : (n : RaftNode R) → (schedule_fetch n).0.hard_state ≡ n.hard_state
  unfolding schedule_fetch
  hard_state-schedule_fetch n = ground arith

  hard_state-count_quorum_tick :
      (n : RaftNode R) → (count_quorum_tick n).0.hard_state ≡ n.hard_state
  unfolding count_quorum_tick
  hard_state-count_quorum_tick n = ground arith

module _ {R : Type 0} ⦃rand : Rand R⦄ where
  pub hard_state-hear_leader : (n : RaftNode R) → (hear_leader n).hard_state ≡ n.hard_state
  unfolding hear_leader
  hard_state-hear_leader n = refl

  recognise-Follows :
      (n : RaftNode R) (leader_id : ℕ) → Follows n.hard_state (recognise n leader_id).0.hard_state
  recognise-Follows n leader_id =
      recognise_cases (λ r. Follows n.hard_state r.0.hard_state) n leader_id
        (λ _. Follows-refl n.hard_state)
        (λ _. become_follower-Follows n n.hard_state.current_term (some leader_id))

  same_term-Follows :
      (n : RaftNode R) (actions : List Action) (resp : FetchResponse)
      → Follows n.hard_state (same_term n actions resp).0.hard_state
  same_term-Follows n actions resp =
      same_term_cases (λ r. Follows n.hard_state r.0.hard_state) n actions resp
        (Follows-refl n.hard_state)
        (λ _. rw (hard_state-absorb (hear_leader (recognise n resp.leader_id).0) resp) (
          rw (hard_state-hear_leader (recognise n resp.leader_id).0)
            (recognise-Follows n resp.leader_id)))

  pub handle_fetch_response-Follows :
      (n : RaftNode R) (resp : FetchResponse)
      → Follows n.hard_state (handle_fetch_response n resp).0.hard_state
  handle_fetch_response-Follows n resp =
      handle_fetch_response_cases (λ r. Follows n.hard_state r.0.hard_state) n resp
        (Follows-refl n.hard_state)
        (λ _.
          Follows-trans _ _ _ (become_follower-Follows n resp.leader_epoch (some resp.leader_id))
            (same_term-Follows _ _ resp))
        (λ _. same_term-Follows n [] resp)

  handle_fetch_request-Follows :
      (n : RaftNode R) (req : FetchRequest)
      → Follows n.hard_state (handle_fetch_request n req).0.hard_state
  unfolding note_fetch
  handle_fetch_request-Follows n req =
      handle_fetch_request_cases (λ r. Follows n.hard_state r.0.hard_state) n req
        (Follows-refl n.hard_state) (λ _. become_follower-Follows n req.leader_epoch none)
        (λ _. Follows-refl n.hard_state)

  pub hard_state-handle_fetch_request_acked :
      (n : RaftNode R) (replica_id offset : ℕ)
      → (handle_fetch_request_acked n replica_id offset).0.hard_state ≡ n.hard_state
  hard_state-handle_fetch_request_acked n replica_id offset =
      handle_fetch_request_acked_cases (λ r. r.0.hard_state ≡ n.hard_state) n replica_id offset refl
        (λ _. hard_state-advance_and_drain (with_ack n replica_id offset))

  pub hard_state-handle_client_propose :
      (n : RaftNode R) (bytes : List ℕ)
      → (handle_client_propose n bytes).0.hard_state ≡ n.hard_state
  unfolding append_local
  hard_state-handle_client_propose n bytes =
      handle_client_propose_cases (λ r. r.0.hard_state ≡ n.hard_state) n bytes refl
        (λ _. hard_state-advance_and_drain (append_local n (command_entry n bytes)))

  -- What a tick does before it looks at the timeouts.
  pub hard_state-before_timeouts :
      (n : RaftNode R)
      → (count_quorum_tick (schedule_fetch (advance_clock n)).0).0.hard_state ≡ n.hard_state
  unfolding advance_clock
  hard_state-before_timeouts n =
      hard_state-count_quorum_tick _ ∙ hard_state-schedule_fetch (advance_clock n)

  check_timeouts-Follows :
      (n : RaftNode R) (due : Bool) → Follows n.hard_state (check_timeouts n due).0.hard_state
  check_timeouts-Follows n due =
      check_timeouts_cases (λ r. Follows n.hard_state r.0.hard_state) n due
        (λ _ _. become_follower-Follows n n.hard_state.current_term none)
        (Follows-refl n.hard_state) (λ _ _. become_pre_candidate-Follows n)

  handle_tick-Follows : (n : RaftNode R) → Follows n.hard_state (handle_tick n).0.hard_state
  unfolding handle_tick
  handle_tick-Follows n =
      subst (λ h. Follows h (handle_tick n).0.hard_state) (hard_state-before_timeouts n)
        (check_timeouts-Follows _ _)

  pub hard_state-handle_snapshot_complete :
      (n : RaftNode R) (m : SnapshotMeta)
      → (handle_snapshot_complete n m).0.hard_state ≡ n.hard_state
  unfolding handle_snapshot_complete
  hard_state-handle_snapshot_complete n m = ground arith

  pub step-Follows : (n : RaftNode R) (i : Input) → Follows n.hard_state (step n i).0.hard_state
  unfolding step handle_snapshot_installed
  step-Follows n Input.tick = handle_tick-Follows n
  step-Follows n (Input.vote_request req) = handle_vote_request-Follows n req
  step-Follows n (Input.vote_response sender resp) = handle_vote_response-Follows n sender resp
  step-Follows n (Input.pre_vote_request req) = Follows-refl n.hard_state
  step-Follows n (Input.pre_vote_response sender resp) =
      handle_pre_vote_response-Follows n sender resp
  step-Follows n (Input.fetch_request req) = handle_fetch_request-Follows n req
  step-Follows n (Input.fetch_response resp) = handle_fetch_response-Follows n resp
  step-Follows n (Input.client_propose bytes) =
      rw (hard_state-handle_client_propose n bytes) (Follows-refl n.hard_state)
  step-Follows n (Input.fetch_request_acked id offset) =
      rw (hard_state-handle_fetch_request_acked n id offset) (Follows-refl n.hard_state)
  step-Follows n (Input.snapshot_complete m) =
      rw (hard_state-handle_snapshot_complete n m) (Follows-refl n.hard_state)
  step-Follows n (Input.snapshot_installed m) = Follows-refl n.hard_state
  step-Follows n (Input.fetch_snapshot_received m bytes) = Follows-refl n.hard_state

  pub run-Follows :
      (n : RaftNode R) (is : List Input) → Follows n.hard_state (run n is).0.hard_state
  unfolding run
  run-Follows n [] = Follows-refl n.hard_state
  run-Follows n (i ∷ is) = Follows-trans _ _ _ (step-Follows n i) (run-Follows (step n i).0 is)

  -- Over any run of inputs the term does not fall, if it has not saturated at `u64::MAX` at the end.
  pub run-term_grows :
      (n : RaftNode R) (is : List Input)
      → current_term (run n is).0 < u64_max
      → current_term n ≤ current_term (run n is).0
  unfolding current_term
  run-term_grows n is l = (run-Follows n is).grows l

  -- A node votes at most once in a term: a vote that it has cast is still its vote after any run of
  -- inputs that ends in the same term, if the term has not saturated at `u64::MAX`.
  pub run-one_vote :
      (n : RaftNode R) (is : List Input) (candidate_id : ℕ)
      → n.hard_state.voted_for ≡ some candidate_id
      → current_term (run n is).0 ≡ current_term n
      → current_term (run n is).0 < u64_max
      → (run n is).0.hard_state.voted_for ≡ some candidate_id
  unfolding current_term
  run-one_vote n is candidate_id voted same l = (run-Follows n is).kept l same candidate_id voted
