-- ===== src/Durability/Step.antt =====
-- Persistence and votes across `step`.
use failover_cluster.Node.Step.{step}
use failover_cluster.Ballot.Step.{
  hard_state-absorb, hard_state-before_timeouts, hard_state-handle_client_propose,
  hard_state-handle_fetch_request_acked, hard_state-handle_snapshot_complete,
  hard_state-hear_leader,
}
use failover_cluster.Node.Snapshot.{handle_snapshot_installed}
use failover_cluster.Node.Replicate.Cases.{handle_fetch_response_cases, same_term_cases}
use failover_cluster.Node.Replicate.{
  same_term, handle_fetch_response, hear_leader, is_other_leader, recognise,
}
use failover_cluster.Types.{is_stepping_down, HardState, is_leader_role, is_fetching}
use failover_cluster.Ballot.Roles.{hard_state-become_leader}
use failover_cluster.Node.Fetch.Cases.{handle_fetch_request_cases}
use failover_cluster.Node.Fetch.{handle_fetch_request, note_fetch}
use failover_cluster.Node.Tick.Cases.{check_timeouts_cases}
use failover_cluster.Node.Tick.{
  check_timeouts, advance_clock, count_quorum_tick, fetch_actions, handle_tick, schedule_fetch,
  maybe_build_fetch_request,
}
use failover_cluster.Node.Roles.Cases.{
  become_candidate_cases, become_pre_candidate_cases, pre_vote_actions,
}
use failover_cluster.Node.Roles.{become_candidate, become_follower, become_pre_candidate, canvass}
use failover_cluster.Node.Election.Cases.{
  answer_vote_cases, handle_pre_vote_response_cases, handle_vote_request_cases,
  handle_vote_response_cases, with_pre_vote, with_vote,
}
use failover_cluster.Node.Election.{
  adopt_term, cast_vote, decide_vote, grants_vote, handle_pre_vote_response, handle_vote_request,
  handle_vote_response, vote_is_new,
}
use failover_cluster.Timer.{Rand, new}
use failover_cluster.Node.{RaftNode}
use failover_cluster.Durability.{
  IsDurable, IsDurable-after, to_voters-IsQuiet, IsDurable-append, IsQuiet, fetch_from_all-IsQuiet,
}
use failover_cluster.Prelude.{
  Bool, Bool-cases, List, Option, false, inl, inr, ltb, none, refl, some, true, ℕ, ◌≡◌, ◌⊎◌, [],
  arith, ◌∙◌, if_elim,
}
use failover_cluster.Message.{
  Action, FetchRequest, FetchResponse, PreVoteResponse, VoteRequest, VoteResponse, Input,
}

-- The ballot is as it was, or it was persisted first.
abbrev pub Settles : {R : Type 0} → RaftNode R → RaftNode R × List Action → Type 0
Settles n r = (r.0.hard_state ≡ n.hard_state) ⊎ IsDurable r.1

vote_again :
    (h : HardState) (id : ℕ)
    → vote_is_new h.voted_for id ≡ false
    → record h { voted_for = some id } ≡ h
vote_again h id e = ground arith

module _ {R : Type 0} ⦃rand : Rand R⦄ where
  become_follower-Settles :
      (n : RaftNode R) (term : ℕ) (leader_id : Option ℕ)
      → Settles n (become_follower n term leader_id)
  unfolding become_follower
  become_follower-Settles n term leader_id =
      elim (Bool-cases (ltb n.hard_state.current_term term)) [
        | inl e ↦ inr (rw e (inl refl))
        | inr e ↦ inl (rw e)
      ]

  become_candidate-IsDurable : (n : RaftNode R) → IsDurable (become_candidate n).1
  become_candidate-IsDurable n =
      become_candidate_cases (λ r. IsDurable r.1) n (λ _. inl refl) (λ _. inl refl)

  become_pre_candidate-Settles : (n : RaftNode R) → Settles n (become_pre_candidate n)
  unfolding canvass
  become_pre_candidate-Settles n =
      become_pre_candidate_cases (Settles n) n (λ _. inl refl)
        (λ _. inr (
          IsDurable-after (pre_vote_actions n) _ (to_voters-IsQuiet _ _ refl)
            (become_candidate-IsDurable (canvass n))))

  decide_vote-newer :
      (n : RaftNode R) (req : VoteRequest) (stepped_down : Bool)
      → IsDurable (decide_vote n req true stepped_down).1
  unfolding decide_vote
  decide_vote-newer n req stepped_down = inl refl

  decide_vote-Settles :
      (n : RaftNode R) (req : VoteRequest) → Settles n (decide_vote n req false false)
  unfolding decide_vote cast_vote
  decide_vote-Settles n req = elim (Bool-cases (grants_vote n req)) [
    | inr e ↦ inl (rw e)
    | inl e ↦ elim (Bool-cases (vote_is_new n.hard_state.voted_for req.candidate_id)) [
      | inl new ↦ inr (rw (e, new) (inl refl))
      | inr old ↦ inl (rw e (vote_again n.hard_state req.candidate_id old))
    ]
  ]

  handle_vote_request-Settles :
      (n : RaftNode R) (req : VoteRequest) → Settles n (handle_vote_request n req)
  handle_vote_request-Settles n req =
      handle_vote_request_cases (Settles n) n req (inl refl) (λ _. inl refl)
        λ _ _.
          answer_vote_cases (Settles n) n req
            (λ _. inr (decide_vote-newer (adopt_term n req.term) req (is_stepping_down n.role)))
            (λ _. decide_vote-Settles n req)

  handle_vote_response-Settles :
      (n : RaftNode R) (sender : ℕ) (resp : VoteResponse)
      → Settles n (handle_vote_response n sender resp)
  handle_vote_response-Settles n sender resp =
      handle_vote_response_cases (Settles n) n sender resp (inl refl)
        (λ _. become_follower-Settles n resp.term none) (λ _ _. inl refl)
        (λ _ _. inl (hard_state-become_leader (with_vote n sender)))

  handle_pre_vote_response-Settles :
      (n : RaftNode R) (sender : ℕ) (resp : PreVoteResponse)
      → Settles n (handle_pre_vote_response n sender resp)
  handle_pre_vote_response-Settles n sender resp =
      handle_pre_vote_response_cases (Settles n) n sender resp (inl refl)
        (λ _. become_follower-Settles n resp.term none) (λ _ _. inl refl)
        (λ _ _. inr (become_candidate-IsDurable (with_pre_vote n sender)))

  handle_fetch_request-Settles :
      (n : RaftNode R) (req : FetchRequest) → Settles n (handle_fetch_request n req)
  unfolding note_fetch
  handle_fetch_request-Settles n req =
      handle_fetch_request_cases (Settles n) n req (inl refl)
        (λ _. become_follower-Settles n req.leader_epoch none) (λ _. inl refl)

  become_follower-IsDurable :
      (n : RaftNode R) (term : ℕ) (leader_id : Option ℕ)
      → ltb n.hard_state.current_term term ≡ true
      → IsDurable (become_follower n term leader_id).1
  unfolding become_follower
  become_follower-IsDurable n term leader_id e = rw e (inl refl)

  follows-become_follower :
      (n : RaftNode R) (term id : ℕ)
      → is_leader_role (become_follower n term (some id)).0.role ≡ false
  unfolding become_follower
  follows-become_follower n term id = ground arith

  heeds-become_follower :
      (n : RaftNode R) (term id : ℕ)
      → is_other_leader (become_follower n term (some id)).0.leader_id id ≡ false
  unfolding become_follower
  heeds-become_follower n term id = ground arith

  -- A term that a fetch response brings is not fenced off again: the actions of its adoption stay.
  adopted-IsDurable :
      (n : RaftNode R) (resp : FetchResponse)
      → ltb n.hard_state.current_term resp.leader_epoch ≡ true
      → let (n', adopted) = become_follower n resp.leader_epoch (some resp.leader_id) in
        IsDurable (same_term n' adopted resp).1
  unfolding same_term
  adopted-IsDurable n resp e = rw (follows-become_follower n resp.leader_epoch resp.leader_id) (
      rw (heeds-become_follower n resp.leader_epoch resp.leader_id) (
        IsDurable-append (become_follower n resp.leader_epoch (some resp.leader_id)).1 _
          (become_follower-IsDurable n resp.leader_epoch (some resp.leader_id) e)))

  -- At the node's own term nothing is adopted.
  recognise-hard_state :
      (n : RaftNode R) (leader_id : ℕ) → (recognise n leader_id).0.hard_state ≡ n.hard_state
  unfolding recognise become_follower
  recognise-hard_state n leader_id = ground arith

  same_term-hard_state :
      (n : RaftNode R) (resp : FetchResponse) → (same_term n [] resp).0.hard_state ≡ n.hard_state
  same_term-hard_state n resp =
      same_term_cases (λ r. r.0.hard_state ≡ n.hard_state) n [] resp refl
        (λ _.
          hard_state-absorb (hear_leader (recognise n resp.leader_id).0) resp
          ∙ hard_state-hear_leader (recognise n resp.leader_id).0
          ∙ recognise-hard_state n resp.leader_id)

  handle_fetch_response-Settles :
      (n : RaftNode R) (resp : FetchResponse) → Settles n (handle_fetch_response n resp)
  handle_fetch_response-Settles n resp =
      handle_fetch_response_cases (Settles n) n resp (inl refl)
        (λ newer. inr (adopted-IsDurable n resp newer)) (λ _. inl (same_term-hard_state n resp))

  check_timeouts-Settles : (n : RaftNode R) (due : Bool) → Settles n (check_timeouts n due)
  check_timeouts-Settles n due =
      check_timeouts_cases (Settles n) n due
        (λ _ _. become_follower-Settles n n.hard_state.current_term none) (inl refl)
        (λ _ _. become_pre_candidate-Settles n)

  fetch_actions-IsQuiet :
      (n : RaftNode R) (req : Option FetchRequest) (leader_id : Option ℕ)
      → IsQuiet (fetch_actions n req leader_id)
  unfolding fetch_actions
  fetch_actions-IsQuiet n none leader_id = tt
  fetch_actions-IsQuiet n (some req) (some leader_id) = (refl, tt)
  fetch_actions-IsQuiet n (some req) none = fetch_from_all-IsQuiet n.id req n.peers

  pub schedule_fetch-IsQuiet : (n : RaftNode R) → IsQuiet (schedule_fetch n).1
  unfolding schedule_fetch
  schedule_fetch-IsQuiet n =
      if_elim (λ (r : RaftNode R × List Action). IsQuiet r.1) (is_fetching n.role)
        (λ _. fetch_actions-IsQuiet n (maybe_build_fetch_request n) n.leader_id) (λ _. tt)

  handle_tick-Settles : (n : RaftNode R) → Settles n (handle_tick n)
  unfolding handle_tick
  handle_tick-Settles n = settles (
      check_timeouts-Settles (count_quorum_tick (schedule_fetch (advance_clock n)).0).0
        (count_quorum_tick (schedule_fetch (advance_clock n)).0).1)
    where
      settles :
          Settles (count_quorum_tick (schedule_fetch (advance_clock n)).0).0 (
            check_timeouts
              (count_quorum_tick (schedule_fetch (advance_clock n)).0).0
              (count_quorum_tick (schedule_fetch (advance_clock n)).0).1)
          → Settles n (handle_tick n)
      settles (inl e) = inl (e ∙ hard_state-before_timeouts n)
      settles (inr d) = inr (IsDurable-after _ _ (schedule_fetch-IsQuiet (advance_clock n)) d)

  -- In every step, if the term or the vote changes, the actions hold a `PersistHardState`, and no
  -- request for votes and no granted vote stands before it.
  pub step-Settles : (n : RaftNode R) (i : Input) → Settles n (step n i)
  unfolding step handle_snapshot_installed
  step-Settles n Input.tick = handle_tick-Settles n
  step-Settles n (Input.vote_request req) = handle_vote_request-Settles n req
  step-Settles n (Input.vote_response sender resp) = handle_vote_response-Settles n sender resp
  step-Settles n (Input.pre_vote_request req) = inl refl
  step-Settles n (Input.pre_vote_response sender resp) =
      handle_pre_vote_response-Settles n sender resp
  step-Settles n (Input.fetch_request req) = handle_fetch_request-Settles n req
  step-Settles n (Input.fetch_response resp) = handle_fetch_response-Settles n resp
  step-Settles n (Input.client_propose bytes) = inl (hard_state-handle_client_propose n bytes)
  step-Settles n (Input.fetch_request_acked id offset) =
      inl (hard_state-handle_fetch_request_acked n id offset)
  step-Settles n (Input.snapshot_complete m) = inl (hard_state-handle_snapshot_complete n m)
  step-Settles n (Input.snapshot_installed m) = inl refl
  step-Settles n (Input.fetch_snapshot_received m bytes) = inl refl
