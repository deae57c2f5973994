-- ===== src/Observers.antt =====
-- Observers: xraft-core/src/node.rs, the role that replicates and does not vote.
use failover_cluster.Peers.{PeerMap}
use failover_cluster.Node.Step.{step}
use failover_cluster.Node.Election.Cases.{
  handle_pre_vote_response_cases, handle_vote_response_cases,
}
use failover_cluster.Node.Election.{
  handle_pre_vote_request, handle_pre_vote_response, handle_vote_request, handle_vote_response,
}
use failover_cluster.Node.Snapshot.{
  handle_fetch_snapshot_received, handle_snapshot_complete, handle_snapshot_installed,
}
use failover_cluster.Node.Fetch.Cases.{
  handle_client_propose_cases, handle_fetch_request_acked_cases, handle_fetch_request_cases,
}
use failover_cluster.Node.Tick.Cases.{check_timeouts_cases}
use failover_cluster.Leadership.{before_timeouts-frame}
use failover_cluster.Node.Tick.{
  advance_clock, check_timeouts, count_quorum_tick, handle_tick, schedule_fetch, fetch_actions,
  fetch_from_all, maybe_build_fetch_request,
}
use failover_cluster.Node.Replicate.Cases.{
  accept_entries_cases, handle_fetch_response_cases, propagate_cases, recognise_cases,
  same_term_cases,
}
use failover_cluster.Node.Replicate.Frame.{absorb-frame}
use failover_cluster.Node.Commit.{drain_apply_pipeline}
use failover_cluster.Node.Replicate.{
  absorb, absorb_with, accept_entries, commit_accepted, propagate, append_batch,
  handle_fetch_response, hear_leader, recognise, same_term,
}
use failover_cluster.Timer.{Rand}
use failover_cluster.Prelude.{
  List, Option, arith, true, ℕ, ◌≡◌, All-append, Bool, [], ap, none, refl, some, ◌∷◌, ◌∙◌, All,
  false, if_elim,
}
use failover_cluster.Message.{
  Action, FetchResponse, DivergingEpoch, Entry, Input, PreVoteResponse, SnapshotRedirect,
  VoteResponse, FetchRequest, OutboundMessage,
}
use failover_cluster.Node.{RaftNode}
use failover_cluster.Node.Roles.{become_follower}
use failover_cluster.Types.{is_observer_role, is_leader_role, is_fetching}

-- A request for a vote or a pre-vote, or a grant of one.
abbrev pub is_ballot_message : OutboundMessage → Bool
is_ballot_message m = elim m [
  | OutboundMessage.vote_request req ↦ true
  | OutboundMessage.vote_response resp ↦ resp.vote_granted
  | OutboundMessage.pre_vote_request req ↦ true
  | OutboundMessage.pre_vote_response resp ↦ resp.vote_granted
  | _ ↦ false
]

abbrev pub is_ballot : Action → Bool
is_ballot a = elim a [ Action.send_message to m ↦ is_ballot_message m | _ ↦ false ]

abbrev pub NoBallot : List Action → Type 0
NoBallot = All (λ a. is_ballot a ≡ false)

fetch_from_all-NoBallot :
    (id : ℕ) (req : FetchRequest) (peers : PeerMap) → NoBallot (fetch_from_all id req peers)
unfolding fetch_from_all
fetch_from_all-NoBallot id req [] = tt
fetch_from_all-NoBallot id req ((j, p) ∷ rest) = ground (arith, fetch_from_all-NoBallot id req rest)

module _ {R : Type 0} where
  -- An observer that asks for no vote or pre-vote and grants none.
  abbrev pub Watches : RaftNode R × List Action → Type 0
  Watches r = (is_observer_role r.0.role ≡ true) × NoBallot r.1

  drain_apply_pipeline-NoBallot : (n : RaftNode R) → NoBallot (drain_apply_pipeline n).1
  unfolding drain_apply_pipeline
  drain_apply_pipeline-NoBallot n = ground arith

  propagate-NoBallot :
      (n : RaftNode R) (high_watermark : ℕ) → NoBallot (propagate n high_watermark).1
  propagate-NoBallot n high_watermark =
      propagate_cases (λ r. NoBallot r.1) n high_watermark tt (λ _. drain_apply_pipeline-NoBallot _)

  commit_accepted-NoBallot :
      (n : RaftNode R) (es : List Entry) (high_watermark : ℕ)
      → NoBallot (commit_accepted n (accept_entries n es) high_watermark).1
  unfolding commit_accepted
  commit_accepted-NoBallot n [] high_watermark =
      unfold accept_entries in propagate-NoBallot n high_watermark
  commit_accepted-NoBallot n (e ∷ es) high_watermark =
      accept_entries_cases n (λ o. NoBallot (commit_accepted n o high_watermark).1) e es tt
        λ _ _. (refl, propagate-NoBallot (append_batch n e es) high_watermark)

  absorb_with-NoBallot :
      (n : RaftNode R) (resp : FetchResponse) (r : Option SnapshotRedirect)
      (de : Option DivergingEpoch)
      → NoBallot (absorb_with n resp r de).1
  unfolding absorb_with
  absorb_with-NoBallot n resp (some r) de = (refl, tt)
  absorb_with-NoBallot n resp none (some de) = (refl, (refl, tt))
  absorb_with-NoBallot n resp none none =
      commit_accepted-NoBallot n resp.entries resp.high_watermark

  absorb-Watches :
      (n : RaftNode R) (resp : FetchResponse)
      → is_observer_role n.role ≡ true
      → Watches (absorb n resp)
  unfolding absorb
  absorb-Watches n resp o = (
    rw (absorb-frame n resp) o,
    absorb_with-NoBallot n resp resp.snapshot_redirect resp.diverging_epoch,
  )

  schedule_fetch-NoBallot : (n : RaftNode R) → NoBallot (schedule_fetch n).1
  unfolding schedule_fetch
  schedule_fetch-NoBallot n =
      if_elim (λ (r : RaftNode R × List Action). NoBallot r.1) (is_fetching n.role)
        (λ _. quiet (maybe_build_fetch_request n) n.leader_id) (λ _. tt)
    where
      quiet :
          (req : Option FetchRequest) (leader_id : Option ℕ)
          → NoBallot (fetch_actions n req leader_id)
      quiet none leader_id = unfold fetch_actions in tt
      quiet (some req) (some leader_id) = unfold fetch_actions in (refl, tt)
      quiet (some req) none = unfold fetch_actions in fetch_from_all-NoBallot n.id req n.peers

  not_leading : (n : RaftNode R) → is_observer_role n.role ≡ true → is_leader_role n.role ≡ true → ⊥
  not_leading n o l = absurd (ground arith)

module _ {R : Type 0} ⦃rand : Rand R⦄ where
  become_follower-Watches :
      (n : RaftNode R) (term : ℕ) (leader_id : Option ℕ)
      → is_observer_role n.role ≡ true
      → Watches (become_follower n term leader_id)
  unfolding become_follower
  become_follower-Watches n term leader_id o = ground arith

  recognise-Watches :
      (n : RaftNode R) (leader_id : ℕ)
      → is_observer_role n.role ≡ true
      → Watches (recognise n leader_id)
  recognise-Watches n leader_id o =
      recognise_cases Watches n leader_id (λ _. (o, tt))
        (λ _. become_follower-Watches n n.hard_state.current_term (some leader_id) o)

  same_term-Watches :
      (n : RaftNode R) (actions : List Action) (resp : FetchResponse)
      → NoBallot actions
      → is_observer_role n.role ≡ true
      → Watches (same_term n actions resp)
  unfolding hear_leader
  same_term-Watches n actions resp q o =
      same_term_cases Watches n actions resp (o, tt)
        λ _.
          let (o1, q1) = recognise-Watches n resp.leader_id o in
          let (o2, q2) = absorb-Watches (hear_leader (recognise n resp.leader_id).0) resp o1 in
          (o2, All-append _ actions _ q (All-append _ _ _ q1 q2))

  handle_fetch_response-Watches :
      (n : RaftNode R) (resp : FetchResponse)
      → is_observer_role n.role ≡ true
      → Watches (handle_fetch_response n resp)
  handle_fetch_response-Watches n resp o =
      let (o', q) = become_follower-Watches n resp.leader_epoch (some resp.leader_id) o in
      handle_fetch_response_cases Watches n resp (o, tt) (λ _. same_term-Watches _ _ resp q o')
        (λ _. same_term-Watches n [] resp tt o)

  handle_vote_response-Watches :
      (n : RaftNode R) (sender : ℕ) (resp : VoteResponse)
      → is_observer_role n.role ≡ true
      → Watches (handle_vote_response n sender resp)
  handle_vote_response-Watches n sender resp o =
      handle_vote_response_cases Watches n sender resp (o, tt)
        (λ _. become_follower-Watches n resp.term none o)
        (λ c _. absurd (ground (arith, c.standing))) (λ c _. absurd (ground (arith, c.standing)))

  handle_pre_vote_response-Watches :
      (n : RaftNode R) (sender : ℕ) (resp : PreVoteResponse)
      → is_observer_role n.role ≡ true
      → Watches (handle_pre_vote_response n sender resp)
  handle_pre_vote_response-Watches n sender resp o =
      handle_pre_vote_response_cases Watches n sender resp (o, tt)
        (λ _. become_follower-Watches n resp.term none o) (λ standing _. absurd (ground arith))
        (λ standing _. absurd (ground arith))

  check_timeouts-Watches :
      (n : RaftNode R) (due : Bool)
      → is_observer_role n.role ≡ true
      → Watches (check_timeouts n due)
  check_timeouts-Watches n due o =
      check_timeouts_cases Watches n due
        (λ _ _. become_follower-Watches n n.hard_state.current_term none o) (o, tt)
        (λ _ electable. absurd (ground arith))

  handle_tick-Watches : (n : RaftNode R) → is_observer_role n.role ≡ true → Watches (handle_tick n)
  unfolding handle_tick
  handle_tick-Watches n o =
      let counted = count_quorum_tick (schedule_fetch (advance_clock n)).0 in
      let (same_role, _, _) = before_timeouts-frame n in
      let o' : is_observer_role counted.0.role ≡ true = ap is_observer_role same_role ∙ o in
      let (o2, q2) = check_timeouts-Watches counted.0 counted.1 o' in
      (o2, All-append _ _ _ (schedule_fetch-NoBallot (advance_clock n)) q2)

  -- Whatever the input, an observer stays one, and asks for no vote or pre-vote and grants none.
  pub step-Watches :
      (n : RaftNode R) (i : Input) → is_observer_role n.role ≡ true → Watches (step n i)
  unfolding step handle_snapshot_installed handle_snapshot_complete handle_vote_request
      handle_pre_vote_request handle_fetch_snapshot_received
  step-Watches n Input.tick o = handle_tick-Watches n o
  step-Watches n (Input.vote_request req) o = ground arith
  step-Watches n (Input.vote_response sender resp) o = handle_vote_response-Watches n sender resp o
  step-Watches n (Input.pre_vote_request req) o = ground arith
  step-Watches n (Input.pre_vote_response sender resp) o =
      handle_pre_vote_response-Watches n sender resp o
  step-Watches n (Input.fetch_request req) o =
      handle_fetch_request_cases Watches n req (o, tt)
        (λ _. become_follower-Watches n req.leader_epoch none o)
        (λ s. absurd (not_leading n o s.leads))
  step-Watches n (Input.fetch_response resp) o = handle_fetch_response-Watches n resp o
  step-Watches n (Input.client_propose bytes) o =
      handle_client_propose_cases Watches n bytes (o, tt) (λ l. absurd (not_leading n o l))
  step-Watches n (Input.fetch_request_acked id offset) o =
      handle_fetch_request_acked_cases Watches n id offset (o, tt) (λ l. absurd (not_leading n o l))
  step-Watches n (Input.snapshot_complete m) o = ground arith
  step-Watches n (Input.snapshot_installed m) o = (o, tt)
  step-Watches n (Input.fetch_snapshot_received m bytes) o = ground arith
