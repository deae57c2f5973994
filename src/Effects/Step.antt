-- ===== src/Effects/Step.antt =====
-- The actions of every step, replayed.
use failover_cluster.Types.{is_leader_role}
use failover_cluster.Node.Snapshot.{handle_fetch_snapshot_received, handle_snapshot_complete}
use failover_cluster.Node.Step.{step}
use failover_cluster.Watermarks.Step.{count_quorum_tick-Inv, schedule_fetch-Inv}
use failover_cluster.Node.Election.Cases.{
  handle_pre_vote_response_cases, handle_vote_response_cases, with_pre_vote, with_vote,
}
use failover_cluster.Node.Fetch.Cases.{handle_fetch_request_cases}
use failover_cluster.Node.Fetch.{handle_fetch_request, note_fetch, route_fetch}
use failover_cluster.Node.Tick.Cases.{check_timeouts_cases}
use failover_cluster.Watermarks.Leader.{canvass-Inv, stand-Inv, become_follower-Inv}
use failover_cluster.Node.Roles.Cases.{
  become_candidate_cases, become_pre_candidate_cases, pre_vote_actions, vote_actions,
}
use failover_cluster.Node.Election.{
  adopt_term, answer_vote, cast_vote, decide_vote, handle_pre_vote_response, handle_vote_request,
  handle_vote_response, handle_pre_vote_request,
}
use failover_cluster.Timer.{Rand}
use failover_cluster.Node.Tick.{
  check_timeouts, count_quorum_tick, schedule_fetch, advance_clock, handle_tick,
}
use failover_cluster.Node.Replicate.Cases.{handle_fetch_response_cases, same_term_cases}
use failover_cluster.Node.Replicate.{
  absorb, handle_fetch_response, hear_leader, recognise, same_term, absorb_with,
}
use failover_cluster.Prelude.{List, Option, [], arith, none, refl, some, ℕ, Bool, false, inl, ◌≡◌}
use failover_cluster.Effects.{replay, replay-IsSilent, IsSilent, replay-append}
use failover_cluster.Effects.Leader.{
  Tracks, ends, become_leader-Tracks, handle_client_propose-Tracks,
  handle_fetch_request_acked-Tracks,
}
use failover_cluster.Watermarks
use failover_cluster.Watermarks.Follower.{recognise-Inv}
use failover_cluster.Node.{RaftNode}
use failover_cluster.Node.Roles.{
  become_candidate, become_follower, become_pre_candidate, canvass, stand,
}
use failover_cluster.Message.{
  Action, FetchRequest, FetchResponse, PreVoteResponse, VoteRequest, VoteResponse, Input,
}
use failover_cluster.Effects.Follower.{
  IsOrdinary, to_voters-IsSilent, IsStill, still-Tracks, rebase-Tracks, schedule_fetch-IsStill,
  count_quorum_tick-ends, handle_snapshot_complete-IsStill, handle_fetch_snapshot_received-IsStill,
  handle_pre_vote_request-IsStill, Mirrors, Mirrors-after, absorb_with-Mirrors, rebase-Mirrors,
}

module _ {R : Type 0} ⦃rand : Rand R⦄ where
  become_follower-IsStill :
      (n : RaftNode R) (term : ℕ) (leader_id : Option ℕ)
      → IsStill n (become_follower n term leader_id)
  unfolding become_follower
  become_follower-IsStill n term leader_id = ground arith

  become_follower-Tracks :
      (n : RaftNode R) (term : ℕ) (leader_id : Option ℕ)
      → Tracks n (become_follower n term leader_id)
  become_follower-Tracks n term leader_id =
      still-Tracks n (become_follower n term leader_id) (become_follower-IsStill n term leader_id)

  handle_vote_request-IsStill :
      (n : RaftNode R) (req : VoteRequest) → IsStill n (handle_vote_request n req)
  unfolding handle_vote_request answer_vote decide_vote cast_vote adopt_term
  handle_vote_request-IsStill n req = ground arith

  become_candidate-Tracks : (n : RaftNode R) → Watermarks.Inv n → Tracks n (become_candidate n)
  unfolding stand
  become_candidate-Tracks n v =
      become_candidate_cases (Tracks n) n (λ _. replay-IsSilent _ _ silent)
        (λ _.
          replay-append (vote_actions n) _ (ends n) (ends n) _
            (replay-IsSilent (vote_actions n) (ends n) silent)
            (become_leader-Tracks (stand n) (stand-Inv n v)))
    where
      silent : IsSilent (vote_actions n)
      silent = (refl, to_voters-IsSilent _ _)

  become_pre_candidate-Tracks :
      (n : RaftNode R) → Watermarks.Inv n → Tracks n (become_pre_candidate n)
  unfolding canvass
  become_pre_candidate-Tracks n v =
      become_pre_candidate_cases (Tracks n) n (λ _. replay-IsSilent _ _ silent)
        (λ _.
          replay-append (pre_vote_actions n) _ (ends n) (ends n) _
            (replay-IsSilent (pre_vote_actions n) (ends n) silent)
            (become_candidate-Tracks (canvass n) (canvass-Inv n v)))
    where
      silent : IsSilent (pre_vote_actions n)
      silent = to_voters-IsSilent _ _

  handle_vote_response-Tracks :
      (n : RaftNode R) (sender : ℕ) (resp : VoteResponse)
      → Watermarks.Inv n
      → Tracks n (handle_vote_response n sender resp)
  unfolding replay
  handle_vote_response-Tracks n sender resp v =
      handle_vote_response_cases (Tracks n) n sender resp refl
        (λ _. become_follower-Tracks n resp.term none) (λ _ _. refl)
        (λ _ _. become_leader-Tracks (with_vote n sender) v)

  handle_pre_vote_response-Tracks :
      (n : RaftNode R) (sender : ℕ) (resp : PreVoteResponse)
      → Watermarks.Inv n
      → Tracks n (handle_pre_vote_response n sender resp)
  unfolding replay
  handle_pre_vote_response-Tracks n sender resp v =
      handle_pre_vote_response_cases (Tracks n) n sender resp refl
        (λ _. become_follower-Tracks n resp.term none) (λ _ _. refl)
        (λ _ _. become_candidate-Tracks (with_pre_vote n sender) v)

  handle_fetch_request-Tracks :
      (n : RaftNode R) (req : FetchRequest) → Tracks n (handle_fetch_request n req)
  unfolding replay note_fetch route_fetch
  handle_fetch_request-Tracks n req =
      handle_fetch_request_cases (Tracks n) n req refl
        (λ _. become_follower-Tracks n req.leader_epoch none) (λ _. ground arith)

  recognise-IsStill : (n : RaftNode R) (leader_id : ℕ) → IsStill n (recognise n leader_id)
  unfolding recognise become_follower
  recognise-IsStill n leader_id = ground arith

  recognise-follows :
      (n : RaftNode R) (leader_id : ℕ) → is_leader_role (recognise n leader_id).0.role ≡ false
  unfolding recognise become_follower
  recognise-follows n leader_id = ground arith

  same_term-Mirrors :
      (n : RaftNode R) (actions : List Action) (resp : FetchResponse)
      → IsSilent actions
      → Watermarks.Inv n
      → Mirrors n (same_term n actions resp)
  unfolding hear_leader absorb
  same_term-Mirrors n actions resp q v =
      let (quiet, same) = recognise-IsStill n resp.leader_id in
      same_term_cases (Mirrors n) n actions resp (inl (replay-IsSilent [] (ends n) tt)) λ _.
        let heard = hear_leader (recognise n resp.leader_id).0 in
        Mirrors-after n actions _ _ q (
          Mirrors-after n (recognise n resp.leader_id).1 _ _ quiet (
            rebase-Mirrors n heard
              (absorb_with heard resp resp.snapshot_redirect resp.diverging_epoch) same
              (absorb_with-Mirrors heard resp resp.snapshot_redirect resp.diverging_epoch
                (recognise-follows n resp.leader_id) (recognise-Inv n resp.leader_id v))))

  handle_fetch_response-Mirrors :
      (n : RaftNode R) (resp : FetchResponse)
      → Watermarks.Inv n
      → Mirrors n (handle_fetch_response n resp)
  handle_fetch_response-Mirrors n resp v =
      let stepped = become_follower n resp.leader_epoch (some resp.leader_id) in
      let (q, same) = become_follower-IsStill n resp.leader_epoch (some resp.leader_id) in
      let ordered = become_follower-Inv n resp.leader_epoch (some resp.leader_id) v in
      handle_fetch_response_cases (Mirrors n) n resp (inl (replay-IsSilent [] (ends n) tt))
        (λ _.
          rebase-Mirrors n stepped.0 (same_term stepped.0 stepped.1 resp) same
            (same_term-Mirrors stepped.0 stepped.1 resp q ordered))
        (λ _. same_term-Mirrors n [] resp tt v)

  check_timeouts-Tracks :
      (n : RaftNode R) (due : Bool) → Watermarks.Inv n → Tracks n (check_timeouts n due)
  check_timeouts-Tracks n due v =
      check_timeouts_cases (Tracks n) n due
        (λ _ _. (become_follower-Tracks n n.hard_state.current_term none))
        (replay-IsSilent [] (ends n) tt) (λ _ _. become_pre_candidate-Tracks n v)

  handle_tick-Tracks : (n : RaftNode R) → Watermarks.Inv n → Tracks n (handle_tick n)
  unfolding handle_tick advance_clock
  handle_tick-Tracks n v =
      let fetched = schedule_fetch (advance_clock n) in
      let counted = count_quorum_tick fetched.0 in
      let fetched-v = schedule_fetch-Inv (advance_clock n) v in
      let same = count_quorum_tick-ends fetched.0 in
      replay-append fetched.1 _ (ends n) (ends fetched.0) _
        (still-Tracks (advance_clock n) fetched (schedule_fetch-IsStill (advance_clock n)))
        (rebase-Tracks fetched.0 counted.0 (check_timeouts counted.0 counted.1) same
          (check_timeouts-Tracks counted.0 counted.1 (count_quorum_tick-Inv fetched.0 fetched-v)))

  pub step-Mirrors :
      (n : RaftNode R) (i : Input) → IsOrdinary i → Watermarks.Inv n → Mirrors n (step n i)
  unfolding step
  step-Mirrors n Input.tick o v = inl (handle_tick-Tracks n v)
  step-Mirrors n (Input.vote_request req) o v =
      inl (still-Tracks n (handle_vote_request n req) (handle_vote_request-IsStill n req))
  step-Mirrors n (Input.vote_response sender resp) o v =
      inl (handle_vote_response-Tracks n sender resp v)
  step-Mirrors n (Input.pre_vote_request req) o v =
      inl
        (still-Tracks n (n, handle_pre_vote_request n req) (handle_pre_vote_request-IsStill n req))
  step-Mirrors n (Input.pre_vote_response sender resp) o v =
      inl (handle_pre_vote_response-Tracks n sender resp v)
  step-Mirrors n (Input.fetch_request req) o v = inl (handle_fetch_request-Tracks n req)
  step-Mirrors n (Input.fetch_response resp) o v = handle_fetch_response-Mirrors n resp v
  step-Mirrors n (Input.client_propose bytes) o v = inl (handle_client_propose-Tracks n bytes v)
  step-Mirrors n (Input.fetch_request_acked id offset) o v =
      inl (handle_fetch_request_acked-Tracks n id offset v)
  step-Mirrors n (Input.snapshot_complete m) o v =
      inl (still-Tracks n (handle_snapshot_complete n m) (handle_snapshot_complete-IsStill n m))
  step-Mirrors n (Input.snapshot_installed m) o v = absurd o
  step-Mirrors n (Input.fetch_snapshot_received m bytes) o v = inl (
      still-Tracks n (n, handle_fetch_snapshot_received n m bytes)
        (handle_fetch_snapshot_received-IsStill n m bytes))
