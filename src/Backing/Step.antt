-- ===== src/Backing/Step.antt =====
-- The backing across `step`.
use failover_cluster.Votes.{VoteGrantedSet, insert}
use failover_cluster.Leadership.{Reaches-quorum, before_timeouts-frame}
use failover_cluster.Node.Step.{step}
use failover_cluster.Node.Quorum.Intersection.{insert-IsDistinct}
use failover_cluster.Node.Snapshot.{
  handle_snapshot_complete, handle_snapshot_installed, is_snapshot_meta_newer,
}
use failover_cluster.Node.Replicate.Cases.{
  handle_fetch_response_cases, recognise_cases, same_term_cases,
}
use failover_cluster.Node.Fetch.Cases.{
  handle_client_propose_cases, handle_fetch_request_acked_cases, handle_fetch_request_cases,
  with_ack,
}
use failover_cluster.Node.Tick.Cases.{check_timeouts_cases}
use failover_cluster.Node.Fetch.{
  append_local, command_entry, handle_client_propose, handle_fetch_request,
  handle_fetch_request_acked, note_fetch,
}
use failover_cluster.Node.Election.Cases.{
  answer_vote_cases, handle_pre_vote_response_cases, handle_vote_request_cases,
  handle_vote_response_cases, with_pre_vote, with_vote, Counts,
}
use failover_cluster.Node.Tick.{
  advance_clock, count_quorum_tick, fetch_actions, handle_tick, maybe_build_fetch_request,
  schedule_fetch, stamp_if_sent,
}
use failover_cluster.Node.Election.{
  adopt_term, cast_vote, decide_vote, handle_pre_vote_response, handle_vote_request,
  handle_vote_response,
}
use failover_cluster.Node.Replicate.Frame.{absorb-frame}
use failover_cluster.Node.Replicate.{
  absorb, handle_fetch_response, hear_leader, recognise, same_term,
}
use failover_cluster.Types.{SnapshotMeta, is_fetching, is_leader_role}
use failover_cluster.Timer.{Rand}
use failover_cluster.Node.{RaftNode}
use failover_cluster.Prelude.{
  Bool, List, [], arith, false, if_elim, leb, none, saturating_add, some, true, ℕ, ◌∷◌, ◌&&◌, All,
  contains, refl, subst, ◌≡◌,
}
use failover_cluster.Message.{
  Action, FetchRequest, FetchResponse, Input, PreVoteResponse, VoteRequest, VoteResponse,
}
use failover_cluster.Backing.{Inv}
use failover_cluster.Backing.Roles.{
  advance_and_drain-Inv, become_leader-Inv, become_follower-Inv, become_candidate-Inv,
  become_pre_candidate-Inv,
}

All-insert :
    (P : ℕ → Type 0) (id : ℕ) (votes : VoteGrantedSet)
    → P id
    → All P votes
    → All P (insert id votes)
unfolding insert
All-insert P id votes h all = if_elim (All P) (contains votes id) (λ _. all) (λ _. (h, all))

module _ {R : Type 0} (J : ℕ → ℕ → Type 0) where
  absorb-Inv : (n : RaftNode R) (resp : FetchResponse) → Inv J n → Inv J (absorb n resp).0
  absorb-Inv n resp v = rw (absorb-frame n resp) v

  schedule_fetch-Inv : (n : RaftNode R) → Inv J n → Inv J (schedule_fetch n).0
  unfolding schedule_fetch
  schedule_fetch-Inv n v =
      if_elim (λ (r : RaftNode R × List Action). Inv J r.0) (is_fetching n.role)
        (λ _. stamped (fetch_actions n (maybe_build_fetch_request n) n.leader_id)) (λ _. v)
    where
      stamped : (actions : List Action) → Inv J (stamp_if_sent n actions)
      stamped [] = v
      stamped (a ∷ rest) = v

  count_quorum_tick-Inv : (n : RaftNode R) → Inv J n → Inv J (count_quorum_tick n).0
  unfolding count_quorum_tick
  count_quorum_tick-Inv n v =
      if_elim (λ (r : RaftNode R × Bool). Inv J r.0)
        (is_leader_role n.role && n.config.enable_check_quorum)
        (λ _.
          if_elim (λ (r : RaftNode R × Bool). Inv J r.0)
            (leb n.check_quorum_interval_ticks (saturating_add n.check_quorum_elapsed_ticks 1))
            (λ _. v) (λ _. v))
        (λ _. v)

  handle_snapshot_complete-Inv :
      (n : RaftNode R) (m : SnapshotMeta) → Inv J n → Inv J (handle_snapshot_complete n m).0
  unfolding handle_snapshot_complete
  handle_snapshot_complete-Inv n m v =
      if_elim (λ (r : RaftNode R × List Action). Inv J r.0)
        (is_snapshot_meta_newer n.last_snapshot_meta m) (λ _. v) (λ _. v)

  handle_fetch_request_acked-Inv :
      (n : RaftNode R) (replica_id offset : ℕ)
      → Inv J n
      → Inv J (handle_fetch_request_acked n replica_id offset).0
  handle_fetch_request_acked-Inv n replica_id offset v =
      handle_fetch_request_acked_cases (λ r. Inv J r.0) n replica_id offset v
        λ _. advance_and_drain-Inv J (with_ack n replica_id offset) v

  handle_client_propose-Inv :
      (n : RaftNode R) (bytes : List ℕ) → Inv J n → Inv J (handle_client_propose n bytes).0
  unfolding append_local
  handle_client_propose-Inv n bytes v =
      handle_client_propose_cases (λ r. Inv J r.0) n bytes v
        λ _. advance_and_drain-Inv J (append_local n (command_entry n bytes)) v

module _ {R : Type 0} ⦃rand : Rand R⦄ (J : ℕ → ℕ → Type 0) where
  adopt_term-Inv : (n : RaftNode R) (term : ℕ) → Inv J (adopt_term n term)
  unfolding adopt_term
  adopt_term-Inv n term = record {
    distinct = tt;
    standing = λ s. absurd (ground arith);
    leading = λ l. absurd (ground arith);
  }

  decide_vote-frame :
      (n : RaftNode R) (req : VoteRequest) (newer stepped_down : Bool)
      → let m = (decide_vote n req newer stepped_down).0 in
        m ≡ record n {
          hard_state = record (n.hard_state) { voted_for = m.hard_state.voted_for };
          election_timer = m.election_timer;
          rng = m.rng;
        }
  unfolding decide_vote cast_vote
  decide_vote-frame n req newer stepped_down = ground arith

  decide_vote-Inv :
      (n : RaftNode R) (req : VoteRequest) (newer stepped_down : Bool)
      → Inv J n
      → Inv J (decide_vote n req newer stepped_down).0
  decide_vote-Inv n req newer stepped_down v = rw (decide_vote-frame n req newer stepped_down) v

  handle_vote_request-Inv :
      (n : RaftNode R) (req : VoteRequest) → Inv J n → Inv J (handle_vote_request n req).0
  handle_vote_request-Inv n req v =
      handle_vote_request_cases (λ r. Inv J r.0) n req v (λ _. v)
        λ _ _.
          answer_vote_cases (λ r. Inv J r.0) n req
            (λ _. decide_vote-Inv (adopt_term n req.term) req true _ (adopt_term-Inv n req.term))
            (λ _. decide_vote-Inv n req false false v)

  handle_vote_response-Inv :
      (n : RaftNode R) (sender : ℕ) (resp : VoteResponse)
      → (resp.vote_granted ≡ true → J resp.term sender)
      → Inv J n
      → Inv J (handle_vote_response n sender resp).0
  handle_vote_response-Inv n sender resp sent v =
      handle_vote_response_cases (λ r. Inv J r.0) n sender resp v
        (λ _. become_follower-Inv J n resp.term none)
        (λ c _. record {
          distinct = insert-IsDistinct sender n.votes_received v.distinct;
          standing = λ s. counted c;
          leading = λ l. absurd (ground (arith, c.standing));
        })
        (λ c all. become_leader-Inv J (with_vote n sender) (
          insert sender n.votes_received,
          insert-IsDistinct sender n.votes_received v.distinct,
          Reaches-quorum (with_vote n sender) all,
          counted c,
        ))
    where
      counted :
          Counts n sender resp → All (J n.hard_state.current_term) (insert sender n.votes_received)
      counted c =
          All-insert (J n.hard_state.current_term) sender n.votes_received
            (subst (λ t. J t sender) c.current (sent c.granted)) (v.standing c.standing)

  handle_pre_vote_response-Inv :
      (n : RaftNode R) (sender : ℕ) (resp : PreVoteResponse)
      → ((t : ℕ) → J t n.id)
      → Inv J n
      → Inv J (handle_pre_vote_response n sender resp).0
  handle_pre_vote_response-Inv n sender resp own v =
      handle_pre_vote_response_cases (λ r. Inv J r.0) n sender resp v
        (λ _. become_follower-Inv J n resp.term none) (λ _ _. v)
        (λ _ _. become_candidate-Inv J (with_pre_vote n sender) own)

  handle_fetch_request-Inv :
      (n : RaftNode R) (req : FetchRequest) → Inv J n → Inv J (handle_fetch_request n req).0
  unfolding note_fetch
  handle_fetch_request-Inv n req v =
      handle_fetch_request_cases (λ r. Inv J r.0) n req v
        (λ _. become_follower-Inv J n req.leader_epoch none) (λ _. v)

  recognise-Inv : (n : RaftNode R) (leader_id : ℕ) → Inv J n → Inv J (recognise n leader_id).0
  recognise-Inv n leader_id v =
      recognise_cases (λ r. Inv J r.0) n leader_id (λ _. v)
        (λ _. become_follower-Inv J n n.hard_state.current_term (some leader_id))

  same_term-Inv :
      (n : RaftNode R) (actions : List Action) (resp : FetchResponse)
      → Inv J n
      → Inv J (same_term n actions resp).0
  unfolding hear_leader
  same_term-Inv n actions resp v =
      same_term_cases (λ r. Inv J r.0) n actions resp v
        λ _.
          absorb-Inv J (hear_leader (recognise n resp.leader_id).0) resp
            (recognise-Inv n resp.leader_id v)

  handle_fetch_response-Inv :
      (n : RaftNode R) (resp : FetchResponse) → Inv J n → Inv J (handle_fetch_response n resp).0
  handle_fetch_response-Inv n resp v =
      handle_fetch_response_cases (λ r. Inv J r.0) n resp v
        (λ _.
          same_term-Inv _ _ resp (become_follower-Inv J n resp.leader_epoch (some resp.leader_id)))
        (λ _. same_term-Inv n [] resp v)

  handle_tick-Inv : (n : RaftNode R) → ((t : ℕ) → J t n.id) → Inv J n → Inv J (handle_tick n).0
  unfolding handle_tick advance_clock
  handle_tick-Inv n own v =
      let counted = count_quorum_tick (schedule_fetch (advance_clock n)).0 in
      let counted-v = count_quorum_tick-Inv J _ (schedule_fetch-Inv J (advance_clock n) v) in
      let (_, _, same_id) = before_timeouts-frame n in
      check_timeouts_cases (λ r. Inv J r.0) counted.0 counted.1
        (λ _ _. become_follower-Inv J counted.0 _ none) counted-v
        (λ _ _. become_pre_candidate-Inv J counted.0 (λ t. rw same_id (own t)))

  -- A step keeps the backing, if a node's own vote counts, and the granted vote that the input brings.
  pub step-IsBacked :
      (n : RaftNode R) (i : Input)
      → ((t : ℕ) → J t n.id)
      → ((sender : ℕ) (resp : VoteResponse)
          → i ≡ Input.vote_response sender resp
          → resp.vote_granted ≡ true
          → J resp.term sender)
      → Inv J n
      → Inv J (step n i).0
  unfolding step handle_snapshot_installed
  step-IsBacked n Input.tick own sent v = handle_tick-Inv n own v
  step-IsBacked n (Input.vote_request req) own sent v = handle_vote_request-Inv n req v
  step-IsBacked n (Input.vote_response sender resp) own sent v =
      handle_vote_response-Inv n sender resp (sent sender resp refl) v
  step-IsBacked n (Input.pre_vote_request req) own sent v = v
  step-IsBacked n (Input.pre_vote_response sender resp) own sent v =
      handle_pre_vote_response-Inv n sender resp own v
  step-IsBacked n (Input.fetch_request req) own sent v = handle_fetch_request-Inv n req v
  step-IsBacked n (Input.fetch_response resp) own sent v = handle_fetch_response-Inv n resp v
  step-IsBacked n (Input.client_propose bytes) own sent v = handle_client_propose-Inv J n bytes v
  step-IsBacked n (Input.fetch_request_acked id offset) own sent v =
      handle_fetch_request_acked-Inv J n id offset v
  step-IsBacked n (Input.snapshot_complete m) own sent v = handle_snapshot_complete-Inv J n m v
  step-IsBacked n (Input.snapshot_installed m) own sent v = v
  step-IsBacked n (Input.fetch_snapshot_received m bytes) own sent v = v
