-- ===== src/Watermarks/Leader.antt =====
-- The positions across commit advancement, promotion and the leader's handlers.
use failover_cluster.Node.Commit.Offsets.{quorum_offset-le}
use failover_cluster.Node.Fetch.Cases.{
  handle_client_propose_cases, handle_fetch_request_acked_cases, handle_fetch_request_cases,
  with_ack,
}
use failover_cluster.Node.Roles.Cases.{become_candidate_cases, become_pre_candidate_cases}
use failover_cluster.Node.Roles.{
  become_candidate, become_follower, become_leader, become_pre_candidate, canvass, lead,
  restart_peer, stand,
}
use failover_cluster.Node.Election.Cases.{
  answer_vote_cases, handle_pre_vote_response_cases, handle_vote_request_cases,
  handle_vote_response_cases, with_pre_vote, with_vote,
}
use failover_cluster.Node.Commit.Cases.{advance_and_drain_cases, Advances}
use failover_cluster.Node.Election.{
  adopt_term, cast_vote, decide_vote, grants_vote, handle_pre_vote_response, handle_vote_request,
  handle_vote_response,
}
use failover_cluster.Node.Fetch.{
  acknowledge, append_local, command_entry, handle_client_propose, handle_fetch_request,
  handle_fetch_request_acked, note_fetch, stamp_fetch,
}
use failover_cluster.Timer.{Rand}
use failover_cluster.Message.{Entry, FetchRequest, PreVoteResponse, VoteRequest, VoteResponse}
use failover_cluster.Peers.{get}
use failover_cluster.Node.Commit.{drain_apply_pipeline, offset_of, voter_offsets, advance_and_drain}
use failover_cluster.Watermarks.{
  Within, get-Within, Inv, Within-mono, modify-Within, modify_all-Within,
}
use failover_cluster.Node.{RaftNode}
use failover_cluster.Prelude.{
  All, List, Option-cases, [], arith, inl, inr, ℕ, ◌≤◌, ◌∷◌, Bool, Bool-cases, Option, false, none,
  refl, saturating_add, true, ◌≡◌,
}

module _ {R : Type 0} where
  All-voter_offsets :
      (n : RaftNode R) (vs : List ℕ)
      → Within n.last_log_index n.peers
      → All (λ y. y ≤ n.last_log_index) (voter_offsets n vs)
  unfolding voter_offsets offset_of
  All-voter_offsets n [] w = tt
  All-voter_offsets n (v ∷ vs) w = elim (Option-cases (get v n.peers)) [
    | inl e ↦ rw e (ground (arith, All-voter_offsets n vs w))
    | inr (p, e) ↦
        rw e (ground (arith, get-Within n.last_log_index v n.peers p w e, All-voter_offsets n vs w))
  ]

  pub drain_apply_pipeline-Inv : (n : RaftNode R) → Inv n → Inv (drain_apply_pipeline n).0
  unfolding drain_apply_pipeline
  drain_apply_pipeline-Inv n v = record {
    bounded = ground arith;
    committed = ground arith;
    applied_committed = ground arith;
    tracked = λ l. ground (arith, v.tracked);
  }

  -- A leader's commit index never passes its own log.
  pub advanced-Inv :
      (n : RaftNode R) (c : ℕ) → Advances n c → Inv n → Inv (record n { commit_index = c })
  advanced-Inv n c a v = record {
    bounded = v.bounded;
    committed =
        quorum_offset-le a.vs.quorum_size c n.last_log_index (voter_offsets n a.vs.voters)
          a.replicated (All-voter_offsets n a.vs.voters (v.tracked a.leads));
    applied_committed = omega (arith, a.later, v.applied_committed);
    tracked = v.tracked;
  }

  advance_and_drain-Inv : (n : RaftNode R) → Inv n → Inv (advance_and_drain n).0
  advance_and_drain-Inv n v =
      advance_and_drain_cases (λ r. Inv r.0) n v
        λ c a. drain_apply_pipeline-Inv (record n { commit_index = c }) (advanced-Inv n c a v)

  pub with_ack-Inv :
      (n : RaftNode R) (replica_id offset : ℕ) → Inv n → Inv (with_ack n replica_id offset)
  unfolding acknowledge
  with_ack-Inv n replica_id offset v = record {
    bounded = v.bounded;
    committed = v.committed;
    applied_committed = v.applied_committed;
    tracked = λ l.
        modify-Within n.last_log_index replica_id _ n.peers (λ p h. ground arith) (v.tracked l);
  }

  pub handle_fetch_request_acked-Inv :
      (n : RaftNode R) (replica_id offset : ℕ)
      → Inv n
      → Inv (handle_fetch_request_acked n replica_id offset).0
  handle_fetch_request_acked-Inv n replica_id offset v =
      handle_fetch_request_acked_cases (λ r. Inv r.0) n replica_id offset v
        λ _.
          advance_and_drain-Inv (with_ack n replica_id offset) (with_ack-Inv n replica_id offset v)

  pub append_local-Inv :
      (n : RaftNode R) (e : Entry)
      → e.index ≡ saturating_add n.last_log_index 1
      → Inv n
      → Inv (append_local n e)
  unfolding append_local
  append_local-Inv n e h v = record {
    bounded = omega (arith, v.bounded);
    committed = omega (arith, v.bounded, v.committed);
    applied_committed = v.applied_committed;
    tracked =
        λ l. Within-mono n.last_log_index e.index n.peers (omega (arith, v.bounded)) (v.tracked l);
  }

  pub handle_client_propose-Inv :
      (n : RaftNode R) (bytes : List ℕ) → Inv n → Inv (handle_client_propose n bytes).0
  handle_client_propose-Inv n bytes v =
      handle_client_propose_cases (λ r. Inv r.0) n bytes v
        λ _. advance_and_drain-Inv _ (append_local-Inv n (command_entry n bytes) refl v)

module _ {R : Type 0} ⦃rand : Rand R⦄ where
  -- A new leader believes nothing of its peers.
  pub lead-Inv : (n : RaftNode R) → Inv n → Inv (lead n)
  unfolding lead restart_peer
  lead-Inv n v = record {
    bounded = omega (arith, v.bounded);
    committed = omega (arith, v.bounded, v.committed);
    applied_committed = v.applied_committed;
    tracked = λ _. modify_all-Within _ _ n.peers (λ p. omega arith);
  }

  pub become_leader-Inv : (n : RaftNode R) → Inv n → Inv (become_leader n).0
  unfolding become_leader
  become_leader-Inv n v = advance_and_drain-Inv (lead n) (lead-Inv n v)

  pub become_follower-Inv :
      (n : RaftNode R) (term : ℕ) (leader_id : Option ℕ)
      → Inv n
      → Inv (become_follower n term leader_id).0
  unfolding become_follower
  become_follower-Inv n term leader_id v = record {
    bounded = v.bounded;
    committed = v.committed;
    applied_committed = v.applied_committed;
    tracked = λ l. absurd (ground arith);
  }

  -- A candidate or pre-candidate is no leader yet.
  pub stand-Inv : (n : RaftNode R) → Inv n → Inv (stand n)
  unfolding stand
  stand-Inv n v = record {
    bounded = v.bounded;
    committed = v.committed;
    applied_committed = v.applied_committed;
    tracked = λ l. absurd (ground arith);
  }

  pub canvass-Inv : (n : RaftNode R) → Inv n → Inv (canvass n)
  unfolding canvass
  canvass-Inv n v = record {
    bounded = v.bounded;
    committed = v.committed;
    applied_committed = v.applied_committed;
    tracked = λ l. absurd (ground arith);
  }

  pub become_candidate-Inv : (n : RaftNode R) → Inv n → Inv (become_candidate n).0
  become_candidate-Inv n v =
      become_candidate_cases (λ r. Inv r.0) n (λ _. stand-Inv n v)
        (λ _. become_leader-Inv (stand n) (stand-Inv n v))

  pub become_pre_candidate-Inv : (n : RaftNode R) → Inv n → Inv (become_pre_candidate n).0
  become_pre_candidate-Inv n v =
      become_pre_candidate_cases (λ r. Inv r.0) n (λ _. canvass-Inv n v)
        (λ _. become_candidate-Inv (canvass n) (canvass-Inv n v))

  decide_vote-Inv :
      (n : RaftNode R) (req : VoteRequest) (newer stepped_down : Bool)
      → Inv n
      → Inv (decide_vote n req newer stepped_down).0
  unfolding decide_vote cast_vote
  decide_vote-Inv n req newer stepped_down v = elim (Bool-cases (grants_vote n req)) [
    | inl e ↦ rw e v
    | inr e ↦ rw e v
  ]

  adopt_term-Inv : (n : RaftNode R) (term : ℕ) → Inv n → Inv (adopt_term n term)
  unfolding adopt_term
  adopt_term-Inv n term v = record {
    bounded = v.bounded;
    committed = v.committed;
    applied_committed = v.applied_committed;
    tracked = λ l. absurd (ground arith);
  }

  pub handle_vote_request-Inv :
      (n : RaftNode R) (req : VoteRequest) → Inv n → Inv (handle_vote_request n req).0
  handle_vote_request-Inv n req v =
      handle_vote_request_cases (λ r. Inv r.0) n req v (λ _. v)
        λ _ _.
          answer_vote_cases (λ r. Inv r.0) n req
            (λ _. decide_vote-Inv (adopt_term n req.term) req true _ (adopt_term-Inv n req.term v))
            (λ _. decide_vote-Inv n req false false v)

  pub handle_vote_response-Inv :
      (n : RaftNode R) (sender : ℕ) (resp : VoteResponse)
      → Inv n
      → Inv (handle_vote_response n sender resp).0
  handle_vote_response-Inv n sender resp v =
      handle_vote_response_cases (λ r. Inv r.0) n sender resp v
        (λ _. become_follower-Inv n resp.term none v) (λ _ _. v)
        (λ _ _. become_leader-Inv (with_vote n sender) v)

  pub handle_pre_vote_response-Inv :
      (n : RaftNode R) (sender : ℕ) (resp : PreVoteResponse)
      → Inv n
      → Inv (handle_pre_vote_response n sender resp).0
  handle_pre_vote_response-Inv n sender resp v =
      handle_pre_vote_response_cases (λ r. Inv r.0) n sender resp v
        (λ _. become_follower-Inv n resp.term none v) (λ _ _. v)
        (λ _ _. become_candidate-Inv (with_pre_vote n sender) v)

  pub handle_fetch_request-Inv :
      (n : RaftNode R) (req : FetchRequest) → Inv n → Inv (handle_fetch_request n req).0
  unfolding note_fetch stamp_fetch
  handle_fetch_request-Inv n req v =
      handle_fetch_request_cases (λ r. Inv r.0) n req v
        (λ _. become_follower-Inv n req.leader_epoch none v)
        (λ _. record {
          bounded = v.bounded;
          committed = v.committed;
          applied_committed = v.applied_committed;
          tracked =
              λ l. modify-Within n.last_log_index req.replica_id _ n.peers (λ p h. h) (v.tracked l);
        })
