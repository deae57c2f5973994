-- ===== src/Leadership.antt =====
-- How a node becomes the leader (xraft-core/src/node.rs).
use failover_cluster.Node.Quorum.{has_election_quorum, votes_reach_quorum}
use failover_cluster.Node.Snapshot.{handle_snapshot_complete, handle_snapshot_installed}
use failover_cluster.Node.Replicate.Cases.{
  handle_fetch_response_cases, recognise_cases, same_term_cases,
}
use failover_cluster.Node.Fetch.Cases.{
  handle_client_propose_cases, handle_fetch_request_acked_cases, handle_fetch_request_cases,
  with_ack,
}
use failover_cluster.Node.Tick.Cases.{check_timeouts_cases}
use failover_cluster.Node.Roles.Cases.{become_candidate_cases, become_pre_candidate_cases}
use failover_cluster.Node.Fetch.{append_local, command_entry, handle_fetch_request, note_fetch}
use failover_cluster.Node.Tick.{
  advance_clock, count_quorum_tick, handle_tick, schedule_fetch, check_timeouts,
}
use failover_cluster.Node.Commit.Frame.{advance_and_drain-frame}
use failover_cluster.Node.Commit.{advance_and_drain}
use failover_cluster.Node.Election.{
  adopt_term, cast_vote, decide_vote, handle_pre_vote_response, handle_vote_request,
  handle_vote_response,
}
use failover_cluster.Node.Replicate.Frame.{absorb-frame}
use failover_cluster.Node.Replicate.{
  absorb, handle_fetch_response, hear_leader, recognise, same_term,
}
use failover_cluster.Timer.{Rand}
use failover_cluster.Node.Election.Cases.{
  Counts, answer_vote_cases, handle_pre_vote_response_cases, handle_vote_request_cases,
  handle_vote_response_cases, with_pre_vote, with_vote,
}
use failover_cluster.Prelude.{
  Bool, List, Option, [], ap, arith, false, inl, inr, none, refl, some, true, ℕ, ◌≡◌, ◌∷◌, ◌⊎◌,
  subst, ◌∙◌,
}
use failover_cluster.Message.{
  Action, FetchRequest, FetchResponse, Input, PreVoteResponse, VoteRequest, VoteResponse,
}
use failover_cluster.Types.{VoterSet, is_leader_role, is_stepping_down}
use failover_cluster.Votes.{insert, VoteGrantedSet}
use failover_cluster.Node.{RaftNode}
use failover_cluster.Node.Roles.{
  become_candidate, become_follower, become_pre_candidate, canvass, stand,
}
use failover_cluster.Node.Step.{step}

-- The votes reach a quorum of the configured voters.
abbrev pub Reaches : Option VoterSet → VoteGrantedSet → Type 0
Reaches s votes = (vs : VoterSet) × (s ≡ some vs) × (votes_reach_quorum vs votes ≡ true)

pub Reaches-quorum :
    {R : Type 0} (n : RaftNode R)
    → has_election_quorum n ≡ true
    → Reaches n.voter_set n.votes_received
unfolding has_election_quorum
Reaches-quorum n h = reaches n.voter_set h
  where
    reaches :
        (s : Option VoterSet)
        → elim s [ none ↦ false | some vs ↦ votes_reach_quorum vs n.votes_received ] ≡ true
        → Reaches s n.votes_received
    reaches none h = cc
    reaches (some vs) h = (vs, refl, h)

module _ {R : Type 0} where
  -- The input is the granted vote that completes the quorum, or the node needs no vote but its own.
  abbrev pub Elected : RaftNode R → Input → Type 0
  Elected n i =
      ((sender : ℕ) × (resp : VoteResponse) × (i ≡ Input.vote_response sender resp)
        × Counts n sender resp
        × Reaches n.voter_set (insert sender n.votes_received))
      ⊎ Reaches n.voter_set (n.id ∷ [])

module _ {R : Type 0} ⦃rand : Rand R⦄ where
  role-absorb : (n : RaftNode R) (resp : FetchResponse) → (absorb n resp).0.role ≡ n.role
  role-absorb n resp = ap (λ m. m.role) (absorb-frame n resp)

  role-advance_and_drain : (n : RaftNode R) → (advance_and_drain n).0.role ≡ n.role
  role-advance_and_drain n = ap (λ m. m.role) (advance_and_drain-frame n)

  become_follower-yields :
      (n : RaftNode R) (term : ℕ) (leader_id : Option ℕ)
      → is_leader_role (become_follower n term leader_id).0.role ≡ false
  unfolding become_follower
  become_follower-yields n term leader_id = ground arith

  become_candidate-alone :
      (n : RaftNode R)
      → is_leader_role (become_candidate n).0.role ≡ true
      → Reaches n.voter_set (n.id ∷ [])
  unfolding stand insert
  become_candidate-alone n =
      become_candidate_cases (λ r. is_leader_role r.0.role ≡ true → Reaches n.voter_set (n.id ∷ []))
        n (λ _ l. absurd (ground arith)) (λ all _. Reaches-quorum (stand n) all)

  become_pre_candidate-alone :
      (n : RaftNode R)
      → is_leader_role (become_pre_candidate n).0.role ≡ true
      → Reaches n.voter_set (n.id ∷ [])
  unfolding canvass
  become_pre_candidate-alone n =
      become_pre_candidate_cases
        (λ r. is_leader_role r.0.role ≡ true → Reaches n.voter_set (n.id ∷ [])) n
        (λ _ l. absurd (ground arith)) (λ _. become_candidate-alone (canvass n))

  decide_vote-yields :
      (n : RaftNode R) (req : VoteRequest) (newer stepped_down : Bool)
      → (decide_vote n req newer stepped_down).0.role ≡ n.role
  unfolding decide_vote cast_vote
  decide_vote-yields n req newer stepped_down = ground arith

  handle_vote_request-yields :
      (n : RaftNode R) (req : VoteRequest)
      → is_leader_role n.role ≡ false
      → is_leader_role (handle_vote_request n req).0.role ≡ false
  unfolding adopt_term
  handle_vote_request-yields n req f =
      handle_vote_request_cases (λ r. is_leader_role r.0.role ≡ false) n req f (λ _. f)
        λ _ _.
          answer_vote_cases (λ r. is_leader_role r.0.role ≡ false) n req
            (λ _.
              rw (decide_vote-yields (adopt_term n req.term) req true (is_stepping_down n.role))
                refl)
            (λ _. rw (decide_vote-yields n req false false) f)

  handle_vote_response-Elected :
      (n : RaftNode R) (sender : ℕ) (resp : VoteResponse)
      → is_leader_role n.role ≡ false
      → is_leader_role (handle_vote_response n sender resp).0.role ≡ true
      → Elected n (Input.vote_response sender resp)
  handle_vote_response-Elected n sender resp f =
      handle_vote_response_cases
        (λ r. is_leader_role r.0.role ≡ true → Elected n (Input.vote_response sender resp)) n sender
        resp (λ l. cc) (λ _ l. absurd (ground (arith, become_follower-yields n resp.term none)))
        (λ _ _ l. cc)
        (λ c all _. inl (sender, resp, refl, c, Reaches-quorum (with_vote n sender) all))

  handle_pre_vote_response-alone :
      (n : RaftNode R) (sender : ℕ) (resp : PreVoteResponse)
      → is_leader_role n.role ≡ false
      → is_leader_role (handle_pre_vote_response n sender resp).0.role ≡ true
      → Reaches n.voter_set (n.id ∷ [])
  handle_pre_vote_response-alone n sender resp f =
      handle_pre_vote_response_cases
        (λ r. is_leader_role r.0.role ≡ true → Reaches n.voter_set (n.id ∷ [])) n sender resp
        (λ l. cc) (λ _ l. absurd (ground (arith, become_follower-yields n resp.term none)))
        (λ _ _ l. cc) (λ _ _. become_candidate-alone (with_pre_vote n sender))

  handle_fetch_request-yields :
      (n : RaftNode R) (req : FetchRequest)
      → is_leader_role n.role ≡ false
      → is_leader_role (handle_fetch_request n req).0.role ≡ false
  unfolding note_fetch
  handle_fetch_request-yields n req f =
      handle_fetch_request_cases (λ r. is_leader_role r.0.role ≡ false) n req f
        (λ _. become_follower-yields n req.leader_epoch none) (λ _. f)

  recognise-yields :
      (n : RaftNode R) (leader_id : ℕ)
      → is_leader_role n.role ≡ false
      → is_leader_role (recognise n leader_id).0.role ≡ false
  recognise-yields n leader_id f =
      recognise_cases (λ r. is_leader_role r.0.role ≡ false) n leader_id (λ _. f)
        (λ _. become_follower-yields n n.hard_state.current_term (some leader_id))

  same_term-yields :
      (n : RaftNode R) (actions : List Action) (resp : FetchResponse)
      → is_leader_role n.role ≡ false
      → is_leader_role (same_term n actions resp).0.role ≡ false
  unfolding hear_leader
  same_term-yields n actions resp f =
      same_term_cases (λ r. is_leader_role r.0.role ≡ false) n actions resp f
        λ _.
          rw (role-absorb (hear_leader (recognise n resp.leader_id).0) resp)
            (recognise-yields n resp.leader_id f)

  handle_fetch_response-yields :
      (n : RaftNode R) (resp : FetchResponse)
      → is_leader_role n.role ≡ false
      → is_leader_role (handle_fetch_response n resp).0.role ≡ false
  handle_fetch_response-yields n resp f =
      handle_fetch_response_cases (λ r. is_leader_role r.0.role ≡ false) n resp f
        (λ _.
          same_term-yields _ _ resp
            (become_follower-yields n resp.leader_epoch (some resp.leader_id)))
        (λ _. same_term-yields n [] resp f)

  -- What a tick does before the timeouts touches neither role nor membership.
  pub before_timeouts-frame :
      (n : RaftNode R)
      → let m = (count_quorum_tick (schedule_fetch (advance_clock n)).0).0 in
        (m.role ≡ n.role) × (m.voter_set ≡ n.voter_set) × (m.id ≡ n.id)
  unfolding count_quorum_tick schedule_fetch advance_clock
  before_timeouts-frame n = ground arith

  check_timeouts-alone :
      (n : RaftNode R) (due : Bool)
      → is_leader_role n.role ≡ false
      → is_leader_role (check_timeouts n due).0.role ≡ true
      → Reaches n.voter_set (n.id ∷ [])
  check_timeouts-alone n due f =
      check_timeouts_cases (λ r. is_leader_role r.0.role ≡ true → Reaches n.voter_set (n.id ∷ [])) n
        due
        (λ _ _ l. absurd (ground (arith, become_follower-yields n n.hard_state.current_term none)))
        (λ l. cc) (λ _ _. become_pre_candidate-alone n)

  handle_tick-alone :
      (n : RaftNode R)
      → is_leader_role n.role ≡ false
      → is_leader_role (handle_tick n).0.role ≡ true
      → Reaches n.voter_set (n.id ∷ [])
  unfolding handle_tick
  handle_tick-alone n f l =
      let counted = count_quorum_tick (schedule_fetch (advance_clock n)).0 in
      let (same_role, same_voters, same_id) = before_timeouts-frame n in
      let alone = check_timeouts-alone counted.0 counted.1 (ap is_leader_role same_role ∙ f) l in
      subst (λ s. Reaches s (n.id ∷ [])) same_voters
        (subst (λ id. Reaches counted.0.voter_set (id ∷ [])) same_id alone)

  -- A node that becomes the leader was a candidate, and the input is a vote granted to it at its own
  -- term by a known voter that completes a quorum of the configured voters; or the node's own vote
  -- is a quorum.
  pub step-Elected :
      (n : RaftNode R) (i : Input)
      → is_leader_role n.role ≡ false
      → is_leader_role (step n i).0.role ≡ true
      → Elected n i
  unfolding step handle_snapshot_installed handle_snapshot_complete append_local
  step-Elected n Input.tick f l = inr (handle_tick-alone n f l)
  step-Elected n (Input.vote_request req) f l =
      absurd (ground (arith, handle_vote_request-yields n req f))
  step-Elected n (Input.vote_response sender resp) f l =
      handle_vote_response-Elected n sender resp f l
  step-Elected n (Input.pre_vote_request req) f l = cc
  step-Elected n (Input.pre_vote_response sender resp) f l =
      inr (handle_pre_vote_response-alone n sender resp f l)
  step-Elected n (Input.fetch_request req) f l =
      absurd (ground (arith, handle_fetch_request-yields n req f))
  step-Elected n (Input.fetch_response resp) f l =
      absurd (ground (arith, handle_fetch_response-yields n resp f))
  step-Elected n (Input.client_propose bytes) f l = absurd (
      ground (
        arith,
        handle_client_propose_cases (λ r. is_leader_role r.0.role ≡ false) n bytes f
            (λ _. rw (role-advance_and_drain (append_local n (command_entry n bytes))) f),
      ))
  step-Elected n (Input.fetch_request_acked id offset) f l = absurd (
      ground (
        arith,
        handle_fetch_request_acked_cases (λ r. is_leader_role r.0.role ≡ false) n id offset f
            (λ _. rw (role-advance_and_drain (with_ack n id offset)) f),
      ))
  step-Elected n (Input.snapshot_complete m) f l = absurd (ground arith)
  step-Elected n (Input.snapshot_installed m) f l = cc
  step-Elected n (Input.fetch_snapshot_received m bytes) f l = cc
