-- ===== src/Elections.antt =====
-- The grants of votes and pre-votes: xraft-core/src/node.rs, `handle_vote_request` and
-- `handle_pre_vote_request`.
use failover_cluster.Types.{is_observer_role, is_leader_role}
use failover_cluster.Timer.{Rand}
use failover_cluster.Prelude.{
  Bool, List, [], arith, false, none, some, str_eq, true, ℕ, ◌<◌, ◌≤◌, ◌||◌, ◌∷◌, ◌≡◌, ◌⊎◌, ◌↔◌,
  Option, inl, inr, refl, ◌-◌,
}
use failover_cluster.Node.{RaftNode, candidate_log_is_up_to_date, is_known_voter}
use failover_cluster.Node.Election.{
  handle_vote_request, decide_vote, grants_vote, cast_vote, answer_vote, adopt_term,
  grants_pre_vote, handle_pre_vote_request, leader_recently_active, contact_recent,
}
use failover_cluster.Message.{Action, OutboundMessage, VoteRequest, PreVoteRequest}

-- The log `(term, index)` is at least as new as `(term', index')`: a later last term, or the same and
-- an index as large.
abbrev pub IsUpToDate : ℕ → ℕ → ℕ → ℕ → Type 0
IsUpToDate term index term' index' = (term' < term) ⊎ ((term ≡ term') × (index' ≤ index))

-- The log test is exactly that order.
pub candidate_log_is_up_to_date_lem :
    {R : Type 0} (n : RaftNode R) (index term : ℕ)
    → (candidate_log_is_up_to_date n index term ≡ true)
      ↔ IsUpToDate term index n.last_log_term n.last_log_index
unfolding candidate_log_is_up_to_date
candidate_log_is_up_to_date_lem n index term = ground arith

-- The reply that the actions hold last grants the vote.
abbrev pub grants : Action → Bool
grants a = elim a [
  | Action.send_message to m ↦ elim m [
    | OutboundMessage.vote_response resp ↦ resp.vote_granted
    | OutboundMessage.pre_vote_response resp ↦ resp.vote_granted
    | _ ↦ false
  ]
  | _ ↦ false
]

abbrev pub any_grants : List Action → Bool
any_grants [] = false
any_grants (a ∷ rest) = grants a || any_grants rest

module _ {R : Type 0} where
  -- What a granted vote rests on, and what it leaves: `n` before, `m` after.
  pub record Granted (n m : RaftNode R) (req : VoteRequest) : Type 0 where
    pub same_cluster : str_eq req.cluster_id n.config.cluster_id ≡ true
    pub known : is_known_voter n req.candidate_id ≡ true
    pub current : n.hard_state.current_term ≤ req.term
    pub up_to_date :
        IsUpToDate req.last_log_term req.last_log_index n.last_log_term n.last_log_index
    pub free :
        (n.hard_state.current_term < req.term)
        ⊎ ((n.hard_state.voted_for ≡ none) ⊎ (n.hard_state.voted_for ≡ some req.candidate_id))
    pub cast : m.hard_state.voted_for ≡ some req.candidate_id
    pub at_term : m.hard_state.current_term ≡ req.term

module _ {R : Type 0} ⦃rand : Rand R⦄ where
  -- If any action grants the vote, the request is from a known voter of the cluster at a term that is
  -- not old, its log is at least as new as the node's, the node had no other vote in that term, and
  -- it now stands at that term with its vote for the candidate.
  pub handle_vote_request-Granted :
      (n : RaftNode R) (req : VoteRequest)
      → any_grants (handle_vote_request n req).1 ≡ true
      → Granted n (handle_vote_request n req).0 req
  unfolding handle_vote_request answer_vote decide_vote grants_vote cast_vote adopt_term
      candidate_log_is_up_to_date
  handle_vote_request-Granted n req g = record {
    same_cluster = ground arith;
    known = ground arith;
    current = ground arith;
    up_to_date = ground arith;
    free = ground arith;
    cast = ground arith;
    at_term = ground arith;
  }

  -- And a request that meets these conditions is granted, by a node that is no observer.
  pub handle_vote_request-grants :
      (n : RaftNode R) (req : VoteRequest)
      → str_eq req.cluster_id n.config.cluster_id ≡ true
      → is_observer_role n.role ≡ false
      → is_known_voter n req.candidate_id ≡ true
      → n.hard_state.current_term ≤ req.term
      → IsUpToDate req.last_log_term req.last_log_index n.last_log_term n.last_log_index
      → (n.hard_state.current_term < req.term)
        ⊎ ((n.hard_state.voted_for ≡ none) ⊎ (n.hard_state.voted_for ≡ some req.candidate_id))
      → any_grants (handle_vote_request n req).1 ≡ true
  unfolding handle_vote_request answer_vote decide_vote grants_vote cast_vote adopt_term
      candidate_log_is_up_to_date
  handle_vote_request-grants n req same voting known current newer free = ground arith

module _ {R : Type 0} where
  -- No message of a leader within the last `timeout_ticks` ticks.
  abbrev pub Unheard : RaftNode R → Type 0
  Unheard n =
      (n.last_leader_contact_tick ≡ none)
      ⊎ ((t : ℕ) × (n.last_leader_contact_tick ≡ some t)
          × (n.election_timer.timeout_ticks ≤ n.logical_tick - t))

  contact_recent-Unheard :
      (n : RaftNode R) (o : Option ℕ)
      → (contact_recent n o ≡ false) ↔ (
          (o ≡ none)
          ⊎ ((t : ℕ) × (o ≡ some t) × (n.election_timer.timeout_ticks ≤ n.logical_tick - t)))
  unfolding contact_recent
  contact_recent-Unheard n none = (λ _. inl refl, λ _. refl)
  contact_recent-Unheard n (some t) = (λ h. inr (t, refl, ground arith), λ u. ground (arith, u))

  leader_recently_active_iff :
      (n : RaftNode R)
      → (leader_recently_active n ≡ false) ↔ ((is_leader_role n.role ≡ false) × Unheard n)
  unfolding leader_recently_active
  leader_recently_active_iff n =
      let (there, back) = contact_recent-Unheard n n.last_leader_contact_tick in
      (
        λ h.
            let follows : is_leader_role n.role ≡ false = ground arith in
            (follows, there (ground arith)),
        λ (h : (is_leader_role n.role ≡ false) × Unheard n). rw h.0 (back h.1),
      )

  -- When a pre-vote is granted: the conditions, one by one.
  pub record PreGrants (n : RaftNode R) (req : PreVoteRequest) : Type 0 where
    pub same_cluster : str_eq req.cluster_id n.config.cluster_id ≡ true
    pub voting : is_observer_role n.role ≡ false
    pub known : is_known_voter n req.candidate_id ≡ true
    pub newer : n.hard_state.current_term < req.next_term
    pub up_to_date :
        IsUpToDate req.last_log_term req.last_log_index n.last_log_term n.last_log_index
    pub not_leading : is_leader_role n.role ≡ false
    pub unheard : Unheard n

  -- A pre-vote is granted exactly if the request is of the cluster and from a known voter, the node
  -- is no observer, the proposed term is later than the node's, the candidate's log is at least as
  -- new, and the node has not heard from a leader within its election timeout and is none itself.
  pub handle_pre_vote_request_iff :
      (n : RaftNode R) (req : PreVoteRequest)
      → (any_grants (handle_pre_vote_request n req) ≡ true) ↔ PreGrants n req
  unfolding handle_pre_vote_request grants_pre_vote candidate_log_is_up_to_date
  handle_pre_vote_request_iff n req =
      let (there, back) = leader_recently_active_iff n in
      (
        λ g.
            let quiet : leader_recently_active n ≡ false = ground arith in
            record {
              same_cluster = ground arith;
              voting = ground arith;
              known = ground arith;
              newer = ground arith;
              up_to_date = ground arith;
              not_leading = (there quiet).0;
              unheard = (there quiet).1;
            },
        λ p.
            let quiet = back (p.not_leading, p.unheard) in
            ground (arith, p.same_cluster, p.voting, p.known, p.newer, p.up_to_date, quiet),
      )
