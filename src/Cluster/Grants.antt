-- ===== src/Cluster/Grants.antt =====
-- What a granted vote means for its voter's hard state.
use failover_cluster.Node.Step.{step}
use failover_cluster.Cluster.Handlers.{IsOther, handle_vote_request-IsSame, step-Keeps}
use failover_cluster.Node.Election.{
  adopt_term, answer_vote, cast_vote, decide_vote, grants_vote, handle_vote_request,
}
use failover_cluster.Timer.{Rand}
use failover_cluster.Prelude.{
  List, [], arith, false, inl, inr, none, refl, some, u64_max, ℕ, ℕ_discrete, ◌++◌, ◌⊎◌, ◌≡◌, ◌<◌,
  ◌∷◌, subst,
}
use failover_cluster.Message.{Action, VoteRequest, Input}
use failover_cluster.Cluster.{Grant, In, grants_of, grant_of, NoGrant, is_grant, IsSame}
use failover_cluster.Node.{RaftNode}
use failover_cluster.Types.{HardState}
use failover_cluster.Ballot.{Follows}

-- The voter is past the term, or at it with its vote for the candidate.
abbrev pub Honours : HardState → ℕ → ℕ → Type 0
Honours h term candidate_id =
    (term < h.current_term) ⊎ ((term ≡ h.current_term) × (h.voted_for ≡ some candidate_id))

pub Honours-Follows :
    (h h' : HardState) (term candidate_id : ℕ)
    → Follows h h'
    → h'.current_term < u64_max
    → Honours h term candidate_id
    → Honours h' term candidate_id
Honours-Follows h h' term candidate_id f l (inl past) = let ge = f.grows l in inl (omega arith)
Honours-Follows h h' term candidate_id f l (inr (same, voted)) =
    let ge = f.grows l in
    elim (ℕ_discrete h'.current_term h.current_term) [
      | yes e ↦ inr (omega arith, f.kept l e candidate_id voted)
      | no ne ↦ inl (omega arith)
    ]

pub In-append : (g : Grant) (xs ys : List Grant) → In g (xs ++ ys) → In g xs ⊎ In g ys
In-append g [] ys h = inr h
In-append g (x ∷ xs) ys (inl e) = inl (inl e)
In-append g (x ∷ xs) ys (inr h) = elim (In-append g xs ys h) [ inl a ↦ inl (inr a) | inr b ↦ inr b ]

pub In-later : (g : Grant) (xs ys : List Grant) → In g ys → In g (xs ++ ys)
In-later g [] ys h = h
In-later g (x ∷ xs) ys h = inr (In-later g xs ys h)

grant_of-none : (voter : ℕ) (a : Action) → is_grant a ≡ false → grant_of voter a ≡ none
grant_of-none voter a h = ground arith

pub grants_of-NoGrant :
    (voter : ℕ) (actions : List Action) → NoGrant actions → grants_of voter actions ≡ []
grants_of-NoGrant voter [] q = refl
grants_of-NoGrant voter (a ∷ rest) q =
    rw (grant_of-none voter a q.0) (grants_of-NoGrant voter rest q.1)

module _ {R : Type 0} ⦃rand : Rand R⦄ where
  -- Where a step grants a vote, the node stands at its term with its vote for the candidate.
  handle_vote_request-binds :
      (n : RaftNode R) (req : VoteRequest) (g : Grant) (k : ℕ)
      → In g (grants_of k (handle_vote_request n req).1)
      → let m = (handle_vote_request n req).0 in
        (g.voter ≡ k)
        × (g.term ≡ m.hard_state.current_term)
        × (m.hard_state.voted_for ≡ some g.candidate_id)
  unfolding handle_vote_request answer_vote decide_vote grants_vote cast_vote adopt_term
  handle_vote_request-binds n req g k h = ground arith

  -- Any step: the grants are the node's own and bind it, and the membership stays.
  pub step-binds :
      (n : RaftNode R) (i : Input) (g : Grant) (k : ℕ)
      → In g (grants_of k (step n i).1)
      → let m = (step n i).0 in
        (g.voter ≡ k)
        × (g.term ≡ m.hard_state.current_term)
        × (m.hard_state.voted_for ≡ some g.candidate_id)
  step-binds n i g k h = binds i h
    where
      other : (i : Input) → IsOther i → In g (grants_of k (step n i).1) → ⊥
      other i o h = subst (In g) (grants_of-NoGrant k (step n i).1 (step-Keeps n i o).1) h

      binds :
          (i : Input)
          → In g (grants_of k (step n i).1)
          → let m = (step n i).0 in
            (g.voter ≡ k)
            × (g.term ≡ m.hard_state.current_term)
            × (m.hard_state.voted_for ≡ some g.candidate_id)
      binds (Input.vote_request req) h =
          unfold step in handle_vote_request-binds n req g k (unfold step in h)
      binds i h = absurd (other i tt h)

  pub step-IsSame : (n : RaftNode R) (i : Input) → IsSame n (step n i).0
  step-IsSame n (Input.vote_request req) = unfold step in handle_vote_request-IsSame n req
  step-IsSame n i = (step-Keeps n i tt).0
