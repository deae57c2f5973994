-- ===== src/Cluster/Safety.antt =====
-- The votes and their record across the runs of a cluster.
use failover_cluster.Candidacy.Step.{step-IsStanding}
use failover_cluster.Backing.Step.{step-IsBacked}
use failover_cluster.Ballot.Step.{step-Follows}
use failover_cluster.Node.Replicate.{same_term}
use failover_cluster.Node.Step.{step}
use failover_cluster.Timer.{Rand}
use failover_cluster.Message.{Input, VoteResponse}
use failover_cluster.Prelude.{
  All, List, [], arith, contains, if_elim, inl, inr, some, subst, sym, true, ℕ, ℕ_discrete, ◌⊎◌,
  ◌∷◌, ◌==◌, ◌++◌, ◌≡◌, ◌∙◌,
}
use failover_cluster.Backing
use failover_cluster.Candidacy
use failover_cluster.Cluster.{
  Cluster, Grant, In, deliver, IsDeliverable, Run, done, grants_of, next, IsSent,
}
use failover_cluster.Cluster.Grants.{
  Honours, In-later, Honours-Follows, In-append, step-IsSame, step-binds,
}
use failover_cluster.Node.{RaftNode}
use failover_cluster.Types.{VoterSet, HardState}

-- The vote counts for node `k`: it is its own, or it is on record.
abbrev pub Counted : List Grant → ℕ → ℕ → ℕ → Type 0
Counted gs k term voter =
    (voter ≡ k) ⊎ In (record { voter = voter; term = term; candidate_id = k }) gs

module _ {R : Type 0} where
  -- The nodes have their ids and one voter set, their votes are in order and backed by the record, and
  -- each granted vote binds its voter and is its only one in the term.
  pub record IsConsistent (vs : VoterSet) (c : Cluster R) : Type 0 where
    pub ids : (k : ℕ) → (c.nodes k).id ≡ k
    pub members : (k : ℕ) → (c.nodes k).voter_set ≡ some vs
    pub standing : (k : ℕ) → Candidacy.Inv (c.nodes k)
    pub backed : (k : ℕ) → Backing.Inv (Counted c.granted k) (c.nodes k)
    pub honoured :
        (g : Grant) → In g c.granted → Honours (c.nodes g.voter).hard_state g.term g.candidate_id
    pub single :
        (g h : Grant)
        → In g c.granted
        → In h c.granted
        → g.voter ≡ h.voter
        → g.term ≡ h.term
        → g.candidate_id ≡ h.candidate_id

-- A larger record backs what a smaller one backs.
All-Counted :
    (gs more : List Grant) (k term : ℕ) (votes : List ℕ)
    → All (Counted gs k term) votes
    → All (Counted (more ++ gs) k term) votes
All-Counted gs more k term [] all = tt
All-Counted gs more k term (v ∷ votes) (inl e, all) = (inl e, All-Counted gs more k term votes all)
All-Counted gs more k term (v ∷ votes) (inr h, all) =
    (inr (In-later _ more gs h), All-Counted gs more k term votes all)

backed_more :
    {R : Type 0} (n : RaftNode R) (gs more : List Grant) (k : ℕ)
    → Backing.Inv (Counted gs k) n
    → Backing.Inv (Counted (more ++ gs) k) n
backed_more n gs more k b = record {
  distinct = b.distinct;
  standing = λ s. All-Counted gs more k n.hard_state.current_term n.votes_received (b.standing s);
  leading = λ l.
      let (votes, d, r, all) = b.leading l in
      (votes, d, r, All-Counted gs more k n.hard_state.current_term votes all);
}

pub All-contains : (P : ℕ → Type 0) (xs : List ℕ) (w : ℕ) → All P xs → contains xs w ≡ true → P w
All-contains P [] w all h = cc
All-contains P (x ∷ xs) w all h = elim (ℕ_discrete x w) [
  | yes e ↦ subst P e all.0
  | no ne ↦ All-contains P xs w all.1 (ground arith)
]

-- A vote at the node's own term is the only one that it can honour.
pub Honours-one :
    (h : HardState) (term a b : ℕ)
    → term ≡ h.current_term
    → h.voted_for ≡ some a
    → Honours h term b
    → a ≡ b
Honours-one h term a b at_term voted (inl past) = absurd (omega arith)
Honours-one h term a b at_term voted (inr (same, voted')) = ground arith

-- A granted vote that is delivered counts.
sent_counts :
    (gs more : List Grant) (id : ℕ) (i : Input)
    → IsSent gs id i
    → (sender : ℕ) (resp : VoteResponse) → i ≡ Input.vote_response sender resp
    → resp.vote_granted ≡ true
    → Counted (more ++ gs) id resp.term sender
sent_counts gs more id (Input.vote_response s r) (inl refused) sender resp e granted =
    let same : r ≡ resp = cc in cc
sent_counts gs more id (Input.vote_response s r) (inr h) sender resp e granted =
    let same : r ≡ resp = cc in
    let from : s ≡ sender = cc in
    subst (λ v. Counted (more ++ gs) id resp.term v) from
      (subst (λ (q : VoteResponse). Counted (more ++ gs) id q.term s) same
        (inr (In-later _ more gs h)))
sent_counts gs more id i given sender resp e granted = cc

module _ {R : Type 0} ⦃rand : Rand R⦄ where
  -- What a delivery makes of the nodes, for a property that the step gives the one and the others have.
  each_node :
      (P : RaftNode R → ℕ → Type 0) (c : Cluster R) (id : ℕ) (i : Input)
      → P (step (c.nodes id) i).0 id
      → ((k : ℕ) → P (c.nodes k) k)
      → (k : ℕ) → P ((deliver c id i).nodes k) k
  each_node P c id i moved rest k =
      if_elim (λ m. P m k) (k == id)
        (λ e.
          let same : k ≡ id = ground arith in
          subst (λ j. P (step (c.nodes id) i).0 j) (sym same) moved)
        (λ _. rest k)

  -- A vote granted in the step binds the node as it is afterwards.
  fresh-bound :
      (c : Cluster R) (id : ℕ) (i : Input) (g : Grant)
      → In g (grants_of id (step (c.nodes id) i).1)
      → let h = ((deliver c id i).nodes g.voter).hard_state in
        (g.term ≡ h.current_term) × (h.voted_for ≡ some g.candidate_id)
  fresh-bound c id i g fresh =
      let (own, at_term, voted) = step-binds (c.nodes id) i g id fresh in
      if_elim
        (λ (m : RaftNode R).
          (g.term ≡ m.hard_state.current_term) × (m.hard_state.voted_for ≡ some g.candidate_id))
        (g.voter == id) (λ _. (at_term, voted)) (λ other. absurd (ground arith))

  deliver-honoured :
      (vs : VoterSet) (c : Cluster R) (id : ℕ) (i : Input)
      → IsDeliverable c id i
      → IsConsistent vs c
      → (g : Grant) → In g (deliver c id i).granted
      → Honours ((deliver c id i).nodes g.voter).hard_state g.term g.candidate_id
  deliver-honoured vs c id i d v g h =
      elim (In-append g (grants_of id (step (c.nodes id) i).1) c.granted h) [
        | inl fresh ↦ inr (fresh-bound c id i g fresh)
        | inr old ↦
            if_elim (λ (m : RaftNode R). Honours m.hard_state g.term g.candidate_id) (g.voter == id)
              (λ e.
                let same : g.voter ≡ id = ground arith in
                Honours-Follows (c.nodes id).hard_state (step (c.nodes id) i).0.hard_state g.term
                  g.candidate_id (step-Follows (c.nodes id) i) d.0
                  (subst (λ k. Honours (c.nodes k).hard_state g.term g.candidate_id) same
                    (v.honoured g old)))
              (λ _. v.honoured g old)
      ]

  fresh-single :
      (vs : VoterSet) (c : Cluster R) (id : ℕ) (i : Input)
      → IsDeliverable c id i
      → IsConsistent vs c
      → (g h : Grant) → In g (grants_of id (step (c.nodes id) i).1)
      → In h (deliver c id i).granted
      → g.voter ≡ h.voter
      → g.term ≡ h.term
      → g.candidate_id ≡ h.candidate_id
  fresh-single vs c id i d v g h fresh in_h same_voter same_term =
      let (at_term, voted) = fresh-bound c id i g fresh in
      let honoured = deliver-honoured vs c id i d v h in_h in
      Honours-one ((deliver c id i).nodes g.voter).hard_state g.term g.candidate_id h.candidate_id
        at_term voted
        (subst (λ k. Honours ((deliver c id i).nodes k).hard_state g.term h.candidate_id)
          (sym same_voter)
          (subst (λ t. Honours ((deliver c id i).nodes h.voter).hard_state t h.candidate_id)
            (sym same_term) honoured))

  deliver-single :
      (vs : VoterSet) (c : Cluster R) (id : ℕ) (i : Input)
      → IsDeliverable c id i
      → IsConsistent vs c
      → (g h : Grant) → In g (deliver c id i).granted
      → In h (deliver c id i).granted
      → g.voter ≡ h.voter
      → g.term ≡ h.term
      → g.candidate_id ≡ h.candidate_id
  deliver-single vs c id i d v g h in_g in_h same_voter same_term =
      elim (In-append g (grants_of id (step (c.nodes id) i).1) c.granted in_g) [
        | inl fresh ↦ fresh-single vs c id i d v g h fresh in_h same_voter same_term
        | inr old_g ↦ elim (In-append h (grants_of id (step (c.nodes id) i).1) c.granted in_h) [
          | inl fresh ↦
              sym (fresh-single vs c id i d v h g fresh in_g (sym same_voter) (sym same_term))
          | inr old_h ↦ v.single g h old_g old_h same_voter same_term
        ]
      ]

  deliver-backed :
      (vs : VoterSet) (c : Cluster R) (id : ℕ) (i : Input)
      → IsDeliverable c id i
      → IsConsistent vs c
      → (k : ℕ) → Backing.Inv (Counted (deliver c id i).granted k) ((deliver c id i).nodes k)
  deliver-backed vs c id i d v =
      each_node (λ n k. Backing.Inv (Counted (deliver c id i).granted k) n) c id i
        (step-IsBacked (Counted (deliver c id i).granted id) (c.nodes id) i (λ t. inl (v.ids id))
          (sent_counts c.granted more id i d.1)
          (backed_more (c.nodes id) c.granted more id (v.backed id)))
        (λ k. backed_more (c.nodes k) c.granted more k (v.backed k))
    where
      more : List Grant
      more = grants_of id (step (c.nodes id) i).1

  deliver-IsConsistent :
      (vs : VoterSet) (c : Cluster R) (id : ℕ) (i : Input)
      → IsDeliverable c id i
      → IsConsistent vs c
      → IsConsistent vs (deliver c id i)
  deliver-IsConsistent vs c id i d v =
      let (same_id, same_voters) = step-IsSame (c.nodes id) i in
      record {
        ids = each_node (λ n k. n.id ≡ k) c id i (same_id ∙ v.ids id) v.ids;
        members =
            each_node (λ n k. n.voter_set ≡ some vs) c id i (same_voters ∙ v.members id) v.members;
        standing =
            each_node (λ n k. Candidacy.Inv n) c id i
              (step-IsStanding (c.nodes id) i (v.standing id)) v.standing;
        backed = deliver-backed vs c id i d v;
        honoured = deliver-honoured vs c id i d v;
        single = deliver-single vs c id i d v;
      }

  pub Run-IsConsistent :
      (vs : VoterSet) (c d : Cluster R) → Run c d → IsConsistent vs c → IsConsistent vs d
  Run-IsConsistent vs c d done v = v
  Run-IsConsistent vs c d (next id i del r) v =
      Run-IsConsistent vs (deliver c id i) d r (deliver-IsConsistent vs c id i del v)
