-- ===== src/Cluster/Leaders.antt =====
-- The leaders of a cluster.
use failover_cluster.Node.Quorum.Intersection.{votes_reach_quorum-Shared}
use failover_cluster.Node.Quorum.{votes_reach_quorum}
use failover_cluster.Votes.{VoteGrantedSet}
use failover_cluster.Leadership.{Reaches}
use failover_cluster.Timer.{Rand}
use failover_cluster.Prelude.{
  Option, [], ap, arith, inl, inr, refl, some, subst, sym, true, ℕ, ◌≡◌, ◌∙◌,
}
use failover_cluster.Cluster.{Cluster, In, Run}
use failover_cluster.Cluster.Safety.{Counted, IsConsistent, All-contains, Run-IsConsistent}
use failover_cluster.Cluster.Safety.{Honours-one}
use failover_cluster.Types.{VoterSet, IsLawful, is_leader_role, is_fetching}

Reaches-some :
    (vs : VoterSet) (s : Option VoterSet) (votes : VoteGrantedSet)
    → s ≡ some vs
    → Reaches s votes
    → votes_reach_quorum vs votes ≡ true
Reaches-some vs s votes e (ws, e', h) =
    let same : ws ≡ vs = cc in subst (λ (x : VoterSet). votes_reach_quorum x votes ≡ true) same h

module _ {R : Type 0} where
  -- A leader's own vote is for itself, in its term.
  own_vote :
      (vs : VoterSet) (c : Cluster R) (a b term : ℕ)
      → IsConsistent vs c
      → is_leader_role (c.nodes a).role ≡ true
      → (c.nodes a).hard_state.current_term ≡ term
      → In (record { voter = a; term = term; candidate_id = b }) c.granted
      → a ≡ b
  own_vote vs c a b term v leads at_term h =
      let own = (v.standing a).self_voted (ground (arith, leads)) in
      Honours-one (c.nodes a).hard_state term a b (sym at_term) (own ∙ ap some (v.ids a))
        (v.honoured (record { voter = a; term = term; candidate_id = b }) h)

  -- Two nodes with the vote of one voter in a term, both leaders of it, are one.
  same_voter :
      (vs : VoterSet) (c : Cluster R) (a b w term : ℕ)
      → IsConsistent vs c
      → is_leader_role (c.nodes a).role ≡ true
      → is_leader_role (c.nodes b).role ≡ true
      → (c.nodes a).hard_state.current_term ≡ term
      → (c.nodes b).hard_state.current_term ≡ term
      → Counted c.granted a term w
      → Counted c.granted b term w
      → a ≡ b
  same_voter vs c a b w term v la lb ta tb (inl wa) (inl wb) = sym wa ∙ wb
  same_voter vs c a b w term v la lb ta tb (inl wa) (inr hb) =
      own_vote vs c a b term v la ta
        (subst (λ x. In (record { voter = x; term = term; candidate_id = b }) c.granted) wa hb)
  same_voter vs c a b w term v la lb ta tb (inr ha) (inl wb) = sym (
      own_vote vs c b a term v lb tb
        (subst (λ x. In (record { voter = x; term = term; candidate_id = a }) c.granted) wb ha))
  same_voter vs c a b w term v la lb ta tb (inr ha) (inr hb) =
      v.single (record { voter = w; term = term; candidate_id = a })
        (record { voter = w; term = term; candidate_id = b }) ha hb refl refl

  consistent_leaders :
      (vs : VoterSet) (c : Cluster R) (a b : ℕ)
      → IsLawful vs
      → IsConsistent vs c
      → is_leader_role (c.nodes a).role ≡ true
      → is_leader_role (c.nodes b).role ≡ true
      → (c.nodes a).hard_state.current_term ≡ (c.nodes b).hard_state.current_term
      → a ≡ b
  consistent_leaders vs c a b l v la lb same =
      let (va, da, ra, ja) = (v.backed a).leading la in
      let (vb, db, rb, jb) = (v.backed b).leading lb in
      let (w, known, in_a, in_b) =
        votes_reach_quorum-Shared vs va vb l da db
          (Reaches-some vs (c.nodes a).voter_set va (v.members a) ra)
          (Reaches-some vs (c.nodes b).voter_set vb (v.members b) rb) in
      same_voter vs c a b w (c.nodes b).hard_state.current_term v la lb same refl
        (subst (λ t. Counted c.granted a t w) same (All-contains _ va w ja in_a))
        (All-contains _ vb w jb in_b)

  -- Followers and observers, with ids and one voter set, before any vote.
  pub record IsFresh (vs : VoterSet) (c : Cluster R) : Type 0 where
    pub ids : (k : ℕ) → (c.nodes k).id ≡ k
    pub members : (k : ℕ) → (c.nodes k).voter_set ≡ some vs
    pub followers : (k : ℕ) → is_fetching (c.nodes k).role ≡ true
    pub unvoted :
        (k : ℕ) → ((c.nodes k).votes_received ≡ []) × ((c.nodes k).pre_votes_received ≡ [])
    pub ungranted : c.granted ≡ []

  fresh-IsConsistent : (vs : VoterSet) (c : Cluster R) → IsFresh vs c → IsConsistent vs c
  fresh-IsConsistent vs c f = record {
    ids = f.ids;
    members = f.members;
    standing = λ k. record {
      votes_distinct = rw (f.unvoted k).0 tt;
      pre_votes_distinct = rw (f.unvoted k).1 tt;
      self_voted = λ s. absurd (ground (arith, f.followers k));
      led = λ l. absurd (ground (arith, f.followers k));
    };
    backed = λ k. record {
      distinct = rw (f.unvoted k).0 tt;
      standing = λ s. absurd (ground (arith, f.followers k));
      leading = λ l. absurd (ground (arith, f.followers k));
    };
    honoured = λ g h. absurd (subst (In g) f.ungranted h);
    single = λ g h in_g in_h _ _. absurd (subst (In g) f.ungranted in_g);
  }

module _ {R : Type 0} ⦃rand : Rand R⦄ where
  -- Election safety: from a cluster of followers and observers with one voter set, whose quorum is a
  -- majority of its node ids, whatever the nodes' inputs and their order, as long as a granted vote is
  -- delivered only to the node to which its voter gave it and no term saturates at `u64::MAX`, two
  -- leaders of the same term are the same node.
  pub Run-one_leader :
      (vs : VoterSet) (c d : Cluster R) (a b : ℕ)
      → IsLawful vs
      → IsFresh vs c
      → Run c d
      → is_leader_role (d.nodes a).role ≡ true
      → is_leader_role (d.nodes b).role ≡ true
      → (d.nodes a).hard_state.current_term ≡ (d.nodes b).hard_state.current_term
      → a ≡ b
  Run-one_leader vs c d a b l f r =
      consistent_leaders vs d a b l (Run-IsConsistent vs c d r (fresh-IsConsistent vs c f))
