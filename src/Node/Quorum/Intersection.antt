-- ===== src/Node/Quorum/Intersection.antt =====
-- Votes of one voter set: xraft-core/src/node.rs, `has_election_quorum`.
use failover_cluster.Prelude.{
  Bool-cases, List, [], arith, contains, count_if, false, if_elim, inl, inr, refl, true, ℕ,
  ℕ_discrete, ◌≤◌, if◌then◌else◌, ◌+◌, ◌⊎◌, ◌≡◌, ◌&&◌, ◌∷◌,
}
use failover_cluster.Types.{VoterSet, IsLawful, distinct_count}
use failover_cluster.Votes.{VoteGrantedSet, insert}
use failover_cluster.Node.Quorum.{votes_reach_quorum}

-- No vote is held twice.
abbrev pub IsDistinct : VoteGrantedSet → Type 0
IsDistinct [] = Unit
IsDistinct (x ∷ xs) = (contains xs x ≡ false) × IsDistinct xs

pub insert-IsDistinct :
    (id : ℕ) (votes : VoteGrantedSet) → IsDistinct votes → IsDistinct (insert id votes)
unfolding insert
insert-IsDistinct id votes d = if_elim IsDistinct (contains votes id) (λ _. d) (λ new. (new, d))

count-known :
    (v : ℕ) (voters votes : List ℕ)
    → contains voters v ≡ true
    → count_if (contains (v ∷ voters)) votes ≡ count_if (contains voters) votes
count-known v voters [] h = refl
count-known v voters (x ∷ votes) h = elim (ℕ_discrete v x) [
  | yes e ↦ let k : contains voters x ≡ true = cc in ground (arith, count-known v voters votes h)
  | no ne ↦ ground (arith, count-known v voters votes h)
]

-- One more voter adds the one vote that is its own.
count-one_more :
    (v : ℕ) (voters : List ℕ) (votes : VoteGrantedSet)
    → IsDistinct votes
    → count_if (contains (v ∷ voters)) votes
      ≤ count_if (contains voters) votes + (if contains votes v then 1 else 0)
count-one_more v voters [] d = omega arith
count-one_more v voters (x ∷ votes) d = elim (ℕ_discrete v x) [
  | yes e ↦
      let absent : contains votes v ≡ false = cc in
      ground (arith, count-one_more v voters votes d.1)
  | no ne ↦ ground (arith, count-one_more v voters votes d.1)
]

-- A voter whose vote is in both.
abbrev pub Shared : List ℕ → VoteGrantedSet → VoteGrantedSet → Type 0
Shared voters a b =
    (v : ℕ) × (contains voters v ≡ true) × (contains a v ≡ true) × (contains b v ≡ true)

-- Without a shared voter the votes are no more than the distinct voters.
meet_or_few :
    (voters : List ℕ) (a b : VoteGrantedSet)
    → IsDistinct a
    → IsDistinct b
    → Shared voters a b
      ⊎ (count_if (contains voters) a + count_if (contains voters) b ≤ distinct_count voters)
meet_or_few [] a b da db = inr (ground (arith, none_in a, none_in b))
  where
    none_in : (xs : List ℕ) → count_if (contains []) xs ≡ 0
    none_in [] = refl
    none_in (x ∷ xs) = none_in xs
meet_or_few (v ∷ voters) a b da db = elim (Bool-cases (contains a v && contains b v)) [
  | inl both ↦ inl (v, ground arith, ground arith, ground arith)
  | inr not_both ↦ elim (meet_or_few voters a b da db) [
    | inl (w, known, in_a, in_b) ↦ inl (w, ground arith, in_a, in_b)
    | inr few ↦ inr (
        ground (
          arith,
          count-one_more v voters a da,
          count-one_more v voters b db,
          count-known v voters a,
          count-known v voters b,
        ))
  ]
]

-- Two sets of votes that each reach the quorum of one voter set, no vote held twice, have a voter in
-- common.
pub votes_reach_quorum-Shared :
    (vs : VoterSet) (a b : VoteGrantedSet)
    → IsLawful vs
    → IsDistinct a
    → IsDistinct b
    → votes_reach_quorum vs a ≡ true
    → votes_reach_quorum vs b ≡ true
    → Shared vs.voters a b
unfolding votes_reach_quorum
votes_reach_quorum-Shared vs a b l da db ha hb = elim (meet_or_few vs.voters a b da db) [
  | inl s ↦ s
  | inr few ↦ absurd (ground (arith, l.quorum_lem, l.unique_lem))
]
