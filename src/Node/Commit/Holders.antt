-- ===== src/Node/Commit/Holders.antt =====
-- Who holds what a leader commits: xraft-core/src/node.rs, `try_advance_commit_index`.
use failover_cluster.Node.Commit.{
  offset_of, push_some, try_advance_commit_index, voter_offsets, get,
}
use failover_cluster.Node.{RaftNode, is_self}
use failover_cluster.Peers.{PeerState}
use failover_cluster.Types.{IsLawful, VoterSet, is_leader_role}
use failover_cluster.Node.Commit.Rule.{advances, quorum-try_advance_commit_index}
use failover_cluster.Node.Commit.Offsets.{reached}
use failover_cluster.Node.Quorum.Intersection.{IsDistinct}
use failover_cluster.Prelude.{
  All, List, ℕ, Bool-cases, Option, [], ap, arith, contains, dec_lt, false, inl, inr, leb, length,
  none, refl, some, subst, suc, true, ℕ_discrete, ◌<◌, ◌≡◌, ◌∙◌, ◌≤◌, ◌∷◌, ◌&&◌, ◌⊎◌, ◌≢◌,
}

-- The new voter is in the list: so were the others.
contains-cons :
    (v : ℕ) (voters hs : List ℕ)
    → All (λ h. contains voters h ≡ true) hs
    → All (λ h. contains (v ∷ voters) h ≡ true) hs
contains-cons v voters [] a = tt
contains-cons v voters (h ∷ hs) a = (ground (arith, a.0), contains-cons v voters hs a.1)

absent-subset :
    (v : ℕ) (voters hs : List ℕ)
    → contains voters v ≡ false
    → All (λ h. contains voters h ≡ true) hs
    → contains hs v ≡ false
absent-subset v voters [] absent a = refl
absent-subset v voters (h ∷ hs) absent a = elim (ℕ_discrete h v) [
  | yes same ↦
      let there : contains voters v ≡ true = subst (λ x. contains voters x ≡ true) same a.0 in
      absurd (ground arith)
  | no other ↦ ground (arith, absent-subset v voters hs absent a.1)
]

module _ {R : Type 0} where
  -- Node `v` has the log up to `c`: the leader itself, or a voter that has confirmed it.
  abbrev pub IsHolder : RaftNode R → ℕ → ℕ → Type 0
  IsHolder n c v =
      ((v ≡ n.id) × (c ≤ n.last_log_index))
      ⊎ ((p : PeerState) × (get v n.peers ≡ some p)
          × (p.is_voter ≡ true)
          × (c ≤ p.last_fetch_offset))

  -- One entry of the voter set counts for `c` only if its node is a holder.
  push-IsHolder :
      (n : RaftNode R) (c v : ℕ) (o : Option PeerState) (xs : List ℕ)
      → 0 < c
      → get v n.peers ≡ o
      → (IsHolder n c v × (reached c (push_some (offset_of n v) xs) ≡ suc (reached c xs)))
        ⊎ (reached c (push_some (offset_of n v) xs) ≡ reached c xs)
  unfolding offset_of is_self
  push-IsHolder n c v o xs positive e = elim (ℕ_discrete v n.id) [
    | yes same ↦ elim (dec_lt n.last_log_index c) [
      | yes short ↦ inr (ground arith)
      | no reaches ↦ inl (inl (same, omega arith), ground arith)
    ]
    | no other ↦ peer_counts o e other
  ]
    where
      peer_counts :
          (p : Option PeerState)
          → get v n.peers ≡ p
          → v ≢ n.id
          → (IsHolder n c v × (reached c (push_some (offset_of n v) xs) ≡ suc (reached c xs)))
            ⊎ (reached c (push_some (offset_of n v) xs) ≡ reached c xs)
      peer_counts none e other = inr (ground arith)
      peer_counts (some p) e other = elim (Bool-cases (p.is_voter && leb c p.last_fetch_offset)) [
        | inl counts ↦ inl (inr (p, e, ground arith, ground arith), ground arith)
        | inr not_counted ↦ inr (ground arith)
      ]

  -- The nodes that hold it: different ones, each a voter, as many as are counted.
  pub record AreHolders (n : RaftNode R) (c : ℕ) (voters hs : List ℕ) : Type 0 where
    pub distinct : IsDistinct hs
    pub voting : All (λ v. contains voters v ≡ true) hs
    pub holding : All (IsHolder n c) hs

  holders :
      (n : RaftNode R) (c : ℕ) (voters : List ℕ)
      → 0 < c
      → IsDistinct voters
      → (hs : List ℕ) × AreHolders n c voters hs × (reached c (voter_offsets n voters) ≡ length hs)
  unfolding voter_offsets
  holders n c [] positive d = ([], record { distinct = tt; voting = tt; holding = tt }, refl)
  holders n c (v ∷ voters) positive d =
      let (hs, h, count) = holders n c voters positive d.1 in
      elim (push-IsHolder n c v (get v n.peers) (voter_offsets n voters) positive refl) [
        | inl one ↦ (
          v ∷ hs,
          record {
            distinct = (absent-subset v voters hs d.0 h.voting, h.distinct);
            voting = (ground arith, contains-cons v voters hs h.voting);
            holding = (one.0, h.holding);
          },
          one.1 ∙ ap suc count,
        )
        | inr same ↦ (
          hs,
          record {
            distinct = h.distinct;
            voting = contains-cons v voters hs h.voting;
            holding = h.holding;
          },
          same ∙ count,
        )
      ]

  -- What a move of the commit index to `c` rests on.
  pub record Commits (n : RaftNode R) (vs : VoterSet) (c : ℕ) : Type 0 where
    pub leads : is_leader_role n.role ≡ true
    pub later : n.commit_index < c
    pub no_op_index : ℕ
    pub own_term : n.leader_no_op_index ≡ some no_op_index
    pub gated : no_op_index ≤ c
    pub nodes : List ℕ
    pub replicated : AreHolders n c vs.voters nodes
    pub enough : vs.quorum_size ≤ length nodes

  -- With a lawful voter set in which no node id is repeated: where the commit index moves to `c`, the
  -- node is a leader, `c` is later than before and at or past the no-op of the leader's own term, and
  -- there are at least a quorum of different voters that have the log up to `c`, the leader by its
  -- own log and the others by the offset that they confirmed.
  pub try_advance_commit_index-Commits :
      (n : RaftNode R) (vs : VoterSet) (c : ℕ)
      → n.voter_set ≡ some vs
      → IsLawful vs
      → IsDistinct vs.voters
      → (try_advance_commit_index n).1 ≡ some c
      → Commits n vs c
  try_advance_commit_index-Commits n vs c s l d e =
      let a = advances n c e in
      let quorum = quorum-try_advance_commit_index n vs c s l a in
      let (hs, h, count) = holders n c vs.voters (omega (arith, a.later)) d in
      record {
        leads = a.leads;
        later = a.later;
        no_op_index = a.no_op_index;
        own_term = a.marked;
        gated = a.gated;
        nodes = hs;
        replicated = h;
        enough = omega (arith, quorum, count);
      }
