-- ===== src/Node/Commit/Cases.antt =====
-- The ways through commit advancement.
use failover_cluster.Node.Commit.{
  advance_and_drain, drain_apply_pipeline, quorum_offset, try_advance_commit_index, voter_offsets,
  advance_from, advance_with, drain_if,
}
use failover_cluster.Types.{VoterSet, is_leader_role}
use failover_cluster.Node.{RaftNode}
use failover_cluster.Prelude.{
  List, Option, [], arith, if_elim, leb, ltb, none, refl, some, true, ℕ, ◌≡◌, ◌<◌, ◌≤◌,
}
use failover_cluster.Message.{Action}

module _ {R : Type 0} where
  -- What holds where the leader's commit index moves to `c`.
  pub record Advances (n : RaftNode R) (c : ℕ) : Type 0 where
    pub leads : is_leader_role n.role ≡ true
    pub vs : VoterSet
    pub configured : n.voter_set ≡ some vs
    pub no_op_index : ℕ
    pub marked : n.leader_no_op_index ≡ some no_op_index
    pub replicated : quorum_offset vs.quorum_size (voter_offsets n vs.voters) ≡ some c
    pub later : n.commit_index < c
    pub gated : no_op_index ≤ c

module _ {ℓ} {R : Type 0} (P : RaftNode R × Option ℕ → Type ℓ) (n : RaftNode R) where
  advance_from_cases :
      (no_op_index : ℕ) (o : Option ℕ)
      → P (n, none)
      → ((c : ℕ)
          → o ≡ some c
          → n.commit_index < c
          → no_op_index ≤ c
          → P (record n { commit_index = c }, some c))
      → P (advance_from n no_op_index o)
  unfolding advance_from
  advance_from_cases no_op_index none same moved = same
  advance_from_cases no_op_index (some c) same moved =
      if_elim P (leb c n.commit_index) (λ _. same)
        λ later.
          if_elim P (ltb c no_op_index) (λ _. same)
            λ gated. moved c refl (ground arith) (ground arith)

  advance_with_cases :
      is_leader_role n.role ≡ true
      → (vs : Option VoterSet) → n.voter_set ≡ vs
      → (mark : Option ℕ) → n.leader_no_op_index ≡ mark
      → P (n, none)
      → ((c : ℕ) → Advances n c → P (record n { commit_index = c }, some c))
      → P (advance_with n vs mark)
  unfolding advance_with
  advance_with_cases leads none s mark m same moved = same
  advance_with_cases leads (some vs) s none m same moved = same
  advance_with_cases leads (some vs) s (some no_op_index) m same moved =
      advance_from_cases no_op_index (quorum_offset vs.quorum_size (voter_offsets n vs.voters)) same
        λ c replicated later gated. moved c (record {
          leads = leads;
          vs = vs;
          configured = s;
          no_op_index = no_op_index;
          marked = m;
          replicated = replicated;
          later = later;
          gated = gated;
        })

  pub try_advance_commit_index_cases :
      P (n, none)
      → ((c : ℕ) → Advances n c → P (record n { commit_index = c }, some c))
      → P (try_advance_commit_index n)
  unfolding try_advance_commit_index
  try_advance_commit_index_cases same moved =
      if_elim P (is_leader_role n.role)
        (λ leads. advance_with_cases leads n.voter_set refl n.leader_no_op_index refl same moved)
        (λ _. same)

module _ {ℓ} {R : Type 0} (P : RaftNode R × List Action → Type ℓ) (n : RaftNode R) where
  pub advance_and_drain_cases :
      P (n, [])
      → ((c : ℕ) → Advances n c → P (drain_apply_pipeline (record n { commit_index = c })))
      → P (advance_and_drain n)
  unfolding advance_and_drain
  advance_and_drain_cases same moved =
      try_advance_commit_index_cases (λ r. P (drain_if r)) n same moved
