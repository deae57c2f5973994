-- ===== src/Node/Commit/Rule.antt =====
-- The commit rule of xraft-core/src/node.rs, `try_advance_commit_index`: what a leader commits.
use failover_cluster.Message.{Action}
use failover_cluster.Prelude.{
  ℕ, ◌≡◌, ◌≤◌, ◌<◌, some, true, arith, length, List, [], ◌∷◌, subst, count_if, ◌==◌, Option, none,
  saturating_add,
}
use failover_cluster.Types.{VoterSet, IsLawful, is_leader_role}
use failover_cluster.Node.{RaftNode, is_self}
use failover_cluster.Node.Commit.{
  try_advance_commit_index, voter_offsets, quorum_offset, offset_of, advance_with, advance_from,
  advance_to, advance_and_drain, drain_apply_pipeline, drain_if, extend_some, maybe_apply,
  maybe_take_snapshot,
}
use failover_cluster.Node.Commit.Cases.{Advances, try_advance_commit_index_cases}
use failover_cluster.Node.Commit.Offsets.{
  reached, quorum_offset-reached, quorum_offset-highest, quorum_offset-total,
}

pub quorum_positive : (vs : VoterSet) → IsLawful vs → 0 < vs.quorum_size
quorum_positive vs l = omega (arith, l.quorum_lem)

-- As many records of the voter set as its quorum has nodes have the log up to `c`, as far as the
-- leader was told: a node id in two records counts twice.
abbrev pub HasQuorum : {R : Type 0} → RaftNode R → VoterSet → ℕ → Type 0
HasQuorum n vs c = vs.quorum_size ≤ reached c (voter_offsets n vs.voters)

reached-length : (c : ℕ) (xs : List ℕ) → reached c xs ≤ length xs
reached-length c [] = omega arith
reached-length c (x ∷ xs) = ground (arith, reached-length c xs)

module _ {R : Type 0} where
  pub advances : (n : RaftNode R) (c : ℕ) → (try_advance_commit_index n).1 ≡ some c → Advances n c
  advances n c =
      try_advance_commit_index_cases (λ r. r.1 ≡ some c → Advances n c) n (λ e. cc)
        (λ d a e. let h : d ≡ c = cc in subst (Advances n) h a)

  pub quorum-try_advance_commit_index :
      (n : RaftNode R) (vs : VoterSet) (c : ℕ)
      → n.voter_set ≡ some vs
      → IsLawful vs
      → Advances n c
      → HasQuorum n vs c
  quorum-try_advance_commit_index n vs c s l a =
      let same : a.vs ≡ vs = cc in
      quorum_offset-reached vs.quorum_size c (voter_offsets n vs.voters) (quorum_positive vs l) (
        subst (λ (w : VoterSet). quorum_offset w.quorum_size (voter_offsets n w.voters) ≡ some c)
          same a.replicated)

  -- No index that as many records of the voter set reach as its quorum has nodes is later than the
  -- one that is committed.
  pub try_advance_commit_index-highest :
      (n : RaftNode R) (vs : VoterSet) (c d : ℕ)
      → n.voter_set ≡ some vs
      → IsLawful vs
      → (try_advance_commit_index n).1 ≡ some c
      → HasQuorum n vs d
      → d ≤ c
  try_advance_commit_index-highest n vs c d s l e q =
      let a = advances n c e in
      let same : a.vs ≡ vs = cc in
      quorum_offset-highest vs.quorum_size c d (voter_offsets n vs.voters) (quorum_positive vs l)
        (subst (λ (w : VoterSet). quorum_offset w.quorum_size (voter_offsets n w.voters) ≡ some c)
          same a.replicated)
        q

  advance_from-some :
      (n : RaftNode R) (k c : ℕ) (o : Option ℕ)
      → o ≡ some c
      → n.commit_index < c
      → k ≤ c
      → (advance_from n k o).1 ≡ some c
  unfolding advance_from advance_to
  advance_from-some n k c none e later gated = cc
  advance_from-some n k c (some d) e later gated = ground arith

  advance_with-some :
      (n : RaftNode R) (vs : VoterSet) (k c : ℕ) (s : Option VoterSet) (m : Option ℕ)
      → s ≡ some vs
      → m ≡ some k
      → quorum_offset vs.quorum_size (voter_offsets n vs.voters) ≡ some c
      → n.commit_index < c
      → k ≤ c
      → (advance_with n s m).1 ≡ some c
  unfolding advance_with
  advance_with-some n vs k c s m hs hm e later gated =
      rw (hs, hm) (advance_from-some n k c _ e later gated)

  try_advance_commit_index-some :
      (n : RaftNode R) (vs : VoterSet) (k c : ℕ)
      → is_leader_role n.role ≡ true
      → n.voter_set ≡ some vs
      → n.leader_no_op_index ≡ some k
      → quorum_offset vs.quorum_size (voter_offsets n vs.voters) ≡ some c
      → n.commit_index < c
      → k ≤ c
      → (try_advance_commit_index n).1 ≡ some c
  unfolding try_advance_commit_index
  try_advance_commit_index-some n vs k c leads s m e later gated =
      rw leads (advance_with-some n vs k c n.voter_set n.leader_no_op_index s m e later gated)

  -- A leader whose no-op is at `k` commits as soon as a quorum has the log up to some `d` that is at
  -- or past `k` and past the commit index: it commits `d` or more.
  pub try_advance_commit_index-progress :
      (n : RaftNode R) (vs : VoterSet) (k d : ℕ)
      → is_leader_role n.role ≡ true
      → n.voter_set ≡ some vs
      → IsLawful vs
      → n.leader_no_op_index ≡ some k
      → k ≤ d
      → n.commit_index < d
      → HasQuorum n vs d
      → (c : ℕ) × ((try_advance_commit_index n).1 ≡ some c) × (d ≤ c)
  try_advance_commit_index-progress n vs k d leads s l m gated later q =
      let enough = reached-length d (voter_offsets n vs.voters) in
      let (c, e) =
        quorum_offset-total vs.quorum_size (voter_offsets n vs.voters) (quorum_positive vs l)
          (omega arith) in
      let high =
        quorum_offset-highest vs.quorum_size c d (voter_offsets n vs.voters) (quorum_positive vs l)
          e q in
      (c, try_advance_commit_index-some n vs k c leads s m e (omega arith) (omega arith), high)

  -- The leader's own log counts once for each record of the voter set that has its node id.
  reached-own :
      (n : RaftNode R) (voters : List ℕ)
      → count_if (λ v. v == n.id) voters ≤ reached n.last_log_index (voter_offsets n voters)
  unfolding voter_offsets offset_of is_self
  reached-own n [] = omega arith
  reached-own n (v ∷ voters) = ground (arith, reached-own n voters)

  -- A leader whose node id stands in as many records of the voter set as the quorum counts nodes
  -- commits its whole log at once, whatever its peers have.
  pub try_advance_commit_index-repeated_voter :
      (n : RaftNode R) (vs : VoterSet) (k : ℕ)
      → is_leader_role n.role ≡ true
      → n.voter_set ≡ some vs
      → IsLawful vs
      → n.leader_no_op_index ≡ some k
      → k ≤ n.last_log_index
      → n.commit_index < n.last_log_index
      → vs.quorum_size ≤ count_if (λ v. v == n.id) vs.voters
      → (c : ℕ) × ((try_advance_commit_index n).1 ≡ some c) × (n.last_log_index ≤ c)
  try_advance_commit_index-repeated_voter n vs k leads s l m gated later repeated =
      let own = reached-own n vs.voters in
      try_advance_commit_index-progress n vs k n.last_log_index leads s l m gated later
        (omega arith)

  -- Committed up to `d` at least, and the first action applies what was not applied yet, all of it.
  pub record Applies (n : RaftNode R) (d : ℕ) (r : RaftNode R × List Action) : Type 0 where
    pub committed : d ≤ r.0.commit_index
    pub applied : r.0.last_applied ≡ r.0.commit_index
    pub others : List Action
    pub actions :
        r.1
        ≡ Action.apply_to_state_machine (saturating_add n.last_applied 1) r.0.commit_index ∷ others

  drain_apply_pipeline-Applies :
      (n : RaftNode R) (d : ℕ)
      → d ≤ n.commit_index
      → n.last_applied < n.commit_index
      → Applies n d (drain_apply_pipeline n)
  unfolding drain_apply_pipeline
  drain_apply_pipeline-Applies n d h behind = record {
    committed = ground arith;
    applied = ground arith;
    others = extend_some (maybe_take_snapshot (maybe_apply n).0).1 [];
    actions = unfold maybe_apply maybe_take_snapshot in ground arith;
  }

  pub advance_and_drain-Applies :
      (n : RaftNode R) (c d : ℕ)
      → (try_advance_commit_index n).1 ≡ some c
      → d ≤ c
      → n.last_applied ≤ n.commit_index
      → Applies n d (advance_and_drain n)
  unfolding advance_and_drain
  advance_and_drain-Applies n c d e h ordered =
      try_advance_commit_index_cases (λ r. r.1 ≡ some c → Applies n d (drain_if r)) n
        (λ none_moved. cc)
        (λ c' a moved.
          let same : c' ≡ c = cc in
          let drained =
            drain_apply_pipeline-Applies (record n { commit_index = c' }) d (omega arith)
              (omega (arith, a.later)) in
          record {
            committed = drained.committed;
            applied = drained.applied;
            others = drained.others;
            actions = drained.actions;
          })
        e
