-- ===== src/Node/Commit/Frame.antt =====
-- What the commit and apply pipeline leaves alone: every field but three.
use failover_cluster.Prelude.{◌≡◌, arith}
use failover_cluster.Node.{RaftNode}
use failover_cluster.Node.Commit.{drain_apply_pipeline, try_advance_commit_index, advance_and_drain}

module _ {R : Type 0} where
  -- The node with the three fields of another.
  abbrev pub with_progress : RaftNode R → RaftNode R → RaftNode R
  with_progress n m = record n {
    commit_index = m.commit_index;
    last_applied = m.last_applied;
    snapshot_in_flight = m.snapshot_in_flight;
  }

  pub drain_apply_pipeline-frame :
      (n : RaftNode R) → (drain_apply_pipeline n).0 ≡ with_progress n (drain_apply_pipeline n).0
  unfolding drain_apply_pipeline
  drain_apply_pipeline-frame n = ground arith

  pub try_advance_commit_index-frame :
      (n : RaftNode R)
      → (try_advance_commit_index n).0
        ≡ record n { commit_index = (try_advance_commit_index n).0.commit_index }
  unfolding try_advance_commit_index
  try_advance_commit_index-frame n = ground arith

  pub advance_and_drain-frame :
      (n : RaftNode R) → (advance_and_drain n).0 ≡ with_progress n (advance_and_drain n).0
  unfolding advance_and_drain try_advance_commit_index drain_apply_pipeline
  advance_and_drain-frame n = ground arith
