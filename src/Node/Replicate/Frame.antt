-- ===== src/Node/Replicate/Frame.antt =====
-- What the follower's log handling leaves alone.
use failover_cluster.Node.Commit.{drain_apply_pipeline}
use failover_cluster.Node.Replicate.{
  absorb, absorb_with, accept_entries, append_batch, commit_accepted, propagate,
}
use failover_cluster.Node.{RaftNode}
use failover_cluster.Prelude.{List, [], arith, ℕ, ◌≡◌, ◌∷◌}
use failover_cluster.Message.{Entry, FetchResponse}

module _ {R : Type 0} where
  -- The node with the log mirror, the progress and the fetch stamp of another.
  abbrev pub with_log : RaftNode R → RaftNode R → RaftNode R
  with_log n m = record n {
    commit_index = m.commit_index;
    last_applied = m.last_applied;
    snapshot_in_flight = m.snapshot_in_flight;
    last_log_index = m.last_log_index;
    last_log_term = m.last_log_term;
    last_fetch_tick = m.last_fetch_tick;
  }

  propagate-frame : (n : RaftNode R) (hw : ℕ) → (propagate n hw).0 ≡ with_log n (propagate n hw).0
  unfolding propagate drain_apply_pipeline
  propagate-frame n hw = ground arith

  commit_accepted-frame :
      (n : RaftNode R) (es : List Entry) (hw : ℕ)
      → let m = (commit_accepted n (accept_entries n es) hw).0 in m ≡ with_log n m
  unfolding commit_accepted accept_entries
  commit_accepted-frame n [] hw = propagate-frame n hw
  commit_accepted-frame n (e ∷ es) hw = ground (arith, propagate-frame (append_batch n e es) hw)

  pub absorb-frame :
      (n : RaftNode R) (resp : FetchResponse) → (absorb n resp).0 ≡ with_log n (absorb n resp).0
  unfolding absorb absorb_with
  absorb-frame n resp = ground (arith, commit_accepted-frame n resp.entries resp.high_watermark)
