-- ===== src/Tests/Others.antt =====
-- Positions, effects, observers, snapshots, the timer and the start, on a cluster of three.
use failover_cluster.Effects.{replay}
use failover_cluster.Snapshots.Debounce.{takes, Counts}
use failover_cluster.Snapshots.Debounce.Step.{run-Counts}
use failover_cluster.Peers.{modify, get}
use failover_cluster.Effects.Driven.{drive, drive_all, mirror, run-Tracks}
use failover_cluster.Node.Roles.{become_follower}
use failover_cluster.Node.Commit.{
  advance_and_drain, drain_apply_pipeline, insert_desc, offset_of, quorum_offset, sort_desc,
  try_advance_commit_index, voter_offsets,
}
use failover_cluster.Node.Fetch.{
  acknowledge, append_local, handle_client_propose, handle_fetch_request_acked, is_known_sender,
}
use failover_cluster.Node.Replicate.{
  absorb, absorb_with, accept_entries, commit_accepted, handle_fetch_response, hear_leader,
  is_batch_after, last_of, propagate, recognise, same_term,
}
use failover_cluster.Watermarks.Step.{run-IsOrdered}
use failover_cluster.Node.Snapshot.{handle_snapshot_complete, handle_snapshot_installed}
use failover_cluster.Snapshots.{
  anchor, handle_snapshot_complete-raises, handle_snapshot_installed-raises, IsNewer, IsCovered,
}
use failover_cluster.Observers.{Watches, step-Watches}
use failover_cluster.Effects.Leader.{Tracks}
use failover_cluster.Node.{RaftNode, is_known_voter, set_last_log, is_self}
use failover_cluster.Types.{NodeRole}
use failover_cluster.Prelude.{
  List, [], arith, false, refl, true, ℕ, ◌↔◌, ◌∷◌, ◌≡◌, ◌≤◌, ◌⊎◌, none, some,
}
use failover_cluster.Timer.Bounds.{ticks, ticks-is_expired}
use failover_cluster.Timer.{is_expired, remaining, pick_in_range, reset}
use failover_cluster.Message.{Action, Input, LogTruncation, command}
use failover_cluster.Watermarks
use failover_cluster.Tests.Fixture.{
  lowest, timer, follower_node, leader_node, fetched, snapshot_at, config,
}
use failover_cluster.Node.Step.{step, run}

leader_node-ordered : Watermarks.Inv leader_node
leader_node-ordered = record {
  bounded = omega arith;
  committed = omega arith;
  applied_committed = omega arith;
  tracked = λ _. (omega arith, (omega arith, tt));
}

-- A proposal and an acknowledgement on the leader.
abbrev inputs : List Input
inputs = Input.client_propose (5 ∷ []) ∷ Input.fetch_request_acked 2 4 ∷ []

run-IsOrdered_example : Watermarks.Inv (run leader_node inputs).0
run-IsOrdered_example = run-IsOrdered leader_node inputs (tt, (tt, tt)) leader_node-ordered

follower_node-ordered : Watermarks.Inv follower_node
follower_node-ordered = record {
  bounded = omega arith;
  committed = omega arith;
  applied_committed = omega arith;
  tracked = λ l. absurd (ground arith);
}

-- The leader's log parts from the follower's behind index 2; then it sends the entry at 3.
abbrev diverging : List (Input × ℕ)
diverging =
    (
      Input.fetch_response (record fetched {
        entries = [];
        diverging_epoch = some (record { epoch = 1; end_offset = 2 });
      }),
      1,
    )
    ∷ (
      Input.fetch_response (record fetched {
        entries = record { index = 3; term = 1; payload = command (7 ∷ []) } ∷ [];
      }),
      1,
    )
    ∷ []

run-Tracks_example : Tracks follower_node (drive_all follower_node diverging)
unfolding is_known_voter drive mirror replay step handle_fetch_response same_term recognise absorb
    absorb_with hear_leader reset pick_in_range set_last_log commit_accepted accept_entries
    is_batch_after last_of propagate drain_apply_pipeline become_follower
run-Tracks_example =
    run-Tracks follower_node diverging (tt, omega arith, (tt, omega arith, tt))
      follower_node-ordered

abbrev observer_node : RaftNode ℕ
observer_node = record follower_node { role = NodeRole.observer }

step-Watches_example : Watches (step observer_node (Input.fetch_response fetched))
step-Watches_example = step-Watches observer_node (Input.fetch_response fetched) refl

-- A snapshot is due as soon as anything more is committed.
abbrev eager_leader : RaftNode ℕ
eager_leader = record leader_node {
  config = record config { max_log_entries_before_compaction = 0 };
}

abbrev busy_leader : RaftNode ℕ
busy_leader = record leader_node { snapshot_in_flight = true }

run-Counts_example : Counts false (run eager_leader inputs)
run-Counts_example = run-Counts eager_leader inputs (tt, (tt, tt))

one_taken : takes (run eager_leader inputs).1 ≡ 1
unfolding run step handle_client_propose handle_fetch_request_acked is_known_sender is_known_voter
    append_local advance_and_drain try_advance_commit_index quorum_offset voter_offsets offset_of
    is_self get modify acknowledge sort_desc insert_desc drain_apply_pipeline
one_taken = refl

handle_snapshot_complete-raises_example :
    let r = handle_snapshot_complete busy_leader (snapshot_at 1) in
    (r.0.snapshot_in_flight ≡ false)
    × ((IsNewer none (snapshot_at 1)
          × (r.0.last_snapshot_meta ≡ some (snapshot_at 1))
          × (r.1 ≡ Action.truncate_log (LogTruncation.prefix_through_inclusive 1) ∷ []))
        ⊎ (IsCovered none (snapshot_at 1) × (r.0.last_snapshot_meta ≡ none) × (r.1 ≡ [])))
handle_snapshot_complete-raises_example =
    handle_snapshot_complete-raises busy_leader (snapshot_at 1)

handle_snapshot_installed-raises_example :
    let r = (handle_snapshot_installed follower_node (snapshot_at 8)).0 in
    (r.last_applied ≡ 8)
    × (r.commit_index ≡ 8)
    × (r.last_log_index ≡ 8)
    × (anchor r ≡ 8)
    × (r.snapshot_in_flight ≡ false)
handle_snapshot_installed-raises_example =
    handle_snapshot_installed-raises follower_node (snapshot_at 8)

ticks-is_expired_example : (is_expired (ticks 15 timer) ≡ true) ↔ (remaining timer ≤ 15)
ticks-is_expired_example = ticks-is_expired 15 timer (omega arith)
