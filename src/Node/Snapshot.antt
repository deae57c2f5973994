-- ===== src/Node/Snapshot.antt =====
-- xraft-core/src/node.rs: snapshot coordination.
use failover_cluster.Prelude.{
  ℕ, Bool, true, false, List, [], ◌∷◌, Option, none, some, ltb, leb, if◌then◌else◌,
}
use failover_cluster.Types.{SnapshotMeta}
use failover_cluster.Message.{Action, install_snapshot, truncate_log, prefix_through_inclusive}
use failover_cluster.Node.{RaftNode}

abbrev pub is_snapshot_meta_newer : Option SnapshotMeta → SnapshotMeta → Bool
is_snapshot_meta_newer none metadata = true
is_snapshot_meta_newer (some prior) metadata =
    ltb prior.last_included_index metadata.last_included_index

module _ {R : Type 0} where
  unfoldable pub handle_snapshot_complete : RaftNode R → SnapshotMeta → RaftNode R × List Action
  handle_snapshot_complete n metadata =
      if is_snapshot_meta_newer n.last_snapshot_meta metadata
      then (
        record n { snapshot_in_flight = false; last_snapshot_meta = some metadata },
        truncate_log (prefix_through_inclusive metadata.last_included_index) ∷ [],
      )
      else (record n { snapshot_in_flight = false }, [])

  unfoldable pub handle_snapshot_installed : RaftNode R → SnapshotMeta → RaftNode R × List Action
  handle_snapshot_installed n metadata =
      let through = metadata.last_included_index in
      (
        record n {
          last_applied = if ltb n.last_applied through then through else n.last_applied;
          commit_index = if ltb n.commit_index through then through else n.commit_index;
          last_log_index = if ltb n.last_log_index through then through else n.last_log_index;
          last_log_term =
              if ltb n.last_log_index through then metadata.last_included_term else n.last_log_term;
          last_snapshot_meta =
              if is_snapshot_meta_newer n.last_snapshot_meta metadata
              then some metadata
              else n.last_snapshot_meta;
          snapshot_in_flight = false;
        },
        [],
      )

  -- It changes no field.
  unfoldable pub handle_fetch_snapshot_received : RaftNode R → SnapshotMeta → List ℕ → List Action
  handle_fetch_snapshot_received n metadata bytes =
      if leb metadata.last_included_index n.last_applied
      then []
      else install_snapshot metadata bytes ∷ []
