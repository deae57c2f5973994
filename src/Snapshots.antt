-- ===== src/Snapshots.antt =====
-- Snapshot coordination: xraft-core/src/node.rs, `handle_snapshot_complete`,
-- `handle_snapshot_installed`, `handle_fetch_snapshot_received` and the trigger.
pub mod Debounce
use failover_cluster.Types.{SnapshotMeta}
use failover_cluster.Prelude.{
  Option, [], arith, false, max, none, refl, some, ℕ, ◌⊎◌, ◌∷◌, ◌≡◌, if◌then◌else◌, Bool-cases, inl,
  inr, ltb, ◌≤◌, ◌<◌,
}
use failover_cluster.Node.{RaftNode}
use failover_cluster.Node.Commit.{snapshot_index}
use failover_cluster.Node.Snapshot.{
  handle_snapshot_complete, handle_snapshot_installed, is_snapshot_meta_newer,
}
use failover_cluster.Message.{Action, LogTruncation}

-- The snapshot goes further than the node's last one, or there is none.
abbrev pub IsNewer : Option SnapshotMeta → SnapshotMeta → Type 0
IsNewer o m = (o ≡ none) ⊎ (snapshot_index o < m.last_included_index)

-- A last snapshot that goes at least as far.
abbrev pub IsCovered : Option SnapshotMeta → SnapshotMeta → Type 0
IsCovered o m =
    (prior : SnapshotMeta) × (o ≡ some prior) × (m.last_included_index ≤ prior.last_included_index)

module _ {R : Type 0} where
  -- The anchor: how far the node's last snapshot goes, 0 for none.
  abbrev pub anchor : RaftNode R → ℕ
  anchor n = snapshot_index n.last_snapshot_meta

  -- The completion of a snapshot frees the slot for the next one. If the node had no snapshot or one
  -- that goes less far, the completed one is its last snapshot, and the one action truncates the log
  -- through it; if it had one that goes at least as far, that stays and there is no action.
  pub handle_snapshot_complete-raises :
      (n : RaftNode R) (m : SnapshotMeta)
      → let r = handle_snapshot_complete n m in
        (r.0.snapshot_in_flight ≡ false)
        × ((IsNewer n.last_snapshot_meta m
              × (r.0.last_snapshot_meta ≡ some m)
              × (r.1
                  ≡ Action.truncate_log
                      (LogTruncation.prefix_through_inclusive m.last_included_index)
                    ∷ []))
            ⊎ (IsCovered n.last_snapshot_meta m
                × (r.0.last_snapshot_meta ≡ n.last_snapshot_meta)
                × (r.1 ≡ [])))
  unfolding handle_snapshot_complete
  handle_snapshot_complete-raises n m = complete n.last_snapshot_meta refl
    where
      complete :
          (o : Option SnapshotMeta)
          → n.last_snapshot_meta ≡ o
          → let r = handle_snapshot_complete n m in
            (r.0.snapshot_in_flight ≡ false)
            × ((IsNewer n.last_snapshot_meta m
                  × (r.0.last_snapshot_meta ≡ some m)
                  × (r.1
                      ≡ Action.truncate_log
                          (LogTruncation.prefix_through_inclusive m.last_included_index)
                        ∷ []))
                ⊎ (IsCovered n.last_snapshot_meta m
                    × (r.0.last_snapshot_meta ≡ n.last_snapshot_meta)
                    × (r.1 ≡ [])))
      complete none e = rw e (refl, inl (inl refl, refl, refl))
      complete (some prior) e =
          elim (Bool-cases (ltb prior.last_included_index m.last_included_index)) [
            | inl is_newer ↦ rw (e, is_newer) (refl, inl (inr (ground arith), refl, refl))
            | inr no_newer ↦ rw (e, no_newer) (refl, inr ((prior, refl, ground arith), refl, refl))
          ]

  -- An installed snapshot raises the applied, committed and last index and the anchor to itself where
  -- they were behind, lowers none, and frees the slot.
  pub handle_snapshot_installed-raises :
      (n : RaftNode R) (m : SnapshotMeta)
      → let r = (handle_snapshot_installed n m).0 in
        (r.last_applied ≡ max n.last_applied m.last_included_index)
        × (r.commit_index ≡ max n.commit_index m.last_included_index)
        × (r.last_log_index ≡ max n.last_log_index m.last_included_index)
        × (anchor r ≡ max (anchor n) m.last_included_index)
        × (r.snapshot_in_flight ≡ false)
  unfolding handle_snapshot_installed
  handle_snapshot_installed-raises n m =
      (ground arith, ground arith, ground arith, raised n.last_snapshot_meta, refl)
    where
      raised :
          (o : Option SnapshotMeta)
          → snapshot_index (if is_snapshot_meta_newer o m then some m else o)
            ≡ max (snapshot_index o) m.last_included_index
      raised none = ground arith
      raised (some prior) = ground arith
