-- ===== src/FileLog/Refinement/Steps.antt =====
-- One operation of both log stores.
use failover_cluster.FileLog.Bytes.{words}
use failover_cluster.FileLog.Consistent.Truncate.Outcome.{stored_maps, truncate_from-IsTruncated}
use failover_cluster.FileLog.Consistent.Purge.Outcome.{purge_prefix-IsTrimmed}
use failover_cluster.FileLog.Trim.{purge_prefix, truncate_from, update_snapshot_anchor}
use failover_cluster.FileLog.Sidecars.{load_snapshot_anchor-persist_snapshot_anchor}
use failover_cluster.FileLog.Consistent.Live.{flat, live}
use failover_cluster.FileLog.Refinement.Appends.{append-Refines}
use failover_cluster.LogStore.{MemoryLogStore, keeps_anchor, retain, with_entries}
use failover_cluster.FileLog.Consistent.{Logs, open-IsSettled}
use failover_cluster.FileLog.Refinement.{
  IsValid, Op, Refines, anchor_at, append_entries, file_step, memory_step, purge, restart, truncate,
}
use failover_cluster.FileLog.Store.{FileLogStore}
use failover_cluster.Message.{Entry}
use failover_cluster.FileLog.Codec.{Encoding}
use failover_cluster.Prelude.{
  Bool-cases, List, [], ap, arith, dec_lt, inl, inr, le→leb, ltb, lt→ltb, not_ltb, refl, subst, sym,
  ℕ, ◌≡◌, ◌∷◌, ◌≤◌, ◌<◌, ◌∙◌,
}

retain-live_below :
    (floor through : ℕ) (es : List Entry)
    → through ≤ floor
    → retain (λ e. ltb through e.index) (live floor es) ≡ live floor es
unfolding retain live
retain-live_below floor through [] h = refl
retain-live_below floor through (e ∷ es) h =
    let ih = retain-live_below floor through es h in
    elim (dec_lt floor e.index) [
      | yes alive ↦
          rw (lt→ltb floor e.index alive)
            (rw (lt→ltb through e.index (omega arith)) (ap (λ t. e ∷ t) ih))
      | no dead ↦ rw (not_ltb floor e.index (omega arith)) ih
    ]

module _ (enc : Encoding) where
  -- What the operations keep, with the segments' logs left open.
  abbrev pub Holds : MemoryLogStore → FileLogStore → Type 0
  Holds m s = (logs : Logs) × Refines enc m s logs

  truncate_Refines :
      (index : ℕ) (m : MemoryLogStore) (s : FileLogStore) (logs : Logs)
      → Refines enc m s logs
      → Holds (failover_cluster.LogStore.truncate_from m index) (truncate_from s index)
  unfolding failover_cluster.LogStore.truncate_from with_entries
  truncate_Refines index m s logs r =
      let (left, filled, t) =
        truncate_from-IsTruncated enc index logs s r.stored r.sorted r.settled.active_lem
          r.settled.size_lem in
      (
        left,
        record {
          stored = t.stored;
          sorted = t.sorted;
          filled = filled r.filled;
          settled = record {
            marker_lem = t.unmarked;
            active_lem = t.writing;
            size_lem = t.sized;
            epochs_lem = t.epochs_kept r.settled.epochs_lem;
          };
          same_entries = t.cut_lem ∙ ap (retain (λ e. ltb e.index index)) r.same_entries;
          same_epochs = refl;
          same_anchor = t.anchor_kept ∙ r.same_anchor;
        },
      )

  purge_Refines :
      (through : ℕ) (m : MemoryLogStore) (s : FileLogStore) (logs : Logs)
      → through < words 8
      → Refines enc m s logs
      → Holds (failover_cluster.LogStore.purge_prefix m through) (purge_prefix s through)
  unfolding failover_cluster.LogStore.purge_prefix with_entries
  purge_Refines through m s logs small r =
      let floor = s.first_valid_index in
      elim (dec_lt floor through) [
        | yes beyond ↦
            let (left, filled, t) =
              purge_prefix-IsTrimmed enc through logs s beyond small r.stored r.sorted r.settled in
            (
              left,
              record {
                stored = t.stored;
                sorted = t.sorted;
                filled = filled r.filled;
                settled = t.settled;
                same_entries = t.purged_lem ∙ ap (retain (λ e. ltb through e.index)) r.same_entries;
                same_epochs = refl;
                same_anchor = t.anchor_kept ∙ r.same_anchor;
              },
            )
        | no within ↦
            let (es, os) = stored_maps enc logs s r.stored r.sorted in
            let unchanged : purge_prefix s through ≡ s =
              unfold purge_prefix in rw (le→leb through floor (omega arith)) refl in
            let all : retain (λ e. ltb through e.index) m.entries ≡ m.entries =
              subst (λ l. retain (λ e. ltb through e.index) l ≡ l) (sym es ∙ r.same_entries)
                (retain-live_below floor through (flat logs) (omega arith)) in
            rw unchanged (
              logs,
              record {
                stored = r.stored;
                sorted = r.sorted;
                filled = r.filled;
                settled = r.settled;
                same_entries = r.same_entries ∙ sym all;
                same_epochs = refl;
                same_anchor = r.same_anchor;
              },
            )
      ]

  anchor_Refines :
      (term index : ℕ) (m : MemoryLogStore) (s : FileLogStore) (logs : Logs)
      → term < words 8
      → index < words 8
      → Refines enc m s logs
      → Holds
          (failover_cluster.LogStore.update_snapshot_anchor m term index)
          (update_snapshot_anchor s term index)
  unfolding failover_cluster.LogStore.update_snapshot_anchor update_snapshot_anchor
  anchor_Refines term index m s logs ht hi r =
      let same : keeps_anchor s.snapshot_anchor index ≡ keeps_anchor m.snapshot_anchor index =
        ap (λ a. keeps_anchor a index) r.same_anchor in
      elim (Bool-cases (keeps_anchor m.snapshot_anchor index)) [
        | inl keeps ↦ rw (same, keeps) (logs, r)
        | inr raises ↦
            let w = r.stored in
            let t = r.settled in
            rw (same, raises)
              (
                logs,
                record {
                  stored = record {
                    segments_lem = w.segments_lem;
                    storable = w.storable;
                    floor_lem = w.floor_lem;
                    anchor_lem =
                        load_snapshot_anchor-persist_snapshot_anchor term index s.disk.anchor_file
                          ht hi;
                    entries_lem = w.entries_lem;
                    offsets_lem = w.offsets_lem;
                  };
                  sorted = r.sorted;
                  filled = r.filled;
                  settled = record {
                    marker_lem = t.marker_lem;
                    active_lem = t.active_lem;
                    size_lem = t.size_lem;
                    epochs_lem = t.epochs_lem;
                  };
                  same_entries = r.same_entries;
                  same_epochs = r.same_epochs;
                  same_anchor = refl;
                },
              )
      ]

  pub step_Refines :
      (op : Op) (m : MemoryLogStore) (s : FileLogStore) (logs : Logs)
      → IsValid enc op s
      → Refines enc m s logs
      → Holds (memory_step op m) (file_step enc op s)
  unfolding memory_step file_step
  step_Refines (append_entries es) m s logs v r =
      let (left, r1, accepted_all) = append-Refines enc m s logs es r v in (left, r1)
  step_Refines (truncate index) m s logs v r = truncate_Refines index m s logs r
  step_Refines (purge through) m s logs v r = purge_Refines through m s logs v r
  step_Refines (anchor_at term index) m s logs v r = anchor_Refines term index m s logs v.0 v.1 r
  step_Refines restart m s logs v r = rw (open-IsSettled enc logs s r.stored r.settled) (logs, r)
