-- ===== src/FileLog/Consistent/Truncate/Crash.antt =====
-- A crash in the middle of `truncate_from`: the next `open` finishes it (xraft-storage/src/log.rs, the
-- truncation marker).
use failover_cluster.FileLog.Consistent.Truncate.{
  bases, remove_segment-segments_of, sorted_below, IsSorted-drop, append_assoc,
}
use failover_cluster.FileLog.Consistent.Truncate.Writes.{Throughout}
use failover_cluster.FileLog.Consistent.Cut.{IsGone}
use failover_cluster.FileLog.Consistent.Trimmed.{IsBoundary, cut_entries}
use failover_cluster.FileLog.Bytes.{words}
use failover_cluster.FileLog.Consistent.Truncate.Outcome.{truncate_from-IsTruncated}
use failover_cluster.FileLog.Trim.{truncate_from, remove_files}
use failover_cluster.LogStore.{retain}
use failover_cluster.FileLog.Open.{open_with_max_segment_size}
use failover_cluster.FileLog.Sidecars.{
  load_purge_marker, load_snapshot_anchor, load_truncate_marker,
  load_truncate_marker-persist_truncate_marker, persist_truncate_marker,
}
use failover_cluster.FileLog.Recovery.{Recovered}
use failover_cluster.Prelude.{
  List, Option, [], ap, arith, false, ltb, refl, saturating_add, saturating_sub, some, sym, ℕ, ◌<◌,
  ◌≡◌, ◌∙◌, All-split, subst, ◌∷◌, ◌++◌,
}
use failover_cluster.FileLog.Consistent.Live.{IsSorted, all_offsets, flat, live, replay_logs-live}
use failover_cluster.Message.{Entry}
use failover_cluster.FileLog.Codec.{Encoding, ok}
use failover_cluster.FileLog.Store.{
  Disk, FileLogStore, rebuild_epoch_starts, reopen_active_writer, perform, remove_file,
  remove_segment,
}
use failover_cluster.FileLog.Consistent.{
  AllStorable, IsSettled, IsStored, Logs, open-IsStored, segments_of,
}

AllStorable-drop :
    (enc : Encoding) (before : Logs) (joint : ℕ × List Entry) (c : ℕ) (fs : List Entry)
    (after : Logs)
    → AllStorable enc (before ++ (joint ∷ (c, fs) ∷ after))
    → AllStorable enc (before ++ (joint ∷ after))
AllStorable-drop enc [] joint c fs after s = (s.0, s.1.1)
AllStorable-drop enc ((b, es) ∷ before) joint c fs after s =
    (s.0, AllStorable-drop enc before joint c fs after s.1)

module _ (enc : Encoding) (floor : ℕ) (anchor : Option (ℕ × ℕ)) (max_segment_size : ℕ) where
  -- Opening the directory gives a store with these entries, whose memory is what its directory says.
  pub record IsReopened (es : List Entry) (d : Disk) (t : FileLogStore) (left : Logs) : Type 0 where
    pub opened : open_with_max_segment_size enc max_segment_size d ≡ ok t
    pub read_entries : t.entries ≡ es
    pub read_floor : t.first_valid_index ≡ floor
    pub read_anchor : t.snapshot_anchor ≡ anchor
    pub read_max : t.max_segment_size ≡ max_segment_size
    pub read_stored : IsStored enc left t
    pub read_sorted : IsSorted 0 left
    pub read_settled : IsSettled t

  abbrev pub Reopens : List Entry → Disk → Type 0
  Reopens es d = (t : FileLogStore) × (left : Logs) × IsReopened es d t left

  -- A directory with these segments and the marker of a truncation at `index`.
  pub record IsMarked (logs : Logs) (index : ℕ) (d : Disk) : Type 0 where
    pub segments_lem : d.segments ≡ segments_of enc logs
    pub storable : AllStorable enc logs
    pub sorted : IsSorted 0 logs
    pub floor_lem : load_purge_marker d.purge_file ≡ ok floor
    pub anchor_lem : load_snapshot_anchor d.anchor_file ≡ ok anchor
    pub marker_lem : d.truncate_file ≡ persist_truncate_marker (saturating_sub index 1)

  pub marked-Reopens :
      (index : ℕ) (logs : Logs) (d : Disk)
      → 0 < index
      → index < words 8
      → IsMarked logs index d
      → Reopens (retain (λ e. ltb e.index index) (live floor (flat logs))) d
  unfolding reopen_active_writer
  marked-Reopens index logs d pos small m =
      let s : FileLogStore = reopen_active_writer record {
        disk = d;
        active_writer = false;
        active_segment_size = 0;
        entries = live floor (flat logs);
        offsets = all_offsets enc floor 0 logs;
        max_segment_size = max_segment_size;
        first_valid_index = floor;
        epoch_starts = [];
        snapshot_anchor = anchor;
      } in
      let same = replay_logs-live enc floor logs m.sorted in
      let w : IsStored enc logs s = record {
        segments_lem = m.segments_lem;
        storable = m.storable;
        floor_lem = m.floor_lem;
        anchor_lem = m.anchor_lem;
        entries_lem = ap (λ (r : Recovered). r.entries) (sym same);
        offsets_lem = ap (λ (r : Recovered). r.offsets) (sym same);
      } in
      let pending : load_truncate_marker d.truncate_file ≡ ok (some (saturating_sub index 1)) =
        ap load_truncate_marker m.marker_lem
        ∙ load_truncate_marker-persist_truncate_marker (saturating_sub index 1) (omega arith) in
      let again : saturating_add (saturating_sub index 1) 1 ≡ index = omega arith in
      let (left, filled, t) = truncate_from-IsTruncated enc index logs s w m.sorted refl refl in
      let r = rebuild_epoch_starts (truncate_from s index) in
      (
        r,
        left,
        record {
          opened =
              open-IsStored enc logs s (some (saturating_sub index 1)) w pending
              ∙ ap (λ i. ok (rebuild_epoch_starts (truncate_from s i))) again;
          read_entries = unfold rebuild_epoch_starts in t.cut_lem;
          read_floor = unfold rebuild_epoch_starts in t.floor_kept;
          read_anchor = unfold rebuild_epoch_starts in t.anchor_kept;
          read_max = unfold rebuild_epoch_starts in t.max_kept;
          read_stored =
              unfold rebuild_epoch_starts in
              record {
                segments_lem = t.stored.segments_lem;
                storable = t.stored.storable;
                floor_lem = t.stored.floor_lem;
                anchor_lem = t.stored.anchor_lem;
                entries_lem = t.stored.entries_lem;
                offsets_lem = t.stored.offsets_lem;
              };
          read_sorted = t.sorted;
          read_settled =
              unfold rebuild_epoch_starts in
              record {
                marker_lem = t.unmarked;
                active_lem = t.writing;
                size_lem = t.sized;
                epochs_lem = refl;
              };
        },
      )

  -- While the later files go, one after the other.
  pub removing-Reopens :
      (index base : ℕ) (before : Logs) (kept : List Entry) (e : Entry) (rest : List Entry)
      (after : Logs) (d : Disk)
      → 0 < index
      → index < words 8
      → IsBoundary enc floor index before kept e rest after
      → IsMarked (before ++ ((base, kept ++ (e ∷ rest)) ∷ after)) index d
      → Throughout
          (Reopens (live floor (flat (before ++ ((base, kept) ∷ [])))))
          (remove_files (bases after))
          d
  unfolding remove_files flat
  removing-Reopens index base before kept e rest [] d pos small h m =
      subst (λ es. Reopens es d) (cut_entries enc floor index before base kept e rest [] h)
        (marked-Reopens index (before ++ ((base, kept ++ (e ∷ rest)) ∷ [])) d pos small m)
  removing-Reopens index base before kept e rest ((c, fs) ∷ after) d pos small h m =
      let joint : ℕ × List Entry = (base, kept ++ (e ∷ rest)) in
      let logs = before ++ (joint ∷ (c, fs) ∷ after) in
      let fewer = before ++ (joint ∷ after) in
      let now =
        subst (λ es. Reopens es d)
          (cut_entries enc floor index before base kept e rest ((c, fs) ∷ after) h)
          (marked-Reopens index logs d pos small m) in
      let (gone, later) = All-split (IsGone floor index) fs (flat after) h.later in
      let h1 : IsBoundary enc floor index before kept e rest after = record {
        earlier = h.earlier;
        here = h.here;
        first = h.first;
        behind = h.behind;
        later = later;
      } in
      let regroup = append_assoc before (joint ∷ []) ((c, fs) ∷ after) in
      let regroup1 = append_assoc before (joint ∷ []) after in
      let sorted = subst (IsSorted 0) (sym regroup) m.sorted in
      let below = (sorted_below 0 (before ++ (joint ∷ [])) c fs after sorted).1 in
      let m1 : IsMarked fewer index (perform (remove_file c) d) =
        unfold perform in
        record {
          segments_lem =
              ap (remove_segment c) (m.segments_lem ∙ ap (segments_of enc) (sym regroup))
              ∙ (remove_segment-segments_of enc (before ++ (joint ∷ [])) c fs after below
                  ∙ ap (segments_of enc) regroup1);
          storable = AllStorable-drop enc before joint c fs after m.storable;
          sorted =
              subst (IsSorted 0) regroup1
                (IsSorted-drop 0 (before ++ (joint ∷ [])) c fs after sorted);
          floor_lem = m.floor_lem;
          anchor_lem = m.anchor_lem;
          marker_lem = m.marker_lem;
        } in
      (
        now,
        removing-Reopens index base before kept e rest after (perform (remove_file c) d) pos small
            h1 m1,
      )
