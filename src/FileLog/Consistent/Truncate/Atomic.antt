-- ===== src/FileLog/Consistent/Truncate/Atomic.antt =====
-- `truncate_from` and a crash at any of its calls: xraft-storage/src/log.rs.
use failover_cluster.FileLog.Entries.{IsStorable}
use failover_cluster.FileLog.Consistent.Truncate.Kept.{flat-kept_logs}
use failover_cluster.FileLog.Consistent.Truncate.Kept.{AllStorable-cut}
use failover_cluster.FileLog.Bytes.{words}
use failover_cluster.LogStore.{note_epochs, retain}
use failover_cluster.FileLog.Sidecars.{load_purge_marker, load_snapshot_anchor}
use failover_cluster.FileLog.Consistent.Truncate.{
  frames-is_empty, resize-segments_of, sorted_below, remove_segment-segments_of, IsSorted-drop,
}
use failover_cluster.FileLog.Recovery.Replay.{frames}
use failover_cluster.FileLog.Consistent.Truncate.Writes.{Throughout, kept_logs}
use failover_cluster.FileLog.Consistent.Cut.{Survives, retain-survive, IsGone}
use failover_cluster.FileLog.Recovery.{Recovered}
use failover_cluster.FileLog.Consistent.Live.{IsSorted, all_offsets, flat, live, replay_logs-live}
use failover_cluster.FileLog.Consistent.Truncate.Crash.{IsMarked, Reopens, marked-Reopens}
use failover_cluster.FileLog.Consistent.Trimmed.{IsBoundary, cut_entries}
use failover_cluster.FileLog.Consistent.Cut.Order.{IsSorted-cut}
use failover_cluster.Message.{Entry}
use failover_cluster.FileLog.Codec.{Encoding, ok}
use failover_cluster.FileLog.Store.{
  Disk, FileLogStore, clear_truncate_marker, perform, remove_file, reopen_active_writer, resize,
  set_len, remove_segment,
}
use failover_cluster.FileLog.Consistent.{
  AllStorable, IsSettled, IsStored, Logs, open-IsSettled, segments_of,
}
use failover_cluster.Prelude.{
  All, All-append, List, Option, [], ap, false, length, ltb, none, refl, subst, sym, ℕ, ◌<◌, ◌≡◌,
  ◌∙◌, ◌∷◌, ◌==◌, ◌++◌, if◌then◌else◌, All-split,
}
use mathlib.Core.List.{append_assoc, append-nil}

pub flat-append : (xs ys : Logs) → flat (xs ++ ys) ≡ flat xs ++ flat ys
unfolding flat
flat-append [] ys = refl
flat-append ((b, es) ∷ xs) ys =
    ap (λ t. es ++ t) (flat-append xs ys) ∙ sym (append_assoc es (flat xs) (flat ys))

flat_last :
    (before : Logs) (base : ℕ) (kept : List Entry)
    → flat (before ++ ((base, kept) ∷ [])) ≡ flat before ++ kept
unfolding flat
flat_last before base kept =
    flat-append before ((base, kept) ∷ []) ∙ ap (λ t. flat before ++ t) (append-nil kept)

AllStorable-trim :
    (enc : Encoding) (before : Logs) (base : ℕ) (kept gone : List Entry) (after : Logs)
    → AllStorable enc (before ++ ((base, kept ++ gone) ∷ after))
    → AllStorable enc (before ++ ((base, kept) ∷ []))
AllStorable-trim enc [] base kept gone after s =
    let (own, more) = All-split (IsStorable enc) kept gone s.0 in (own, tt)
AllStorable-trim enc ((b, es) ∷ before) base kept gone after s =
    (s.0, AllStorable-trim enc before base kept gone after s.1)

module _ (enc : Encoding) (floor : ℕ) (anchor : Option (ℕ × ℕ)) (max_segment_size : ℕ) where
  -- A directory with these segments and no marker.
  pub plain-Reopens :
      (logs : Logs) (d : Disk)
      → d.segments ≡ segments_of enc logs
      → AllStorable enc logs
      → IsSorted 0 logs
      → load_purge_marker d.purge_file ≡ ok floor
      → load_snapshot_anchor d.anchor_file ≡ ok anchor
      → d.truncate_file ≡ none
      → Reopens enc floor anchor max_segment_size (live floor (flat logs)) d
  unfolding reopen_active_writer
  plain-Reopens logs d e st o f a u =
      let s : FileLogStore = reopen_active_writer record {
        disk = d;
        active_writer = false;
        active_segment_size = 0;
        entries = live floor (flat logs);
        offsets = all_offsets enc floor 0 logs;
        max_segment_size = max_segment_size;
        first_valid_index = floor;
        epoch_starts = note_epochs [] (live floor (flat logs));
        snapshot_anchor = anchor;
      } in
      let same = replay_logs-live enc floor logs o in
      let w : IsStored enc logs s = record {
        segments_lem = e;
        storable = st;
        floor_lem = f;
        anchor_lem = a;
        entries_lem = ap (λ (r : Recovered). r.entries) (sym same);
        offsets_lem = ap (λ (r : Recovered). r.offsets) (sym same);
      } in
      let t : IsSettled s = record {
        marker_lem = u;
        active_lem = refl;
        size_lem = refl;
        epochs_lem = refl;
      } in
      (
        s,
        logs,
        record {
          opened = open-IsSettled enc logs s w t;
          read_entries = refl;
          read_floor = refl;
          read_anchor = refl;
          read_max = refl;
          read_stored = w;
          read_sorted = o;
          read_settled = t;
        },
      )

  survivors :
      (index base : ℕ) (before : Logs) (kept : List Entry)
      → All (Survives floor index) (flat before)
      → All (Survives floor index) kept
      → retain (λ e. ltb e.index index) (live floor (flat (before ++ ((base, kept) ∷ []))))
        ≡ live floor (flat (before ++ ((base, kept) ∷ [])))
  survivors index base before kept hb hk =
      retain-survive floor index (flat (before ++ ((base, kept) ∷ []))) (
        subst (All (Survives floor index)) (sym (flat_last before base kept))
          (All-append (Survives floor index) (flat before) kept hb hk))

  cut-IsMarked :
      (index base : ℕ) (before : Logs) (kept : List Entry) (e : Entry) (rest : List Entry)
      (d : Disk)
      → IsGone floor index e
      → IsMarked enc floor anchor max_segment_size
          (before ++ ((base, kept ++ (e ∷ rest)) ∷ []))
          index
          d
      → IsMarked enc floor anchor max_segment_size
          (before ++ ((base, kept) ∷ []))
          index
          (perform (set_len base (length (frames enc kept))) d)
  unfolding perform
  cut-IsMarked index base before kept e rest d g m =
      let (sorted, gone, later) =
        IsSorted-cut floor index 0 before base kept e rest [] g m.sorted in
      let below = (sorted_below 0 before base (kept ++ (e ∷ rest)) [] m.sorted).1 in
      record {
        segments_lem =
            ap (resize base (length (frames enc kept))) m.segments_lem
            ∙ resize-segments_of enc before base kept (e ∷ rest) below;
        storable = AllStorable-trim enc before base kept (e ∷ rest) [] m.storable;
        sorted = sorted;
        floor_lem = m.floor_lem;
        anchor_lem = m.anchor_lem;
        marker_lem = m.marker_lem;
      }

  emptied-IsMarked :
      (index base : ℕ) (before : Logs) (d : Disk)
      → IsMarked enc floor anchor max_segment_size (before ++ ((base, []) ∷ [])) index d
      → IsMarked enc floor anchor max_segment_size before index (perform (remove_file base) d)
  unfolding perform
  emptied-IsMarked index base before d m =
      let below = (sorted_below 0 before base [] [] m.sorted).1 in
      record {
        segments_lem =
            ap (remove_segment base) m.segments_lem
            ∙ (remove_segment-segments_of enc before base [] [] below
                ∙ ap (segments_of enc) (append-nil before));
        storable = unfold kept_logs in (AllStorable-cut enc before base [] [] [] m.storable).1;
        sorted =
            subst (IsSorted 0) (append-nil before) (IsSorted-drop 0 before base [] [] m.sorted);
        floor_lem = m.floor_lem;
        anchor_lem = m.anchor_lem;
        marker_lem = m.marker_lem;
      }

  cleared-Reopens :
      (index : ℕ) (logs : Logs) (d : Disk)
      → IsMarked enc floor anchor max_segment_size logs index d
      → Reopens enc floor anchor max_segment_size
          (live floor (flat logs))
          (perform clear_truncate_marker d)
  unfolding perform
  cleared-Reopens index logs d m =
      plain-Reopens logs (record d { truncate_file = none }) m.segments_lem m.storable m.sorted
        m.floor_lem m.anchor_lem refl

  -- The last calls: an empty boundary segment is removed, and the marker.
  emptying-Reopens :
      (index base : ℕ) (before : Logs) (kept : List Entry) (d : Disk)
      → 0 < index
      → index < words 8
      → All (Survives floor index) (flat before)
      → All (IsStorable enc) kept
      → IsMarked enc floor anchor max_segment_size (before ++ ((base, kept) ∷ [])) index d
      → Reopens enc floor anchor max_segment_size
          (live floor (flat (before ++ ((base, kept) ∷ []))))
          d
      → Throughout
          (Reopens enc floor anchor max_segment_size
            (live floor (flat (before ++ ((base, kept) ∷ [])))))
          ((if length (frames enc kept) == 0 then remove_file base ∷ [] else [])
            ++ (clear_truncate_marker ∷ []))
          d
  emptying-Reopens index base before [] d pos small hb own m now =
      let Whole = Reopens enc floor anchor max_segment_size in
      let d1 = perform (remove_file base) d in
      let m1 = emptied-IsMarked index base before d m in
      let same : flat (before ++ ((base, []) ∷ [])) ≡ flat before =
        flat-kept_logs before base [] ∙ (unfold kept_logs in refl) in
      let gone_file : Whole (live floor (flat before)) d1 =
        subst (λ es. Whole es d1) (retain-survive floor index (flat before) hb)
          (marked-Reopens enc floor anchor max_segment_size index before d1 pos small m1) in
      let back = ap (live floor) (sym same) in
      rw (frames-is_empty enc [] tt) (
        now,
        (
          subst (λ es. Whole es d1) back gone_file,
          subst (λ es. Whole es (perform clear_truncate_marker d1)) back
              (cleared-Reopens index before d1 m1),
        ),
      )
  emptying-Reopens index base before (x ∷ kept) d pos small hb own m now =
      rw (frames-is_empty enc (x ∷ kept) own)
        (now, cleared-Reopens index (before ++ ((base, x ∷ kept) ∷ [])) d m)

  -- The calls on the boundary segment.
  pub ending-Reopens :
      (index base : ℕ) (before : Logs) (kept : List Entry) (e : Entry) (rest : List Entry)
      (d : Disk)
      → 0 < index
      → index < words 8
      → IsBoundary enc floor index before kept e rest []
      → All (IsStorable enc) kept
      → IsMarked enc floor anchor max_segment_size
          (before ++ ((base, kept ++ (e ∷ rest)) ∷ []))
          index
          d
      → Throughout
          (Reopens enc floor anchor max_segment_size
            (live floor (flat (before ++ ((base, kept) ∷ [])))))
          (set_len base (length (frames enc kept))
            ∷ ((if length (frames enc kept) == 0 then remove_file base ∷ [] else [])
                ++ (clear_truncate_marker ∷ [])))
          d
  ending-Reopens index base before kept e rest d pos small h own m =
      let Whole = Reopens enc floor anchor max_segment_size in
      let left = before ++ ((base, kept) ∷ []) in
      let d1 = perform (set_len base (length (frames enc kept))) d in
      let m1 = cut-IsMarked index base before kept e rest d h.first m in
      let now : Whole (live floor (flat left)) d =
        subst (λ es. Whole es d) (cut_entries enc floor index before base kept e rest [] h)
          (marked-Reopens enc floor anchor max_segment_size index _ d pos small m) in
      let then_cut : Whole (live floor (flat left)) d1 =
        subst (λ es. Whole es d1) (survivors index base before kept h.earlier h.here)
          (marked-Reopens enc floor anchor max_segment_size index left d1 pos small m1) in
      (now, emptying-Reopens index base before kept d1 pos small h.earlier own m1 then_cut)
