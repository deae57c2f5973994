-- ===== src/FileLog/Consistent/Truncate/Outcome.antt =====
-- `truncate_from` on a stored log: the memory and the directory agree again.
use failover_cluster.FileLog.Consistent.Truncate.Kept.{
  AllStorable-cut, IsFilled-kept_logs, IsSorted-kept_logs, all_offsets-kept_logs, flat-kept_logs,
}
use failover_cluster.FileLog.Consistent.Append.Order.{IsFilled}
use failover_cluster.FileLog.Recovery.Replay.{frames}
use failover_cluster.FileLog.Trim.{
  planned, truncate_from, truncate_maps, before_index, keep_offsets,
}
use failover_cluster.LogStore.{note_epochs, retain}
use failover_cluster.FileLog.Consistent.Truncate.Writes.{kept_logs, performs-truncate_writes}
use failover_cluster.FileLog.Consistent.Cut.{Survives, retain-survive, IsCut-logs}
use failover_cluster.FileLog.Recovery.{Recovered}
use failover_cluster.FileLog.Consistent.Live.{IsSorted, all_offsets, flat, live, replay_logs-live}
use failover_cluster.FileLog.Consistent.Trimmed.{IsBoundary, cut_entries, cut_location, cut_offsets}
use failover_cluster.FileLog.Consistent.Cut.Order.{IsSorted-cut}
use failover_cluster.FileLog.Consistent.Cut.Offsets.{location_from-All}
use failover_cluster.FileLog.Store.{
  FileLogStore, last_size, location_from, perform, performs, rebuild_epoch_starts,
  reopen_active_writer, Disk,
}
use failover_cluster.Message.{Entry}
use failover_cluster.FileLog.Codec.{Encoding}
use failover_cluster.FileLog.Consistent.{IsStored, Logs}
use failover_cluster.Prelude.{
  is_empty, All, List, [], ap, ltb, none, not, refl, subst, sym, ℕ, ◌+◌, ◌∷◌, ◌∙◌, ◌≡◌, ◌++◌, arith,
  inl, inr, length, some,
}
use mathlib.Core.List.{append-nil}

pub record IsTruncated (enc : Encoding) (index : ℕ) (s : FileLogStore) (left : Logs)
    (r : FileLogStore) : Type 0 where
  pub stored : IsStored enc left r
  pub sorted : IsSorted 0 left
  pub cut_lem : r.entries ≡ retain (λ e. ltb e.index index) s.entries
  pub unmarked : r.disk.truncate_file ≡ none
  pub writing : r.active_writer ≡ not (is_empty r.disk.segments)
  pub sized : r.active_segment_size ≡ last_size r.disk.segments
  pub epochs_kept :
      s.epoch_starts ≡ note_epochs [] s.entries → r.epoch_starts ≡ note_epochs [] r.entries
  pub floor_kept : r.first_valid_index ≡ s.first_valid_index
  pub anchor_kept : r.snapshot_anchor ≡ s.snapshot_anchor
  pub max_kept : r.max_segment_size ≡ s.max_segment_size

module _ (enc : Encoding) where
  -- What a stored log in order has in memory.
  pub stored_maps :
      (logs : Logs) (s : FileLogStore)
      → IsStored enc logs s
      → IsSorted 0 logs
      → (s.entries ≡ live s.first_valid_index (flat logs))
        × (s.offsets ≡ all_offsets enc s.first_valid_index 0 logs)
  stored_maps logs s w o =
      let same = replay_logs-live enc s.first_valid_index logs o in
      (
        w.entries_lem ∙ ap (λ (r : Recovered). r.entries) same,
        w.offsets_lem ∙ ap (λ (r : Recovered). r.offsets) same,
      )

  nothing_cut :
      (index : ℕ) (logs : Logs) (s : FileLogStore)
      → IsStored enc logs s
      → IsSorted 0 logs
      → s.active_writer ≡ not (is_empty s.disk.segments)
      → s.active_segment_size ≡ last_size s.disk.segments
      → All (Survives s.first_valid_index index) (flat logs)
      → IsTruncated enc index s logs (truncate_from s index)
  unfolding truncate_from planned performs perform
  nothing_cut index logs s w o active size all =
      let (es, os) = stored_maps logs s w o in
      let floor = s.first_valid_index in
      let nowhere : location_from index s.offsets ≡ none =
        ap (location_from index) (os ∙ sym (append-nil (all_offsets enc floor 0 logs)))
        ∙ (location_from-All enc floor index 0 logs [] all ∙ (unfold location_from in refl)) in
      let stay : s.entries ≡ retain (λ e. ltb e.index index) s.entries =
        rw es (sym (retain-survive floor index (flat logs) all)) in
      rw nowhere record {
        stored = record {
          segments_lem = w.segments_lem;
          storable = w.storable;
          floor_lem = w.floor_lem;
          anchor_lem = w.anchor_lem;
          entries_lem = w.entries_lem;
          offsets_lem = w.offsets_lem;
        };
        sorted = o;
        cut_lem = stay;
        unmarked = refl;
        writing = active;
        sized = size;
        epochs_kept = λ e. e;
        floor_kept = refl;
        anchor_kept = refl;
        max_kept = refl;
      }

  something_cut :
      (index : ℕ) (before : Logs) (base : ℕ) (kept : List Entry) (e : Entry) (rest : List Entry)
      (after : Logs) (s : FileLogStore)
      → IsStored enc (before ++ ((base, kept ++ (e ∷ rest)) ∷ after)) s
      → IsSorted 0 (before ++ ((base, kept ++ (e ∷ rest)) ∷ after))
      → IsBoundary enc s.first_valid_index index before kept e rest after
      → IsTruncated enc index s (kept_logs before base kept) (truncate_from s index)
  unfolding truncate_from truncate_maps reopen_active_writer rebuild_epoch_starts planned
  something_cut index before base kept e rest after s w o h =
      let floor = s.first_valid_index in
      let left = kept_logs before base kept in
      let (es, os) = stored_maps (before ++ ((base, kept ++ (e ∷ rest)) ∷ after)) s w o in
      let (fit, storable) = AllStorable-cut enc before base kept (e ∷ rest) after w.storable in
      let (sorted, gone, later) =
        IsSorted-cut floor index 0 before base kept e rest after h.first o in
      let in_order = IsSorted-kept_logs before base kept sorted in
      let n : 0 + length before ≡ length before = omega arith in
      let place : location_from index s.offsets ≡ some (length before, length (frames enc kept)) =
        ap (location_from index) os
        ∙ (cut_location enc floor index 0 before base kept e rest after h
            ∙ ap (λ t. some (t, length (frames enc kept))) n) in
      let written =
        performs-truncate_writes enc 0 index before base kept e rest after s.disk o fit
          w.segments_lem in
      let same = replay_logs-live enc floor left in_order in
      let es_cut : retain (λ x. ltb x.index index) s.entries ≡ live floor (flat left) =
        ap (retain (λ x. ltb x.index index)) es
        ∙ (cut_entries enc floor index before base kept e rest after h
            ∙ ap (live floor) (flat-kept_logs before base kept)) in
      let os_cut : keep_offsets (before_index index) s.offsets ≡ all_offsets enc floor 0 left =
        ap (keep_offsets (before_index index)) os
        ∙ (cut_offsets enc floor index 0 before base kept e rest after h
            ∙ all_offsets-kept_logs enc floor 0 before base kept) in
      let after_writes : Disk → FileLogStore =
        λ (d : Disk). truncate_maps (record s { disk = d }) index in
      rw place (
        subst (λ d. IsTruncated enc index s left (after_writes d)) (sym written)
          record {
            stored = record {
              segments_lem = refl;
              storable = storable;
              floor_lem = w.floor_lem;
              anchor_lem = w.anchor_lem;
              entries_lem = es_cut ∙ ap (λ (r : Recovered). r.entries) (sym same);
              offsets_lem = os_cut ∙ ap (λ (r : Recovered). r.offsets) (sym same);
            };
            sorted = in_order;
            cut_lem = refl;
            unmarked = refl;
            writing = refl;
            sized = refl;
            epochs_kept = λ k. refl;
            floor_kept = refl;
            anchor_kept = refl;
            max_kept = refl;
          })

  -- A truncation of a stored log in order leaves one: its entries are those below the index, the
  -- memory is what the directory says, and the marker is gone.
  pub truncate_from-IsTruncated :
      (index : ℕ) (logs : Logs) (s : FileLogStore)
      → IsStored enc logs s
      → IsSorted 0 logs
      → s.active_writer ≡ not (is_empty s.disk.segments)
      → s.active_segment_size ≡ last_size s.disk.segments
      → (left : Logs) × (IsFilled logs → IsFilled left)
        × IsTruncated enc index s left (truncate_from s index)
  truncate_from-IsTruncated index logs s w o active size =
      elim (IsCut-logs s.first_valid_index index logs) [
        | inl all ↦ (logs, λ f. f, nothing_cut index logs s w o active size all)
        | inr (before, base, kept, e, rest, after, c) ↦
            let o1 = subst (IsSorted 0) c.parts o in
            let w1 = subst (λ l. IsStored enc l s) c.parts w in
            let (sorted, gone, later) =
              IsSorted-cut s.first_valid_index index 0 before base kept e rest after c.gone o1 in
            (
              kept_logs before base kept,
              λ f. IsFilled-kept_logs before base kept (e ∷ rest) after (subst IsFilled c.parts f),
              something_cut index before base kept e rest after s w1 o1 record {
                earlier = c.survive;
                here = c.kept_survive;
                first = c.gone;
                behind = gone.1;
                later = later;
              },
            )
      ]
