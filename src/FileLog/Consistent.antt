-- ===== src/FileLog/Consistent.antt =====
-- When the memory of a `FileLogStore` is what its directory says, and that opening the directory gives
-- that store again.
pub mod Live
pub mod Torn
pub mod Cut
pub mod Trimmed
pub mod Truncate
pub mod Purge
pub mod Append
use failover_cluster.FileLog.Bytes.{take_whole}
use failover_cluster.FileLog.Open.{open_with_max_segment_size, recovered_store, replay_truncate}
use failover_cluster.LogStore.{note_epochs}
use failover_cluster.FileLog.Sidecars.{
  load_purge_marker, load_snapshot_anchor, load_truncate_marker,
}
use failover_cluster.FileLog.Recovery.Replay.{frames, recover_segment-frames, replay}
use failover_cluster.FileLog.Recovery.{Recovered, Segment, recover_from}
use failover_cluster.FileLog.Entries.{IsStorable}
use failover_cluster.FileLog.Store.{
  FileLogStore, rebuild_epoch_starts, reopen_active_writer, last_size,
}
use failover_cluster.Message.{Entry}
use failover_cluster.FileLog.Codec.{Encoding, ok}
use failover_cluster.Prelude.{
  is_empty, All, List, Option, [], length, none, not, refl, sym, ℕ, ◌∷◌, ◌∙◌, ◌≡◌, ◌+◌,
}

-- The entries of each segment, with the segment's base index.
abbrev pub Logs : Type 0
Logs = List (ℕ × List Entry)

unfoldable pub segments_of : Encoding → Logs → List Segment
segments_of enc [] = []
segments_of enc ((base, es) ∷ logs) =
    record { base_index = base; content = frames enc es } ∷ segments_of enc logs

unfoldable pub replay_logs : Encoding → ℕ → ℕ → Recovered → Logs → Recovered
replay_logs enc floor seg_idx r [] = r
replay_logs enc floor seg_idx r ((base, es) ∷ logs) =
    replay_logs enc floor (seg_idx + 1) (replay enc floor seg_idx r 0 es) logs

abbrev pub AllStorable : Encoding → Logs → Type 0
AllStorable enc [] = Unit
AllStorable enc ((base, es) ∷ logs) = All (IsStorable enc) es × AllStorable enc logs

-- No entry yet.
abbrev pub nothing : Recovered
nothing = record { entries = []; offsets = [] }

-- The directory's part: the segments hold the logs' frames, and the sidecar files the store's numbers.
pub record IsStored (enc : Encoding) (logs : Logs) (s : FileLogStore) : Type 0 where
  pub segments_lem : s.disk.segments ≡ segments_of enc logs
  pub storable : AllStorable enc logs
  pub floor_lem : load_purge_marker s.disk.purge_file ≡ ok s.first_valid_index
  pub anchor_lem : load_snapshot_anchor s.disk.anchor_file ≡ ok s.snapshot_anchor
  pub entries_lem : s.entries ≡ (replay_logs enc s.first_valid_index 0 nothing logs).entries
  pub offsets_lem : s.offsets ≡ (replay_logs enc s.first_valid_index 0 nothing logs).offsets

-- The memory's part, between two operations.
pub record IsSettled (s : FileLogStore) : Type 0 where
  pub marker_lem : s.disk.truncate_file ≡ none
  pub active_lem : s.active_writer ≡ not (is_empty s.disk.segments)
  pub size_lem : s.active_segment_size ≡ last_size s.disk.segments
  pub epochs_lem : s.epoch_starts ≡ note_epochs [] s.entries

recover_from-segments_of :
    (enc : Encoding) (floor seg_idx : ℕ) (r : Recovered) (logs : Logs)
    → AllStorable enc logs
    → recover_from enc floor seg_idx r (segments_of enc logs)
      ≡ ok (replay_logs enc floor seg_idx r logs, segments_of enc logs)
unfolding recover_from segments_of replay_logs
recover_from-segments_of enc floor seg_idx r [] s = refl
recover_from-segments_of enc floor seg_idx r ((base, es) ∷ logs) s =
    let here =
      recover_segment-frames enc floor seg_idx (is_empty (segments_of enc logs)) es r s.0 in
    let rest =
      recover_from-segments_of enc floor (seg_idx + 1) (replay enc floor seg_idx r 0 es) logs s.1 in
    let whole = take_whole (length (frames enc es)) (frames enc es) refl in
    rw (here, rest, whole) refl

-- Opening the directory of a stored log reads the store's maps, and does the interrupted truncation.
pub open-IsStored :
    (enc : Encoding) (logs : Logs) (s : FileLogStore) (pending : Option ℕ)
    → IsStored enc logs s
    → load_truncate_marker s.disk.truncate_file ≡ ok pending
    → open_with_max_segment_size enc s.max_segment_size s.disk
      ≡ ok (
          rebuild_epoch_starts
            (replay_truncate pending (reopen_active_writer (record s { epoch_starts = [] }))))
unfolding open_with_max_segment_size recovered_store reopen_active_writer
open-IsStored enc logs s pending w m =
    let floor = s.first_valid_index in
    let found : recover_from enc floor 0 nothing s.disk.segments
        ≡ ok (record { entries = s.entries; offsets = s.offsets }, s.disk.segments) =
      rw (w.entries_lem, w.offsets_lem, w.segments_lem)
        (recover_from-segments_of enc floor 0 nothing logs w.storable) in
    rw (w.floor_lem, w.anchor_lem, m, found) refl

-- Opening the directory of a settled store gives the store.
pub open-IsSettled :
    (enc : Encoding) (logs : Logs) (s : FileLogStore)
    → IsStored enc logs s
    → IsSettled s
    → open_with_max_segment_size enc s.max_segment_size s.disk ≡ ok s
open-IsSettled enc logs s w t =
    let unmarked : load_truncate_marker s.disk.truncate_file ≡ ok none =
      rw t.marker_lem (unfold load_truncate_marker in refl) in
    open-IsStored enc logs s none w unmarked
    ∙ (unfold rebuild_epoch_starts reopen_active_writer in
        rw (sym t.epochs_lem, sym t.active_lem, sym t.size_lem) refl)
