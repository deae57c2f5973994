-- ===== src/FileLog/Store.antt =====
-- xraft-storage/src/log.rs, `FileLogStore` and its operations.
use failover_cluster.FileLog.Sidecars.{persist_purge_marker, persist_truncate_marker}
use failover_cluster.FileLog.Maps.{insert_at}
use failover_cluster.FileLog.Recovery.{Segment, cut, entry_key, offset_key, Offset}
use failover_cluster.LogStore.{EpochMap, note_epochs, is_snapshot, or_insert}
use failover_cluster.Message.{Entry}
use failover_cluster.FileLog.Codec.{Encoding, StorageError, snapshot_not_written, frame}
use failover_cluster.FileLog.Bytes.{Bytes}
use failover_cluster.Prelude.{
  is_empty, Bool, List, Option, [], false, leb, length, ltb, none, not, some, true, ℕ, ◌++◌, ◌&&◌,
  ◌==◌, if◌then◌else◌, ◌+◌, ◌-◌, ◌∷◌,
}

-- The directory: the segment files by ascending name, and the sidecar files that are there.
pub record Disk : Type 0 where
  pub segments : List Segment
  pub purge_file : Option Bytes
  pub anchor_file : Option Bytes
  pub truncate_file : Option Bytes

-- The vector `segments` has a file for each element, in its order: it is the directory's list.
pub record FileLogStore : Type 0 where
  pub disk : Disk
  pub active_writer : Bool
  pub active_segment_size : ℕ
  pub entries : List Entry
  pub offsets : List Offset
  pub max_segment_size : ℕ
  pub first_valid_index : ℕ
  pub epoch_starts : EpochMap
  pub snapshot_anchor : Option (ℕ × ℕ)

-- The length of the last segment, 0 if there is none.
unfoldable pub last_size : List Segment → ℕ
last_size [] = 0
last_size (s ∷ []) = length s.content
last_size (s ∷ t ∷ segs) = last_size (t ∷ segs)

unfoldable pub reopen_active_writer : FileLogStore → FileLogStore
reopen_active_writer s = record s {
  active_writer = not (is_empty s.disk.segments);
  active_segment_size = last_size s.disk.segments;
}

unfoldable pub rebuild_epoch_starts : FileLogStore → FileLogStore
rebuild_epoch_starts s = record s { epoch_starts = note_epochs [] s.entries }

unfoldable pub should_rotate : FileLogStore → ℕ → Bool
should_rotate s additional =
    s.active_writer && ltb s.max_segment_size (s.active_segment_size + additional)

-- The new file's name is above the others: the index of the entry that it is for.
unfoldable pub create_segment : FileLogStore → ℕ → FileLogStore
create_segment s base_index = record s {
  disk = record s.disk {
    segments = s.disk.segments ++ (record { base_index = base_index; content = [] } ∷ []);
  };
  active_writer = true;
  active_segment_size = 0;
}

unfoldable pub rotate_segment : FileLogStore → ℕ → FileLogStore
rotate_segment s next_base =
    create_segment (record s { active_writer = false; active_segment_size = 0 }) next_base

-- `write_all` through the active writer, which is open on the last segment.
unfoldable pub write_all : List Segment → Bytes → List Segment
write_all [] bytes = []
write_all (s ∷ []) bytes = record s { content = s.content ++ bytes } ∷ []
write_all (s ∷ t ∷ segs) bytes = s ∷ write_all (t ∷ segs) bytes

unfoldable pub with_room : FileLogStore → ℕ → ℕ → FileLogStore
with_room s additional index =
    let rotated = if should_rotate s additional then rotate_segment s index else s in
    if rotated.active_writer then rotated else create_segment rotated index

unfoldable pub write_frame : FileLogStore → Entry → Bytes → FileLogStore
write_frame s entry bytes = record s {
  disk = record s.disk { segments = write_all s.disk.segments bytes };
  active_segment_size = s.active_segment_size + length bytes;
  entries = insert_at entry_key entry s.entries;
  offsets =
      insert_at offset_key (entry.index, length s.disk.segments - 1, s.active_segment_size)
        s.offsets;
  epoch_starts = or_insert entry.term entry.index s.epoch_starts;
}

unfoldable pub append_one : Encoding → FileLogStore → Entry → FileLogStore
append_one enc s entry =
    let bytes = frame enc entry in write_frame (with_room s (length bytes) entry.index) entry bytes

-- The entries before a snapshot marker are written all the same.
unfoldable pub append : Encoding → FileLogStore → List Entry → FileLogStore × Option StorageError
append enc s [] = (s, none)
append enc s (e ∷ es) = elim (is_snapshot e.payload) [
  | true ↦ (s, some snapshot_not_written)
  | false ↦ append enc (append_one enc s e) es
]

-- `offsets.range(index..).next()`, its location.
unfoldable pub location_from : ℕ → List Offset → Option (ℕ × ℕ)
location_from index [] = none
location_from index ((i, seg_idx, start) ∷ os) =
    if leb index i then some (seg_idx, start) else location_from index os

-- What an operation does to the directory, one call at a time.
pub data Write : Type 0 where
  mark_truncate : ℕ → Write
  clear_truncate_marker : Write
  remove_file : ℕ → Write
  set_len : ℕ → ℕ → Write
  mark_purge : ℕ → Write

unfoldable pub remove_segment : ℕ → List Segment → List Segment
remove_segment base [] = []
remove_segment base (s ∷ segs) =
    let rest = remove_segment base segs in if s.base_index == base then segs else s ∷ rest

unfoldable pub resize : ℕ → ℕ → List Segment → List Segment
resize base len [] = []
resize base len (s ∷ segs) =
    let rest = resize base len segs in if s.base_index == base then cut s len ∷ segs else s ∷ rest

unfoldable pub perform : Write → Disk → Disk
perform (mark_truncate target) d = record d { truncate_file = persist_truncate_marker target }
perform clear_truncate_marker d = record d { truncate_file = none }
perform (remove_file base) d = record d { segments = remove_segment base d.segments }
perform (set_len base len) d = record d { segments = resize base len d.segments }
perform (mark_purge floor) d = record d { purge_file = persist_purge_marker floor }

unfoldable pub performs : List Write → Disk → Disk
performs [] d = d
performs (w ∷ ws) d = performs ws (perform w d)
