-- ===== src/FileLog/Open.antt =====
-- xraft-storage/src/log.rs, `FileLogStore`: opening a directory, and reading.
use failover_cluster.FileLog.Trim.{truncate_from}
use failover_cluster.FileLog.Sidecars.{
  load_purge_marker, load_snapshot_anchor, load_truncate_marker,
}
use failover_cluster.LogStore.{
  end_offset_lookup, entry_term, find, last_index_from, last_term_from, retain,
}
use failover_cluster.FileLog.Recovery.{Recovered, Segment, recover_from, and_then}
use failover_cluster.Prelude.{
  List, Option, [], false, leb, ltb, none, saturating_add, some, ℕ, ◌&&◌, if◌then◌else◌, ◌==◌,
}
use failover_cluster.Message.{Entry}
use failover_cluster.FileLog.Codec.{Encoding, Result, ok}
use failover_cluster.FileLog.Store.{Disk, FileLogStore, rebuild_epoch_starts, reopen_active_writer}

-- The store after `recover`, before the epochs are known.
unfoldable pub recovered_store :
    Disk → ℕ → ℕ → Option (ℕ × ℕ) → Recovered × List Segment → FileLogStore
recovered_store disk max_segment_size floor anchor (r, segs) = reopen_active_writer (record {
  disk = record disk { segments = segs };
  active_writer = false;
  active_segment_size = 0;
  entries = r.entries;
  offsets = r.offsets;
  max_segment_size = max_segment_size;
  first_valid_index = floor;
  epoch_starts = [];
  snapshot_anchor = anchor;
})

-- A truncation that was interrupted is done again.
abbrev pub replay_truncate : Option ℕ → FileLogStore → FileLogStore
replay_truncate none s = s
replay_truncate (some target) s = truncate_from s (saturating_add target 1)

unfoldable pub open_with_max_segment_size : Encoding → ℕ → Disk → Result FileLogStore
open_with_max_segment_size enc max_segment_size disk =
    and_then (load_purge_marker disk.purge_file) (λ (floor : ℕ).
      and_then (load_snapshot_anchor disk.anchor_file) (λ (anchor : Option (ℕ × ℕ)).
        and_then (load_truncate_marker disk.truncate_file) (λ (pending : Option ℕ).
          and_then (recover_from enc floor 0 record { entries = []; offsets = [] } disk.segments)
            (λ (r : Recovered × List Segment). ok (
              rebuild_epoch_starts (
                replay_truncate pending (recovered_store disk max_segment_size floor anchor r)))))))

unfoldable pub get : FileLogStore → ℕ → Option Entry
get s index = if index == 0 then none else find index s.entries

unfoldable pub get_range : FileLogStore → ℕ → ℕ → List Entry
get_range s start end = retain (λ e. leb start e.index && ltb e.index end) s.entries

unfoldable pub last_index : FileLogStore → ℕ
last_index s = last_index_from 0 s.entries

unfoldable pub last_term : FileLogStore → ℕ
last_term s = last_term_from 0 s.entries

unfoldable pub term_at : FileLogStore → ℕ → Option ℕ
term_at s index = entry_term (find index s.entries)

unfoldable pub end_offset_for_epoch : FileLogStore → ℕ → Option ℕ
end_offset_for_epoch s epoch =
    end_offset_lookup s.epoch_starts (last_index s) s.snapshot_anchor epoch
