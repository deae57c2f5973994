-- ===== src/Tests/Runs.antt =====
-- Runs of the file log's operations on given entries, and a truncation's calls one by one.
use failover_cluster.Tests.Files.{
  first_entry, first_entry-IsStorable, other_entry, other_entry-IsStorable, plain, second_entry,
  second_entry-IsStorable, sum,
}
use failover_cluster.FileLog.Consistent.Truncate.Calls.{truncate_from-Reopens}
use failover_cluster.FileLog.Open.{open_with_max_segment_size}
use failover_cluster.FileLog.Refinement.Runs.{empty_Refines, file_run-SameAnswers, run_Refines}
use failover_cluster.FileLog.Refinement.Steps.{Holds}
use failover_cluster.FileLog.Consistent.Truncate.Writes.{Throughout}
use failover_cluster.FileLog.Consistent.Truncate.Crash.{Reopens}
use failover_cluster.LogStore.{last_index_from, note_epochs, retain, or_insert}
use failover_cluster.FileLog.Maps.{insert_at}
use failover_cluster.FileLog.Trim.{
  base_at, bases_from, keep_offsets, planned, remove_files, truncate_calls, truncate_maps,
  truncate_writes, truncate_from,
}
use failover_cluster.FileLog.Store.{
  append_one, create_segment, last_size, location_from, performs, rebuild_epoch_starts,
  remove_segment, reopen_active_writer, resize, rotate_segment, should_rotate, with_room, write_all,
  write_frame, append, perform, FileLogStore, clear_truncate_marker, mark_truncate, remove_file,
  set_len,
}
use failover_cluster.FileLog.Refinement.{
  IsValidRun, Op, anchor_at, empty_store, file_step, purge, restart, truncate, append_entries,
  SameAnswers, empty_memory, file_run, memory_run,
}
use failover_cluster.Prelude.{[], arith, refl, some, ◌∷◌, ◌≡◌, List, ltb}
use failover_cluster.FileLog.Codec.{
  encode_frame, frame, frame_of, ok, payload_bytes, serialize_entry,
}
use failover_cluster.FileLog.Bytes.{to_le_bytes}

-- Segments of forty bytes: the second entry begins a new one.
abbrev two_entries : List Op
two_entries = append_entries (first_entry ∷ second_entry ∷ []) ∷ []

abbrev some_ops : List Op
some_ops =
    append_entries (first_entry ∷ second_entry ∷ [])
    ∷ truncate 2
    ∷ append_entries (other_entry ∷ [])
    ∷ purge 1
    ∷ anchor_at 1 1
    ∷ restart
    ∷ []

some_ops-IsValidRun : IsValidRun plain some_ops (empty_store 40)
unfolding file_step append append_one with_room should_rotate rotate_segment create_segment
    write_frame write_all frame encode_frame frame_of serialize_entry payload_bytes to_le_bytes sum
    insert_at or_insert truncate_from location_from planned truncate_writes truncate_calls performs
    perform remove_files bases_from base_at remove_segment resize truncate_maps reopen_active_writer
    rebuild_epoch_starts keep_offsets retain note_epochs last_size last_index_from
some_ops-IsValidRun = (
  (
    omega arith,
    omega arith,
    first_entry-IsStorable,
    (omega arith, omega arith, second_entry-IsStorable, tt),
  ),
  (
    tt,
    (
      (omega arith, omega arith, other_entry-IsStorable, tt),
      (omega arith, ((omega arith, omega arith), (tt, tt))),
    ),
  ),
)

file_run-SameAnswers_example :
    SameAnswers (memory_run some_ops empty_memory) (file_run plain some_ops (empty_store 40))
    × (open_with_max_segment_size plain
          (file_run plain some_ops (empty_store 40)).max_segment_size
          (file_run plain some_ops (empty_store 40)).disk
        ≡ ok (file_run plain some_ops (empty_store 40)))
file_run-SameAnswers_example = file_run-SameAnswers plain 40 some_ops some_ops-IsValidRun

abbrev two_stored : FileLogStore
two_stored = file_run plain two_entries (empty_store 40)

two_entries-IsValidRun : IsValidRun plain two_entries (empty_store 40)
unfolding last_index_from
two_entries-IsValidRun = (
  (
    omega arith,
    omega arith,
    first_entry-IsStorable,
    (omega arith, omega arith, second_entry-IsStorable, tt),
  ),
  tt,
)

two_entries_kept : Holds plain (memory_run two_entries empty_memory) two_stored
two_entries_kept =
    run_Refines plain two_entries empty_memory (empty_store 40) [] two_entries-IsValidRun
      (empty_Refines plain 40)

two_places : location_from 2 two_stored.offsets ≡ some (1, 0)
unfolding file_run file_step append append_one with_room should_rotate rotate_segment create_segment
    write_frame write_all frame encode_frame frame_of serialize_entry payload_bytes to_le_bytes sum
    insert_at or_insert location_from
two_places = refl

truncate_from-Reopens_example :
    Throughout
      (Reopens plain two_stored.first_valid_index two_stored.snapshot_anchor
        two_stored.max_segment_size
        (retain (λ e. ltb e.index 2) two_stored.entries))
      (truncate_calls two_stored.disk.segments (1, 0))
      (perform (mark_truncate 1) two_stored.disk)
truncate_from-Reopens_example =
    truncate_from-Reopens plain 2 (1, 0) two_entries_kept.0 two_stored (omega arith) (omega arith)
      two_entries_kept.1.stored two_entries_kept.1.sorted two_places

-- The calls are the second file's: cut, removed, and the marker.
two_calls :
    truncate_calls two_stored.disk.segments (1, 0)
    ≡ set_len 2 0 ∷ remove_file 2 ∷ clear_truncate_marker ∷ []
unfolding file_run file_step append append_one with_room should_rotate rotate_segment create_segment
    write_frame write_all frame encode_frame frame_of serialize_entry payload_bytes to_le_bytes sum
    insert_at or_insert truncate_calls remove_files bases_from base_at
two_calls = refl
