-- ===== src/FileLog/Refinement/Runs.antt =====
-- Whatever operations the driver makes, and wherever it is restarted in between, the files hold the log.
use failover_cluster.FileLog.Refinement.Steps.{Holds, step_Refines}
use failover_cluster.FileLog.Open.{
  end_offset_for_epoch, get, get_range, last_index, last_term, open_with_max_segment_size, term_at,
}
use failover_cluster.FileLog.Sidecars.{load_purge_marker, load_snapshot_anchor}
use failover_cluster.LogStore.{MemoryLogStore, note_epochs}
use failover_cluster.FileLog.Consistent.{Logs, open-IsSettled, replay_logs, segments_of}
use failover_cluster.FileLog.Refinement.{
  Op, Refines, file_step, memory_step, IsValidRun, SameAnswers, empty_memory, empty_store, file_run,
  memory_run,
}
use failover_cluster.FileLog.Store.{FileLogStore, last_size}
use failover_cluster.FileLog.Codec.{Encoding, ok}
use failover_cluster.Prelude.{List, [], ap, refl, sym, ℕ, ◌≡◌, ◌∷◌, ◌∙◌}

module _ (enc : Encoding) where
  pub run_Refines :
      (ops : List Op) (m : MemoryLogStore) (s : FileLogStore) (logs : Logs)
      → IsValidRun enc ops s
      → Refines enc m s logs
      → Holds enc (memory_run ops m) (file_run enc ops s)
  unfolding memory_run file_run
  run_Refines [] m s logs v r = (logs, r)
  run_Refines (op ∷ ops) m s logs v r =
      let (left, r1) = step_Refines enc op m s logs v.0 r in
      run_Refines ops (memory_step op m) (file_step enc op s) left v.1 r1

  pub empty_Refines :
      (max_segment_size : ℕ) → Refines enc empty_memory (empty_store max_segment_size) []
  empty_Refines max_segment_size = record {
    stored = record {
      segments_lem = unfold segments_of in refl;
      storable = tt;
      floor_lem = unfold load_purge_marker in refl;
      anchor_lem = unfold load_snapshot_anchor in refl;
      entries_lem = unfold replay_logs in refl;
      offsets_lem = unfold replay_logs in refl;
    };
    sorted = tt;
    filled = tt;
    settled = record {
      marker_lem = refl;
      active_lem = refl;
      size_lem = unfold last_size in refl;
      epochs_lem = unfold note_epochs in refl;
    };
    same_entries = refl;
    same_epochs = unfold note_epochs in refl;
    same_anchor = refl;
  }

  answers :
      (m : MemoryLogStore) (s : FileLogStore)
      → s.entries ≡ m.entries
      → s.epoch_starts ≡ m.epoch_starts
      → s.snapshot_anchor ≡ m.snapshot_anchor
      → SameAnswers m s
  unfolding get get_range last_index last_term term_at end_offset_for_epoch
  answers m s he hs ha = record {
    same_get = λ index. unfold failover_cluster.LogStore.get in rw he refl;
    same_range = λ start end. unfold failover_cluster.LogStore.get_range in rw he refl;
    same_last_index = unfold failover_cluster.LogStore.last_index in rw he refl;
    same_last_term = unfold failover_cluster.LogStore.last_term in rw he refl;
    same_term_at = λ index. unfold failover_cluster.LogStore.term_at in rw he refl;
    same_end_offset = λ epoch.
        unfold failover_cluster.LogStore.end_offset_for_epoch
          failover_cluster.LogStore.last_index in
        rw (he, hs, ha) refl;
  }

  -- From an empty directory on, after any list of appends that follow the log, truncations, purges,
  -- snapshot anchors and restarts whose numbers fit their words, every read of the file store gives
  -- what the memory store gives after the same list, and opening the directory gives the file store
  -- again as it is.
  pub file_run-SameAnswers :
      (max_segment_size : ℕ) (ops : List Op)
      → IsValidRun enc ops (empty_store max_segment_size)
      → SameAnswers (memory_run ops empty_memory) (file_run enc ops (empty_store max_segment_size))
        × (open_with_max_segment_size enc
              (file_run enc ops (empty_store max_segment_size)).max_segment_size
              (file_run enc ops (empty_store max_segment_size)).disk
            ≡ ok (file_run enc ops (empty_store max_segment_size)))
  file_run-SameAnswers max_segment_size ops v =
      let s = file_run enc ops (empty_store max_segment_size) in
      let m = memory_run ops empty_memory in
      let (logs, r) =
        run_Refines ops empty_memory (empty_store max_segment_size) [] v
          (empty_Refines max_segment_size) in
      let epochs : s.epoch_starts ≡ m.epoch_starts =
        r.settled.epochs_lem ∙ (ap (note_epochs []) r.same_entries ∙ sym r.same_epochs) in
      (
        answers m s r.same_entries epochs r.same_anchor,
        open-IsSettled enc logs s r.stored r.settled,
      )
