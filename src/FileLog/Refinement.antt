-- ===== src/FileLog/Refinement.antt =====
-- xraft-storage/src/log.rs: `FileLogStore` does what `MemoryLogStore` does, and the directory it leaves
-- after each operation gives the same store when it is opened again.
pub mod Appends
pub mod Runs
pub mod Steps
use failover_cluster.FileLog.Bytes.{words}
use failover_cluster.FileLog.Trim.{purge_prefix, truncate_from, update_snapshot_anchor}
use failover_cluster.FileLog.Open.{
  open_with_max_segment_size, end_offset_for_epoch, get, get_range, last_index, last_term, term_at,
}
use failover_cluster.LogStore.{MemoryLogStore, last_index_from, note_epochs}
use failover_cluster.Prelude.{List, Option, [], none, some, ℕ, ◌≡◌, ◌∷◌, ◌<◌, false}
use failover_cluster.FileLog.Entries.{IsStorable}
use failover_cluster.FileLog.Consistent.Live.{IsSorted}
use failover_cluster.FileLog.Consistent.{IsSettled, IsStored, Logs}
use failover_cluster.FileLog.Consistent.Append.Order.{IsFilled}
use failover_cluster.FileLog.Store.{FileLogStore, append, Disk}
use failover_cluster.Message.{Entry}
use failover_cluster.FileLog.Codec.{Encoding, Result, err, ok}

-- The operations that change a log store, and a restart.
pub data Op : Type 0 where
  append_entries : List Entry → Op
  truncate : ℕ → Op
  purge : ℕ → Op
  anchor_at : ℕ → ℕ → Op
  restart : Op

abbrev pub or_same {ℓ} : {A : Type ℓ} → A → Option A → A
or_same old none = old
or_same old (some new) = new

-- A restart loses nothing of a log in memory, by comparison.
unfoldable pub memory_step : Op → MemoryLogStore → MemoryLogStore
memory_step (append_entries es) m = or_same m (failover_cluster.LogStore.append m es)
memory_step (truncate index) m = failover_cluster.LogStore.truncate_from m index
memory_step (purge through) m = failover_cluster.LogStore.purge_prefix m through
memory_step (anchor_at term index) m = failover_cluster.LogStore.update_snapshot_anchor m term index
memory_step restart m = m

abbrev pub reopened : FileLogStore → Result FileLogStore → FileLogStore
reopened old (err e) = old
reopened old (ok new) = new

unfoldable pub file_step : Encoding → Op → FileLogStore → FileLogStore
file_step enc (append_entries es) s = (append enc s es).0
file_step enc (truncate index) s = truncate_from s index
file_step enc (purge through) s = purge_prefix s through
file_step enc (anchor_at term index) s = update_snapshot_anchor s term index
file_step enc restart s = reopened s (open_with_max_segment_size enc s.max_segment_size s.disk)

-- Entries that follow the log: above its last index and the purge floor, in order.
abbrev pub IsNext : Encoding → ℕ → ℕ → List Entry → Type 0
IsNext enc floor last [] = Unit
IsNext enc floor last (e ∷ es) =
    (floor < e.index) × (last < e.index) × IsStorable enc e × IsNext enc floor e.index es

-- What the driver keeps to: it appends behind the log, and the numbers fit `u64`.
abbrev pub IsValid : Encoding → Op → FileLogStore → Type 0
IsValid enc (append_entries es) s = IsNext enc s.first_valid_index (last_index_from 0 s.entries) es
IsValid enc (truncate index) s = Unit
IsValid enc (purge through) s = through < words 8
IsValid enc (anchor_at term index) s = (term < words 8) × (index < words 8)
IsValid enc restart s = Unit

-- The store shows what the memory store shows, and its directory holds it.
pub record Refines (enc : Encoding) (m : MemoryLogStore) (s : FileLogStore) (logs : Logs)
    : Type 0 where
  pub stored : IsStored enc logs s
  pub sorted : IsSorted 0 logs
  pub filled : IsFilled logs
  pub settled : IsSettled s
  pub same_entries : s.entries ≡ m.entries
  pub same_epochs : m.epoch_starts ≡ note_epochs [] m.entries
  pub same_anchor : s.snapshot_anchor ≡ m.snapshot_anchor

unfoldable pub memory_run : List Op → MemoryLogStore → MemoryLogStore
memory_run [] m = m
memory_run (op ∷ ops) m = memory_run ops (memory_step op m)

unfoldable pub file_run : Encoding → List Op → FileLogStore → FileLogStore
file_run enc [] s = s
file_run enc (op ∷ ops) s = file_run enc ops (file_step enc op s)

-- Every operation is valid in the state that it meets.
abbrev pub IsValidRun : Encoding → List Op → FileLogStore → Type 0
IsValidRun enc [] s = Unit
IsValidRun enc (op ∷ ops) s = IsValid enc op s × IsValidRun enc ops (file_step enc op s)

abbrev pub empty_disk : Disk
empty_disk = record { segments = []; purge_file = none; anchor_file = none; truncate_file = none }

-- The store that `open` makes of an empty directory.
abbrev pub empty_store : ℕ → FileLogStore
empty_store max_segment_size = record {
  disk = empty_disk;
  active_writer = false;
  active_segment_size = 0;
  entries = [];
  offsets = [];
  max_segment_size = max_segment_size;
  first_valid_index = 0;
  epoch_starts = [];
  snapshot_anchor = none;
}

abbrev pub empty_memory : MemoryLogStore
empty_memory = record { entries = []; epoch_starts = []; snapshot_anchor = none }

-- Every read of the two stores gives the same.
pub record SameAnswers (m : MemoryLogStore) (s : FileLogStore) : Type 0 where
  pub same_get : (index : ℕ) → get s index ≡ failover_cluster.LogStore.get m index
  pub same_range :
      (start end : ℕ) → get_range s start end ≡ failover_cluster.LogStore.get_range m start end
  pub same_last_index : last_index s ≡ failover_cluster.LogStore.last_index m
  pub same_last_term : last_term s ≡ failover_cluster.LogStore.last_term m
  pub same_term_at : (index : ℕ) → term_at s index ≡ failover_cluster.LogStore.term_at m index
  pub same_end_offset :
      (epoch : ℕ)
      → end_offset_for_epoch s epoch ≡ failover_cluster.LogStore.end_offset_for_epoch m epoch
