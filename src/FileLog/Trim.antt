-- ===== src/FileLog/Trim.antt =====
-- xraft-storage/src/log.rs, `FileLogStore`: truncation, the purge of a prefix and the snapshot anchor.
use failover_cluster.FileLog.Sidecars.{persist_snapshot_anchor}
use failover_cluster.LogStore.{keeps_anchor, retain}
use failover_cluster.FileLog.Recovery.{Segment, Offset}
use failover_cluster.FileLog.Store.{
  FileLogStore, Write, clear_truncate_marker, location_from, mark_purge, mark_truncate, performs,
  rebuild_epoch_starts, remove_file, reopen_active_writer, set_len,
}
use failover_cluster.Prelude.{
  Bool, List, Option, [], leb, ltb, none, saturating_sub, some, suc, zero, ℕ, ◌∷◌, ◌++◌, ◌-◌, ◌||◌,
  ◌==◌, if◌then◌else◌,
}

-- The base indices of the segments from position `n` on.
unfoldable pub bases_from : ℕ → List Segment → List ℕ
bases_from n [] = []
bases_from zero (s ∷ segs) = s.base_index ∷ bases_from zero segs
bases_from (suc n) (s ∷ segs) = bases_from n segs

unfoldable pub base_at : ℕ → List Segment → ℕ
base_at n [] = 0
base_at zero (s ∷ segs) = s.base_index
base_at (suc n) (s ∷ segs) = base_at n segs

unfoldable pub remove_files : List ℕ → List Write
remove_files [] = []
remove_files (b ∷ bs) = remove_file b ∷ remove_files bs

-- The calls of `truncate_from` behind the first: the later segments go, then the boundary segment is cut
-- and removed when nothing is left of it, then the marker goes.
unfoldable pub truncate_calls : List Segment → ℕ × ℕ → List Write
truncate_calls segs (seg_idx, byte_offset) =
    let boundary = base_at seg_idx segs in
    remove_files (bases_from (suc seg_idx) segs)
    ++ (set_len boundary byte_offset
        ∷ ((if byte_offset == 0 then remove_file boundary ∷ [] else [])
            ++ (clear_truncate_marker ∷ [])))

-- The marker comes first.
unfoldable pub truncate_writes : List Segment → ℕ → ℕ × ℕ → List Write
truncate_writes segs index location =
    mark_truncate (saturating_sub index 1) ∷ truncate_calls segs location

-- What `truncate_from` asks of the directory: without an entry to remove only the marker is cleared.
unfoldable pub planned : List Segment → ℕ → Option (ℕ × ℕ) → List Write
planned segs index none = clear_truncate_marker ∷ []
planned segs index (some location) = truncate_writes segs index location

abbrev pub before_index : ℕ → Offset → Bool
before_index index (i, seg_idx, start) = ltb i index

unfoldable pub keep_offsets : (Offset → Bool) → List Offset → List Offset
keep_offsets test [] = []
keep_offsets test (o ∷ os) = let rest = keep_offsets test os in if test o then o ∷ rest else rest

-- The maps after the calls.
unfoldable pub truncate_maps : FileLogStore → ℕ → FileLogStore
truncate_maps s index = reopen_active_writer (
    rebuild_epoch_starts (record s {
      entries = retain (λ e. ltb e.index index) s.entries;
      offsets = keep_offsets (before_index index) s.offsets;
    }))

abbrev pub truncate_at : FileLogStore → ℕ → Option (ℕ × ℕ) → FileLogStore
truncate_at s index none = record s { disk = performs (planned s.disk.segments index none) s.disk }
truncate_at s index (some location) =
    truncate_maps
      (record s { disk = performs (planned s.disk.segments index (some location)) s.disk }) index

unfoldable pub truncate_from : FileLogStore → ℕ → FileLogStore
truncate_from s index = truncate_at s index (location_from index s.offsets)

abbrev pub is_covered : ℕ → ℕ → Bool
is_covered through next_base = next_base == 0 || leb (saturating_sub next_base 1) through

-- How many segments from the first on are wholly at or below the floor, the active one never.
unfoldable pub covered : ℕ → List Segment → ℕ
covered through [] = 0
covered through (s ∷ []) = 0
covered through (s ∷ t ∷ segs) =
    let rest = covered through (t ∷ segs) in if is_covered through t.base_index then suc rest else 0

unfoldable pub take_bases : ℕ → List Segment → List ℕ
take_bases zero segs = []
take_bases (suc n) [] = []
take_bases (suc n) (s ∷ segs) = s.base_index ∷ take_bases n segs

-- `checked_sub(drop_count).expect(...)`: the source stops where `-` gives 0 for less.
unfoldable pub shift : ℕ → List Offset → List Offset
shift drop_count [] = []
shift drop_count ((i, seg_idx, start) ∷ os) = (i, seg_idx - drop_count, start) ∷ shift drop_count os

abbrev pub after_index : ℕ → Offset → Bool
after_index index (i, seg_idx, start) = ltb index i

-- The floor first, then the files.
unfoldable pub purge_writes : List Segment → ℕ → List Write
purge_writes segs through =
    mark_purge through ∷ remove_files (take_bases (covered through segs) segs)

unfoldable pub purge_prefix : FileLogStore → ℕ → FileLogStore
purge_prefix s through =
    if leb through s.first_valid_index
    then s
    else rebuild_epoch_starts (record s {
      first_valid_index = through;
      disk = performs (purge_writes s.disk.segments through) s.disk;
      entries = retain (λ e. ltb through e.index) s.entries;
      offsets =
          shift (covered through s.disk.segments) (keep_offsets (after_index through) s.offsets);
    })

unfoldable pub update_snapshot_anchor : FileLogStore → ℕ → ℕ → FileLogStore
update_snapshot_anchor s term index = if keeps_anchor s.snapshot_anchor index then s else record s {
  snapshot_anchor = some (term, index);
  disk = record s.disk {
    anchor_file = persist_snapshot_anchor (some (term, index)) s.disk.anchor_file;
  };
}
