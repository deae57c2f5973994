-- ===== src/FileLog/Sidecars.antt =====
-- xraft-storage/src/log.rs, the sidecar files: the purge floor, the snapshot anchor and the truncation
-- marker, which are replaced as a whole (written to a temporary file, which is renamed).
use failover_cluster.FileLog.Codec.{Result, err, ok, wrong_length}
use failover_cluster.Prelude.{
  Option, arith, length, length-append, none, refl, some, ℕ, ◌≡◌, if◌then◌else◌, ◌++◌, ◌<◌, ◌==◌,
  ◌∙◌,
}
use failover_cluster.FileLog.Bytes.{
  Bytes, from_le_bytes, from_le_bytes-to_le_bytes, length-to_le_bytes, slice, slice_first,
  slice_skip, slice_whole, to_le_bytes, words,
}

-- A missing file means that nothing was purged.
unfoldable pub load_purge_marker : Option Bytes → Result ℕ
load_purge_marker none = ok 0
load_purge_marker (some buf) = if length buf == 8 then ok (from_le_bytes buf) else err wrong_length

unfoldable pub persist_purge_marker : ℕ → Option Bytes
persist_purge_marker first_valid_index = some (to_le_bytes 8 first_valid_index)

unfoldable pub load_snapshot_anchor : Option Bytes → Result (Option (ℕ × ℕ))
load_snapshot_anchor none = ok none
load_snapshot_anchor (some buf) =
    if length buf == 16
    then ok (some (from_le_bytes (slice buf 0 8), from_le_bytes (slice buf 8 16)))
    else err wrong_length

-- Without an anchor the file stays as it is.
unfoldable pub persist_snapshot_anchor : Option (ℕ × ℕ) → Option Bytes → Option Bytes
persist_snapshot_anchor none file = file
persist_snapshot_anchor (some (term, index)) file = some (to_le_bytes 8 term ++ to_le_bytes 8 index)

unfoldable pub load_truncate_marker : Option Bytes → Result (Option ℕ)
load_truncate_marker none = ok none
load_truncate_marker (some buf) =
    if length buf == 8 then ok (some (from_le_bytes buf)) else err wrong_length

unfoldable pub persist_truncate_marker : ℕ → Option Bytes
persist_truncate_marker target_last_index = some (to_le_bytes 8 target_last_index)

pub load_purge_marker-persist_purge_marker :
    (floor : ℕ) → floor < words 8 → load_purge_marker (persist_purge_marker floor) ≡ ok floor
unfolding load_purge_marker persist_purge_marker
load_purge_marker-persist_purge_marker floor h =
    rw (length-to_le_bytes 8 floor, from_le_bytes-to_le_bytes 8 floor h) refl

pub load_truncate_marker-persist_truncate_marker :
    (target : ℕ)
    → target < words 8
    → load_truncate_marker (persist_truncate_marker target) ≡ ok (some target)
unfolding load_truncate_marker persist_truncate_marker
load_truncate_marker-persist_truncate_marker target h =
    rw (length-to_le_bytes 8 target, from_le_bytes-to_le_bytes 8 target h) refl

pub load_snapshot_anchor-persist_snapshot_anchor :
    (term index : ℕ) (file : Option Bytes)
    → term < words 8
    → index < words 8
    → load_snapshot_anchor (persist_snapshot_anchor (some (term, index)) file)
      ≡ ok (some (term, index))
unfolding load_snapshot_anchor persist_snapshot_anchor
load_snapshot_anchor-persist_snapshot_anchor term index file ht hi =
    let t = to_le_bytes 8 term in
    let i = to_le_bytes 8 index in
    let nt = length-to_le_bytes 8 term in
    let ni = length-to_le_bytes 8 index in
    let size : length (t ++ i) ≡ 16 = omega (arith, length-append t i, nt, ni) in
    let e1 : slice (t ++ i) 0 8 ≡ t = slice_first 8 t i nt in
    let e2 : slice (t ++ i) 8 16 ≡ i =
      slice_skip 8 t i 8 16 0 8 nt refl refl ∙ slice_whole 8 i ni in
    rw (size, e1, e2, from_le_bytes-to_le_bytes 8 term ht, from_le_bytes-to_le_bytes 8 index hi)
      refl
