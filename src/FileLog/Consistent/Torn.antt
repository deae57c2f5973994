-- ===== src/FileLog/Consistent/Torn.antt =====
-- A segment that a crash cut short: xraft-storage/src/log.rs, `recover_segment`.
use failover_cluster.FileLog.Entries.{IsStorable}
use failover_cluster.FileLog.Maps.{IsAscending}
use failover_cluster.Message.{Entry}
use failover_cluster.FileLog.Codec.{Encoding, StorageError, err, ok}
use failover_cluster.FileLog.Bytes.{Bytes}
use failover_cluster.FileLog.Consistent.Live.{IsBelow, live, live_offsets, replay-live}
use failover_cluster.FileLog.Recovery.Replay.{IsTorn, frames, replay-torn}
use failover_cluster.FileLog.Recovery.{Recovered, entry_key, recover_segment}
use failover_cluster.Prelude.{All, Bool, List, ℕ, ap, length, suc, ◌++◌, if◌then◌else◌, ◌≡◌, ◌∙◌}

-- A segment of whole frames, of entries in order behind all that was recovered before, and a frame
-- that a crash cut short. In the last segment, the entries above the purge floor are added to those
-- recovered, each with the segment and the byte where its frame starts, and the segment is cut behind
-- the whole frames; in any other segment this is an error.
pub recover_segment-torn :
    (enc : Encoding) (floor seg_idx k : ℕ) (is_last : Bool) (es : List Entry) (e : Entry)
    (torn missing : Bytes) (r : Recovered)
    → All (IsStorable enc) es
    → IsStorable enc e
    → IsTorn enc e torn missing
    → IsAscending entry_key k es
    → IsBelow (suc k) r
    → (reason : StorageError) × (recover_segment enc floor seg_idx is_last (frames enc es ++ torn) r
        ≡ (if is_last
            then ok (
              record {
                entries = r.entries ++ live floor es;
                offsets = r.offsets ++ live_offsets enc floor seg_idx 0 es;
              },
              length (frames enc es),
            )
            else err reason))
recover_segment-torn enc floor seg_idx k is_last es e torn missing r s se t a b =
    let (reason, replayed) = replay-torn enc floor seg_idx is_last es e torn missing r s se t in
    let (same, _) = replay-live enc floor seg_idx 0 k r es a b in
    (
      reason,
      replayed
          ∙ ap (λ (x : Recovered). if is_last then ok (x, length (frames enc es)) else err reason)
              same,
    )
