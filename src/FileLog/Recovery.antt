-- ===== src/FileLog/Recovery.antt =====
-- xraft-storage/src/log.rs, `recover` and `recover_segment`: what `open` reads back from the segments.
pub mod Loop
pub mod Replay
use failover_cluster.FileLog.Maps.{insert_at}
use failover_cluster.Message.{Entry}
use failover_cluster.FileLog.Codec.{Encoding, Result, StorageError, decode_frame, err, ok}
use failover_cluster.FileLog.Bytes.{Bytes, take}
use failover_cluster.Prelude.{
  is_empty, Bool, List, [], length, ltb, suc, zero, ℕ, ◌∷◌, if◌then◌else◌, ◌+◌,
}

-- A segment file, named by the index of its first entry, with its bytes.
pub record Segment : Type 0 where
  pub base_index : ℕ
  pub content : Bytes

-- Where an entry stands: the number of its segment and the offset of its frame.
abbrev pub Offset : Type 0
Offset = ℕ × ℕ × ℕ

abbrev pub offset_key : Offset → ℕ
offset_key (index, _, _) = index

abbrev pub entry_key : Entry → ℕ
entry_key e = e.index

-- The two maps that recovery fills.
pub record Recovered : Type 0 where
  pub entries : List Entry
  pub offsets : List Offset

-- An entry at or below the purge floor is dropped.
unfoldable pub note : ℕ → ℕ → Recovered → Entry → ℕ → Recovered
note floor seg_idx r entry start =
    if ltb floor entry.index
    then record {
      entries = insert_at entry_key entry r.entries;
      offsets = insert_at offset_key (entry.index, seg_idx, start) r.offsets;
    }
    else r

abbrev pub on_frame {ℓ} :
    {A : Type ℓ}
    → Result (Entry × ℕ)
    → (Entry → ℕ → Result A)
    → (StorageError → Result A)
    → Result A
on_frame (ok (entry, after)) good bad = good entry after
on_frame (err e) good bad = bad e

-- A frame that does not decode ends the last segment and is an error in the others.
abbrev pub corrupt : Bool → Recovered → ℕ → StorageError → Result (Recovered × ℕ)
corrupt is_last r cursor e = if is_last then ok (r, cursor) else err e

module _ (enc : Encoding) (floor seg_idx : ℕ) (is_last : Bool) (buf : Bytes) where
  -- The loop, with the length that is kept of the file.
  unfoldable pub recover_frames : ℕ → Recovered → ℕ → Result (Recovered × ℕ)
  recover_frames zero r cursor = ok (r, cursor)
  recover_frames (suc fuel) r cursor =
      if ltb cursor (length buf)
      then on_frame (decode_frame enc buf cursor)
          (λ entry after. recover_frames fuel (note floor seg_idx r entry cursor) after)
          (corrupt is_last r cursor)
      else ok (r, cursor)

  -- Each frame takes a byte at least, so that as many rounds as there are bytes are enough.
  unfoldable pub recover_segment : Recovered → Result (Recovered × ℕ)
  recover_segment r = recover_frames (length buf) r 0

abbrev pub and_then {ℓ κ} : {A : Type ℓ} {B : Type κ} → Result A → (A → Result B) → Result B
and_then (ok a) f = f a
and_then (err e) f = err e

-- The file, cut to the length that is kept.
abbrev pub cut : Segment → ℕ → Segment
cut s kept = record s { content = take kept s.content }

-- All segments by ascending name, each number the position in the list.
unfoldable pub recover_from :
    Encoding → ℕ → ℕ → Recovered → List Segment → Result (Recovered × List Segment)
recover_from enc floor seg_idx r [] = ok (r, [])
recover_from enc floor seg_idx r (s ∷ segs) =
    and_then (recover_segment enc floor seg_idx (is_empty segs) s.content r)
      (λ (here : Recovered × ℕ).
        and_then (recover_from enc floor (seg_idx + 1) here.0 segs)
          (λ (rest : Recovered × List Segment). ok (rest.0, cut s here.1 ∷ rest.1)))
