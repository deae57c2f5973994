-- ===== src/FileLog/RoundTrip.antt =====
-- A frame that was encoded is decoded again, whatever stands before and behind it.
pub mod Torn
use failover_cluster.FileLog.Entries.{IsStorable, serialized}
use mathlib.Core.List.{append_assoc}
use failover_cluster.Prelude.{
  arith, length, length-append, refl, some, ◌<◌, ◌∙◌, ◌≡◌, ◌++◌, ◌+◌, ◌≤◌, ◌-◌, not_ltb,
}
use failover_cluster.Message.{Entry}
use failover_cluster.FileLog.Codec.{
  Encoding, deserialize_entry, ok, decode_frame, encode_frame, frame_of, to_frame,
}
use failover_cluster.FileLog.Bytes.{
  Bytes, from_le_bytes-to_le_bytes, length-to_le_bytes, slice, slice_first, slice_skip, to_le_bytes,
  words,
}

module _ (enc : Encoding) where
  pub frame_of_size : (bs : Bytes) → length (frame_of enc bs) ≡ 4 + length bs + 4
  unfolding frame_of
  frame_of_size bs =
      let c4 = to_le_bytes 4 (enc.crc32_of bs) in
      let l4 = to_le_bytes 4 (length bs) in
      length-append l4 (bs ++ c4)
      ∙ omega (
        arith,
        length-append bs c4,
        length-to_le_bytes 4 (length bs),
        length-to_le_bytes 4 (enc.crc32_of bs),
      )

  decode_frame-frame_of :
      (pre bs rest : Bytes)
      → length bs < words 4
      → decode_frame enc (pre ++ (frame_of enc bs ++ rest)) (length pre)
        ≡ to_frame (deserialize_entry enc bs) (length pre + length (frame_of enc bs))
  unfolding decode_frame
  decode_frame-frame_of pre bs rest h =
      let k = length pre in
      let n = length bs in
      let l4 = to_le_bytes 4 n in
      let c4 = to_le_bytes 4 (enc.crc32_of bs) in
      let buf = pre ++ (l4 ++ (bs ++ (c4 ++ rest))) in
      let whole : pre ++ (frame_of enc bs ++ rest) ≡ buf =
        unfold frame_of in rw (append_assoc, append_assoc) refl in
      let nl = length-to_le_bytes 4 n in
      let nc = length-to_le_bytes 4 (enc.crc32_of bs) in
      let fl = from_le_bytes-to_le_bytes 4 n h in
      let fc = from_le_bytes-to_le_bytes 4 (enc.crc32_of bs) (enc.crc32_of_lt bs) in
      let e1 : slice buf k (k + 4) ≡ l4 =
        slice_skip k pre _ k (k + 4) 0 4 refl (omega arith) refl ∙ slice_first 4 l4 _ nl in
      let e2 : slice buf (k + 4) (k + 4 + n) ≡ bs =
        slice_skip k pre _ (k + 4) (k + 4 + n) 4 (4 + n) refl refl (omega arith)
        ∙ (slice_skip 4 l4 _ 4 (4 + n) 0 n nl refl refl ∙ slice_first n bs _ refl) in
      let e3 : slice buf (k + 4 + n) (k + 4 + n + 4) ≡ c4 =
        slice_skip k pre _ (k + 4 + n) (k + 4 + n + 4) (4 + n) (4 + n + 4) refl (omega arith)
          (omega arith)
        ∙ (slice_skip 4 l4 _ (4 + n) (4 + n + 4) n (n + 4) nl refl (omega arith)
            ∙ (slice_skip n bs _ n (n + 4) 0 4 refl (omega arith) refl
                ∙ slice_first 4 c4 rest nc)) in
      let size : length (frame_of enc bs) ≡ 4 + n + 4 = frame_of_size bs in
      let all : length buf ≡ k + (4 + n + 4) + length rest = omega (
        arith,
        length-append pre (l4 ++ (bs ++ (c4 ++ rest))),
        length-append l4 (bs ++ (c4 ++ rest)),
        length-append bs (c4 ++ rest),
        length-append c4 rest,
        nl,
        nc,
      ) in
      let long_enough = not_ltb (length buf - k) 4 (omega (arith, all)) in
      let all_there = not_ltb (length buf - k) (4 + n + 4) (omega (arith, all)) in
      rw (whole, e1, fl, e2, e3, fc, size, long_enough, all_there) ground arith

  -- The frame of a storable entry is decoded to that entry and to the offset behind the frame,
  -- wherever it stands in a buffer; encoding it does not panic, and it takes at least 29 bytes.
  pub decode_frame-encode_frame :
      (entry : Entry)
      → IsStorable enc entry
      → (bs : Bytes) × (encode_frame enc entry ≡ some bs)
        × (29 ≤ length bs)
        × ((pre rest : Bytes)
            → decode_frame enc (pre ++ (bs ++ rest)) (length pre)
              ≡ ok (entry, length pre + length bs))
  unfolding encode_frame
  decode_frame-encode_frame entry s =
      let (bs, serial) =
        serialized enc entry.index entry.term entry.payload s.index_lt s.term_lt s.payload_lem in
      let (made, small, size, read) = serial in
      (
        frame_of enc bs,
        rw made refl,
        omega (arith, frame_of_size bs, small),
        λ pre rest. decode_frame-frame_of pre bs rest size ∙ rw read refl,
      )
