-- ===== src/FileLog/RoundTrip/Torn.antt =====
-- A frame that was written in part: xraft-storage/src/log.rs, `decode_frame`.
use failover_cluster.Prelude.{
  ap, arith, dec_lt, length, length-append, lt→ltb, not_ltb, refl, some, sym, ◌∙◌, ◌≡◌, ◌++◌, ◌-◌,
  ◌<◌, ◌+◌,
}
use failover_cluster.FileLog.RoundTrip.{frame_of_size}
use failover_cluster.FileLog.Entries.{IsStorable}
use failover_cluster.FileLog.Entries.{serialized}
use failover_cluster.Message.{Entry}
use failover_cluster.FileLog.Codec.{
  Encoding, StorageError, decode_frame, encode_frame, err, frame_of, framed, incomplete_body,
  missing_data_len,
}
use failover_cluster.FileLog.Bytes.{
  Bytes, from_le_bytes-to_le_bytes, length-to_le_bytes, slice, slice_first, slice_prefix,
  slice_skip, to_le_bytes, words,
}
use mathlib.Core.Option.{some-injective}

module _ (enc : Encoding) where
  -- A frame whose end is missing is not decoded.
  decode_frame-torn_data :
      (pre torn missing bs : Bytes)
      → length bs < words 4
      → frame_of enc bs ≡ torn ++ missing
      → 0 < length missing
      → (e : StorageError) × (decode_frame enc (pre ++ torn) (length pre) ≡ err e)
  unfolding decode_frame
  decode_frame-torn_data pre torn missing bs h e lost =
      let k = length pre in
      let n = length bs in
      let all = length-append pre torn in
      let l4 = to_le_bytes 4 n in
      let size : 4 + n + 4 ≡ length torn + length missing =
        sym (frame_of_size enc bs) ∙ (ap length e ∙ length-append torn missing) in
      elim (dec_lt (length torn) 4) [
        | yes short ↦
            let few = lt→ltb (length (pre ++ torn) - k) 4 (omega (arith, all)) in
            (missing_data_len, rw few refl)
        | no long ↦
            let first : slice (pre ++ torn) k (k + 4) ≡ l4 =
              slice_skip k pre torn k (k + 4) 0 4 refl (omega arith) refl
              ∙ (sym (slice_prefix 4 torn missing (omega arith))
                  ∙ (ap (λ f. slice f 0 4) (sym e)
                      ∙ unfold frame_of in slice_first 4 l4 _ (length-to_le_bytes 4 n))) in
            let enough = not_ltb (length (pre ++ torn) - k) 4 (omega (arith, all)) in
            let read = from_le_bytes-to_le_bytes 4 n h in
            let few = lt→ltb (length (pre ++ torn) - k) (4 + n + 4) (omega (arith, all, size)) in
            (incomplete_body, rw (enough, first, read, few) refl)
      ]

  pub decode_frame-torn :
      (entry : Entry) (pre torn missing bs : Bytes)
      → IsStorable enc entry
      → encode_frame enc entry ≡ some bs
      → bs ≡ torn ++ missing
      → 0 < length missing
      → (e : StorageError) × (decode_frame enc (pre ++ torn) (length pre) ≡ err e)
  unfolding encode_frame
  decode_frame-torn entry pre torn missing whole s made parts lost =
      let (data_bytes, serial) =
        serialized enc entry.index entry.term entry.payload s.index_lt s.term_lt s.payload_lem in
      let (framing, small, size, read) = serial in
      let same : frame_of enc data_bytes ≡ whole =
        some-injective _ _ (sym (ap (framed enc) framing) ∙ made) in
      decode_frame-torn_data pre torn missing data_bytes size (same ∙ parts) lost
