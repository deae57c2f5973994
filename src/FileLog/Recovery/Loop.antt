-- ===== src/FileLog/Recovery/Loop.antt =====
-- `recover_segment` ends: an accepted frame lies within the buffer, so that each round goes forward.
use failover_cluster.FileLog.Recovery.{
  Recovered, recover_frames, corrupt, on_frame, recover_segment, note,
}
use failover_cluster.Message.{Entry}
use failover_cluster.FileLog.Codec.{
  Encoding, Result, decode_frame, deserialize_entry, err, ok, to_frame, Result-cases, ok≢err,
}
use failover_cluster.FileLog.Bytes.{Bytes, from_le_bytes, slice}
use failover_cluster.Prelude.{
  Bool, arith, length, not_ltb, refl, suc, zero, ℕ, ◌≡◌, ◌≤◌, ◌+◌, Bool-cases, inl, inr, ltb,
  lt→ltb, sym, ◌-◌, ◌<◌, ◌∙◌,
}

module _ (enc : Encoding) where
  to_frame_inv :
      (r : Result Entry) (m n : ℕ) (e : Entry) → to_frame r m ≡ ok (e, n) → (n ≡ m) × (r ≡ ok e)
  to_frame_inv (ok x) m n e h = (cc, cc)
  to_frame_inv (err x) m n e h = absurd (ok≢err _ _ (sym h))

  decode_frame-bounds :
      (buf : Bytes) (offset after : ℕ) (e : Entry)
      → decode_frame enc buf offset ≡ ok (e, after)
      → (offset + 8 ≤ after) × (after ≤ length buf)
  unfolding decode_frame
  decode_frame-bounds buf offset after e h = ground (
    arith,
    to_frame_inv
        (deserialize_entry enc
          (slice buf (offset + 4) (offset + 4 + from_le_bytes (slice buf offset (offset + 4)))))
        (offset + (4 + from_le_bytes (slice buf offset (offset + 4)) + 4)) after e,
  )

  module _ (floor seg_idx : ℕ) (is_last : Bool) (buf : Bytes) where
    recover_frames-fuel :
        (f g : ℕ) (r : Recovered) (cursor : ℕ)
        → length buf ≤ f + cursor
        → length buf ≤ g + cursor
        → recover_frames enc floor seg_idx is_last buf f r cursor
          ≡ recover_frames enc floor seg_idx is_last buf g r cursor
    unfolding recover_frames
    recover_frames-fuel zero zero r cursor hf hg = refl
    recover_frames-fuel zero (suc g) r cursor hf hg =
        rw (not_ltb cursor (length buf) (omega arith)) refl
    recover_frames-fuel (suc f) zero r cursor hf hg =
        rw (not_ltb cursor (length buf) (omega arith)) refl
    recover_frames-fuel (suc f) (suc g) r cursor hf hg =
        elim (Bool-cases (ltb cursor (length buf))) [
          | inr out ↦ rw out refl
          | inl inside ↦ elim (Result-cases (decode_frame enc buf cursor)) [
            | inr (e, bad) ↦ rw (inside, bad) refl
            | inl ((entry, after), good) ↦
                let ahead = decode_frame-bounds buf cursor after entry good in
                rw (inside, good)
                  (recover_frames-fuel f g (note floor seg_idx r entry cursor) after
                    (omega (arith, ahead)) (omega (arith, ahead)))
          ]
        ]

    -- The loop from `cursor` on, with as many rounds as it can need.
    unfoldable pub scan : Recovered → ℕ → Result (Recovered × ℕ)
    scan r cursor = recover_frames enc floor seg_idx is_last buf (length buf - cursor) r cursor

    pub recover_frames-scan :
        (f : ℕ) (r : Recovered) (cursor : ℕ)
        → length buf ≤ f + cursor
        → recover_frames enc floor seg_idx is_last buf f r cursor ≡ scan r cursor
    unfolding scan
    recover_frames-scan f r cursor h =
        recover_frames-fuel f (length buf - cursor) r cursor h (omega arith)

    pub scan_end :
        (r : Recovered) (cursor : ℕ) → length buf ≤ cursor → scan r cursor ≡ ok (r, cursor)
    unfolding scan recover_frames
    scan_end r cursor h = sym (recover_frames-scan 0 r cursor (omega arith))

    pub scan_step :
        (r : Recovered) (cursor : ℕ)
        → cursor < length buf
        → scan r cursor
          ≡ on_frame
              (decode_frame enc buf cursor)
              (λ entry after. scan (note floor seg_idx r entry cursor) after)
              (corrupt is_last r cursor)
    scan_step r cursor h =
        sym (recover_frames-scan (suc (length buf)) r cursor (omega arith))
        ∙ (unfold recover_frames in
            rw (lt→ltb cursor (length buf) h) (elim (Result-cases (decode_frame enc buf cursor)) [
              | inr (e, bad) ↦ rw bad refl
              | inl ((entry, after), good) ↦ rw good (
                  recover_frames-scan (length buf) (note floor seg_idx r entry cursor) after
                    (omega arith))
            ]))

    pub recover_segment-scan :
        (r : Recovered) → recover_segment enc floor seg_idx is_last buf r ≡ scan r 0
    unfolding recover_segment
    recover_segment-scan r = recover_frames-scan (length buf) r 0 (omega arith)

  -- As many rounds of the recovery loop as the file has bytes are enough: with any larger number the
  -- result is the same, whatever bytes the file holds.
  pub recover_frames-enough :
      (floor seg_idx : ℕ) (is_last : Bool) (buf : Bytes) (rounds : ℕ) (r : Recovered)
      → length buf ≤ rounds
      → recover_frames enc floor seg_idx is_last buf rounds r 0
        ≡ recover_segment enc floor seg_idx is_last buf r
  recover_frames-enough floor seg_idx is_last buf rounds r h =
      recover_frames-scan floor seg_idx is_last buf rounds r 0 (omega arith)
      ∙ sym (recover_segment-scan floor seg_idx is_last buf r)
