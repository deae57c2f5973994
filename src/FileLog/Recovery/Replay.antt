-- ===== src/FileLog/Recovery/Replay.antt =====
-- Recovery of a segment: the frames that were written are read back, and a torn last frame is lost alone.
use failover_cluster.FileLog.RoundTrip.Torn.{decode_frame-torn}
use failover_cluster.FileLog.Recovery.Loop.{scan, scan_step, recover_segment-scan, scan_end}
use failover_cluster.FileLog.Recovery.{Recovered, note, recover_segment}
use failover_cluster.FileLog.RoundTrip.{decode_frame-encode_frame}
use failover_cluster.FileLog.Entries.{IsStorable}
use failover_cluster.Message.{Entry}
use failover_cluster.FileLog.Codec.{
  Encoding, decode_frame, encode_frame, ok, StorageError, err, frame,
}
use failover_cluster.FileLog.Bytes.{Bytes}
use failover_cluster.Prelude.{
  All, Bool, List, [], arith, length, length-append, refl, some, sym, ℕ, ◌∷◌, ◌<◌, ◌∙◌, ◌≤◌, ◌++◌,
  ◌≡◌, ◌+◌, if◌then◌else◌, subst,
}
use mathlib.Core.List.{append_assoc, append-nil}

-- What appending entries one by one writes.
unfoldable pub frames : Encoding → List Entry → Bytes
frames enc [] = []
frames enc (e ∷ es) = frame enc e ++ frames enc es

-- The entries above the floor, noted in turn from byte `start` of a segment on.
unfoldable pub replay : Encoding → ℕ → ℕ → Recovered → ℕ → List Entry → Recovered
replay enc floor seg_idx r start [] = r
replay enc floor seg_idx r start (e ∷ es) =
    replay enc floor seg_idx (note floor seg_idx r e start) (start + length (frame enc e)) es

pub encode_frame-frame :
    (enc : Encoding) (e : Entry)
    → IsStorable enc e
    → (encode_frame enc e ≡ some (frame enc e))
      × (29 ≤ length (frame enc e))
      × ((pre rest : Bytes)
          → decode_frame enc (pre ++ (frame enc e ++ rest)) (length pre)
            ≡ ok (e, length pre + length (frame enc e)))
unfolding frame
encode_frame-frame enc e s =
    let (f, made, size, read) = decode_frame-encode_frame enc e s in rw made (refl, size, read)

module _ (enc : Encoding) (floor seg_idx : ℕ) (is_last : Bool) where
  scan-frames :
      (es : List Entry) (pre rest : Bytes) (r : Recovered) (cursor end : ℕ)
      → cursor ≡ length pre
      → end ≡ cursor + length (frames enc es)
      → All (IsStorable enc) es
      → scan enc floor seg_idx is_last (pre ++ (frames enc es ++ rest)) r cursor
        ≡ scan enc floor seg_idx is_last
            (pre ++ (frames enc es ++ rest))
            (replay enc floor seg_idx r cursor es)
            end
  unfolding frames replay
  scan-frames [] pre rest r cursor end h he s =
      let here : end ≡ cursor = omega (arith, he) in rw here refl
  scan-frames (e ∷ es) pre rest r cursor end h he s =
      let f = frame enc e in
      let tail = frames enc es in
      let (made, size, read) = encode_frame-frame enc e s.0 in
      let buf : Bytes = pre ++ (f ++ (tail ++ rest)) in
      let whole : pre ++ ((f ++ tail) ++ rest) ≡ buf = rw append_assoc refl in
      let moved : (pre ++ f) ++ (tail ++ rest) ≡ buf = rw append_assoc refl in
      let total = length-append pre (f ++ (tail ++ rest)) in
      let inside : cursor < length buf =
        omega (arith, h, total, length-append f (tail ++ rest), size) in
      let r1 = note floor seg_idx r e cursor in
      let next = cursor + length f in
      let step : scan enc floor seg_idx is_last buf r cursor
          ≡ scan enc floor seg_idx is_last buf r1 next =
        scan_step enc floor seg_idx is_last buf r cursor inside
        ∙ (rw h (rw (read pre (tail ++ rest)) refl)) in
      let there : next ≡ length (pre ++ f) = omega (arith, h, length-append pre f) in
      let far : end ≡ next + length tail = omega (arith, he, length-append f tail) in
      let ih = scan-frames es (pre ++ f) rest r1 next end there far s.1 in
      rw whole (step ∙ rw (sym moved) ih)

  -- A segment of whole frames gives their entries and is kept.
  pub recover_segment-frames :
      (es : List Entry) (r : Recovered)
      → All (IsStorable enc) es
      → recover_segment enc floor seg_idx is_last (frames enc es) r
        ≡ ok (replay enc floor seg_idx r 0 es, length (frames enc es))
  recover_segment-frames es r s =
      let whole : frames enc es ++ [] ≡ frames enc es = append-nil (frames enc es) in
      let scanned : scan enc floor seg_idx is_last (frames enc es) r 0
          ≡ scan enc floor seg_idx is_last (frames enc es) (replay enc floor seg_idx r 0 es)
              (length (frames enc es)) =
        subst
          (λ buf.
            scan enc floor seg_idx is_last buf r 0
            ≡ scan enc floor seg_idx is_last buf (replay enc floor seg_idx r 0 es)
                (length (frames enc es)))
          whole (scan-frames es [] [] r 0 (length (frames enc es)) refl (omega arith) s) in
      recover_segment-scan enc floor seg_idx is_last (frames enc es) r
      ∙ (scanned
          ∙ scan_end enc floor seg_idx is_last (frames enc es) (replay enc floor seg_idx r 0 es)
              (length (frames enc es)) (omega arith))

-- The part of a frame that was written before a crash: neither nothing nor all of it.
pub record IsTorn (enc : Encoding) (e : Entry) (torn missing : Bytes) : Type 0 where
  pub parts : frame enc e ≡ torn ++ missing
  pub some_written : 0 < length torn
  pub some_missing : 0 < length missing

module _ (enc : Encoding) (floor seg_idx : ℕ) (is_last : Bool) where
  -- Whole frames and a torn one behind them, by `replay`.
  pub replay-torn :
      (es : List Entry) (e : Entry) (torn missing : Bytes) (r : Recovered)
      → All (IsStorable enc) es
      → IsStorable enc e
      → IsTorn enc e torn missing
      → (reason : StorageError) × (recover_segment enc floor seg_idx is_last
            (frames enc es ++ torn)
            r
          ≡ (if is_last
              then ok (replay enc floor seg_idx r 0 es, length (frames enc es))
              else err reason))
  replay-torn es e torn missing r s se t =
      let (made, size, read) = encode_frame-frame enc e se in
      let (reason, fails) =
        decode_frame-torn enc e (frames enc es) torn missing (frame enc e) se made t.parts
          t.some_missing in
      let inside : length (frames enc es) < length (frames enc es ++ torn) =
        omega (arith, length-append (frames enc es) torn, t.some_written) in
      (
        reason,
        recover_segment-scan enc floor seg_idx is_last (frames enc es ++ torn) r
            ∙ (scan-frames enc floor seg_idx is_last es [] torn r 0 (length (frames enc es)) refl
                  (omega arith) s
                ∙ (scan_step enc floor seg_idx is_last (frames enc es ++ torn)
                      (replay enc floor seg_idx r 0 es) (length (frames enc es)) inside
                    ∙ rw fails refl)),
      )
