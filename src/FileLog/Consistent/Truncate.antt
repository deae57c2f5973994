-- ===== src/FileLog/Consistent/Truncate.antt =====
-- The directory under `truncate_from`, call by call: xraft-storage/src/log.rs.
pub mod Writes
pub mod Outcome
pub mod Crash
pub mod Atomic
pub mod Calls
pub mod Kept
use mathlib.Core.List.{append_assoc, append-nil}
use failover_cluster.FileLog.Bytes.{take, take-append}
use failover_cluster.FileLog.Store.{remove_segment, resize, Disk, Write, performs, perform}
use failover_cluster.FileLog.Consistent.Cut.Order.{last_index_from-base}
use failover_cluster.LogStore.{last_index_from}
use failover_cluster.FileLog.Recovery.Replay.{encode_frame-frame, frames}
use failover_cluster.FileLog.Trim.{base_at, bases_from, remove_files}
use failover_cluster.FileLog.Consistent.{Logs, segments_of}
use failover_cluster.FileLog.Entries.{IsStorable}
use failover_cluster.FileLog.Consistent.Live.{IsSorted, last_index_from_mono}
use failover_cluster.Message.{Entry}
use failover_cluster.FileLog.Codec.{Encoding, frame}
use failover_cluster.Prelude.{
  is_empty, All, List, [], ap, arith, false, length, length-append, refl, suc, sym, true, ℕ, ◌++◌,
  ◌∷◌, ◌-◌, ◌==◌, ◌<◌, ◌≡◌, not_eq, ◌∙◌, ◌≤◌,
}

-- Every base index of the segments is below `n`.
abbrev pub BasesBelow : ℕ → Logs → Type 0
BasesBelow n [] = Unit
BasesBelow n ((b, es) ∷ logs) = (b < n) × BasesBelow n logs

-- The base indices of the segments.
abbrev pub bases : Logs → List ℕ
bases [] = []
bases ((b, es) ∷ logs) = b ∷ bases logs

pub sorted_below :
    (k : ℕ) (xs : Logs) (c : ℕ) (fs : List Entry) (ys : Logs)
    → IsSorted k (xs ++ ((c, fs) ∷ ys))
    → (k < c) × BasesBelow c xs
sorted_below k [] c fs ys s = (s.0, tt)
sorted_below k ((b, es) ∷ xs) c fs ys s =
    let (over, below) = sorted_below (last_index_from b es) xs c fs ys s.2 in
    let reach = last_index_from_mono (b - 1) b es (omega arith) in
    let own = last_index_from-base b es s.1 in
    (omega (arith, s.0), (omega (arith, own, over), below))

pub IsSorted-mono : (j k : ℕ) (logs : Logs) → j ≤ k → IsSorted k logs → IsSorted j logs
IsSorted-mono j k [] h s = tt
IsSorted-mono j k ((b, es) ∷ logs) h s = (omega (arith, s.0), s.1, s.2)

-- Segments in order are so without one of them.
pub IsSorted-drop :
    (k : ℕ) (xs : Logs) (c : ℕ) (fs : List Entry) (ys : Logs)
    → IsSorted k (xs ++ ((c, fs) ∷ ys))
    → IsSorted k (xs ++ ys)
IsSorted-drop k [] c fs ys s =
    let own = last_index_from-base c fs s.1 in
    IsSorted-mono k (last_index_from c fs) ys (omega (arith, own, s.0)) s.2
IsSorted-drop k ((b, es) ∷ xs) c fs ys s =
    (s.0, s.1, IsSorted-drop (last_index_from b es) xs c fs ys s.2)

module _ (enc : Encoding) where
  pub segments_of-append :
      (xs ys : Logs) → segments_of enc (xs ++ ys) ≡ segments_of enc xs ++ segments_of enc ys
  unfolding segments_of
  segments_of-append [] ys = refl
  segments_of-append ((b, es) ∷ xs) ys =
      ap (λ t. record { base_index = b; content = frames enc es } ∷ t) (segments_of-append xs ys)

  -- Removing the file of a segment whose name is above the earlier ones.
  pub remove_segment-segments_of :
      (xs : Logs) (c : ℕ) (fs : List Entry) (ys : Logs)
      → BasesBelow c xs
      → remove_segment c (segments_of enc (xs ++ ((c, fs) ∷ ys))) ≡ segments_of enc (xs ++ ys)
  unfolding segments_of remove_segment
  remove_segment-segments_of [] c fs ys h =
      let same : (c == c) ≡ true = ground arith in rw same refl
  remove_segment-segments_of ((b, es) ∷ xs) c fs ys h =
      let other : (b == c) ≡ false = ground (arith, h.0) in
      rw other (
        ap (λ t. record { base_index = b; content = frames enc es } ∷ t)
          (remove_segment-segments_of xs c fs ys h.1))

  frames-append_all : (es fs : List Entry) → frames enc (es ++ fs) ≡ frames enc es ++ frames enc fs
  unfolding frames
  frames-append_all [] fs = refl
  frames-append_all (x ∷ es) fs =
      rw (frames-append_all es fs)
        (sym (append_assoc (frame enc x) (frames enc es) (frames enc fs)))

  -- Cutting the last segment behind the frames that are kept.
  pub resize-segments_of :
      (xs : Logs) (c : ℕ) (kept gone : List Entry)
      → BasesBelow c xs
      → resize c (length (frames enc kept)) (segments_of enc (xs ++ ((c, kept ++ gone) ∷ [])))
        ≡ segments_of enc (xs ++ ((c, kept) ∷ []))
  unfolding segments_of resize
  resize-segments_of [] c kept gone h =
      let same : (c == c) ≡ true = ground arith in
      let shorter : take (length (frames enc kept)) (frames enc (kept ++ gone)) ≡ frames enc kept =
        rw (frames-append_all kept gone)
          (take-append (length (frames enc kept)) (frames enc kept) (frames enc gone) refl) in
      rw (same, shorter) refl
  resize-segments_of ((b, es) ∷ xs) c kept gone h =
      let other : (b == c) ≡ false = ground (arith, h.0) in
      rw other (
        ap (λ t. record { base_index = b; content = frames enc es } ∷ t)
          (resize-segments_of xs c kept gone h.1))

  pub base_at-segments_of :
      (xs : Logs) (c : ℕ) (fs : List Entry) (ys : Logs)
      → base_at (length xs) (segments_of enc (xs ++ ((c, fs) ∷ ys))) ≡ c
  unfolding segments_of base_at
  base_at-segments_of [] c fs ys = refl
  base_at-segments_of ((b, es) ∷ xs) c fs ys = base_at-segments_of xs c fs ys

  bases_from-all : (ys : Logs) → bases_from 0 (segments_of enc ys) ≡ bases ys
  unfolding segments_of bases_from
  bases_from-all [] = refl
  bases_from-all ((c, fs) ∷ ys) = ap (λ t. c ∷ t) (bases_from-all ys)

  pub bases_from-segments_of :
      (xs : Logs) (c : ℕ) (fs : List Entry) (ys : Logs)
      → bases_from (suc (length xs)) (segments_of enc (xs ++ ((c, fs) ∷ ys))) ≡ bases ys
  unfolding segments_of bases_from
  bases_from-segments_of [] c fs ys = bases_from-all ys
  bases_from-segments_of ((b, es) ∷ xs) c fs ys = bases_from-segments_of xs c fs ys

  pub frames-is_empty :
      (kept : List Entry)
      → All (IsStorable enc) kept
      → (length (frames enc kept) == 0) ≡ is_empty kept
  unfolding frames
  frames-is_empty [] s = refl
  frames-is_empty (e ∷ kept) s =
      let size : 29 ≤ length (frame enc e) = (encode_frame-frame enc e s.0).1 in
      let more = length-append (frame enc e) (frames enc kept) in
      not_eq (length (frame enc e ++ frames enc kept)) 0 (omega (arith, size, more))

  pub performs-append :
      (ws vs : List Write) (d : Disk) → performs (ws ++ vs) d ≡ performs vs (performs ws d)
  unfolding performs
  performs-append [] vs d = refl
  performs-append (w ∷ ws) vs d = performs-append ws vs (perform w d)

  -- The files of the later segments are removed, one after the other.
  pub remove_files-segments_of :
      (k : ℕ) (xs ys : Logs) (d : Disk)
      → IsSorted k (xs ++ ys)
      → d.segments ≡ segments_of enc (xs ++ ys)
      → performs (remove_files (bases ys)) d ≡ record d { segments = segments_of enc xs }
  unfolding performs remove_files perform
  remove_files-segments_of k xs [] d s e = rw (e, append-nil xs) refl
  remove_files-segments_of k xs ((c, fs) ∷ ys) d s e =
      let below = (sorted_below k xs c fs ys s).1 in
      let removed : remove_segment c d.segments ≡ segments_of enc (xs ++ ys) =
        ap (remove_segment c) e ∙ remove_segment-segments_of xs c fs ys below in
      remove_files-segments_of k xs ys (record d { segments = remove_segment c d.segments })
        (IsSorted-drop k xs c fs ys s) removed
