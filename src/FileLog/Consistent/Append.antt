-- ===== src/FileLog/Consistent/Append.antt =====
-- Appending keeps the memory what the directory says: xraft-storage/src/log.rs, `append`.
pub mod Step
pub mod Order
pub mod Room
use failover_cluster.LogStore.{note_epochs}
use failover_cluster.FileLog.Entries.{IsStorable}
use failover_cluster.FileLog.Store.{write_all, last_size, FileLogStore, create_segment}
use failover_cluster.FileLog.Recovery.Replay.{frames, replay}
use failover_cluster.FileLog.Recovery.{Recovered, note, Segment}
use failover_cluster.FileLog.Consistent.{
  Logs, replay_logs, segments_of, AllStorable, IsSettled, IsStored, nothing,
}
use failover_cluster.Prelude.{
  is_empty, List, [], ap, arith, length, length-append, refl, suc, sym, ℕ, ◌≡◌, ◌-◌, ◌∙◌, ◌++◌, ◌∷◌,
  ◌+◌, All-append, none, not, true,
}
use failover_cluster.Message.{Entry}
use failover_cluster.FileLog.Codec.{Encoding, frame}
use mathlib.Core.List.{append_assoc, append-nil}

-- The logs with an entry more in the last segment, and with a new segment.
unfoldable pub add_last : Entry → Logs → Logs
add_last e [] = []
add_last e ((base, es) ∷ []) = (base, es ++ (e ∷ [])) ∷ []
add_last e (l ∷ m ∷ logs) = l ∷ add_last e (m ∷ logs)

unfoldable pub add_segment : ℕ → Logs → Logs
add_segment base logs = logs ++ ((base, []) ∷ [])

module _ (enc : Encoding) where
  frames-append :
      (es : List Entry) (e : Entry) → frames enc (es ++ (e ∷ [])) ≡ frames enc es ++ frame enc e
  unfolding frames
  frames-append [] e = append-nil (frame enc e)
  frames-append (x ∷ es) e = rw (frames-append es e) (sym (append_assoc (frame enc x) _ _))

  replay-append :
      (floor seg_idx start : ℕ) (r : Recovered) (es : List Entry) (e : Entry)
      → replay enc floor seg_idx r start (es ++ (e ∷ []))
        ≡ note floor seg_idx
            (replay enc floor seg_idx r start es)
            e
            (start + length (frames enc es))
  unfolding replay frames
  replay-append floor seg_idx start r [] e =
      let here : start + 0 ≡ start = omega arith in rw here refl
  replay-append floor seg_idx start r (x ∷ es) e =
      let f = length (frame enc x) in
      let there : start + f + length (frames enc es)
          ≡ start + length (frame enc x ++ frames enc es) =
        omega (arith, length-append (frame enc x) (frames enc es)) in
      replay-append floor seg_idx (start + f) (note floor seg_idx r x start) es e
      ∙ ap
          (note floor seg_idx
            (replay enc floor seg_idx (note floor seg_idx r x start) (start + f) es) e)
          there

  -- One entry more in the last of the segments.
  add_last-segments :
      (l : ℕ × List Entry) (logs : Logs) (e : Entry)
      → segments_of enc (add_last e (l ∷ logs))
        ≡ write_all (segments_of enc (l ∷ logs)) (frame enc e)
  unfolding segments_of add_last write_all
  add_last-segments (base, es) [] e = rw (frames-append es e) refl
  add_last-segments (base, es) (m ∷ logs) e =
      ap (λ segs. record { base_index = base; content = frames enc es } ∷ segs)
        (add_last-segments m logs e)

  add_last-replay :
      (floor seg_idx : ℕ) (r : Recovered) (l : ℕ × List Entry) (logs : Logs) (e : Entry)
      → replay_logs enc floor seg_idx r (add_last e (l ∷ logs))
        ≡ note floor
            (seg_idx + (length (segments_of enc (l ∷ logs)) - 1))
            (replay_logs enc floor seg_idx r (l ∷ logs))
            e
            (last_size (segments_of enc (l ∷ logs)))
  unfolding replay_logs add_last segments_of last_size
  add_last-replay floor seg_idx r (base, es) [] e =
      let here : seg_idx + (1 - 1) ≡ seg_idx = omega arith in
      let whole : 0 + length (frames enc es) ≡ length (frames enc es) = omega arith in
      rw here (
        replay-append floor seg_idx 0 r es e
        ∙ ap (note floor seg_idx (replay enc floor seg_idx r 0 es) e) whole)
  add_last-replay floor seg_idx r (base, es) (m ∷ logs) e =
      let there : seg_idx + 1 + (length (segments_of enc (m ∷ logs)) - 1)
          ≡ seg_idx + (suc (length (segments_of enc (m ∷ logs))) - 1) =
        omega arith in
      add_last-replay floor (seg_idx + 1) (replay enc floor seg_idx r 0 es) m logs e
      ∙ ap
          (λ (i : ℕ).
            note floor i (replay_logs enc floor seg_idx r ((base, es) ∷ m ∷ logs)) e
              (last_size (segments_of enc (m ∷ logs))))
          there

  add_last-storable :
      (l : ℕ × List Entry) (logs : Logs) (e : Entry)
      → AllStorable enc (l ∷ logs)
      → IsStorable enc e
      → AllStorable enc (add_last e (l ∷ logs))
  unfolding add_last
  add_last-storable (base, es) [] e w s = (All-append (IsStorable enc) es (e ∷ []) w.0 (s, tt), tt)
  add_last-storable (base, es) (m ∷ logs) e w s = (w.0, add_last-storable m logs e w.1 s)

  add_segment-segments :
      (base : ℕ) (logs : Logs)
      → segments_of enc (add_segment base logs)
        ≡ segments_of enc logs ++ (record { base_index = base; content = [] } ∷ [])
  unfolding segments_of add_segment frames
  add_segment-segments base [] = refl
  add_segment-segments base ((b, es) ∷ logs) =
      ap (λ segs. record { base_index = b; content = frames enc es } ∷ segs)
        (add_segment-segments base logs)

  add_segment-replay :
      (base floor seg_idx : ℕ) (r : Recovered) (logs : Logs)
      → replay_logs enc floor seg_idx r (add_segment base logs)
        ≡ replay_logs enc floor seg_idx r logs
  unfolding replay_logs add_segment replay
  add_segment-replay base floor seg_idx r [] = refl
  add_segment-replay base floor seg_idx r ((b, es) ∷ logs) =
      add_segment-replay base floor (seg_idx + 1) (replay enc floor seg_idx r 0 es) logs

  add_segment-storable :
      (base : ℕ) (logs : Logs) → AllStorable enc logs → AllStorable enc (add_segment base logs)
  unfolding add_segment
  add_segment-storable base [] w = (tt, tt)
  add_segment-storable base ((b, es) ∷ logs) w = (w.0, add_segment-storable base logs w.1)

  create_segment-IsStored :
      (base : ℕ) (logs : Logs) (s : FileLogStore)
      → IsStored enc logs s
      → IsStored enc (add_segment base logs) (create_segment s base)
  unfolding create_segment
  create_segment-IsStored base logs s w =
      let same = add_segment-replay base s.first_valid_index 0 nothing logs in
      record {
        segments_lem = rw w.segments_lem (sym (add_segment-segments base logs));
        storable = add_segment-storable base logs w.storable;
        floor_lem = w.floor_lem;
        anchor_lem = w.anchor_lem;
        entries_lem = rw same w.entries_lem;
        offsets_lem = rw same w.offsets_lem;
      }

not_empty-snoc : (segs : List Segment) (x : Segment) → not (is_empty (segs ++ (x ∷ []))) ≡ true
not_empty-snoc [] x = refl
not_empty-snoc (s ∷ segs) x = refl

last_size-snoc :
    (segs : List Segment) (x : Segment) → last_size (segs ++ (x ∷ [])) ≡ length x.content
unfolding last_size
last_size-snoc [] x = refl
last_size-snoc (s ∷ []) x = refl
last_size-snoc (s ∷ t ∷ segs) x = last_size-snoc (t ∷ segs) x

create_segment-IsSettled :
    (base : ℕ) (s : FileLogStore)
    → s.disk.truncate_file ≡ none
    → s.epoch_starts ≡ note_epochs [] s.entries
    → IsSettled (create_segment s base)
unfolding create_segment
create_segment-IsSettled base s m e = record {
  marker_lem = m;
  active_lem = sym (not_empty-snoc s.disk.segments _);
  size_lem = sym (last_size-snoc s.disk.segments _);
  epochs_lem = e;
}
