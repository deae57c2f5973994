-- ===== src/FileLog/Consistent/Append/Step.antt =====
-- One entry appended: xraft-storage/src/log.rs, the body of the loop of `append`.
use failover_cluster.FileLog.Consistent.Append.Room.{HasRoom, IsRoomFor, with_room-IsRoomFor}
use failover_cluster.LogStore.Operations.{note_epochs-append}
use failover_cluster.FileLog.Recovery.{note}
use failover_cluster.LogStore.{note_epochs, or_insert}
use failover_cluster.FileLog.Consistent.{IsSettled, IsStored, Logs, nothing, segments_of}
use failover_cluster.FileLog.Consistent.Append.{
  add_last, add_segment, add_last-replay, add_last-segments, add_last-storable,
}
use failover_cluster.FileLog.Recovery.{Segment, entry_key}
use failover_cluster.FileLog.Maps.{KeysBelow, insert_at-KeysBelow}
use failover_cluster.FileLog.Entries.{IsStorable}
use failover_cluster.FileLog.Store.{FileLogStore, write_all, write_frame, last_size, append_one}
use failover_cluster.Message.{Entry}
use failover_cluster.FileLog.Codec.{Encoding, frame}
use failover_cluster.FileLog.Bytes.{Bytes}
use failover_cluster.Prelude.{
  is_empty, List, [], ap, arith, false, inl, inr, length, length-append, lt→ltb, refl, sym, ℕ, ◌∙◌,
  ◌∷◌, ◌+◌, ◌-◌, ◌≡◌, ◌<◌, ◌++◌, subst,
}

write_all-last_size :
    (s : Segment) (segs : List Segment) (bs : Bytes)
    → last_size (write_all (s ∷ segs) bs) ≡ last_size (s ∷ segs) + length bs
unfolding last_size write_all
write_all-last_size s [] bs = length-append s.content bs
write_all-last_size s (t ∷ []) bs = write_all-last_size t [] bs
write_all-last_size s (t ∷ u ∷ segs) bs = write_all-last_size t (u ∷ segs) bs

write_all-is_empty :
    (s : Segment) (segs : List Segment) (bs : Bytes) → is_empty (write_all (s ∷ segs) bs) ≡ false
unfolding write_all
write_all-is_empty s [] bs = refl
write_all-is_empty s (t ∷ segs) bs = refl

module _ (enc : Encoding) where
  pub write_frame-IsStored :
      (l : ℕ × List Entry) (logs : Logs) (s : FileLogStore) (e : Entry)
      → IsStored enc (l ∷ logs) s
      → s.active_segment_size ≡ last_size s.disk.segments
      → IsStorable enc e
      → s.first_valid_index < e.index
      → IsStored enc (add_last e (l ∷ logs)) (write_frame s e (frame enc e))
  unfolding write_frame
  write_frame-IsStored l logs s e w size st h =
      let here : 0 + (length (segments_of enc (l ∷ logs)) - 1) ≡ length s.disk.segments - 1 =
        rw w.segments_lem (omega arith) in
      let start : last_size (segments_of enc (l ∷ logs)) ≡ s.active_segment_size =
        ap last_size (sym w.segments_lem) ∙ sym size in
      let live = lt→ltb s.first_valid_index e.index h in
      let noted = add_last-replay enc s.first_valid_index 0 nothing l logs e in
      record {
        segments_lem = rw w.segments_lem (sym (add_last-segments enc l logs e));
        storable = add_last-storable enc l logs e w.storable st;
        floor_lem = w.floor_lem;
        anchor_lem = w.anchor_lem;
        entries_lem = rw noted (unfold note in rw (live, w.entries_lem) refl);
        offsets_lem = rw noted (unfold note in rw (live, here, start, w.offsets_lem) refl);
      }

  pub write_frame-IsSettled :
      (l : ℕ × List Entry) (logs : Logs) (s : FileLogStore) (e : Entry)
      → IsStored enc (l ∷ logs) s
      → IsSettled s
      → KeysBelow entry_key e.index s.entries
      → IsSettled (write_frame s e (frame enc e))
  unfolding write_frame or_insert note_epochs
  write_frame-IsSettled l logs s e w t b =
      let bs = frame enc e in
      let grown : last_size (write_all s.disk.segments bs) ≡ last_size s.disk.segments + length bs =
        rw w.segments_lem (unfold segments_of in write_all-last_size _ (segments_of enc logs) bs) in
      let filled : is_empty (write_all s.disk.segments bs) ≡ false =
        rw w.segments_lem (unfold segments_of in write_all-is_empty _ (segments_of enc logs) bs) in
      let was_filled : is_empty s.disk.segments ≡ false =
        rw w.segments_lem (unfold segments_of in refl) in
      record {
        marker_lem = t.marker_lem;
        active_lem = t.active_lem ∙ rw (filled, was_filled) refl;
        size_lem = sym (grown ∙ ap (λ n. n + length bs) (sym t.size_lem));
        epochs_lem =
            ap (or_insert e.term e.index) t.epochs_lem
            ∙ (sym (note_epochs-append s.entries (e ∷ []) [])
                ∙ ap (note_epochs []) (sym (insert_at-KeysBelow entry_key e s.entries b)));
      }

  -- What appending one entry leaves: the entry stands in the last segment, or in a new one.
  pub record IsAppended (logs : Logs) (s : FileLogStore) (e : Entry) (grown : Logs)
      (r : FileLogStore) : Type 0 where
    pub placed : HasRoom enc logs e.index grown
    pub stored : IsStored enc (add_last e grown) r
    pub settled : IsSettled r
    pub new_entries : r.entries ≡ s.entries ++ (e ∷ [])
    pub old_floor : r.first_valid_index ≡ s.first_valid_index
    pub old_anchor : r.snapshot_anchor ≡ s.snapshot_anchor
    pub old_max : r.max_segment_size ≡ s.max_segment_size

  HasRoom-not_empty : (logs : Logs) (index : ℕ) → ¬ HasRoom enc logs index []
  unfolding add_segment
  HasRoom-not_empty [] index (inl (e, f)) = ground arith
  HasRoom-not_empty (l ∷ logs) index (inl (e, f)) = ground arith
  HasRoom-not_empty [] index (inr e) = ground arith
  HasRoom-not_empty (l ∷ logs) index (inr e) = ground arith

  write_frame-IsAppended :
      (logs grown : Logs) (s r : FileLogStore) (e : Entry)
      → IsRoomFor enc logs s e.index grown r
      → IsStorable enc e
      → s.first_valid_index < e.index
      → KeysBelow entry_key e.index s.entries
      → IsAppended logs s e grown (write_frame r e (frame enc e))
  write_frame-IsAppended logs [] s r e fits st h b =
      absurd (HasRoom-not_empty logs e.index fits.room)
  write_frame-IsAppended logs (l ∷ grown) s r e fits st h b =
      let above : KeysBelow entry_key e.index r.entries =
        subst (KeysBelow entry_key e.index) (sym fits.same_entries) b in
      let live : r.first_valid_index < e.index = omega (arith, fits.same_floor) in
      record {
        placed = fits.room;
        stored = write_frame-IsStored l grown r e fits.stored fits.settled.size_lem st live;
        settled = write_frame-IsSettled l grown r e fits.stored fits.settled above;
        new_entries =
            unfold write_frame in
            (insert_at-KeysBelow entry_key e r.entries above
              ∙ ap (λ es. es ++ (e ∷ [])) fits.same_entries);
        old_floor = unfold write_frame in fits.same_floor;
        old_anchor = unfold write_frame in fits.same_anchor;
        old_max = unfold write_frame in fits.same_max;
      }

  pub append_one-IsAppended :
      (logs : Logs) (s : FileLogStore) (e : Entry)
      → IsStored enc logs s
      → IsSettled s
      → IsStorable enc e
      → s.first_valid_index < e.index
      → KeysBelow entry_key e.index s.entries
      → (grown : Logs) × IsAppended logs s e grown (append_one enc s e)
  unfolding append_one
  append_one-IsAppended logs s e w t st h b =
      let (grown, fits) = with_room-IsRoomFor enc logs s (length (frame enc e)) e.index w t in
      (grown, write_frame-IsAppended logs grown s _ e fits st h b)
