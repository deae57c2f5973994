-- ===== src/FileLog/Consistent/Append/Room.antt =====
-- The segment that the next frame goes to.
use failover_cluster.LogStore.{note_epochs}
use failover_cluster.FileLog.Consistent.{IsSettled, IsStored, Logs, segments_of}
use failover_cluster.FileLog.Consistent.Append.{
  add_segment, create_segment-IsStored, create_segment-IsSettled,
}
use failover_cluster.FileLog.Store.{
  FileLogStore, create_segment, rotate_segment, should_rotate, with_room,
}
use failover_cluster.FileLog.Codec.{Encoding}
use failover_cluster.Prelude.{
  is_empty, [], ap, false, inl, inr, refl, sym, ℕ, ◌∙◌, ◌∷◌, ◌⊎◌, ◌≡◌, if_elim, none, true,
  if◌then◌else◌, Bool, not,
}

not-true : (b : Bool) → not b ≡ true → b ≡ false
not-true true h = sym h
not-true false h = refl

module _ (enc : Encoding) where
  segments_of-is_empty : (logs : Logs) → is_empty (segments_of enc logs) ≡ is_empty logs
  unfolding segments_of
  segments_of-is_empty [] = refl
  segments_of-is_empty (l ∷ logs) = refl

  -- The logs that `with_room` leaves: those that were, or a new segment for the entry.
  abbrev pub HasRoom : Logs → ℕ → Logs → Type 0
  HasRoom logs index grown =
      ((grown ≡ logs) × (is_empty logs ≡ false)) ⊎ (grown ≡ add_segment index logs)

  -- What `with_room` leaves of a store `s` with these logs.
  pub record IsRoomFor (logs : Logs) (s : FileLogStore) (index : ℕ) (grown : Logs)
      (r : FileLogStore) : Type 0 where
    pub room : HasRoom logs index grown
    pub stored : IsStored enc grown r
    pub settled : IsSettled r
    pub same_entries : r.entries ≡ s.entries
    pub same_floor : r.first_valid_index ≡ s.first_valid_index
    pub same_anchor : r.snapshot_anchor ≡ s.snapshot_anchor
    pub same_epochs : r.epoch_starts ≡ s.epoch_starts
    pub same_max : r.max_segment_size ≡ s.max_segment_size

  create_segment-IsRoomFor :
      (logs : Logs) (s : FileLogStore) (index : ℕ)
      → IsStored enc logs s
      → s.disk.truncate_file ≡ none
      → s.epoch_starts ≡ note_epochs [] s.entries
      → IsRoomFor logs s index (add_segment index logs) (create_segment s index)
  create_segment-IsRoomFor logs s index w m e = record {
    room = inr refl;
    stored = create_segment-IsStored enc index logs s w;
    settled = create_segment-IsSettled index s m e;
    same_entries = unfold create_segment in refl;
    same_floor = unfold create_segment in refl;
    same_anchor = unfold create_segment in refl;
    same_epochs = unfold create_segment in refl;
    same_max = unfold create_segment in refl;
  }

  pub with_room-IsRoomFor :
      (logs : Logs) (s : FileLogStore) (additional index : ℕ)
      → IsStored enc logs s
      → IsSettled s
      → (grown : Logs) × IsRoomFor logs s index grown (with_room s additional index)
  unfolding with_room rotate_segment
  with_room-IsRoomFor logs s additional index w t =
      let Fits : FileLogStore → Type 0 = λ r. (grown : Logs) × IsRoomFor logs s index grown r in
      let closed = record s { active_writer = false; active_segment_size = 0 } in
      let w1 : IsStored enc logs closed = record {
        segments_lem = w.segments_lem;
        storable = w.storable;
        floor_lem = w.floor_lem;
        anchor_lem = w.anchor_lem;
        entries_lem = w.entries_lem;
        offsets_lem = w.offsets_lem;
      } in
      let rotated : Fits (create_segment closed index) =
        let r = create_segment-IsRoomFor logs closed index w1 t.marker_lem t.epochs_lem in
        (
          add_segment index logs,
          record {
            room = r.room;
            stored = r.stored;
            settled = r.settled;
            same_entries = r.same_entries;
            same_floor = r.same_floor;
            same_anchor = r.same_anchor;
            same_epochs = r.same_epochs;
            same_max = r.same_max;
          },
        ) in
      let open_already : s.active_writer ≡ true → is_empty logs ≡ false = λ active.
        sym (segments_of-is_empty logs)
        ∙ (ap is_empty (sym w.segments_lem)
            ∙ not-true (is_empty s.disk.segments) (sym t.active_lem ∙ active)) in
      if_elim (λ (r : FileLogStore). Fits (if r.active_writer then r else create_segment r index))
        (should_rotate s additional) (λ yes_rotates. unfold create_segment in rotated)
        (λ stays.
          if_elim Fits s.active_writer
            (λ active. (
              logs,
              record {
                room = inl (refl, open_already active);
                stored = w;
                settled = t;
                same_entries = refl;
                same_floor = refl;
                same_anchor = refl;
                same_epochs = refl;
                same_max = refl;
              },
            ))
            (λ idle. (
              add_segment index logs,
              create_segment-IsRoomFor logs s index w t.marker_lem t.epochs_lem,
            )))
