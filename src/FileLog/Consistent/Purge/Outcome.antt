-- ===== src/FileLog/Consistent/Purge/Outcome.antt =====
-- A purge of a stored log: the memory and the directory agree again.
use failover_cluster.FileLog.Consistent.Append.Order.{IsFilled}
use failover_cluster.FileLog.Bytes.{words}
use failover_cluster.FileLog.Consistent.Truncate.Outcome.{stored_maps}
use failover_cluster.LogStore.{note_epochs, retain}
use failover_cluster.FileLog.Sidecars.{load_purge_marker-persist_purge_marker, persist_purge_marker}
use failover_cluster.FileLog.Consistent.Truncate.Atomic.{flat-append}
use failover_cluster.FileLog.Consistent.Truncate.{bases}
use failover_cluster.FileLog.Consistent.Purge.{
  all_offsets-above, all_offsets-dead, live-dead, purge_logs, retain-live_above, shift-all_offsets,
}
use failover_cluster.FileLog.Trim.{
  after_index, covered, keep_offsets, purge_prefix, purge_writes, remove_files, shift, take_bases,
}
use failover_cluster.FileLog.Recovery.{Recovered, Segment}
use failover_cluster.Prelude.{
  is_empty, List, [], ap, arith, false, leb, length, ltb, not, not_leb, refl, subst, sym, true, ℕ,
  ◌+◌, ◌≡◌, ◌<◌, ◌∷◌, ◌==◌, ◌∙◌, ◌++◌,
}
use failover_cluster.FileLog.Consistent.Live.{
  IsSorted, all_offsets, flat, live, live-append, replay_logs-live,
}
use failover_cluster.FileLog.Codec.{Encoding}
use failover_cluster.FileLog.Store.{
  Disk, FileLogStore, last_size, perform, performs, rebuild_epoch_starts, remove_segment,
}
use failover_cluster.FileLog.Consistent.{AllStorable, IsSettled, IsStored, Logs, segments_of}

-- The files of the first segments are removed.
remove_front :
    (enc : Encoding) (front rest : Logs) (d : Disk)
    → d.segments ≡ segments_of enc (front ++ rest)
    → performs (remove_files (bases front)) d ≡ record d { segments = segments_of enc rest }
unfolding performs perform remove_files
remove_front enc [] rest d e = rw (sym e) refl
remove_front enc ((b, es) ∷ front) rest d e =
    let same : (b == b) ≡ true = ground arith in
    let removed : remove_segment b d.segments ≡ segments_of enc (front ++ rest) =
      ap (remove_segment b) e ∙ (unfold remove_segment segments_of in rw same refl) in
    remove_front enc front rest (record d { segments = remove_segment b d.segments }) removed

AllStorable-rest :
    (enc : Encoding) (front rest : Logs) → AllStorable enc (front ++ rest) → AllStorable enc rest
AllStorable-rest enc [] rest s = s
AllStorable-rest enc ((b, es) ∷ front) rest s = AllStorable-rest enc front rest s.1

IsFilled-rest : (front rest : Logs) → IsFilled (front ++ rest) → IsFilled rest
IsFilled-rest [] rest f = f
IsFilled-rest ((b, es) ∷ front) rest f = IsFilled-rest front rest f.1

pub record IsTrimmed (enc : Encoding) (through : ℕ) (s : FileLogStore) (left : Logs)
    (r : FileLogStore) : Type 0 where
  pub stored : IsStored enc left r
  pub sorted : IsSorted 0 left
  pub settled : IsSettled r
  pub purged_lem : r.entries ≡ retain (λ e. ltb through e.index) s.entries
  pub new_floor : r.first_valid_index ≡ through
  pub anchor_kept : r.snapshot_anchor ≡ s.snapshot_anchor
  pub max_kept : r.max_segment_size ≡ s.max_segment_size

-- A purge beyond the floor of a stored log leaves one with the new floor: its entries are those above,
-- whatever segments were deleted, and the memory is what the directory says.
pub purge_prefix-IsTrimmed :
    (enc : Encoding) (through : ℕ) (logs : Logs) (s : FileLogStore)
    → s.first_valid_index < through
    → through < words 8
    → IsStored enc logs s
    → IsSorted 0 logs
    → IsSettled s
    → (left : Logs) × (IsFilled logs → IsFilled left)
      × IsTrimmed enc through s left (purge_prefix s through)
unfolding purge_prefix purge_writes rebuild_epoch_starts performs perform
purge_prefix-IsTrimmed enc through logs s h small w o t =
    let floor = s.first_valid_index in
    let (front, rest, p) = purge_logs enc through 0 logs o in
    let (es, os) = stored_maps enc logs s w o in
    let beyond : leb through floor ≡ false = not_leb through floor h in
    let seg = w.segments_lem in
    let count : covered through s.disk.segments ≡ length front =
      ap (covered through) seg ∙ p.count in
    let names : take_bases (covered through s.disk.segments) s.disk.segments ≡ bases front =
      ap (λ (l : List Segment). take_bases (covered through l) l) seg ∙ p.names in
    let d1 = record s.disk { purge_file = persist_purge_marker through } in
    let removed : performs (remove_files (bases front)) d1
        ≡ record d1 { segments = segments_of enc rest } =
      remove_front enc front rest d1 (seg ∙ ap (segments_of enc) p.parts) in
    let same = replay_logs-live enc through rest p.sorted in
    let flat_parts : flat logs ≡ flat front ++ flat rest =
      ap flat p.parts ∙ flat-append front rest in
    let es_kept : retain (λ e. ltb through e.index) s.entries ≡ live through (flat rest) =
      ap (retain (λ e. ltb through e.index)) es
      ∙ (retain-live_above floor through (flat logs) (omega arith)
          ∙ (ap (live through) flat_parts
              ∙ (live-append through (flat front) (flat rest)
                  ∙ ap (λ l. l ++ live through (flat rest))
                      (live-dead through (flat front) p.dead)))) in
    let n = length front in
    let zero_n : 0 + n ≡ n = omega arith in
    let os_kept : shift n (keep_offsets (after_index through) s.offsets)
        ≡ all_offsets enc through 0 rest =
      ap (shift n) (
        ap (keep_offsets (after_index through)) os
        ∙ (all_offsets-above enc through floor 0 logs (omega arith)
            ∙ (ap (all_offsets enc through 0) p.parts
                ∙ all_offsets-dead enc through 0 front rest p.dead)))
      ∙ shift-all_offsets enc through n 0 rest in
    let result : Disk → ℕ → FileLogStore = λ (d : Disk) (c : ℕ). record s {
      first_valid_index = through;
      disk = d;
      entries = retain (λ e. ltb through e.index) s.entries;
      offsets = shift c (keep_offsets (after_index through) s.offsets);
      epoch_starts = note_epochs [] (retain (λ e. ltb through e.index) s.entries);
    } in
    let made : IsTrimmed enc through s rest
        (result (record d1 { segments = segments_of enc rest }) n) =
      record {
        stored = record {
          segments_lem = refl;
          storable = AllStorable-rest enc front rest (subst (AllStorable enc) p.parts w.storable);
          floor_lem = load_purge_marker-persist_purge_marker through small;
          anchor_lem = w.anchor_lem;
          entries_lem = es_kept ∙ ap (λ (r : Recovered). r.entries) (sym same);
          offsets_lem = os_kept ∙ ap (λ (r : Recovered). r.offsets) (sym same);
        };
        sorted = p.sorted;
        settled = record {
          marker_lem = t.marker_lem;
          active_lem = t.active_lem ∙ ap not (ap is_empty seg ∙ sym p.same_empty);
          size_lem = t.size_lem ∙ (ap last_size seg ∙ sym p.same_size);
          epochs_lem = refl;
        };
        purged_lem = refl;
        new_floor = refl;
        anchor_kept = refl;
        max_kept = refl;
      } in
    (
      rest,
      λ f. IsFilled-rest front rest (subst IsFilled p.parts f),
      rw beyond (
          subst
            (λ c. IsTrimmed enc through s rest (
              result
                (performs
                  (remove_files (take_bases (covered through s.disk.segments) s.disk.segments)) d1)
                c))
            (sym count)
            (subst (λ b. IsTrimmed enc through s rest (result (performs (remove_files b) d1) n))
              (sym names)
              (subst (λ d. IsTrimmed enc through s rest (result d n)) (sym removed) made))),
    )
