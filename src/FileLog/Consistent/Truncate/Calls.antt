-- ===== src/FileLog/Consistent/Truncate/Calls.antt =====
-- A crash at any call of `truncate_from`: xraft-storage/src/log.rs.
use failover_cluster.FileLog.Bytes.{words}
use failover_cluster.FileLog.Sidecars.{persist_truncate_marker}
use failover_cluster.LogStore.{last_index_from, retain}
use failover_cluster.FileLog.Recovery.Replay.{frames}
use failover_cluster.FileLog.Consistent.Truncate.Atomic.{ending-Reopens}
use failover_cluster.FileLog.Consistent.Cut.{IsCut-logs}
use failover_cluster.FileLog.Consistent.Truncate.{
  base_at-segments_of, bases, bases_from-segments_of, remove_files-segments_of,
}
use failover_cluster.FileLog.Trim.{base_at, bases_from, remove_files, truncate_calls}
use failover_cluster.FileLog.Consistent.Truncate.Writes.{Throughout, Throughout-append}
use failover_cluster.Prelude.{
  List, [], ap, arith, inl, inr, length, ltb, none, refl, saturating_sub, some, subst, suc, sym, ℕ,
  ◌≡◌, if◌then◌else◌, ◌∷◌, ◌+◌, ◌++◌, ◌∙◌, ◌==◌, ◌<◌,
}
use failover_cluster.FileLog.Consistent.Live.{IsSorted, all_offsets, flat, live}
use failover_cluster.FileLog.Consistent.Truncate.Crash.{IsMarked, Reopens, removing-Reopens}
use failover_cluster.FileLog.Consistent.Trimmed.{IsBoundary, cut_entries, cut_location}
use failover_cluster.FileLog.Consistent.Cut.Order.{IsSorted-cut}
use failover_cluster.FileLog.Consistent.Cut.Offsets.{location_from-All}
use failover_cluster.FileLog.Store.{
  FileLogStore, clear_truncate_marker, location_from, mark_truncate, perform, remove_file, set_len,
}
use failover_cluster.Message.{Entry}
use failover_cluster.FileLog.Codec.{Encoding}
use failover_cluster.FileLog.Consistent.Truncate.Outcome.{stored_maps}
use failover_cluster.FileLog.Consistent.Truncate.Kept.{AllStorable-cut}
use failover_cluster.FileLog.Consistent.{AllStorable, IsStored, Logs, segments_of}
use mathlib.Core.List.{append_assoc, append-nil}
use mathlib.Core.Option.{some-injective}

AllStorable-alone :
    (enc : Encoding) (before : Logs) (joint : ℕ × List Entry) (after : Logs)
    → AllStorable enc (before ++ (joint ∷ after))
    → AllStorable enc (before ++ (joint ∷ []))
AllStorable-alone enc [] joint after s = (s.0, tt)
AllStorable-alone enc ((b, es) ∷ before) joint after s =
    (s.0, AllStorable-alone enc before joint after s.1)

IsSorted-front : (k : ℕ) (xs ys : Logs) → IsSorted k (xs ++ ys) → IsSorted k xs
IsSorted-front k [] ys s = tt
IsSorted-front k ((b, es) ∷ xs) ys s = (s.0, s.1, IsSorted-front (last_index_from b es) xs ys s.2)

none≢some : (x : ℕ × ℕ) → ¬ (none ≡ some x)
none≢some x h = ground arith

module _ (enc : Encoding) where
  -- The calls after the marker, for segments with a first entry that goes.
  calls_reopen :
      (index : ℕ) (before : Logs) (base : ℕ) (kept : List Entry) (e : Entry) (rest : List Entry)
      (after : Logs) (s : FileLogStore)
      → 0 < index
      → index < words 8
      → IsStored enc (before ++ ((base, kept ++ (e ∷ rest)) ∷ after)) s
      → IsSorted 0 (before ++ ((base, kept ++ (e ∷ rest)) ∷ after))
      → IsBoundary enc s.first_valid_index index before kept e rest after
      → Throughout
          (Reopens enc s.first_valid_index s.snapshot_anchor s.max_segment_size
            (live s.first_valid_index (flat (before ++ ((base, kept) ∷ [])))))
          (truncate_calls s.disk.segments (length before, length (frames enc kept)))
          (perform (mark_truncate (saturating_sub index 1)) s.disk)
  unfolding truncate_calls perform flat
  calls_reopen index before base kept e rest after s pos small w o h =
      let floor = s.first_valid_index in
      let anchor = s.snapshot_anchor in
      let cap = s.max_segment_size in
      let joint : ℕ × List Entry = (base, kept ++ (e ∷ rest)) in
      let logs = before ++ (joint ∷ after) in
      let seg = w.segments_lem in
      let d1 = record s.disk { truncate_file = persist_truncate_marker (saturating_sub index 1) } in
      let m : IsMarked enc floor anchor cap logs index d1 = record {
        segments_lem = seg;
        storable = w.storable;
        sorted = o;
        floor_lem = w.floor_lem;
        anchor_lem = w.anchor_lem;
        marker_lem = refl;
      } in
      let at_base =
        ap (base_at (length before)) seg ∙ base_at-segments_of enc before base _ after in
      let names =
        ap (bases_from (suc (length before))) seg
        ∙ bases_from-segments_of enc before base _ after in
      let (own, st) = AllStorable-cut enc before base kept (e ∷ rest) after w.storable in
      let regroup = append_assoc before (joint ∷ []) after in
      let alone = before ++ (joint ∷ []) in
      let removed =
        remove_files-segments_of enc 0 alone after d1 (subst (IsSorted 0) (sym regroup) o)
          (seg ∙ ap (segments_of enc) (sym regroup)) in
      let d2 = record d1 { segments = segments_of enc alone } in
      let h2 : IsBoundary enc floor index before kept e rest [] = record {
        earlier = h.earlier;
        here = h.here;
        first = h.first;
        behind = h.behind;
        later = tt;
      } in
      let m2 : IsMarked enc floor anchor cap alone index d2 = record {
        segments_lem = refl;
        storable = AllStorable-alone enc before joint after w.storable;
        sorted = IsSorted-front 0 alone after (subst (IsSorted 0) (sym regroup) o);
        floor_lem = w.floor_lem;
        anchor_lem = w.anchor_lem;
        marker_lem = refl;
      } in
      let P = Reopens enc floor anchor cap (live floor (flat (before ++ ((base, kept) ∷ [])))) in
      let ending =
        set_len base (length (frames enc kept))
        ∷ ((if length (frames enc kept) == 0 then remove_file base ∷ [] else [])
            ++ (clear_truncate_marker ∷ [])) in
      rw (at_base, names)
        (Throughout-append P (remove_files (bases after)) ending d1
          (removing-Reopens enc floor anchor cap index base before kept e rest after d1 pos small h
            m)
          (subst (Throughout P ending) (sym removed) (
            ending-Reopens enc floor anchor cap index base before kept e rest d2 pos small h2 own
              m2)))

  -- A crash after any call of `truncate_from`, from the marker on: opening the directory gives a store
  -- whose entries are those below the index, and whose memory is what its directory says. The log is
  -- one that append, truncation and purge leave, and it has an entry to remove.
  pub truncate_from-Reopens :
      (index : ℕ) (location : ℕ × ℕ) (logs : Logs) (s : FileLogStore)
      → 0 < index
      → index < words 8
      → IsStored enc logs s
      → IsSorted 0 logs
      → location_from index s.offsets ≡ some location
      → Throughout
          (Reopens enc s.first_valid_index s.snapshot_anchor s.max_segment_size
            (retain (λ e. ltb e.index index) s.entries))
          (truncate_calls s.disk.segments location)
          (perform (mark_truncate (saturating_sub index 1)) s.disk)
  truncate_from-Reopens index location logs s pos small w o found =
      let floor = s.first_valid_index in
      let (es, os) = stored_maps enc logs s w o in
      elim (IsCut-logs floor index logs) [
        | inl all ↦
            let nowhere : location_from index s.offsets ≡ none =
              ap (location_from index) (os ∙ sym (append-nil (all_offsets enc floor 0 logs)))
              ∙ (location_from-All enc floor index 0 logs [] all
                  ∙ (unfold location_from in refl)) in
            absurd (none≢some _ (sym nowhere ∙ found))
        | inr (before, base, kept, e, rest, after, c) ↦
            let o1 = subst (IsSorted 0) c.parts o in
            let w1 = subst (λ l. IsStored enc l s) c.parts w in
            let (sorted, gone, later) =
              IsSorted-cut floor index 0 before base kept e rest after c.gone o1 in
            let h : IsBoundary enc floor index before kept e rest after = record {
              earlier = c.survive;
              here = c.kept_survive;
              first = c.gone;
              behind = gone.1;
              later = later;
            } in
            let (es1, os1) = stored_maps enc _ s w1 o1 in
            let n : 0 + length before ≡ length before = omega arith in
            let place : location_from index s.offsets
                ≡ some (length before, length (frames enc kept)) =
              ap (location_from index) os1
              ∙ (cut_location enc floor index 0 before base kept e rest after h
                  ∙ ap (λ t. some (t, length (frames enc kept))) n) in
            let same : location ≡ (length before, length (frames enc kept)) =
              some-injective _ _ (sym found ∙ place) in
            let left : live floor (flat (before ++ ((base, kept) ∷ [])))
                ≡ retain (λ x. ltb x.index index) s.entries =
              sym (
                ap (retain (λ x. ltb x.index index)) es1
                ∙ cut_entries enc floor index before base kept e rest after h) in
            rw same (
              subst
                (λ t.
                  Throughout (Reopens enc floor s.snapshot_anchor s.max_segment_size t)
                    (truncate_calls s.disk.segments (length before, length (frames enc kept)))
                    (perform (mark_truncate (saturating_sub index 1)) s.disk))
                left (calls_reopen index before base kept e rest after s pos small w1 o1 h))
      ]
