-- ===== src/FileLog/Consistent/Truncate/Writes.antt =====
-- The calls of `truncate_from` one after the other, and where a crash can stop them.
use failover_cluster.FileLog.Recovery.Replay.{frames}
use failover_cluster.FileLog.Trim.{
  base_at, bases_from, remove_files, truncate_writes, truncate_calls,
}
use failover_cluster.FileLog.Consistent.{Logs, segments_of}
use failover_cluster.FileLog.Entries.{IsStorable}
use failover_cluster.FileLog.Consistent.Live.{IsSorted}
use failover_cluster.Message.{Entry}
use failover_cluster.FileLog.Codec.{Encoding}
use failover_cluster.FileLog.Store.{
  Disk, Write, clear_truncate_marker, mark_truncate, performs, remove_file, resize, set_len,
  perform,
}
use failover_cluster.FileLog.Consistent.Truncate.{
  BasesBelow, base_at-segments_of, bases, bases_from-segments_of, frames-is_empty,
  remove_files-segments_of, remove_segment-segments_of, resize-segments_of, sorted_below,
  performs-append, append-nil,
}
use failover_cluster.Prelude.{
  All, List, [], ap, length, none, refl, saturating_sub, subst, suc, sym, ℕ, if◌then◌else◌, ◌∷◌,
  ◌∙◌, ◌≡◌, ◌==◌, ◌++◌,
}
use mathlib.Core.List.{append_assoc}

-- The segments that are left: none is kept for nothing.
unfoldable pub kept_logs : Logs → ℕ → List Entry → Logs
kept_logs before base [] = before
kept_logs before base (x ∷ kept) = before ++ ((base, x ∷ kept) ∷ [])

-- Something holds before the first call and after each.
abbrev pub Throughout : (Disk → Type 0) → List Write → Disk → Type 0
Throughout P [] d = P d
Throughout P (w ∷ ws) d = P d × Throughout P ws (perform w d)

pub Throughout-append :
    (P : Disk → Type 0) (ws vs : List Write) (d : Disk)
    → Throughout P ws d
    → Throughout P vs (performs ws d)
    → Throughout P (ws ++ vs) d
unfolding performs
Throughout-append P [] vs d h g = g
Throughout-append P (w ∷ ws) vs d h g = (h.0, Throughout-append P ws vs (perform w d) h.1 g)

module _ (enc : Encoding) where
  set_len-kept :
      (before : Logs) (base : ℕ) (kept rest : List Entry) (d : Disk)
      → BasesBelow base before
      → All (IsStorable enc) kept
      → d.segments ≡ segments_of enc (before ++ ((base, kept ++ rest) ∷ []))
      → performs
          (set_len base (length (frames enc kept))
            ∷ ((if length (frames enc kept) == 0 then remove_file base ∷ [] else [])
                ++ (clear_truncate_marker ∷ [])))
          d
        ≡ record d { segments = segments_of enc (kept_logs before base kept); truncate_file = none }
  unfolding performs perform kept_logs
  set_len-kept before base [] rest d b s e =
      let cut_back =
        ap (resize base (length (frames enc []))) e
        ∙ resize-segments_of enc before base [] rest b in
      let removed = remove_segment-segments_of enc before base [] [] b in
      let empty = frames-is_empty enc [] tt in
      rw (empty, cut_back) (rw removed (rw (append-nil before) refl))
  set_len-kept before base (x ∷ kept) rest d b s e =
      let cut_back =
        ap (resize base (length (frames enc (x ∷ kept)))) e
        ∙ resize-segments_of enc before base (x ∷ kept) rest b in
      let filled = frames-is_empty enc (x ∷ kept) s in rw (filled, cut_back) refl

  pub performs-truncate_writes :
      (k index : ℕ) (before : Logs) (base : ℕ) (kept : List Entry) (e : Entry) (rest : List Entry)
      (after : Logs) (d : Disk)
      → IsSorted k (before ++ ((base, kept ++ (e ∷ rest)) ∷ after))
      → All (IsStorable enc) kept
      → d.segments ≡ segments_of enc (before ++ ((base, kept ++ (e ∷ rest)) ∷ after))
      → performs (truncate_writes d.segments index (length before, length (frames enc kept))) d
        ≡ record d { segments = segments_of enc (kept_logs before base kept); truncate_file = none }
  unfolding truncate_writes truncate_calls performs perform
  performs-truncate_writes k index before base kept e rest after d s st seg =
      let d1 = perform (mark_truncate (saturating_sub index 1)) d in
      let joint : ℕ × List Entry = (base, kept ++ (e ∷ rest)) in
      let regroup = append_assoc before (joint ∷ []) after in
      let at = ap (base_at (length before)) seg ∙ base_at-segments_of enc before base _ after in
      let names =
        ap (bases_from (suc (length before))) seg
        ∙ bases_from-segments_of enc before base _ after in
      let below = (sorted_below k before base _ after s).1 in
      let removed : performs (remove_files (bases after)) d1
          ≡ record d1 { segments = segments_of enc (before ++ (joint ∷ [])) } =
        remove_files-segments_of enc k (before ++ (joint ∷ [])) after d1
          (subst (IsSorted k) (sym regroup) s) (seg ∙ ap (segments_of enc) (sym regroup)) in
      let ending =
        set_len base (length (frames enc kept))
        ∷ ((if length (frames enc kept) == 0 then remove_file base ∷ [] else [])
            ++ (clear_truncate_marker ∷ [])) in
      rw (at, names)
        (performs-append enc (remove_files (bases after)) ending d1
          ∙ (ap (performs ending) removed
              ∙ set_len-kept before base kept (e ∷ rest)
                  (record d1 { segments = segments_of enc (before ++ (joint ∷ [])) }) below st
                  refl))
