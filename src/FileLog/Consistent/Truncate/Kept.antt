-- ===== src/FileLog/Consistent/Truncate/Kept.antt =====
-- The logs that a truncation keeps: without a segment that it empties.
use failover_cluster.FileLog.Consistent.Append.Order.{IsFilled}
use failover_cluster.FileLog.Consistent.Truncate.{IsSorted-drop}
use failover_cluster.FileLog.Consistent.Truncate.Writes.{kept_logs}
use failover_cluster.FileLog.Entries.{IsStorable}
use failover_cluster.FileLog.Consistent.Live.{IsSorted, all_offsets, flat, live_offsets}
use failover_cluster.Message.{Entry}
use failover_cluster.FileLog.Codec.{Encoding}
use failover_cluster.FileLog.Consistent.{AllStorable, Logs}
use failover_cluster.Prelude.{All, All-split, List, [], ap, refl, subst, ℕ, ◌+◌, ◌∷◌, ◌≡◌, ◌++◌}
use mathlib.Core.List.{append-nil}

pub flat-kept_logs :
    (before : Logs) (base : ℕ) (kept : List Entry)
    → flat (before ++ ((base, kept) ∷ [])) ≡ flat (kept_logs before base kept)
unfolding kept_logs flat
flat-kept_logs before base (x ∷ kept) = refl
flat-kept_logs [] base [] = refl
flat-kept_logs ((b, es) ∷ before) base [] = ap (λ t. es ++ t) (flat-kept_logs before base [])

pub IsSorted-kept_logs :
    (before : Logs) (base : ℕ) (kept : List Entry)
    → IsSorted 0 (before ++ ((base, kept) ∷ []))
    → IsSorted 0 (kept_logs before base kept)
unfolding kept_logs
IsSorted-kept_logs before base (x ∷ kept) s = s
IsSorted-kept_logs before base [] s =
    subst (IsSorted 0) (append-nil before) (IsSorted-drop 0 before base [] [] s)

pub IsFilled-kept_logs :
    (before : Logs) (base : ℕ) (kept gone : List Entry) (after : Logs)
    → IsFilled (before ++ ((base, kept ++ gone) ∷ after))
    → IsFilled (kept_logs before base kept)
unfolding kept_logs
IsFilled-kept_logs [] base [] gone after f = tt
IsFilled-kept_logs [] base (x ∷ kept) gone after f = (refl, tt)
IsFilled-kept_logs ((b, es) ∷ before) base [] gone after f =
    (f.0, IsFilled-kept_logs before base [] gone after f.1)
IsFilled-kept_logs ((b, es) ∷ before) base (x ∷ kept) gone after f =
    (f.0, IsFilled-kept_logs before base (x ∷ kept) gone after f.1)

module _ (enc : Encoding) where
  pub all_offsets-kept_logs :
      (floor seg_idx : ℕ) (before : Logs) (base : ℕ) (kept : List Entry)
      → all_offsets enc floor seg_idx (before ++ ((base, kept) ∷ []))
        ≡ all_offsets enc floor seg_idx (kept_logs before base kept)
  unfolding kept_logs all_offsets live_offsets
  all_offsets-kept_logs floor seg_idx before base (x ∷ kept) = refl
  all_offsets-kept_logs floor seg_idx [] base [] = refl
  all_offsets-kept_logs floor seg_idx ((b, es) ∷ before) base [] =
      ap (λ t. live_offsets enc floor seg_idx 0 es ++ t)
        (all_offsets-kept_logs floor (seg_idx + 1) before base [])

  pub AllStorable-cut :
      (before : Logs) (base : ℕ) (kept gone : List Entry) (after : Logs)
      → AllStorable enc (before ++ ((base, kept ++ gone) ∷ after))
      → All (IsStorable enc) kept × AllStorable enc (kept_logs before base kept)
  unfolding kept_logs
  AllStorable-cut [] base [] gone after s = (tt, tt)
  AllStorable-cut [] base (x ∷ kept) gone after s =
      let (here, more) = All-split (IsStorable enc) (x ∷ kept) gone s.0 in (here, (here, tt))
  AllStorable-cut ((b, es) ∷ before) base [] gone after s =
      let (here, more) = AllStorable-cut before base [] gone after s.1 in (here, (s.0, more))
  AllStorable-cut ((b, es) ∷ before) base (x ∷ kept) gone after s =
      let (here, more) = AllStorable-cut before base (x ∷ kept) gone after s.1 in
      (here, (s.0, more))
