-- ===== src/FileLog/Consistent/Cut/Offsets.antt =====
-- The offsets of a log's segments, split at a segment and at a cut.
use mathlib.Core.List.{append_assoc}
use failover_cluster.FileLog.Store.{location_from}
use failover_cluster.LogStore.{retain}
use failover_cluster.FileLog.Recovery.Replay.{frames}
use failover_cluster.FileLog.Recovery.{Offset}
use failover_cluster.FileLog.Trim.{before_index, keep_offsets}
use failover_cluster.FileLog.Consistent.{Logs}
use failover_cluster.FileLog.Consistent.Live.{all_offsets, flat, live_offsets, live, live-append}
use failover_cluster.FileLog.Consistent.Cut.{
  IsGone, keep_offsets-append, live_offsets-gone, Survives, live_offsets-survive,
  location_from-survive, retain-append, retain-survive,
}
use failover_cluster.Message.{Entry}
use failover_cluster.FileLog.Codec.{Encoding, frame}
use failover_cluster.Prelude.{
  All, All-split, Bool-cases, List, [], ap, arith, inl, inr, length, length-append, ltb, refl, suc,
  sym, ℕ, ◌+◌, ◌≡◌, ◌++◌, ◌∷◌, ◌∙◌,
}

module _ (enc : Encoding) (floor index : ℕ) where
  pub live_offsets-append :
      (seg_idx start : ℕ) (xs ys : List Entry)
      → live_offsets enc floor seg_idx start (xs ++ ys)
        ≡ live_offsets enc floor seg_idx start xs
          ++ live_offsets enc floor seg_idx (start + length (frames enc xs)) ys
  unfolding live_offsets frames
  live_offsets-append seg_idx start [] ys =
      let here : start + 0 ≡ start = omega arith in rw here refl
  live_offsets-append seg_idx start (x ∷ xs) ys =
      let f = frame enc x in
      let there : start + length f + length (frames enc xs) ≡ start + length (f ++ frames enc xs) =
        omega (arith, length-append f (frames enc xs)) in
      let ih = live_offsets-append seg_idx (start + length f) xs ys in
      elim (Bool-cases (ltb floor x.index)) [
        | inl alive ↦ rw (alive, sym there) (ap (λ t. (x.index, seg_idx, start) ∷ t) ih)
        | inr dead ↦ rw (dead, sym there) ih
      ]

  pub all_offsets-gone :
      (seg_idx : ℕ) (logs : Logs)
      → All (IsGone floor index) (flat logs)
      → keep_offsets (before_index index) (all_offsets enc floor seg_idx logs) ≡ []
  unfolding all_offsets flat
  all_offsets-gone seg_idx [] h = unfold keep_offsets in refl
  all_offsets-gone seg_idx ((b, es) ∷ logs) h =
      let (here, later) = All-split (IsGone floor index) es (flat logs) h in
      rw
        (
          keep_offsets-append (before_index index) (live_offsets enc floor seg_idx 0 es)
              (all_offsets enc floor (seg_idx + 1) logs),
          live_offsets-gone enc floor index seg_idx 0 es here,
          all_offsets-gone (seg_idx + 1) logs later,
        )
        refl

  pub all_offsets-append :
      (seg_idx : ℕ) (xs ys : Logs)
      → all_offsets enc floor seg_idx (xs ++ ys)
        ≡ all_offsets enc floor seg_idx xs ++ all_offsets enc floor (seg_idx + length xs) ys
  unfolding all_offsets
  all_offsets-append seg_idx [] ys = let here : seg_idx + 0 ≡ seg_idx = omega arith in rw here refl
  all_offsets-append seg_idx ((b, es) ∷ xs) ys =
      let there : seg_idx + 1 + length xs ≡ seg_idx + suc (length xs) = omega arith in
      rw (all_offsets-append (seg_idx + 1) xs ys, there)
        (sym (append_assoc (live_offsets enc floor seg_idx 0 es) _ _))

  pub all_offsets-survive :
      (seg_idx : ℕ) (logs : Logs)
      → All (Survives floor index) (flat logs)
      → keep_offsets (before_index index) (all_offsets enc floor seg_idx logs)
        ≡ all_offsets enc floor seg_idx logs
  unfolding all_offsets flat
  all_offsets-survive seg_idx [] h = unfold keep_offsets in refl
  all_offsets-survive seg_idx ((b, es) ∷ logs) h =
      let (here, later) = All-split (Survives floor index) es (flat logs) h in
      rw
        (
          keep_offsets-append (before_index index) (live_offsets enc floor seg_idx 0 es)
              (all_offsets enc floor (seg_idx + 1) logs),
          live_offsets-survive enc floor index seg_idx 0 es here,
          all_offsets-survive (seg_idx + 1) logs later,
        )
        refl

  pub location_from-All :
      (seg_idx : ℕ) (logs : Logs) (os : List Offset)
      → All (Survives floor index) (flat logs)
      → location_from index (all_offsets enc floor seg_idx logs ++ os) ≡ location_from index os
  unfolding all_offsets flat
  location_from-All seg_idx [] os h = refl
  location_from-All seg_idx ((b, es) ∷ logs) os h =
      let (here, later) = All-split (Survives floor index) es (flat logs) h in
      rw
        (append_assoc (live_offsets enc floor seg_idx 0 es)
          (all_offsets enc floor (seg_idx + 1) logs) os)
        (location_from-survive enc floor index seg_idx 0 es _ here
          ∙ location_from-All (seg_idx + 1) logs os later)

  pub retain-live_append :
      (xs ys : List Entry)
      → All (Survives floor index) xs
      → retain (λ x. ltb x.index index) (live floor (xs ++ ys))
        ≡ live floor xs ++ retain (λ x. ltb x.index index) (live floor ys)
  retain-live_append xs ys h =
      ap (retain (λ x. ltb x.index index)) (live-append floor xs ys)
      ∙ (retain-append (λ x. ltb x.index index) (live floor xs) (live floor ys)
          ∙ ap (λ t. t ++ retain (λ x. ltb x.index index) (live floor ys))
              (retain-survive floor index xs h))
