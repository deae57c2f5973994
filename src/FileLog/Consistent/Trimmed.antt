-- ===== src/FileLog/Consistent/Trimmed.antt =====
-- The entries and the offsets of segments that are cut, and where the cut is found.
use failover_cluster.FileLog.Consistent.Cut.Offsets.{
  all_offsets-append, all_offsets-gone, all_offsets-survive, live_offsets-append, location_from-All,
  retain-live_append,
}
use mathlib.Core.List.{append_assoc, append-nil}
use failover_cluster.FileLog.Store.{location_from}
use failover_cluster.LogStore.{retain}
use failover_cluster.FileLog.Recovery.Replay.{frames}
use failover_cluster.FileLog.Trim.{before_index, keep_offsets}
use failover_cluster.FileLog.Consistent.{Logs}
use failover_cluster.FileLog.Consistent.Live.{all_offsets, flat, live_offsets, live, live-append}
use failover_cluster.FileLog.Consistent.Cut.{
  IsGone, keep_offsets-append, live_offsets-gone, Survives, live_offsets-survive,
  location_from-survive, retain-gone,
}
use failover_cluster.Message.{Entry}
use failover_cluster.FileLog.Codec.{Encoding}
use failover_cluster.Prelude.{
  All, All-append, All-split, List, [], ap, arith, length, ltb, refl, sym, ℕ, ◌+◌, ◌≡◌, ◌++◌, ◌∷◌,
  ◌∙◌, le→leb, lt→ltb, some,
}

module _ (enc : Encoding) (floor index : ℕ) where
  -- Segments with a first entry that goes: those before it stay, and it and all behind it is gone.
  pub record IsBoundary (before : Logs) (kept : List Entry) (e : Entry) (rest : List Entry)
      (after : Logs) : Type 0 where
    pub earlier : All (Survives floor index) (flat before)
    pub here : All (Survives floor index) kept
    pub first : IsGone floor index e
    pub behind : All (IsGone floor index) rest
    pub later : All (IsGone floor index) (flat after)

  -- The entries that stay.
  pub cut_entries :
      (before : Logs) (base : ℕ) (kept : List Entry) (e : Entry) (rest : List Entry) (after : Logs)
      → IsBoundary before kept e rest after
      → retain
          (λ x. ltb x.index index)
          (live floor (flat (before ++ ((base, kept ++ (e ∷ rest)) ∷ after))))
        ≡ live floor (flat (before ++ ((base, kept) ∷ [])))
  unfolding flat
  cut_entries [] base kept e rest after h =
      let gone =
        All-append (IsGone floor index) (e ∷ rest) (flat after) (h.first, h.behind) h.later in
      rw (append_assoc kept (e ∷ rest) (flat after)) (
        retain-live_append enc floor index kept ((e ∷ rest) ++ flat after) h.here
        ∙ (ap (λ t. live floor kept ++ t) (retain-gone floor index ((e ∷ rest) ++ flat after) gone)
            ∙ (append-nil (live floor kept) ∙ ap (live floor) (sym (append-nil kept)))))
  cut_entries ((b, es) ∷ before) base kept e rest after h =
      let (stay, earlier) = All-split (Survives floor index) es (flat before) h.earlier in
      let ih = cut_entries before base kept e rest after record {
        earlier = earlier;
        here = h.here;
        first = h.first;
        behind = h.behind;
        later = h.later;
      } in
      retain-live_append enc floor index es (flat (before ++ ((base, kept ++ (e ∷ rest)) ∷ after)))
        stay
      ∙ (ap (λ t. live floor es ++ t) ih
          ∙ sym (live-append floor es (flat (before ++ ((base, kept) ∷ [])))))

  boundary_offsets :
      (seg_idx base : ℕ) (kept : List Entry) (e : Entry) (rest : List Entry)
      → All (Survives floor index) kept
      → All (IsGone floor index) (e ∷ rest)
      → keep_offsets (before_index index) (live_offsets enc floor seg_idx 0 (kept ++ (e ∷ rest)))
        ≡ live_offsets enc floor seg_idx 0 kept
  boundary_offsets seg_idx base kept e rest h g =
      let start = 0 + length (frames enc kept) in
      ap (keep_offsets (before_index index))
        (live_offsets-append enc floor index seg_idx 0 kept (e ∷ rest))
      ∙ (keep_offsets-append (before_index index) (live_offsets enc floor seg_idx 0 kept)
            (live_offsets enc floor seg_idx start (e ∷ rest))
          ∙ (ap
                (λ t.
                  keep_offsets (before_index index) (live_offsets enc floor seg_idx 0 kept) ++ t)
                (live_offsets-gone enc floor index seg_idx start (e ∷ rest) g)
              ∙ (append-nil
                    (keep_offsets (before_index index) (live_offsets enc floor seg_idx 0 kept))
                  ∙ live_offsets-survive enc floor index seg_idx 0 kept h)))

  -- The offsets that stay.
  pub cut_offsets :
      (seg_idx : ℕ) (before : Logs) (base : ℕ) (kept : List Entry) (e : Entry) (rest : List Entry)
      (after : Logs)
      → IsBoundary before kept e rest after
      → keep_offsets
          (before_index index)
          (all_offsets enc floor seg_idx (before ++ ((base, kept ++ (e ∷ rest)) ∷ after)))
        ≡ all_offsets enc floor seg_idx (before ++ ((base, kept) ∷ []))
  cut_offsets seg_idx before base kept e rest after h =
      let test = before_index index in
      let n = seg_idx + length before in
      let front = all_offsets enc floor seg_idx before in
      let joint = live_offsets enc floor n 0 (kept ++ (e ∷ rest)) in
      let back = all_offsets enc floor (n + 1) after in
      rw
        (
          all_offsets-append enc floor index seg_idx before ((base, kept ++ (e ∷ rest)) ∷ after),
          all_offsets-append enc floor index seg_idx before ((base, kept) ∷ []),
        )
        (keep_offsets-append test front
            (all_offsets enc floor n ((base, kept ++ (e ∷ rest)) ∷ after))
          ∙ (ap
                (λ t.
                  t
                  ++ keep_offsets test
                      (all_offsets enc floor n ((base, kept ++ (e ∷ rest)) ∷ after)))
                (all_offsets-survive enc floor index seg_idx before h.earlier)
              ∙ ap (λ t. front ++ t)
                  (unfold all_offsets in
                    (keep_offsets-append test joint back
                      ∙ (ap (λ t. t ++ keep_offsets test back)
                            (boundary_offsets n base kept e rest h.here (h.first, h.behind))
                          ∙ ap (λ t. live_offsets enc floor n 0 kept ++ t)
                              (all_offsets-gone enc floor index (n + 1) after h.later))))))

  -- The place of the first entry that goes.
  pub cut_location :
      (seg_idx : ℕ) (before : Logs) (base : ℕ) (kept : List Entry) (e : Entry) (rest : List Entry)
      (after : Logs)
      → IsBoundary before kept e rest after
      → location_from index
          (all_offsets enc floor seg_idx (before ++ ((base, kept ++ (e ∷ rest)) ∷ after)))
        ≡ some (seg_idx + length before, length (frames enc kept))
  cut_location seg_idx before base kept e rest after h =
      let n = seg_idx + length before in
      let start = 0 + length (frames enc kept) in
      let here : start ≡ length (frames enc kept) = omega arith in
      let more = all_offsets enc floor (n + 1) after in
      let placed : location_from index (live_offsets enc floor n start (e ∷ rest) ++ more)
          ≡ some (n, start) =
        unfold location_from live_offsets in
        rw (lt→ltb floor e.index h.first.0) (rw (le→leb index e.index h.first.1) refl) in
      rw (all_offsets-append enc floor index seg_idx before ((base, kept ++ (e ∷ rest)) ∷ after)) (
        location_from-All enc floor index seg_idx before
          (all_offsets enc floor n ((base, kept ++ (e ∷ rest)) ∷ after)) h.earlier
        ∙ (unfold all_offsets in
            (rw (live_offsets-append enc floor index n 0 kept (e ∷ rest)) (
              rw
                (append_assoc (live_offsets enc floor n 0 kept)
                  (live_offsets enc floor n start (e ∷ rest)) more)
                (location_from-survive enc floor index n 0 kept _ h.here
                  ∙ (placed ∙ ap (λ t. some (n, t)) here))))))
