-- ===== src/FileLog/Consistent/Purge.antt =====
-- `purge_prefix` on a stored log: xraft-storage/src/log.rs.
pub mod Outcome
use failover_cluster.FileLog.Store.{last_size}
use failover_cluster.FileLog.Consistent.Cut.Order.{last_index_from-ascending, last_index_from-base}
use failover_cluster.LogStore.{last_index_from, retain}
use failover_cluster.FileLog.Consistent.Cut.{keep_offsets-append}
use failover_cluster.FileLog.Trim.{
  after_index, covered, is_covered, keep_offsets, shift, take_bases,
}
use failover_cluster.FileLog.Recovery.{Offset, entry_key}
use failover_cluster.FileLog.Consistent.{Logs, segments_of}
use failover_cluster.FileLog.Consistent.Truncate.{IsSorted-mono, bases}
use failover_cluster.FileLog.Consistent.Live.{IsSorted, all_offsets, flat, live, live_offsets}
use failover_cluster.FileLog.Maps.{IsAscending}
use failover_cluster.Message.{Entry}
use failover_cluster.FileLog.Codec.{Encoding, frame}
use failover_cluster.Prelude.{
  is_empty, All, All-append, All-split, Bool-cases, List, [], ap, arith, dec_lt, inl, inr, length,
  ltb, lt→ltb, not_ltb, refl, suc, ℕ, ◌+◌, ◌++◌, ◌∙◌, ◌∷◌, ◌≡◌, ◌≤◌, ◌-◌,
}

abbrev pub IsDead : ℕ → Entry → Type 0
IsDead through e = e.index ≤ through

ascending_upto :
    (i j top : ℕ) (es : List Entry)
    → IsAscending entry_key j es
    → last_index_from i es ≤ top
    → All (IsDead top) es
unfolding last_index_from
ascending_upto i j top [] a h = tt
ascending_upto i j top (e ∷ es) a h = (
  omega (arith, last_index_from-ascending e.index es a.1, h),
  ascending_upto e.index e.index top es a.1 h,
)

-- The segments that a purge drops, and those that are left.
pub record IsPurged (enc : Encoding) (through k : ℕ) (logs front rest : Logs) : Type 0 where
  pub parts : logs ≡ front ++ rest
  pub count : covered through (segments_of enc logs) ≡ length front
  pub names :
      take_bases (covered through (segments_of enc logs)) (segments_of enc logs) ≡ bases front
  pub dead : All (IsDead through) (flat front)
  pub same_empty : is_empty (segments_of enc rest) ≡ is_empty (segments_of enc logs)
  pub same_size : last_size (segments_of enc rest) ≡ last_size (segments_of enc logs)
  pub sorted : IsSorted k rest

none-IsPurged :
    (enc : Encoding) (through k : ℕ) (logs : Logs)
    → IsSorted k logs
    → covered through (segments_of enc logs) ≡ 0
    → IsPurged enc through k logs [] logs
none-IsPurged enc through k logs o h = record {
  parts = refl;
  count = h;
  names = rw h (unfold take_bases in refl);
  dead = unfold flat in tt;
  same_empty = refl;
  same_size = refl;
  sorted = o;
}

pub purge_logs :
    (enc : Encoding) (through k : ℕ) (logs : Logs)
    → IsSorted k logs
    → (front : Logs) × (rest : Logs) × IsPurged enc through k logs front rest
unfolding covered segments_of take_bases flat last_size
purge_logs enc through k [] o = ([], [], none-IsPurged enc through k [] o refl)
purge_logs enc through k ((b, es) ∷ []) o =
    ([], (b, es) ∷ [], none-IsPurged enc through k ((b, es) ∷ []) o refl)
purge_logs enc through k ((b, es) ∷ (c, fs) ∷ logs) o =
    let (front, rest, p) = purge_logs enc through (last_index_from b es) ((c, fs) ∷ logs) o.2 in
    let l : ℕ × List Entry = (b, es) in
    elim (Bool-cases (is_covered through c)) [
      | inr stays ↦ (
        [],
        l ∷ (c, fs) ∷ logs,
        none-IsPurged enc through k (l ∷ (c, fs) ∷ logs) o (rw stays refl),
      )
      | inl drops ↦
          let own = last_index_from-base b es o.1 in
          let reach : last_index_from b es ≤ through = ground (arith, o.2.0, drops) in
          (
            l ∷ front,
            rest,
            record {
              parts = ap (λ t. l ∷ t) p.parts;
              count = rw drops (ap suc p.count);
              names = rw drops (ap (λ t. b ∷ t) p.names);
              dead =
                  All-append (IsDead through) es (flat front)
                    (ascending_upto b (b - 1) through es o.1 reach) p.dead;
              same_empty = p.same_empty;
              same_size = p.same_size;
              sorted =
                  IsSorted-mono k (last_index_from b es) rest (omega (arith, own, o.0)) p.sorted;
            },
          )
    ]

pub retain-live_above :
    (floor through : ℕ) (es : List Entry)
    → floor ≤ through
    → retain (λ e. ltb through e.index) (live floor es) ≡ live through es
unfolding retain live
retain-live_above floor through [] h = refl
retain-live_above floor through (e ∷ es) h =
    let ih = retain-live_above floor through es h in
    elim (dec_lt floor e.index) [
      | yes alive ↦ rw (lt→ltb floor e.index alive) (elim (Bool-cases (ltb through e.index)) [
        | inl above ↦ rw above (ap (λ t. e ∷ t) ih)
        | inr below ↦ rw below ih
      ])
      | no dead ↦ rw (not_ltb floor e.index (omega arith), not_ltb through e.index (omega arith)) ih
    ]

pub live-dead : (through : ℕ) (es : List Entry) → All (IsDead through) es → live through es ≡ []
unfolding live
live-dead through [] h = refl
live-dead through (e ∷ es) h = rw (not_ltb through e.index h.0) (live-dead through es h.1)

module _ (enc : Encoding) (through : ℕ) where
  live_offsets-dead :
      (seg_idx start : ℕ) (es : List Entry)
      → All (IsDead through) es
      → live_offsets enc through seg_idx start es ≡ []
  unfolding live_offsets
  live_offsets-dead seg_idx start [] h = refl
  live_offsets-dead seg_idx start (e ∷ es) h =
      rw (not_ltb through e.index h.0)
        (live_offsets-dead seg_idx (start + length (frame enc e)) es h.1)

  live_offsets-above :
      (floor seg_idx start : ℕ) (es : List Entry)
      → floor ≤ through
      → keep_offsets (after_index through) (live_offsets enc floor seg_idx start es)
        ≡ live_offsets enc through seg_idx start es
  unfolding keep_offsets live_offsets
  live_offsets-above floor seg_idx start [] h = refl
  live_offsets-above floor seg_idx start (e ∷ es) h =
      let ih = live_offsets-above floor seg_idx (start + length (frame enc e)) es h in
      elim (dec_lt floor e.index) [
        | yes alive ↦ rw (lt→ltb floor e.index alive) (elim (Bool-cases (ltb through e.index)) [
          | inl above ↦ rw above (ap (λ t. (e.index, seg_idx, start) ∷ t) ih)
          | inr below ↦ rw below ih
        ])
        | no dead ↦
            rw (not_ltb floor e.index (omega arith), not_ltb through e.index (omega arith)) ih
      ]

  pub all_offsets-above :
      (floor seg_idx : ℕ) (logs : Logs)
      → floor ≤ through
      → keep_offsets (after_index through) (all_offsets enc floor seg_idx logs)
        ≡ all_offsets enc through seg_idx logs
  unfolding all_offsets
  all_offsets-above floor seg_idx [] h = unfold keep_offsets in refl
  all_offsets-above floor seg_idx ((b, es) ∷ logs) h =
      rw
        (
          keep_offsets-append (after_index through) (live_offsets enc floor seg_idx 0 es)
              (all_offsets enc floor (seg_idx + 1) logs),
          live_offsets-above floor seg_idx 0 es h,
          all_offsets-above floor (seg_idx + 1) logs h,
        )
        refl

  pub all_offsets-dead :
      (seg_idx : ℕ) (front rest : Logs)
      → All (IsDead through) (flat front)
      → all_offsets enc through seg_idx (front ++ rest)
        ≡ all_offsets enc through (seg_idx + length front) rest
  unfolding all_offsets flat
  all_offsets-dead seg_idx [] rest h =
      let here : seg_idx + 0 ≡ seg_idx = omega arith in rw here refl
  all_offsets-dead seg_idx ((b, es) ∷ front) rest h =
      let (own, more) = All-split (IsDead through) es (flat front) h in
      let there : seg_idx + 1 + length front ≡ seg_idx + suc (length front) = omega arith in
      rw (live_offsets-dead seg_idx 0 es own) (
        all_offsets-dead (seg_idx + 1) front rest more
        ∙ ap (λ n. all_offsets enc through n rest) there)

  shift-append : (n : ℕ) (xs ys : List Offset) → shift n (xs ++ ys) ≡ shift n xs ++ shift n ys
  unfolding shift
  shift-append n [] ys = refl
  shift-append n ((i, s, p) ∷ xs) ys = ap (λ t. (i, s - n, p) ∷ t) (shift-append n xs ys)

  shift-live_offsets :
      (n seg_idx start : ℕ) (es : List Entry)
      → shift n (live_offsets enc through (seg_idx + n) start es)
        ≡ live_offsets enc through seg_idx start es
  unfolding shift live_offsets
  shift-live_offsets n seg_idx start [] = refl
  shift-live_offsets n seg_idx start (e ∷ es) =
      let back : seg_idx + n - n ≡ seg_idx = omega arith in
      let ih = shift-live_offsets n seg_idx (start + length (frame enc e)) es in
      elim (Bool-cases (ltb through e.index)) [
        | inl above ↦ rw above (rw back (ap (λ t. (e.index, seg_idx, start) ∷ t) ih))
        | inr below ↦ rw below ih
      ]

  pub shift-all_offsets :
      (n seg_idx : ℕ) (logs : Logs)
      → shift n (all_offsets enc through (seg_idx + n) logs) ≡ all_offsets enc through seg_idx logs
  unfolding all_offsets
  shift-all_offsets n seg_idx [] = unfold shift in refl
  shift-all_offsets n seg_idx ((b, es) ∷ logs) =
      let there : seg_idx + n + 1 ≡ seg_idx + 1 + n = omega arith in
      rw
        (
          shift-append n (live_offsets enc through (seg_idx + n) 0 es)
              (all_offsets enc through (seg_idx + n + 1) logs),
          there,
          shift-live_offsets n seg_idx 0 es,
          shift-all_offsets n (seg_idx + 1) logs,
        )
        refl
