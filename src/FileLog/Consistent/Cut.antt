-- ===== src/FileLog/Consistent/Cut.antt =====
-- Where a truncation cuts sorted segments: the first entry above the purge floor that has to go.
pub mod Offsets
pub mod Order
use failover_cluster.LogStore.{retain}
use failover_cluster.FileLog.Store.{location_from}
use failover_cluster.FileLog.Consistent.Live.{flat, live, live_offsets}
use failover_cluster.FileLog.Trim.{before_index, keep_offsets}
use failover_cluster.FileLog.Recovery.{Offset}
use failover_cluster.FileLog.Consistent.{Logs}
use failover_cluster.Message.{Entry}
use failover_cluster.FileLog.Codec.{Encoding, frame}
use failover_cluster.Prelude.{
  All, All-append, Bool, Bool-cases, List, [], ap, arith, dec_lt, false, inl, inr, leb, length, ltb,
  lt→ltb, not_ltb, refl, ℕ, ◌≤◌, ◌<◌, ◌⊎◌, ◌∷◌, ◌≡◌, ◌+◌, ◌++◌,
}

-- An entry that a truncation at `index` leaves in the files: it is below, or dead already.
abbrev pub Survives : ℕ → ℕ → Entry → Type 0
Survives floor index e = (e.index ≤ floor) ⊎ (e.index < index)

abbrev pub IsGone : ℕ → ℕ → Entry → Type 0
IsGone floor index e = (floor < e.index) × (index ≤ e.index)

IsGone-or_Survives : (floor index : ℕ) (e : Entry) → IsGone floor index e ⊎ Survives floor index e
IsGone-or_Survives floor index e = elim (dec_lt floor e.index) [
  | yes live ↦ elim (dec_lt e.index index) [
    | yes below ↦ inr (inr below)
    | no above ↦ inl (live, omega arith)
  ]
  | no dead ↦ inr (inl (omega arith))
]

-- The first entry to go of a list, with what stands before and behind it.
pub record IsSplit (floor index : ℕ) (es before : List Entry) (e : Entry) (after : List Entry)
    : Type 0 where
  pub parts : es ≡ before ++ (e ∷ after)
  pub survive : All (Survives floor index) before
  pub gone : IsGone floor index e

IsSplit-entries :
    (floor index : ℕ) (es : List Entry)
    → All (Survives floor index) es
      ⊎ ((before : List Entry) × (e : Entry) × (after : List Entry) × IsSplit floor index es before
            e after)
IsSplit-entries floor index [] = inl tt
IsSplit-entries floor index (x ∷ es) = elim (IsGone-or_Survives floor index x) [
  | inl gone ↦ inr ([], x, es, record { parts = refl; survive = tt; gone = gone })
  | inr stays ↦ elim (IsSplit-entries floor index es) [
    | inl rest ↦ inl (stays, rest)
    | inr (before, e, after, s) ↦ inr (
      x ∷ before,
      e,
      after,
      record { parts = ap (λ t. x ∷ t) s.parts; survive = (stays, s.survive); gone = s.gone },
    )
  ]
]

-- The same for segments: the boundary segment is cut in front of `e`.
pub record IsCut (floor index : ℕ) (logs before : Logs) (base : ℕ) (kept : List Entry) (e : Entry)
    (rest : List Entry) (after : Logs) : Type 0 where
  pub parts : logs ≡ before ++ ((base, kept ++ (e ∷ rest)) ∷ after)
  pub survive : All (Survives floor index) (flat before)
  pub kept_survive : All (Survives floor index) kept
  pub gone : IsGone floor index e

pub IsCut-logs :
    (floor index : ℕ) (logs : Logs)
    → All (Survives floor index) (flat logs)
      ⊎ ((before : Logs) × (base : ℕ) × (kept : List Entry) × (e : Entry) × (rest : List Entry)
          × (after : Logs) × IsCut floor index logs before base kept e rest after)
unfolding flat
IsCut-logs floor index [] = inl tt
IsCut-logs floor index ((base, es) ∷ logs) = elim (IsSplit-entries floor index es) [
  | inr (kept, e, rest, s) ↦ inr (
    [],
    base,
    kept,
    e,
    rest,
    logs,
    record {
      parts = ap (λ t. (base, t) ∷ logs) s.parts;
      survive = tt;
      kept_survive = s.survive;
      gone = s.gone;
    },
  )
  | inl all ↦ elim (IsCut-logs floor index logs) [
    | inl others ↦ inl (All-append (Survives floor index) es (flat logs) all others)
    | inr (before, b, kept, e, rest, after, c) ↦ inr (
      (base, es) ∷ before,
      b,
      kept,
      e,
      rest,
      after,
      record {
        parts = ap (λ t. (base, es) ∷ t) c.parts;
        survive = All-append (Survives floor index) es (flat before) all c.survive;
        kept_survive = c.kept_survive;
        gone = c.gone;
      },
    )
  ]
]

-- What stays is not touched by the tests of `truncate_from`.
pub retain-survive :
    (floor index : ℕ) (es : List Entry)
    → All (Survives floor index) es
    → retain (λ e. ltb e.index index) (live floor es) ≡ live floor es
unfolding retain live
retain-survive floor index [] h = refl
retain-survive floor index (e ∷ es) h =
    let ih = retain-survive floor index es h.1 in
    elim (Bool-cases (ltb floor e.index)) [
      | inr dead ↦ rw dead ih
      | inl alive ↦
          let below : e.index < index = ground (arith, h.0) in
          rw alive (rw (lt→ltb e.index index below) (ap (λ t. e ∷ t) ih))
    ]

pub retain-gone :
    (floor index : ℕ) (es : List Entry)
    → All (IsGone floor index) es
    → retain (λ e. ltb e.index index) (live floor es) ≡ []
unfolding retain live
retain-gone floor index [] h = refl
retain-gone floor index (e ∷ es) h =
    rw (lt→ltb floor e.index h.0.0, not_ltb e.index index h.0.1) (retain-gone floor index es h.1)

pub retain-append :
    (test : Entry → Bool) (xs ys : List Entry)
    → retain test (xs ++ ys) ≡ retain test xs ++ retain test ys
unfolding retain
retain-append test [] ys = refl
retain-append test (x ∷ xs) ys = elim (Bool-cases (test x)) [
  | inl e ↦ rw e (ap (λ t. x ∷ t) (retain-append test xs ys))
  | inr e ↦ rw e (retain-append test xs ys)
]

pub keep_offsets-append :
    (test : Offset → Bool) (xs ys : List Offset)
    → keep_offsets test (xs ++ ys) ≡ keep_offsets test xs ++ keep_offsets test ys
unfolding keep_offsets
keep_offsets-append test [] ys = refl
keep_offsets-append test (x ∷ xs) ys = elim (Bool-cases (test x)) [
  | inl e ↦ rw e (ap (λ t. x ∷ t) (keep_offsets-append test xs ys))
  | inr e ↦ rw e (keep_offsets-append test xs ys)
]

module _ (enc : Encoding) (floor index : ℕ) where
  pub live_offsets-survive :
      (seg_idx start : ℕ) (es : List Entry)
      → All (Survives floor index) es
      → keep_offsets (before_index index) (live_offsets enc floor seg_idx start es)
        ≡ live_offsets enc floor seg_idx start es
  unfolding keep_offsets live_offsets
  live_offsets-survive seg_idx start [] h = refl
  live_offsets-survive seg_idx start (e ∷ es) h =
      let ih = live_offsets-survive seg_idx (start + length (frame enc e)) es h.1 in
      elim (Bool-cases (ltb floor e.index)) [
        | inr dead ↦ rw dead ih
        | inl alive ↦
            let below : e.index < index = ground (arith, h.0) in
            rw alive (rw (lt→ltb e.index index below) (ap (λ t. (e.index, seg_idx, start) ∷ t) ih))
      ]

  pub live_offsets-gone :
      (seg_idx start : ℕ) (es : List Entry)
      → All (IsGone floor index) es
      → keep_offsets (before_index index) (live_offsets enc floor seg_idx start es) ≡ []
  unfolding keep_offsets live_offsets
  live_offsets-gone seg_idx start [] h = refl
  live_offsets-gone seg_idx start (e ∷ es) h =
      rw (lt→ltb floor e.index h.0.0, not_ltb e.index index h.0.1)
        (live_offsets-gone seg_idx (start + length (frame enc e)) es h.1)

  pub location_from-survive :
      (seg_idx start : ℕ) (es : List Entry) (os : List Offset)
      → All (Survives floor index) es
      → location_from index (live_offsets enc floor seg_idx start es ++ os) ≡ location_from index os
  unfolding location_from live_offsets
  location_from-survive seg_idx start [] os h = refl
  location_from-survive seg_idx start (e ∷ es) os h =
      let ih = location_from-survive seg_idx (start + length (frame enc e)) es os h.1 in
      elim (Bool-cases (ltb floor e.index)) [
        | inr dead ↦ rw dead ih
        | inl alive ↦
            let above : leb index e.index ≡ false = ground (arith, h.0) in rw alive (rw above ih)
      ]
