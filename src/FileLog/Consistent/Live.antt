-- ===== src/FileLog/Consistent/Live.antt =====
-- What recovery gives for segments in order: the entries above the purge floor, each with its place.
use failover_cluster.FileLog.Recovery.Replay.{replay}
use failover_cluster.LogStore.{last_index_from}
use failover_cluster.FileLog.Recovery.{Offset, Recovered, entry_key, note, offset_key}
use failover_cluster.FileLog.Consistent.{Logs, nothing, replay_logs}
use failover_cluster.FileLog.Maps.{
  IsAscending, KeysBelow, KeysBelow-append, KeysBelow-mono, insert_at-KeysBelow,
}
use failover_cluster.Message.{Entry}
use failover_cluster.FileLog.Codec.{Encoding, frame}
use failover_cluster.Prelude.{
  Bool-cases, List, [], ap, arith, dec_lt, inl, inr, length, ltb, lt→ltb, not_ltb, refl, suc, ℕ,
  ◌+◌, ◌<◌, ◌≡◌, if◌then◌else◌, ◌-◌, ◌∙◌, ◌++◌, ◌∷◌, ◌≤◌, false, subst, sym,
}
use mathlib.Core.List.{append_assoc, append-nil}

-- Segments in the order of the log: each one's entries grow from its base index on, and the next base
-- is above them.
abbrev pub IsSorted : ℕ → Logs → Type 0
IsSorted k [] = Unit
IsSorted k ((base, es) ∷ logs) =
    (k < base) × IsAscending entry_key (base - 1) es × IsSorted (last_index_from base es) logs

unfoldable pub flat : Logs → List Entry
flat [] = []
flat ((base, es) ∷ logs) = es ++ flat logs

unfoldable pub live : ℕ → List Entry → List Entry
live floor [] = []
live floor (e ∷ es) = let rest = live floor es in if ltb floor e.index then e ∷ rest else rest

unfoldable pub live_offsets : Encoding → ℕ → ℕ → ℕ → List Entry → List Offset
live_offsets enc floor seg_idx start [] = []
live_offsets enc floor seg_idx start (e ∷ es) =
    let rest = live_offsets enc floor seg_idx (start + length (frame enc e)) es in
    if ltb floor e.index then (e.index, seg_idx, start) ∷ rest else rest

unfoldable pub all_offsets : Encoding → ℕ → ℕ → Logs → List Offset
all_offsets enc floor seg_idx [] = []
all_offsets enc floor seg_idx ((base, es) ∷ logs) =
    live_offsets enc floor seg_idx 0 es ++ all_offsets enc floor (seg_idx + 1) logs

pub live-append :
    (floor : ℕ) (xs ys : List Entry) → live floor (xs ++ ys) ≡ live floor xs ++ live floor ys
unfolding live
live-append floor [] ys = refl
live-append floor (x ∷ xs) ys = elim (Bool-cases (ltb floor x.index)) [
  | inl e ↦ rw e (ap (λ zs. x ∷ zs) (live-append floor xs ys))
  | inr e ↦ rw e (live-append floor xs ys)
]

pub last_index_from_mono :
    (i j : ℕ) (es : List Entry) → i ≤ j → last_index_from i es ≤ last_index_from j es
unfolding last_index_from
last_index_from_mono i j [] h = h
last_index_from_mono i j (e ∷ es) h = omega arith

-- Both maps have only keys below `k`.
abbrev pub IsBelow : ℕ → Recovered → Type 0
IsBelow k r = KeysBelow entry_key k r.entries × KeysBelow offset_key k r.offsets

IsBelow-mono : (j k : ℕ) (r : Recovered) → j ≤ k → IsBelow j r → IsBelow k r
IsBelow-mono j k r h b =
    (KeysBelow-mono entry_key j k r.entries h b.0, KeysBelow-mono offset_key j k r.offsets h b.1)

module _ (enc : Encoding) (floor : ℕ) where
  -- A recovery that goes on as the live lists say.
  abbrev pub IsExtended : Recovered → List Entry → List Offset → Recovered → Type 0
  IsExtended r es os final = final ≡ record { entries = r.entries ++ es; offsets = r.offsets ++ os }

  note-live :
      (seg_idx start : ℕ) (r : Recovered) (e : Entry)
      → floor < e.index
      → IsBelow e.index r
      → note floor seg_idx r e start ≡ record {
        entries = r.entries ++ (e ∷ []);
        offsets = r.offsets ++ ((e.index, seg_idx, start) ∷ []);
      }
  unfolding note
  note-live seg_idx start r e h b =
      rw
        (
          lt→ltb floor e.index h,
          insert_at-KeysBelow entry_key e r.entries b.0,
          insert_at-KeysBelow offset_key (e.index, seg_idx, start) r.offsets b.1,
        )
        refl

  note-dead :
      (seg_idx start : ℕ) (r : Recovered) (e : Entry)
      → ltb floor e.index ≡ false
      → note floor seg_idx r e start ≡ r
  unfolding note
  note-dead seg_idx start r e h = rw h refl

  extended :
      (r : Recovered) (e : Entry) (o : Offset) (es : List Entry) (os : List Offset)
      (fs : List Entry) (ps : List Offset)
      → e ∷ es ≡ fs
      → o ∷ os ≡ ps
      → IsExtended r fs ps (record {
        entries = (r.entries ++ (e ∷ [])) ++ es;
        offsets = (r.offsets ++ (o ∷ [])) ++ os;
      })
  extended r e o es os fs ps he ho =
      let first : (r.entries ++ (e ∷ [])) ++ es ≡ r.entries ++ fs =
        append_assoc r.entries (e ∷ []) es ∙ ap (λ t. r.entries ++ t) he in
      let second : (r.offsets ++ (o ∷ [])) ++ os ≡ r.offsets ++ ps =
        append_assoc r.offsets (o ∷ []) os ∙ ap (λ t. r.offsets ++ t) ho in
      rw (first, second) refl

  pub replay-live :
      (seg_idx start k : ℕ) (r : Recovered) (es : List Entry)
      → IsAscending entry_key k es
      → IsBelow (suc k) r
      → IsExtended r
          (live floor es)
          (live_offsets enc floor seg_idx start es)
          (replay enc floor seg_idx r start es)
        × IsBelow (suc (last_index_from k es)) (replay enc floor seg_idx r start es)
  unfolding live live_offsets replay last_index_from
  replay-live seg_idx start k r [] a b = (rw (append-nil r.entries, append-nil r.offsets) refl, b)
  replay-live seg_idx start k r (e ∷ es) a b =
      let next = start + length (frame enc e) in
      let below = IsBelow-mono (suc k) e.index r (omega (arith, a.0)) b in
      elim (dec_lt floor e.index) [
        | yes above ↦
            let o : Offset = (e.index, seg_idx, start) in
            let r1 : Recovered = record {
              entries = r.entries ++ (e ∷ []);
              offsets = r.offsets ++ (o ∷ []);
            } in
            let b1 : IsBelow (suc e.index) r1 = (
              KeysBelow-append entry_key (suc e.index) r.entries (e ∷ [])
                  (KeysBelow-mono entry_key e.index (suc e.index) r.entries (omega arith) below.0)
                  (omega arith, tt),
              KeysBelow-append offset_key (suc e.index) r.offsets (o ∷ [])
                  (KeysBelow-mono offset_key e.index (suc e.index) r.offsets (omega arith) below.1)
                  (omega arith, tt),
            ) in
            let (same, after) = replay-live seg_idx next e.index r1 es a.1 b1 in
            let moved : replay enc floor seg_idx r start (e ∷ es)
                ≡ replay enc floor seg_idx r1 next es =
              ap (λ t. replay enc floor seg_idx t next es)
                (note-live seg_idx start r e above below) in
            let lives : live floor (e ∷ es) ≡ e ∷ live floor es =
              rw (lt→ltb floor e.index above) refl in
            let places : live_offsets enc floor seg_idx start (e ∷ es)
                ≡ o ∷ live_offsets enc floor seg_idx next es =
              rw (lt→ltb floor e.index above) refl in
            (
              moved
                  ∙ (same
                      ∙ extended r e o (live floor es) (live_offsets enc floor seg_idx next es) _ _
                          (sym lives) (sym places)),
              subst (IsBelow (suc (last_index_from e.index es))) (sym moved) after,
            )
        | no under ↦
            let dead = not_ltb floor e.index (omega arith) in
            let (same, after) =
              replay-live seg_idx next e.index r es a.1
                (IsBelow-mono e.index (suc e.index) r (omega arith) below) in
            let moved : replay enc floor seg_idx r start (e ∷ es)
                ≡ replay enc floor seg_idx r next es =
              ap (λ t. replay enc floor seg_idx t next es) (note-dead seg_idx start r e dead) in
            let lives : live floor (e ∷ es) ≡ live floor es = rw dead refl in
            let places : live_offsets enc floor seg_idx start (e ∷ es)
                ≡ live_offsets enc floor seg_idx next es =
              rw dead refl in
            (
              moved ∙ (same ∙ rw (lives, places) refl),
              subst (IsBelow (suc (last_index_from e.index es))) (sym moved) after,
            )
      ]

  -- The maps that recovery of sorted segments fills, from the first on.
  replay_logs-live_from :
      (seg_idx k : ℕ) (r : Recovered) (logs : Logs)
      → IsSorted k logs
      → IsBelow (suc k) r
      → IsExtended r
          (live floor (flat logs))
          (all_offsets enc floor seg_idx logs)
          (replay_logs enc floor seg_idx r logs)
  unfolding flat all_offsets replay_logs live
  replay_logs-live_from seg_idx k r [] a b = rw (append-nil r.entries, append-nil r.offsets) refl
  replay_logs-live_from seg_idx k r ((base, es) ∷ logs) a b =
      let (same, after) =
        replay-live seg_idx 0 (base - 1) r es a.1
          (IsBelow-mono (suc k) (suc (base - 1)) r (omega (arith, a.0)) b) in
      let r1 = replay enc floor seg_idx r 0 es in
      let last = last_index_from_mono (base - 1) base es (omega arith) in
      let rest = replay_logs-live_from (seg_idx + 1) (last_index_from base es) r1 logs a.2 (
        IsBelow-mono (suc (last_index_from (base - 1) es)) (suc (last_index_from base es)) r1
          (omega (arith, last)) after) in
      let lives = live-append floor es (flat logs) in
      let first : r1.entries ++ live floor (flat logs) ≡ r.entries ++ live floor (es ++ flat logs) =
        ap (λ (t : Recovered). t.entries ++ live floor (flat logs)) same
        ∙ (append_assoc r.entries (live floor es) (live floor (flat logs))
            ∙ ap (λ t. r.entries ++ t) (sym lives)) in
      let places = all_offsets enc floor (seg_idx + 1) logs in
      let second : r1.offsets ++ places
          ≡ r.offsets ++ (live_offsets enc floor seg_idx 0 es ++ places) =
        ap (λ (t : Recovered). t.offsets ++ places) same
        ∙ append_assoc r.offsets (live_offsets enc floor seg_idx 0 es) places in
      rest ∙ rw (first, second) refl

  pub replay_logs-live :
      (logs : Logs)
      → IsSorted 0 logs
      → replay_logs enc floor 0 nothing logs
        ≡ record { entries = live floor (flat logs); offsets = all_offsets enc floor 0 logs }
  replay_logs-live logs a = replay_logs-live_from 0 0 nothing logs a (tt, tt)
