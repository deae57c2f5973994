-- ===== src/LogStore/Epochs.antt =====
-- The epoch checkpoint: xraft-storage/src/log.rs, `end_offset_lookup`.
use failover_cluster.Prelude.{
  List, Option, [], arith, none, refl, some, ℕ, ◌≤◌, ◌||◌, ◌<◌, ◌+◌, ◌∷◌, ◌≡◌, ◌==◌, if◌then◌else◌,
  dec_lt, false, ◌∙◌, Bool-cases, ap, inl, inr,
}
use failover_cluster.LogStore.{
  EpochMap, contains_key, or_insert, next_start, end_before, last_index_from, note_epochs,
  MemoryLogStore, anchor_floor, end_offset_for_epoch, end_offset_lookup, last_index,
}
use failover_cluster.Message.{Entry}

-- The entries follow `index` without a gap, and no term is below `term` or falls.
abbrev pub IsLog : ℕ → ℕ → List Entry → Type 0
IsLog index term [] = Unit
IsLog index term (e ∷ es) = (e.index ≡ index + 1) × (term ≤ e.term) × IsLog e.index e.term es

-- The index of the last entry of an epoch, `found` if there is none.
abbrev pub last_of_epoch : ℕ → Option ℕ → List Entry → Option ℕ
last_of_epoch epoch found [] = found
last_of_epoch epoch found (e ∷ es) =
    let later = last_of_epoch epoch (some e.index) es in
    let earlier = last_of_epoch epoch found es in if e.term == epoch then later else earlier

-- No key is above `k`.
abbrev Below : ℕ → EpochMap → Type 0
Below k [] = Unit
Below k ((t, _) ∷ m) = (t ≤ k) × Below k m

Below-mono : (j k : ℕ) (m : EpochMap) → j ≤ k → Below j m → Below k m
Below-mono j k [] h b = tt
Below-mono j k ((t, v) ∷ m) h b = (omega arith, Below-mono j k m h b.1)

or_insert-Below : (k t index : ℕ) (m : EpochMap) → Below k m → k ≤ t → Below t (or_insert t index m)
unfolding or_insert
or_insert-Below k t index [] b h = (omega arith, tt)
or_insert-Below k t index ((j, v) ∷ m) b h =
    ground (arith, or_insert-Below k t index m b.1 h, Below-mono k t m h b.1)

contains_key-or_insert :
    (epoch t index : ℕ) (m : EpochMap)
    → contains_key epoch (or_insert t index m) ≡ (t == epoch || contains_key epoch m)
unfolding or_insert contains_key
contains_key-or_insert epoch t index [] = ground arith
contains_key-or_insert epoch t index ((k, v) ∷ m) =
    ground (arith, contains_key-or_insert epoch t index m)

-- A later epoch does not change where the epoch ends that is followed by one already.
next_start-kept :
    (epoch k t index v : ℕ) (m : EpochMap)
    → Below k m
    → k ≤ t
    → next_start epoch m ≡ some v
    → next_start epoch (or_insert t index m) ≡ some v
unfolding or_insert next_start
next_start-kept epoch k t index v [] b h e = cc
next_start-kept epoch k t index v ((j, w) ∷ m) b h e =
    ground (arith, next_start-kept epoch k t index v m b.1 h)

-- The first later epoch starts where the epoch ends.
next_start-new :
    (epoch t index : ℕ) (m : EpochMap)
    → Below epoch m
    → epoch < t
    → next_start epoch (or_insert t index m) ≡ some index
unfolding or_insert next_start
next_start-new epoch t index [] b h = ground arith
next_start-new epoch t index ((j, w) ∷ m) b h = ground (arith, next_start-new epoch t index m b.1 h)

next_start-Below : (epoch : ℕ) (m : EpochMap) → Below epoch m → next_start epoch m ≡ none
unfolding next_start
next_start-Below epoch [] b = refl
next_start-Below epoch ((j, w) ∷ m) b = ground (arith, next_start-Below epoch m b.1)

contains_key-Below :
    (k epoch : ℕ) (m : EpochMap) → Below k m → k < epoch → contains_key epoch m ≡ false
unfolding contains_key
contains_key-Below k epoch [] b h = refl
contains_key-Below k epoch ((t, v) ∷ m) b h = ground (arith, contains_key-Below k epoch m b.1 h)

-- What the checkpoint says of an epoch, the anchor aside.
abbrev checkpoint_end : ℕ → EpochMap → ℕ → Option ℕ
checkpoint_end epoch m last =
    if contains_key epoch m then some (end_before (next_start epoch m) last) else none

-- Once a later epoch has begun, further entries change nothing for this one.
note_epochs-closed :
    (epoch index term v : ℕ) (found : Option ℕ) (m : EpochMap) (es : List Entry)
    → IsLog index term es
    → Below term m
    → epoch < term
    → next_start epoch m ≡ some v
    → (contains_key epoch (note_epochs m es) ≡ contains_key epoch m)
      × (next_start epoch (note_epochs m es) ≡ some v)
      × (last_of_epoch epoch found es ≡ found)
unfolding note_epochs
note_epochs-closed epoch index term v found m [] l b h n = (refl, n, refl)
note_epochs-closed epoch index term v found m (e ∷ es) l b h n =
    let (first, mono, later) = l in
    let below = or_insert-Below term e.term e.index m b mono in
    let kept = next_start-kept epoch term e.term e.index v m b mono n in
    let (c, s, f) =
      note_epochs-closed epoch e.index e.term v found (or_insert e.term e.index m) es later below
        (omega arith) kept in
    (c ∙ (contains_key-or_insert epoch e.term e.index m ∙ ground arith), s, ground arith)

-- Up to the epoch, the checkpoint follows the last entry of it.
note_epochs-open :
    (epoch index term : ℕ) (m : EpochMap) (es : List Entry)
    → IsLog index term es
    → Below term m
    → term ≤ epoch
    → checkpoint_end epoch (note_epochs m es) (last_index_from index es)
      ≡ last_of_epoch epoch (if contains_key epoch m then some index else none) es
unfolding note_epochs last_index_from
note_epochs-open epoch index term m [] l b h =
    let n = next_start-Below epoch m (Below-mono term epoch m h b) in ground arith
note_epochs-open epoch index term m (e ∷ es) l b h =
    let (first, mono, later) = l in
    let m1 = or_insert e.term e.index m in
    let known = contains_key-or_insert epoch e.term e.index m in
    let below = or_insert-Below term e.term e.index m b mono in
    elim (dec_lt epoch e.term) [
      | yes past ↦
          let new = next_start-new epoch e.term e.index m (Below-mono term epoch m h b) past in
          let (c, s, f) =
            note_epochs-closed epoch e.index e.term e.index
              (if contains_key epoch m then some index else none) m1 es later below past new in
          ground arith
      | no now ↦
          let rest = note_epochs-open epoch e.index e.term m1 es later below (omega arith) in
          let absent : e.term < epoch → contains_key epoch m ≡ false =
            λ lt. contains_key-Below term epoch m b (omega arith) in
          ground arith
    ]

-- The checkpoint is what the entries give, and they follow one another from `base` on.
pub record IsWellFormed (base : ℕ) (s : MemoryLogStore) : Type 0 where
  pub synced : s.epoch_starts ≡ note_epochs [] s.entries
  pub contiguous : IsLog base 0 s.entries

-- The epoch's own end, if the log has it, and else the anchor's.
abbrev pub or_floor : Option ℕ → Option ℕ → Option ℕ
or_floor none floor = floor
or_floor (some end) floor = some end

last_index-base :
    (i j epoch : ℕ) (m : EpochMap) (es : List Entry)
    → contains_key epoch m ≡ false
    → checkpoint_end epoch (note_epochs m es) (last_index_from i es)
      ≡ checkpoint_end epoch (note_epochs m es) (last_index_from j es)
unfolding note_epochs last_index_from
last_index-base i j epoch m [] h = ground arith
last_index-base i j epoch m (e ∷ es) h = refl

lookup-or_floor :
    (epoch last : ℕ) (m : EpochMap) (anchor : Option (ℕ × ℕ))
    → end_offset_lookup m last anchor epoch
      ≡ or_floor (checkpoint_end epoch m last) (anchor_floor anchor epoch)
unfolding end_offset_lookup
lookup-or_floor epoch last m anchor = elim (Bool-cases (contains_key epoch m)) [
  | inl e ↦ rw e refl
  | inr e ↦ rw e refl
]

-- In a log without gaps whose terms do not fall, the end of an epoch is the index of its last entry;
-- for an epoch without an entry it is the snapshot anchor's index if the anchor's term is no earlier,
-- and otherwise there is none.
pub end_offset_for_epoch-answers :
    (base epoch : ℕ) (s : MemoryLogStore)
    → IsWellFormed base s
    → end_offset_for_epoch s epoch
      ≡ or_floor (last_of_epoch epoch none s.entries) (anchor_floor s.snapshot_anchor epoch)
unfolding end_offset_for_epoch last_index
end_offset_for_epoch-answers base epoch s w =
    let looked =
      lookup-or_floor epoch (last_index_from 0 s.entries) (note_epochs [] s.entries)
        s.snapshot_anchor in
    let moved = last_index-base 0 base epoch [] s.entries (unfold contains_key in refl) in
    let found = note_epochs-open epoch base 0 [] s.entries w.contiguous tt (omega arith) in
    rw w.synced (
      looked
      ∙ ap (λ o. or_floor o (anchor_floor s.snapshot_anchor epoch))
          (moved ∙ (found ∙ (unfold contains_key in refl))))
