-- ===== src/LogStore/Operations.antt =====
-- Appending, truncating and purging: xraft-storage/src/log.rs, `MemoryLogStore`.
use failover_cluster.FileLog.Recovery.{cut}
use failover_cluster.Types.{SnapshotMeta}
use failover_cluster.Prelude.{
  Bool-cases, List, [], arith, inl, inr, ltb, refl, ℕ, ◌≤◌, ◌≡◌, ◌∷◌, ◌++◌, max, none, some, sym,
  true, ◌⊎◌, All, ap, false, ◌≢◌, ◌<◌,
}
use failover_cluster.LogStore
use failover_cluster.LogStore.{
  retain, note_epochs, MemoryLogStore, any_snapshot, append, purge_prefix, truncate_from,
  with_entries, is_snapshot, last_index_from, last_term_from,
}
use failover_cluster.LogStore.Epochs.{IsLog, IsWellFormed}
use failover_cluster.Message.{Entry, EntryPayload}

pub note_epochs-append :
    (xs ys : List Entry) (m : LogStore.EpochMap)
    → note_epochs m (xs ++ ys) ≡ note_epochs (note_epochs m xs) ys
unfolding note_epochs
note_epochs-append [] ys m = refl
note_epochs-append (x ∷ xs) ys m = note_epochs-append xs ys _

IsLog-mono : (i j s t : ℕ) (es : List Entry) → i ≡ j → t ≤ s → IsLog i s es → IsLog j t es
IsLog-mono i j s t [] e h l = tt
IsLog-mono i j s t (x ∷ es) e h l = (omega (arith, l.0), omega arith, l.2)

retain-none :
    (index j u : ℕ) (xs : List Entry)
    → IsLog j u xs
    → index ≤ j
    → retain (λ x. ltb x.index index) xs ≡ []
unfolding retain
retain-none index j u [] l h = refl
retain-none index j u (x ∷ xs) l h = ground (arith, retain-none index x.index x.term xs l.2)

log_reaches :
    (index j u : ℕ) (xs : List Entry) → IsLog j u xs → index ≤ j → All (λ x. index ≤ x.index) xs
log_reaches index j u [] l h = tt
log_reaches index j u (x ∷ xs) l h =
    (omega (arith, l.0), log_reaches index x.index x.term xs l.2 (omega (arith, l.0)))

-- A prefix of a log is one,
retain-truncated :
    (i t index : ℕ) (es : List Entry)
    → IsLog i t es
    → IsLog i t (retain (λ e. ltb e.index index) es)
unfolding retain
retain-truncated i t index [] l = tt
retain-truncated i t index (e ∷ es) l = elim (Bool-cases (ltb e.index index)) [
  | inl h ↦ rw h (l.0, l.1, retain-truncated e.index e.term index es l.2)
  | inr h ↦ rw (h, retain-none index e.index e.term es l.2 (ground arith)) tt
]

retain-all :
    (i t through : ℕ) (es : List Entry)
    → IsLog i t es
    → through ≤ i
    → retain (λ e. ltb through e.index) es ≡ es
unfolding retain
retain-all i t through [] l h = refl
retain-all i t through (e ∷ es) l h = ground (arith, l.0, retain-all e.index e.term through es l.2)

-- and so is what is left of one behind an index.
retain-purged :
    (i t through : ℕ) (es : List Entry)
    → IsLog i t es
    → IsLog (max i through) t (retain (λ e. ltb through e.index) es)
unfolding retain
retain-purged i t through [] l = tt
retain-purged i t through (e ∷ es) l = elim (Bool-cases (ltb through e.index)) [
  | inl h ↦
      rw (h, retain-all e.index e.term through es l.2 (ground arith))
        (ground (arith, l.0), l.1, l.2)
  | inr h ↦ rw h (
      IsLog-mono (max e.index through) (max i through) e.term t _ (ground (arith, l.0)) l.1
        (retain-purged e.index e.term through es l.2))
]

-- The entries that follow a log's last entry make a longer log.
IsLog-append :
    (i t : ℕ) (xs ys : List Entry)
    → IsLog i t xs
    → IsLog (last_index_from i xs) (last_term_from t xs) ys
    → IsLog i t (xs ++ ys)
unfolding last_index_from last_term_from
IsLog-append i t [] ys l k = k
IsLog-append i t (x ∷ xs) ys l k = (l.0, l.1, IsLog-append x.index x.term xs ys l.2 k)

-- An entry with a snapshot marker is among the entries; and that there is none.
abbrev pub HasMarker : List Entry → Type 0
HasMarker [] = ⊥
HasMarker (e ∷ es) = ((m : SnapshotMeta) × (e.payload ≡ EntryPayload.snapshot m)) ⊎ HasMarker es

abbrev pub NoMarker : List Entry → Type 0
NoMarker = All (λ (e : Entry). (m : SnapshotMeta) → e.payload ≢ EntryPayload.snapshot m)

is_snapshot-cases :
    (p : EntryPayload)
    → ((is_snapshot p ≡ true) × ((m : SnapshotMeta) × (p ≡ EntryPayload.snapshot m)))
      ⊎ ((is_snapshot p ≡ false) × ((m : SnapshotMeta) → p ≢ EntryPayload.snapshot m))
is_snapshot-cases (EntryPayload.snapshot m) = inl (refl, (m, refl))
is_snapshot-cases EntryPayload.no_op = inr (refl, λ m h. ground arith)
is_snapshot-cases (EntryPayload.command b) = inr (refl, λ m h. ground arith)
is_snapshot-cases (EntryPayload.config_change vs) = inr (refl, λ m h. ground arith)

any_snapshot-cases :
    (es : List Entry)
    → ((any_snapshot es ≡ true) × HasMarker es) ⊎ ((any_snapshot es ≡ false) × NoMarker es)
unfolding any_snapshot
any_snapshot-cases [] = inr (refl, tt)
any_snapshot-cases (e ∷ es) = elim (is_snapshot-cases e.payload) [
  | inl here ↦ inl (rw here.0 refl, inl here.1)
  | inr not_here ↦ elim (any_snapshot-cases es) [
    | inl later ↦ inl (rw (not_here.0, later.0) refl, inr later.1)
    | inr nowhere ↦ inr (rw (not_here.0, nowhere.0) refl, (not_here.1, nowhere.1))
  ]
]

-- Appending entries that follow the store's last one, in index and term: if one of them is a snapshot
-- marker, nothing is stored; if none is, they stand after the entries before, the anchor stays, and
-- the store is well formed again.
pub append-IsWellFormed :
    (base : ℕ) (s : MemoryLogStore) (es : List Entry)
    → IsWellFormed base s
    → IsLog (last_index_from base s.entries) (last_term_from 0 s.entries) es
    → (HasMarker es × (append s es ≡ none))
      ⊎ (NoMarker es
          × ((s' : MemoryLogStore) × (append s es ≡ some s')
              × (s'.entries ≡ s.entries ++ es)
              × (s'.snapshot_anchor ≡ s.snapshot_anchor)
              × IsWellFormed base s'))
unfolding append
append-IsWellFormed base s es w l = elim (any_snapshot-cases es) [
  | inl e ↦ inl (e.1, rw e.0 refl)
  | inr e ↦ inr (
    e.1,
    (
      record s { epoch_starts = note_epochs s.epoch_starts es; entries = s.entries ++ es },
      rw e.0 refl,
      refl,
      refl,
      record {
        synced = rw w.synced (sym (note_epochs-append s.entries es []));
        contiguous = IsLog-append base 0 s.entries es w.contiguous l;
      },
    ),
  )
]

-- What a truncation cuts off a log.
retain-split :
    (i t index : ℕ) (es : List Entry)
    → IsLog i t es
    → (cut : List Entry) × (es ≡ retain (λ e. ltb e.index index) es ++ cut)
      × All (λ e. e.index < index) (retain (λ e. ltb e.index index) es)
      × All (λ e. index ≤ e.index) cut
unfolding retain
retain-split i t index [] l = ([], refl, tt, tt)
retain-split i t index (e ∷ es) l = elim (Bool-cases (ltb e.index index)) [
  | inl h ↦
      let (cut, parts, below, above) = retain-split e.index e.term index es l.2 in
      rw h (cut, ap (λ xs. e ∷ xs) parts, (ground arith, below), above)
  | inr h ↦
      rw (h, retain-none index e.index e.term es l.2 (ground arith))
        (e ∷ es, refl, tt, (ground arith, log_reaches index e.index e.term es l.2 (ground arith)))
]

-- A truncation cuts the log in two: what stays are the entries before the index, what goes are those
-- from it on; the anchor stays and the store is well formed.
pub truncate_from-IsWellFormed :
    (base index : ℕ) (s : MemoryLogStore)
    → IsWellFormed base s
    → ((cut : List Entry) × (s.entries ≡ (truncate_from s index).entries ++ cut)
        × All (λ e. e.index < index) (truncate_from s index).entries
        × All (λ e. index ≤ e.index) cut)
      × ((truncate_from s index).snapshot_anchor ≡ s.snapshot_anchor)
      × IsWellFormed base (truncate_from s index)
unfolding truncate_from with_entries
truncate_from-IsWellFormed base index s w = (
  retain-split base 0 index s.entries w.contiguous,
  refl,
  record { synced = refl; contiguous = retain-truncated base 0 index s.entries w.contiguous },
)

-- A purge keeps the store well formed, with a base that is past what was purged.
pub purge_prefix-IsWellFormed :
    (base through : ℕ) (s : MemoryLogStore)
    → IsWellFormed base s
    → IsWellFormed (max base through) (purge_prefix s through)
unfolding purge_prefix with_entries
purge_prefix-IsWellFormed base through s w = record {
  synced = refl;
  contiguous = retain-purged base 0 through s.entries w.contiguous;
}
