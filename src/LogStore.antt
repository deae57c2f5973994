-- ===== src/LogStore.antt =====
-- xraft-storage/src/log.rs, `MemoryLogStore` and `end_offset_lookup`: the log in memory, with its
-- leader-epoch checkpoint.
pub mod Epochs
pub mod Operations
use failover_cluster.Message.{Entry, EntryPayload}
use failover_cluster.Prelude.{
  ℕ, List, [], ◌∷◌, ◌++◌, Option, none, some, Bool, true, false, ltb, leb, ◌==◌, if◌then◌else◌,
  saturating_sub, ◌||◌, ◌&&◌,
}

-- `BTreeMap<Term, LogIndex>`: the pairs by ascending term.
abbrev pub EpochMap : Type 0
EpochMap = List (ℕ × ℕ)

unfoldable pub contains_key : ℕ → EpochMap → Bool
contains_key t [] = false
contains_key t ((k, _) ∷ m) = k == t || contains_key t m

-- `entry(t).or_insert(index)`.
unfoldable pub or_insert : ℕ → ℕ → EpochMap → EpochMap
or_insert t index [] = (t, index) ∷ []
or_insert t index ((k, v) ∷ m) =
    let rest = or_insert t index m in
    if k == t then (k, v) ∷ m else if ltb t k then (t, index) ∷ (k, v) ∷ m else (k, v) ∷ rest

-- `range((Excluded(t), Unbounded)).next()`, its value.
unfoldable pub next_start : ℕ → EpochMap → Option ℕ
next_start t [] = none
next_start t ((k, v) ∷ m) = if ltb t k then some v else next_start t m

-- `for e in entries { epoch_starts.entry(e.term).or_insert(e.index) }`.
unfoldable pub note_epochs : EpochMap → List Entry → EpochMap
note_epochs m [] = m
note_epochs m (e ∷ es) = note_epochs (or_insert e.term e.index m) es

pub record MemoryLogStore : Type 0 where
  pub entries : List Entry
  pub epoch_starts : EpochMap
  pub snapshot_anchor : Option (ℕ × ℕ)

abbrev pub is_snapshot : EntryPayload → Bool
is_snapshot p = elim p [ EntryPayload.snapshot m ↦ true | _ ↦ false ]

unfoldable pub any_snapshot : List Entry → Bool
any_snapshot [] = false
any_snapshot (e ∷ es) = is_snapshot e.payload || any_snapshot es

-- `entries.retain(test)`.
unfoldable pub retain : (Entry → Bool) → List Entry → List Entry
retain test [] = []
retain test (e ∷ es) = let rest = retain test es in if test e then e ∷ rest else rest

-- The index of the last entry; `index` for an empty list.
unfoldable pub last_index_from : ℕ → List Entry → ℕ
last_index_from index [] = index
last_index_from index (e ∷ es) = last_index_from e.index es

unfoldable pub last_index : MemoryLogStore → ℕ
last_index s = last_index_from 0 s.entries

-- `none` is the error for a snapshot marker; nothing is written then.
unfoldable pub append : MemoryLogStore → List Entry → Option MemoryLogStore
append s es =
    if any_snapshot es
    then none
    else some (record s { epoch_starts = note_epochs s.epoch_starts es; entries = s.entries ++ es })

-- With the checkpoint rebuilt from the entries left.
unfoldable pub with_entries : MemoryLogStore → List Entry → MemoryLogStore
with_entries s es = record s { entries = es; epoch_starts = note_epochs [] es }

unfoldable pub truncate_from : MemoryLogStore → ℕ → MemoryLogStore
truncate_from s index = with_entries s (retain (λ e. ltb e.index index) s.entries)

unfoldable pub purge_prefix : MemoryLogStore → ℕ → MemoryLogStore
purge_prefix s through = with_entries s (retain (λ e. ltb through e.index) s.entries)

abbrev pub keeps_anchor : Option (ℕ × ℕ) → ℕ → Bool
keeps_anchor none index = false
keeps_anchor (some (_, prior)) index = leb index prior

unfoldable pub update_snapshot_anchor : MemoryLogStore → ℕ → ℕ → MemoryLogStore
update_snapshot_anchor s term index =
    if keeps_anchor s.snapshot_anchor index
    then s
    else record s { snapshot_anchor = some (term, index) }

abbrev pub end_before : Option ℕ → ℕ → ℕ
end_before none last = last
end_before (some next) last = saturating_sub next 1

abbrev pub anchor_floor : Option (ℕ × ℕ) → ℕ → Option ℕ
anchor_floor none epoch = none
anchor_floor (some (term, index)) epoch = if leb epoch term then some index else none

unfoldable pub end_offset_lookup : EpochMap → ℕ → Option (ℕ × ℕ) → ℕ → Option ℕ
end_offset_lookup starts last anchor epoch =
    if contains_key epoch starts
    then some (end_before (next_start epoch starts) last)
    else anchor_floor anchor epoch

unfoldable pub end_offset_for_epoch : MemoryLogStore → ℕ → Option ℕ
end_offset_for_epoch s epoch =
    end_offset_lookup s.epoch_starts (last_index s) s.snapshot_anchor epoch

unfoldable pub find : ℕ → List Entry → Option Entry
find index [] = none
find index (e ∷ es) = if e.index == index then some e else find index es

unfoldable pub get : MemoryLogStore → ℕ → Option Entry
get s index = if index == 0 then none else find index s.entries

unfoldable pub get_range : MemoryLogStore → ℕ → ℕ → List Entry
get_range s start end = retain (λ e. leb start e.index && ltb e.index end) s.entries

abbrev pub entry_term : Option Entry → Option ℕ
entry_term none = none
entry_term (some e) = some e.term

unfoldable pub term_at : MemoryLogStore → ℕ → Option ℕ
term_at s index = entry_term (find index s.entries)

unfoldable pub last_term_from : ℕ → List Entry → ℕ
last_term_from term [] = term
last_term_from term (e ∷ es) = last_term_from e.term es

unfoldable pub last_term : MemoryLogStore → ℕ
last_term s = last_term_from 0 s.entries
