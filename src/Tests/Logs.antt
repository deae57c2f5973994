-- ===== src/Tests/Logs.antt =====
-- The log in memory: three entries of terms 1 and 3, after a snapshot through 4 of term 1.
use failover_cluster.LogStore.Operations.{
  append-IsWellFormed, purge_prefix-IsWellFormed, truncate_from-IsWellFormed, HasMarker, NoMarker,
}
use failover_cluster.Prelude.{
  [], arith, none, refl, some, ℕ, ◌∷◌, ◌⊎◌, ◌≡◌, All, List, ◌++◌, ◌≤◌, ◌<◌,
}
use failover_cluster.LogStore
use failover_cluster.LogStore.{
  MemoryLogStore, append, truncate_from, purge_prefix, end_offset_for_epoch,
}
use failover_cluster.LogStore.Epochs.{IsWellFormed, end_offset_for_epoch-answers}
use failover_cluster.Message.{Entry, command}

abbrev entry : ℕ → ℕ → Entry
entry index term = record { index = index; term = term; payload = command [] }

abbrev store : MemoryLogStore
store = record {
  entries = entry 5 1 ∷ entry 6 1 ∷ entry 7 3 ∷ [];
  epoch_starts = (1, 5) ∷ (3, 7) ∷ [];
  snapshot_anchor = some (1, 4);
}

store-IsWellFormed : IsWellFormed 4 store
unfolding LogStore.note_epochs LogStore.or_insert
store-IsWellFormed = record {
  synced = refl;
  contiguous = (refl, omega arith, (refl, omega arith, (refl, omega arith, tt)));
}

end_offset_for_epoch-answers_example : end_offset_for_epoch store 1 ≡ some 6
end_offset_for_epoch-answers_example = end_offset_for_epoch-answers 4 1 store store-IsWellFormed

append-IsWellFormed_example :
    (HasMarker (entry 8 3 ∷ []) × (append store (entry 8 3 ∷ []) ≡ none))
    ⊎ (NoMarker (entry 8 3 ∷ [])
        × ((s : MemoryLogStore) × (append store (entry 8 3 ∷ []) ≡ some s)
            × (s.entries ≡ entry 5 1 ∷ entry 6 1 ∷ entry 7 3 ∷ entry 8 3 ∷ [])
            × (s.snapshot_anchor ≡ store.snapshot_anchor)
            × IsWellFormed 4 s))
unfolding failover_cluster.LogStore.last_index_from failover_cluster.LogStore.last_term_from
append-IsWellFormed_example =
    append-IsWellFormed 4 store (entry 8 3 ∷ []) store-IsWellFormed (refl, omega arith, tt)

truncate_from-IsWellFormed_example :
    ((cut : List Entry) × (store.entries ≡ (truncate_from store 7).entries ++ cut)
      × All (λ e. e.index < 7) (truncate_from store 7).entries
      × All (λ e. 7 ≤ e.index) cut)
    × ((truncate_from store 7).snapshot_anchor ≡ store.snapshot_anchor)
    × IsWellFormed 4 (truncate_from store 7)
truncate_from-IsWellFormed_example = truncate_from-IsWellFormed 4 7 store store-IsWellFormed

purge_prefix-IsWellFormed_example : IsWellFormed 6 (purge_prefix store 6)
purge_prefix-IsWellFormed_example = purge_prefix-IsWellFormed 4 6 store store-IsWellFormed
