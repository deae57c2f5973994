-- ===== src/FileLog/Refinement/Appends.antt =====
-- Appending to the files is appending to the log in memory.
use failover_cluster.FileLog.Consistent.Truncate.Outcome.{stored_maps}
use failover_cluster.LogStore.Operations.{note_epochs-append}
use failover_cluster.FileLog.Consistent.Cut.Order.{last_index_from-ascending}
use failover_cluster.FileLog.Recovery.{entry_key}
use failover_cluster.FileLog.Consistent.Append.Step.{append_one-IsAppended}
use failover_cluster.FileLog.Consistent.Append.{add_last}
use failover_cluster.LogStore.{
  MemoryLogStore, any_snapshot, is_snapshot, last_index_from, note_epochs,
}
use failover_cluster.FileLog.Consistent.{Logs}
use failover_cluster.FileLog.Entries.{IsStorable, IsStorablePayload}
use failover_cluster.FileLog.Consistent.Live.{IsSorted, flat, live}
use failover_cluster.FileLog.Refinement.{IsNext, Refines, or_same}
use failover_cluster.FileLog.Maps.{IsAscending, KeysBelow, KeysBelow-append}
use failover_cluster.FileLog.Consistent.Append.Order.{
  HasRoom-IsFilled, HasRoom-IsSorted, end_of, end_of-IsSorted, end_of-live, last_snoc,
}
use failover_cluster.FileLog.Store.{FileLogStore, append, append_one}
use failover_cluster.Message.{Entry, EntryPayload}
use failover_cluster.FileLog.Codec.{Encoding, StorageError}
use failover_cluster.Prelude.{
  Bool-cases, List, [], ap, arith, false, inl, inr, ltb, none, refl, subst, sym, ℕ, ◌∷◌, ◌<◌, ◌∙◌,
  ◌-◌, ◌++◌, ◌≡◌, Option,
}
use mathlib.Core.List.{append_assoc, append-nil}

ascending-KeysBelow :
    (i j top : ℕ) (es : List Entry)
    → IsAscending entry_key j es
    → last_index_from i es < top
    → KeysBelow entry_key top es
unfolding last_index_from
ascending-KeysBelow i j top [] a h = tt
ascending-KeysBelow i j top (e ∷ es) a h = (
  omega (arith, last_index_from-ascending e.index es a.1, h),
  ascending-KeysBelow e.index e.index top es a.1 h,
)

sorted-KeysBelow :
    (k top : ℕ) (logs : Logs)
    → IsSorted k logs
    → end_of k logs < top
    → KeysBelow entry_key top (flat logs)
unfolding flat
sorted-KeysBelow k top [] o h = tt
sorted-KeysBelow k top ((b, es) ∷ logs) o h =
    let later = end_of-IsSorted (last_index_from b es) logs o.2 in
    KeysBelow-append entry_key top es (flat logs)
      (ascending-KeysBelow b (b - 1) top es o.1 (omega (arith, later, h)))
      (sorted-KeysBelow (last_index_from b es) top logs o.2 h)

live-KeysBelow :
    (floor top : ℕ) (es : List Entry)
    → KeysBelow entry_key top es
    → KeysBelow entry_key top (live floor es)
unfolding live
live-KeysBelow floor top [] b = tt
live-KeysBelow floor top (e ∷ es) b = elim (Bool-cases (ltb floor e.index)) [
  | inl above ↦ rw above (b.0, live-KeysBelow floor top es b.1)
  | inr below ↦ rw below (live-KeysBelow floor top es b.1)
]

not_snapshot : (enc : Encoding) (p : EntryPayload) → IsStorablePayload enc p → is_snapshot p ≡ false
not_snapshot enc (EntryPayload.command b) h = refl
not_snapshot enc EntryPayload.no_op h = refl
not_snapshot enc (EntryPayload.config_change vs) h = refl
not_snapshot enc (EntryPayload.snapshot m) h = absurd h

next_no_snapshot :
    (enc : Encoding) (floor last : ℕ) (es : List Entry)
    → IsNext enc floor last es
    → any_snapshot es ≡ false
unfolding any_snapshot
next_no_snapshot enc floor last [] n = refl
next_no_snapshot enc floor last (e ∷ es) n =
    rw (not_snapshot enc e.payload n.2.payload_lem) (next_no_snapshot enc floor e.index es n.3)

-- What `append` leaves in memory.
abbrev pub appended : MemoryLogStore → List Entry → MemoryLogStore
appended m es = record m { epoch_starts = note_epochs m.epoch_starts es; entries = m.entries ++ es }

appended-twice :
    (m : MemoryLogStore) (e : Entry) (es : List Entry)
    → appended (appended m (e ∷ [])) es ≡ appended m (e ∷ es)
unfolding note_epochs
appended-twice m e es = rw (append_assoc m.entries (e ∷ []) es) refl

-- One entry.
append_one-Refines :
    (enc : Encoding) (m : MemoryLogStore) (s : FileLogStore) (logs : Logs) (e : Entry)
    → Refines enc m s logs
    → s.first_valid_index < e.index
    → last_index_from 0 s.entries < e.index
    → IsStorable enc e
    → (left : Logs) × Refines enc (appended m (e ∷ [])) (append_one enc s e) left
      × ((append_one enc s e).first_valid_index ≡ s.first_valid_index)
      × (last_index_from 0 (append_one enc s e).entries ≡ e.index)
append_one-Refines enc m s logs e r hf hl st =
    let floor = s.first_valid_index in
    let (es, os) = stored_maps enc logs s r.stored r.sorted in
    let behind : end_of 0 logs < e.index =
      omega (arith, end_of-live floor logs r.filled, ap (last_index_from 0) es, hf, hl) in
    let below : KeysBelow entry_key e.index s.entries =
      subst (KeysBelow entry_key e.index) (sym es) (
        live-KeysBelow floor e.index (flat logs)
          (sorted-KeysBelow 0 e.index logs r.sorted behind)) in
    let (grown, a) = append_one-IsAppended enc logs s e r.stored r.settled st hf below in
    (
      add_last e grown,
      record {
        stored = a.stored;
        sorted = HasRoom-IsSorted enc logs grown e a.placed r.sorted behind;
        filled = HasRoom-IsFilled enc logs grown e a.placed r.filled;
        settled = a.settled;
        same_entries = a.new_entries ∙ ap (λ l. l ++ (e ∷ [])) r.same_entries;
        same_epochs =
            ap (λ l. note_epochs l (e ∷ [])) r.same_epochs
            ∙ sym (note_epochs-append m.entries (e ∷ []) []);
        same_anchor = a.old_anchor ∙ r.same_anchor;
      },
      a.old_floor,
      ap (last_index_from 0) a.new_entries ∙ last_snoc 0 s.entries e,
    )

append-accepts :
    (enc : Encoding) (s : FileLogStore) (e : Entry) (es : List Entry)
    → is_snapshot e.payload ≡ false
    → append enc s (e ∷ es) ≡ append enc (append_one enc s e) es
unfolding append
append-accepts enc s e es h = rw (h, append) refl

appends-Refines :
    (enc : Encoding) (m : MemoryLogStore) (s : FileLogStore) (logs : Logs) (es : List Entry)
    (floor last : ℕ)
    → Refines enc m s logs
    → s.first_valid_index ≡ floor
    → last_index_from 0 s.entries ≡ last
    → IsNext enc floor last es
    → (left : Logs) × Refines enc (appended m es) (append enc s es).0 left
      × ((append enc s es).1 ≡ none)
unfolding append note_epochs
appends-Refines enc m s logs [] floor last r hf hl n =
    (logs, subst (λ t. Refines enc t s logs) (rw (append-nil m.entries) refl) r, refl)
appends-Refines enc m s logs (e ∷ es) floor last r hf hl n =
    let (grown, r1, f1, l1) =
      append_one-Refines enc m s logs e r (omega (arith, hf, n.0)) (omega (arith, hl, n.1)) n.2 in
    let (left, r2, accepted) =
      appends-Refines enc (appended m (e ∷ [])) (append_one enc s e) grown es floor e.index r1
        (f1 ∙ hf) l1 n.3 in
    let stepped : append enc s (e ∷ es) ≡ append enc (append_one enc s e) es =
      append-accepts enc s e es (not_snapshot enc e.payload n.2.payload_lem) in
    (
      left,
      subst (λ t. Refines enc (appended m (e ∷ es)) t.0 left) (sym stepped)
          (subst (λ t. Refines enc t (append enc (append_one enc s e) es).0 left)
            (appended-twice m e es) r2),
      ap (λ (t : FileLogStore × Option StorageError). t.1) stepped ∙ accepted,
    )

-- A list of entries that follow the log.
pub append-Refines :
    (enc : Encoding) (m : MemoryLogStore) (s : FileLogStore) (logs : Logs) (es : List Entry)
    → Refines enc m s logs
    → IsNext enc s.first_valid_index (last_index_from 0 s.entries) es
    → (left : Logs) × Refines enc
        (or_same m (failover_cluster.LogStore.append m es))
        (append enc s es).0
        left
      × ((append enc s es).1 ≡ none)
append-Refines enc m s logs es r n =
    let clean = next_no_snapshot enc s.first_valid_index (last_index_from 0 s.entries) es n in
    let (left, r1, accepted) = appends-Refines enc m s logs es _ _ r refl refl n in
    let made : or_same m (failover_cluster.LogStore.append m es) ≡ appended m es =
      unfold failover_cluster.LogStore.append in rw clean refl in
    (left, subst (λ t. Refines enc t (append enc s es).0 left) (sym made) r1, accepted)
