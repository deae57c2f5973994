-- ===== src/FileLog/Entries.antt =====
-- What `serialize_entry` writes, read back by `deserialize_entry`.
use mathlib.Core.Option.{some-injective}
use failover_cluster.Prelude.{
  [], arith, length, length-append, refl, some, ℕ, ◌∷◌, ◌<◌, ◌∙◌, ◌≡◌, ◌++◌, ◌+◌, ◌≤◌, ap, sym,
  not_ltb,
}
use failover_cluster.Message.{Entry, EntryPayload}
use failover_cluster.FileLog.Codec.{
  Encoding, decode_payload, deserialize_entry, with_payload, ok, payload_bytes, serialize_entry,
  tagged,
}
use failover_cluster.FileLog.Bytes.{
  Bytes, from_le_bytes, from_le_bytes-to_le_bytes, length-to_le_bytes, slice, slice_first,
  slice_skip, to_le_bytes, words, slice_whole,
}

abbrev pub IsStorablePayload : Encoding → EntryPayload → Type 0
IsStorablePayload enc EntryPayload.no_op = Unit
IsStorablePayload enc (EntryPayload.command b) = length b + 21 < words 4
IsStorablePayload enc (EntryPayload.snapshot m) = ⊥
IsStorablePayload enc (EntryPayload.config_change vs) =
    (enc.deserialize (enc.serialize vs) ≡ some vs) × (length (enc.serialize vs) + 21 < words 4)

-- The numbers fit their words, the payload's length too, it is no snapshot marker, and `bincode`
-- reads back the voter set that it holds.
pub record IsStorable (enc : Encoding) (entry : Entry) : Type 0 where
  pub index_lt : entry.index < words 8
  pub term_lt : entry.term < words 8
  pub payload_lem : IsStorablePayload enc entry.payload

module _ (enc : Encoding) where
  deserialize_entry-fields :
      (i t tag : ℕ) (p : Bytes)
      → i < words 8
      → t < words 8
      → length p + 21 < words 4
      → deserialize_entry enc
          (to_le_bytes 8 i ++ (to_le_bytes 8 t ++ ((tag ∷ []) ++ (to_le_bytes 4 (length p) ++ p))))
        ≡ with_payload i t (decode_payload enc tag p)
  unfolding deserialize_entry
  deserialize_entry-fields i t tag p hi ht hp =
      let l4 = to_le_bytes 4 (length p) in
      let l8 = to_le_bytes 8 t in
      let i8 = to_le_bytes 8 i in
      let ni = length-to_le_bytes 8 i in
      let nt = length-to_le_bytes 8 t in
      let n4 = length-to_le_bytes 4 (length p) in
      let bs = i8 ++ (l8 ++ ((tag ∷ []) ++ (l4 ++ p))) in
      let e1 : slice bs 0 8 ≡ i8 = slice_first 8 i8 _ ni in
      let e2 : slice bs 8 16 ≡ l8 =
        slice_skip 8 i8 _ 8 16 0 8 ni refl refl ∙ slice_first 8 l8 _ nt in
      let e3 : slice bs 16 17 ≡ tag ∷ [] =
        slice_skip 8 i8 _ 16 17 8 9 ni refl refl
        ∙ (slice_skip 8 l8 _ 8 9 0 1 nt refl refl ∙ slice_first 1 (tag ∷ []) _ refl) in
      let e4 : slice bs 17 21 ≡ l4 =
        slice_skip 8 i8 _ 17 21 9 13 ni refl refl
        ∙ (slice_skip 8 l8 _ 9 13 1 5 nt refl refl
            ∙ (slice_skip 1 (tag ∷ []) _ 1 5 0 4 refl refl refl ∙ slice_first 4 l4 p n4)) in
      let n = length p in
      let e5 : slice bs 21 (21 + n) ≡ p =
        slice_skip 8 i8 _ 21 (21 + n) 13 (13 + n) ni refl (omega arith)
        ∙ (slice_skip 8 l8 _ 13 (13 + n) 5 (5 + n) nt refl (omega arith)
            ∙ (slice_skip 1 (tag ∷ []) _ 5 (5 + n) 4 (4 + n) refl refl (omega arith)
                ∙ (slice_skip 4 l4 p 4 (4 + n) 0 n n4 refl (omega arith)
                    ∙ slice_whole n p refl))) in
      let f1 = from_le_bytes-to_le_bytes 8 i hi in
      let f2 = from_le_bytes-to_le_bytes 8 t ht in
      let f4 = from_le_bytes-to_le_bytes 4 (length p) (omega arith) in
      let f3 : from_le_bytes (tag ∷ []) ≡ tag = unfold from_le_bytes in omega arith in
      let size : length bs ≡ 21 + length p =
        length-append i8 _
        ∙ omega
            (arith, ni, nt, n4, length-append l8 ((tag ∷ []) ++ (l4 ++ p)), length-append l4 p) in
      let long_enough = not_ltb (length bs) 21 (omega arith) in
      let all_there = not_ltb (length bs) (21 + n) (omega (arith, size)) in
      rw (e1, e2, e3, e4, f4, e5, f1, f2, f3, long_enough, all_there) refl

  tagged_size :
      (entry : Entry) (tag : ℕ) (p bs : Bytes)
      → tagged entry (some (tag, p)) ≡ some bs
      → length bs ≡ 21 + length p
  tagged_size entry tag p bs e =
      let size =
        length-append (to_le_bytes 8 entry.index)
          (to_le_bytes 8 entry.term ++ ((tag ∷ []) ++ (to_le_bytes 4 (length p) ++ p))) in
      let later =
        length-append (to_le_bytes 8 entry.term) ((tag ∷ []) ++ (to_le_bytes 4 (length p) ++ p)) in
      ap length (sym (some-injective _ _ e))
      ∙ omega (
        arith,
        size,
        later,
        length-append (to_le_bytes 4 (length p)) p,
        length-to_le_bytes 8 entry.index,
        length-to_le_bytes 8 entry.term,
        length-to_le_bytes 4 (length p),
      )

  -- What `serialize_entry` gives for an entry, and that it is read back.
  abbrev pub IsSerialized : Entry → Bytes → Type 0
  IsSerialized entry bs =
      (serialize_entry enc entry ≡ some bs)
      × (21 ≤ length bs)
      × (length bs < words 4)
      × (deserialize_entry enc bs ≡ ok entry)

  pub serialized :
      (i t : ℕ) (p : EntryPayload)
      → i < words 8
      → t < words 8
      → IsStorablePayload enc p
      → (bs : Bytes) × IsSerialized record { index = i; term = t; payload = p } bs
  unfolding serialize_entry payload_bytes
  serialized i t EntryPayload.no_op hi ht hp =
      let size =
        tagged_size record { index = i; term = t; payload = EntryPayload.no_op } 0 [] _ refl in
      (
        _,
        (
          refl,
          omega (arith, size),
          omega (arith, size),
          deserialize_entry-fields i t 0 [] hi ht (omega arith) ∙ (unfold decode_payload in refl),
        ),
      )
  serialized i t (EntryPayload.command b) hi ht hp =
      let size =
        tagged_size record { index = i; term = t; payload = EntryPayload.command b } 1 b _ refl in
      (
        _,
        (
          refl,
          omega (arith, size),
          omega (arith, size),
          deserialize_entry-fields i t 1 b hi ht hp ∙ (unfold decode_payload in refl),
        ),
      )
  serialized i t (EntryPayload.snapshot m) hi ht hp = absurd hp
  serialized i t (EntryPayload.config_change vs) hi ht hp =
      let size =
        tagged_size record { index = i; term = t; payload = EntryPayload.config_change vs } 3
          (enc.serialize vs) _ refl in
      (
        _,
        (
          refl,
          omega (arith, size),
          omega (arith, size),
          deserialize_entry-fields i t 3 (enc.serialize vs) hi ht hp.1
              ∙ (unfold decode_payload in rw hp.0 refl),
        ),
      )
