-- ===== src/FileLog/Codec.antt =====
-- xraft-storage/src/log.rs, the frame codec: a frame is the length of its data, the data and their
-- checksum.
use failover_cluster.Types.{VoterSet}
use failover_cluster.Prelude.{
  Option, [], length, ltb, none, saturating_sub, some, ℕ, if◌then◌else◌, ◌++◌, ◌+◌, ◌<◌, ◌∷◌, ◌==◌,
  inl, inr, refl, ◌≢◌, ◌⊎◌, ◌≡◌, arith,
}
use failover_cluster.Message.{Entry, EntryPayload}
use failover_cluster.FileLog.Bytes.{Bytes, from_le_bytes, slice, to_le_bytes, words}

-- The code outside the repository: `Crc32Hasher` of the crc32fast crate, which gives a `u32`, and
-- `bincode` on a `VoterSet`, which fails on bytes that it cannot read.
pub record Encoding : Type 0 where
  pub crc32_of : Bytes → ℕ
  pub serialize : VoterSet → Bytes
  pub deserialize : Bytes → Option VoterSet
  pub crc32_of_lt : (bs : Bytes) → crc32_of bs < words 4

-- The reasons for `XRaftError::Storage`, one for each message of log.rs.
pub data StorageError : Type 0 where
  missing_data_len : StorageError
  incomplete_body : StorageError
  crc_mismatch : StorageError
  entry_too_short : StorageError
  payload_truncated : StorageError
  snapshot_in_wal : StorageError
  snapshot_not_written : StorageError
  voter_set_decode : StorageError
  unknown_tag : StorageError
  wrong_length : StorageError

pub data Result {ℓ} (A : Type ℓ) : Type ℓ where
  ok : A → Result A
  err : StorageError → Result A

pub ok≢err {ℓ} : {A : Type ℓ} (a : A) (e : StorageError) → ok a ≢ err e
ok≢err a e h = ground arith

pub Result-cases {ℓ} :
    {A : Type ℓ} (r : Result A) → ((a : A) × (r ≡ ok a)) ⊎ ((e : StorageError) × (r ≡ err e))
Result-cases (ok a) = inl (a, refl)
Result-cases (err e) = inr (e, refl)

-- `ENTRY_HEADER_LEN`: index(8) + term(8) + tag(1) + payload_len(4).
abbrev pub entry_header_len : ℕ
entry_header_len = 21

abbrev pub to_config_change : Option VoterSet → Result EntryPayload
to_config_change none = err voter_set_decode
to_config_change (some vs) = ok (EntryPayload.config_change vs)

abbrev pub with_payload : ℕ → ℕ → Result EntryPayload → Result Entry
with_payload index term (err e) = err e
with_payload index term (ok p) = ok record { index = index; term = term; payload = p }

abbrev pub to_frame : Result Entry → ℕ → Result (Entry × ℕ)
to_frame (err e) after = err e
to_frame (ok entry) after = ok (entry, after)

-- A length `as u32` keeps its low 32 bits, as does `to_le_bytes 4`.
abbrev pub tagged : Entry → Option (ℕ × Bytes) → Option Bytes
tagged entry none = none
tagged entry (some (tag, payload)) = some (
    to_le_bytes 8 entry.index
    ++ (to_le_bytes 8 entry.term ++ ((tag ∷ []) ++ (to_le_bytes 4 (length payload) ++ payload))))

module _ (enc : Encoding) where
  -- The tag and the bytes of a payload; `none` is the panic on a snapshot marker.
  unfoldable pub payload_bytes : EntryPayload → Option (ℕ × Bytes)
  payload_bytes EntryPayload.no_op = some (0, [])
  payload_bytes (EntryPayload.command b) = some (1, b)
  payload_bytes (EntryPayload.snapshot m) = none
  payload_bytes (EntryPayload.config_change vs) = some (3, enc.serialize vs)

  unfoldable pub serialize_entry : Entry → Option Bytes
  serialize_entry entry = tagged entry (payload_bytes entry.payload)

  unfoldable pub decode_payload : ℕ → Bytes → Result EntryPayload
  decode_payload tag bytes =
      if tag == 0
      then ok EntryPayload.no_op
      else if tag == 1
      then ok (EntryPayload.command bytes)
      else if tag == 2
      then err snapshot_in_wal
      else if tag == 3
      then to_config_change (enc.deserialize bytes)
      else err unknown_tag

  unfoldable pub deserialize_entry : Bytes → Result Entry
  deserialize_entry bytes =
      let payload_len = from_le_bytes (slice bytes 17 21) in
      if ltb (length bytes) entry_header_len
      then err entry_too_short
      else if ltb (length bytes) (entry_header_len + payload_len)
      then err payload_truncated
      else with_payload (from_le_bytes (slice bytes 0 8)) (from_le_bytes (slice bytes 8 16)) (
          decode_payload (from_le_bytes (slice bytes 16 17))
            (slice bytes entry_header_len (entry_header_len + payload_len)))

  unfoldable pub frame_of : Bytes → Bytes
  frame_of bytes = to_le_bytes 4 (length bytes) ++ (bytes ++ to_le_bytes 4 (enc.crc32_of bytes))

  abbrev pub framed : Option Bytes → Option Bytes
  framed none = none
  framed (some bytes) = some (frame_of bytes)

  -- `none` is the panic of `serialize_entry`.
  unfoldable pub encode_frame : Entry → Option Bytes
  encode_frame entry = framed (serialize_entry entry)

  unfoldable pub decode_frame : Bytes → ℕ → Result (Entry × ℕ)
  decode_frame buf offset =
      let remaining = saturating_sub (length buf) offset in
      let data_len = from_le_bytes (slice buf offset (offset + 4)) in
      let total = 4 + data_len + 4 in
      let data_start = offset + 4 in
      let data_end = data_start + data_len in
      let bytes = slice buf data_start data_end in
      let stored_crc = from_le_bytes (slice buf data_end (data_end + 4)) in
      if ltb remaining 4
      then err missing_data_len
      else if ltb remaining total
      then err incomplete_body
      else if stored_crc == enc.crc32_of bytes
      then to_frame (deserialize_entry bytes) (offset + total)
      else err crc_mismatch

-- The frame of an entry; empty where encoding panics.
abbrev pub or_empty : Option Bytes → Bytes
or_empty none = []
or_empty (some bs) = bs

unfoldable pub frame : Encoding → Entry → Bytes
frame enc entry = or_empty (encode_frame enc entry)
