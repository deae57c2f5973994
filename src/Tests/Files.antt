-- ===== src/Tests/Files.antt =====
-- The codec, the recovery and the hard state on concrete files.
use failover_cluster.FileLog.Consistent.Live.{live, live_offsets}
use failover_cluster.HardState.Restart.{
  hard_run, hard_run-remembers, last_state, last_voters, recalled, restart_with, write_state,
  write_voters,
}
use failover_cluster.HardState.{
  FileHardStateStore, Json, OnDiskQuorumState, empty_dir, load, open_store,
}
use failover_cluster.FileLog.Recovery.Loop.{recover_frames-enough}
use failover_cluster.FileLog.Recovery.{Recovered, recover_frames, recover_segment}
use failover_cluster.FileLog.Consistent.Torn.{recover_segment-torn}
use failover_cluster.FileLog.Recovery.Replay.{IsTorn, frames}
use failover_cluster.Prelude.{
  [], arith, length, refl, some, ℕ, ◌++◌, ◌+◌, ◌<◌, ◌∷◌, ◌==◌, ◌≡◌, ◌≤◌, ◌%◌, true, none,
}
use failover_cluster.Types.{VoterSet, HardState}
use failover_cluster.FileLog.RoundTrip.{decode_frame-encode_frame}
use failover_cluster.FileLog.Entries.{IsStorable}
use failover_cluster.Message.{Entry, EntryPayload}
use failover_cluster.FileLog.Codec.{
  Encoding, decode_frame, encode_frame, frame, frame_of, ok, payload_bytes, serialize_entry,
  StorageError,
}
use failover_cluster.FileLog.Bytes.{Bytes, to_le_bytes, words}

unfoldable pub sum : Bytes → ℕ
sum [] = 0
sum (b ∷ bs) = b + sum bs

abbrev some_voters : VoterSet
some_voters = record {
  voters = 1 ∷ [];
  contains_node = λ id. id == 1;
  unique_node_count = 1;
  quorum_size = 1;
}

pub sum_lt : (bs : Bytes) → sum bs % words 4 < words 4
sum_lt bs = omega arith

abbrev pub plain : Encoding
plain = record {
  crc32_of = λ bs. sum bs % words 4;
  serialize = λ vs. 7 ∷ [];
  deserialize = λ bs. some some_voters;
  crc32_of_lt = sum_lt;
}

abbrev pub first_entry : Entry
first_entry = record { index = 1; term = 1; payload = EntryPayload.command (104 ∷ 105 ∷ []) }

abbrev pub second_entry : Entry
second_entry = record { index = 2; term = 1; payload = EntryPayload.no_op }

abbrev pub other_entry : Entry
other_entry = record { index = 2; term = 3; payload = EntryPayload.command (33 ∷ []) }

pub first_entry-IsStorable : IsStorable plain first_entry
first_entry-IsStorable = record {
  index_lt = omega arith;
  term_lt = omega arith;
  payload_lem = omega arith;
}

pub second_entry-IsStorable : IsStorable plain second_entry
second_entry-IsStorable = record { index_lt = omega arith; term_lt = omega arith; payload_lem = tt }

pub other_entry-IsStorable : IsStorable plain other_entry
other_entry-IsStorable = record {
  index_lt = omega arith;
  term_lt = omega arith;
  payload_lem = omega arith;
}

decode_frame-encode_frame_example :
    (frame : Bytes) × (encode_frame plain first_entry ≡ some frame)
    × (29 ≤ length frame)
    × ((pre rest : Bytes)
        → decode_frame plain (pre ++ (frame ++ rest)) (length pre)
          ≡ ok (first_entry, length pre + length frame))
decode_frame-encode_frame_example =
    decode_frame-encode_frame plain first_entry first_entry-IsStorable

-- The bytes of a frame.
encoded :
    encode_frame plain second_entry
    ≡ some (
        21 ∷ 0 ∷ 0 ∷ 0 ∷ 2 ∷ 0 ∷ 0 ∷ 0 ∷ 0 ∷ 0 ∷ 0 ∷ 0 ∷ 1 ∷ 0 ∷ 0 ∷ 0 ∷ 0 ∷ 0 ∷ 0 ∷ 0 ∷ 0 ∷ 0 ∷ 0
        ∷ 0 ∷ 0 ∷ 3 ∷ 0 ∷ 0 ∷ 0 ∷ [])
unfolding encode_frame frame_of serialize_entry payload_bytes to_le_bytes sum
encoded = refl

recover_frames-enough_example :
    recover_frames plain 0 0 true (1 ∷ 2 ∷ 3 ∷ []) 9 record { entries = []; offsets = [] } 0
    ≡ recover_segment plain 0 0 true (1 ∷ 2 ∷ 3 ∷ []) record { entries = []; offsets = [] }
recover_frames-enough_example =
    recover_frames-enough plain 0 0 true (1 ∷ 2 ∷ 3 ∷ []) 9 record { entries = []; offsets = [] }
      (omega arith)

-- Ten bytes of the second frame were written.
abbrev torn : Bytes
torn = 21 ∷ 0 ∷ 0 ∷ 0 ∷ 2 ∷ 0 ∷ 0 ∷ 0 ∷ 0 ∷ 0 ∷ []

abbrev missing : Bytes
missing = 0 ∷ 0 ∷ 1 ∷ 0 ∷ 0 ∷ 0 ∷ 0 ∷ 0 ∷ 0 ∷ 0 ∷ 0 ∷ 0 ∷ 0 ∷ 0 ∷ 0 ∷ 3 ∷ 0 ∷ 0 ∷ 0 ∷ []

second_entry-IsTorn : IsTorn plain second_entry torn missing
unfolding frame encode_frame frame_of serialize_entry payload_bytes to_le_bytes sum
second_entry-IsTorn = record {
  parts = refl;
  some_written = omega arith;
  some_missing = omega arith;
}

abbrev none_yet : Recovered
none_yet = record { entries = []; offsets = [] }

recover_segment-torn_example :
    (reason : StorageError) × (recover_segment plain 0 4 true
        (frames plain (first_entry ∷ []) ++ torn)
        none_yet
      ≡ ok (
        record {
          entries = live 0 (first_entry ∷ []);
          offsets = live_offsets plain 0 4 0 (first_entry ∷ []);
        },
        length (frames plain (first_entry ∷ [])),
      ))
recover_segment-torn_example =
    recover_segment-torn plain 0 4 0 true (first_entry ∷ []) second_entry torn missing none_yet
      (first_entry-IsStorable, tt) second_entry-IsStorable second_entry-IsTorn (omega arith, tt)
      (tt, tt)

-- A text is the record that it stands for.
abbrev texts : Json OnDiskQuorumState
texts = record {
  to_string_pretty = λ d. d;
  from_str = λ d. some d;
  from_str-to_string_pretty = λ d. refl;
}

abbrev voted : HardState
voted = record { current_term = 3; voted_for = some 2; commit_index = 0 }

hard_run-remembers_example :
    (s : FileHardStateStore OnDiskQuorumState) × (hard_run ⦃json = texts⦄
        (open_store ⦃json = texts⦄ empty_dir)
        (write_state voted ∷ write_voters some_voters ∷ restart_with none ∷ [])
      ≡ some s)
    × (load s.cached ≡ some voted)
    × (s.cached.voter_set ≡ some some_voters)
unfolding last_state last_voters recalled
hard_run-remembers_example =
    hard_run-remembers ⦃json = texts⦄
      (write_state voted ∷ write_voters some_voters ∷ restart_with none ∷ [])
