-- ===== src/Lib.antt =====
-- The consensus engine of xraft, a Raft implementation in the style of KRaft, in Rust: the crate
-- xraft-core, above all xraft-core/src/node.rs; and, of the crate xraft-storage, the two logs of
-- xraft-storage/src/log.rs and the hard state of xraft-storage/src/hard_state.rs.
--
-- The engine is a state machine without input or output of its own. A driver hands it one `Input` at
-- a time (a tick, an RPC, a proposal, a word from storage); `RaftNode::step` changes the node and
-- returns `Action`s in the order in which the driver has to perform them: persist the hard state,
-- append entries, send a message, apply a range, take, install or redirect to a snapshot. A method of
-- the source is a function from the node to the new node and its actions; one that takes `&self`
-- returns its answer alone. What follows a guard in the source follows it here, and the parts of a
-- long handler have names of their own.
--
-- The parts, by file:
--   Types, Message, Config  the scalar types, entries, RPCs, inputs, actions, and the settings read
--                           (xraft-core/src/message.rs, storage.rs, config.rs)
--   Timer                   `ElectionTimer` and `pick_in_range`
--   Peers, Votes            `PeerState`, the map of peers, the sets of votes
--   Node                    `RaftNode` and its accessors; Node/Init is `new_with_seed`
--   Node/Quorum             the election, Check-Quorum and lease tests
--   Node/Commit             `try_advance_commit_index`, `maybe_apply`, `maybe_take_snapshot`,
--                           `drain_apply_pipeline`
--   Node/Roles              `become_follower`, `become_pre_candidate`, `become_candidate`,
--                           `become_leader`
--   Node/Election           the vote and pre-vote handlers
--   Node/Fetch              `handle_fetch_request`, `handle_fetch_request_acked`,
--                           `handle_client_propose`
--   Node/Replicate          `handle_fetch_response`
--   Node/Snapshot           the snapshot handlers
--   Node/Tick, Node/Step    `handle_tick`; `step`, and runs of inputs
--   Config/Validate         `ClusterConfig::validate` and `build_voter_set` (xraft-core/src/config.rs), on
--                           the texts of Config/Text; Config/Usable says what it accepts,
--                           Config/Address and Endpoints what an address is, and Start/Seeded is
--                           about `new_with_seed`, from such settings
--   LogStore                `MemoryLogStore` and `end_offset_lookup` (xraft-storage/src/log.rs)
--   FileLog/Codec           the frames of `FileLogStore` (xraft-storage/src/log.rs); Bytes has the words
--                           and slices; Entries, RoundTrip and RoundTrip/Torn read back entries and frames
--   FileLog/Recovery        `recover_segment` and `recover`; Loop and Replay are about it
--   FileLog/Sidecars        the files beside the segments
--   FileLog/Store, Trim, Open
--                           the store and `append`; `truncate_from`, `purge_prefix` and the snapshot
--                           anchor; opening and reading
--   FileLog/Consistent      that memory and directory agree, and that each operation keeps it so;
--                           Consistent/Truncate also follows a truncation call by call
--   FileLog/Refinement      the file log against the memory log, over runs of operations and restarts
--   HardState               both hard-state stores; HardState/Restart is about runs with restarts
-- A `Cases` module beside a component has one lemma per handler, which splits a statement about its
-- result into the handler's ways through; a `Frame` module says which fields a part leaves alone. The
-- other files are about the whole engine: Ballot (term and vote), Durability (persistence before
-- messages), Watermarks (the order of the log positions), Effects (the actions, replayed by an
-- executor, in runs that mirror the log's end into the node: Effects/Driven), Candidacy,
-- Backing and Leadership (votes and roles), Elections (the grants), Replication, Leases,
-- Observers, Snapshots, Start, and Cluster (the steps of several nodes, in any order). Tests
-- has the theorems at concrete nodes.
--
-- Numbers: `u64` values are natural numbers; each `saturating_add` stops at `u64::MAX` as in the
-- source, and each bound on a `u64` that a theorem needs is a hypothesis or part of its invariant.
-- Every loop of the engine is over a list or a map. The loop of `recover_segment` runs on a number of
-- rounds, the length of the file: each round that decodes a frame goes forward, so that this is enough
-- (FileLog/Recovery/Loop).
--
-- Files: a byte string is a list of numbers below 256. A directory is its segment files, in the order
-- of their names, and its sidecar files. The vector `segments` of the source has one element for each
-- file, and is that list. File-system calls succeed; what a crash leaves is what the calls before it
-- did, and a failing call returns with the directory as a crash there would leave it. An atomic
-- replacement (a temporary file and a rename) is one step in the log store; in the hard-state store its
-- two steps are separate, since `open` there looks at what an interrupted one leaves.
--
-- Parameters: the `rand` crate is the instance `Rand`, over any generator state, with the documented
-- range of `gen_range`. The voter set has no code in the repository: it is a record of its methods'
-- answers, which the theorems take as they are or as `IsLawful`, what node.rs documents of them. The
-- map of peers is an association list, in the order in which it is visited. `Encoding` is the CRC of
-- the crc32fast crate, any function into `u32`, and bincode on a voter set; where a theorem needs that
-- a voter set is read back, the entry's `IsStorable` says so. `Json` is serde_json with its text, over
-- any type of texts, with its round trip. `Externals` is `Uuid::parse_str`, `VoterSet::try_new` and
-- Unicode's lower case, any functions.
--
-- Not modelled: logging; a restart of the engine from its stores; reading the configuration from
-- its file and environment; the wire format; the leader-epoch-checkpoint file, which `open` parses, compares for
-- the log and writes again from the recovered entries, so that no answer depends on what it holds; a
-- segment whose name exists already, which `create_segment` would append to and list twice (the last
-- segment empty after a crash, and then an entry larger than a whole segment); the snapshot store; and
-- the driver, server, client and transport crates, which are input and output or are still to come.
mod Prelude
pub mod Types
pub mod Message
pub mod Config
pub mod Timer
pub mod Peers
pub mod Votes
pub mod Node
pub mod Ballot
pub mod Durability
pub mod Watermarks
pub mod Candidacy
pub mod Leadership
pub mod Start
pub mod Elections
pub mod Observers
pub mod Effects
pub mod Replication
pub mod Leases
pub mod Snapshots
pub mod Tests
pub mod LogStore
pub mod Backing
pub mod Cluster
pub mod FileLog
pub mod HardState
