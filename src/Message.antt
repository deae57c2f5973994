-- ===== src/Message.antt =====
-- xraft-core/src/message.rs: log entries, the RPCs, and the engine's inputs and actions.
use failover_cluster.Prelude.{ℕ, String, List, Option, Bool}
use failover_cluster.Types.{VoterSet, SnapshotMeta}

-- A command is its bytes.
pub data EntryPayload : Type 0 where
  command : List ℕ → EntryPayload
  no_op : EntryPayload
  config_change : VoterSet → EntryPayload
  snapshot : SnapshotMeta → EntryPayload

pub record Entry : Type 0 where
  pub index : ℕ
  pub term : ℕ
  pub payload : EntryPayload

pub record VoteRequest : Type 0 where
  pub cluster_id : String
  pub leader_epoch : ℕ
  pub term : ℕ
  pub candidate_id : ℕ
  pub last_log_index : ℕ
  pub last_log_term : ℕ

pub record VoteResponse : Type 0 where
  pub cluster_id : String
  pub leader_epoch : ℕ
  pub term : ℕ
  pub vote_granted : Bool
  pub leader_hint : Option ℕ

pub record PreVoteRequest : Type 0 where
  pub cluster_id : String
  pub leader_epoch : ℕ
  pub next_term : ℕ
  pub candidate_id : ℕ
  pub last_log_index : ℕ
  pub last_log_term : ℕ

pub record PreVoteResponse : Type 0 where
  pub cluster_id : String
  pub leader_epoch : ℕ
  pub term : ℕ
  pub vote_granted : Bool
  pub leader_hint : Option ℕ

pub record FetchRequest : Type 0 where
  pub cluster_id : String
  pub leader_epoch : ℕ
  pub replica_id : ℕ
  pub fetch_offset : ℕ
  pub last_fetched_epoch : ℕ

pub record DivergingEpoch : Type 0 where
  pub epoch : ℕ
  pub end_offset : ℕ

pub record SnapshotRedirect : Type 0 where
  pub snapshot_id : String
  pub last_included_index : ℕ
  pub last_included_term : ℕ

pub record FetchResponse : Type 0 where
  pub cluster_id : String
  pub leader_epoch : ℕ
  pub leader_id : ℕ
  pub high_watermark : ℕ
  pub entries : List Entry
  pub diverging_epoch : Option DivergingEpoch
  pub snapshot_redirect : Option SnapshotRedirect
  pub is_leader : Bool

pub record FetchSnapshotRequest : Type 0 where
  pub cluster_id : String
  pub leader_epoch : ℕ
  pub replica_id : ℕ
  pub snapshot_id : String
  pub offset : ℕ
  pub max_bytes : ℕ

pub data OutboundMessage : Type 0 where
  vote_request : VoteRequest → OutboundMessage
  vote_response : VoteResponse → OutboundMessage
  pre_vote_request : PreVoteRequest → OutboundMessage
  pre_vote_response : PreVoteResponse → OutboundMessage
  fetch_request : FetchRequest → OutboundMessage
  fetch_response : FetchResponse → OutboundMessage
  fetch_snapshot_request : FetchSnapshotRequest → OutboundMessage

-- `suffix_from_inclusive from` drops the entries at or after `from`; `prefix_through_inclusive
-- through` those at or before `through`.
pub data LogTruncation : Type 0 where
  suffix_from_inclusive : ℕ → LogTruncation
  prefix_through_inclusive : ℕ → LogTruncation

pub record ServeFetch : Type 0 where
  pub to : ℕ
  pub cluster_id : String
  pub leader_epoch : ℕ
  pub leader_id : ℕ
  pub high_watermark : ℕ
  pub fetch_offset : ℕ
  pub last_fetched_epoch : ℕ

pub record RedirectToSnapshot : Type 0 where
  pub to : ℕ
  pub cluster_id : String
  pub leader_epoch : ℕ
  pub leader_id : ℕ
  pub high_watermark : ℕ
  pub snapshot_metadata : SnapshotMeta

-- The struct variants `ServeFetch` and `RedirectToSnapshot` carry a record of their fields; those
-- with two fields take them in order.
pub data Action : Type 0 where
  persist_hard_state : Action
  append_entries : List Entry → Action
  send_message : ℕ → OutboundMessage → Action
  apply_to_state_machine : ℕ → ℕ → Action
  take_snapshot : ℕ → Action
  install_snapshot : SnapshotMeta → List ℕ → Action
  become_leader : Action
  step_down : Action
  serve_fetch : ServeFetch → Action
  redirect_to_snapshot : RedirectToSnapshot → Action
  truncate_log : LogTruncation → Action

-- In `vote_response from response`, and the other pairs, the fields are in the source's order.
pub data Input : Type 0 where
  tick : Input
  vote_request : VoteRequest → Input
  vote_response : ℕ → VoteResponse → Input
  pre_vote_request : PreVoteRequest → Input
  pre_vote_response : ℕ → PreVoteResponse → Input
  fetch_request : FetchRequest → Input
  fetch_response : FetchResponse → Input
  client_propose : List ℕ → Input
  fetch_request_acked : ℕ → ℕ → Input
  snapshot_complete : SnapshotMeta → Input
  snapshot_installed : SnapshotMeta → Input
  fetch_snapshot_received : SnapshotMeta → List ℕ → Input
