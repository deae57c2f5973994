-- ===== src/Node/Replicate.antt =====
-- xraft-core/src/node.rs, `handle_fetch_response`: the follower's side of a fetch.
pub mod Cases
pub mod Frame
use failover_cluster.Prelude.{
  ℕ, Bool, true, false, ◌&&◌, not, List, [], ◌∷◌, ◌++◌, Option, none, some, ltb, ◌==◌,
  if◌then◌else◌, saturating_add, str_eq, min,
}
use failover_cluster.Types.{is_leader_role, is_fetching}
use failover_cluster.Message.{
  Entry, Action, append_entries, send_message, truncate_log, suffix_from_inclusive, OutboundMessage,
  FetchRequest, FetchResponse, FetchSnapshotRequest, DivergingEpoch, SnapshotRedirect,
}
use failover_cluster.Timer.{Rand, reset}
use failover_cluster.Node.{RaftNode, is_known_voter}
use failover_cluster.Node.Commit.{drain_apply_pipeline}
use failover_cluster.Node.Roles.{become_follower}

-- `entries.windows(2)`: each index is the one before it plus one, and no term falls.
unfoldable pub is_batch_after : Entry → List Entry → Bool
is_batch_after prev [] = true
is_batch_after prev (e ∷ es) =
    e.index == saturating_add prev.index 1 && not (ltb e.term prev.term) && is_batch_after e es

unfoldable pub last_of : Entry → List Entry → Entry
last_of e [] = e
last_of e (e' ∷ es) = last_of e' es

-- `known != resp.leader_id`.
abbrev pub is_other_leader : Option ℕ → ℕ → Bool
is_other_leader none id = false
is_other_leader (some known) id = not (known == id)

abbrev pub or_leader : Option ℕ → ℕ → Option ℕ
or_leader none id = some id
or_leader (some known) id = some known

module _ {R : Type 0} where
  abbrev pub snapshot_request : RaftNode R → SnapshotRedirect → FetchSnapshotRequest
  snapshot_request n r = record {
    cluster_id = n.config.cluster_id;
    leader_epoch = n.hard_state.current_term;
    replica_id = n.id;
    snapshot_id = r.snapshot_id;
    offset = 0;
    max_bytes = 0;
  }

  abbrev pub refetch : RaftNode R → DivergingEpoch → FetchRequest
  refetch n de = record {
    cluster_id = n.config.cluster_id;
    leader_epoch = n.hard_state.current_term;
    replica_id = n.id;
    fetch_offset = saturating_add de.end_offset 1;
    last_fetched_epoch = de.epoch;
  }

  abbrev pub stamp_fetch_tick : RaftNode R → RaftNode R
  stamp_fetch_tick n = record n { last_fetch_tick = some n.logical_tick }

  -- The high watermark, no further than the log's end.
  unfoldable pub propagate : RaftNode R → ℕ → RaftNode R × List Action
  propagate n high_watermark =
      let new_commit = min high_watermark n.last_log_index in
      if ltb n.commit_index new_commit
      then drain_apply_pipeline (record n { commit_index = new_commit })
      else (n, [])

  abbrev pub append_batch : RaftNode R → Entry → List Entry → RaftNode R
  append_batch n e es = record n {
    last_log_index = (last_of e es).index;
    last_log_term = (last_of e es).term;
  }

  -- `none`: the batch is dropped, and the high watermark with it.
  unfoldable pub accept_entries : RaftNode R → List Entry → Option (RaftNode R × List Action)
  accept_entries n [] = some (n, [])
  accept_entries n (e ∷ es) =
      if e.index == saturating_add n.last_log_index 1 && is_batch_after e es
      then some (append_batch n e es, append_entries (e ∷ es) ∷ [])
      else none

  unfoldable pub commit_accepted :
      RaftNode R → Option (RaftNode R × List Action) → ℕ → RaftNode R × List Action
  commit_accepted n none high_watermark = (n, [])
  commit_accepted n (some (n', appended)) high_watermark =
      let (n2, drained) = propagate n' high_watermark in (n2, appended ++ drained)

  -- A redirect, a divergence or entries: the first that the response carries.
  unfoldable pub absorb_with :
      RaftNode R
      → FetchResponse
      → Option SnapshotRedirect
      → Option DivergingEpoch
      → RaftNode R × List Action
  absorb_with n resp (some r) _ = (
    stamp_fetch_tick n,
    send_message resp.leader_id (OutboundMessage.fetch_snapshot_request (snapshot_request n r))
        ∷ [],
  )
  absorb_with n resp none (some de) = (
    stamp_fetch_tick n,
    truncate_log (suffix_from_inclusive (saturating_add de.end_offset 1))
        ∷ send_message resp.leader_id (OutboundMessage.fetch_request (refetch n de))
        ∷ [],
  )
  absorb_with n resp none none =
      commit_accepted n (accept_entries n resp.entries) resp.high_watermark

  unfoldable pub absorb : RaftNode R → FetchResponse → RaftNode R × List Action
  absorb n resp = absorb_with n resp resp.snapshot_redirect resp.diverging_epoch

module _ {R : Type 0} ⦃rand : Rand R⦄ where
  -- Leader contact: the stamp, and a fresh election timeout.
  unfoldable pub hear_leader : RaftNode R → RaftNode R
  hear_leader n =
      let (timer, rng) = reset n.election_timer n.rng in
      record n { last_leader_contact_tick = some n.logical_tick; election_timer = timer; rng = rng }

  -- `match self.role`: a candidate yields, a follower or observer takes the hint it lacks.
  unfoldable pub recognise : RaftNode R → ℕ → RaftNode R × List Action
  recognise n leader_id =
      if is_fetching n.role
      then (record n { leader_id = or_leader n.leader_id leader_id }, [])
      else become_follower n n.hard_state.current_term (some leader_id)

  -- The response at the node's own term, after the fencing of two leaders.
  unfoldable pub same_term : RaftNode R → List Action → FetchResponse → RaftNode R × List Action
  same_term n actions resp =
      let (n1, stepped) = recognise n resp.leader_id in
      let (n2, absorbed) = absorb (hear_leader n1) resp in
      if is_leader_role n.role
      then (n, [])
      else if is_other_leader n.leader_id resp.leader_id
      then (n, [])
      else (n2, actions ++ (stepped ++ absorbed))

  unfoldable pub handle_fetch_response : RaftNode R → FetchResponse → RaftNode R × List Action
  handle_fetch_response n resp =
      let (n', adopted) = become_follower n resp.leader_epoch (some resp.leader_id) in
      if not (str_eq resp.cluster_id n.config.cluster_id)
      then (n, [])
      else if not resp.is_leader
      then (n, [])
      else if not (is_known_voter n resp.leader_id)
      then (n, [])
      else if ltb n.hard_state.current_term resp.leader_epoch
      then same_term n' adopted resp
      else if ltb resp.leader_epoch n.hard_state.current_term
      then (n, [])
      else same_term n [] resp
