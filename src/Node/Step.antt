-- ===== src/Node/Step.antt =====
-- xraft-core/src/node.rs, `RaftNode::step`: one input to its handler; and runs of inputs.
use failover_cluster.Prelude.{List, [], ◌∷◌, ◌++◌}
use failover_cluster.Message.{
  Input, Action, tick, vote_request, vote_response, pre_vote_request, pre_vote_response,
  fetch_request, fetch_response, client_propose, fetch_request_acked, snapshot_complete,
  snapshot_installed, fetch_snapshot_received,
}
use failover_cluster.Timer.{Rand}
use failover_cluster.Node.{RaftNode}
use failover_cluster.Node.Election.{
  handle_vote_request, handle_vote_response, handle_pre_vote_request, handle_pre_vote_response,
}
use failover_cluster.Node.Fetch.{
  handle_fetch_request, handle_fetch_request_acked, handle_client_propose,
}
use failover_cluster.Node.Replicate.{handle_fetch_response}
use failover_cluster.Node.Snapshot.{
  handle_snapshot_complete, handle_snapshot_installed, handle_fetch_snapshot_received,
}
use failover_cluster.Node.Tick.{handle_tick}

module _ {R : Type 0} ⦃rand : Rand R⦄ where
  unfoldable pub step : RaftNode R → Input → RaftNode R × List Action
  step n tick = handle_tick n
  step n (vote_request req) = handle_vote_request n req
  step n (vote_response sender resp) = handle_vote_response n sender resp
  step n (pre_vote_request req) = (n, handle_pre_vote_request n req)
  step n (pre_vote_response sender resp) = handle_pre_vote_response n sender resp
  step n (fetch_request req) = handle_fetch_request n req
  step n (fetch_response resp) = handle_fetch_response n resp
  step n (client_propose bytes) = handle_client_propose n bytes
  step n (fetch_request_acked replica_id confirmed_offset) =
      handle_fetch_request_acked n replica_id confirmed_offset
  step n (snapshot_complete metadata) = handle_snapshot_complete n metadata
  step n (snapshot_installed metadata) = handle_snapshot_installed n metadata
  step n (fetch_snapshot_received metadata bytes) =
      (n, handle_fetch_snapshot_received n metadata bytes)

  -- The driver's loop: the inputs in turn, with all their actions.
  unfoldable pub run : RaftNode R → List Input → RaftNode R × List Action
  run n [] = (n, [])
  run n (i ∷ is) =
      let (n', actions) = step n i in let (n2, later) = run n' is in (n2, actions ++ later)
