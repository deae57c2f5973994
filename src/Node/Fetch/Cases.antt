-- ===== src/Node/Fetch/Cases.antt =====
-- The ways through the leader's fetch handlers and the client's proposal.
use failover_cluster.Peers.{modify}
use failover_cluster.Types.{is_leader_role}
use failover_cluster.Node.Roles.{become_follower}
use failover_cluster.Node.Commit.{advance_and_drain}
use failover_cluster.Node.Fetch.{
  acknowledge, append_local, command_entry, handle_client_propose, handle_fetch_request,
  handle_fetch_request_acked, is_known_sender, note_fetch, route_fetch,
}
use failover_cluster.Timer.{Rand}
use failover_cluster.Node.{RaftNode, is_self}
use failover_cluster.Message.{Action, FetchRequest, append_entries}
use failover_cluster.Prelude.{
  ℕ, true, ◌≡◌, List, [], arith, if_elim, ltb, min, none, not, str_eq, ◌==◌, ◌≤◌, ◌<◌, ◌∷◌,
}

module _ {R : Type 0} (n : RaftNode R) where
  abbrev pub with_ack : ℕ → ℕ → RaftNode R
  with_ack replica_id confirmed_offset = record n {
    peers =
        modify replica_id
          (acknowledge (min confirmed_offset n.last_log_index) n.last_log_index n.logical_tick)
          n.peers;
  }

  -- What holds where a fetch is answered.
  pub record Serves (req : FetchRequest) : Type 0 where
    pub leads : is_leader_role n.role ≡ true
    pub known : is_known_sender n req.replica_id ≡ true
    pub current : req.leader_epoch ≤ n.hard_state.current_term
    pub positive : 0 < req.fetch_offset

module _ {ℓ} {R : Type 0} (P : RaftNode R × List Action → Type ℓ) (n : RaftNode R) where
  pub handle_fetch_request_acked_cases :
      (replica_id confirmed_offset : ℕ)
      → P (n, [])
      → (is_leader_role n.role ≡ true
          → P (advance_and_drain (with_ack n replica_id confirmed_offset)))
      → P (handle_fetch_request_acked n replica_id confirmed_offset)
  unfolding handle_fetch_request_acked
  handle_fetch_request_acked_cases replica_id confirmed_offset dropped acked =
      if_elim P (not (is_leader_role n.role)) (λ _. dropped)
        λ leads.
          if_elim P (not (is_known_sender n replica_id)) (λ _. dropped) λ _. acked (ground arith)

  pub handle_client_propose_cases :
      (bytes : List ℕ)
      → P (n, [])
      → (is_leader_role n.role ≡ true
          → P (
            (advance_and_drain (append_local n (command_entry n bytes))).0,
            append_entries (command_entry n bytes ∷ [])
                ∷ (advance_and_drain (append_local n (command_entry n bytes))).1,
          ))
      → P (handle_client_propose n bytes)
  unfolding handle_client_propose
  handle_client_propose_cases bytes dropped appended =
      if_elim P (not (is_leader_role n.role)) (λ _. dropped) λ leads. appended (ground arith)

module _ {ℓ} {R : Type 0} ⦃rand : Rand R⦄ (P : RaftNode R × List Action → Type ℓ)
    (n : RaftNode R) where
  pub handle_fetch_request_cases :
      (req : FetchRequest)
      → P (n, [])
      → (ltb n.hard_state.current_term req.leader_epoch ≡ true
          → P (become_follower n req.leader_epoch none))
      → (Serves n req
          → P (
            note_fetch n req.replica_id,
            route_fetch (note_fetch n req.replica_id) req n.last_snapshot_meta ∷ [],
          ))
      → P (handle_fetch_request n req)
  unfolding handle_fetch_request
  handle_fetch_request_cases req dropped newer served =
      if_elim P (not (str_eq req.cluster_id n.config.cluster_id)) (λ _. dropped)
        λ _.
          if_elim P (is_self n req.replica_id) (λ _. dropped)
            λ _.
              if_elim P (not (is_known_sender n req.replica_id)) (λ _. dropped)
                λ known. if_elim P (ltb n.hard_state.current_term req.leader_epoch) newer λ current.
                  if_elim P (not (is_leader_role n.role)) (λ _. dropped)
                    λ leads.
                      if_elim P (req.fetch_offset == 0) (λ _. dropped)
                        λ positive. served (ground arith)
