-- ===== src/Effects/Leader.antt =====
-- The actions of commit advancement, promotion and proposals, replayed.
use failover_cluster.Node.Roles.{become_leader, lead, no_op_entry}
use failover_cluster.Node.Fetch.Cases.{
  handle_client_propose_cases, handle_fetch_request_acked_cases, with_ack,
}
use failover_cluster.Watermarks.Leader.{advanced-Inv, append_local-Inv, lead-Inv, with_ack-Inv}
use failover_cluster.Timer.{Rand}
use failover_cluster.Node.Fetch.{
  handle_client_propose, append_local, command_entry, handle_fetch_request_acked,
}
use failover_cluster.Node.Commit.Cases.{advance_and_drain_cases}
use failover_cluster.Node.Commit.{drain_apply_pipeline, advance_and_drain}
use failover_cluster.Prelude.{List, arith, some, ◌≡◌, [], refl, saturating_add, ℕ, ◌∷◌, ap, ◌∙◌}
use failover_cluster.Effects
use failover_cluster.Effects.{and_then, replay, Ends, append_all}
use failover_cluster.Watermarks
use failover_cluster.Node.{RaftNode}
use failover_cluster.Message.{Action, Entry}

-- A batch that the log takes.
pub replay_batch :
    (es : List Entry) (rest : List Action) (log applied log' : ℕ)
    → append_all log es ≡ some log'
    → replay (Action.append_entries es ∷ rest) (log, applied) ≡ replay rest (log', applied)
unfolding replay
replay_batch es rest log applied log' h =
    ap (λ o. and_then (Effects.with_log applied o) (replay rest)) h

-- One entry, after the log's end.
replay_entry :
    (e : Entry) (rest : List Action) (log applied : ℕ)
    → e.index ≡ saturating_add log 1
    → replay (Action.append_entries (e ∷ []) ∷ rest) (log, applied) ≡ replay rest (e.index, applied)
replay_entry e rest log applied h = replay_batch (e ∷ []) rest log applied e.index (ground arith)

module _ {R : Type 0} where
  abbrev pub ends : RaftNode R → Ends
  ends n = (n.last_log_index, n.last_applied)

  -- The executor takes the actions and ends where the new node says.
  abbrev pub Tracks : RaftNode R → RaftNode R × List Action → Type 0
  Tracks n r = replay r.1 (ends n) ≡ some (ends r.0)

  pub drain_apply_pipeline-Tracks :
      (n : RaftNode R) → Watermarks.Inv n → Tracks n (drain_apply_pipeline n)
  unfolding drain_apply_pipeline replay
  drain_apply_pipeline-Tracks n v = ground (arith, v.bounded, v.committed, v.applied_committed)

  pub advance_and_drain-Tracks :
      (n : RaftNode R) → Watermarks.Inv n → Tracks n (advance_and_drain n)
  unfolding replay
  advance_and_drain-Tracks n v =
      advance_and_drain_cases (Tracks n) n refl
        λ c a. drain_apply_pipeline-Tracks (record n { commit_index = c }) (advanced-Inv n c a v)

  pub handle_fetch_request_acked-Tracks :
      (n : RaftNode R) (replica_id offset : ℕ)
      → Watermarks.Inv n
      → Tracks n (handle_fetch_request_acked n replica_id offset)
  unfolding replay
  handle_fetch_request_acked-Tracks n replica_id offset v =
      handle_fetch_request_acked_cases (Tracks n) n replica_id offset refl λ _.
        advance_and_drain-Tracks (with_ack n replica_id offset) (with_ack-Inv n replica_id offset v)

  pub handle_client_propose-Tracks :
      (n : RaftNode R) (bytes : List ℕ)
      → Watermarks.Inv n
      → Tracks n (handle_client_propose n bytes)
  unfolding replay append_local
  handle_client_propose-Tracks n bytes v = handle_client_propose_cases (Tracks n) n bytes refl λ _.
      rw (replay_entry (command_entry n bytes) _ n.last_log_index n.last_applied refl)
        (advance_and_drain-Tracks _ (append_local-Inv n (command_entry n bytes) refl v))

module _ {R : Type 0} ⦃rand : Rand R⦄ where
  pub become_leader-Tracks : (n : RaftNode R) → Watermarks.Inv n → Tracks n (become_leader n)
  unfolding become_leader lead replay
  become_leader-Tracks n v =
      replay_entry (no_op_entry n) (advance_and_drain (lead n)).1 n.last_log_index n.last_applied
        refl
      ∙ advance_and_drain-Tracks (lead n) (lead-Inv n v)
