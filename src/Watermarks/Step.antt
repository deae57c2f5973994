-- ===== src/Watermarks/Step.antt =====
-- The positions across `step` and runs of inputs.
use failover_cluster.Node.Step.{run, step}
use failover_cluster.Node.Snapshot.{
  handle_snapshot_complete, handle_snapshot_installed, is_snapshot_meta_newer,
}
use failover_cluster.Watermarks.Follower.{handle_fetch_response-Inv}
use failover_cluster.Node.Tick.Cases.{check_timeouts_cases}
use failover_cluster.Watermarks.Leader.{
  become_follower-Inv, become_pre_candidate-Inv, handle_client_propose-Inv,
  handle_fetch_request-Inv, handle_fetch_request_acked-Inv, handle_pre_vote_response-Inv,
  handle_vote_request-Inv, handle_vote_response-Inv,
}
use failover_cluster.Node.Tick.{
  advance_clock, count_quorum_tick, fetch_actions, handle_tick, maybe_build_fetch_request,
  schedule_fetch, stamp_if_sent,
}
use failover_cluster.Watermarks.{Within-mono, Inv}
use failover_cluster.Types.{SnapshotMeta, is_fetching, is_leader_role}
use failover_cluster.Timer.{Rand}
use failover_cluster.Node.{RaftNode, set_last_log}
use failover_cluster.Prelude.{
  All, Bool, List, [], arith, false, if_elim, leb, none, saturating_add, u64_max, ℕ, ◌&&◌, ◌≡◌, ◌∷◌,
  ◌≤◌,
}
use failover_cluster.Message.{Action, Input}

-- The index of an installed snapshot is a `u64`.
abbrev pub Fits : Input → Type 0
Fits i = elim i [ Input.snapshot_installed m ↦ m.last_included_index ≤ u64_max | _ ↦ Unit ]

module _ {R : Type 0} where
  pub schedule_fetch-Inv : (n : RaftNode R) → Inv n → Inv (schedule_fetch n).0
  unfolding schedule_fetch
  schedule_fetch-Inv n v =
      if_elim (λ (r : RaftNode R × List Action). Inv r.0) (is_fetching n.role)
        (λ _. stamped (fetch_actions n (maybe_build_fetch_request n) n.leader_id)) (λ _. v)
    where
      stamped : (actions : List Action) → Inv (stamp_if_sent n actions)
      stamped [] = v
      stamped (a ∷ rest) = v

  pub count_quorum_tick-Inv : (n : RaftNode R) → Inv n → Inv (count_quorum_tick n).0
  unfolding count_quorum_tick
  count_quorum_tick-Inv n v =
      if_elim (λ (r : RaftNode R × Bool). Inv r.0)
        (is_leader_role n.role && n.config.enable_check_quorum)
        (λ _.
          if_elim (λ (r : RaftNode R × Bool). Inv r.0)
            (leb n.check_quorum_interval_ticks (saturating_add n.check_quorum_elapsed_ticks 1))
            (λ _. v) (λ _. v))
        (λ _. v)

  handle_snapshot_complete-Inv :
      (n : RaftNode R) (m : SnapshotMeta) → Inv n → Inv (handle_snapshot_complete n m).0
  unfolding handle_snapshot_complete
  handle_snapshot_complete-Inv n m v =
      if_elim (λ (r : RaftNode R × List Action). Inv r.0)
        (is_snapshot_meta_newer n.last_snapshot_meta m) (λ _. v) (λ _. v)

  handle_snapshot_installed-Inv :
      (n : RaftNode R) (m : SnapshotMeta)
      → m.last_included_index ≤ u64_max
      → Inv n
      → Inv (handle_snapshot_installed n m).0
  unfolding handle_snapshot_installed
  handle_snapshot_installed-Inv n m fits v = record {
    bounded = ground (arith, v.bounded);
    committed = ground (arith, v.committed);
    applied_committed = ground (arith, v.applied_committed);
    tracked = λ l. Within-mono n.last_log_index _ n.peers (ground arith) (v.tracked l);
  }

  -- The driver may mirror any log back into a node that does not lead, as long as it holds every
  -- committed entry.
  pub set_last_log-IsOrdered :
      (n : RaftNode R) (index term : ℕ)
      → is_leader_role n.role ≡ false
      → n.commit_index ≤ index
      → index ≤ u64_max
      → Inv n
      → Inv (set_last_log n index term)
  unfolding set_last_log
  set_last_log-IsOrdered n index term follows ge le v = record {
    bounded = le;
    committed = ge;
    applied_committed = v.applied_committed;
    tracked = λ l. absurd (ground arith);
  }

module _ {R : Type 0} ⦃rand : Rand R⦄ where
  handle_tick-Inv : (n : RaftNode R) → Inv n → Inv (handle_tick n).0
  unfolding handle_tick advance_clock
  handle_tick-Inv n v =
      let counted = count_quorum_tick-Inv _ (schedule_fetch-Inv (advance_clock n) v) in
      check_timeouts_cases (λ r. Inv r.0) _ _ (λ _ _. become_follower-Inv _ _ none counted) counted
        (λ _ _. become_pre_candidate-Inv _ counted)

  pub step-IsOrdered : (n : RaftNode R) (i : Input) → Fits i → Inv n → Inv (step n i).0
  unfolding step
  step-IsOrdered n Input.tick f v = handle_tick-Inv n v
  step-IsOrdered n (Input.vote_request req) f v = handle_vote_request-Inv n req v
  step-IsOrdered n (Input.vote_response sender resp) f v = handle_vote_response-Inv n sender resp v
  step-IsOrdered n (Input.pre_vote_request req) f v = v
  step-IsOrdered n (Input.pre_vote_response sender resp) f v =
      handle_pre_vote_response-Inv n sender resp v
  step-IsOrdered n (Input.fetch_request req) f v = handle_fetch_request-Inv n req v
  step-IsOrdered n (Input.fetch_response resp) f v = handle_fetch_response-Inv n resp v
  step-IsOrdered n (Input.client_propose bytes) f v = handle_client_propose-Inv n bytes v
  step-IsOrdered n (Input.fetch_request_acked id offset) f v =
      handle_fetch_request_acked-Inv n id offset v
  step-IsOrdered n (Input.snapshot_complete m) f v = handle_snapshot_complete-Inv n m v
  step-IsOrdered n (Input.snapshot_installed m) f v = handle_snapshot_installed-Inv n m f v
  step-IsOrdered n (Input.fetch_snapshot_received m bytes) f v = v

  -- Over any run of inputs applied ≤ committed ≤ last holds at the end if it held at the start, and no
  -- leader believes a peer to have more than itself; an installed snapshot's index is a `u64`.
  pub run-IsOrdered : (n : RaftNode R) (is : List Input) → All Fits is → Inv n → Inv (run n is).0
  unfolding run
  run-IsOrdered n [] f v = v
  run-IsOrdered n (i ∷ is) f v = run-IsOrdered (step n i).0 is f.1 (step-IsOrdered n i f.0 v)
