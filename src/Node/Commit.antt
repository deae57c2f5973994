-- ===== src/Node/Commit.antt =====
-- xraft-core/src/node.rs: commit advancement on the leader, and the apply and snapshot pipeline.
pub mod Frame
pub mod Cases
pub mod Offsets
pub mod Rule
pub mod Holders
use failover_cluster.Prelude.{
  ℕ, ◌-◌, true, List, [], ◌∷◌, Option, none, some, ltb, leb, if◌then◌else◌, saturating_add,
  saturating_sub, get_elem?, length,
}
use failover_cluster.Types.{VoterSet, SnapshotMeta, is_leader_role}
use failover_cluster.Message.{Action, apply_to_state_machine, take_snapshot}
use failover_cluster.Peers.{get}
use failover_cluster.Node.{RaftNode, is_self}

-- `offsets.sort_by(|a, b| b.cmp(a))`: the largest first.
unfoldable pub insert_desc : ℕ → List ℕ → List ℕ
insert_desc x [] = x ∷ []
insert_desc x (y ∷ ys) = if leb y x then x ∷ y ∷ ys else y ∷ insert_desc x ys

unfoldable pub sort_desc : List ℕ → List ℕ
sort_desc [] = []
sort_desc (x ∷ xs) = insert_desc x (sort_desc xs)

abbrev pub push_some : Option ℕ → List ℕ → List ℕ
push_some none xs = xs
push_some (some x) xs = x ∷ xs

abbrev pub extend_some : Option Action → List Action → List Action
extend_some none xs = xs
extend_some (some a) xs = a ∷ xs

-- The `q`-th largest offset. The source indexes `offsets[q - 1]` after the length test; a quorum
-- of 0, which no voter set has, would panic there and reads the first offset here.
unfoldable pub quorum_offset : ℕ → List ℕ → Option ℕ
quorum_offset q offsets =
    if ltb (length offsets) q then none else get_elem? (sort_desc offsets) (q - 1)

abbrev pub snapshot_index : Option SnapshotMeta → ℕ
snapshot_index none = 0
snapshot_index (some m) = m.last_included_index

module _ {R : Type 0} where
  -- What one entry of the voter set adds to `offsets`: nothing for a peer that is no voter, 0 for
  -- one that is not tracked.
  unfoldable pub offset_of : RaftNode R → ℕ → Option ℕ
  offset_of n v = if is_self n v then some n.last_log_index else elim (get v n.peers) [
    | some p ↦ if p.is_voter then some p.last_fetch_offset else none
    | none ↦ some 0
  ]

  unfoldable pub voter_offsets : RaftNode R → List ℕ → List ℕ
  voter_offsets n [] = []
  voter_offsets n (v ∷ vs) = push_some (offset_of n v) (voter_offsets n vs)

  advance_to : RaftNode R → ℕ → ℕ → RaftNode R × Option ℕ
  advance_to n no_op_index new_commit =
      if leb new_commit n.commit_index
      then (n, none)
      else if ltb new_commit no_op_index
      then (n, none)
      else (record n { commit_index = new_commit }, some new_commit)

  advance_from : RaftNode R → ℕ → Option ℕ → RaftNode R × Option ℕ
  unfolding advance_to
  advance_from n no_op_index none = (n, none)
  advance_from n no_op_index (some new_commit) = advance_to n no_op_index new_commit

  advance_with : RaftNode R → Option VoterSet → Option ℕ → RaftNode R × Option ℕ
  unfolding advance_from
  advance_with n none no_op = (n, none)
  advance_with n (some vs) none = (n, none)
  advance_with n (some vs) (some no_op_index) =
      advance_from n no_op_index (quorum_offset vs.quorum_size (voter_offsets n vs.voters))

  unfoldable pub try_advance_commit_index : RaftNode R → RaftNode R × Option ℕ
  unfolding advance_with
  try_advance_commit_index n =
      if is_leader_role n.role then advance_with n n.voter_set n.leader_no_op_index else (n, none)

  unfoldable pub maybe_apply : RaftNode R → RaftNode R × Option Action
  maybe_apply n = if leb n.commit_index n.last_applied then (n, none) else (
    record n { last_applied = n.commit_index },
    some (apply_to_state_machine (saturating_add n.last_applied 1) n.commit_index),
  )

  unfoldable pub maybe_take_snapshot : RaftNode R → RaftNode R × Option Action
  maybe_take_snapshot n =
      let lag = saturating_sub n.commit_index (snapshot_index n.last_snapshot_meta) in
      if n.snapshot_in_flight
      then (n, none)
      else if ltb n.config.max_log_entries_before_compaction lag
      then (record n { snapshot_in_flight = true }, some (take_snapshot n.commit_index))
      else (n, none)

  unfoldable pub drain_apply_pipeline : RaftNode R → RaftNode R × List Action
  unfolding maybe_apply maybe_take_snapshot
  drain_apply_pipeline n =
      let (n1, apply) = maybe_apply n in
      let (n2, snap) = maybe_take_snapshot n1 in (n2, extend_some apply (extend_some snap []))

  unfoldable pub apply_committed : RaftNode R → RaftNode R × List Action
  unfolding drain_apply_pipeline
  apply_committed n = drain_apply_pipeline n

  -- `if self.try_advance_commit_index().is_some() { actions.extend(self.drain_apply_pipeline()) }`.
  drain_if : RaftNode R × Option ℕ → RaftNode R × List Action
  drain_if (n, none) = (n, [])
  drain_if (n, some _) = drain_apply_pipeline n

  unfoldable pub advance_and_drain : RaftNode R → RaftNode R × List Action
  unfolding drain_if
  advance_and_drain n = drain_if (try_advance_commit_index n)
