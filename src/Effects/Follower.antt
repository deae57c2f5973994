-- ===== src/Effects/Follower.antt =====
-- The actions of a follower's log handling, and the actions that touch neither log nor state
-- machine.
use failover_cluster.Watermarks.Step.{Fits}
use failover_cluster.Node.Snapshot.{handle_snapshot_complete, handle_fetch_snapshot_received}
use failover_cluster.Node.Election.{handle_pre_vote_request}
use failover_cluster.Types.{SnapshotMeta, is_fetching, is_leader_role}
use failover_cluster.Node.Tick.{
  fetch_from_all, count_quorum_tick, fetch_actions, maybe_build_fetch_request, schedule_fetch,
  stamp_if_sent,
}
use failover_cluster.Node.Replicate.Cases.{accept_entries_cases, propagate_cases}
use failover_cluster.Node.Replicate.{
  absorb_with, accept_entries, append_batch, commit_accepted, is_batch_after, last_of, propagate,
}
use failover_cluster.Peers.{PeerMap}
use failover_cluster.Prelude.{
  List, Option, [], ap, arith, none, refl, some, sym, true, ℕ, ◌∙◌, ◌∷◌, ◌≡◌, if_elim, subst, false,
  inl, inr, min, saturating_add, ◌-◌, ◌⊎◌, ◌++◌,
}
use failover_cluster.Effects.{replay, replay-IsSilent, IsSilent, append_all, Ends, replay-append}
use failover_cluster.Effects.Leader.{Tracks, ends, replay_batch, drain_apply_pipeline-Tracks}
use failover_cluster.Watermarks
use failover_cluster.Watermarks.Follower.{append_batch-Inv}
use failover_cluster.Node.{RaftNode}
use failover_cluster.Node.Roles.{to_voters}
use failover_cluster.Message.{
  Action, DivergingEpoch, Entry, FetchRequest, FetchResponse, OutboundMessage, SnapshotRedirect,
  Input, PreVoteRequest,
}

abbrev pub IsOrdinary : Input → Type 0
IsOrdinary i = elim i [ Input.snapshot_installed m ↦ ⊥ | _ ↦ Unit ]

pub ordinary-Fits : (i : Input) → IsOrdinary i → Fits i
ordinary-Fits i = elim i as (λ j. IsOrdinary j → Fits j) [
  | Input.snapshot_installed m ↦ λ o. absurd o
  | _ ↦ λ _. tt
]

pub to_voters-IsSilent : (m : OutboundMessage) (peers : PeerMap) → IsSilent (to_voters m peers)
unfolding to_voters
to_voters-IsSilent m [] = tt
to_voters-IsSilent m ((id, p) ∷ rest) = ground (arith, to_voters-IsSilent m rest)

pub fetch_from_all-IsSilent :
    (id : ℕ) (req : FetchRequest) (peers : PeerMap) → IsSilent (fetch_from_all id req peers)
unfolding fetch_from_all
fetch_from_all-IsSilent id req [] = tt
fetch_from_all-IsSilent id req ((j, p) ∷ rest) = ground (arith, fetch_from_all-IsSilent id req rest)

-- A batch that passes the follower's test is one that the executor takes.
pub append_all-batch :
    (e : Entry) (es : List Entry)
    → is_batch_after e es ≡ true
    → append_all e.index es ≡ some (last_of e es).index
unfolding is_batch_after last_of
append_all-batch e [] h = refl
append_all-batch e (x ∷ es) h = ground (arith, append_all-batch x es)

module _ {R : Type 0} where
  -- Silent actions, and the positions as they were.
  abbrev pub IsStill : RaftNode R → RaftNode R × List Action → Type 0
  IsStill n r = IsSilent r.1 × (ends r.0 ≡ ends n)

  pub still-Tracks : (n : RaftNode R) (r : RaftNode R × List Action) → IsStill n r → Tracks n r
  still-Tracks n r (q, e) = replay-IsSilent r.1 (ends n) q ∙ ap some (sym e)

  -- The positions are the executor's, so a change of another field does not matter to it.
  pub rebase-Tracks :
      (n m : RaftNode R) (r : RaftNode R × List Action) → ends m ≡ ends n → Tracks m r → Tracks n r
  rebase-Tracks n m r e t = subst (λ s. replay r.1 s ≡ some (ends r.0)) e t

  pub propagate-Tracks :
      (n : RaftNode R) (high_watermark : ℕ)
      → Watermarks.Inv n
      → Tracks n (propagate n high_watermark)
  unfolding replay
  propagate-Tracks n high_watermark v = propagate_cases (Tracks n) n high_watermark refl λ later.
      drain_apply_pipeline-Tracks _ (record {
        bounded = v.bounded;
        committed = omega arith;
        applied_committed = omega (arith, v.applied_committed);
        tracked = v.tracked;
      })

  pub commit_accepted-Tracks :
      (n : RaftNode R) (es : List Entry) (high_watermark : ℕ)
      → Watermarks.Inv n
      → Tracks n (commit_accepted n (accept_entries n es) high_watermark)
  unfolding commit_accepted
  commit_accepted-Tracks n [] high_watermark v =
      unfold accept_entries in propagate-Tracks n high_watermark v
  commit_accepted-Tracks n (e ∷ es) high_watermark v =
      accept_entries_cases n (λ o. Tracks n (commit_accepted n o high_watermark)) e es
        (unfold replay in refl)
        λ first batch.
          let taken = append_all-batch e es batch in
          replay_batch (e ∷ es) _ n.last_log_index n.last_applied (last_of e es).index
            (ground arith)
          ∙ propagate-Tracks (append_batch n e es) high_watermark
              (append_batch-Inv n e es first batch v)

  -- A node that does not lead has the log cut behind some `k` and leaves its positions as they are.
  pub record Cuts (n : RaftNode R) (r : RaftNode R × List Action) : Type 0 where
    pub k : ℕ
    pub cut : replay r.1 (ends n) ≡ some (min n.last_log_index k, n.last_applied)
    pub kept : ends r.0 ≡ ends n
    pub follows : is_leader_role r.0.role ≡ false

  abbrev pub Mirrors : RaftNode R → RaftNode R × List Action → Type 0
  Mirrors n r = Tracks n r ⊎ Cuts n r

  pub rebase-Mirrors :
      (n m : RaftNode R) (r : RaftNode R × List Action)
      → ends m ≡ ends n
      → Mirrors m r
      → Mirrors n r
  rebase-Mirrors n m r e (inl t) = inl (rebase-Tracks n m r e t)
  rebase-Mirrors n m r e (inr c) = inr record {
    k = c.k;
    cut = subst (λ (s : Ends). replay r.1 s ≡ some (min s.0 c.k, s.1)) e c.cut;
    kept = c.kept ∙ e;
    follows = c.follows;
  }

  -- Silent actions before.
  pub Mirrors-after :
      (n : RaftNode R) (xs : List Action) (m : RaftNode R) (ys : List Action)
      → IsSilent xs
      → Mirrors n (m, ys)
      → Mirrors n (m, xs ++ ys)
  Mirrors-after n xs m ys q (inl t) =
      inl (replay-append xs ys (ends n) (ends n) _ (replay-IsSilent xs (ends n) q) t)
  Mirrors-after n xs m ys q (inr c) = inr record {
    k = c.k;
    cut = replay-append xs ys (ends n) (ends n) _ (replay-IsSilent xs (ends n) q) c.cut;
    kept = c.kept;
    follows = c.follows;
  }

  pub absorb_with-Mirrors :
      (n : RaftNode R) (resp : FetchResponse) (r : Option SnapshotRedirect)
      (de : Option DivergingEpoch)
      → is_leader_role n.role ≡ false
      → Watermarks.Inv n
      → Mirrors n (absorb_with n resp r de)
  unfolding absorb_with replay
  absorb_with-Mirrors n resp (some r) de f v = inl refl
  absorb_with-Mirrors n resp none (some de) f v =
      inr record { k = saturating_add de.end_offset 1 - 1; cut = refl; kept = refl; follows = f }
  absorb_with-Mirrors n resp none none f v =
      inl (commit_accepted-Tracks n resp.entries resp.high_watermark v)

  -- What a tick does before the timeouts.
  pub schedule_fetch-IsStill : (n : RaftNode R) → IsStill n (schedule_fetch n)
  unfolding schedule_fetch
  schedule_fetch-IsStill n =
      if_elim (λ (r : RaftNode R × List Action). IsSilent r.1 × (ends r.0 ≡ ends n))
        (is_fetching n.role)
        (λ _. (
          silent (maybe_build_fetch_request n) n.leader_id,
          kept (fetch_actions n (maybe_build_fetch_request n) n.leader_id),
        ))
        (λ _. (tt, refl))
    where
      silent :
          (req : Option FetchRequest) (leader_id : Option ℕ)
          → IsSilent (fetch_actions n req leader_id)
      silent none leader_id = unfold fetch_actions in tt
      silent (some req) (some leader_id) = unfold fetch_actions in (refl, tt)
      silent (some req) none = unfold fetch_actions in fetch_from_all-IsSilent n.id req n.peers

      kept : (actions : List Action) → ends (stamp_if_sent n actions) ≡ ends n
      kept [] = refl
      kept (a ∷ rest) = refl

  pub count_quorum_tick-ends : (n : RaftNode R) → ends (count_quorum_tick n).0 ≡ ends n
  unfolding count_quorum_tick
  count_quorum_tick-ends n = ground arith

  pub handle_snapshot_complete-IsStill :
      (n : RaftNode R) (m : SnapshotMeta) → IsStill n (handle_snapshot_complete n m)
  unfolding handle_snapshot_complete
  handle_snapshot_complete-IsStill n m = ground arith

  pub handle_fetch_snapshot_received-IsStill :
      (n : RaftNode R) (m : SnapshotMeta) (bytes : List ℕ)
      → IsStill n (n, handle_fetch_snapshot_received n m bytes)
  unfolding handle_fetch_snapshot_received
  handle_fetch_snapshot_received-IsStill n m bytes = ground arith

  pub handle_pre_vote_request-IsStill :
      (n : RaftNode R) (req : PreVoteRequest) → IsStill n (n, handle_pre_vote_request n req)
  unfolding handle_pre_vote_request
  handle_pre_vote_request-IsStill n req = ground arith
