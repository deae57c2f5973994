-- ===== src/Watermarks/Follower.antt =====
-- The positions across a follower's log handling.
use failover_cluster.Watermarks.Leader.{become_follower-Inv, drain_apply_pipeline-Inv}
use failover_cluster.Node.Replicate.Cases.{
  accept_entries_cases, handle_fetch_response_cases, propagate_cases, recognise_cases,
  same_term_cases,
}
use failover_cluster.Node.Replicate.{
  absorb, absorb_with, accept_entries, append_batch, commit_accepted, handle_fetch_response,
  hear_leader, is_batch_after, last_of, propagate, recognise, same_term,
}
use failover_cluster.Watermarks.{Within-mono, Inv}
use failover_cluster.Timer.{Rand}
use failover_cluster.Node.{RaftNode}
use failover_cluster.Prelude.{
  List, Option, [], arith, none, saturating_add, some, true, u64_max, ℕ, ◌≡◌, ◌∷◌, ◌≤◌,
}
use failover_cluster.Message.{Action, DivergingEpoch, Entry, FetchResponse, SnapshotRedirect}

-- A batch that passes the test ends at or past its first entry, within `u64`.
last_of-bounds :
    (e : Entry) (es : List Entry)
    → e.index ≤ u64_max
    → is_batch_after e es ≡ true
    → (e.index ≤ (last_of e es).index) × ((last_of e es).index ≤ u64_max)
unfolding is_batch_after last_of
last_of-bounds e [] h b = (omega arith, h)
last_of-bounds e (x ∷ xs) h b =
    let fits : x.index ≤ u64_max = ground arith in
    let follows : e.index ≤ x.index = ground arith in
    let (ge, le) = last_of-bounds x xs fits (ground arith) in (omega arith, le)

module _ {R : Type 0} where
  pub propagate-Inv :
      (n : RaftNode R) (high_watermark : ℕ) → Inv n → Inv (propagate n high_watermark).0
  propagate-Inv n high_watermark v =
      propagate_cases (λ r. Inv r.0) n high_watermark v
        λ later. drain_apply_pipeline-Inv _ (record {
          bounded = v.bounded;
          committed = omega arith;
          applied_committed = omega (arith, v.applied_committed);
          tracked = v.tracked;
        })

  pub append_batch-Inv :
      (n : RaftNode R) (e : Entry) (es : List Entry)
      → e.index ≡ saturating_add n.last_log_index 1
      → is_batch_after e es ≡ true
      → Inv n
      → Inv (append_batch n e es)
  append_batch-Inv n e es first batch v =
      let (ge, le) = last_of-bounds e es (omega arith) batch in
      record {
        bounded = le;
        committed = omega (arith, v.bounded, v.committed);
        applied_committed = v.applied_committed;
        tracked = λ l.
            Within-mono n.last_log_index (last_of e es).index n.peers (omega (arith, v.bounded))
              (v.tracked l);
      }

  commit_accepted-Inv :
      (n : RaftNode R) (es : List Entry) (high_watermark : ℕ)
      → Inv n
      → Inv (commit_accepted n (accept_entries n es) high_watermark).0
  unfolding commit_accepted
  commit_accepted-Inv n [] high_watermark v =
      unfold accept_entries in propagate-Inv n high_watermark v
  commit_accepted-Inv n (e ∷ es) high_watermark v =
      accept_entries_cases n (λ o. Inv (commit_accepted n o high_watermark).0) e es v
        λ first batch.
          propagate-Inv (append_batch n e es) high_watermark (append_batch-Inv n e es first batch v)

  absorb_with-Inv :
      (n : RaftNode R) (resp : FetchResponse) (r : Option SnapshotRedirect)
      (de : Option DivergingEpoch)
      → Inv n
      → Inv (absorb_with n resp r de).0
  unfolding absorb_with
  absorb_with-Inv n resp (some r) de v = v
  absorb_with-Inv n resp none (some de) v = v
  absorb_with-Inv n resp none none v = commit_accepted-Inv n resp.entries resp.high_watermark v

module _ {R : Type 0} ⦃rand : Rand R⦄ where
  pub recognise-Inv : (n : RaftNode R) (leader_id : ℕ) → Inv n → Inv (recognise n leader_id).0
  recognise-Inv n leader_id v =
      recognise_cases (λ r. Inv r.0) n leader_id (λ _. v)
        (λ _. become_follower-Inv n n.hard_state.current_term (some leader_id) v)

  same_term-Inv :
      (n : RaftNode R) (actions : List Action) (resp : FetchResponse)
      → Inv n
      → Inv (same_term n actions resp).0
  unfolding absorb hear_leader
  same_term-Inv n actions resp v =
      same_term_cases (λ r. Inv r.0) n actions resp v
        λ _.
          absorb_with-Inv _ resp resp.snapshot_redirect resp.diverging_epoch
            (recognise-Inv n resp.leader_id v)

  pub handle_fetch_response-Inv :
      (n : RaftNode R) (resp : FetchResponse) → Inv n → Inv (handle_fetch_response n resp).0
  handle_fetch_response-Inv n resp v =
      handle_fetch_response_cases (λ r. Inv r.0) n resp v
        (λ _.
          same_term-Inv _ _ resp (become_follower-Inv n resp.leader_epoch (some resp.leader_id) v))
        (λ _. same_term-Inv n [] resp v)
