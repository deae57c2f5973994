-- ===== src/Snapshots/Debounce.antt =====
-- The snapshot in flight: xraft-core/src/node.rs, `maybe_take_snapshot`.
pub mod Step
use failover_cluster.Types.{is_fetching}
use failover_cluster.Node.Tick.{
  count_quorum_tick, fetch_actions, fetch_from_all, maybe_build_fetch_request, schedule_fetch,
  stamp_if_sent,
}
use failover_cluster.Node.Commit.Cases.{advance_and_drain_cases}
use failover_cluster.Node.Commit.{advance_and_drain, drain_apply_pipeline}
use failover_cluster.Node.Replicate.Cases.{accept_entries_cases, propagate_cases}
use failover_cluster.Node.Replicate.{
  absorb_with, accept_entries, append_batch, commit_accepted, propagate,
}
use failover_cluster.Peers.{PeerMap}
use failover_cluster.Prelude.{
  All, Bool, List, Option, [], arith, false, if_elim, none, refl, some, true, ℕ, ◌≡◌, ◌∷◌,
  if◌then◌else◌, ◌++◌, ◌+◌,
}
use failover_cluster.Node.{RaftNode}
use failover_cluster.Node.Roles.{to_voters}
use failover_cluster.Message.{
  Action, Input, DivergingEpoch, Entry, FetchRequest, FetchResponse, OutboundMessage,
  SnapshotRedirect,
}

abbrev pub is_take : Action → Bool
is_take a = elim a [ Action.take_snapshot through ↦ true | _ ↦ false ]

abbrev pub NoTake : List Action → Type 0
NoTake = All (λ a. is_take a ≡ false)

-- How many snapshots are started, and whether one is in flight, as a number.
abbrev pub takes : List Action → ℕ
takes [] = 0
takes (a ∷ rest) = let later = takes rest in if is_take a then later + 1 else later

abbrev pub number : Bool → ℕ
number false = 0
number true = 1

-- The snapshots in flight before and those started are those in flight after.
abbrev pub Counts : {R : Type 0} → Bool → RaftNode R × List Action → Type 0
Counts before r = number before + takes r.1 ≡ number r.0.snapshot_in_flight

takes-append : (xs ys : List Action) → takes (xs ++ ys) ≡ takes xs + takes ys
takes-append [] ys = omega arith
takes-append (x ∷ xs) ys = ground (arith, takes-append xs ys)

pub takes-NoTake : (xs : List Action) → NoTake xs → takes xs ≡ 0
takes-NoTake [] q = refl
takes-NoTake (x ∷ xs) q = ground (arith, takes-NoTake xs q.1)

-- One part after another.
pub Counts-append :
    (a b c : Bool) (xs ys : List Action)
    → number a + takes xs ≡ number b
    → number b + takes ys ≡ number c
    → number a + takes (xs ++ ys) ≡ number c
Counts-append a b c xs ys h k = omega (arith, takes-append xs ys)

-- Actions that start none, before others.
pub Counts-after :
    (a c : Bool) (xs ys : List Action)
    → NoTake xs
    → number a + takes ys ≡ number c
    → number a + takes (xs ++ ys) ≡ number c
Counts-after a c xs ys q k = omega (arith, takes-append xs ys, takes-NoTake xs q)

pub Counts-NoTake : (b : Bool) (xs : List Action) → NoTake xs → number b + takes xs ≡ number b
Counts-NoTake b xs q = omega (arith, takes-NoTake xs q)

-- Any input but those that end a snapshot.
abbrev pub IsUnended : Input → Type 0
IsUnended i = elim i [ Input.snapshot_complete m ↦ ⊥ | Input.snapshot_installed m ↦ ⊥ | _ ↦ Unit ]

pub to_voters-NoTake : (m : OutboundMessage) (peers : PeerMap) → NoTake (to_voters m peers)
unfolding to_voters
to_voters-NoTake m [] = tt
to_voters-NoTake m ((id, p) ∷ rest) = ground (arith, to_voters-NoTake m rest)

pub fetch_from_all-NoTake :
    (id : ℕ) (req : FetchRequest) (peers : PeerMap) → NoTake (fetch_from_all id req peers)
unfolding fetch_from_all
fetch_from_all-NoTake id req [] = tt
fetch_from_all-NoTake id req ((j, p) ∷ rest) = ground (arith, fetch_from_all-NoTake id req rest)

module _ {R : Type 0} where
  pub drain_apply_pipeline-Counts :
      (n : RaftNode R) → Counts n.snapshot_in_flight (drain_apply_pipeline n)
  unfolding drain_apply_pipeline
  drain_apply_pipeline-Counts n = ground arith

  pub advance_and_drain-Counts :
      (n : RaftNode R) → Counts n.snapshot_in_flight (advance_and_drain n)
  advance_and_drain-Counts n =
      advance_and_drain_cases (Counts n.snapshot_in_flight) n (omega arith)
        (λ c _. drain_apply_pipeline-Counts _)

  pub propagate-Counts :
      (n : RaftNode R) (high_watermark : ℕ)
      → Counts n.snapshot_in_flight (propagate n high_watermark)
  propagate-Counts n high_watermark =
      propagate_cases (Counts n.snapshot_in_flight) n high_watermark (omega arith)
        (λ _. drain_apply_pipeline-Counts _)

  pub commit_accepted-Counts :
      (n : RaftNode R) (es : List Entry) (high_watermark : ℕ)
      → Counts n.snapshot_in_flight (commit_accepted n (accept_entries n es) high_watermark)
  unfolding commit_accepted
  commit_accepted-Counts n [] high_watermark =
      unfold accept_entries in propagate-Counts n high_watermark
  commit_accepted-Counts n (e ∷ es) high_watermark =
      accept_entries_cases n (λ o. Counts n.snapshot_in_flight (commit_accepted n o high_watermark))
        e es (omega arith) λ _ _. propagate-Counts (append_batch n e es) high_watermark

  pub absorb_with-Counts :
      (n : RaftNode R) (resp : FetchResponse) (r : Option SnapshotRedirect)
      (de : Option DivergingEpoch)
      → Counts n.snapshot_in_flight (absorb_with n resp r de)
  unfolding absorb_with
  absorb_with-Counts n resp (some r) de = omega arith
  absorb_with-Counts n resp none (some de) = omega arith
  absorb_with-Counts n resp none none = commit_accepted-Counts n resp.entries resp.high_watermark

  pub schedule_fetch-Counts : (n : RaftNode R) → Counts n.snapshot_in_flight (schedule_fetch n)
  unfolding schedule_fetch
  schedule_fetch-Counts n =
      if_elim (Counts n.snapshot_in_flight) (is_fetching n.role)
        (λ _.
          rw (kept (fetch_actions n (maybe_build_fetch_request n) n.leader_id)) (
            Counts-NoTake n.snapshot_in_flight _ (quiet (maybe_build_fetch_request n) n.leader_id)))
        (λ _. omega arith)
    where
      kept :
          (actions : List Action)
          → (stamp_if_sent n actions).snapshot_in_flight ≡ n.snapshot_in_flight
      kept [] = refl
      kept (a ∷ rest) = refl

      quiet :
          (req : Option FetchRequest) (leader_id : Option ℕ)
          → NoTake (fetch_actions n req leader_id)
      quiet none leader_id = unfold fetch_actions in tt
      quiet (some req) (some leader_id) = unfold fetch_actions in (refl, tt)
      quiet (some req) none = unfold fetch_actions in fetch_from_all-NoTake n.id req n.peers

  pub in_flight-count_quorum_tick :
      (n : RaftNode R) → (count_quorum_tick n).0.snapshot_in_flight ≡ n.snapshot_in_flight
  unfolding count_quorum_tick
  in_flight-count_quorum_tick n = ground arith
