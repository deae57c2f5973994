-- ===== src/Effects/Driven.antt =====
-- Runs in which the log's end is told to the node after a truncation, as the driver contract in
-- xraft-core/src/node.rs says: `RaftNode::set_last_log` mirrors the log.
use failover_cluster.Watermarks
use failover_cluster.Effects.Step.{step-Mirrors}
use failover_cluster.Watermarks.Step.{step-IsOrdered}
use failover_cluster.Types.{is_leader_role}
use failover_cluster.Node.Step.{step}
use failover_cluster.Timer.{Rand}
use failover_cluster.Node.{RaftNode, set_last_log}
use failover_cluster.Message.{Action, Input}
use failover_cluster.Effects.Follower.{IsOrdinary, ordinary-Fits}
use failover_cluster.Effects.{Ends, replay, replay-append}
use failover_cluster.Effects.Leader.{ends, Tracks}
use failover_cluster.Prelude.{
  List, Option, [], ℕ, arith, none, some, ℕ_discrete, ◌≤◌, ◌≡◌, if◌then◌else◌, ◌∷◌, ◌==◌, ◌++◌,
  Bool-cases, ap, false, inl, inr, min, refl, sym, u64_max, ◌∙◌, ◌⊎◌,
}

module _ {R : Type 0} where
  -- The node is told where the log ends, and the term there, if it does not know.
  unfoldable pub mirror : RaftNode R → Option Ends → ℕ → RaftNode R
  mirror m none term = m
  mirror m (some e) term = if e.0 == m.last_log_index then m else set_last_log m e.0 term

  mirror-ends :
      (m : RaftNode R) (o : Option Ends) (e : Ends) (term : ℕ)
      → o ≡ some e
      → e.1 ≡ m.last_applied
      → ends (mirror m o term) ≡ e
  unfolding mirror set_last_log
  mirror-ends m none e term h same = absurd (ground arith)
  mirror-ends m (some f) e term h same = elim (ℕ_discrete f.0 m.last_log_index) [
    | yes known ↦ ground arith
    | no moved ↦ ground arith
  ]

module _ {R : Type 0} ⦃rand : Rand R⦄ where
  -- A step, its actions performed, and the log's end mirrored; each input with the term that the log
  -- has at its end by then.
  unfoldable pub drive : RaftNode R → Input × ℕ → RaftNode R × List Action
  drive n i = let r = step n i.0 in (mirror r.0 (replay r.1 (ends n)) i.1, r.1)

  unfoldable pub drive_all : RaftNode R → List (Input × ℕ) → RaftNode R × List Action
  drive_all n [] = (n, [])
  drive_all n (i ∷ is) =
      let (n1, actions) = drive n i in let (n2, more) = drive_all n1 is in (n2, actions ++ more)

  -- No installed snapshot, and no truncation of what is committed.
  abbrev pub IsDriven : RaftNode R → List (Input × ℕ) → Type 0
  IsDriven n [] = Unit
  IsDriven n (i ∷ is) =
      IsOrdinary i.0
      × ((drive n i).0.commit_index ≤ (drive n i).0.last_log_index)
      × IsDriven (drive n i).0 is

  mirror-Inv :
      (m : RaftNode R) (o : Option Ends) (e : Ends) (term : ℕ)
      → o ≡ some e
      → e.0 ≤ u64_max
      → (e.0 ≡ m.last_log_index) ⊎ (is_leader_role m.role ≡ false)
      → Watermarks.Inv m
      → (mirror m o term).commit_index ≤ (mirror m o term).last_log_index
      → Watermarks.Inv (mirror m o term)
  unfolding mirror set_last_log
  mirror-Inv m none e term h small known v c = v
  mirror-Inv m (some f) e term h small known v c = elim (Bool-cases (f.0 == m.last_log_index)) [
    | inl same ↦ rw same v
    | inr moved ↦
        let end : f.0 ≡ e.0 = cc in
        let told : m.commit_index ≤ f.0 = ground arith in
        rw moved record {
          bounded = omega arith;
          committed = told;
          applied_committed = v.applied_committed;
          tracked = λ l. elim known [
            | inl same ↦ absurd (ground arith)
            | inr follows ↦ absurd (ground arith)
          ];
        }
  ]

  -- One driven step: the log is where the node believes it, and the positions stay in order.
  drive-Tracks :
      (n : RaftNode R) (i : Input × ℕ)
      → IsOrdinary i.0
      → Watermarks.Inv n
      → (drive n i).0.commit_index ≤ (drive n i).0.last_log_index
      → Tracks n (drive n i) × Watermarks.Inv (drive n i).0
  unfolding drive
  drive-Tracks n i o v c =
      let r = step n i.0 in
      let after = step-IsOrdered n i.0 (ordinary-Fits i.0 o) v in
      elim (step-Mirrors n i.0 o v) [
        | inl t ↦ (
          t ∙ ap some (sym (mirror-ends r.0 (replay r.1 (ends n)) (ends r.0) i.1 t refl)),
          mirror-Inv r.0 (replay r.1 (ends n)) (ends r.0) i.1 t after.bounded (inl refl) after c,
        )
        | inr k ↦
            let e : Ends = (min n.last_log_index k.k, n.last_applied) in
            let same : e.1 ≡ r.0.last_applied = sym (ap (λ (s : Ends). s.1) k.kept) in
            (
              k.cut ∙ ap some (sym (mirror-ends r.0 (replay r.1 (ends n)) e i.1 k.cut same)),
              mirror-Inv r.0 (replay r.1 (ends n)) e i.1 k.cut (omega (arith, v.bounded))
                  (inr k.follows) after c,
            )
      ]

  -- From a node with applied ≤ committed ≤ last, over a run of inputs other than an installed
  -- snapshot, with the log's end mirrored into the node after each step, and no truncation of
  -- committed entries: an executor that starts at the node's positions takes the actions of all steps,
  -- one after the other. It is asked to append only entries that continue its log as truncations left
  -- it, and to apply only the range after what it applied, within its log; and it ends at the node's
  -- positions.
  pub run-Tracks :
      (n : RaftNode R) (is : List (Input × ℕ))
      → IsDriven n is
      → Watermarks.Inv n
      → Tracks n (drive_all n is)
  unfolding drive_all
  run-Tracks n [] d v = unfold replay in refl
  run-Tracks n (i ∷ is) d v =
      let (tracked, ordered) = drive-Tracks n i d.0 v d.1 in
      replay-append (drive n i).1 _ (ends n) (ends (drive n i).0) _ tracked
        (run-Tracks (drive n i).0 is d.2 ordered)
