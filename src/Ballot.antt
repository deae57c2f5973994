-- ===== src/Ballot.antt =====
-- The ballot of a node, its `hard_state`: how the handlers of xraft-core/src/node.rs may change the
-- term and the vote.
pub mod Roles
pub mod Election
pub mod Step
use failover_cluster.Prelude.{u64_max, ◌<◌, ℕ, some, ◌≤◌, ◌≡◌, arith}
use failover_cluster.Types.{HardState}

-- No term is left for a lower one, and within a term a vote stands, as long as the terms have not
-- saturated at `u64::MAX`.
pub record Follows (h h' : HardState) : Type 0 where
  pub grows : h'.current_term < u64_max → h.current_term ≤ h'.current_term
  pub kept :
      h'.current_term < u64_max
      → h'.current_term ≡ h.current_term
      → (v : ℕ) → h.voted_for ≡ some v
      → h'.voted_for ≡ some v

pub Follows-refl : (h : HardState) → Follows h h
Follows-refl h = record { grows = λ _. omega arith; kept = λ _ e v q. q }

pub Follows-trans : (h1 h2 h3 : HardState) → Follows h1 h2 → Follows h2 h3 → Follows h1 h3
Follows-trans h1 h2 h3 a b = record {
  grows = λ l. let ge = b.grows l in let ge' = a.grows (omega arith) in omega arith;
  kept = λ l e v q.
      let ge = b.grows l in
      let ge' = a.grows (omega arith) in
      b.kept l (omega arith) v (a.kept (omega arith) (omega arith) v q);
}

-- The term rises and the vote is not kept: a new ballot.
pub Follows-newer : (h h' : HardState) → h.current_term < h'.current_term → Follows h h'
Follows-newer h h' lt = record { grows = λ _. omega arith; kept = λ _ e. absurd (omega arith) }
