-- ===== src/Watermarks.antt =====
-- The order of the engine's positions in the log: applied, committed, last, and what a leader
-- believes of its peers (xraft-core/src/node.rs).
pub mod Leader
pub mod Follower
pub mod Step
use failover_cluster.Prelude.{[], arith, some, true, u64_max, ℕ, ◌∷◌, ◌≡◌, ◌≤◌}
use failover_cluster.Node.{RaftNode}
use failover_cluster.Peers.{PeerMap, PeerState, get, modify, modify_all}
use failover_cluster.Types.{NodeRole, is_leader_role}

-- No peer's confirmed offset passes `k`.
abbrev pub Within : ℕ → PeerMap → Type 0
Within k [] = Unit
Within k ((id, p) ∷ m) = (p.last_fetch_offset ≤ k) × Within k m

-- Applied ≤ committed ≤ last; on a leader no peer is believed to have more than the leader has.
pub record IsOrdered (role : NodeRole) (log commit applied : ℕ) (peers : PeerMap) : Type 0 where
  pub bounded : log ≤ u64_max
  pub committed : commit ≤ log
  pub applied_committed : applied ≤ commit
  pub tracked : is_leader_role role ≡ true → Within log peers

abbrev pub Inv : {R : Type 0} → RaftNode R → Type 0
Inv n = IsOrdered n.role n.last_log_index n.commit_index n.last_applied n.peers

pub Within-mono : (j k : ℕ) (m : PeerMap) → j ≤ k → Within j m → Within k m
Within-mono j k [] h w = tt
Within-mono j k ((id, p) ∷ m) h w = (omega arith, Within-mono j k m h w.1)

pub modify-Within :
    (k id : ℕ) (f : PeerState → PeerState) (m : PeerMap)
    → ((p : PeerState) → p.last_fetch_offset ≤ k → (f p).last_fetch_offset ≤ k)
    → Within k m
    → Within k (modify id f m)
unfolding modify
modify-Within k id f [] keep w = tt
modify-Within k id f ((j, p) ∷ m) keep w =
    ground (arith, keep p w.0, modify-Within k id f m keep w.1)

pub modify_all-Within :
    (k : ℕ) (f : PeerState → PeerState) (m : PeerMap)
    → ((p : PeerState) → (f p).last_fetch_offset ≤ k)
    → Within k (modify_all f m)
unfolding modify_all
modify_all-Within k f [] keep = tt
modify_all-Within k f ((j, p) ∷ m) keep = (keep p, modify_all-Within k f m keep)

pub get-Within :
    (k id : ℕ) (m : PeerMap) (p : PeerState)
    → Within k m
    → get id m ≡ some p
    → p.last_fetch_offset ≤ k
unfolding get
get-Within k id [] p w e = cc
get-Within k id ((j, q) ∷ m) p w e = ground (arith, get-Within k id m p w.1)
