-- ===== src/Peers.antt =====
-- xraft-core/src/node.rs, `PeerState`, and the operations of `HashMap<NodeId, PeerState>` that the
-- engine uses. A map is an association list in the order in which `iter()` visits it; the engine's
-- theorems are about every such list, so about every order.
pub mod Lookup
use failover_cluster.Prelude.{
  ℕ, Bool, true, false, List, [], ◌∷◌, Option, none, some, ◌==◌, if◌then◌else◌,
}

pub record PeerState : Type 0 where
  pub last_fetch_offset : ℕ
  pub last_fetch_time : ℕ
  pub last_caught_up_time : ℕ
  pub last_fetch_seq : ℕ
  pub is_voter : Bool

unfoldable pub new : Bool → PeerState
new is_voter = record {
  last_fetch_offset = 0;
  last_fetch_time = 0;
  last_caught_up_time = 0;
  last_fetch_seq = 0;
  is_voter = is_voter;
}

abbrev pub PeerMap : Type 0
PeerMap = List (ℕ × PeerState)

unfoldable pub get : ℕ → PeerMap → Option PeerState
get k [] = none
get k ((j, p) ∷ m) = if j == k then some p else get k m

unfoldable pub contains_key : ℕ → PeerMap → Bool
contains_key k [] = false
contains_key k ((j, p) ∷ m) = if j == k then true else contains_key k m

-- `insert`: the value of a key that is there is replaced.
unfoldable pub insert : ℕ → PeerState → PeerMap → PeerMap
insert k v [] = (k, v) ∷ []
insert k v ((j, p) ∷ m) = if j == k then (k, v) ∷ m else (j, p) ∷ insert k v m

-- `if let Some(peer) = get_mut(k) { … }`.
unfoldable pub modify : ℕ → (PeerState → PeerState) → PeerMap → PeerMap
modify k f [] = []
modify k f ((j, p) ∷ m) = if j == k then (j, f p) ∷ m else (j, p) ∷ modify k f m

-- `for peer in values_mut() { … }`.
unfoldable pub modify_all : (PeerState → PeerState) → PeerMap → PeerMap
modify_all f [] = []
modify_all f ((j, p) ∷ m) = (j, f p) ∷ modify_all f m

-- `entry(k).or_insert_with(v)`.
unfoldable pub or_insert : ℕ → PeerState → PeerMap → PeerMap
unfolding contains_key insert
or_insert k v m = if contains_key k m then m else insert k v m
