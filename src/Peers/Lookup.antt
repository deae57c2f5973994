-- ===== src/Peers/Lookup.antt =====
-- Lookup in the peer map after each of its operations.
use failover_cluster.Prelude.{
  Bool-cases, [], arith, false, inl, inr, none, refl, some, ℕ, ◌≢◌, ◌≡◌, if◌then◌else◌, ◌∷◌, ◌==◌,
}
use failover_cluster.Peers.{PeerState, PeerMap, get, contains_key, insert, or_insert}

pub get-insert :
    (v k : ℕ) (p : PeerState) (m : PeerMap)
    → get v (insert k p m) ≡ (if k == v then some p else get v m)
unfolding get insert
get-insert v k p [] = refl
get-insert v k p ((j, q) ∷ m) = ground (arith, get-insert v k p m)

contains_key-get : (k : ℕ) (m : PeerMap) → contains_key k m ≡ false → get k m ≡ none
unfolding contains_key get
contains_key-get k [] h = refl
contains_key-get k ((j, q) ∷ m) h = ground (arith, contains_key-get k m)

-- A key that is there keeps its value.
pub get-or_insert :
    (v k : ℕ) (p q : PeerState) (m : PeerMap) → get v m ≡ some q → get v (or_insert k p m) ≡ some q
unfolding or_insert
get-or_insert v k p q m h = elim (Bool-cases (contains_key k m)) [
  | inl e ↦ rw e h
  | inr e ↦
      let fresh : get k m ≡ none = contains_key-get k m e in
      rw e (rw (get-insert v k p m) (ground (arith, fresh, h)))
]

pub get-or_insert-none :
    (v k : ℕ) (p : PeerState) (m : PeerMap)
    → k ≢ v
    → get v m ≡ none
    → get v (or_insert k p m) ≡ none
unfolding or_insert
get-or_insert-none v k p m ne h = elim (Bool-cases (contains_key k m)) [
  | inl e ↦ rw e h
  | inr e ↦ rw e (rw (get-insert v k p m) (ground (arith, h)))
]
