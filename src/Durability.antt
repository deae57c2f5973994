-- ===== src/Durability.antt =====
-- The order of persistence and votes in the actions that xraft-core/src/node.rs returns.
pub mod Step
use failover_cluster.Node.Roles.{to_voters}
use failover_cluster.Node.Tick.{fetch_from_all}
use failover_cluster.Peers.{PeerMap}
use failover_cluster.Prelude.{
  All, Bool, List, [], arith, false, inl, inr, true, ℕ, ◌≡◌, ◌∷◌, ◌⊎◌, ◌++◌,
}
use failover_cluster.Message.{
  Action, FetchRequest, OutboundMessage, persist_hard_state, send_message,
}

-- Messages that rest on the term and vote of their sender: a request for votes, a granted vote.
abbrev pub is_binding_message : OutboundMessage → Bool
is_binding_message m = elim m [
  | OutboundMessage.vote_request req ↦ true
  | OutboundMessage.vote_response resp ↦ resp.vote_granted
  | _ ↦ false
]

abbrev pub is_binding : Action → Bool
is_binding a = elim a [ send_message to m ↦ is_binding_message m | _ ↦ false ]

abbrev pub is_persist : Action → Bool
is_persist a = elim a [ persist_hard_state ↦ true | _ ↦ false ]

-- There is a `PersistHardState`, and no binding message stands before the first.
abbrev pub IsDurable : List Action → Type 0
IsDurable [] = ⊥
IsDurable (a ∷ rest) = (is_persist a ≡ true) ⊎ ((is_binding a ≡ false) × IsDurable rest)

abbrev pub IsQuiet : List Action → Type 0
IsQuiet = All (λ a. is_binding a ≡ false)

pub IsDurable-append : (xs ys : List Action) → IsDurable xs → IsDurable (xs ++ ys)
IsDurable-append [] ys h = absurd h
IsDurable-append (x ∷ xs) ys (inl p) = inl p
IsDurable-append (x ∷ xs) ys (inr h) = inr (h.0, IsDurable-append xs ys h.1)

pub IsDurable-after : (xs ys : List Action) → IsQuiet xs → IsDurable ys → IsDurable (xs ++ ys)
IsDurable-after [] ys q h = h
IsDurable-after (x ∷ xs) ys q h = inr (q.0, IsDurable-after xs ys q.1 h)

pub to_voters-IsQuiet :
    (m : OutboundMessage) (peers : PeerMap)
    → is_binding_message m ≡ false
    → IsQuiet (to_voters m peers)
unfolding to_voters
to_voters-IsQuiet m [] h = tt
to_voters-IsQuiet m ((id, p) ∷ rest) h = ground (arith, to_voters-IsQuiet m rest h)

pub fetch_from_all-IsQuiet :
    (id : ℕ) (req : FetchRequest) (peers : PeerMap) → IsQuiet (fetch_from_all id req peers)
unfolding fetch_from_all
fetch_from_all-IsQuiet id req [] = tt
fetch_from_all-IsQuiet id req ((j, p) ∷ rest) = ground (arith, fetch_from_all-IsQuiet id req rest)
