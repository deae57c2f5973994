-- ===== src/Cluster.antt =====
-- The nodes of a cluster (xraft-core/src/node.rs) and the votes that they have granted each other.
pub mod Keeps
pub mod Handlers
pub mod Grants
pub mod Safety
pub mod Leaders
use failover_cluster.Node.Step.{step}
use failover_cluster.Timer.{Rand}
use failover_cluster.Prelude.{
  All, Bool, List, false, ◌≡◌, Option, [], none, some, u64_max, ℕ, ◌∷◌, ◌⊎◌, ◌==◌, ◌++◌, ◌<◌,
  if◌then◌else◌,
}
use failover_cluster.Message.{Action, OutboundMessage, Input}
use failover_cluster.Node.{RaftNode}

abbrev pub is_grant : Action → Bool
is_grant a = elim a [
  | Action.send_message to m ↦ elim m [
    | OutboundMessage.vote_response resp ↦ resp.vote_granted
    | _ ↦ false
  ]
  | _ ↦ false
]

abbrev pub NoGrant : List Action → Type 0
NoGrant = All (λ a. is_grant a ≡ false)

-- The node is the same member of the same cluster.
abbrev pub IsSame : {R : Type 0} → RaftNode R → RaftNode R → Type 0
IsSame n m = (m.id ≡ n.id) × (m.voter_set ≡ n.voter_set)

-- The same member, and no vote is granted.
abbrev pub Keeps : {R : Type 0} → RaftNode R → RaftNode R × List Action → Type 0
Keeps n r = IsSame n r.0 × NoGrant r.1

-- A granted vote: who gave it, in which term, and to whom.
pub record Grant : Type 0 where
  pub voter : ℕ
  pub term : ℕ
  pub candidate_id : ℕ

abbrev pub grant_of : ℕ → Action → Option Grant
grant_of voter a = elim a [
  | Action.send_message to m ↦ elim m [
    | OutboundMessage.vote_response resp ↦
        if resp.vote_granted
        then some (record { voter = voter; term = resp.term; candidate_id = to })
        else none
    | _ ↦ none
  ]
  | _ ↦ none
]

abbrev pub and_grant : Option Grant → List Grant → List Grant
and_grant none gs = gs
and_grant (some g) gs = g ∷ gs

-- The votes granted in a list of actions.
abbrev pub grants_of : ℕ → List Action → List Grant
grants_of voter [] = []
grants_of voter (a ∷ rest) = and_grant (grant_of voter a) (grants_of voter rest)

abbrev pub In : Grant → List Grant → Type 0
In g [] = ⊥
In g (h ∷ gs) = (g ≡ h) ⊎ In g gs

-- Each node by its id, and the votes that have been granted so far.
pub record Cluster (R : Type 0) : Type 0 where
  pub nodes : ℕ → RaftNode R
  pub granted : List Grant

-- A granted vote in the input was given to the node.
abbrev pub IsSent : List Grant → ℕ → Input → Type 0
IsSent gs id i = elim i [
  | Input.vote_response sender resp ↦
      (resp.vote_granted ≡ false)
      ⊎ In (record { voter = sender; term = resp.term; candidate_id = id }) gs
  | _ ↦ Unit
]

module _ {R : Type 0} ⦃rand : Rand R⦄ where
  -- One node takes one step; the votes that it grants are on record from then on.
  abbrev pub deliver : Cluster R → ℕ → Input → Cluster R
  deliver c id i = record {
    nodes = λ k. if k == id then (step (c.nodes id) i).0 else c.nodes k;
    granted = grants_of id (step (c.nodes id) i).1 ++ c.granted;
  }

  -- A granted vote reaches a node only if its voter gave it to that node; any other input may come at
  -- any time. The step's term is one of `u64` below its maximum.
  abbrev pub IsDeliverable : Cluster R → ℕ → Input → Type 0
  IsDeliverable c id i =
      ((step (c.nodes id) i).0.hard_state.current_term < u64_max) × IsSent c.granted id i

  -- Any number of steps of any nodes, in any order.
  pub data Run : Cluster R → Cluster R → Type 0 where
    done : {c : Cluster R} → Run c c
    next :
        {c d : Cluster R} (id : ℕ) (i : Input)
        → IsDeliverable c id i
        → Run (deliver c id i) d
        → Run c d
