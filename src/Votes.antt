-- ===== src/Votes.antt =====
-- xraft-core/src/node.rs, `VoteGrantedSet`: a set of node ids, as a list without repeats.
use failover_cluster.Prelude.{ℕ, List, ◌∷◌, contains, if◌then◌else◌}

abbrev pub VoteGrantedSet : Type 0
VoteGrantedSet = List ℕ

unfoldable pub insert : ℕ → VoteGrantedSet → VoteGrantedSet
insert id votes = if contains votes id then votes else id ∷ votes
