-- ===== src/HardState.antt =====
-- xraft-storage/src/hard_state.rs: the term, the vote, the commit index and the voter set on disk.
pub mod Restart
use failover_cluster.Types.{HardState, VoterSet}
use failover_cluster.Prelude.{
  Bool, Option, false, ltb, none, some, true, ℕ, ◌||◌, if◌then◌else◌, ◌≡◌,
}

-- `OnDiskQuorumState`, what the file `quorum-state` holds.
pub record OnDiskQuorumState : Type 0 where
  pub current_term : ℕ
  pub voted_for : Option ℕ
  pub voter_set : Option VoterSet
  pub commit_index : ℕ

-- serde_json and its text, which are not in the repository: what is written is read back.
pub record Json (F : Type 0) : Type 0 where
  pub to_string_pretty : OnDiskQuorumState → F
  pub from_str : F → Option OnDiskQuorumState
  pub from_str-to_string_pretty : (d : OnDiskQuorumState) → from_str (to_string_pretty d) ≡ some d

pub record CachedQuorumState : Type 0 where
  pub hard_state : Option HardState
  pub voter_set : Option VoterSet
  pub hard_state_persisted : Bool

abbrev pub default_cached : CachedQuorumState
default_cached = record { hard_state = none; voter_set = none; hard_state_persisted = false }

abbrev pub term_or_zero : Option HardState → ℕ
term_or_zero none = 0
term_or_zero (some h) = h.current_term

abbrev pub vote_of : Option HardState → Option ℕ
vote_of none = none
vote_of (some h) = h.voted_for

abbrev pub commit_or_zero : Option HardState → ℕ
commit_or_zero none = 0
commit_or_zero (some h) = h.commit_index

unfoldable pub from_cached : CachedQuorumState → OnDiskQuorumState
from_cached c = record {
  current_term = term_or_zero c.hard_state;
  voted_for = vote_of c.hard_state;
  voter_set = c.voter_set;
  commit_index = commit_or_zero c.hard_state;
}

abbrev pub is_some {ℓ} : {A : Type ℓ} → Option A → Bool
is_some none = false
is_some (some a) = true

unfoldable pub carries_hard_state : OnDiskQuorumState → Bool
carries_hard_state d = is_some d.voted_for || ltb 0 d.current_term || ltb 0 d.commit_index

abbrev pub state_of : OnDiskQuorumState → HardState
state_of d = record {
  current_term = d.current_term;
  voted_for = d.voted_for;
  commit_index = d.commit_index;
}

-- `From<OnDiskQuorumState> for CachedQuorumState`.
unfoldable pub to_cached : OnDiskQuorumState → CachedQuorumState
to_cached d = record {
  hard_state = if carries_hard_state d then some (state_of d) else none;
  voter_set = d.voter_set;
  hard_state_persisted = carries_hard_state d;
}

-- `persist`, `persist_voter_set` and `load` on the state that both stores keep.
unfoldable pub with_hard_state : CachedQuorumState → HardState → CachedQuorumState
with_hard_state c h = record c { hard_state = some h; hard_state_persisted = true }

unfoldable pub with_voter_set : CachedQuorumState → VoterSet → CachedQuorumState
with_voter_set c vs = record c { voter_set = some vs }

unfoldable pub load : CachedQuorumState → Option HardState
load c = if c.hard_state_persisted then c.hard_state else none

-- The directory: the file, and the one that a write leaves behind when it is interrupted.
pub record QuorumDir (F : Type 0) : Type 0 where
  pub state_file : Option F
  pub tmp_file : Option F

pub record FileHardStateStore (F : Type 0) : Type 0 where
  pub dir : QuorumDir F
  pub cached : CachedQuorumState

abbrev pub empty_dir : {F : Type 0} → QuorumDir F
empty_dir = record { state_file = none; tmp_file = none }

module _ {F : Type 0} ⦃json : Json F⦄ where
  -- `none` is the error for a text that is not a record.
  unfoldable pub read_state : Option F → Option CachedQuorumState
  read_state none = some default_cached
  read_state (some text) = elim (json.from_str text) [ none ↦ none | some d ↦ some (to_cached d) ]

  abbrev pub opened : QuorumDir F → Option CachedQuorumState → Option (FileHardStateStore F)
  opened d none = none
  opened d (some c) = some record { dir = record d { tmp_file = none }; cached = c }

  -- The file that an interrupted write left is removed.
  unfoldable pub open_store : QuorumDir F → Option (FileHardStateStore F)
  open_store d = opened d (read_state d.state_file)

  -- The steps of `atomic_write`: the new text in the other file, and the rename.
  unfoldable pub write_tmp : F → QuorumDir F → QuorumDir F
  write_tmp text d = record d { tmp_file = some text }

  unfoldable pub rename_tmp : QuorumDir F → QuorumDir F
  rename_tmp d = elim d.tmp_file [
    | none ↦ d
    | some text ↦ record { state_file = some text; tmp_file = none }
  ]

  unfoldable pub atomic_write : CachedQuorumState → QuorumDir F → QuorumDir F
  atomic_write c d = rename_tmp (write_tmp (json.to_string_pretty (from_cached c)) d)

  -- The cache changes only after the file.
  unfoldable pub store_cached : FileHardStateStore F → CachedQuorumState → FileHardStateStore F
  store_cached s next = record { dir = atomic_write next s.dir; cached = next }

  unfoldable pub persist : FileHardStateStore F → HardState → FileHardStateStore F
  persist s h = store_cached s (with_hard_state s.cached h)

  unfoldable pub persist_voter_set : FileHardStateStore F → VoterSet → FileHardStateStore F
  persist_voter_set s vs = store_cached s (with_voter_set s.cached vs)
