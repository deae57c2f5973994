-- ===== src/HardState/Restart.antt =====
-- What `FileHardStateStore` remembers over writes and restarts.
use failover_cluster.Prelude.{
  List, Option, Option-cases, [], inl, inr, ltb, none, refl, some, ◌∷◌, ◌||◌, ◌≡◌, if◌then◌else◌,
  Bool-cases, ap, sym, ◌∙◌,
}
use failover_cluster.Types.{HardState, VoterSet}
use failover_cluster.HardState.{
  CachedQuorumState, FileHardStateStore, Json, atomic_write, carries_hard_state, from_cached,
  is_some, load, open_store, persist, persist_voter_set, read_state, rename_tmp, store_cached,
  to_cached, write_tmp, default_cached, empty_dir, with_hard_state, with_voter_set,
}

-- A restart finds the directory with a file that an interrupted write may have left: a crash before
-- the rename of a write is a restart with that file, one after it is the write and a restart.
pub data HardOp (F : Type 0) : Type 0 where
  write_state : HardState → HardOp F
  write_voters : VoterSet → HardOp F
  restart_with : Option F → HardOp F

-- The driver's view: what was written last. A state of term 0 without a vote and with nothing committed
-- is not told from no state by a restart.
unfoldable pub recalled : Option HardState → Option HardState
recalled none = none
recalled (some h) =
    if is_some h.voted_for || ltb 0 h.current_term || ltb 0 h.commit_index then some h else none

unfoldable pub last_state : {F : Type 0} → List (HardOp F) → Option HardState → Option HardState
last_state [] o = o
last_state (write_state h ∷ ops) o = last_state ops (some h)
last_state (write_voters vs ∷ ops) o = last_state ops o
last_state (restart_with torn ∷ ops) o = last_state ops (recalled o)

unfoldable pub last_voters : {F : Type 0} → List (HardOp F) → Option VoterSet → Option VoterSet
last_voters [] o = o
last_voters (write_state h ∷ ops) o = last_voters ops o
last_voters (write_voters vs ∷ ops) o = last_voters ops (some vs)
last_voters (restart_with torn ∷ ops) o = last_voters ops o

load-marked :
    (c : CachedQuorumState) → c.hard_state_persisted ≡ is_some c.hard_state → load c ≡ c.hard_state
unfolding load
load-marked c m = elim (Option-cases c.hard_state) [
  | inl e ↦ rw m (rw e refl)
  | inr (h, e) ↦ rw m (rw e refl)
]

read_twice :
    (c : CachedQuorumState)
    → to_cached (from_cached (to_cached (from_cached c))) ≡ to_cached (from_cached c)
unfolding to_cached from_cached carries_hard_state
read_twice c = elim (Option-cases c.hard_state) [
  | inl e ↦ rw e refl
  | inr (h, e) ↦
      elim (Bool-cases (is_some h.voted_for || ltb 0 h.current_term || ltb 0 h.commit_index)) [
        | inl yes_carries ↦ rw e (rw yes_carries (rw yes_carries refl))
        | inr not_carried ↦ rw e (rw not_carried refl)
      ]
]

carries_marked :
    (c : CachedQuorumState)
    → (to_cached (from_cached c)).hard_state_persisted
      ≡ is_some (to_cached (from_cached c)).hard_state
unfolding to_cached
carries_marked c = elim (Bool-cases (carries_hard_state (from_cached c))) [
  | inl e ↦ rw e refl
  | inr e ↦ rw e refl
]

recalled-to_cached :
    (c : CachedQuorumState) → (to_cached (from_cached c)).hard_state ≡ recalled c.hard_state
unfolding to_cached from_cached carries_hard_state recalled
recalled-to_cached c = elim (Option-cases c.hard_state) [
  | inl e ↦ rw e refl
  | inr (h, e) ↦ rw e refl
]

module _ {F : Type 0} ⦃json : Json F⦄ where
  -- `none` is an `open` that fails.
  unfoldable pub hard_step : FileHardStateStore F → HardOp F → Option (FileHardStateStore F)
  hard_step s (write_state h) = some (persist s h)
  hard_step s (write_voters vs) = some (persist_voter_set s vs)
  hard_step s (restart_with torn) = open_store (record s.dir { tmp_file = torn })

  unfoldable pub hard_run :
      Option (FileHardStateStore F) → List (HardOp F) → Option (FileHardStateStore F)
  hard_run o [] = o
  hard_run none (op ∷ ops) = none
  hard_run (some s) (op ∷ ops) = hard_run (hard_step s op) ops

  -- The file is read as what the cache would be read as, and a state is marked as persisted.
  pub record IsSaved (s : FileHardStateStore F) : Type 0 where
    pub saved_lem : read_state s.dir.state_file ≡ some (to_cached (from_cached s.cached))
    pub marked_lem : s.cached.hard_state_persisted ≡ is_some s.cached.hard_state

  store_cached-IsSaved :
      (s : FileHardStateStore F) (next : CachedQuorumState)
      → next.hard_state_persisted ≡ is_some next.hard_state
      → IsSaved (store_cached s next)
  unfolding store_cached atomic_write write_tmp rename_tmp read_state
  store_cached-IsSaved s next m = record {
    saved_lem = rw (json.from_str-to_string_pretty (from_cached next)) refl;
    marked_lem = m;
  }

  persist-IsSaved : (s : FileHardStateStore F) (h : HardState) → IsSaved (persist s h)
  unfolding persist
  persist-IsSaved s h =
      store_cached-IsSaved s (with_hard_state s.cached h) (unfold with_hard_state in refl)

  persist_voter_set-IsSaved :
      (s : FileHardStateStore F) (vs : VoterSet) → IsSaved s → IsSaved (persist_voter_set s vs)
  unfolding persist_voter_set
  persist_voter_set-IsSaved s vs w =
      store_cached-IsSaved s (with_voter_set s.cached vs) (unfold with_voter_set in w.marked_lem)

  -- A restart after a write reads what was written.
  open-IsSaved :
      (s : FileHardStateStore F) (torn : Option F)
      → IsSaved s
      → (s' : FileHardStateStore F) × (open_store (record s.dir { tmp_file = torn }) ≡ some s')
        × IsSaved s'
        × (load s'.cached ≡ recalled (load s.cached))
        × (s'.cached.voter_set ≡ s.cached.voter_set)
  unfolding open_store
  open-IsSaved s torn w =
      let c = to_cached (from_cached s.cached) in
      let flag : c.hard_state_persisted ≡ is_some c.hard_state = carries_marked s.cached in
      (
        record { dir = record s.dir { tmp_file = none }; cached = c },
        rw w.saved_lem refl,
        record { saved_lem = w.saved_lem ∙ ap some (sym (read_twice s.cached)); marked_lem = flag },
        load-marked c flag
            ∙ (recalled-to_cached s.cached ∙ ap recalled (sym (load-marked s.cached w.marked_lem))),
        unfold to_cached from_cached in refl,
      )

  hard_run-IsSaved :
      (ops : List (HardOp F)) (s : FileHardStateStore F) (o : Option HardState)
      (v : Option VoterSet)
      → IsSaved s
      → load s.cached ≡ o
      → s.cached.voter_set ≡ v
      → (s' : FileHardStateStore F) × (hard_run (some s) ops ≡ some s')
        × (load s'.cached ≡ last_state ops o)
        × (s'.cached.voter_set ≡ last_voters ops v)
  unfolding hard_run hard_step last_state last_voters
  hard_run-IsSaved [] s o v w ho hv = (s, refl, ho, hv)
  hard_run-IsSaved (write_state h ∷ ops) s o v w ho hv =
      let next = with_hard_state s.cached h in
      hard_run-IsSaved ops (persist s h) (some h) v (persist-IsSaved s h)
        (unfold persist store_cached with_hard_state load in refl)
        (unfold persist store_cached with_hard_state in hv)
  hard_run-IsSaved (write_voters vs ∷ ops) s o v w ho hv =
      hard_run-IsSaved ops (persist_voter_set s vs) o (some vs) (persist_voter_set-IsSaved s vs w)
        (unfold persist_voter_set store_cached with_voter_set load in ho)
        (unfold persist_voter_set store_cached with_voter_set in refl)
  hard_run-IsSaved (restart_with torn ∷ ops) s o v w ho hv =
      let (s1, opens, w1, h1, v1) = open-IsSaved s torn w in
      let (s2, runs, h2, v2) =
        hard_run-IsSaved ops s1 (recalled o) v w1 (h1 ∙ ap recalled ho) (v1 ∙ hv) in
      (s2, ap (λ t. hard_run t ops) opens ∙ runs, h2, v2)

  -- From an empty directory on, over any writes of states and voter sets and any restarts, with or
  -- without the remains of an interrupted write: opening never fails, what is loaded is the state
  -- written last, and the voter set written last. Only a state of term 0 with no vote and nothing
  -- committed is gone after a restart.
  pub hard_run-remembers :
      (ops : List (HardOp F))
      → (s : FileHardStateStore F) × (hard_run (open_store empty_dir) ops ≡ some s)
        × (load s.cached ≡ last_state ops none)
        × (s.cached.voter_set ≡ last_voters ops none)
  hard_run-remembers ops =
      let s : FileHardStateStore F = record { dir = empty_dir; cached = default_cached } in
      let opens : open_store empty_dir ≡ some s = unfold open_store read_state in refl in
      let w : IsSaved s = record {
        saved_lem = unfold read_state to_cached from_cached carries_hard_state in refl;
        marked_lem = refl;
      } in
      let (s1, runs, h, v) = hard_run-IsSaved ops s none none w (unfold load in refl) refl in
      (s1, ap (λ t. hard_run t ops) opens ∙ runs, h, v)
