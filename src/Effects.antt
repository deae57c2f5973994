-- ===== src/Effects.antt =====
-- What the actions of xraft-core/src/node.rs do to the log and the state machine: an executor that
-- takes only entries that continue the log and ranges that continue what was applied.
pub mod Leader
pub mod Follower
pub mod Step
pub mod Driven
use failover_cluster.FileLog.Recovery.{cut}
use failover_cluster.Prelude.{
  All, Bool, List, Option, [], arith, false, leb, none, refl, saturating_add, some, true, ℕ, ◌==◌,
  if◌then◌else◌, ◌&&◌, ◌≡◌, ◌∷◌, ◌++◌, subst, sym, min, ◌-◌,
}
use failover_cluster.Message.{Action, Entry, LogTruncation}

-- Each entry's index is the one after the log's end, in `u64`.
abbrev pub append_all : ℕ → List Entry → Option ℕ
append_all log [] = some log
append_all log (e ∷ es) =
    let rest = append_all e.index es in if e.index == saturating_add log 1 then rest else none

-- The log's end and the last applied index, each as the executor has it.
abbrev pub Ends : Type 0
Ends = ℕ × ℕ

abbrev pub with_log : ℕ → Option ℕ → Option Ends
with_log applied none = none
with_log applied (some log) = some (log, applied)

-- `apply_to_state_machine` takes the range after what was applied, as far as the log goes;
-- `truncate_log` of a suffix leaves what is before it, of a prefix no other end.
abbrev pub perform : Action → Ends → Option Ends
perform a (log, applied) = elim a [
  | Action.append_entries es ↦ with_log applied (append_all log es)
  | Action.apply_to_state_machine from to ↦
      if from == saturating_add applied 1 && leb from to && leb to log then some (log, to) else none
  | Action.truncate_log cut ↦ elim cut [
    | LogTruncation.suffix_from_inclusive from ↦ some (min log (from - 1), applied)
    | LogTruncation.prefix_through_inclusive through ↦ some (log, applied)
  ]
  | _ ↦ some (log, applied)
]

abbrev pub and_then : Option Ends → (Ends → Option Ends) → Option Ends
and_then none f = none
and_then (some s) f = f s

and_then-some :
    (o : Option Ends) (f g : Ends → Option Ends) (t u : Ends)
    → ((s : Ends) → f s ≡ some t → g s ≡ some u)
    → and_then o f ≡ some t
    → and_then o g ≡ some u
and_then-some none f g t u h e = cc
and_then-some (some s) f g t u h e = h s e

-- The actions in turn; `none` as soon as one is refused.
unfoldable pub replay : List Action → Ends → Option Ends
replay [] s = some s
replay (a ∷ rest) s = and_then (perform a s) (replay rest)

pub replay-append :
    (xs ys : List Action) (s t u : Ends)
    → replay xs s ≡ some t
    → replay ys t ≡ some u
    → replay (xs ++ ys) s ≡ some u
unfolding replay
replay-append [] ys s t u a b = let e : s ≡ t = cc in subst (λ s'. replay ys s' ≡ some u) (sym e) b
replay-append (x ∷ xs) ys s t u a b =
    and_then-some (perform x s) (replay xs) (replay (xs ++ ys)) t u
      (λ s' h. replay-append xs ys s' t u h b) a

-- An action that is no append, no application and no truncation of a suffix.
abbrev pub is_silent : Action → Bool
is_silent a = elim a [
  | Action.append_entries es ↦ false
  | Action.apply_to_state_machine from to ↦ false
  | Action.truncate_log cut ↦ elim cut [
    | LogTruncation.suffix_from_inclusive from ↦ false
    | LogTruncation.prefix_through_inclusive through ↦ true
  ]
  | _ ↦ true
]

abbrev pub IsSilent : List Action → Type 0
IsSilent = All (λ a. is_silent a ≡ true)

perform-silent : (a : Action) (s : Ends) → is_silent a ≡ true → perform a s ≡ some s
perform-silent a s h = ground arith

pub replay-IsSilent : (xs : List Action) (s : Ends) → IsSilent xs → replay xs s ≡ some s
unfolding replay
replay-IsSilent [] s q = refl
replay-IsSilent (x ∷ xs) s q =
    subst (λ o. and_then o (replay xs) ≡ some s) (sym (perform-silent x s q.0))
      (replay-IsSilent xs s q.1)
