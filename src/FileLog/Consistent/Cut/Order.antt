-- ===== src/FileLog/Consistent/Cut/Order.antt =====
-- The order of segments that are cut, and of the segments behind the cut.
use failover_cluster.LogStore.{last_index_from}
use failover_cluster.FileLog.Recovery.{entry_key}
use failover_cluster.FileLog.Consistent.{Logs}
use failover_cluster.FileLog.Consistent.Live.{IsSorted, flat, last_index_from_mono}
use failover_cluster.FileLog.Consistent.Cut.{IsGone}
use failover_cluster.FileLog.Maps.{IsAscending}
use failover_cluster.Message.{Entry}
use failover_cluster.Prelude.{All, All-append, List, [], arith, suc, ℕ, ◌-◌, ◌++◌, ◌≤◌, ◌∷◌}

-- All above a bound is gone, when the bound is not below the floor and the cut.
ascending-IsGone :
    (floor index j : ℕ) (es : List Entry)
    → floor ≤ j
    → index ≤ suc j
    → IsAscending entry_key j es
    → All (IsGone floor index) es
ascending-IsGone floor index j [] hf hi a = tt
ascending-IsGone floor index j (e ∷ es) hf hi a = (
  (omega (arith, a.0), omega (arith, a.0)),
  ascending-IsGone floor index e.index es (omega (arith, a.0)) (omega (arith, a.0)) a.1,
)

IsAscending-prefix :
    (j : ℕ) (xs ys : List Entry) → IsAscending entry_key j (xs ++ ys) → IsAscending entry_key j xs
IsAscending-prefix j [] ys a = tt
IsAscending-prefix j (x ∷ xs) ys a = (a.0, IsAscending-prefix x.index xs ys a.1)

IsAscending-suffix :
    (j : ℕ) (xs : List Entry) (e : Entry) (ys : List Entry)
    → IsAscending entry_key j (xs ++ (e ∷ ys))
    → IsAscending entry_key e.index ys
IsAscending-suffix j [] e ys a = a.1
IsAscending-suffix j (x ∷ xs) e ys a = IsAscending-suffix x.index xs e ys a.1

pub last_index_from-ascending :
    (j : ℕ) (es : List Entry) → IsAscending entry_key j es → j ≤ last_index_from j es
unfolding last_index_from
last_index_from-ascending j [] a = omega arith
last_index_from-ascending j (e ∷ es) a =
    omega (arith, last_index_from-ascending e.index es a.1, a.0)

-- A segment's last index is not below its base.
pub last_index_from-base :
    (base : ℕ) (es : List Entry)
    → IsAscending entry_key (base - 1) es
    → base ≤ last_index_from base es
unfolding last_index_from
last_index_from-base base [] a = omega arith
last_index_from-base base (e ∷ es) a = omega (arith, last_index_from-ascending e.index es a.1, a.0)

last_index_from-reaches :
    (i j : ℕ) (xs : List Entry) (e : Entry) (ys : List Entry)
    → IsAscending entry_key j (xs ++ (e ∷ ys))
    → e.index ≤ last_index_from i (xs ++ (e ∷ ys))
unfolding last_index_from
last_index_from-reaches i j [] e ys a = last_index_from-ascending e.index ys a.1
last_index_from-reaches i j (x ∷ xs) e ys a = last_index_from-reaches x.index x.index xs e ys a.1

sorted-IsGone :
    (floor index m : ℕ) (logs : Logs)
    → floor ≤ m
    → index ≤ suc m
    → IsSorted m logs
    → All (IsGone floor index) (flat logs)
unfolding flat
sorted-IsGone floor index m [] hf hi s = tt
sorted-IsGone floor index m ((b, es) ∷ logs) hf hi s =
    let reach = last_index_from_mono (b - 1) b es (omega arith) in
    let start = last_index_from-ascending (b - 1) es s.1 in
    All-append (IsGone floor index) es (flat logs)
      (ascending-IsGone floor index (b - 1) es (omega (arith, s.0)) (omega (arith, s.0)) s.1)
      (sorted-IsGone floor index (last_index_from b es) logs (omega (arith, s.0, reach, start))
        (omega (arith, s.0, reach, start)) s.2)

-- Cut segments are in order, and all behind the cut is gone.
pub IsSorted-cut :
    (floor index k : ℕ) (before : Logs) (base : ℕ) (kept : List Entry) (e : Entry)
    (rest : List Entry) (after : Logs)
    → IsGone floor index e
    → IsSorted k (before ++ ((base, kept ++ (e ∷ rest)) ∷ after))
    → IsSorted k (before ++ ((base, kept) ∷ []))
      × All (IsGone floor index) (e ∷ rest)
      × All (IsGone floor index) (flat after)
IsSorted-cut floor index k [] base kept e rest after g s =
    let reach = last_index_from-reaches base (base - 1) kept e rest s.1 in
    (
      (s.0, IsAscending-prefix (base - 1) kept (e ∷ rest) s.1, tt),
      (
        g,
        ascending-IsGone floor index e.index rest (omega (arith, g.0)) (omega (arith, g.1))
            (IsAscending-suffix (base - 1) kept e rest s.1),
      ),
      sorted-IsGone floor index (last_index_from base (kept ++ (e ∷ rest))) after
          (omega (arith, reach, g.0)) (omega (arith, reach, g.1)) s.2,
    )
IsSorted-cut floor index k ((b, es) ∷ before) base kept e rest after g s =
    let (sorted, gone, later) =
      IsSorted-cut floor index (last_index_from b es) before base kept e rest after g s.2 in
    ((s.0, s.1, sorted), gone, later)
