-- ===== src/FileLog/Consistent/Append/Order.antt =====
-- Appending in order keeps the segments in order: xraft-storage/src/log.rs, `append`.
use failover_cluster.FileLog.Consistent.Cut.Order.{last_index_from-ascending, last_index_from-base}
use failover_cluster.LogStore.{last_index_from}
use failover_cluster.FileLog.Recovery.{entry_key}
use failover_cluster.FileLog.Consistent.Append.{add_last, add_segment}
use failover_cluster.FileLog.Consistent.{Logs}
use failover_cluster.Prelude.{
  is_empty, List, [], arith, dec_lt, false, inl, inr, lt→ltb, max, not_ltb, refl, subst, sym, ℕ,
  ◌≤◌, ◌++◌, ◌∙◌, ◌-◌, ◌<◌, ◌≡◌, ◌∷◌,
}
use failover_cluster.FileLog.Consistent.Live.{IsSorted, flat, live}
use failover_cluster.FileLog.Maps.{IsAscending}
use failover_cluster.FileLog.Consistent.Append.Room.{HasRoom}
use failover_cluster.Message.{Entry}
use failover_cluster.FileLog.Codec.{Encoding}

-- The index that the next entry has to pass: the last one, or the last segment's name.
abbrev pub end_of : ℕ → Logs → ℕ
end_of k [] = k
end_of k ((b, es) ∷ logs) = end_of (last_index_from b es) logs

-- No segment is empty.
abbrev pub IsFilled : Logs → Type 0
IsFilled [] = Unit
IsFilled ((b, es) ∷ logs) = (is_empty es ≡ false) × IsFilled logs

pub end_of-IsSorted : (k : ℕ) (logs : Logs) → IsSorted k logs → k ≤ end_of k logs
end_of-IsSorted k [] o = omega arith
end_of-IsSorted k ((b, es) ∷ logs) o =
    omega
      (arith, last_index_from-base b es o.1, end_of-IsSorted (last_index_from b es) logs o.2, o.0)

IsAscending-snoc :
    (j i : ℕ) (es : List Entry) (e : Entry)
    → j < e.index
    → last_index_from i es < e.index
    → IsAscending entry_key j es
    → IsAscending entry_key j (es ++ (e ∷ []))
unfolding last_index_from
IsAscending-snoc j i [] e h l a = (h, tt)
IsAscending-snoc j i (x ∷ es) e h l a =
    let reach = last_index_from-ascending x.index es a.1 in
    (a.0, IsAscending-snoc x.index x.index es e (omega (arith, reach, l)) l a.1)

pub last_snoc : (i : ℕ) (es : List Entry) (e : Entry) → last_index_from i (es ++ (e ∷ [])) ≡ e.index
unfolding last_index_from
last_snoc i [] e = refl
last_snoc i (x ∷ es) e = last_snoc x.index es e

is_empty-snoc : (es : List Entry) (e : Entry) → is_empty (es ++ (e ∷ [])) ≡ false
is_empty-snoc [] e = refl
is_empty-snoc (x ∷ es) e = refl

add_last-IsSorted :
    (k : ℕ) (logs : Logs) (e : Entry)
    → IsSorted k logs
    → end_of k logs < e.index
    → IsSorted k (add_last e logs)
unfolding add_last
add_last-IsSorted k [] e o h = tt
add_last-IsSorted k ((b, es) ∷ []) e o h =
    let own = last_index_from-base b es o.1 in
    (o.0, IsAscending-snoc (b - 1) b es e (omega (arith, own, h)) h o.1, tt)
add_last-IsSorted k ((b, es) ∷ m ∷ logs) e o h =
    (o.0, o.1, add_last-IsSorted (last_index_from b es) (m ∷ logs) e o.2 h)

add_last-IsFilled : (logs : Logs) (e : Entry) → IsFilled logs → IsFilled (add_last e logs)
unfolding add_last
add_last-IsFilled [] e f = tt
add_last-IsFilled ((b, es) ∷ []) e f = (is_empty-snoc es e, tt)
add_last-IsFilled ((b, es) ∷ m ∷ logs) e f = (f.0, add_last-IsFilled (m ∷ logs) e f.1)

-- A new segment for the entry.
new_last-IsSorted :
    (k : ℕ) (logs : Logs) (e : Entry)
    → IsSorted k logs
    → end_of k logs < e.index
    → IsSorted k (add_last e (add_segment e.index logs))
unfolding add_last add_segment
new_last-IsSorted k [] e o h = (h, (omega (arith, h), tt), tt)
new_last-IsSorted k (l ∷ []) e o h =
    (o.0, o.1, new_last-IsSorted (last_index_from l.0 l.1) [] e tt h)
new_last-IsSorted k (l ∷ m ∷ logs) e o h =
    (o.0, o.1, new_last-IsSorted (last_index_from l.0 l.1) (m ∷ logs) e o.2 h)

new_last-IsFilled :
    (logs : Logs) (e : Entry) → IsFilled logs → IsFilled (add_last e (add_segment e.index logs))
unfolding add_last add_segment
new_last-IsFilled [] e f = (refl, tt)
new_last-IsFilled (l ∷ []) e f = (f.0, new_last-IsFilled [] e tt)
new_last-IsFilled (l ∷ m ∷ logs) e f = (f.0, new_last-IsFilled (m ∷ logs) e f.1)

pub HasRoom-IsSorted :
    (enc : Encoding) (logs grown : Logs) (e : Entry)
    → HasRoom enc logs e.index grown
    → IsSorted 0 logs
    → end_of 0 logs < e.index
    → IsSorted 0 (add_last e grown)
HasRoom-IsSorted enc logs grown e (inl (same, some_log)) o h =
    subst (λ l. IsSorted 0 (add_last e l)) (sym same) (add_last-IsSorted 0 logs e o h)
HasRoom-IsSorted enc logs grown e (inr same) o h =
    subst (λ l. IsSorted 0 (add_last e l)) (sym same) (new_last-IsSorted 0 logs e o h)

pub HasRoom-IsFilled :
    (enc : Encoding) (logs grown : Logs) (e : Entry)
    → HasRoom enc logs e.index grown
    → IsFilled logs
    → IsFilled (add_last e grown)
HasRoom-IsFilled enc logs grown e (inl (same, some_log)) f =
    subst (λ l. IsFilled (add_last e l)) (sym same) (add_last-IsFilled logs e f)
HasRoom-IsFilled enc logs grown e (inr same) f =
    subst (λ l. IsFilled (add_last e l)) (sym same) (new_last-IsFilled logs e f)

last_index_from-append :
    (i : ℕ) (xs ys : List Entry)
    → last_index_from i (xs ++ ys) ≡ last_index_from (last_index_from i xs) ys
unfolding last_index_from
last_index_from-append i [] ys = refl
last_index_from-append i (x ∷ xs) ys = last_index_from-append x.index xs ys

-- Every segment filled, the last index in the files is that of the last live entry, or dead.
live_end :
    (floor i j : ℕ) (es : List Entry)
    → i ≤ max floor j
    → last_index_from i es ≤ max floor (last_index_from j (live floor es))
unfolding last_index_from live
live_end floor i j [] h = h
live_end floor i j (e ∷ es) h = elim (dec_lt floor e.index) [
  | yes alive ↦ rw (lt→ltb floor e.index alive) (live_end floor e.index e.index es (omega arith))
  | no dead ↦ rw (not_ltb floor e.index (omega arith)) (live_end floor e.index j es (omega arith))
]

end_of-flat :
    (k i : ℕ) (logs : Logs) → IsFilled logs → i ≡ k → end_of k logs ≡ last_index_from i (flat logs)
unfolding flat last_index_from
end_of-flat k i [] f e = sym e
end_of-flat k i ((b, []) ∷ logs) f e = absurd (ground (arith, f.0))
end_of-flat k i ((b, x ∷ es) ∷ logs) f e =
    end_of-flat (last_index_from x.index es) (last_index_from x.index es) logs f.1 refl
    ∙ sym (last_index_from-append x.index es (flat logs))

pub end_of-live :
    (floor : ℕ) (logs : Logs)
    → IsFilled logs
    → end_of 0 logs ≤ max floor (last_index_from 0 (live floor (flat logs)))
end_of-live floor logs f =
    let reach = live_end floor 0 0 (flat logs) (omega arith) in
    omega (arith, end_of-flat 0 0 logs f refl, reach)
