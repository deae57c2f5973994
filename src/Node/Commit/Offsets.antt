-- ===== src/Node/Commit/Offsets.antt =====
-- The offset that a quorum reaches: sorting, and its place in the order.
use failover_cluster.Node.Commit.{insert_desc, sort_desc, quorum_offset}
use failover_cluster.Prelude.{
  All, List, [], arith, count_if, get_elem?, if_elim, leb, leb→le, refl, some, suc, zero, ℕ, ◌≡◌,
  ◌∷◌, ◌≤◌, ◌<◌, dec_lt, length, ◌-◌,
}

-- How many offsets are at or past `c`.
abbrev pub reached : ℕ → List ℕ → ℕ
reached c = count_if (leb c)

reached-insert_desc : (c x : ℕ) (xs : List ℕ) → reached c (insert_desc x xs) ≡ reached c (x ∷ xs)
unfolding insert_desc
reached-insert_desc c x [] = refl
reached-insert_desc c x (y ∷ ys) = ground (arith, reached-insert_desc c x ys)

reached-sort_desc : (c : ℕ) (xs : List ℕ) → reached c (sort_desc xs) ≡ reached c xs
unfolding sort_desc
reached-sort_desc c [] = refl
reached-sort_desc c (x ∷ xs) =
    ground (arith, reached-insert_desc c x (sort_desc xs), reached-sort_desc c xs)

-- No element is larger than one before it.
abbrev IsDescending : List ℕ → Type 0
IsDescending [] = Unit
IsDescending (x ∷ xs) = All (λ y. y ≤ x) xs × IsDescending xs

All-le_trans : (a b : ℕ) (xs : List ℕ) → a ≤ b → All (λ y. y ≤ a) xs → All (λ y. y ≤ b) xs
All-le_trans a b [] h all = tt
All-le_trans a b (x ∷ xs) h all = (omega arith, All-le_trans a b xs h all.1)

All-insert_desc :
    (k x : ℕ) (xs : List ℕ) → x ≤ k → All (λ y. y ≤ k) xs → All (λ y. y ≤ k) (insert_desc x xs)
unfolding insert_desc
All-insert_desc k x [] h all = (h, tt)
All-insert_desc k x (y ∷ ys) h all = ground (arith, All-insert_desc k x ys h all.1)

All-sort_desc : (k : ℕ) (xs : List ℕ) → All (λ y. y ≤ k) xs → All (λ y. y ≤ k) (sort_desc xs)
unfolding sort_desc
All-sort_desc k [] all = tt
All-sort_desc k (x ∷ xs) all = All-insert_desc k x (sort_desc xs) all.0 (All-sort_desc k xs all.1)

insert_desc-IsDescending : (x : ℕ) (xs : List ℕ) → IsDescending xs → IsDescending (insert_desc x xs)
unfolding insert_desc
insert_desc-IsDescending x [] d = (tt, tt)
insert_desc-IsDescending x (y ∷ ys) d =
    if_elim IsDescending (leb y x)
      (λ h. ((leb→le y x h, All-le_trans y x ys (leb→le y x h) d.0), d))
      (λ h. (All-insert_desc y x ys (ground arith) d.0, insert_desc-IsDescending x ys d.1))

sort_desc-IsDescending : (xs : List ℕ) → IsDescending (sort_desc xs)
unfolding sort_desc
sort_desc-IsDescending [] = tt
sort_desc-IsDescending (x ∷ xs) = insert_desc-IsDescending x _ (sort_desc-IsDescending xs)

All-get_elem? : (k i c : ℕ) (xs : List ℕ) → All (λ y. y ≤ k) xs → get_elem? xs i ≡ some c → c ≤ k
All-get_elem? k i c [] all e = cc
All-get_elem? k zero c (x ∷ xs) all e = ground arith
All-get_elem? k (suc i) c (x ∷ xs) all e = All-get_elem? k i c xs all.1 e

-- In a descending list the element at place `i` has `i` others at least as large,
reached-get_elem? :
    (i c : ℕ) (xs : List ℕ) → IsDescending xs → get_elem? xs i ≡ some c → i < reached c xs
reached-get_elem? i c [] d e = cc
reached-get_elem? zero c (x ∷ xs) d e = ground arith
reached-get_elem? (suc i) c (x ∷ xs) d e =
    ground (arith, All-get_elem? x i c xs d.0 e, reached-get_elem? i c xs d.1 e)

not_reached : (c d : ℕ) (xs : List ℕ) → All (λ y. y ≤ c) xs → c < d → reached d xs ≡ 0
not_reached c d [] all h = refl
not_reached c d (x ∷ xs) all h = ground (arith, not_reached c d xs all.1 h)

-- and a larger bound is met by the elements before it at most.
reached-le :
    (i c d : ℕ) (xs : List ℕ) → IsDescending xs → get_elem? xs i ≡ some c → c < d → reached d xs ≤ i
reached-le i c d [] s e h = cc
reached-le zero c d (x ∷ xs) s e h = ground (arith, not_reached x d xs s.0)
reached-le (suc i) c d (x ∷ xs) s e h = ground (arith, reached-le i c d xs s.1 e h)

get_elem?-total : (i : ℕ) (xs : List ℕ) → i < length xs → (c : ℕ) × (get_elem? xs i ≡ some c)
get_elem?-total i [] h = elim h [ ]
get_elem?-total zero (x ∷ xs) h = (x, refl)
get_elem?-total (suc i) (x ∷ xs) h = get_elem?-total i xs (omega arith)

length-insert_desc : (x : ℕ) (xs : List ℕ) → length (insert_desc x xs) ≡ suc (length xs)
unfolding insert_desc
length-insert_desc x [] = refl
length-insert_desc x (y ∷ ys) = ground (arith, length-insert_desc x ys)

length-sort_desc : (xs : List ℕ) → length (sort_desc xs) ≡ length xs
unfolding sort_desc
length-sort_desc [] = refl
length-sort_desc (x ∷ xs) = ground (arith, length-insert_desc x (sort_desc xs), length-sort_desc xs)

quorum_offset_inv :
    (q c : ℕ) (xs : List ℕ)
    → quorum_offset q xs ≡ some c
    → get_elem? (sort_desc xs) (q - 1) ≡ some c
unfolding quorum_offset
quorum_offset_inv q c xs e = ground arith

-- The offset is reached by `q` of the list,
pub quorum_offset-reached :
    (q c : ℕ) (xs : List ℕ) → 0 < q → quorum_offset q xs ≡ some c → q ≤ reached c xs
quorum_offset-reached q c xs h e =
    let n =
      reached-get_elem? (q - 1) c (sort_desc xs) (sort_desc-IsDescending xs)
        (quorum_offset_inv q c xs e) in
    omega (arith, reached-sort_desc c xs)

-- no later one is,
pub quorum_offset-highest :
    (q c d : ℕ) (xs : List ℕ) → 0 < q → quorum_offset q xs ≡ some c → q ≤ reached d xs → d ≤ c
quorum_offset-highest q c d xs h e r = elim (dec_lt c d) [
  | no le ↦ omega arith
  | yes lt ↦
      let few =
        reached-le (q - 1) c d (sort_desc xs) (sort_desc-IsDescending xs)
          (quorum_offset_inv q c xs e) lt in
      absurd (omega (arith, reached-sort_desc d xs))
]

-- it is no larger than all of them,
pub quorum_offset-le :
    (q c k : ℕ) (xs : List ℕ) → quorum_offset q xs ≡ some c → All (λ y. y ≤ k) xs → c ≤ k
quorum_offset-le q c k xs e all =
    All-get_elem? k (q - 1) c (sort_desc xs) (All-sort_desc k xs all) (quorum_offset_inv q c xs e)

-- and there is one as soon as the list is that long.
pub quorum_offset-total :
    (q : ℕ) (xs : List ℕ) → 0 < q → q ≤ length xs → (c : ℕ) × (quorum_offset q xs ≡ some c)
unfolding quorum_offset
quorum_offset-total q xs h l =
    let (c, e) = get_elem?-total (q - 1) (sort_desc xs) (omega (arith, length-sort_desc xs)) in
    (c, ground arith)
