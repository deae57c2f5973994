-- ===== src/FileLog/Maps.antt =====
-- `BTreeMap`s by index, as lists in ascending order: the entries and offsets of `FileLogStore`.
use failover_cluster.Prelude.{
  List, [], arith, ltb, not_eq, not_ltb, refl, ℕ, ◌<◌, ◌==◌, ◌++◌, ◌≤◌, ◌≡◌, if◌then◌else◌, ◌∷◌,
}

-- `insert`, which replaces the value at a key that is there.
unfoldable pub insert_at {ℓ} : {A : Type ℓ} → (A → ℕ) → A → List A → List A
insert_at key a [] = a ∷ []
insert_at key a (x ∷ xs) =
    let rest = insert_at key a xs in
    if key a == key x then a ∷ xs else if ltb (key a) (key x) then a ∷ x ∷ xs else x ∷ rest

-- Every key is below `k`.
abbrev pub KeysBelow {ℓ} : {A : Type ℓ} → (A → ℕ) → ℕ → List A → Type 0
KeysBelow key k [] = Unit
KeysBelow key k (x ∷ xs) = (key x < k) × KeysBelow key k xs

-- The keys grow, from above `k` on.
abbrev pub IsAscending {ℓ} : {A : Type ℓ} → (A → ℕ) → ℕ → List A → Type 0
IsAscending key k [] = Unit
IsAscending key k (x ∷ xs) = (k < key x) × IsAscending key (key x) xs

pub insert_at-KeysBelow {ℓ} :
    {A : Type ℓ} (key : A → ℕ) (a : A) (xs : List A)
    → KeysBelow key (key a) xs
    → insert_at key a xs ≡ xs ++ (a ∷ [])
unfolding insert_at
insert_at-KeysBelow key a [] b = refl
insert_at-KeysBelow key a (x ∷ xs) b =
    let ih = insert_at-KeysBelow key a xs b.1 in
    let far = not_eq (key a) (key x) b.0 in
    let after = not_ltb (key a) (key x) (omega (arith, b.0)) in rw (far, after, ih) refl

pub KeysBelow-mono {ℓ} :
    {A : Type ℓ} (key : A → ℕ) (j k : ℕ) (xs : List A)
    → j ≤ k
    → KeysBelow key j xs
    → KeysBelow key k xs
KeysBelow-mono key j k [] h b = tt
KeysBelow-mono key j k (x ∷ xs) h b = (omega arith, KeysBelow-mono key j k xs h b.1)

pub KeysBelow-append {ℓ} :
    {A : Type ℓ} (key : A → ℕ) (k : ℕ) (xs ys : List A)
    → KeysBelow key k xs
    → KeysBelow key k ys
    → KeysBelow key k (xs ++ ys)
KeysBelow-append key k [] ys h b = b
KeysBelow-append key k (x ∷ xs) ys h b = (h.0, KeysBelow-append key k xs ys h.1 b)
