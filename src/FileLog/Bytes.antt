-- ===== src/FileLog/Bytes.antt =====
-- Byte strings: slices, and the little-endian words that xraft-storage/src/log.rs stores.
use failover_cluster.Prelude.{
  ℕ, zero, suc, List, [], ap, arith, length, refl, ◌<◌, ◌≡◌, ◌%◌, ◌/◌, ◌*◌, ◌-◌, ◌+◌, ◌++◌, ◌∷◌,
  ◌≤◌,
}

-- A byte string is a list of bytes below 256.
abbrev pub Bytes : Type 0
Bytes = List ℕ

abbrev pub take : ℕ → Bytes → Bytes
take zero bs = []
take (suc n) [] = []
take (suc n) (b ∷ bs) = b ∷ take n bs

abbrev pub drop : ℕ → Bytes → Bytes
drop zero bs = bs
drop (suc n) [] = []
drop (suc n) (b ∷ bs) = drop n bs

-- `&buf[start..end]`.
unfoldable pub slice : Bytes → ℕ → ℕ → Bytes
slice buf start end = take (end - start) (drop start buf)

-- `to_le_bytes` of a word of `n` bytes.
unfoldable pub to_le_bytes : ℕ → ℕ → Bytes
to_le_bytes zero x = []
to_le_bytes (suc n) x = (x % 256) ∷ to_le_bytes n (x / 256)

-- `from_le_bytes`.
unfoldable pub from_le_bytes : Bytes → ℕ
from_le_bytes [] = 0
from_le_bytes (b ∷ bs) = b + 256 * from_le_bytes bs

-- How many words of `n` bytes there are.
abbrev pub words : ℕ → ℕ
words zero = 1
words (suc n) = 256 * words n

pub length-to_le_bytes : (n x : ℕ) → length (to_le_bytes n x) ≡ n
unfolding to_le_bytes
length-to_le_bytes zero x = refl
length-to_le_bytes (suc n) x = ap suc (length-to_le_bytes n (x / 256))

pub from_le_bytes-to_le_bytes : (n x : ℕ) → x < words n → from_le_bytes (to_le_bytes n x) ≡ x
unfolding to_le_bytes from_le_bytes
from_le_bytes-to_le_bytes zero x h = omega arith
from_le_bytes-to_le_bytes (suc n) x h =
    let rest = from_le_bytes-to_le_bytes n (x / 256) (omega arith) in omega (arith, rest)

pub take-append : (n : ℕ) (xs ys : Bytes) → length xs ≡ n → take n (xs ++ ys) ≡ xs
take-append zero [] ys h = refl
take-append zero (x ∷ xs) ys h = ground arith
take-append (suc n) [] ys h = ground arith
take-append (suc n) (x ∷ xs) ys h = ap (λ t. x ∷ t) (take-append n xs ys (omega (arith, h)))

drop_skip : (pre bs : Bytes) (s t : ℕ) → s ≡ length pre + t → drop s (pre ++ bs) ≡ drop t bs
drop_skip [] bs s t h = let e : s ≡ t = omega (arith, h) in ap (λ n. drop n bs) e
drop_skip (x ∷ pre) bs zero t h = ground arith
drop_skip (x ∷ pre) bs (suc s) t h = drop_skip pre bs s t (omega (arith, h))

-- A slice behind `pre` does not see it.
pub slice_skip :
    (n : ℕ) (pre bs : Bytes) (start end s e : ℕ)
    → length pre ≡ n
    → start ≡ n + s
    → end ≡ n + e
    → slice (pre ++ bs) start end ≡ slice bs s e
unfolding slice
slice_skip n pre bs start end s e h hs he =
    let size : end - start ≡ e - s = omega arith in
    rw size (ap (take (e - s)) (drop_skip pre bs start s (omega (arith, h))))

pub slice_first : (n : ℕ) (xs ys : Bytes) → length xs ≡ n → slice (xs ++ ys) 0 n ≡ xs
unfolding slice
slice_first n xs ys h = let size : n - 0 ≡ n = omega arith in rw size (take-append n xs ys h)

pub take_whole : (n : ℕ) (xs : Bytes) → length xs ≡ n → take n xs ≡ xs
take_whole zero [] h = refl
take_whole zero (x ∷ xs) h = ground arith
take_whole (suc n) [] h = refl
take_whole (suc n) (x ∷ xs) h = ap (λ t. x ∷ t) (take_whole n xs (omega (arith, h)))

pub slice_whole : (n : ℕ) (xs : Bytes) → length xs ≡ n → slice xs 0 n ≡ xs
unfolding slice
slice_whole n xs h = let size : n - 0 ≡ n = omega arith in rw size (take_whole n xs h)

take_prefix : (n : ℕ) (xs ys : Bytes) → n ≤ length xs → take n (xs ++ ys) ≡ take n xs
take_prefix zero xs ys h = refl
take_prefix (suc n) [] ys h = ground arith
take_prefix (suc n) (x ∷ xs) ys h = ap (λ t. x ∷ t) (take_prefix n xs ys (omega arith))

pub slice_prefix : (n : ℕ) (xs ys : Bytes) → n ≤ length xs → slice (xs ++ ys) 0 n ≡ slice xs 0 n
unfolding slice
slice_prefix n xs ys h = let size : n - 0 ≡ n = omega arith in rw size (take_prefix n xs ys h)
