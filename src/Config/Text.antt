-- ===== src/Config/Text.antt =====
-- What xraft-core/src/config.rs uses of texts, as lists of code points, and of their parsing.
use failover_cluster.Prelude.{
  is_empty, Bool, List, [], ℕ, Option, contains, false, leb, none, some, true, ◌==◌, ◌+◌, ◌&&◌, ◌*◌,
  ◌∷◌, if◌then◌else◌, ◌||◌, ◌-◌,
}

abbrev pub Text : Type 0
Text = List ℕ

unfoldable pub text_eq : Text → Text → Bool
text_eq [] [] = true
text_eq [] (d ∷ ds) = false
text_eq (c ∷ cs) [] = false
text_eq (c ∷ cs) (d ∷ ds) = (c == d) && text_eq cs ds

-- The texts before and behind the last colon (58).
unfoldable pub split_at_colon : Text → Option (Text × Text)
split_at_colon [] = none
split_at_colon (c ∷ cs) = elim (split_at_colon cs) [
  | some parts ↦ some (c ∷ parts.0, parts.1)
  | none ↦ if c == 58 then some ([], cs) else none
]

-- `char::is_whitespace`.
unfoldable pub is_whitespace : ℕ → Bool
is_whitespace c =
    (leb 9 c && leb c 13)
    || (leb 8192 c && leb c 8202)
    || contains (32 ∷ 133 ∷ 160 ∷ 5760 ∷ 8232 ∷ 8233 ∷ 8239 ∷ 8287 ∷ 12288 ∷ []) c

unfoldable pub trim_start : Text → Text
trim_start [] = []
trim_start (c ∷ cs) = let rest = trim_start cs in if is_whitespace c then rest else c ∷ cs

unfoldable pub trim_end : Text → Text
trim_end [] = []
trim_end (c ∷ cs) =
    let rest = trim_end cs in if is_empty rest && is_whitespace c then [] else c ∷ rest

unfoldable pub trim : Text → Text
trim t = trim_end (trim_start t)

-- Decimal digits, from what is read so far; `none` past the greatest number of the type.
unfoldable pub parse_digits : ℕ → ℕ → Text → Option ℕ
parse_digits greatest acc [] = some acc
parse_digits greatest acc (c ∷ cs) =
    let read = acc * 10 + (c - 48) in
    let rest = parse_digits greatest read cs in
    if leb 48 c && leb c 57 && leb read greatest then rest else none

-- `str::parse` for an unsigned type: no empty text, and one plus sign (43) may lead.
unfoldable pub parse_unsigned : ℕ → Text → Option ℕ
parse_unsigned greatest [] = none
parse_unsigned greatest (c ∷ []) = parse_digits greatest 0 (c ∷ [])
parse_unsigned greatest (c ∷ d ∷ cs) =
    parse_digits greatest 0 (if c == 43 then d ∷ cs else c ∷ d ∷ cs)
