-- ===== src/Config/Address.antt =====
-- What an address is, apart from how xraft-core/src/config.rs reads it (`validate_address`,
-- `parse_host_port`): a host, the last colon and a port.
use failover_cluster.Config.Text.{Text, parse_digits, parse_unsigned, split_at_colon}
use failover_cluster.Prelude.{
  All, [], ℕ, Bool-cases, ap, arith, contains, false, inl, inr, is_empty, leb, none, refl, some,
  true, ℕ_discrete, ◌-◌, ◌≡◌, ◌==◌, ◌&&◌, ◌≤◌, ◌*◌, ◌∙◌, ◌⊎◌, ◌++◌, ◌+◌, ◌∷◌,
}

abbrev pub IsDigit : ℕ → Type 0
IsDigit c = (48 ≤ c) × (c ≤ 57)

-- The number that digits stand for, behind `acc`.
abbrev pub value : ℕ → Text → ℕ
value acc [] = acc
value acc (c ∷ cs) = value (acc * 10 + (c - 48)) cs

-- Digits, one at least, that stand for the number; a plus sign (43) may lead.
pub record IsNumeral (t : Text) (n : ℕ) : Type 0 where
  pub digits : Text
  pub written : (t ≡ digits) ⊎ (t ≡ 43 ∷ digits)
  pub has_digits : is_empty digits ≡ false
  pub all_digits : All IsDigit digits
  pub stands_for : value 0 digits ≡ n

-- A host that is not empty, and a port behind the last colon (58).
pub record IsAddress (t host : Text) (port : ℕ) : Type 0 where
  pub port_text : Text
  pub parts : t ≡ host ++ (58 ∷ port_text)
  pub last_colon : contains port_text 58 ≡ false
  pub has_host : is_empty host ≡ false
  pub numeral : IsNumeral port_text port

value_mono : (acc : ℕ) (cs : Text) → acc ≤ value acc cs
value_mono acc [] = omega arith
value_mono acc (c ∷ cs) = omega (arith, value_mono (acc * 10 + (c - 48)) cs)

parse_digits_sound :
    (g acc n : ℕ) (cs : Text)
    → acc ≤ g
    → parse_digits g acc cs ≡ some n
    → All IsDigit cs × (value acc cs ≡ n) × (n ≤ g)
unfolding parse_digits
parse_digits_sound g acc n [] b h = let same : acc ≡ n = cc in (tt, same, omega arith)
parse_digits_sound g acc n (c ∷ cs) b h =
    let read = acc * 10 + (c - 48) in
    elim (Bool-cases (leb 48 c && leb c 57 && leb read g)) [
      | inr bad ↦ absurd (ground arith)
      | inl good ↦
          let later : parse_digits g read cs ≡ some n = ground arith in
          let (digits, same, fits) = parse_digits_sound g read n cs (ground arith) later in
          (((ground arith, ground arith), digits), same, fits)
    ]

parse_digits_complete :
    (g acc : ℕ) (cs : Text)
    → All IsDigit cs
    → value acc cs ≤ g
    → parse_digits g acc cs ≡ some (value acc cs)
unfolding parse_digits
parse_digits_complete g acc [] d b = refl
parse_digits_complete g acc (c ∷ cs) d b =
    let read = acc * 10 + (c - 48) in
    let more = value_mono read cs in
    let ih = parse_digits_complete g read cs d.1 b in
    let good : (leb 48 c && leb c 57 && leb read g) ≡ true = ground (arith, d.0) in rw good ih

pub parse_unsigned_sound :
    (g n : ℕ) (t : Text) → parse_unsigned g t ≡ some n → IsNumeral t n × (n ≤ g)
unfolding parse_unsigned
parse_unsigned_sound g n [] h = absurd (ground arith)
parse_unsigned_sound g n (c ∷ []) h =
    let (d, same, fits) = parse_digits_sound g 0 n (c ∷ []) (omega arith) h in
    (
      record {
        digits = c ∷ [];
        written = inl refl;
        has_digits = refl;
        all_digits = d;
        stands_for = same;
      },
      fits,
    )
parse_unsigned_sound g n (c ∷ d ∷ cs) h = elim (ℕ_discrete c 43) [
  | yes plus ↦
      let rest : parse_digits g 0 (d ∷ cs) ≡ some n = ground arith in
      let (all, same, fits) = parse_digits_sound g 0 n (d ∷ cs) (omega arith) rest in
      (
        record {
          digits = d ∷ cs;
          written = inr (ap (λ x. x ∷ d ∷ cs) plus);
          has_digits = refl;
          all_digits = all;
          stands_for = same;
        },
        fits,
      )
  | no bare ↦
      let rest : parse_digits g 0 (c ∷ d ∷ cs) ≡ some n = ground arith in
      let (all, same, fits) = parse_digits_sound g 0 n (c ∷ d ∷ cs) (omega arith) rest in
      (
        record {
          digits = c ∷ d ∷ cs;
          written = inl refl;
          has_digits = refl;
          all_digits = all;
          stands_for = same;
        },
        fits,
      )
]

bare_digits :
    (g : ℕ) (ds : Text)
    → is_empty ds ≡ false
    → All IsDigit ds
    → value 0 ds ≤ g
    → parse_unsigned g ds ≡ some (value 0 ds)
unfolding parse_unsigned
bare_digits g [] e d b = absurd (ground arith)
bare_digits g (c ∷ []) e d b = parse_digits_complete g 0 (c ∷ []) d b
bare_digits g (c ∷ x ∷ cs) e d b =
    let no_plus : (c == 43) ≡ false = ground (arith, d.0) in
    rw no_plus (parse_digits_complete g 0 (c ∷ x ∷ cs) d b)

signed_digits :
    (g : ℕ) (ds : Text)
    → is_empty ds ≡ false
    → All IsDigit ds
    → value 0 ds ≤ g
    → parse_unsigned g (43 ∷ ds) ≡ some (value 0 ds)
unfolding parse_unsigned
signed_digits g [] e d b = absurd (ground arith)
signed_digits g (c ∷ cs) e d b = parse_digits_complete g 0 (c ∷ cs) d b

pub parse_unsigned_complete :
    (g n : ℕ) (t : Text) → IsNumeral t n → n ≤ g → parse_unsigned g t ≡ some n
parse_unsigned_complete g n t m b =
    let fits : value 0 m.digits ≤ g = omega (arith, m.stands_for) in
    elim m.written [
      | inl bare ↦
          ap (parse_unsigned g) bare
          ∙ (bare_digits g m.digits m.has_digits m.all_digits fits ∙ ap some m.stands_for)
      | inr signed ↦
          ap (parse_unsigned g) signed
          ∙ (signed_digits g m.digits m.has_digits m.all_digits fits ∙ ap some m.stands_for)
    ]

-- What the last colon parts, or that there is none.
pub split_at_colon-cases :
    (t : Text)
    → ((host : Text) × (rest : Text) × (split_at_colon t ≡ some (host, rest))
        × (t ≡ host ++ (58 ∷ rest))
        × (contains rest 58 ≡ false))
      ⊎ ((split_at_colon t ≡ none) × (contains t 58 ≡ false))
unfolding split_at_colon
split_at_colon-cases [] = inr (refl, refl)
split_at_colon-cases (c ∷ cs) = elim (split_at_colon-cases cs) [
  | inl (host, rest, e, parts, none_later) ↦
      inl (c ∷ host, rest, rw e refl, ap (λ x. c ∷ x) parts, none_later)
  | inr (e, none_later) ↦ elim (ℕ_discrete c 58) [
    | yes colon ↦ inl ([], cs, rw (e, colon) refl, ap (λ x. x ∷ cs) colon, none_later)
    | no other ↦ inr (rw e (ground arith), ground arith)
  ]
]

split_none : (t : Text) → contains t 58 ≡ false → split_at_colon t ≡ none
unfolding split_at_colon
split_none [] h = refl
split_none (c ∷ cs) h = let later = split_none cs (ground arith) in rw later (ground arith)

pub split_at_colon_complete :
    (host rest : Text)
    → contains rest 58 ≡ false
    → split_at_colon (host ++ (58 ∷ rest)) ≡ some (host, rest)
unfolding split_at_colon
split_at_colon_complete [] rest h = rw (split_none rest h) refl
split_at_colon_complete (c ∷ host) rest h = rw (split_at_colon_complete host rest h) refl
