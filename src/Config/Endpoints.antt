-- ===== src/Config/Endpoints.antt =====
-- Addresses as they are read, and a node that is its own peer: xraft-core/src/config.rs.
use failover_cluster.Config.Accepted.{refuse-none}
use failover_cluster.Config.Text.{Text, parse_unsigned, split_at_colon, text_eq}
use failover_cluster.Config.Validate.{
  Externals, check_parts, check_port, empty_host, empty_port, host_port, is_wildcard,
  parse_host_port, parse_parts, port_out_of_range, refuse, validate_address,
}
use mathlib.Core.Option.{some-injective}
use failover_cluster.Config.Address.{
  IsAddress, IsNumeral, parse_unsigned_complete, parse_unsigned_sound, split_at_colon-cases,
  split_at_colon_complete,
}
use failover_cluster.Prelude.{
  [], ℕ, Bool-cases, Option, ap, arith, contains, false, inl, inr, is_empty, ltb, none, refl, some,
  subst, sym, true, u64_max, ◌⊎◌, ◌∙◌, ◌++◌, ◌∷◌, ◌≡◌, ◌==◌, ◌<◌, ◌≤◌, ◌||◌, Bool, if◌then◌else◌,
}

-- An address with a port from 1 to 65535.
abbrev pub IsListening : Text → Type 0
IsListening t = (host : Text) × (port : ℕ) × IsAddress t host port × (0 < port) × (port ≤ 65535)

pub text_eq_sound : (a b : Text) → text_eq a b ≡ true → a ≡ b
unfolding text_eq
text_eq_sound [] [] h = refl
text_eq_sound [] (d ∷ ds) h = absurd (ground arith)
text_eq_sound (c ∷ cs) [] h = absurd (ground arith)
text_eq_sound (c ∷ cs) (d ∷ ds) h =
    let same : c ≡ d = ground arith in let rest = text_eq_sound cs ds (ground arith) in cc

pub text_eq_refl : (a : Text) → text_eq a a ≡ true
unfolding text_eq
text_eq_refl [] = refl
text_eq_refl (c ∷ cs) = let rest = text_eq_refl cs in ground arith

option_cases {ℓ} : {A : Type ℓ} (o : Option A) → ((a : A) × (o ≡ some a)) ⊎ (o ≡ none)
option_cases none = inr refl
option_cases (some a) = inl (a, refl)

pub validate_address_sound : (t : Text) → validate_address t ≡ none → IsListening t
unfolding validate_address
validate_address_sound t h = elim (split_at_colon-cases t) [
  | inr (unsplit, _) ↦
      let failed : check_parts none ≡ none = subst (λ o. check_parts o ≡ none) unsplit h in
      absurd (unfold check_parts in ground arith)
  | inl (host, rest, split, parts, last) ↦
      let checked : check_parts (some (host, rest)) ≡ none =
        subst (λ o. check_parts o ≡ none) split h in
      port_of host rest parts last (unfold check_parts in checked)
]
  where
    port_of :
        (host rest : Text)
        → t ≡ host ++ (58 ∷ rest)
        → contains rest 58 ≡ false
        → refuse
            (is_empty host)
            empty_host
            (refuse (is_empty rest) empty_port (check_port (parse_unsigned u64_max rest)))
          ≡ none
        → IsListening t
    port_of host rest parts last checked =
        let (filled, h1) = refuse-none (is_empty host) empty_host _ checked in
        let (_, h2) = refuse-none (is_empty rest) empty_port _ h1 in
        elim (option_cases (parse_unsigned u64_max rest)) [
          | inr unread ↦
              let failed : check_port none ≡ none = subst (λ o. check_port o ≡ none) unread h2 in
              absurd (unfold check_port in ground arith)
          | inl (port, read) ↦
              let ranged : check_port (some port) ≡ none =
                subst (λ o. check_port o ≡ none) read h2 in
              let (inside, _) =
                refuse-none (port == 0 || ltb 65535 port) port_out_of_range none
                  (unfold check_port in ranged) in
              let (numeral, _) = parse_unsigned_sound u64_max port rest read in
              (
                host,
                port,
                record {
                  port_text = rest;
                  parts = parts;
                  last_colon = last;
                  has_host = filled;
                  numeral = numeral;
                },
                ground arith,
                ground arith,
              )
        ]

numeral-filled : (t : Text) (n : ℕ) → IsNumeral t n → is_empty t ≡ false
numeral-filled [] n m = elim m.written [
  | inl bare ↦ ap is_empty bare ∙ m.has_digits
  | inr signed ↦ ap is_empty signed
]
numeral-filled (c ∷ cs) n m = refl

pub validate_address_complete : (t : Text) → IsListening t → validate_address t ≡ none
unfolding validate_address check_parts check_port
validate_address_complete t (host, port, a, positive, small) =
    let split = ap split_at_colon a.parts ∙ split_at_colon_complete host a.port_text a.last_colon in
    let read = parse_unsigned_complete u64_max port a.port_text a.numeral (omega arith) in
    let inside : (port == 0 || ltb 65535 port) ≡ false = ground arith in
    rw (split, a.has_host, numeral-filled a.port_text port a.numeral, read, inside)
      (unfold refuse in refl)

-- `0.0.0.0`, `::` and `[::]`.
abbrev pub IsWildcard : Text → Type 0
IsWildcard host =
    (host ≡ 48 ∷ 46 ∷ 48 ∷ 46 ∷ 48 ∷ 46 ∷ 48 ∷ [])
    ⊎ ((host ≡ 58 ∷ 58 ∷ []) ⊎ (host ≡ 91 ∷ 58 ∷ 58 ∷ 93 ∷ []))

pub is_wildcard_sound : (host : Text) → is_wildcard host ≡ true → IsWildcard host
unfolding is_wildcard
is_wildcard_sound host h =
    let zeros : Text = 48 ∷ 46 ∷ 48 ∷ 46 ∷ 48 ∷ 46 ∷ 48 ∷ [] in
    elim (Bool-cases (text_eq host zeros)) [
      | inl e ↦ inl (text_eq_sound host zeros e)
      | inr n1 ↦ elim (Bool-cases (text_eq host (58 ∷ 58 ∷ []))) [
        | inl e ↦ inr (inl (text_eq_sound host (58 ∷ 58 ∷ []) e))
        | inr n2 ↦ inr (inr (text_eq_sound host (91 ∷ 58 ∷ 58 ∷ 93 ∷ []) (ground arith)))
      ]
    ]

pub is_wildcard_complete : (host : Text) → IsWildcard host → is_wildcard host ≡ true
unfolding is_wildcard
is_wildcard_complete host w = elim w [
  | inl e ↦ rw (e, text_eq_refl) refl
  | inr (inl e) ↦ rw e (unfold text_eq in refl)
  | inr (inr e) ↦ rw e (unfold text_eq in refl)
]

module _ (ext : Externals) where
  -- A host, in lower case, and a port.
  abbrev pub IsEndpoint : Text → Text → ℕ → Type 0
  IsEndpoint t host port =
      (written : Text) × IsAddress t written port
      × (port ≤ 65535)
      × (host ≡ ext.to_lowercase written)

  -- The peer is the node: the same port, and the same host or a wildcard to listen on.
  pub record IsOwn (listen_addr peer : Text) : Type 0 where
    pub listen_host : Text
    pub peer_host : Text
    pub port : ℕ
    pub listens : IsEndpoint listen_addr listen_host port
    pub reached : IsEndpoint peer peer_host port
    pub same_host : IsWildcard listen_host ⊎ (listen_host ≡ peer_host)

  host_port-some :
      (written rest host : Text) (p port : ℕ)
      → host_port ext written rest (some p) ≡ some (host, port)
      → (is_empty written ≡ false) × (ext.to_lowercase written ≡ host) × (p ≡ port)
  unfolding host_port
  host_port-some written rest host p port h =
      elim (Bool-cases (is_empty written || is_empty rest)) [
        | inl missing ↦ absurd (none≢some (subst (λ b. parsed b ≡ some (host, port)) missing h))
        | inr filled ↦
            let made = subst (λ b. parsed b ≡ some (host, port)) filled h in
            let pair = some-injective _ _ made in
            (ground arith, ap (λ q. q.0) pair, ap (λ q. q.1) pair)
      ]
    where
      parsed : Bool → Option (Text × ℕ)
      parsed b = if b then none else some (ext.to_lowercase written, p)

      none≢some : parsed true ≡ some (host, port) → ⊥
      none≢some e = cc

  pub parse_host_port_sound :
      (t host : Text) (port : ℕ)
      → parse_host_port ext t ≡ some (host, port)
      → IsEndpoint t host port
  unfolding parse_host_port
  parse_host_port_sound t host port h = elim (split_at_colon-cases t) [
    | inr (unsplit, _) ↦
        let failed : parse_parts ext none ≡ some (host, port) =
          subst (λ o. parse_parts ext o ≡ some (host, port)) unsplit h in
        absurd (unfold parse_parts in ground arith)
    | inl (written, rest, split, parts, last) ↦
        let read : parse_parts ext (some (written, rest)) ≡ some (host, port) =
          subst (λ o. parse_parts ext o ≡ some (host, port)) split h in
        ported written rest parts last (unfold parse_parts in read)
  ]
    where
      ported :
          (written rest : Text)
          → t ≡ written ++ (58 ∷ rest)
          → contains rest 58 ≡ false
          → host_port ext written rest (parse_unsigned 65535 rest) ≡ some (host, port)
          → IsEndpoint t host port
      ported written rest parts last read = elim (option_cases (parse_unsigned 65535 rest)) [
        | inr unread ↦
            let failed : host_port ext written rest none ≡ some (host, port) =
              subst (λ o. host_port ext written rest o ≡ some (host, port)) unread read in
            absurd (unfold host_port in ground arith)
        | inl (p, parsed) ↦
            let found : host_port ext written rest (some p) ≡ some (host, port) =
              subst (λ o. host_port ext written rest o ≡ some (host, port)) parsed read in
            let (numeral, small) = parse_unsigned_sound 65535 p rest parsed in
            let (filled, same_host, same_port) = host_port-some written rest host p port found in
            (
              written,
              record {
                port_text = rest;
                parts = parts;
                last_colon = last;
                has_host = filled;
                numeral = subst (IsNumeral rest) same_port numeral;
              },
              omega arith,
              sym same_host,
            )
      ]

  pub parse_host_port_complete :
      (t host : Text) (port : ℕ)
      → IsEndpoint t host port
      → parse_host_port ext t ≡ some (host, port)
  unfolding parse_host_port parse_parts host_port
  parse_host_port_complete t host port (written, a, small, lower) =
      let split =
        ap split_at_colon a.parts ∙ split_at_colon_complete written a.port_text a.last_colon in
      let read = parse_unsigned_complete 65535 port a.port_text a.numeral small in
      rw (split, read, a.has_host, numeral-filled a.port_text port a.numeral, lower) refl

  -- An address is an endpoint, and so is read.
  pub listening-parsed :
      (t : Text)
      → IsListening t
      → (host : Text) × (port : ℕ) × (parse_host_port ext t ≡ some (host, port))
  listening-parsed t (host, port, a, positive, small) =
      let e : IsEndpoint t (ext.to_lowercase host) port = (host, a, small, refl) in
      (ext.to_lowercase host, port, parse_host_port_complete t (ext.to_lowercase host) port e)
