-- ===== src/Config/Own.antt =====
-- A node that is its own peer: xraft-core/src/config.rs, the loop of `validate` over the peers.
use failover_cluster.Config.Endpoints.{
  IsEndpoint, IsOwn, is_wildcard_complete, is_wildcard_sound, parse_host_port_complete,
  parse_host_port_sound, text_eq_refl, text_eq_sound,
}
use failover_cluster.Config.Accepted.{refuse-none}
use failover_cluster.Config.Text.{Text, text_eq}
use failover_cluster.Config.Validate.{
  Externals, is_wildcard, parse_host_port, refuse, check_self, is_self, listen_addr_in_peers,
}
use mathlib.Core.Option.{some-injective}
use failover_cluster.Prelude.{
  [], ℕ, Bool-cases, Option, ap, arith, false, inl, inr, none, refl, some, subst, sym, true, ◌⊎◌,
  ◌∙◌, ◌∷◌, ◌≡◌, ◌==◌, ◌||◌, All, List, ◌&&◌,
}

module _ (ext : Externals) where
  is_self-cases :
      (listen_addr peer lh : Text) (lp : ℕ) (o : Option (Text × ℕ))
      → parse_host_port ext listen_addr ≡ some (lh, lp)
      → parse_host_port ext peer ≡ o
      → ((is_self lh lp listen_addr peer o ≡ true) × IsOwn ext listen_addr peer)
        ⊎ (is_self lh lp listen_addr peer o ≡ false)
  unfolding is_self
  is_self-cases listen_addr peer lh lp none hl hp = elim (Bool-cases (text_eq peer listen_addr)) [
    | inl same ↦
        let equal = text_eq_sound peer listen_addr same in
        let both = sym hp ∙ (ap (parse_host_port ext) equal ∙ hl) in absurd (ground arith)
    | inr other ↦ inr other
  ]
  is_self-cases listen_addr peer lh lp (some (ph, pp)) hl hp =
      elim (Bool-cases ((lp == pp) && (is_wildcard lh || text_eq lh ph))) [
        | inr other ↦ inr other
        | inl own ↦
            let same : pp ≡ lp = ground arith in
            inl (
              own,
              record {
                listen_host = lh;
                peer_host = ph;
                port = lp;
                listens = parse_host_port_sound ext listen_addr lh lp hl;
                reached =
                    subst (IsEndpoint ext peer ph) same (parse_host_port_sound ext peer ph pp hp);
                same_host = elim (Bool-cases (is_wildcard lh)) [
                  | inl wild ↦ inl (is_wildcard_sound lh wild)
                  | inr named ↦ inr (text_eq_sound lh ph (ground arith))
                ];
              },
            )
      ]

  own-is_self :
      (listen_addr peer lh : Text) (lp : ℕ)
      → parse_host_port ext listen_addr ≡ some (lh, lp)
      → IsOwn ext listen_addr peer
      → is_self lh lp listen_addr peer (parse_host_port ext peer) ≡ true
  unfolding is_self
  own-is_self listen_addr peer lh lp hl w =
      let listens = parse_host_port_complete ext listen_addr w.listen_host w.port w.listens in
      let reached = parse_host_port_complete ext peer w.peer_host w.port w.reached in
      let pair = some-injective _ _ (sym hl ∙ listens) in
      let host : lh ≡ w.listen_host = ap (λ q. q.0) pair in
      let port : lp ≡ w.port = ap (λ q. q.1) pair in
      let fits : (is_wildcard w.listen_host || text_eq w.listen_host w.peer_host) ≡ true =
        elim w.same_host [
          | inl wild ↦ rw (is_wildcard_complete w.listen_host wild) refl
          | inr same ↦ rw (same, text_eq_refl) (ground arith)
        ] in
      rw (reached, host, port, fits) (ground arith)

  -- The loop over the peers lets through exactly those that are all another node.
  pub check_self_sound :
      (listen_addr lh : Text) (lp : ℕ) (peers : List Text)
      → parse_host_port ext listen_addr ≡ some (lh, lp)
      → check_self ext listen_addr peers (some (lh, lp)) ≡ none
      → All (λ p. ¬ IsOwn ext listen_addr p) peers
  unfolding check_self
  check_self_sound listen_addr lh lp [] hl h = tt
  check_self_sound listen_addr lh lp (p ∷ ps) hl h =
      let (other, later) =
        refuse-none (is_self lh lp listen_addr p (parse_host_port ext p)) listen_addr_in_peers _
          h in
      (
        λ w. let own = own-is_self listen_addr p lh lp hl w in absurd (ground arith),
        check_self_sound listen_addr lh lp ps hl later,
      )

  pub check_self_complete :
      (listen_addr lh : Text) (lp : ℕ) (peers : List Text)
      → parse_host_port ext listen_addr ≡ some (lh, lp)
      → All (λ p. ¬ IsOwn ext listen_addr p) peers
      → check_self ext listen_addr peers (some (lh, lp)) ≡ none
  unfolding check_self refuse
  check_self_complete listen_addr lh lp [] hl a = refl
  check_self_complete listen_addr lh lp (p ∷ ps) hl a =
      elim (is_self-cases listen_addr p lh lp (parse_host_port ext p) hl refl) [
        | inl own ↦ absurd (a.0 own.1)
        | inr other ↦ rw other (check_self_complete listen_addr lh lp ps hl a.1)
      ]
