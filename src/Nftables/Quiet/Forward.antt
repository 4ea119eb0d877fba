-- ===== src/Nftables/Quiet/Forward.antt =====
-- The forward chain's accepts stand in that chain, and nothing jumps into it.
use easywall.Prelude.{
  ℕ, refl, sym, subst, Bool, ◌&&◌, not, Option, none, some, List, [], ◌∷◌, ◌++◌, All, All-append,
  arith, if-elim, if◌then◌else◌, is_nil,
}
use easywall.Text.{Text, same}
use easywall.Rules.{PortRule, Rules}
use easywall.Nftables.{
  Expr, Rule, Kind, rule, verdict, counter, accept, drop, back, jump, forward_chain,
  forward_lists_chain, nfproto_ipv4, nfproto_ipv6, ipproto_tcp, ipproto_udp,
}
use easywall.Nftables.Net.{Netlib}
use easywall.Nftables.Match.{
  AddrPos, pos_src_addr, pos_dst_addr, cidr_match, cidr_match_negated, without_family_test,
}
use easywall.Nftables.Accepts.{Ipv6Mode, filters_forwarded, add_established_accept}
use easywall.Nftables.Forward.{
  DockerConfig, RoutingConfig, forward_port_rule, forward_port_list, forward_denies, cidr_families,
  add_forward_port_rules, forward_exception_matches, add_forward_exceptions, on_entries,
  blocked_matches, blocked_rules, is_open, add_forward_lists, build_forward_chain,
  forward_port_rules_render, forward_cidrs, filters_published_ports,
}
use easywall.Nftables.Netfilter.{Netfilter, kind_of}
use easywall.Nftables.Reading.{kind_of-append, kind_of-append_twice, OnKind, Safe}
use easywall.Nftables.Quiet.{AllSafe, IsQuiet, quiet, quiet_tail, on_match-AllSafe, when-AllSafe}
use easywall.Nftables.Quiet.ForwardAccepts.{
  IsForwardAccept, port_accept_rules-IsForwardAccept, named_rules-IsForwardAccept,
  pinned_rules-IsForwardAccept,
}

module _ {Packet : Type 0} (nf : Netfilter Packet) (p : Packet) (b : Bool) where
  forward_accept : (r : Rule) → IsForwardAccept r → Safe nf p b r
  forward_accept r (f, k) =
      subst (λ o. OnKind nf p b o r) (sym k) (ground (arith, f), λ g m. cc (f, g))

  forward_accepts : (rs : List Rule) → All IsForwardAccept rs → AllSafe nf p b rs
  forward_accepts [] s = tt
  forward_accepts (r ∷ rs) s = (forward_accept r s.0, forward_accepts rs s.1)

  forward_port_list-AllSafe :
      (net : Netlib) (families : Bool × Bool) (ipv6 : Ipv6Mode) (proto : ℕ) (rs : List PortRule)
      → AllSafe nf p b (forward_port_list net families ipv6 proto rs)
  unfolding forward_port_list forward_port_rule
  forward_port_list-AllSafe net families ipv6 proto [] = tt
  forward_port_list-AllSafe net families ipv6 proto (r ∷ rs) =
      let built = port_accept_rules-IsForwardAccept net proto r in
      let six = pinned_rules-IsForwardAccept nfproto_ipv6 _ built in
      let four = pinned_rules-IsForwardAccept nfproto_ipv4 _ built in
      let named = named_rules-IsForwardAccept ipv6 _ built in
      All-append (Safe nf p b) _ _
        (when-AllSafe nf p b (filters_forwarded r) _ (
          All-append (Safe nf p b) _ _ (forward_accepts _ named) (
            All-append (Safe nf p b) _ _ (when-AllSafe nf p b families.0 _ (forward_accepts _ four))
              (when-AllSafe nf p b families.1 _ (forward_accepts _ six)))))
        (forward_port_list-AllSafe net families ipv6 proto rs)

  forward_denies-AllSafe :
      (net : Netlib) (cidrs : List Text) → AllSafe nf p b (forward_denies net cidrs)
  unfolding forward_denies kind_of
  forward_denies-AllSafe net [] = tt
  forward_denies-AllSafe net (cidr ∷ rest) =
      All-append (Safe nf p b) _ _
        (deny (cidr_match net cidr pos_dst_addr) (cidr_match_negated net cidr pos_src_addr))
        (forward_denies-AllSafe net rest)
    where
      deny :
          (d s : Option (List Expr))
          → AllSafe nf p b (elim d as (λ d. List Rule) [
            | none ↦ []
            | some dst ↦ elim s as (λ s. List Rule) [
              | none ↦ []
              | some src ↦
                  rule forward_chain
                    (dst ++ (without_family_test src ++ (counter ∷ verdict drop ∷ [])))
                  ∷ []
            ]
          ])
      deny none s = tt
      deny (some dst) none = tt
      deny (some dst) (some src) =
          let xs = without_family_test src in
          let tail = counter ∷ verdict drop ∷ [] in
          (
            quiet nf p b drop (rule forward_chain (dst ++ (xs ++ tail)))
                (kind_of-append_twice dst xs counter (verdict drop ∷ [])) tt,
            tt,
          )

  add_forward_exceptions-AllSafe :
      (matches : List (List Expr)) → AllSafe nf p b (add_forward_exceptions matches)
  unfolding add_forward_exceptions same kind_of
  add_forward_exceptions-AllSafe [] = tt
  add_forward_exceptions-AllSafe (match ∷ rest) = (
    forward_accept (rule forward_chain (match ++ (verdict accept ∷ [])))
        (refl, kind_of-append match (verdict accept) []),
    add_forward_exceptions-AllSafe rest,
  )

  on_entries-AllSafe :
      (net : Netlib) (c : Text) (pos : AddrPos) (k : Kind) (entries : List Text)
      → IsQuiet k
      → AllSafe nf p b (on_entries net c pos k entries)
  unfolding on_entries
  on_entries-AllSafe net c pos k [] q = tt
  on_entries-AllSafe net c pos k (entry ∷ rest) q =
      All-append (Safe nf p b) _ _ (on_match-AllSafe nf p b c (cidr_match net entry pos) k q)
        (on_entries-AllSafe net c pos k rest q)

  blocked_rules-AllSafe : (matches : List (List Expr)) → AllSafe nf p b (blocked_rules matches)
  unfolding blocked_rules kind_of
  blocked_rules-AllSafe [] = tt
  blocked_rules-AllSafe (match ∷ rest) = (
    quiet_tail nf p b drop forward_lists_chain match counter (verdict drop ∷ []) refl tt,
    blocked_rules-AllSafe rest,
  )

  add_forward_lists-AllSafe :
      (net : Netlib) (rules : Rules) (routing : RoutingConfig) (cidrs : List Text)
      → AllSafe nf p b (add_forward_lists net rules routing cidrs).0
  unfolding add_forward_lists same kind_of
  add_forward_lists-AllSafe net rules routing cidrs =
      let blocked = blocked_matches net rules.blocklist in
      if-elim {A = List Rule × Option Text} (λ r. AllSafe nf p b r.0)
        (is_nil blocked && is_nil rules.feeds) _ _ (λ e. tt)
        (λ e.
          All-append (Safe nf p b) _ _
            (on_entries-AllSafe net forward_lists_chain pos_src_addr back cidrs tt)
            (All-append (Safe nf p b) _ _ (blocked_rules-AllSafe blocked) (
              All-append (Safe nf p b) _ _
                (on_entries-AllSafe net forward_lists_chain pos_src_addr back rules.allowlist tt)
                (if-elim {A = List Rule} (AllSafe nf p b) (not (is_open routing.mode)) _ _
                  (λ e. (refl, tt))
                  (λ e.
                    on_entries-AllSafe net forward_chain pos_dst_addr (jump forward_lists_chain)
                      cidrs refl)))))

  add_forward_port_rules-AllSafe :
      (net : Netlib) (rules : Rules) (docker : DockerConfig) (cidrs : List Text) (ipv6 : Ipv6Mode)
      → AllSafe nf p b (add_forward_port_rules net rules docker cidrs ipv6)
  unfolding add_forward_port_rules
  add_forward_port_rules-AllSafe net rules docker cidrs ipv6 =
      let fs = cidr_families net cidrs in
      if-elim {A = List Rule} (AllSafe nf p b) (not (filters_published_ports docker)) _ _ (λ e. tt)
        (λ e.
          if-elim {A = List Rule} (AllSafe nf p b) (not fs.0 && not fs.1) _ _ (λ e. tt)
            (λ e.
              All-append (Safe nf p b) _ _
                (forward_port_list-AllSafe net fs ipv6 ipproto_tcp rules.tcp)
                (All-append (Safe nf p b) _ _
                  (forward_port_list-AllSafe net fs ipv6 ipproto_udp rules.udp)
                  (forward_denies-AllSafe net cidrs))))

  established-AllSafe : AllSafe nf p b (add_established_accept forward_chain)
  unfolding add_established_accept same kind_of
  established-AllSafe = ((refl, λ g m. cc g), tt)

  pub build_forward_chain-AllSafe :
      (net : Netlib) (rules : Rules) (docker : DockerConfig) (routing : RoutingConfig)
      (cidrs : List Text) (ipv6 : Ipv6Mode)
      → AllSafe nf p b (build_forward_chain net rules docker routing cidrs ipv6).0
  unfolding build_forward_chain
  build_forward_chain-AllSafe net rules docker routing cidrs ipv6 =
      let exceptions =
        if is_open routing.mode
        then []
        else forward_exception_matches net (forward_cidrs routing cidrs) in
      if-elim {A = List Rule × Option Text} (λ r. AllSafe nf p b r.0)
        (not (forward_port_rules_render net docker cidrs) && is_nil exceptions) _ _ (λ e. tt)
        (λ e. All-append (Safe nf p b) _ _ established-AllSafe (
          All-append (Safe nf p b) _ _ (add_forward_lists-AllSafe net rules routing cidrs) (
            All-append (Safe nf p b) _ _
              (add_forward_port_rules-AllSafe net rules docker cidrs ipv6)
              (add_forward_exceptions-AllSafe exceptions))))
