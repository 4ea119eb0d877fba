-- ===== src/Nftables/Admitted/Late.antt =====
-- The accepts of the port rules let in whom the description names.
use easywall.Prelude.{
  ℕ, subst, ◌*◌, ◌==◌, ◌≡◌, refl, ◌∙◌, Bool, true, not, ◌&&◌, ◌||◌, Option, none, some, List, [],
  ◌∷◌, ◌++◌, All, All-append, arith, if-elim, if◌then◌else◌, length, is_nil, Option-cases,
  Bool-cases, inl, inr,
}
use easywall.Text.{Text, same, trim_space}
use easywall.Rules.{PortRule}
use easywall.Rules.Validate.{is_list_comment}
use easywall.Rules.Validate.Storable.{IsPortRule}
use easywall.Nftables.{
  Bytes, Expr, Rule, meta, payload, cmp, counter, verdict, accept, eq, l4proto, network,
  input_chain, nfproto_ipv4, nfproto_ipv6,
}
use easywall.Nftables.Net.{Netlib, IpNet, to4, mask_of}
use easywall.Nftables.Match.{
  entry_net, net_match, cidr_match, cidr_match_op, pos_src_addr, build_port_exprs,
}
use easywall.Nftables.Accepts.{
  source_matches, port_accept_rule, with_sources, port_accept_rules, add_port_accepts, filters_host,
}
use easywall.Nftables.Netfilter.{Netfilter}
use easywall.Nftables.Reading.{Safe, reads, reads_masked}
use easywall.Nftables.Quiet.{AllSafe}
use easywall.Nftables.Quiet.ForwardAccepts.{port_accept_rule-accept}
use easywall.Nftables.Admitted.{
  any, has_family, has_protocol, sent_by, sent_from, sent_within, is_source, to_port, is_opened,
  opened_to,
}
use easywall.Nftables.Admitted.Runs.{run-reads, accept-Safe}
use easywall.Nftables.Admitted.Early.{Selects, run-source_in, run-source_is}
use easywall.Nftables.Admitted.Ports.{run-build_port_exprs}

module _ {Packet : Type 0} (nf : Netfilter Packet) (p : Packet) (b : Bool) where
  -- The comparison with a network, and with a network of one address.
  whole-Selects :
      (n : IpNet) (family offset len : ℕ) (addr : Bytes)
      → sent_by nf p n.ip
        ≡ (has_family nf p family && reads nf p (payload network 1 offset len) eq addr)
      → sent_from nf p n ≡ (
          has_family nf p family
          && reads_masked nf p (payload network 1 offset len) (mask_of n) eq addr)
      → Selects nf p b (sent_within nf p n) (some (net_match family offset len eq addr n))
  unfolding net_match
  whole-Selects n family offset len addr by from = elim (Bool-cases (n.bits == 8 * length n.ip)) [
    | inl f ↦
        rw (f, net_match)
          (λ rest m. let (t, g) = run-source_is nf p b family offset len addr rest m in (by ∙ t, g))
    | inr f ↦
        rw (f, net_match)
          (λ rest m.
            let (t, g) = run-source_in nf p b family offset len (mask_of n) addr rest m in
            (from ∙ t, g))
  ]

  net_match-Selects :
      (n : IpNet)
      → Selects nf p b (sent_within nf p n) (elim (to4 n.ip) as (λ o. Option (List Expr)) [
        | some ip4 ↦
            if length n.ip == 4
            then some (net_match nfproto_ipv4 pos_src_addr.v4 4 eq ip4 n)
            else none
        | none ↦
            if length n.ip == 16
            then some (net_match nfproto_ipv6 pos_src_addr.v6 16 eq n.ip n)
            else none
      ])
  unfolding sent_by sent_from
  net_match-Selects n = elim (Option-cases (to4 n.ip)) [
    | inl e ↦ rw e (
        if-elim {A = Option (List Expr)} (Selects nf p b (sent_within nf p n)) (length n.ip == 16) _
          _
          (λ l.
            whole-Selects n nfproto_ipv6 8 16 n.ip (rw (e, sent_by) refl) (rw (e, sent_from) refl))
          (λ l. tt))
    | inr (ip4, e) ↦ rw e (
        if-elim {A = Option (List Expr)} (Selects nf p b (sent_within nf p n)) (length n.ip == 4) _
          _
          (λ l.
            whole-Selects n nfproto_ipv4 12 4 ip4 (rw (e, sent_by) refl) (rw (e, sent_from) refl))
          (λ l. tt))
  ]

  source_match-Selects :
      (net : Netlib) (src : Text)
      → Selects nf p b (is_source nf p net src) (cidr_match net src pos_src_addr)
  unfolding cidr_match_op
  source_match-Selects net src = elim (Bool-cases (is_list_comment src)) [
    | inl c ↦ rw (c, cidr_match_op) tt
    | inr c ↦ elim (Option-cases (entry_net net (trim_space src))) [
      | inl e ↦ rw (c, e, cidr_match_op) tt
      | inr (n, e) ↦ rw (c, e, cidr_match_op) (net_match-Selects n)
    ]
  ]

  -- Every match of a list lets in only whom `named` says.
  abbrev AllSelect : Bool → List (List Expr) → Type 0
  AllSelect named ms = All (λ m. Selects nf p b named (some m)) ms

  weaken-Selects :
      (x y : Bool) (m : Option (List Expr))
      → (x ≡ true → y ≡ true)
      → Selects nf p b x m
      → Selects nf p b y m
  weaken-Selects x y none h s = tt
  weaken-Selects x y (some match) h s = λ rest m. (h (s rest m).0, (s rest m).1)

  source_matches-AllSelect :
      (net : Netlib) (sources : List Text) (named : Bool)
      → (any (is_source nf p net) sources ≡ true → named ≡ true)
      → AllSelect named (source_matches net sources)
  unfolding source_matches
  source_matches-AllSelect net [] named h = tt
  source_matches-AllSelect net (src ∷ rest) named h =
      let s =
        weaken-Selects (is_source nf p net src) named (cidr_match net src pos_src_addr)
          (λ e. h (ground (arith, e))) (source_match-Selects net src) in
      let more = source_matches-AllSelect net rest named (λ e. h (ground (arith, e))) in
      elim (Option-cases (cidr_match net src pos_src_addr)) [
        | inl e ↦ rw (e, source_matches) more
        | inr (m, e) ↦ rw (e, source_matches) (subst (Selects nf p b named) e s, more)
      ]

  -- A kernel rule of a port rule, behind a match of a source or behind none.
  port_accept_rule-Safe :
      (proto : ℕ) (r : PortRule) (match : List Expr) (named : Bool)
      → IsPortRule r
      → Selects nf p b named (some match)
      → ((has_protocol nf p proto && (to_port nf p r.port && named)) ≡ true → b ≡ true)
      → Safe nf p b (port_accept_rule input_chain proto r match)
  unfolding same
  port_accept_rule-Safe proto r match named v s h =
      let ports = build_port_exprs r.port in
      let tail = counter ∷ verdict accept ∷ [] in
      let load = meta l4proto 1 in
      let test = cmp eq 1 (proto ∷ []) in
      accept-Safe nf p b (port_accept_rule input_chain proto r match)
        (port_accept_rule-accept input_chain proto r match) refl
        (λ m.
          let (q, (w, g)) = s (load ∷ test ∷ (ports ++ tail)) m in
          let (t, (u, k)) = run-reads nf p w load eq (proto ∷ []) (ports ++ tail) refl g in
          let o = run-build_port_exprs nf p u r.port tail v.port k in h (ground (arith, q, t, o)))

  with_sources-AllSafe :
      (proto : ℕ) (r : PortRule) (matches : List (List Expr)) (named : Bool)
      → IsPortRule r
      → AllSelect named matches
      → ((has_protocol nf p proto && (to_port nf p r.port && named)) ≡ true → b ≡ true)
      → AllSafe nf p b (with_sources input_chain proto r matches)
  unfolding with_sources
  with_sources-AllSafe proto r [] named v s h = tt
  with_sources-AllSafe proto r (match ∷ rest) named v s h = (
    port_accept_rule-Safe proto r match named v s.0 h,
    with_sources-AllSafe proto r rest named v s.1 h,
  )

  port_accept_rules-AllSafe :
      (net : Netlib) (proto : ℕ) (r : PortRule)
      → IsPortRule r
      → (is_opened nf p net proto r ≡ true → b ≡ true)
      → AllSafe nf p b (port_accept_rules net input_chain proto r)
  unfolding port_accept_rules
  port_accept_rules-AllSafe net proto r v h =
      let named = is_nil r.sources || any (is_source nf p net) r.sources in
      let matches = source_matches net r.sources in
      let selected = source_matches-AllSelect net r.sources named (λ e. ground (arith, e)) in
      if-elim {A = List Rule} (AllSafe nf p b) (not (is_nil r.sources) && is_nil matches) _ _
        (λ e. tt)
        (λ e.
          if-elim {A = List Rule} (AllSafe nf p b) (is_nil matches) _ _
            (λ n. (
              port_accept_rule-Safe proto r [] named v (λ rest m. (ground (arith, e, n), ([], m)))
                  h,
              tt,
            ))
            (λ n. with_sources-AllSafe proto r matches named v selected h))

  pub add_port_accepts-AllSafe :
      (net : Netlib) (proto : ℕ) (rs : List PortRule)
      → All IsPortRule rs
      → (any (opened_to nf p net proto) rs ≡ true → b ≡ true)
      → AllSafe nf p b (add_port_accepts net input_chain proto rs)
  unfolding add_port_accepts
  add_port_accepts-AllSafe net proto [] v h = tt
  add_port_accepts-AllSafe net proto (r ∷ rs) v h =
      All-append (Safe nf p b) _ _
        (if-elim {A = List Rule} (AllSafe nf p b) (filters_host r) _ _
          (λ f. port_accept_rules-AllSafe net proto r v.0 (λ e. h (ground (arith, f, e))))
          (λ f. tt))
        (add_port_accepts-AllSafe net proto rs v.1 (λ e. h (ground (arith, e))))
