-- ===== src/Nftables/Quiet/ForwardAccepts.antt =====
-- The accepts that the forward chain takes over from the port rules.
use easywall.Prelude.{
  ℕ, ◌≡◌, refl, true, ◌&&◌, not, Option, none, some, List, [], ◌∷◌, ◌++◌, All, if-elim,
  if◌then◌else◌, is_nil, ◌∙◌, ◌==◌,
}
use easywall.Text.{Text, same}
use easywall.Rules.{PortRule}
use easywall.Nftables.{Expr, Rule, verdict, counter, accept, forward_chain, cmp, eq, nfproto_ipv6}
use easywall.Nftables.Net.{Netlib}
use easywall.Nftables.Match.{protocol_is, build_port_exprs}
use easywall.Nftables.Accepts.{
  Ipv6Mode, port_accept_rule, with_sources, port_accept_rules, source_matches,
}
use easywall.Nftables.Forward.{rule_family, pinned, is_block, named_rules, pinned_rules}
use easywall.Nftables.Netfilter.{kind_of}
use easywall.Nftables.Reading.{kind_of-append}

-- An accept of the forward chain.
abbrev pub IsForwardAccept : Rule → Type 0
IsForwardAccept r = (same r.chain forward_chain ≡ true) × (kind_of r.exprs ≡ some accept)

pub port_accept_rule-accept :
    (c : Text) (proto : ℕ) (r : PortRule) (match : List Expr)
    → kind_of (port_accept_rule c proto r match).exprs ≡ some accept
unfolding kind_of
port_accept_rule-accept c proto r match =
    let ports = build_port_exprs r.port in
    kind_of-append match _ (cmp eq 1 (proto ∷ []) ∷ (ports ++ (counter ∷ verdict accept ∷ [])))
    ∙ kind_of-append (protocol_is proto ++ ports) counter (verdict accept ∷ [])

pub with_sources-IsForwardAccept :
    (proto : ℕ) (r : PortRule) (matches : List (List Expr))
    → All IsForwardAccept (with_sources forward_chain proto r matches)
unfolding with_sources same
with_sources-IsForwardAccept proto r [] = tt
with_sources-IsForwardAccept proto r (match ∷ rest) = (
  (refl, port_accept_rule-accept forward_chain proto r match),
  with_sources-IsForwardAccept proto r rest,
)

pub port_accept_rules-IsForwardAccept :
    (net : Netlib) (proto : ℕ) (r : PortRule)
    → All IsForwardAccept (port_accept_rules net forward_chain proto r)
unfolding port_accept_rules same
port_accept_rules-IsForwardAccept net proto r =
    let matches = source_matches net r.sources in
    if-elim {A = List Rule} (All IsForwardAccept) (not (is_nil r.sources) && is_nil matches) _ _
      (λ b. tt)
      (λ b.
        if-elim {A = List Rule} (All IsForwardAccept) (is_nil matches) _ _
          (λ b. ((refl, port_accept_rule-accept forward_chain proto r []), tt))
          (λ b. with_sources-IsForwardAccept proto r matches))

pub pinned-IsForwardAccept :
    (family : ℕ) (c : Text) (es : List Expr) (tag : Option Text)
    → (same c forward_chain ≡ true) × (kind_of es ≡ some accept)
    → IsForwardAccept (pinned family (record { chain = c; exprs = es; tag = tag }))
unfolding kind_of
pinned-IsForwardAccept family c [] tag (f, k) = cc k
pinned-IsForwardAccept family c (e ∷ es) tag (f, k) = (f, k)

pub named_rules-IsForwardAccept :
    (ipv6 : Ipv6Mode) (rs : List Rule)
    → All IsForwardAccept rs
    → All IsForwardAccept (named_rules ipv6 rs)
unfolding named_rules
named_rules-IsForwardAccept ipv6 [] s = tt
named_rules-IsForwardAccept ipv6 (r ∷ rs) s =
    let rest = named_rules-IsForwardAccept ipv6 rs s.1 in
    elim (rule_family r.exprs)
      as (λ o. All IsForwardAccept (elim o as (λ o. List Rule) [
        | none ↦ named_rules ipv6 rs
        | some fam ↦
            if fam == nfproto_ipv6 && is_block ipv6
            then named_rules ipv6 rs
            else r ∷ named_rules ipv6 rs
      ])) [
        | none ↦ rest
        | some fam ↦
            if-elim {A = List Rule} (All IsForwardAccept) (fam == nfproto_ipv6 && is_block ipv6) _ _
              (λ b. rest) (λ b. (s.0, rest))
      ]

pub pinned_rules-IsForwardAccept :
    (family : ℕ) (rs : List Rule)
    → All IsForwardAccept rs
    → All IsForwardAccept (pinned_rules family rs)
unfolding pinned_rules
pinned_rules-IsForwardAccept family [] s = tt
pinned_rules-IsForwardAccept family (r ∷ rs) s =
    let rest = pinned_rules-IsForwardAccept family rs s.1 in
    elim (rule_family r.exprs)
      as (λ o. All IsForwardAccept (elim o as (λ o. List Rule) [
        | none ↦ pinned family r ∷ pinned_rules family rs
        | some fam ↦ pinned_rules family rs
      ])) [
        | none ↦ (pinned-IsForwardAccept family r.chain r.exprs r.tag s.0, rest)
        | some fam ↦ rest
      ]
