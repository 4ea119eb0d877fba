-- ===== src/Nftables/Forward.antt =====
-- The forward chain of internal/core/nftables.go and forward_family.go.
use easywall.Prelude.{
  ℕ, ◌==◌, Bool, true, false, not, ◌&&◌, ◌||◌, Option, none, some, List, [], ◌∷◌, ◌++◌, is_nil,
  if◌then◌else◌,
}
use easywall.Text.{Text, codes, same}
use easywall.Rules.{PortRule, Rules}
use easywall.Rules.Validate.{is_list_comment}
use easywall.Nftables.{
  Expr, Rule, Kind, rule, meta, cmp, nfproto, counter, verdict, accept, drop, back, jump,
  forward_chain, forward_lists_chain, nfproto_ipv4, nfproto_ipv6, ipproto_tcp, ipproto_udp,
}
use easywall.Nftables.Net.{Netlib, IpNet, parse_network}
use easywall.Nftables.Match.{
  family_is, AddrPos, cidr_match, cidr_match_negated, without_family_test, pos_src_addr,
  pos_dst_addr,
}
use easywall.Nftables.Accepts.{
  Ipv6Mode, filter, passthrough, block, add_established_accept, filters_forwarded,
  port_accept_rules, on_match,
}
use easywall.Prelude.{length}

-- DockerConfig, RoutingMode and RoutingConfig.
pub record DockerConfig : Type 0 where
  pub enabled : Bool
  pub allow_bridge_networks : Bool
  pub custom_networks : List Text
  pub published_ports : Text

pub data RoutingMode : Type 0 where
  closed networks opened : RoutingMode

pub record RoutingConfig : Type 0 where
  pub mode : RoutingMode
  pub networks : List Text

-- DockerConfig.FiltersPublishedPorts
abbrev pub filters_published_ports : DockerConfig → Bool
filters_published_ports d = same d.published_ports (codes "filtered")

abbrev pub is_block : Ipv6Mode → Bool
is_block block = true
is_block filter = false
is_block passthrough = false

abbrev is_v4 : IpNet → Bool
is_v4 n = length n.ip == 4

-- The family of an entry's network: none for a comment and for what does not parse.
abbrev entry_is_v4 : Netlib → Text → Option Bool
entry_is_v4 net c =
    if is_list_comment c
    then none
    else elim (parse_network net c) [ none ↦ none | some n ↦ some (is_v4 n) ]

-- cidrFamilies
unfoldable pub cidr_families : Netlib → List Text → Bool × Bool
unfolding is_list_comment parse_network
cidr_families net [] = (false, false)
cidr_families net (c ∷ rest) =
    let (v4, v6) = cidr_families net rest in
    elim (entry_is_v4 net c) [ none ↦ (v4, v6) | some four ↦ (four || v4, not four || v6) ]

-- withoutIPv6
unfoldable pub without_ipv6 : Netlib → List Text → List Text
unfolding is_list_comment parse_network
without_ipv6 net [] = []
without_ipv6 net (c ∷ rest) =
    let kept = without_ipv6 net rest in
    elim (entry_is_v4 net c) [ none ↦ c ∷ kept | some four ↦ if four then c ∷ kept else kept ]

-- containerNetworks
unfoldable pub container_networks : Netlib → DockerConfig → List Text → Ipv6Mode → List Text
container_networks net docker detected mode =
    let cidrs = (if docker.allow_bridge_networks then detected else []) ++ docker.custom_networks in
    if not docker.enabled then [] else if is_block mode then without_ipv6 net cidrs else cidrs

-- ruleFamily
unfoldable pub rule_family : List Expr → Option ℕ
rule_family (meta nfproto r ∷ cmp op s (b ∷ []) ∷ rest) = some b
rule_family exprs = none

-- forwardFamilyPin, of a rule that names no family.
abbrev pub pinned : ℕ → Rule → Rule
pinned family r = record r { exprs = family_is family ++ r.exprs }

-- The rules whose sources name a family.
unfoldable pub named_rules : Ipv6Mode → List Rule → List Rule
named_rules ipv6 [] = []
named_rules ipv6 (r ∷ rs) =
    let rest = named_rules ipv6 rs in
    elim (rule_family r.exprs) [
      | none ↦ rest
      | some fam ↦ if fam == nfproto_ipv6 && is_block ipv6 then rest else r ∷ rest
    ]

-- The rules that name none, for one family.
unfoldable pub pinned_rules : ℕ → List Rule → List Rule
pinned_rules family [] = []
pinned_rules family (r ∷ rs) =
    let rest = pinned_rules family rs in
    elim (rule_family r.exprs) [ none ↦ pinned family r ∷ rest | some fam ↦ rest ]

unfoldable pub forward_port_rule : Netlib → Bool × Bool → Ipv6Mode → ℕ → PortRule → List Rule
forward_port_rule net (v4, v6) ipv6 proto r =
    let built = port_accept_rules net forward_chain proto r in
    if filters_forwarded r
    then named_rules ipv6 built
      ++ ((if v4 then pinned_rules nfproto_ipv4 built else [])
          ++ (if v6 then pinned_rules nfproto_ipv6 built else []))
    else []

unfoldable pub forward_port_list : Netlib → Bool × Bool → Ipv6Mode → ℕ → List PortRule → List Rule
forward_port_list net families ipv6 proto [] = []
forward_port_list net families ipv6 proto (r ∷ rs) =
    forward_port_rule net families ipv6 proto r ++ forward_port_list net families ipv6 proto rs

-- The deny of addForwardPortRules, once per network.
unfoldable pub forward_denies : Netlib → List Text → List Rule
forward_denies net [] = []
forward_denies net (cidr ∷ rest) =
    elim (cidr_match net cidr pos_dst_addr) [
      | none ↦ []
      | some dst ↦ elim (cidr_match_negated net cidr pos_src_addr) [
        | none ↦ []
        | some src ↦
            rule forward_chain (dst ++ (without_family_test src ++ (counter ∷ verdict drop ∷ [])))
            ∷ []
      ]
    ]
    ++ forward_denies net rest

-- addForwardPortRules
unfoldable pub add_forward_port_rules :
    Netlib → Rules → DockerConfig → List Text → Ipv6Mode → List Rule
add_forward_port_rules net rules docker cidrs ipv6 =
    let families = cidr_families net cidrs in
    if not (filters_published_ports docker)
    then []
    else if not families.0 && not families.1
    then []
    else forward_port_list net families ipv6 ipproto_tcp rules.tcp
      ++ (forward_port_list net families ipv6 ipproto_udp rules.udp ++ forward_denies net cidrs)

-- forwardPortRulesRender
unfoldable pub forward_port_rules_render : Netlib → DockerConfig → List Text → Bool
forward_port_rules_render net docker cidrs =
    let families = cidr_families net cidrs in
    filters_published_ports docker && (families.0 || families.1)

abbrev pub to_list {ℓ} : {A : Type ℓ} → Option A → List A
to_list none = []
to_list (some a) = a ∷ []

-- forwardExceptionMatches
unfoldable pub forward_exception_matches : Netlib → List Text → List (List Expr)
forward_exception_matches net [] = []
forward_exception_matches net (cidr ∷ rest) =
    to_list (cidr_match net cidr pos_src_addr)
    ++ (to_list (cidr_match net cidr pos_dst_addr) ++ forward_exception_matches net rest)

-- addForwardExceptions
unfoldable pub add_forward_exceptions : List (List Expr) → List Rule
add_forward_exceptions [] = []
add_forward_exceptions (match ∷ rest) =
    rule forward_chain (match ++ (verdict accept ∷ [])) ∷ add_forward_exceptions rest

-- The rules of a list of entries with one verdict.
unfoldable pub on_entries : Netlib → Text → AddrPos → Kind → List Text → List Rule
on_entries net c pos kind [] = []
on_entries net c pos kind (entry ∷ rest) =
    on_match c (cidr_match net entry pos) kind ++ on_entries net c pos kind rest

unfoldable pub blocked_matches : Netlib → List Text → List (List Expr)
blocked_matches net [] = []
blocked_matches net (entry ∷ rest) =
    to_list (cidr_match net entry pos_src_addr) ++ blocked_matches net rest

unfoldable pub blocked_rules : List (List Expr) → List Rule
blocked_rules [] = []
blocked_rules (match ∷ rest) =
    rule forward_lists_chain (match ++ (counter ∷ verdict drop ∷ [])) ∷ blocked_rules rest

abbrev pub is_open : RoutingMode → Bool
is_open opened = true
is_open closed = false
is_open networks = false

-- addForwardLists, and the chain that fwdLists is set to.
unfoldable pub add_forward_lists :
    Netlib → Rules → RoutingConfig → List Text → List Rule × Option Text
add_forward_lists net rules routing cidrs =
    let blocked = blocked_matches net rules.blocklist in
    if is_nil blocked && is_nil rules.feeds then ([], none) else (
      on_entries net forward_lists_chain pos_src_addr back cidrs
          ++ (blocked_rules blocked
              ++ (on_entries net forward_lists_chain pos_src_addr back rules.allowlist
                  ++ (if not (is_open routing.mode)
                      then rule forward_chain (verdict (jump forward_lists_chain) ∷ []) ∷ []
                      else on_entries net forward_chain pos_dst_addr (jump forward_lists_chain)
                          cidrs))),
      some forward_lists_chain,
    )

abbrev pub forward_cidrs : RoutingConfig → List Text → List Text
forward_cidrs routing cidrs = elim routing.mode [ networks ↦ cidrs ++ routing.networks | _ ↦ cidrs ]

-- buildForwardChain, and the chain that fwdLists is set to.
unfoldable pub build_forward_chain :
    Netlib → Rules → DockerConfig → RoutingConfig → List Text → Ipv6Mode → List Rule × Option Text
build_forward_chain net rules docker routing cidrs ipv6 =
    let exceptions =
      if is_open routing.mode
      then []
      else forward_exception_matches net (forward_cidrs routing cidrs) in
    let (lists, chain) = add_forward_lists net rules routing cidrs in
    if not (forward_port_rules_render net docker cidrs) && is_nil exceptions then ([], none) else (
      add_established_accept forward_chain
          ++ (lists
              ++ (add_forward_port_rules net rules docker cidrs ipv6
                  ++ add_forward_exceptions exceptions)),
      chain,
    )
